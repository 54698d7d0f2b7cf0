-- ===== src/Mr/Transport/Channel/Assigned.antt =====
-- An assignment on its way from the executor to a worker and back, over the channels of
-- map-reduce/task-channels.
use mathlib.Core.List.{nil≢cons}
use mathlib.Core.Path.{ap₂}
use native.Mathlib.Decide.{ℕ_discrete}
use distributed_systems.Prelude.{
  ℕ, ◌<◌, ◌≡◌, ◌≢◌, sym, ap, ◌∙◌, ◌⊎◌, inl, inr, false, Option, none, some, some-inj, List, [], ◌∷◌,
  ◌++◌, ok, err, Option-cases, nat_eq, Ends,
}
use distributed_systems.Prelude.HashMap
use distributed_systems.Mr.Worker.{Status, Task, again, on_received}
use distributed_systems.Mr.Worker.Handle.{WorkerRuntime, Resources, Mapper, send_worker}
use distributed_systems.Mr.Worker.Answers.{IsRecorded, on_work_answers_once}
use distributed_systems.Mr.Worker.Finishes.{Keeps, on_work-Keeps}
use distributed_systems.Mr.Transport.{WorkerMessage, Mpsc, told}
use distributed_systems.Mr.Transport.Channel.{
  Streams, ChannelWorkerSynchronization, send, result_of, wait_next, work_sender,
}
use distributed_systems.Mr.Transport.Channel.Slots.{IsMpsc, result_of-told}
use distributed_systems.Mr.Transport.Channel.Round.{
  Surroundings, runtime_of, dispatch, worker_round,
}

cons-inj : {A : Type 0} (x y : A) (xs ys : List A) → x ∷ xs ≡ y ∷ ys → x ≡ y
cons-inj x y xs ys e = cc

module _ {W Tx Rx WorkRx A : Type 0} (mpsc : Mpsc W Tx Rx Status) (streams : Streams W Rx Status)
    (env : Surroundings W WorkRx (WorkerMessage A Tx)) where
  -- What tokio documents of these calls: a message that is sent is the last of its channel, one that
  -- waits is received, in order, by a receiver or by the map of the streams, and nothing else
  -- changes what waits. A task that is spawned runs.
  pub record IsTokio {WorkTx : Type 0} (work_mpsc : Mpsc W WorkTx WorkRx (WorkerMessage A Tx))
      (spawn : (W → W) → W → W) (peer : Tx → Rx) (queued : W → Rx → List Status)
      (work_peer : WorkTx → WorkRx) (messages : W → WorkRx → List (WorkerMessage A Tx))
      : Type 0 where
    pub channels : IsMpsc mpsc streams peer queued
    pub next_comes :
        (w : W) (m : HashMap.HashMap ℕ Rx) (id : ℕ) (rx : Rx) (msg : Status) (rest : List Status)
        → HashMap.get m id ≡ some rx
        → queued w rx ≡ msg ∷ rest
        → (streams.next w m).1 ≢ none
    pub send_last :
        (w : W) (tx : Tx) (msg : Status)
        → queued ((mpsc.send w tx msg).0) (peer tx) ≡ queued w (peer tx) ++ msg ∷ []
    pub send_elsewhere :
        (w : W) (tx : Tx) (msg : Status) (rx : Rx)
        → rx ≢ peer tx
        → queued ((mpsc.send w tx msg).0) rx ≡ queued w rx
    pub work_send_last :
        (w : W) (tx : WorkTx) (msg : WorkerMessage A Tx)
        → messages ((work_mpsc.send w tx msg).0) (work_peer tx)
          ≡ messages w (work_peer tx) ++ msg ∷ []
    pub work_send_queued :
        (w : W) (tx : WorkTx) (msg : WorkerMessage A Tx) (rx : Rx)
        → queued ((work_mpsc.send w tx msg).0) rx ≡ queued w rx
    pub recv_first :
        (w : W) (rx : WorkRx) (ms : ℕ) (msg : WorkerMessage A Tx) (rest : List (WorkerMessage A Tx))
        → messages w rx ≡ msg ∷ rest
        → (env.recv_within w rx ms).1 ≡ some (some msg)
    pub recv_queued :
        (w : W) (work_rx : WorkRx) (ms : ℕ) (rx : Rx)
        → queued ((env.recv_within w work_rx ms).0) rx ≡ queued w rx
    pub cancelled_queued : (w : W) (rx : Rx) → queued ((env.is_cancelled w).0) rx ≡ queued w rx
    pub cancelled_messages :
        (w : W) (rx : WorkRx) → messages ((env.is_cancelled w).0) rx ≡ messages w rx
    pub below_queued :
        (w : W) (n : ℕ) (rx : Rx) → queued ((env.random_below w n).0) rx ≡ queued w rx
    pub up_to_queued :
        (w : W) (n : ℕ) (rx : Rx) → queued ((env.random_up_to w n).0) rx ≡ queued w rx
    pub sleep_queued : (w : W) (n : ℕ) (rx : Rx) → queued (env.sleep w n) rx ≡ queued w rx
    pub spawn_runs : (f : W → W) (w : W) → spawn f w ≡ f w

  module _ {WorkTx : Type 0} (work_mpsc : Mpsc W WorkTx WorkRx (WorkerMessage A Tx))
      (spawn : (W → W) → W → W) (peer : Tx → Rx) (queued : W → Rx → List Status)
      (work_peer : WorkTx → WorkRx) (messages : W → WorkRx → List (WorkerMessage A Tx))
      (tokio : IsTokio work_mpsc spawn peer queued work_peer messages) where
    module _ (s : ChannelWorkerSynchronization Tx Rx) (slot : ℕ) (tx : Tx) where
      -- Nothing waits in the streams of the other slots.
      abbrev IsQuietBut : W → Type 0
      IsQuietBut w =
          (j : ℕ) (rx : Rx)
          → j ≢ slot
          → HashMap.get s.completion_streams j ≡ some rx
          → queued w rx ≡ []

      same_elsewhere :
          (v w : W) → ((rx : Rx) → queued v rx ≡ queued w rx) → IsQuietBut w → IsQuietBut v
      same_elsewhere v w same quiet j rx other at = same rx ∙ quiet j rx other at

      -- What alone waits is what the executor is told.
      wait_next_tells :
          (w : W) (status : Status)
          → HashMap.get s.completion_streams slot ≡ some (peer tx)
          → queued w (peer tx) ≡ status ∷ []
          → IsQuietBut w
          → (wait_next mpsc streams w s).1 ≡ some (told slot status)
      unfolding wait_next result_of
      wait_next_tells w status at waits quiet =
          elim (Option-cases ((streams.next w s.completion_streams).1)) [
            | inl nothing ↦
                absurd (
                  tokio.next_comes w s.completion_streams slot (peer tx) status [] at waits nothing)
            | inr ((j, msg), comes) ↦
                let (rx, rest, at_j, first) =
                  tokio.channels.next_waits w s.completion_streams j msg comes in
                elim (ℕ_discrete j slot) [
                  | no other ↦ absurd (nil≢cons (sym (quiet j rx other at_j) ∙ first))
                  | yes same ↦
                      let one : rx ≡ peer tx =
                        some-inj rx (peer tx)
                          (sym at_j ∙ ap (HashMap.get s.completion_streams) same ∙ at) in
                      let sent : msg ∷ rest ≡ status ∷ [] = sym first ∙ ap (queued w) one ∙ waits in
                      rw (comes, wait_next)
                        (ap some
                          (result_of-told j msg ∙ ap₂ told same (cons-inj msg status rest [] sent)))
                ]
          ]

      module _ (task : Task) (job : W → A → Option W) (a : A)
          (distinct : (j : ℕ) (rx : Rx)
            → j ≢ slot
            → HashMap.get s.completion_streams j ≡ some rx
            → rx ≢ peer tx)
          (delay : (0 < task.straggler_delay_ms) ⊎ (task.straggler_probability ≡ 0))
          (returns : (v : W)
            → (v' : W) × (job v a ≡ some v') × ((rx : Rx) → queued v' rx ≡ queued v rx)) where
        recorded :
            (work_rx : WorkRx)
            → IsRecorded (runtime_of mpsc streams env work_rx tx) (λ v. queued v (peer tx))
        unfolding runtime_of send
        recorded work_rx = record {
          sent-send = λ w st. tokio.send_last w tx st;
          sent-random_below = λ w n. tokio.below_queued w n (peer tx);
          sent-random_up_to = λ w n. tokio.up_to_queued w n (peer tx);
          sent-sleep = λ w n. tokio.sleep_queued w n (peer tx);
        }

        keeps_quiet : (work_rx : WorkRx) → Keeps (runtime_of mpsc streams env work_rx tx) IsQuietBut
        unfolding runtime_of send
        keeps_quiet work_rx = record {
          send = λ w st quiet j rx other at.
              tokio.send_elsewhere w tx st rx (distinct j rx other at) ∙ quiet j rx other at;
          random_below = λ w n. same_elsewhere _ w (tokio.below_queued w n);
          random_up_to = λ w n. same_elsewhere _ w (tokio.up_to_queued w n);
          sleep = λ w n. same_elsewhere _ w (tokio.sleep_queued w n);
        }

        job_keeps_quiet : (v : W) → IsQuietBut v → Ends IsQuietBut (job v a)
        job_keeps_quiet v quiet =
            let (v', returned, same) = returns v in rw returned (same_elsewhere v' v same quiet)

        -- One status waits, and the executor is told what it says.
        abbrev Answered : W → Type 0
        Answered w' =
            ((queued w' (peer tx) ≡ Status.ok task.id ∷ [])
              × ((wait_next mpsc streams w' s).1 ≡ some (ok task.id)))
            ⊎ ((queued w' (peer tx) ≡ Status.err ∷ [])
                × ((wait_next mpsc streams w' s).1 ≡ some (err slot)))

        -- The round in which the assignment comes.
        round_answers :
            (work_rx : WorkRx) (w : W) (rest : List (WorkerMessage A Tx))
            → messages w work_rx ≡ WorkerMessage.work a tx ∷ rest
            → HashMap.get s.completion_streams slot ≡ some (peer tx)
            → IsQuietBut w
            → queued w (peer tx) ≡ []
            → ((v : W) → (env.is_cancelled v).1 ≡ false)
            → (w' : W) × (worker_round mpsc streams env task job work_rx w ≡ again w') × Answered w'
        unfolding worker_round dispatch on_received
        round_answers work_rx w rest waits at quiet empty runs =
            let w1 = (env.is_cancelled w).0 in
            let w2 = (env.recv_within w1 work_rx 100).0 in
            let comes =
              tokio.recv_first w1 work_rx 100 (WorkerMessage.work a tx) rest
                (tokio.cancelled_messages w work_rx ∙ waits) in
            let same =
              λ (rx : Rx). tokio.recv_queued w1 work_rx 100 rx ∙ tokio.cancelled_queued w rx in
            let (w3, goes, sent) =
              on_work_answers_once (runtime_of mpsc streams env work_rx tx)
                (λ v. queued v (peer tx)) (recorded work_rx) task job a w2 delay
                (λ v. let (v', returned, kept) = returns v in (v', returned, kept (peer tx))) in
            let still =
              on_work-Keeps (runtime_of mpsc streams env work_rx tx) IsQuietBut
                (keeps_quiet work_rx) task job a w2 job_keeps_quiet
                (same_elsewhere w2 w same quiet) in
            let quiet3 : IsQuietBut w3 = rw goes at still in
            let before = same (peer tx) ∙ empty in
            (
              w3,
              rw (runs w) (rw (comes, dispatch) goes),
              elim sent [
                | inl done ↦
                    let one = done ∙ ap (λ q. q ++ Status.ok task.id ∷ []) before in
                    inl (one, wait_next_tells w3 (Status.ok task.id) at one quiet3)
                | inr failed ↦
                    let one = failed ∙ ap (λ q. q ++ Status.err ∷ []) before in
                    inr (one, wait_next_tells w3 Status.err at one quiet3)
              ],
            )

      -- One assignment over the channels: what the executor sends to an idle worker, whose slot's
      -- stream alone can fill, is answered by the worker's next round with exactly one status: that
      -- alone then waits in the slot's channel, and `wait_next` tells it, `Ok` with the worker's id, or `Err` with its slot. Nobody cancels, a
      -- delay can be drawn where stragglers are simulated, and the job returns and leaves the
      -- channels alone.
      pub assignment_is_answered :
          {R SD TaskHandle Error : Type 0}
          (runtime : WorkerRuntime W (Task × Resources R SD WorkRx) TaskHandle Error)
          (worker : Mapper WorkTx TaskHandle) (task : Task) (job : W → A → Option W) (a : A) (w : W)
          → ((j : ℕ) (rx : Rx)
              → j ≢ slot
              → HashMap.get s.completion_streams j ≡ some rx
              → rx ≢ peer tx)
          → (0 < task.straggler_delay_ms) ⊎ (task.straggler_probability ≡ 0)
          → ((v : W) → (v' : W) × (job v a ≡ some v') × ((rx : Rx) → queued v' rx ≡ queued v rx))
          → HashMap.get s.completion_streams slot ≡ some (peer tx)
          → IsQuietBut w
          → queued w (peer tx) ≡ []
          → messages w (work_peer worker.work_channel) ≡ []
          → ((v : W) → (env.is_cancelled v).1 ≡ false)
          → let sent = send_worker (work_sender work_mpsc spawn) runtime worker a tx w in
            (w' : W) × (worker_round mpsc streams env task job (work_peer worker.work_channel) sent
              ≡ again w')
            × (((queued w' (peer tx) ≡ Status.ok task.id ∷ [])
                  × ((wait_next mpsc streams w' s).1 ≡ some (ok task.id)))
                ⊎ ((queued w' (peer tx) ≡ Status.err ∷ [])
                    × ((wait_next mpsc streams w' s).1 ≡ some (err slot))))
      unfolding send_worker work_sender
      assignment_is_answered runtime worker task job a w distinct delay returns at quiet empty idle
            runs =
          let message = WorkerMessage.work a tx in
          let w0 = (work_mpsc.send w worker.work_channel message).0 in
          let same = tokio.work_send_queued w worker.work_channel message in
          let answers =
            round_answers task job a distinct delay returns (work_peer worker.work_channel) w0 []
              (tokio.work_send_last w worker.work_channel message
                ∙ ap (λ ms. ms ++ message ∷ []) idle)
              at (same_elsewhere w0 w same quiet) (same (peer tx) ∙ empty) runs in
          rw (tokio.spawn_runs (λ v. (work_mpsc.send v worker.work_channel message).0) w) answers
