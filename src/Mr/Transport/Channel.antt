-- ===== src/Mr/Transport/Channel.antt =====
-- The transport of map-reduce/task-channels: a channel of tokio for each worker's work and for each
-- slot's statuses. The code stands in src/channel_worker_synchronization.rs,
-- src/channel_status_sender.rs, src/channel_work_sender.rs, src/channel_work_receiver.rs,
-- src/channel_shutdown_signal.rs, src/mapper.rs and src/reducer.rs there. The channels, the tasks
-- and the cancellation token are parameters.
pub mod Slots
pub mod Round
pub mod Assigned
use distributed_systems.Prelude.{
  ℕ, zero, suc, ◌+◌, Bool, true, Option, none, some, List, [], ◌∷◌, ◌++◌, Result, ok, err,
  get_elem?, nat_eq,
}
use distributed_systems.Prelude.HashMap
use distributed_systems.Prelude.HashMap.{HashMap}
use distributed_systems.Mr.Worker.{Status, Task}
use distributed_systems.Mr.Worker.Handle.{WorkSender, WorkerRuntime, Resources, Mapper}
use distributed_systems.Mr.Transport.{WorkerMessage, Mpsc, Factory, create_with}

-- The receivers of `tokio_stream`, with state `W`: `next` of a `StreamMap`, and
-- `timeout(10 ms, stream.next())` with `none` for the timeout and for the end.
pub record Streams (W Rx Msg : Type 0) : Type 0 where
  pub next : W → HashMap ℕ Rx → W × Option (ℕ × Msg)
  pub next_within : W → Rx → ℕ → W × Option Msg

pub record ChannelWorkerSynchronization (Tx Rx : Type 0) : Type 0 where
  pub completion_txs : List Tx
  pub completion_streams : HashMap ℕ Rx

-- `list[i] = a`, which panics out of range
unfoldable pub set_elem? : {A : Type 0} → List A → ℕ → A → Option (List A)
set_elem? [] i a = none
set_elem? (x ∷ xs) zero a = some (a ∷ xs)
set_elem? (x ∷ xs) (suc i) a = elim (set_elem? xs i a) [ none ↦ none | some ys ↦ some (x ∷ ys) ]

unfoldable pub get_status_sender :
    {Tx Rx : Type 0} → ChannelWorkerSynchronization Tx Rx → ℕ → Option Tx
get_status_sender s worker_id = get_elem? s.completion_txs worker_id

-- the answer of `wait_next` to a message from the stream of a slot
unfoldable pub result_of : ℕ → Status → Result ℕ ℕ
result_of stream_idx (Status.ok worker_id) = ok worker_id
result_of stream_idx Status.err = err stream_idx

module _ {W Tx Rx : Type 0} (mpsc : Mpsc W Tx Rx Status) (streams : Streams W Rx Status) where
  unfoldable pub register : W → Tx → ℕ → W × Bool
  register w tx worker_id = (w, true)

  unfoldable pub send : W → Tx → Status → W × Bool
  send w tx result = mpsc.send w tx result

  -- the slots from `worker_idx` on
  unfoldable pub add_slots :
      ℕ → ℕ → W → ChannelWorkerSynchronization Tx Rx → W × ChannelWorkerSynchronization Tx Rx
  add_slots zero worker_idx w s = (w, s)
  add_slots (suc n) worker_idx w s =
      let (w', tx, rx) = mpsc.channel w 10 in
      add_slots n (worker_idx + 1) w' (record {
        completion_txs = s.completion_txs ++ tx ∷ [];
        completion_streams = HashMap.insert s.completion_streams worker_idx rx;
      })

  unfoldable pub setup : W → ℕ → W × ChannelWorkerSynchronization Tx Rx
  unfolding add_slots
  setup w num_workers =
      add_slots num_workers 0 w (record { completion_txs = []; completion_streams = [] })

  unfoldable pub wait_for_worker_ready : W → ℕ → W × Bool
  wait_for_worker_ready w worker_id = (w, true)

  -- What is pending is discarded until nothing comes for 10 ms, at most `fuel` messages.
  unfoldable pub drain : ℕ → W → Rx → W
  drain zero w stream = w
  drain (suc fuel) w stream =
      let (w', message) = streams.next_within w stream 10 in
      elim message [ none ↦ w' | some m ↦ drain fuel w' stream ]

  -- the stream that is removed from a slot
  unfoldable pub drain_slot : ℕ → W → ChannelWorkerSynchronization Tx Rx → ℕ → W
  unfolding drain
  drain_slot fuel w s worker_id = elim (HashMap.get s.completion_streams worker_id) [
    | none ↦ w
    | some stream ↦ drain fuel w stream
  ]

  unfoldable pub reset_worker :
      ℕ
      → W
      → ChannelWorkerSynchronization Tx Rx
      → ℕ
      → Option (W × ChannelWorkerSynchronization Tx Rx × Tx)
  unfolding drain_slot set_elem? get_status_sender
  reset_worker fuel w s worker_id =
      let w1 = drain_slot fuel w s worker_id in
      let (w2, tx, rx) = mpsc.channel w1 10 in
      elim (set_elem? s.completion_txs worker_id tx) [
        | none ↦ none
        | some txs ↦
            let s' : ChannelWorkerSynchronization Tx Rx = record {
              completion_txs = txs;
              completion_streams =
                  HashMap.insert (HashMap.remove s.completion_streams worker_id) worker_id rx;
            } in
            elim (get_status_sender s' worker_id) [
              | none ↦ none
              | some sender ↦ some (w2, s', sender)
            ]
      ]

  unfoldable pub wait_next : W → ChannelWorkerSynchronization Tx Rx → W × Option (Result ℕ ℕ)
  unfolding result_of
  wait_next w s =
      let (w', message) = streams.next w s.completion_streams in
      elim message [
        | none ↦ (w', none)
        | some (stream_idx, msg) ↦ (w', some (result_of stream_idx msg))
      ]

module _ {W Tx Rx A C : Type 0} (mpsc : Mpsc W Tx Rx (WorkerMessage A C)) where
  unfoldable pub create_pair : W → ℕ → W × Tx × Rx
  create_pair w buffer = mpsc.channel w buffer

  -- `ChannelWorkReceiver::recv`
  unfoldable pub recv : W → Rx → W × Option (WorkerMessage A C)
  recv w rx = mpsc.recv w rx

  -- `task::spawn` of what a task does to the state
  module _ (spawn : (W → W) → W → W) where
    unfoldable pub work_sender : WorkSender W Tx A C
    work_sender = record {
      initialize = λ tx token w. spawn (λ v. (mpsc.send v tx (WorkerMessage.initialize token)).0) w;
      send_work = λ tx assignment completion w.
          spawn (λ v. (mpsc.send v tx (WorkerMessage.work assignment completion)).0) w;
    }

    -- `create_worker` of `MapperFactory`
    unfoldable pub create_mapper :
        {S SD TaskHandle Error : Type 0}
        → WorkerRuntime W (Task × Resources S SD Rx) TaskHandle Error
        → Factory S SD
        → W
        → ℕ
        → W × Mapper Tx TaskHandle
    unfolding work_sender create_pair create_with
    create_mapper runtime factory w id =
        let (w1, work_channel, work_rx) = create_pair w 10 in
        create_with work_sender runtime factory id work_channel work_rx w1

    -- and of `ReducerFactory`, which has the same body
    unfoldable pub create_reducer :
        {S SD TaskHandle Error : Type 0}
        → WorkerRuntime W (Task × Resources S SD Rx) TaskHandle Error
        → Factory S SD
        → W
        → ℕ
        → W × Mapper Tx TaskHandle
    unfolding create_mapper
    create_reducer = create_mapper

-- `ChannelShutdownSignal`, for a `CancellationToken` of tokio
unfoldable pub is_cancelled : {W Token : Type 0} → (W → Token → Bool) → W → Token → Bool
is_cancelled token_is_cancelled w token = token_is_cancelled w token
