-- ===== src/Examples/Messages.antt =====
-- Two status channels and a work channel: what each holds, by the number of the channel.
use distributed_systems.Prelude.{
  ℕ, suc, ◌≡◌, ◌≢◌, ◌⊎◌, inl, inr, refl, sym, ap, ◌∙◌, false, true, Option, none, some, some-inj,
  List, [], ◌∷◌, ◌++◌, nat_eq, ◌==◌, ==_iff, if_==, if◌then◌else◌, arith, Option-cases, ok, err,
  Bool-cases, zero,
}
use distributed_systems.Prelude.HashMap
use distributed_systems.Prelude.HashMap.{HashMap}
use distributed_systems.Mr.Worker.{Status, Task, again}
use distributed_systems.Mr.Worker.Handle.{WorkerRuntime, Resources, Mapper, send_worker}
use distributed_systems.Mr.Transport.{WorkerMessage, Mpsc}
use distributed_systems.Mr.Transport.Channel
use distributed_systems.Mr.Transport.Channel.{Streams, ChannelWorkerSynchronization, work_sender}
use distributed_systems.Mr.Transport.Channel.Slots.{IsMpsc}
use distributed_systems.Mr.Transport.Channel.Round.{Surroundings, worker_round}
use distributed_systems.Mr.Transport.Channel.Assigned.{IsTokio, assignment_is_answered}

abbrev Message : Type 0
Message = WorkerMessage ℕ ℕ

record Net : Type 0 where
  statuses : ℕ → List Status
  works : ℕ → List Message
  fresh : ℕ

abbrev put {ℓ} : {M : Type ℓ} → (ℕ → List M) → ℕ → List M → ℕ → List M
put f i ms j = if i == j then ms else f j

abbrev status_channels : Mpsc Net ℕ ℕ Status
status_channels = record {
  channel = λ w n.
      (record w { statuses = put w.statuses w.fresh []; fresh = suc w.fresh }, w.fresh, w.fresh);
  send = λ w tx m. (record w { statuses = put w.statuses tx (w.statuses tx ++ m ∷ []) }, true);
  recv = λ w rx. (w, none);
}

abbrev work_channels : Mpsc Net ℕ ℕ Message
work_channels = record {
  channel = λ w n. (w, w.fresh, w.fresh);
  send = λ w tx m. (record w { works = put w.works tx (w.works tx ++ m ∷ []) }, true);
  recv = λ w rx. (w, none);
}

abbrev or_later : ℕ → List Status → Option (ℕ × Status) → Option (ℕ × Status)
or_later id [] later = later
or_later id (m ∷ rest) later = some (id, m)

abbrev waiting_at : Net → ℕ → Option ℕ → Option (ℕ × Status) → Option (ℕ × Status)
waiting_at w id none later = later
waiting_at w id (some rx) later = or_later id (w.statuses rx) later

-- the first key with a stream in which a message waits
abbrev next_of : Net → HashMap ℕ ℕ → HashMap ℕ ℕ → Option (ℕ × Status)
next_of w whole [] = none
next_of w whole ((id, _) ∷ rest) = waiting_at w id (HashMap.get whole id) (next_of w whole rest)

abbrev streams : Streams Net ℕ Status
streams = record { next = λ w m. (w, next_of w m m); next_within = λ w rx ms. (w, none) }

abbrev received : List Message → Option (Option Message)
received [] = none
received (m ∷ rest) = some (some m)

abbrev surroundings : Surroundings Net ℕ Message
surroundings = record {
  is_cancelled = λ w. (w, false);
  recv_within = λ w rx ms. (w, received (w.works rx));
  random_below = λ w n. (w, 0);
  random_up_to = λ w n. (w, 1);
  sleep = λ w n. w;
}

abbrev Waits : Net → HashMap ℕ ℕ → ℕ → Status → Type 0
Waits w whole id msg =
    (rx : ℕ) × (rest : List Status) × (HashMap.get whole id ≡ some rx)
    × (w.statuses rx ≡ msg ∷ rest)

or_later-cases :
    (id j : ℕ) (msg : Status) (q : List Status) (later : Option (ℕ × Status))
    → or_later id q later ≡ some (j, msg)
    → ((rest : List Status) × (q ≡ msg ∷ rest) × (id ≡ j)) ⊎ (later ≡ some (j, msg))
or_later-cases id j msg [] later e = inr e
or_later-cases id j msg (m ∷ rest) later e =
    let both = some-inj (id, m) (j, msg) e in
    inl (rest, ap (λ p. p.1 ∷ rest) both, ap (λ p. p.0) both)

next_of-Waits :
    (w : Net) (whole m : HashMap ℕ ℕ) (id : ℕ) (msg : Status)
    → next_of w whole m ≡ some (id, msg)
    → Waits w whole id msg
next_of-Waits w whole [] id msg e = absurd (ground (arith, e))
next_of-Waits w whole ((j, _) ∷ m) id msg e = elim (Option-cases (HashMap.get whole j)) [
  | inl gone ↦ next_of-Waits w whole m id msg (rw gone at e)
  | inr (rx, there) ↦
      elim (or_later-cases j id msg (w.statuses rx) (next_of w whole m) (rw there at e)) [
        | inl (rest, waits, same) ↦ (rx, rest, sym (ap (HashMap.get whole) same) ∙ there, waits)
        | inr later ↦ next_of-Waits w whole m id msg later
      ]
]

or_later-ne-none :
    (id : ℕ) (q : List Status) (later : Option (ℕ × Status))
    → later ≢ none
    → or_later id q later ≢ none
or_later-ne-none id [] later h = h
or_later-ne-none id (m ∷ rest) later h = λ e. cc

waiting_at-ne-none :
    (w : Net) (id : ℕ) (o : Option ℕ) (later : Option (ℕ × Status))
    → later ≢ none
    → waiting_at w id o later ≢ none
waiting_at-ne-none w id none later h = h
waiting_at-ne-none w id (some rx) later h = or_later-ne-none id (w.statuses rx) later h

next_of-ne-none :
    (w : Net) (whole m : HashMap ℕ ℕ) (id rx r : ℕ) (msg : Status) (rest : List Status)
    → HashMap.get m id ≡ some r
    → HashMap.get whole id ≡ some rx
    → w.statuses rx ≡ msg ∷ rest
    → next_of w whole m ≢ none
unfolding HashMap.get
next_of-ne-none w whole [] id rx r msg rest there at waits = absurd (ground (arith, there))
next_of-ne-none w whole ((j, k) ∷ m) id rx r msg rest there at waits = elim (Bool-cases (j == id)) [
  | inl same ↦
      let here = ap (HashMap.get whole) ((==_iff j id).0 same) ∙ at in rw here (rw waits (λ e. cc))
  | inr other ↦
      waiting_at-ne-none w j (HashMap.get whole j) (next_of w whole m)
        (next_of-ne-none w whole m id rx r msg rest (ground (arith, there)) at waits)
]

channels-IsMpsc : IsMpsc status_channels streams (λ tx. tx) (λ w. w.statuses)
channels-IsMpsc = record {
  channel_peer = λ w n. refl;
  channel_empty = λ w n. if_== w.fresh [] (w.statuses w.fresh);
  next_waits = λ w m id msg e. next_of-Waits w m m id msg e;
}

net-IsTokio :
    IsTokio status_channels streams surroundings work_channels
      (λ f w. f w)
      (λ tx. tx)
      (λ w. w.statuses)
      (λ tx. tx)
      (λ w. w.works)
net-IsTokio = record {
  channels = channels-IsMpsc;
  next_comes = λ w m id rx msg rest at waits. next_of-ne-none w m m id rx rx msg rest at at waits;
  send_last = λ w tx msg. if_== tx (w.statuses tx ++ msg ∷ []) (w.statuses tx);
  send_elsewhere = λ w tx msg rx other. ground arith;
  work_send_last = λ w tx msg. if_== tx (w.works tx ++ msg ∷ []) (w.works tx);
  work_send_queued = λ w tx msg rx. refl;
  recv_first = λ w rx ms msg rest waits. ap received waits;
  recv_queued = λ w work_rx ms rx. refl;
  cancelled_queued = λ w rx. refl;
  cancelled_messages = λ w rx. refl;
  below_queued = λ w n rx. refl;
  up_to_queued = λ w n rx. refl;
  sleep_queued = λ w n rx. refl;
  spawn_runs = λ f w. refl;
}

abbrev idle : Net
idle = record { statuses = λ rx. []; works = λ rx. []; fresh = 2 }

abbrev two_slots : ChannelWorkerSynchronization ℕ ℕ
two_slots = record { completion_txs = 0 ∷ 1 ∷ []; completion_streams = (0, 0) ∷ (1, 1) ∷ [] }

two_slots-distinct :
    (j rx : ℕ) → j ≢ 1 → HashMap.get two_slots.completion_streams j ≡ some rx → rx ≢ 1
unfolding HashMap.get
two_slots-distinct zero rx other at = λ e. absurd (ground (arith, at))
two_slots-distinct (suc zero) rx other at = absurd (other refl)
two_slots-distinct (suc (suc j)) rx other at = absurd (ground (arith, at))

abbrev unit_runtime : WorkerRuntime Net (Task × Resources ℕ ℕ ℕ) ℕ ℕ
unit_runtime = record { spawn = λ task w. (w, 0); join = λ handle w. (w, ok tt) }

abbrev worker : Mapper ℕ ℕ
worker = record { work_channel = 5; task_handle = 0 }

abbrev task : Task
task = record {
  id = 1;
  failure_probability = 20;
  straggler_probability = 30;
  straggler_delay_ms = 500;
}

assignment_is_answered_example :
    let sent = send_worker (work_sender work_channels (λ f w. f w)) unit_runtime worker 7 1 idle in
    (w' : Net) × (worker_round status_channels streams surroundings task (λ w a. some w) 5 sent
      ≡ again w')
    × (((w'.statuses 1 ≡ Status.ok 1 ∷ [])
          × ((Channel.wait_next status_channels streams w' two_slots).1 ≡ some (ok 1)))
        ⊎ ((w'.statuses 1 ≡ Status.err ∷ [])
            × ((Channel.wait_next status_channels streams w' two_slots).1 ≡ some (err 1))))
unfolding HashMap.get
assignment_is_answered_example =
    assignment_is_answered status_channels streams surroundings work_channels (λ f w. f w)
      (λ tx. tx) (λ w. w.statuses) (λ tx. tx) (λ w. w.works) net-IsTokio two_slots 1 1 unit_runtime
      worker task (λ w a. some w) 7 idle two_slots-distinct (inl (omega arith))
      (λ v. (v, refl, λ rx. refl)) refl (λ j rx other at. refl) refl refl (λ v. refl)
