-- ===== src/Examples/Transports.antt =====
-- One connection, two listeners and two channels.
use distributed_systems.Prelude.{
  ℕ, zero, suc, ◌<◌, ◌≡◌, ◌≢◌, refl, sym, ap, ◌∙◌, true, false, Option, none, some, some-inj, List,
  [], ◌∷◌, ◌++◌, length, length-append, take, drop, leb, if◌then◌else◌, nat_eq, arith, err,
}
use distributed_systems.Prelude.HashMap
use distributed_systems.Prelude.HashMap.{HashMap}
use distributed_systems.Mr.Worker.{Status}
use distributed_systems.Mr.Transport.{Mpsc}
use distributed_systems.Mr.Transport.Wire.{Tcp, Serde, write_frame, send_message, to_be_bytes}
use distributed_systems.Mr.Transport.Wire.Frames.{IsTcp, IsSerde}
use distributed_systems.Mr.Transport.Socket
use distributed_systems.Mr.Transport.Socket.{
  Listeners, CompletionMessage, SocketStatusSender, SocketWorkerSynchronization, Answer, answered,
  message_of, close_slot, listen_at, get_sender,
}
use distributed_systems.Mr.Transport.Socket.Messages.{status_round_trip}
use distributed_systems.Mr.Transport.Socket.Slots.{
  IsPaired, BindsPort, Replaced, reset_worker_moves_listener,
}
use distributed_systems.Mr.Transport.Channel
use distributed_systems.Mr.Transport.Channel.{
  Streams, ChannelWorkerSynchronization, set_elem?, get_status_sender, drain, drain_slot,
}
use distributed_systems.Mr.Transport.Channel.Slots
use distributed_systems.Mr.Transport.Channel.Slots.{IsMpsc, Tells, no_answer_of_replaced_worker}

-- The bytes of the one connection there is.
abbrev read : List ℕ → ℕ → List ℕ × Option (List ℕ)
read w n = if leb n (length w) then (drop n w, some (take n w)) else (w, none)

abbrev pipe : Tcp (List ℕ) (Unit {0})
pipe = record {
  connect = λ w port. ([], some tt);
  write_all = λ w c bytes. (w ++ bytes, true);
  read_exact = λ w c n. read w n;
  drop_stream = λ w c. w;
}

take-length : (first rest : List ℕ) → take (length first) (first ++ rest) ≡ first
take-length [] rest = refl
take-length (x ∷ first) rest = ap (λ l. x ∷ l) (take-length first rest)

drop-length : (first rest : List ℕ) → drop (length first) (first ++ rest) ≡ rest
drop-length [] rest = refl
drop-length (x ∷ first) rest = drop-length first rest

read-takes :
    (first rest : List ℕ)
    → ((read (first ++ rest) (length first)).1 ≡ some first)
      × ((read (first ++ rest) (length first)).0 ≡ rest)
read-takes first rest =
    let enough : leb (length first) (length (first ++ rest)) ≡ true =
      ground (arith, length-append first rest) in
    rw enough (ap some (take-length first rest), drop-length first rest)

read-short : (w : List ℕ) (n : ℕ) → length w < n → (read w n).1 ≡ none
read-short w n h = let short : leb n (length w) ≡ false = ground (arith, h) in rw short refl

pipe-IsTcp : IsTcp pipe (λ w c. w)
pipe-IsTcp = record {
  connect_empty = λ w port c e. refl;
  write_all_adds = λ w c bytes e. refl;
  drop_keeps = λ w c. refl;
  read_exact_takes = λ w c first rest e. rw e (read-takes first rest);
  read_exact_short = λ w c n h. read-short w n h;
}

abbrev to_bytes : CompletionMessage → Option (List ℕ)
to_bytes (CompletionMessage.success id) = some (0 ∷ id ∷ [])
to_bytes (CompletionMessage.failure id) = some (1 ∷ id ∷ [])

abbrev from_bytes : List ℕ → Option CompletionMessage
from_bytes (zero ∷ id ∷ []) = some (CompletionMessage.success id)
from_bytes (suc zero ∷ id ∷ []) = some (CompletionMessage.failure id)
from_bytes _ = none

abbrev two_bytes : Serde CompletionMessage
two_bytes = record { to_vec = to_bytes; from_slice = from_bytes }

two_bytes-IsSerde : IsSerde two_bytes
two_bytes-IsSerde (CompletionMessage.success id) bytes e = ap from_bytes (sym (some-inj _ bytes e))
two_bytes-IsSerde (CompletionMessage.failure id) bytes e = ap from_bytes (sym (some-inj _ bytes e))

two_bytes-short :
    (m : CompletionMessage) (bytes : List ℕ) → to_bytes m ≡ some bytes → length bytes < 4294967296
two_bytes-short (CompletionMessage.success id) bytes e =
    omega (arith, ap length (some-inj (0 ∷ id ∷ []) bytes e))
two_bytes-short (CompletionMessage.failure id) bytes e =
    omega (arith, ap length (some-inj (1 ∷ id ∷ []) bytes e))

-- A listener is its port, and a new one is port 40.
abbrev listening : Listeners (List ℕ) ℕ (Unit {0})
listening = record {
  bind = λ w port. some (w, 40, 40);
  accept = λ w l. (w, some tt);
  next = λ w m. (w, some (0, some tt));
  drop_listener = λ w l. w;
}

abbrev one_slot : SocketWorkerSynchronization ℕ
one_slot = record { listeners = (3, 9) ∷ []; ports = (3, 9) ∷ [] }

abbrev sender : SocketStatusSender
sender = record { port = 9; worker_id = 3 }

status_round_trip_example :
    (w2 : List ℕ) × (Socket.wait_next pipe listening two_bytes 1
        ((Socket.send pipe listening two_bytes [] sender Status.err).0)
        one_slot
      ≡ answered w2 (some (err 3)))
unfolding Socket.send send_message write_frame message_of to_be_bytes
status_round_trip_example =
    status_round_trip pipe listening two_bytes (λ w c. w) pipe-IsTcp two_bytes-IsSerde
      two_bytes-short [] sender Status.err tt one_slot 0 0 refl refl refl refl

listening-BindsPort : BindsPort pipe listening (λ l. l)
listening-BindsPort w w' p actual l e =
    let both = some-inj (w, 40, 40) (w', l, actual) e in
    sym (ap (λ t. t.1) both) ∙ ap (λ t. t.2) both

one_slot-IsPaired : IsPaired pipe listening (λ l. l) one_slot
unfolding HashMap.get
one_slot-IsPaired j = ground arith

abbrev moved : SocketWorkerSynchronization ℕ
moved = record { listeners = (3, 40) ∷ []; ports = (3, 40) ∷ [] }

reset_worker_moves_listener_example :
    Replaced pipe listening (λ l. l) one_slot moved 3 (record { port = 40; worker_id = 3 })
unfolding Socket.reset_worker close_slot listen_at get_sender HashMap.get HashMap.insert
    HashMap.remove
reset_worker_moves_listener_example =
    reset_worker_moves_listener pipe listening (λ l. l) listening-BindsPort [] [] 3 one_slot moved
      (record { port = 40; worker_id = 3 }) one_slot-IsPaired refl

-- The messages of each channel.
abbrev Queues : Type 0
Queues = List (List Status)

abbrev queue : Queues → ℕ → List Status
queue [] rx = []
queue (q ∷ rest) zero = q
queue (q ∷ rest) (suc rx) = queue rest rx

abbrev channels : Mpsc Queues ℕ ℕ Status
channels = record {
  channel = λ w n. (w ++ [] ∷ [], length w, length w);
  send = λ w tx m. (w, true);
  recv = λ w rx. (w, none);
}

-- the first stream, if a message waits there
abbrev first_waiting : ℕ → List Status → Option (ℕ × Status)
first_waiting id [] = none
first_waiting id (m ∷ rest) = some (id, m)

abbrev next_of : Queues → HashMap ℕ ℕ → Option (ℕ × Status)
next_of w [] = none
next_of w ((id, rx) ∷ rest) = first_waiting id (queue w rx)

abbrev streams : Streams Queues ℕ Status
streams = record { next = λ w m. (w, next_of w m); next_within = λ w rx ms. (w, none) }

queue-new : (w : Queues) → queue (w ++ [] ∷ []) (length w) ≡ []
queue-new [] = refl
queue-new (q ∷ w) = queue-new w

first_waiting-lem :
    (j id : ℕ) (msg : Status) (q : List Status)
    → first_waiting j q ≡ some (id, msg)
    → (rest : List Status) × (q ≡ msg ∷ rest) × (j ≡ id)
first_waiting-lem j id msg [] e = absurd (ground (arith, e))
first_waiting-lem j id msg (m ∷ rest) e =
    let both = some-inj (j, m) (id, msg) e in (rest, ap (λ p. p.1 ∷ rest) both, ap (λ p. p.0) both)

next_of-waits :
    (w : Queues) (m : HashMap ℕ ℕ) (id : ℕ) (msg : Status)
    → next_of w m ≡ some (id, msg)
    → (rx : ℕ) × (rest : List Status) × (HashMap.get m id ≡ some rx) × (queue w rx ≡ msg ∷ rest)
unfolding HashMap.get
next_of-waits w [] id msg e = absurd (ground (arith, e))
next_of-waits w ((j, rx) ∷ m) id msg e =
    let (rest, waits, same) = first_waiting-lem j id msg (queue w rx) e in
    (rx, rest, ground (arith, same), waits)

channels-IsMpsc : IsMpsc channels streams (λ tx. tx) queue
channels-IsMpsc = record {
  channel_peer = λ w n. refl;
  channel_empty = λ w n. queue-new w;
  next_waits = λ w m id msg e. next_of-waits w m id msg e;
}

-- In slot 0 a failure waits, in slot 1 a completion.
abbrev queues : Queues
queues = (Status.err ∷ []) ∷ (Status.ok 1 ∷ []) ∷ []

abbrev two_slots : ChannelWorkerSynchronization ℕ ℕ
two_slots = record { completion_txs = 0 ∷ 1 ∷ []; completion_streams = (0, 0) ∷ (1, 1) ∷ [] }

two_slots-IsPaired : Slots.IsPaired channels streams (λ tx. tx) queue two_slots
unfolding HashMap.get
two_slots-IsPaired zero = refl
two_slots-IsPaired (suc zero) = refl
two_slots-IsPaired (suc (suc j)) = ground arith

abbrev after_reset : ChannelWorkerSynchronization ℕ ℕ
after_reset = record { completion_txs = 0 ∷ 2 ∷ []; completion_streams = (0, 0) ∷ (1, 2) ∷ [] }

no_answer_of_replaced_worker_example :
    (j : ℕ) × (1 ≢ j)
    × Tells channels streams (λ tx. tx) queue (queues ++ [] ∷ []) after_reset j (err 0)
unfolding Channel.reset_worker drain drain_slot set_elem? get_status_sender Channel.wait_next
    Channel.result_of HashMap.get HashMap.insert HashMap.remove
no_answer_of_replaced_worker_example =
    no_answer_of_replaced_worker channels streams (λ tx. tx) queue channels-IsMpsc 5 1 queues
      (queues ++ [] ∷ []) two_slots after_reset 2 (err 0) two_slots-IsPaired refl refl
