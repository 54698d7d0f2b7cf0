-- ===== src/Mr/Transport/Socket.antt =====
-- The transport of map-reduce/thread-socket: each message on a TCP connection of its own, to a port
-- on which its receiver listens. The code stands in src/socket_status_sender.rs,
-- src/socket_work_sender.rs, src/socket_work_receiver.rs, src/socket_worker_synchronization.rs,
-- src/socket_shutdown_signal.rs, src/mapper.rs and src/reducer.rs there. Sockets, threads and serde
-- are parameters.
pub mod Slots
pub mod Messages
use distributed_systems.Prelude.{
  ℕ, zero, suc, ◌+◌, Bool, true, false, Option, none, some, List, [], Result, ok, err, nat_eq,
  if◌then◌else◌,
}
use distributed_systems.Prelude.HashMap
use distributed_systems.Prelude.HashMap.{HashMap}
use distributed_systems.Mr.Worker.{Status, Task}
use distributed_systems.Mr.Worker.Handle.{WorkSender, WorkerRuntime, Resources, Mapper}
use distributed_systems.Mr.Transport.{WorkerMessage, Factory, create_with}
use distributed_systems.Mr.Transport.Wire.{Tcp, Serde, read_frame, send_message, post_message}

-- Listeners, with state `W`. `bind` is the bind to a port of 127.0.0.1, where 0 asks for a free one,
-- made non-blocking, with the port that it has: `none` is a panic of an `expect`. `next` is that of a
-- `StreamMap`: a connection that arrived at one of them, or an error there.
pub record Listeners (W L C : Type 0) : Type 0 where
  pub bind : W → ℕ → Option (W × L × ℕ)
  pub accept : W → L → W × Option C
  pub next : W → HashMap ℕ L → W × Option (ℕ × Option C)
  pub drop_listener : W → L → W

pub data CompletionMessage : Type 0 where
  success failure : ℕ → CompletionMessage

pub record SocketStatusSender : Type 0 where
  pub port : ℕ
  pub worker_id : ℕ

-- the answer of `wait_next`, or that it still waits when the fuel is used up
pub data Answer (W : Type 0) : Type 0 where
  answered : W → Option (Result ℕ ℕ) → Answer W
  waiting : W → Answer W

-- what a status becomes on the wire
unfoldable pub message_of : SocketStatusSender → Status → CompletionMessage
message_of sender (Status.ok id) = success id
message_of sender Status.err = failure sender.worker_id

-- and what the coordinator makes of it
unfoldable pub result_of : CompletionMessage → Result ℕ ℕ
result_of (success id) = ok id
result_of (failure id) = err id

pub record SocketWorkerSynchronization (L : Type 0) : Type 0 where
  pub listeners : HashMap ℕ L
  pub ports : HashMap ℕ ℕ

unfoldable pub get_sender :
    {L : Type 0} → SocketWorkerSynchronization L → ℕ → Option SocketStatusSender
get_sender s worker_id = elim (HashMap.get s.ports worker_id) [
  | none ↦ none
  | some port ↦ some (record { port = port; worker_id = worker_id })
]

module _ {W L C : Type 0} (tcp : Tcp W C) (sockets : Listeners W L C) where
  module _ (json : Serde CompletionMessage) where
    unfoldable pub register : W → SocketStatusSender → ℕ → W × Bool
    register w sender worker_id = (w, true)

    unfoldable pub send : W → SocketStatusSender → Status → W × Bool
    unfolding send_message message_of
    send w sender result = send_message tcp json w sender.port (message_of sender result)

    -- The loop of `wait_next`: a connection that yields no message is skipped.
    unfoldable pub wait_next : ℕ → W → SocketWorkerSynchronization L → Answer W
    unfolding read_frame result_of
    wait_next zero w s = waiting w
    wait_next (suc fuel) w s =
        let (w1, connection) = sockets.next w s.listeners in
        elim connection [
          | none ↦ answered w1 none
          | some (worker_id, none) ↦ wait_next fuel w1 s
          | some (worker_id, some stream) ↦
              let (w2, message) = read_frame tcp json w1 stream in
              elim message [
                | none ↦ wait_next fuel (tcp.drop_stream w2 stream) s
                | some msg ↦ answered (tcp.drop_stream w2 stream) (some (result_of msg))
              ]
        ]

  -- a listener of its own for slot `i`
  unfoldable pub listen_at :
      W → SocketWorkerSynchronization L → ℕ → Option (W × SocketWorkerSynchronization L)
  listen_at w s i = elim (sockets.bind w 0) [
    | none ↦ none
    | some (w', listener, port) ↦ some (
      w',
      record {
        listeners = HashMap.insert s.listeners i listener;
        ports = HashMap.insert s.ports i port;
      },
    )
  ]

  -- the slots from `i` on
  unfoldable pub listen_from :
      ℕ → ℕ → W → SocketWorkerSynchronization L → Option (W × SocketWorkerSynchronization L)
  unfolding listen_at
  listen_from zero i w s = some (w, s)
  listen_from (suc n) i w s = elim (listen_at w s i) [
    | none ↦ none
    | some (w', s') ↦ listen_from n (i + 1) w' s'
  ]

  unfoldable pub new : W → ℕ → Option (W × SocketWorkerSynchronization L)
  unfolding listen_from
  new w num_workers = listen_from num_workers 0 w (record { listeners = []; ports = [] })

  -- `listeners.remove(&worker_id)`, which drops the listener
  unfoldable pub close_slot :
      W → SocketWorkerSynchronization L → ℕ → W × SocketWorkerSynchronization L
  close_slot w s worker_id =
      let s' = record s { listeners = HashMap.remove s.listeners worker_id } in
      elim (HashMap.get s.listeners worker_id) [
        | none ↦ (w, s')
        | some old ↦ (sockets.drop_listener w old, s')
      ]

  unfoldable pub reset_worker :
      W
      → SocketWorkerSynchronization L
      → ℕ
      → Option (W × SocketWorkerSynchronization L × SocketStatusSender)
  unfolding close_slot listen_at get_sender
  reset_worker w s worker_id =
      let (w1, s1) = close_slot w s worker_id in
      elim (listen_at w1 s1 worker_id) [
        | none ↦ none
        | some (w2, s2) ↦ elim (get_sender s2 worker_id) [
          | none ↦ none
          | some sender ↦ some (w2, s2, sender)
        ]
      ]

  module _ {A : Type 0} (json : Serde (WorkerMessage A SocketStatusSender)) where
    -- the port of the sender and the listener of the receiver
    unfoldable pub create_pair : W → ℕ → Option (W × ℕ × L)
    create_pair w port = elim (sockets.bind w port) [
      | none ↦ none
      | some (w', listener, actual) ↦ some (w', actual, listener)
    ]

    -- `SocketWorkReceiver::recv`
    unfoldable pub recv : W → L → W × Option (WorkerMessage A SocketStatusSender)
    unfolding read_frame
    recv w listener =
        let (w1, connection) = sockets.accept w listener in
        elim connection [
          | none ↦ (w1, none)
          | some stream ↦
              let (w2, message) = read_frame tcp json w1 stream in
              (tcp.drop_stream w2 stream, message)
        ]

    -- `thread::spawn` of what a thread does to the state
    module _ (spawn : (W → W) → W → W) where
      unfoldable pub work_sender : WorkSender W ℕ A SocketStatusSender
      unfolding post_message
      work_sender = record {
        initialize =
            λ addr token w. spawn (post_message tcp json addr (WorkerMessage.initialize token)) w;
        send_work = λ addr assignment completion w.
            spawn (post_message tcp json addr (WorkerMessage.work assignment completion)) w;
      }

      -- `create_worker` of `MapperFactory`
      unfoldable pub create_mapper :
          {S SD TaskHandle Error : Type 0}
          → WorkerRuntime W (Task × Resources S SD L) TaskHandle Error
          → Factory S SD
          → W
          → ℕ
          → Option (W × Mapper ℕ TaskHandle)
      unfolding work_sender create_pair create_with
      create_mapper runtime factory w id = elim (create_pair w 0) [
        | none ↦ none
        | some (w1, work_channel, work_rx) ↦
            some (create_with work_sender runtime factory id work_channel work_rx w1)
      ]

      -- and of `ReducerFactory`, which has the same body
      unfoldable pub create_reducer :
          {S SD TaskHandle Error : Type 0}
          → WorkerRuntime W (Task × Resources S SD L) TaskHandle Error
          → Factory S SD
          → W
          → ℕ
          → Option (W × Mapper ℕ TaskHandle)
      unfolding create_mapper
      create_reducer = create_mapper

-- `SocketShutdownSignal`, one flag that all its clones share
pub record SocketShutdownSignal : Type 0 where
  pub flag : Bool

unfoldable pub new_signal : SocketShutdownSignal
new_signal = record { flag = false }

unfoldable pub shutdown : SocketShutdownSignal → SocketShutdownSignal
shutdown s = record { flag = true }

unfoldable pub is_cancelled : SocketShutdownSignal → Bool
is_cancelled s = s.flag
