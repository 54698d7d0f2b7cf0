-- ===== src/Mr/Grpc/Work.antt =====
-- map-reduce/process-rpc/src/grpc_work_sender.rs and src/grpc_work_receiver.rs: the coordinator calls
-- a service of the worker's process, which queues the messages for the worker; and `create_worker` of
-- src/mapper.rs and src/reducer.rs. The tasks that are spawned, the server and serde are parameters.
pub mod Arrives
use distributed_systems.Prelude.{
  ℕ, zero, suc, Bool, true, false, Option, none, some, Result, ok, err, Text, ◌==◌, if◌then◌else◌,
}
use distributed_systems.Mr.Worker.{Task}
use distributed_systems.Mr.Worker.Handle.{WorkSender, WorkerRuntime, Resources, Mapper}
use distributed_systems.Mr.Transport.{WorkerMessage, Mpsc, Factory, create_with}
use distributed_systems.Mr.Grpc.{Network, call}
use distributed_systems.Mr.Grpc.Ports.{mapper_port, reducer_port}

-- `serde_json::to_string`, which does not fail for the types that are sent, and `from_str`
pub record Json (M : Type 0) : Type 0 where
  pub to_string : M → Text
  pub from_str : Text → Option M

pub record InitializeWorkerRequest : Type 0 where
  pub synchronization_token_json : Text

pub record WorkMessage : Type 0 where
  pub assignment_json : Text
  pub completion_json : Text

pub record WorkAck : Type 0 where
  pub received : Bool

-- the `Status` of a handler that fails
pub data Code : Type 0 where
  invalid_argument internal : Code

unfoldable pub answer_of : {A : Type 0} → Result A Code → Option A
answer_of (ok a) = some a
answer_of (err code) = none

pub record GrpcWorkReceiver (Rx : Type 0) : Type 0 where
  pub port : ℕ
  pub rx : Option Rx

module _ {W Tx Rx A C : Type 0} (mpsc : Mpsc W Tx Rx (WorkerMessage A C)) (assignments : Json A)
    (tokens : Json C) where
  -- the end of both handlers
  unfoldable pub queue : Tx → WorkerMessage A C → W → W × Result WorkAck Code
  queue tx message w =
      let (w', queued) = mpsc.send w tx message in
      elim queued [ false ↦ (w', err internal) | true ↦ (w', ok (record { received = true })) ]

  unfoldable pub initialize_worker : Tx → InitializeWorkerRequest → W → W × Result WorkAck Code
  unfolding queue
  initialize_worker tx msg w = elim (tokens.from_str msg.synchronization_token_json) [
    | none ↦ (w, err invalid_argument)
    | some token ↦ queue tx (WorkerMessage.initialize token) w
  ]

  unfoldable pub receive_work : Tx → WorkMessage → W → W × Result WorkAck Code
  unfolding queue
  receive_work tx msg w = elim (assignments.from_str msg.assignment_json) [
    | none ↦ (w, err invalid_argument)
    | some assignment ↦ elim (tokens.from_str msg.completion_json) [
      | none ↦ (w, err invalid_argument)
      | some completion ↦ queue tx (WorkerMessage.work assignment completion) w
    ]
  ]

  -- The first `recv` starts the server, whose errors are printed.
  unfoldable pub recv :
      (W → ℕ → Tx → W)
      → W
      → GrpcWorkReceiver Rx
      → W × GrpcWorkReceiver Rx × Option (WorkerMessage A C)
  recv serve w receiver = elim receiver.rx [
    | some rx ↦ (let (w', message) = mpsc.recv w rx in (w', receiver, message))
    | none ↦
        let (w1, tx, rx) = mpsc.channel w 10 in
        let (w2, message) = mpsc.recv (serve w1 receiver.port tx) rx in
        (w2, record receiver { rx = some rx }, message)
  ]

  module _ (net : Network W) (sleep : W → ℕ → W) (service_at : W → ℕ → Tx) where
    -- One call of a handler, of which an error is an error of the call; the endpoint is a valid URI.
    unfoldable pub request : (W → W × Result WorkAck Code) → W → W × Option WorkAck
    unfolding call answer_of
    request handler w = call net (λ v. let (v', result) = handler v in (v', answer_of result)) w

    -- `n` attempts, with a pause of 100 ms between them
    unfoldable pub try_initialize : ℕ → ℕ → C → W → W
    unfolding request initialize_worker
    try_initialize zero worker_addr token w = w
    try_initialize (suc n) worker_addr token w =
        let msg : InitializeWorkerRequest = record {
          synchronization_token_json = tokens.to_string token;
        } in
        let (w1, response) = request (initialize_worker (service_at w worker_addr) msg) w in
        let again = try_initialize n worker_addr token (sleep w1 100) in
        elim response [ some ack ↦ w1 | none ↦ (if n == 0 then w1 else again) ]

    -- the task of `send_work`
    unfoldable pub deliver : ℕ → A → C → W → W
    unfolding request receive_work
    deliver worker_addr assignment completion w =
        let msg : WorkMessage = record {
          assignment_json = assignments.to_string assignment;
          completion_json = tokens.to_string completion;
        } in
        (request (receive_work (service_at w worker_addr) msg) w).0

    -- `tokio::spawn` of what a task does to the state
    module _ (spawn : (W → W) → W → W) where
      unfoldable pub work_sender : WorkSender W ℕ A C
      unfolding try_initialize deliver
      work_sender = record {
        initialize = λ addr token w. spawn (try_initialize 50 addr token) w;
        send_work = λ addr assignment completion w. spawn (deliver addr assignment completion) w;
      }

      unfoldable pub create_pair : ℕ → ℕ × GrpcWorkReceiver Rx
      create_pair port = (port, record { port = port; rx = none })

      module _ {S SD TaskHandle Error : Type 0}
          (runtime : WorkerRuntime W
            (Task × Resources S SD (GrpcWorkReceiver Rx))
            TaskHandle
            Error) where
        unfoldable pub create_mapper : Factory S SD → W → ℕ → W × Mapper ℕ TaskHandle
        unfolding create_pair create_with work_sender mapper_port
        create_mapper factory w id =
            let (work_channel, work_rx) = create_pair (mapper_port id) in
            create_with work_sender runtime factory id work_channel work_rx w

        unfoldable pub create_reducer : Factory S SD → W → ℕ → W × Mapper ℕ TaskHandle
        unfolding create_pair create_with work_sender reducer_port
        create_reducer factory w id =
            let (work_channel, work_rx) = create_pair (reducer_port id) in
            create_with work_sender runtime factory id work_channel work_rx w
