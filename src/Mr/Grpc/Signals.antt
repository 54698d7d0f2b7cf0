-- ===== src/Mr/Grpc/Signals.antt =====
-- map-reduce/process-rpc/src/grpc_status_sender.rs and src/grpc_worker_synchronization.rs: a worker
-- registers and reports with calls to a service of the coordinator, which puts the reports in one
-- queue for all workers. The queue and `Notify` of tokio are parameters.
pub mod Copies
use distributed_systems.Prelude.{
  ℕ, zero, suc, Bool, true, false, Option, none, some, List, [], ◌∷◌, Result, ok, err, get_elem?,
  Text, u64,
}
use distributed_systems.Mr.Worker.{Status}
use distributed_systems.Mr.Transport.{Mpsc}
use distributed_systems.Mr.Grpc.{Network, call}

-- `tokio::sync::Notify`: `notified` waits for a `notify_one`, which stays for one waiter.
pub record Notify (W N : Type 0) : Type 0 where
  pub new : W → W × N
  pub notify_one : W → N → W
  pub notified : W → N → W

pub record RegisterWorkerRequest : Type 0 where
  pub worker_id : ℕ

pub record RegisterWorkerResponse : Type 0 where
  pub success : Bool
  pub error : Text

pub record CompletionMessage : Type 0 where
  pub worker_id : ℕ
  pub success : Bool

pub record CompletionAck : Type 0 where
  pub received : Bool

pub record SynchronizationService (Tx N : Type 0) : Type 0 where
  pub completion_tx : Tx
  pub readiness_notifiers : List N

-- the address is that of a port of this machine
pub record GrpcStatusSender : Type 0 where
  pub server_addr : ℕ
  pub worker_id : ℕ

pub record GrpcWorkerSynchronization (Rx N : Type 0) : Type 0 where
  pub completion_rx : Rx
  pub readiness_notifiers : List N
  pub server_addr : ℕ

-- `result.is_ok()`
unfoldable pub is_ok : Status → Bool
is_ok (Status.ok id) = true
is_ok Status.err = false

module _ {W Tx Rx N : Type 0} (mpsc : Mpsc W Tx Rx (ℕ × Bool)) (notify : Notify W N) where
  -- the handlers of the service
  unfoldable pub register_worker :
      SynchronizationService Tx N → RegisterWorkerRequest → W → W × Option RegisterWorkerResponse
  register_worker service msg w =
      let response : RegisterWorkerResponse = record { success = true; error = [] } in
      elim (get_elem? service.readiness_notifiers msg.worker_id) [
        | none ↦ (w, some response)
        | some waiter ↦ (notify.notify_one w waiter, some response)
      ]

  unfoldable pub report_completion :
      SynchronizationService Tx N → CompletionMessage → W → W × Option CompletionAck
  report_completion service msg w =
      let (w', queued) = mpsc.send w service.completion_tx (msg.worker_id, msg.success) in
      elim queued [ false ↦ (w', none) | true ↦ (w', some (record { received = true })) ]

  unfoldable pub get_status_sender : GrpcWorkerSynchronization Rx N → ℕ → GrpcStatusSender
  get_status_sender s worker_id = record { server_addr = s.server_addr; worker_id = worker_id }

  unfoldable pub notifiers : ℕ → W → W × List N
  notifiers zero w = (w, [])
  notifiers (suc n) w =
      let (w1, waiter) = notify.new w in let (w2, rest) = notifiers n w1 in (w2, waiter ∷ rest)

  -- The service is started on a free port; `none` is the panic of an `expect`.
  unfoldable pub setup :
      (W → SynchronizationService Tx N → Option (W × ℕ))
      → W
      → ℕ
      → Option (W × GrpcWorkerSynchronization Rx N)
  unfolding notifiers
  setup start w num_workers =
      let (w1, tx, rx) = mpsc.channel w 100 in
      let (w2, waiters) = notifiers num_workers w1 in
      elim (start w2 (record { completion_tx = tx; readiness_notifiers = waiters })) [
        | none ↦ none
        | some (w3, port) ↦
            some
              (w3, record { completion_rx = rx; readiness_notifiers = waiters; server_addr = port })
      ]

  unfoldable pub wait_for_worker_ready : W → GrpcWorkerSynchronization Rx N → ℕ → W × Bool
  wait_for_worker_ready w s worker_id = elim (get_elem? s.readiness_notifiers worker_id) [
    | none ↦ (w, false)
    | some waiter ↦ (notify.notified w waiter, true)
  ]

  unfoldable pub wait_next : W → GrpcWorkerSynchronization Rx N → W × Option (Result ℕ ℕ)
  wait_next w s =
      let (w', message) = mpsc.recv w s.completion_rx in
      elim message [
        | none ↦ (w', none)
        | some (worker_id, success) ↦ elim success [
          | true ↦ (w', some (ok worker_id))
          | false ↦ (w', some (err worker_id))
        ]
      ]

  unfoldable pub reset_worker : W → GrpcWorkerSynchronization Rx N → ℕ → W × GrpcStatusSender
  unfolding get_status_sender
  reset_worker w s worker_id = (w, get_status_sender s worker_id)

  module _ (net : Network W) (sleep : W → ℕ → W) where
    -- A connection and one call on it, and whether there was an answer.
    unfoldable pub try : {Resp : Type 0} → (W → W × Option Resp) → W → W × Bool
    unfolding call
    try handler w =
        let (w1, connected) = net.connect w in
        let (w2, response) = call net handler w1 in
        elim connected [
          | false ↦ (w1, false)
          | true ↦ elim response [ none ↦ (w2, false) | some r ↦ (w2, true) ]
        ]

    -- The loop of `n` attempts, with a pause of 100 ms after each that fails.
    unfoldable pub attempts : {Resp : Type 0} → ℕ → (W → W × Option Resp) → W → W × Bool
    unfolding try
    attempts zero handler w = (w, false)
    attempts (suc n) handler w =
        let (w1, answered) = try handler w in
        elim answered [ true ↦ (w1, true) | false ↦ attempts n handler (sleep w1 100) ]

    -- `GrpcStatusSender`; `service` is the one at its address
    module _ (service : SynchronizationService Tx N) where
      unfoldable pub register : W → GrpcStatusSender → ℕ → W × Bool
      unfolding attempts register_worker
      register w sender worker_id =
          attempts 5 (register_worker service (record { worker_id = u64 sender.worker_id })) w

      unfoldable pub send : W → GrpcStatusSender → Status → W × Bool
      unfolding attempts report_completion is_ok
      send w sender result =
          attempts 5
            (report_completion service
              (record { worker_id = u64 sender.worker_id; success = is_ok result }))
            w
