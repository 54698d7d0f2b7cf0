-- ===== src/Mr/Grpc/Fleet/Phase.antt =====
-- A phase of the executor over the processes of map-reduce/process-rpc, from the creation of its
-- workers in map-reduce/core/src/utils.rs to `drop(mappers)` in map-reduce/process-rpc/src/main.rs.
use distributed_systems.Prelude.{
  ℕ, ◌+◌, ◌<◌, ◌≡◌, ◌⊎◌, inl, inr, Option, none, some, List, length, arith, ltb, Bool-cases,
}
use distributed_systems.Mr.Executor.{Cluster, Executor, done, execute}
use distributed_systems.Mr.Executor.Honest.{Observed, IsHonest}
use distributed_systems.Mr.Executor.Completes.{execute_completes_each_once}
use distributed_systems.Mr.Executor.Frame.{Keeps, execute-Keeps}
use distributed_systems.Mr.Worker.{Task}
use distributed_systems.Mr.Worker.Handle.{Resources, new_worker}
use distributed_systems.Mr.Transport.{WorkerMessage, Mpsc, Factory, create_with}
use distributed_systems.Mr.Grpc.{Network}
use distributed_systems.Mr.Grpc.Work.{Json, GrpcWorkReceiver, create_mapper, create_reducer}
use distributed_systems.Mr.TestData.{create_workers, initialize_phase}
use distributed_systems.Mr.Grpc.Fleet.{
  Processes, process_runtime, mapper_process_runtime, reducer_process_runtime, Worker, drop_workers,
  exchange_worker,
}
use distributed_systems.Mr.Grpc.Fleet.Leaves.{
  IsOs, IsKept, child_of, drop_workers-Ends, create_workers-IsKept, exchange_worker-IsKept,
  exchange_worker-past,
}

module _ {W A Child Error : Type 0} (processes : Processes W Child Error)
    (create_worker : W → ℕ → W × Worker processes) (calls : Cluster W A) where
  abbrev exchanged :
      W × List (Worker processes)
      → Option (W × List (Worker processes))
      → W × List (Worker processes)
  exchanged s none = s
  exchanged s (some s') = s'

  -- The executor with its list of workers: `calls`, which reach a worker by its port, and the
  -- replacement of a process. A slot that does not exist is not replaced, since it has no assignment.
  abbrev pub on_processes : Cluster (W × List (Worker processes)) A
  on_processes = record {
    setup = λ s n. (calls.setup s.0 n, s.1);
    initialize = λ s id. (calls.initialize s.0 id, s.1);
    wait_for_worker_ready =
        λ s id. let (w', ready) = calls.wait_for_worker_ready s.0 id in ((w', s.1), ready);
    send_work = λ s id a. (calls.send_work s.0 id a, s.1);
    replace_worker = λ s id. exchanged s (exchange_worker processes create_worker id s.1 s.0);
    reset_worker = λ s id. (calls.reset_worker s.0 id, s.1);
    is_cancelled = λ s. let (w', cancelled) = calls.is_cancelled s.0 in ((w', s.1), cancelled);
    wait_next =
        λ s duration. let (w', waited) = calls.wait_next s.0 duration in ((w', s.1), waited);
    now = λ s. calls.now s.0;
  }

module _ {W A Child Error : Type 0} (processes : Processes W Child Error)
    (live : W → Child → Type 0) (calls : Cluster W A) where
  abbrev Fewer : W → W → Type 0
  Fewer w w' = (c : Child) → live w' c → live w c

  -- None of these calls starts a process.
  pub record IsHarmless : Type 0 where
    pub setup : (w : W) (n : ℕ) → Fewer w (calls.setup w n)
    pub initialize : (w : W) (id : ℕ) → Fewer w (calls.initialize w id)
    pub ready : (w : W) (id : ℕ) → Fewer w (calls.wait_for_worker_ready w id).0
    pub send : (w : W) (id : ℕ) (a : A) → Fewer w (calls.send_work w id a)
    pub reset : (w : W) (id : ℕ) → Fewer w (calls.reset_worker w id)
    pub cancelled : (w : W) → Fewer w (calls.is_cancelled w).0
    pub wait : (w : W) (duration : ℕ) → Fewer w (calls.wait_next w duration).0

  module _ (os : IsOs processes live) (harmless : IsHarmless)
      (create_worker : W → ℕ → W × Worker processes)
      (creates : (w : W) (id : ℕ) (c : Child)
        → live (create_worker w id).0 c
        → live w c ⊎ (child_of processes live (create_worker w id).1 ≡ c)) where
    abbrev Kept : W → W × List (Worker processes) → Type 0
    Kept w s = IsKept processes live w s.0 s.1

    still :
        (w v v' : W) (workers : List (Worker processes))
        → Fewer v v'
        → Kept w (v, workers)
        → Kept w (v', workers)
    still w v v' workers fewer kept c h = kept c (fewer c h)

    replace-Kept :
        (w : W) (s : W × List (Worker processes)) (id : ℕ)
        → Kept w s
        → Kept w ((on_processes processes create_worker calls).replace_worker s id)
    replace-Kept w s id kept = elim (Bool-cases (ltb id (length s.1))) [
      | inl inside ↦
          let (v, workers, e, same, kept') =
            exchange_worker-IsKept processes live os create_worker creates w s.0 id s.1
              (ground arith) kept in
          rw e kept'
      | inr past ↦
          rw
            (exchange_worker-past processes live os create_worker creates s.0 id s.1 (ground arith))
            kept
    ]

    calls-Keep : (w : W) → Keeps (Kept w) (on_processes processes create_worker calls)
    calls-Keep w = record {
      setup = λ s n. still w s.0 _ s.1 (harmless.setup s.0 n);
      initialize = λ s id. still w s.0 _ s.1 (harmless.initialize s.0 id);
      ready = λ s id. still w s.0 _ s.1 (harmless.ready s.0 id);
      send = λ s id a. still w s.0 _ s.1 (harmless.send s.0 id a);
      replace = λ s id. replace-Kept w s id;
      reset = λ s id. still w s.0 _ s.1 (harmless.reset s.0 id);
      cancelled = λ s. still w s.0 _ s.1 (harmless.cancelled s.0);
      wait = λ s d. still w s.0 _ s.1 (harmless.wait s.0 d);
    }

    -- A phase of any workers that `creates` describes.
    abbrev pub LeavesNone : Executor → List A → ℕ → ℕ → W → List (Worker processes) → W → Type 0
    LeavesNone e assignments n fuel w1 workers w =
        (w2 : W) × (workers2 : List (Worker processes)) × (execute
            (on_processes processes create_worker calls) assignments n e fuel (w1, workers)
          ≡ done (w2, workers2))
        × Kept w (w2, workers2)
        × ((c : Child) → live (drop_workers processes workers2 w2) c → live w c)

    phase-LeavesNone :
        (o : Observed (W × List (Worker processes)) A)
        → IsHonest o (on_processes processes create_worker calls)
        → (timeout_ms fuel n : ℕ) (assignments : List A) (w : W) → 0 < n
        → o.budget (create_workers create_worker n 0 w) + length assignments < fuel
        → let (w1, workers, e) = initialize_phase create_worker n timeout_ms w in
          LeavesNone e assignments n fuel w1 workers w
    unfolding initialize_phase
    phase-LeavesNone o honest timeout_ms fuel n assignments w some_worker enough =
        let (w1, workers, e) = initialize_phase create_worker n timeout_ms w in
        let cluster = on_processes processes create_worker calls in
        let (same, kept1) = create_workers-IsKept processes live os create_worker creates n 0 w in
        let ((w2, workers2), ends, counts) =
          execute_completes_each_once o cluster honest e assignments n fuel (w1, workers)
            some_worker enough in
        let kept2 = rw ends at (
          execute-Keeps (Kept w) cluster (calls-Keep w) e assignments n fuel (w1, workers) kept1) in
        (
          w2,
          workers2,
          ends,
          kept2,
          λ c h.
              let (before, unowned) = drop_workers-Ends processes live os workers2 w2 c h in
              elim (kept2 c before) [ inl first ↦ first | inr owned ↦ absurd (unowned owned) ],
        )

module _ {W Child Error S SD Tx Rx A C : Type 0} (processes : Processes W Child Error)
    (live : W → Child → Type 0) (calls : Cluster W A) (net : Network W) (sleep : W → ℕ → W)
    (spawn : (W → W) → W → W) (mpsc : Mpsc W Tx Rx (WorkerMessage A C)) (assignments_json : Json A)
    (tokens : Json C) (service_at : W → ℕ → Tx)
    (json : Json (Task × Resources S SD (GrpcWorkReceiver Rx))) (factory : Factory S SD) where
  abbrev pub mapper_process : W → ℕ → W × Worker processes
  mapper_process =
      create_mapper mpsc assignments_json tokens net sleep service_at spawn
        (mapper_process_runtime processes json) factory

  abbrev pub reducer_process : W → ℕ → W × Worker processes
  reducer_process =
      create_reducer mpsc assignments_json tokens net sleep service_at spawn
        (reducer_process_runtime processes json) factory

  -- And a reduce phase.
  reduce_phase_leaves_no_process :
      (o : Observed (W × List (Worker processes)) A) (timeout_ms fuel n : ℕ) (assignments : List A)
      (w : W)
      → IsOs processes live
      → IsHarmless processes live calls
      → IsHonest o (on_processes processes reducer_process calls)
      → 0 < n
      → o.budget (create_workers reducer_process n 0 w) + length assignments < fuel
      → let (w1, workers, e) = initialize_phase reducer_process n timeout_ms w in
        (w2 : W) × (workers2 : List (Worker processes)) × (execute
            (on_processes processes reducer_process calls)
            assignments
            n
            e
            fuel
            (w1, workers)
          ≡ done (w2, workers2))
        × IsKept processes live w w2 workers2
        × ((c : Child) → live (drop_workers processes workers2 w2) c → live w c)
  unfolding create_reducer create_mapper create_with new_worker reducer_process_runtime
      process_runtime
  reduce_phase_leaves_no_process o timeout_ms fuel n assignments w os harmless honest some_worker
        enough =
      phase-LeavesNone processes live calls os harmless reducer_process
        (λ v id c. os.starts_one v _ c) o honest timeout_ms fuel n assignments w some_worker enough
