-- ===== src/Mr/Grpc/Fleet.antt =====
-- The processes of the workers of map-reduce/process-rpc: `MapperProcessRuntime`,
-- `ReducerProcessRuntime` and `AutoKillChild` of src/grpc_worker_runtime.rs, and what becomes of the
-- workers in map-reduce/core/src/executor.rs. The operating system's processes are a parameter.
pub mod Leaves
pub mod Phase
use distributed_systems.Prelude.{
  ℕ, zero, suc, Option, none, some, List, [], ◌∷◌, Text, codes, Result,
}
use distributed_systems.Mr.Worker.{Task}
use distributed_systems.Mr.Worker.Handle.{WorkerRuntime, Mapper}
use distributed_systems.Mr.Grpc.Work.{Json}
use distributed_systems.Mr.Grpc.Process.{arguments}

-- `Command::spawn` of this program where its `expect` does not panic, `Child::wait` without the exit
-- status, and `Child::start_kill`
pub record Processes (W Child Error : Type 0) : Type 0 where
  pub start : W → List Text → W × Child
  pub wait : W → Child → W × Result (Unit {0}) Error
  pub start_kill : W → Child → W

pub record AutoKillChild (Child : Type 0) : Type 0 where
  pub child : Child

-- `mem::replace(&mut xs[i], a)`, with the old element first; `none` is the panic of the index
unfoldable pub mem_replace : {A : Type 0} → List A → ℕ → A → Option (A × List A)
mem_replace [] i a = none
mem_replace (x ∷ xs) zero a = some (x, a ∷ xs)
mem_replace (x ∷ xs) (suc i) a = elim (mem_replace xs i a) [
  | none ↦ none
  | some (old, ys) ↦ some (old, x ∷ ys)
]

module _ {W Child Error : Type 0} (processes : Processes W Child Error) where
  -- `Drop for AutoKillChild`
  unfoldable pub drop_child : AutoKillChild Child → W → W
  drop_child handle w = processes.start_kill w handle.child

  -- The handle is dropped when `join` returns.
  unfoldable pub join : AutoKillChild Child → W → W × Result (Unit {0}) Error
  unfolding drop_child
  join handle w = let (w', result) = processes.wait w handle.child in (drop_child handle w', result)

  unfoldable pub process_runtime :
      {T : Type 0} → Text → Json T → WorkerRuntime W T (AutoKillChild Child) Error
  unfolding join arguments
  process_runtime worker_type json = record {
    spawn = λ task w.
        let (w', child) = processes.start w (arguments worker_type (json.to_string task)) in
        (w', record { child = child });
    join = join;
  }

  unfoldable pub mapper_process_runtime :
      {T : Type 0} → Json T → WorkerRuntime W T (AutoKillChild Child) Error
  unfolding process_runtime
  mapper_process_runtime json = process_runtime (codes "mapper") json

  unfoldable pub reducer_process_runtime :
      {T : Type 0} → Json T → WorkerRuntime W T (AutoKillChild Child) Error
  unfolding process_runtime
  reducer_process_runtime json = process_runtime (codes "reducer") json

  abbrev pub Worker : Type 0
  Worker = Mapper ℕ (AutoKillChild Child)

  -- a worker that goes out of scope
  unfoldable pub drop_worker : Worker → W → W
  unfolding drop_child
  drop_worker worker w = drop_child worker.task_handle w

  -- `drop(mappers)` and `drop(reducers)` of `run_coordinator`
  unfoldable pub drop_workers : List Worker → W → W
  unfolding drop_worker
  drop_workers [] w = w
  drop_workers (worker ∷ rest) w = drop_workers rest (drop_worker worker w)

  -- The replacement of the executor: the new worker is created, put in the place of the old one,
  -- and the old one is dropped.
  unfoldable pub exchange_worker :
      (W → ℕ → W × Worker) → ℕ → List Worker → W → Option (W × List Worker)
  unfolding mem_replace drop_worker
  exchange_worker create_worker worker_id workers w =
      let (w1, worker) = create_worker w worker_id in
      elim (mem_replace workers worker_id worker) [
        | none ↦ none
        | some (failed_worker, workers') ↦ some (drop_worker failed_worker w1, workers')
      ]
