-- ===== src/Mr/Job.antt =====
-- The three `main` functions: map-reduce/task-channels/src/main.rs, map-reduce/thread-socket/src/main.rs
-- and `run_coordinator` of map-reduce/process-rpc/src/main.rs. They run the same job and differ in how
-- the state is opened and the workers are stopped. The configuration is given; what else they reach
-- is a `Platform`.
pub mod Counts
pub mod Whole
pub mod Mains
use distributed_systems.Prelude.{ℕ, ◌+◌, ◌%◌, Option, none, some, List, Text, length}
use distributed_systems.Prelude.HashMap.{HashMap}
use distributed_systems.Mr.Executor
use distributed_systems.Mr.Executor.{
  Cluster, Executor, Outcome, done, panicked, out_of_fuel, execute,
}
use distributed_systems.Mr.TestData.{Config, Rng, generate_test_data, initialize_phase}
use distributed_systems.Mr.WordSearch.{
  MapWorkAssignment, ReduceWorkAssignment, WordSearchContext, create_map_assignments,
  create_reduce_assignments,
}
use distributed_systems.Mr.Grpc.Ports.{state_port}
use distributed_systems.Mr.Report.{Report, report}

-- The world `W` holds the state store, the workers and all else; `M` and `R` are the handles of the
-- mappers and the reducers.
pub record Platform (W M R : Type 0) : Type 0 where
  pub rng : Rng W
  -- `state.initialize(targets)`
  pub initialize_state : W → List Text → W
  -- `create_worker` of the two factories
  pub create_mapper : W → ℕ → W × M
  pub create_reducer : W → ℕ → W × R
  pub mappers : Cluster W MapWorkAssignment
  pub reducers : Cluster W ReduceWorkAssignment
  -- `state.get_map().lock().unwrap()`
  pub get_map : W → HashMap Text (List ℕ)

infixl 2 ◌and_then◌
abbrev pub ◌and_then◌ : {V W : Type 0} → Outcome V → (V → Outcome W) → Outcome W
done v and_then f = f v
panicked and_then f = panicked
out_of_fuel and_then f = out_of_fuel

-- a value, or a panic
abbrev pub or_panic : {V : Type 0} → Option V → Outcome V
or_panic none = panicked
or_panic (some v) = done v

module _ {W M R : Type 0} (p : Platform W M R) (config : Config) (fuel : ℕ) where
  -- the map phase and then the reduce phase, with that many workers
  unfoldable pub run_phases :
      List Text → WordSearchContext → ℕ → Executor → ℕ → Executor → W → Outcome W
  run_phases items context num_mappers mapper_executor num_reducers reducer_executor w =
      or_panic (create_map_assignments items context config.partition_size)
      and_then λ map_assignments.
          execute p.mappers map_assignments num_mappers mapper_executor fuel w and_then λ w1.
          or_panic (create_reduce_assignments context config.keys_per_reducer)
          and_then λ reduce_assignments.
              execute p.reducers reduce_assignments num_reducers reducer_executor fuel w1

  -- From the test data to the end of the reduce phase; `open_state` is what happens to the state
  -- between its initialisation and the creation of the workers.
  unfoldable pub run_job : (W → Option W) → W → Outcome W
  unfolding run_phases
  run_job open_state w =
      or_panic (generate_test_data p.rng config w) and_then λ (w1, items, targets).
      or_panic (open_state (p.initialize_state w1 targets)) and_then λ w2.
      let (w3, mappers, mapper_executor) =
        initialize_phase p.create_mapper config.num_mappers config.mapper_timeout_ms w2 in
      let (w4, reducers, reducer_executor) =
        initialize_phase p.create_reducer config.num_reducers config.reducer_timeout_ms w3 in
      run_phases items (record { targets = targets }) (length mappers) mapper_executor
        (length reducers) reducer_executor w4

  -- `main` of task-channels: cancel the token, wait for all workers
  unfoldable pub channel_main : (W → W) → (W → W) → W → Outcome (W × Report)
  unfolding run_job report
  channel_main cancel wait_all w = run_job (λ v. some v) w and_then λ w1.
      let w2 = wait_all (cancel w1) in done (w2, report (p.get_map w2))

  -- `main` of thread-socket: raise the flag, drop the workers, sleep 200 ms
  unfoldable pub socket_main : (W → W) → (W → W) → (W → ℕ → W) → W → Outcome (W × Report)
  unfolding run_job report
  socket_main shutdown drop_workers sleep w = run_job (λ v. some v) w and_then λ w1.
      let w2 = sleep (drop_workers (shutdown w1)) 200 in done (w2, report (p.get_map w2))

  -- `run_coordinator` of process-rpc: the state server listens on a random port, and the workers are
  -- dropped at the end
  unfoldable pub run_coordinator :
      (W → W × ℕ) → (W → ℕ → Option W) → (W → W) → W → Outcome (W × Report)
  unfolding run_job report state_port
  run_coordinator random_u16 start_state_server drop_workers w =
      run_job (λ v. let (v', port) = random_u16 v in start_state_server v' (state_port port)) w
      and_then λ w1. let w2 = drop_workers w1 in done (w2, report (p.get_map w2))
