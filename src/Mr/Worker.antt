-- ===== src/Mr/Worker.antt =====
-- The loop that a mapper and a reducer run: `MapperTask::run` in map-reduce/core/src/mapper.rs and
-- `ReducerTask::run` in map-reduce/core/src/reducer.rs, which differ in the work they do.
pub mod Answers
pub mod Handle
pub mod Finishes
use distributed_systems.Prelude.{
  ℕ, zero, suc, Bool, true, false, Option, none, some, ltb, if◌then◌else◌,
}

-- what `tokio::time::timeout(100 ms, work_rx.recv())` yields
pub data Received (A : Type 0) : Type 0 where
  timed_out closed initialize : Received A
  work : A → Received A

-- the message of `completion_sender.send`
pub data Status : Type 0 where
  ok : ℕ → Status
  err : Status

-- The shutdown signal, the channels, the random numbers and the clock, with state `W`, in which the
-- store that the work writes also stands.
pub record Runtime (W A : Type 0) : Type 0 where
  pub is_cancelled : W → W × Bool
  pub recv : W → ℕ → W × Received A
  pub register : W → ℕ → W × Bool
  pub send : W → Status → W × Bool
  -- `random_range(0..n)`
  pub random_below : W → ℕ → W × ℕ
  -- `random_range(1..=n)`, for a positive `n`
  pub random_up_to : W → ℕ → W × ℕ
  pub sleep : W → ℕ → W

-- the fields of `MapperTask` and `ReducerTask` that are plain values
pub record Task : Type 0 where
  pub id : ℕ
  pub failure_probability : ℕ
  pub straggler_probability : ℕ
  pub straggler_delay_ms : ℕ

-- One round: the next round, `break`, or a panic that ends the task.
pub data Round (W : Type 0) : Type 0 where
  again stop died : W → Round W

pub data Finish (W : Type 0) : Type 0 where
  stopped panicked out_of_fuel : W → Finish W

module _ {W A : Type 0} (rt : Runtime W A) where
  -- `probability > 0` and a number below 100 that is below it
  unfoldable pub draw : ℕ → W → W × Bool
  draw probability w =
      if ltb 0 probability
      then (let (w', value) = rt.random_below w 100 in (w', ltb value probability))
      else (w, false)

  -- The simulated delay; `random_range(1..=0)` panics.
  unfoldable pub straggle : Task → W → Option W
  unfolding draw
  straggle task w =
      let (w1, slow) = draw task.straggler_probability w in
      let (w2, delay) = rt.random_up_to w1 task.straggler_delay_ms in
      if slow
      then (if ltb 0 task.straggler_delay_ms then some (rt.sleep w2 delay) else none)
      else some w1

  -- The arm of `Work`, with `none` for a job that panics. The closure under `catch_unwind` only
  -- makes the future; the job runs in `future.await`, where a panic is not caught.
  unfoldable pub on_work : Task → (W → A → Option W) → A → W → Round W
  unfolding straggle draw
  on_work task job assignment w =
      let (w1, fails) = draw task.failure_probability w in
      let (w2, _) = rt.send w1 Status.err in
      let worked : Round W = elim (straggle task w1) [
        | none ↦ died w1
        | some w3 ↦ elim (job w3 assignment) [
          | none ↦ died w3
          | some w4 ↦ (let (w5, _) = rt.send w4 (Status.ok task.id) in again w5)
        ]
      ] in
      if fails then again w2 else worked

  unfoldable pub on_received : Task → (W → A → Option W) → Received A → W → Round W
  unfolding on_work
  on_received task job timed_out w = again w
  on_received task job closed w = stop w
  on_received task job initialize w = (let (w', _) = rt.register w task.id in again w')
  on_received task job (work assignment) w = on_work task job assignment w

  unfoldable pub run : Task → (W → A → Option W) → ℕ → W → Finish W
  unfolding on_received
  run task job zero w = out_of_fuel w
  run task job (suc fuel) w =
      let (w1, cancelled) = rt.is_cancelled w in
      let (w2, received) = rt.recv w1 100 in
      let next : Finish W = elim (on_received task job received w2) [
        | again w' ↦ run task job fuel w'
        | stop w' ↦ stopped w'
        | died w' ↦ panicked w'
      ] in
      if cancelled then stopped w1 else next

-- The job of a worker: its assignment, and `P::map_work` or `P::reduce_work` on the shared store.
pub record MapReduceJob (W M R : Type 0) : Type 0 where
  pub map_work : W → M → Option W
  pub reduce_work : W → R → Option W

module _ {W M R : Type 0} (jobs : MapReduceJob W M R) where
  unfoldable pub run_mapper : Runtime W M → Task → ℕ → W → Finish W
  unfolding run
  run_mapper rt task fuel w = run rt task jobs.map_work fuel w

  unfoldable pub run_reducer : Runtime W R → Task → ℕ → W → Finish W
  unfolding run
  run_reducer rt task fuel w = run rt task jobs.reduce_work fuel w
