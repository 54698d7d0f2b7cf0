-- ===== src/Mr/Executor.antt =====
-- map-reduce/core/src/executor.rs: one phase, its assignments handed to workers, workers that fail
-- or take too long replaced. What the executor calls is a `Cluster`.
pub mod Honest
pub mod Steps
pub mod Completion
pub mod Rounds
pub mod Completes
pub mod Frame
pub mod Watch
pub mod Work
pub mod Stray
use distributed_systems.Prelude.{
  ℕ, zero, suc, ◌+◌, ◌-◌, ◌/◌, Bool, Option, none, some, List, [], ◌∷◌, length, get_elem?, ltb, min,
  nat_eq, if◌then◌else◌,
}
use Prim.Native.Nat.{max}
use distributed_systems.Prelude.HashMap
use distributed_systems.Prelude.HashMap.{HashMap}

-- What `tokio::time::timeout(…, signaling.wait_next())` yields: the timeout, `None`, `Ok(id)` or
-- `Err(id)`.
pub data Waited : Type 0 where
  timed_out closed : Waited
  completed failed : ℕ → Waited

-- The workers, the factory, the signaling and the clock, with state `W`; a worker is known by its
-- slot. `timeout` and instants are in milliseconds.
pub record Cluster (W A : Type 0) : Type 0 where
  -- `CS::setup(workers.len())`
  pub setup : W → ℕ → W
  -- `workers[id].initialize(signaling.get_status_sender(id))`
  pub initialize : W → ℕ → W
  -- `signaling.wait_for_worker_ready(id)`
  pub wait_for_worker_ready : W → ℕ → W × Bool
  -- `workers[id].send_work(assignment, …)`
  pub send_work : W → ℕ → A → W
  -- `mem::replace(&mut workers[id], factory.create_worker(id))`, and the drop of the old worker
  pub replace_worker : W → ℕ → W
  -- `signaling.reset_worker(id)`
  pub reset_worker : W → ℕ → W
  -- `shutdown_signal.is_cancelled()`
  pub is_cancelled : W → W × Bool
  pub wait_next : W → ℕ → W × Waited
  -- `Instant::now()`
  pub now : W → ℕ

pub record AssignmentInfo (A : Type 0) : Type 0 where
  pub assignment : A
  pub start_time : ℕ

-- the local variables of `execute`
pub record Progress (A : Type 0) : Type 0 where
  pub assignment_index : ℕ
  pub active_workers : ℕ
  pub worker_assignments : HashMap ℕ (AssignmentInfo A)

pub record Executor : Type 0 where
  pub timeout : Option ℕ

unfoldable pub new : ℕ → Executor
new timeout_ms = record { timeout = if ltb 0 timeout_ms then some timeout_ms else none }

-- A panic is an index out of bounds; the fuel bounds the rounds of the loop.
pub data Outcome (W : Type 0) : Type 0 where
  done : W → Outcome W
  panicked : Outcome W
  out_of_fuel : Outcome W

unfoldable pub wait_duration : Executor → ℕ
wait_duration e = elim e.timeout [ none ↦ max 100 10 | some t ↦ max (t / 10) 10 ]

module _ {A : Type 0} where
  abbrev pub start_progress : Progress A
  start_progress = record { assignment_index = 0; active_workers = 0; worker_assignments = [] }

  -- the bookkeeping of one assignment that goes to a worker
  unfoldable pub record_next : ℕ → AssignmentInfo A → Progress A → Progress A
  record_next worker_id info p = record p {
    assignment_index = p.assignment_index + 1;
    active_workers = p.active_workers + 1;
    worker_assignments = HashMap.insert p.worker_assignments worker_id info;
  }

  -- and of one that goes to the replacement of its worker
  unfoldable pub record_again : ℕ → AssignmentInfo A → Progress A → Progress A
  record_again worker_id info p = record p {
    worker_assignments = HashMap.insert p.worker_assignments worker_id info;
  }

  -- `worker_assignments.remove(&worker_id); active_workers -= 1`, in a round where it is positive
  unfoldable pub record_done : ℕ → Progress A → Progress A
  record_done worker_id p = record p {
    active_workers = p.active_workers - 1;
    worker_assignments = HashMap.remove p.worker_assignments worker_id;
  }

  unfoldable pub stragglers : ℕ → ℕ → HashMap ℕ (AssignmentInfo A) → List ℕ
  stragglers timeout time [] = []
  stragglers timeout time ((worker_id, info) ∷ rest) =
      let others = stragglers timeout time rest in
      if ltb timeout (time - info.start_time) then worker_id ∷ others else others

module _ {W A : Type 0} (cluster : Cluster W A) where
  -- replace, reset, initialise, wait, send
  unfoldable pub respawn : ℕ → A → W → W
  respawn worker_id assignment w =
      let w1 = cluster.reset_worker (cluster.replace_worker w worker_id) worker_id in
      let (w2, ready) = cluster.wait_for_worker_ready (cluster.initialize w1 worker_id) worker_id in
      cluster.send_work w2 worker_id assignment

  -- the loop over the stragglers
  unfoldable pub replace_stragglers : List ℕ → Progress A → W → Progress A × W
  unfolding record_again respawn
  replace_stragglers [] p w = (p, w)
  replace_stragglers (worker_id ∷ ids) p w =
      let removed = record p {
        worker_assignments = HashMap.remove p.worker_assignments worker_id;
      } in
      let skipped = replace_stragglers ids p w in
      elim (HashMap.get p.worker_assignments worker_id) [
        | none ↦ skipped
        | some info ↦
            let w' = respawn worker_id info.assignment w in
            let again : AssignmentInfo A = record {
              assignment = info.assignment;
              start_time = cluster.now w';
            } in
            replace_stragglers ids (record_again worker_id again removed) w'
      ]

  unfoldable pub check_stragglers : Option ℕ → Progress A → W → Progress A × W
  unfolding replace_stragglers stragglers
  check_stragglers none p w = (p, w)
  check_stragglers (some timeout) p w =
      replace_stragglers (stragglers timeout (cluster.now w) p.worker_assignments) p w

  module _ (assignments : List A) (num_workers : ℕ) where
    -- the next assignment to a worker: `assignments[assignment_index]`, `workers[worker_id]`
    unfoldable pub send_next : ℕ → Progress A → W → Option (Progress A × W)
    unfolding record_next
    send_next worker_id p w = elim (get_elem? assignments p.assignment_index) [
      | none ↦ none
      | some assignment ↦
          let w' = cluster.send_work w worker_id assignment in
          let info : AssignmentInfo A = record {
            assignment = assignment;
            start_time = cluster.now w';
          } in
          if ltb worker_id num_workers then some (record_next worker_id info p, w') else none
    ]

    -- The first assignments, for the workers from `worker_id` on.
    unfoldable pub distribute : ℕ → ℕ → Progress A → W → Option (Progress A × W)
    unfolding send_next
    distribute zero worker_id p w = some (p, w)
    distribute (suc rounds) worker_id p w =
        let (w1, ready) =
          cluster.wait_for_worker_ready (cluster.initialize w worker_id) worker_id in
        elim (send_next worker_id p w1) [
          | none ↦ none
          | some (p', w2) ↦ distribute rounds (worker_id + 1) p' w2
        ]

    -- the arm of `Ok(worker_id)`
    unfoldable pub on_completed : ℕ → Progress A → W → Option (Progress A × W)
    unfolding record_done send_next
    on_completed worker_id p w =
        let p' = record_done worker_id p in
        if ltb p'.assignment_index (length assignments)
        then send_next worker_id p' w
        else some (p', w)

    -- the arm of `Err(worker_id)`
    unfoldable pub on_failed : ℕ → Progress A → W → Progress A × W
    unfolding respawn record_again
    on_failed worker_id p w = elim (HashMap.get p.worker_assignments worker_id) [
      | none ↦ (p, w)
      | some info ↦
          let w' = respawn worker_id info.assignment w in
          let again : AssignmentInfo A = record {
            assignment = info.assignment;
            start_time = cluster.now w';
          } in
          (record_again worker_id again p, w')
    ]

    unfoldable pub react : Waited → Progress A → W → Option (Progress A × W)
    unfolding on_completed on_failed
    react timed_out p w = some (p, w)
    react closed p w = some (p, w)
    react (completed worker_id) p w = on_completed worker_id p w
    react (failed worker_id) p w = some (on_failed worker_id p w)

    -- `while active_workers > 0`
    unfoldable pub work_loop : Executor → ℕ → Progress A → W → Outcome W
    unfolding react check_stragglers
    work_loop e zero p w = out_of_fuel
    work_loop e (suc fuel) p w =
        let (w1, cancelled) = cluster.is_cancelled w in
        let (p2, w2) = check_stragglers e.timeout p w1 in
        let (w3, waited) = cluster.wait_next w2 (wait_duration e) in
        let next : Outcome W = elim (react waited p2 w3) [
          | none ↦ panicked
          | some (p', w') ↦ work_loop e fuel p' w'
        ] in
        if ltb 0 p.active_workers then (if cancelled then done w1 else next) else done w

    unfoldable pub execute : Executor → ℕ → W → Outcome W
    unfolding work_loop distribute
    execute e fuel w =
        let running : Outcome W =
          elim (distribute (min num_workers (length assignments)) 0 start_progress
            (cluster.setup w num_workers)) [
              | none ↦ panicked
              | some (p, w') ↦ work_loop e fuel p w'
            ] in
        elim assignments [ [] ↦ done w | x ∷ rest ↦ running ]
