-- ===== src/Mr/Executor/Stray.antt =====
-- A completion that comes twice, or from a worker that has been replaced.
use distributed_systems.Prelude.{
  ℕ, suc, ◌≤◌, ◌≡◌, refl, none, some, List, length, ltb, arith, nat_eq, false,
}
use distributed_systems.Prelude.HashMap
use distributed_systems.Mr.Executor.{
  Cluster, Waited, AssignmentInfo, Progress, Executor, done, record_done, check_stragglers,
  on_completed, react, wait_duration, work_loop,
}

module _ {W A : Type 0} (c : Cluster W A) (assignments : List A) (n : ℕ) where
  -- A completion is counted whoever reports it: when one worker still has an assignment, nothing is
  -- left to send and there is no timeout, a completion of a worker that has none ends the phase, and
  -- the assignment is not waited for.
  pub stray_completion_ends_phase :
      (fuel id other : ℕ) (info : AssignmentInfo A) (p : Progress A) (w : W)
      → let e : Executor = record { timeout = none } in
        let w1 = (c.is_cancelled w).0 in
        p.active_workers ≡ 1
        → length assignments ≤ p.assignment_index
        → HashMap.get p.worker_assignments other ≡ some info
        → HashMap.get p.worker_assignments id ≡ none
        → (c.is_cancelled w).1 ≡ false
        → (c.wait_next w1 (wait_duration e)).1 ≡ Waited.completed id
        → work_loop c assignments n e (suc (suc fuel)) p w
          ≡ done ((c.wait_next w1 (wait_duration e)).0)
  unfolding work_loop react on_completed record_done check_stragglers
  stray_completion_ends_phase fuel id other info p w one past has stray go comes =
      let last : ltb p.assignment_index (length assignments) ≡ false = ground (arith, past) in
      rw (one, work_loop) (rw go (rw (comes, react) (rw (last, on_completed) refl)))
