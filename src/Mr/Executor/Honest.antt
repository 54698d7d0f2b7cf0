-- ===== src/Mr/Executor/Honest.antt =====
-- What the executor relies on: workers and signaling that report each completion once. And the
-- invariant of the bookkeeping of one phase.
use distributed_systems.Prelude.{
  ℕ, ◌+◌, ◌≤◌, ◌<◌, ◌≡◌, false, Option, none, some, List, ◌∷◌, length, drop, ◌==◌, if◌then◌else◌,
  nat_eq,
}
pub use distributed_systems.Prelude.Totals.{total}
use distributed_systems.Prelude.HashMap
use distributed_systems.Prelude.HashMap.{HashMap}
use distributed_systems.Prelude.HashMap.Weigh.{weigh, IsUnique}
use distributed_systems.Mr.Executor.{Cluster, Waited, AssignmentInfo, Progress}

-- What a cluster lets one observe: the assignment that a worker's slot has and has not yet reported,
-- the assignments reported as completed, and a bound on the waits that will still end without a
-- completion.
pub record Observed (W A : Type 0) : Type 0 where
  pub assigned : W → ℕ → Option A
  pub finished : W → List A
  pub budget : W → ℕ

module _ {A : Type 0} where
  -- the assignment that the executor has written down for a worker
  abbrev pub recorded : Option (AssignmentInfo A) → Option A
  recorded none = none
  recorded (some info) = some info.assignment

module _ {W A : Type 0} (o : Observed W A) where
  -- Nothing observable changes, but that the bound may go down.
  pub record Quiet (w w' : W) : Type 0 where
    pub assigned_same : (id : ℕ) → o.assigned w' id ≡ o.assigned w id
    pub finished_same : o.finished w' ≡ o.finished w
    pub budget_le : o.budget w' ≤ o.budget w

  -- A completion is that of the assignment the slot has, which it then has no longer.
  pub record Completes (w w' : W) (id : ℕ) : Type 0 where
    pub reported : A
    pub had : o.assigned w id ≡ some reported
    pub assigned_less : (j : ℕ) → o.assigned w' j ≡ (if id == j then none else o.assigned w j)
    pub finished_more : o.finished w' ≡ reported ∷ o.finished w
    pub budget_le : o.budget w' ≤ o.budget w

  -- Nothing observable changes but in one slot, whose worker may lose its assignment.
  pub record Beside (id : ℕ) (w w' : W) : Type 0 where
    pub assigned_beside : (j : ℕ) → (id == j) ≡ false → o.assigned w' j ≡ o.assigned w j
    pub finished_same : o.finished w' ≡ o.finished w
    pub budget_le : o.budget w' ≤ o.budget w

  -- A worker that fails has its assignment no longer, and will not complete it.
  pub record Fails (w w' : W) (id : ℕ) : Type 0 where
    pub assigned_less : (j : ℕ) → o.assigned w' j ≡ (if id == j then none else o.assigned w j)
    pub finished_same : o.finished w' ≡ o.finished w
    pub budget_lt : o.budget w' < o.budget w

  abbrev pub Waits : W → W × Waited → Type 0
  Waits w (w', Waited.completed id) = Completes w w' id
  Waits w (w', Waited.failed id) = Fails w w' id
  Waits w (w', _) = Quiet w w' × (o.budget w' < o.budget w)

  -- The behaviour of workers and signaling, while nobody cancels the phase. A worker whose failure
  -- is reported, or which is replaced, does nothing more until it is sent an assignment again; one
  -- that is late reports in the end, unless it is replaced.
  pub record IsHonest (c : Cluster W A) : Type 0 where
    pub setup_clear : (w : W) (n id : ℕ) → o.assigned (c.setup w n) id ≡ none
    pub setup_finished : (w : W) (n : ℕ) → o.finished (c.setup w n) ≡ o.finished w
    pub setup_budget : (w : W) (n : ℕ) → o.budget (c.setup w n) ≤ o.budget w
    pub initialize_quiet : (w : W) (id : ℕ) → Quiet w (c.initialize w id)
    pub ready_quiet : (w : W) (id : ℕ) → Quiet w ((c.wait_for_worker_ready w id).0)
    pub replace_beside : (w : W) (id : ℕ) → Beside id w (c.replace_worker w id)
    pub reset_beside : (w : W) (id : ℕ) → Beside id w (c.reset_worker w id)
    pub cancelled_quiet : (w : W) → Quiet w ((c.is_cancelled w).0)
    pub not_cancelled : (w : W) → (c.is_cancelled w).1 ≡ false
    pub send_assigned :
        (w : W) (id : ℕ) (a : A) (j : ℕ)
        → o.assigned (c.send_work w id a) j ≡ (if id == j then some a else o.assigned w j)
    pub send_finished : (w : W) (id : ℕ) (a : A) → o.finished (c.send_work w id a) ≡ o.finished w
    pub send_budget : (w : W) (id : ℕ) (a : A) → o.budget (c.send_work w id a) ≤ o.budget w
    pub wait_waits :
        (w : W) (duration id : ℕ) (a : A)
        → o.assigned w id ≡ some a
        → Waits w (c.wait_next w duration)

  module _ (assignments : List A) (num_workers : ℕ) (base : List A) where
    -- The executor knows what each worker has, and every assignment is completed, with a worker or
    -- still to come, each exactly once, however they are weighed.
    pub record Inv (p : Progress A) (w : W) : Type 0 where
      pub unique : IsUnique p.worker_assignments
      pub active : p.active_workers ≡ weigh (λ info. 1) p.worker_assignments
      pub agree : (id : ℕ) → o.assigned w id ≡ recorded (HashMap.get p.worker_assignments id)
      pub in_range : (id : ℕ) → (num_workers ≤ id) → HashMap.get p.worker_assignments id ≡ none
      pub index_le : p.assignment_index ≤ length assignments
      pub balance :
          (f : A → ℕ)
          → total f (o.finished w)
              + weigh (λ info. f info.assignment) p.worker_assignments
              + total f (drop p.assignment_index assignments)
            ≡ total f base + total f assignments
