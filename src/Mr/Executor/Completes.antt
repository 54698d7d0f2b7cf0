-- ===== src/Mr/Executor/Completes.antt =====
-- The executor's loop, and a whole phase.
use distributed_systems.Prelude.{
  ℕ, zero, suc, ◌+◌, ◌-◌, ◌≤◌, ◌<◌, ◌≡◌, refl, some, List, [], ◌∷◌, length, drop, drop_of_le,
  nat_eq, min, ltb, arith, Bool-cases, inl, inr, ap, ==_iff,
}
use distributed_systems.Prelude.HashMap
use distributed_systems.Prelude.HashMap.{HashMap}
use distributed_systems.Prelude.HashMap.Weigh.{weigh}
use distributed_systems.Mr.Executor.{
  Cluster, Waited, AssignmentInfo, Progress, Executor, done, start_progress, react, wait_duration,
  work_loop, execute, distribute,
}
use distributed_systems.Mr.Executor.Honest.{Observed, Waits, IsHonest, Inv, total}
use distributed_systems.Mr.Executor.Steps.{Quiet-Inv, on_failed-Inv}
use distributed_systems.Mr.Executor.Completion.{on_completed-Inv}
use distributed_systems.Mr.Executor.Rounds.{check_stragglers-Inv, distribute-Inv}

module _ {A : Type 0} where
  -- what is with a worker or still to come
  abbrev pending : List A → Progress A → ℕ
  pending assignments p = p.active_workers + (length assignments - p.assignment_index)

  weigh_idle :
      (g : AssignmentInfo A → ℕ) (m : HashMap ℕ (AssignmentInfo A))
      → 0 ≡ weigh (λ info. 1) m
      → weigh g m ≡ 0
  weigh_idle g [] none_left = refl
  weigh_idle g ((id, info) ∷ m) none_left = absurd (omega arith)

  total_rest : (f : A → ℕ) (i : ℕ) (xs : List A) → length xs ≤ i → total f (drop i xs) ≡ 0
  total_rest f i xs past = rw (drop_of_le i xs past)

  pub some_busy :
      (m : HashMap ℕ (AssignmentInfo A))
      → 0 < weigh (λ info. 1) m
      → (id : ℕ) × (info : AssignmentInfo A) × (HashMap.get m id ≡ some info)
  unfolding HashMap.get
  some_busy [] busy = absurd (omega arith)
  some_busy ((id, info) ∷ m) busy = (id, info, ground (arith, ==_iff id id))

module _ {W A : Type 0} (o : Observed W A) (c : Cluster W A) (h : IsHonest o c) where
  module _ (assignments : List A) (n : ℕ) (base : List A) where
    pub react-Inv :
        (waited : Waited) (p : Progress A) (w w' : W)
        → Inv o assignments n base p w
        → (p.active_workers ≡ 0 → p.assignment_index ≡ length assignments)
        → Waits o w (w', waited)
        → (p' : Progress A) × (w2 : W) × (react c assignments n waited p w' ≡ some (p', w2))
          × Inv o assignments n base p' w2
          × (o.budget w2 + pending assignments p' < o.budget w + pending assignments p)
          × (p'.active_workers ≡ 0 → p'.assignment_index ≡ length assignments)
    unfolding react
    react-Inv Waited.timed_out p w w' i idle (q, less) =
        (p, w', refl, Quiet-Inv o c h assignments n base p w w' q i, omega (arith, less), idle)
    react-Inv Waited.closed p w w' i idle (q, less) =
        (p, w', refl, Quiet-Inv o c h assignments n base p w w' q i, omega (arith, less), idle)
    react-Inv (Waited.completed id) p w w' i idle completes =
        let (p', w2, e, i', budget, less, idle') =
          on_completed-Inv o c h assignments n base id p w w' i completes in
        (p', w2, rw e, i', omega (arith, budget, less), idle')
    react-Inv (Waited.failed id) p w w' i idle fails =
        let (p', w2, e, i', budget, active, index) =
          on_failed-Inv o c h assignments n base id p w w' i fails in
        (
          p',
          w2,
          rw e,
          i',
          omega (arith, budget, active, index),
          λ none_left. ground (arith, idle, active, index),
        )

    work_loop-done :
        (e : Executor) (fuel : ℕ) (p : Progress A) (w : W)
        → Inv o assignments n base p w
        → (p.active_workers ≡ 0 → p.assignment_index ≡ length assignments)
        → o.budget w + pending assignments p < fuel
        → (w' : W) × (work_loop c assignments n e fuel p w ≡ done w')
          × ((f : A → ℕ) → total f (o.finished w') ≡ total f base + total f assignments)
    unfolding work_loop
    work_loop-done e zero p w i idle enough = absurd (omega arith)
    work_loop-done e (suc fuel) p w i idle enough = elim (Bool-cases (ltb 0 p.active_workers)) [
      | inr none_left ↦ (
        w,
        rw (none_left, work_loop),
        λ f. ground (
          arith,
          i.balance f,
          i.active,
          idle,
          weigh_idle (λ info. f info.assignment) p.worker_assignments,
          total_rest f p.assignment_index assignments,
        ),
      )
      | inl busy ↦
          let w1 = (c.is_cancelled w).0 in
          let q1 = h.cancelled_quiet w in
          let (p2, w2, checked, (i2, budget2, active2, index2)) =
            check_stragglers-Inv o c h assignments n base e.timeout p w1
              (Quiet-Inv o c h assignments n base p w w1 q1 i) in
          let (id, info, has) =
            some_busy p2.worker_assignments (ground (arith, i2.active, active2)) in
          let waits =
            h.wait_waits w2 (wait_duration e) id info.assignment
              (ground (arith, i2.agree id, has)) in
          let w3 = (c.wait_next w2 (wait_duration e)).0 in
          let (p4, w4, reacted, i4, less, idle4) =
            react-Inv ((c.wait_next w2 (wait_duration e)).1) p2 w2 w3 i2
              (λ z. ground (arith, active2, index2, idle)) waits in
          let (w', finishes, counts) =
            work_loop-done e fuel p4 w4 i4 idle4
              (omega (arith, less, budget2, active2, index2, q1.budget_le)) in
          (
            w',
            rw (busy, work_loop) (rw (h.not_cancelled w) (rw checked (rw reacted finishes))),
            counts,
          )
    ]

  pub started-Inv :
      (assignments : List A) (n : ℕ) (w : W)
      → Inv o assignments n (o.finished w) start_progress (c.setup w n)
  unfolding HashMap.get
  started-Inv assignments n w = record {
    unique = tt;
    active = refl;
    agree = λ id. h.setup_clear w n id;
    in_range = λ id far. refl;
    index_le = omega arith;
    balance = λ f. omega (arith, ap (total f) (h.setup_finished w n));
  }

  pub distributed-Inv :
      (assignments : List A) (n : ℕ) (w : W)
      → (p : Progress A) × (w' : W) × (distribute c assignments n
            (min n (length assignments))
            0
            start_progress
            (c.setup w n)
          ≡ some (p, w'))
        × Inv o assignments n (o.finished w) p w'
        × (o.budget w' ≤ o.budget w)
        × (p.active_workers ≡ min n (length assignments))
        × (p.assignment_index ≡ min n (length assignments))
  unfolding HashMap.get
  distributed-Inv assignments n w =
      let w0 = c.setup w n in
      let (p, w1, e, i, budget, active, index) =
        distribute-Inv o c h assignments n (o.finished w) (min n (length assignments)) 0
          start_progress w0 (started-Inv assignments n w) (omega arith) (omega arith)
          (λ j far. refl) in
      (
        p,
        w1,
        e,
        i,
        omega (arith, budget, h.setup_budget w n),
        omega (arith, active),
        omega (arith, index),
      )

  pub execute_completes_each_once :
      (e : Executor) (assignments : List A) (n fuel : ℕ) (w : W)
      → 0 < n
      → o.budget w + length assignments < fuel
      → (w' : W) × (execute c assignments n e fuel w ≡ done w')
        × ((f : A → ℕ) → total f (o.finished w') ≡ total f (o.finished w) + total f assignments)
  unfolding execute
  execute_completes_each_once e [] n fuel w workers enough = (w, refl, λ f. omega arith)
  execute_completes_each_once e (a ∷ rest) n fuel w workers enough =
      let assignments = a ∷ rest in
      let (p, w1, distributed, i, budget, active, index) = distributed-Inv assignments n w in
      let (w', finishes, counts) =
        work_loop-done assignments n (o.finished w) e fuel p w1 i
          (λ none_left. absurd (omega (arith, active))) (omega (arith, budget, active, index)) in
      (w', rw (distributed, execute) finishes, counts)
