-- ===== src/Mr/Executor/Watch.antt =====
-- What the calls of a phase without timeouts keep, where they need to keep it only when the executor
-- makes them: it sends nothing to a worker that has an assignment, and replaces no such worker.
use distributed_systems.Prelude.{
  ℕ, zero, suc, ◌+◌, ◌≤◌, ◌<◌, ◌≡◌, refl, ◌∙◌, Option, none, some, List, [], ◌∷◌, length, get_elem?,
  ltb, min, nat_eq, Bool-cases, Option-cases, inl, inr, ==_iff, arith,
}
use distributed_systems.Prelude.HashMap
use distributed_systems.Prelude.HashMap.Weigh.{weigh}
use distributed_systems.Mr.Executor.{
  Cluster, Waited, Progress, AssignmentInfo, Executor, respawn, start_progress, record_done,
  check_stragglers, send_next, distribute, on_completed, on_failed, react, wait_duration, work_loop,
  execute,
}
use distributed_systems.Mr.Executor.Honest.{Observed, Waits, IsHonest, Inv, recorded}
use distributed_systems.Mr.Executor.Frame.{EndsIn}
use distributed_systems.Mr.Executor.Steps.{Quiet-Inv, send_next-Inv}
use distributed_systems.Mr.Executor.Completes.{react-Inv, some_busy, started-Inv, distributed-Inv}

no_record :
    {A : Type 0} (m : HashMap.HashMap ℕ (AssignmentInfo A)) (id : ℕ)
    → 0 ≡ weigh (λ info. 1) m
    → recorded (HashMap.get m id) ≡ none
unfolding HashMap.get
no_record [] id empty = refl
no_record ((j, info) ∷ m) id empty = absurd (omega (arith, empty))

-- `timeout_ms` is 0: a late worker is waited for.
abbrev pub patient : Executor
patient = record { timeout = none }

module _ {W A : Type 0} (o : Observed W A) (P : W → Type 0) (c : Cluster W A) where
  -- Each call keeps `P`; a worker is sent an assignment, or replaced, when it has none.
  pub record Keeps : Type 0 where
    pub initialize : (w : W) (id : ℕ) → P w → P (c.initialize w id)
    pub ready : (w : W) (id : ℕ) → P w → P ((c.wait_for_worker_ready w id).0)
    pub send : (w : W) (id : ℕ) (a : A) → o.assigned w id ≡ none → P w → P (c.send_work w id a)
    pub replace :
        (w : W) (id : ℕ)
        → o.assigned w id ≡ none
        → P w
        → P (c.replace_worker w id) × (o.assigned (c.replace_worker w id) id ≡ none)
    pub reset :
        (w : W) (id : ℕ)
        → o.assigned w id ≡ none
        → P w
        → P (c.reset_worker w id) × (o.assigned (c.reset_worker w id) id ≡ none)
    pub cancelled : (w : W) → P w → P ((c.is_cancelled w).0)
    pub wait : (w : W) (duration : ℕ) → P w → P ((c.wait_next w duration).0)

  abbrev Stays : Option (Progress A × W) → Type 0
  Stays none = Unit {0}
  Stays (some (p, w)) = P w

  module _ (h : IsHonest o c) (k : Keeps) where
    respawn-Keeps : (id : ℕ) (a : A) (w : W) → o.assigned w id ≡ none → P w → P (respawn c id a w)
    unfolding respawn
    respawn-Keeps id a w idle kept =
        let (kept1, idle1) = k.replace w id idle kept in
        let (kept2, idle2) = k.reset _ id idle1 kept1 in
        let w2 = c.reset_worker (c.replace_worker w id) id in
        let w3 = c.initialize w2 id in
        k.send _ id a
          ((h.ready_quiet w3 id).assigned_same id
            ∙ (h.initialize_quiet w2 id).assigned_same id
            ∙ idle2)
          (k.ready w3 id (k.initialize w2 id kept2))

    module _ (assignments : List A) (n : ℕ) (base : List A) where
      send_next-Stays :
          (id : ℕ) (p : Progress A) (w : W)
          → o.assigned w id ≡ none
          → P w
          → Stays (send_next c assignments n id p w)
      unfolding send_next
      send_next-Stays id p w idle kept =
          elim (Option-cases (get_elem? assignments p.assignment_index)) [
            | inl past ↦ rw (past, send_next) tt
            | inr (a, at) ↦ elim (Bool-cases (ltb id n)) [
              | inl small ↦ rw (at, send_next) (rw small (k.send w id a idle kept))
              | inr far ↦ rw (at, send_next) (rw far tt)
            ]
          ]

      on_completed-Stays :
          (id : ℕ) (p : Progress A) (w : W)
          → o.assigned w id ≡ none
          → P w
          → Stays (on_completed c assignments n id p w)
      unfolding on_completed record_done
      on_completed-Stays id p w idle kept =
          elim (Bool-cases (ltb p.assignment_index (length assignments))) [
            | inl more ↦ rw (more, on_completed) (send_next-Stays id (record_done id p) w idle kept)
            | inr last ↦ rw (last, on_completed) kept
          ]

      on_failed-Stays :
          (id : ℕ) (p : Progress A) (w : W)
          → o.assigned w id ≡ none
          → P w
          → P (on_failed c assignments n id p w).1
      unfolding on_failed
      on_failed-Stays id p w idle kept = elim (Option-cases (HashMap.get p.worker_assignments id)) [
        | inl gone ↦ rw (gone, on_failed) kept
        | inr (info, had) ↦ rw (had, on_failed) (respawn-Keeps id info.assignment w idle kept)
      ]

      react-Stays :
          (waited : Waited) (p : Progress A) (w w' : W)
          → Waits o w (w', waited)
          → P w'
          → Stays (react c assignments n waited p w')
      unfolding react
      react-Stays Waited.timed_out p w w' waits kept = kept
      react-Stays Waited.closed p w w' waits kept = kept
      react-Stays (Waited.completed id) p w w' completes kept =
          on_completed-Stays id p w' (ground (arith, completes.assigned_less id, ==_iff id id)) kept
      react-Stays (Waited.failed id) p w w' fails kept =
          on_failed-Stays id p w' (ground (arith, fails.assigned_less id, ==_iff id id)) kept

      distribute-Stays :
          (rounds id : ℕ) (p : Progress A) (w : W)
          → Inv o assignments n base p w
          → id + rounds ≤ n
          → p.assignment_index + rounds ≤ length assignments
          → ((j : ℕ) → id ≤ j → HashMap.get p.worker_assignments j ≡ none)
          → P w
          → Stays (distribute c assignments n rounds id p w)
      unfolding distribute
      distribute-Stays zero id p w i workers enough idle kept = kept
      distribute-Stays (suc rounds) id p w i workers enough idle kept =
          let w1 = c.initialize w id in
          let w2 = (c.wait_for_worker_ready w1 id).0 in
          let i2 =
            Quiet-Inv o c h assignments n base p w1 w2 (h.ready_quiet w1 id)
              (Quiet-Inv o c h assignments n base p w w1 (h.initialize_quiet w id) i) in
          let (p3, w3, sent, i3, budget3, active3, index3, others) =
            send_next-Inv o c h assignments n base id p w2 i2 (omega arith) (idle id (omega arith))
              (omega arith) in
          let kept3 = rw sent at (
            send_next-Stays id p w2 (ground (arith, i2.agree id, idle id (omega arith)))
              (k.ready w1 id (k.initialize w id kept))) in
          rw (sent, distribute)
            (distribute-Stays rounds (id + 1) p3 w3 i3 (omega arith) (omega (arith, index3))
              (λ j far. ground (arith, others j (omega arith), idle j (omega arith))) kept3)

      -- `P`, and no worker has an assignment
      abbrev Finished : W → Type 0
      Finished w = P w × ((id : ℕ) → o.assigned w id ≡ none)

      work_loop-Finished :
          (fuel : ℕ) (p : Progress A) (w : W)
          → Inv o assignments n base p w
          → (p.active_workers ≡ 0 → p.assignment_index ≡ length assignments)
          → P w
          → EndsIn Finished (work_loop c assignments n patient fuel p w)
      unfolding work_loop check_stragglers
      work_loop-Finished zero p w i idle kept = tt
      work_loop-Finished (suc fuel) p w i idle kept = elim (Bool-cases (ltb 0 p.active_workers)) [
        | inr none_left ↦
            rw (none_left, work_loop)
              (
                kept,
                λ id.
                    i.agree id
                    ∙ no_record p.worker_assignments id (ground (arith, i.active, none_left)),
              )
        | inl busy ↦
            let w1 = (c.is_cancelled w).0 in
            let i1 = Quiet-Inv o c h assignments n base p w w1 (h.cancelled_quiet w) i in
            let (id, info, has) = some_busy p.worker_assignments (ground (arith, i.active, busy)) in
            let waits =
              h.wait_waits w1 (wait_duration patient) id info.assignment
                (ground (arith, i1.agree id, has)) in
            let waited = c.wait_next w1 (wait_duration patient) in
            let (p4, w4, reacted, i4, less, idle4) =
              react-Inv o c h assignments n base waited.1 p w1 waited.0 i1 idle waits in
            let kept4 = rw reacted at (
              react-Stays waited.1 p w1 waited.0 waits
                (k.wait w1 (wait_duration patient) (k.cancelled w kept))) in
            rw (busy, work_loop)
              (rw (h.not_cancelled w)
                (rw (reacted, check_stragglers) (work_loop-Finished fuel p4 w4 i4 idle4 kept4)))
      ]

    -- A phase that has something to do ends with `P`, and with no assignment left.
    pub execute-Finished :
        (a : A) (rest : List A) (n fuel : ℕ) (w : W)
        → 0 < n
        → P (c.setup w n)
        → EndsIn (Finished (a ∷ rest) n (o.finished w)) (execute c (a ∷ rest) n patient fuel w)
    unfolding execute
    execute-Finished a rest n fuel w some_worker kept =
        let work = a ∷ rest in
        let w0 = c.setup w n in
        let (p, w1, sent, i, budget, active, index) = distributed-Inv o c h work n w in
        let kept1 = rw sent at (
          distribute-Stays work n (o.finished w) (min n (length work)) 0 start_progress w0
            (started-Inv o c h work n w) (omega arith) (omega arith)
            (λ j far. (unfold HashMap.get in refl)) kept) in
        rw (sent, execute)
          (work_loop-Finished work n (o.finished w) fuel p w1 i
            (λ none_left. absurd (omega (arith, active))) kept1)
