-- ===== src/Mr/Executor/Rounds.antt =====
-- The replacement of stragglers, the distribution of the first assignments, and the invariant.
use distributed_systems.Prelude.{
  ℕ, zero, suc, ◌+◌, ◌≤◌, ◌≡◌, refl, Option, none, some, List, [], ◌∷◌, length, nat_eq, arith,
  Option-cases, inl, inr,
}
use distributed_systems.Prelude.HashMap
use distributed_systems.Prelude.HashMap.Weigh.{
  insert-IsUnique, remove-IsUnique, weigh-remove, weigh-insert_new, get-remove_self,
}
use distributed_systems.Mr.Executor.{
  Cluster, AssignmentInfo, Progress, record_again, respawn, replace_stragglers, stragglers,
  check_stragglers, distribute,
}
use distributed_systems.Mr.Executor.Honest.{Observed, IsHonest, Inv}
use distributed_systems.Mr.Executor.Steps.{Quiet-Inv, again-Inv, respawn-Beside, send_next-Inv}

module _ {W A : Type 0} (o : Observed W A) (c : Cluster W A) (h : IsHonest o c) where
  module _ (assignments : List A) (n : ℕ) (base : List A) where
    -- What a replacement leaves as it was, beside the invariant.
    abbrev pub Kept : Progress A → W → Progress A → W → Type 0
    Kept p w p' w' =
        Inv o assignments n base p' w'
        × (o.budget w' ≤ o.budget w)
        × (p'.active_workers ≡ p.active_workers)
        × (p'.assignment_index ≡ p.assignment_index)

    pub replace_stragglers-Inv :
        (ids : List ℕ) (p : Progress A) (w : W)
        → Inv o assignments n base p w
        → (p' : Progress A) × (w' : W) × (replace_stragglers c ids p w ≡ (p', w')) × Kept p w p' w'
    unfolding replace_stragglers record_again respawn
    replace_stragglers-Inv [] p w i = (p, w, refl, (i, omega arith, refl, refl))
    replace_stragglers-Inv (id ∷ ids) p w i =
        let m = p.worker_assignments in
        elim (Option-cases (HashMap.get m id)) [
          | inl gone ↦
              let (p', w', e, kept) = replace_stragglers-Inv ids p w i in
              (p', w', rw (gone, replace_stragglers) e, kept)
          | inr (info, had) ↦
              let q = respawn-Beside o c h assignments n base id w in
              let w1 =
                (c.wait_for_worker_ready
                  (c.initialize (c.reset_worker (c.replace_worker w id) id) id) id).0 in
              let w2 = c.send_work w1 id info.assignment in
              let new : AssignmentInfo A = record {
                assignment = info.assignment;
                start_time = c.now w2;
              } in
              let m' = HashMap.insert (HashMap.remove m id) id new in
              let p2 : Progress A = record p { worker_assignments = m' } in
              let i2 : Inv o assignments n base p2 w2 =
                again-Inv o c h assignments n base id p w w1 info new i q had refl m'
                  (insert-IsUnique (HashMap.remove m id) id new (remove-IsUnique m id i.unique))
                  (λ j. ground (
                    arith,
                    HashMap.get-insert (HashMap.remove m id) id j new,
                    HashMap.get-remove m id j,
                  ))
                  (λ g same. omega (
                    arith,
                    same,
                    weigh-remove g m id info i.unique had,
                    weigh-insert_new g (HashMap.remove m id) id new (get-remove_self m id),
                  )) in
              let (p', w', e, (i', budget, active, index)) = replace_stragglers-Inv ids p2 w2 i2 in
              (
                p',
                w',
                rw (had, replace_stragglers) e,
                (
                  i',
                  omega (arith, budget, h.send_budget w1 id info.assignment, q.budget_le),
                  active,
                  index,
                ),
              )
        ]

    pub check_stragglers-Inv :
        (timeout : Option ℕ) (p : Progress A) (w : W)
        → Inv o assignments n base p w
        → (p' : Progress A) × (w' : W) × (check_stragglers c timeout p w ≡ (p', w'))
          × Kept p w p' w'
    unfolding check_stragglers
    check_stragglers-Inv none p w i = (p, w, refl, (i, omega arith, refl, refl))
    check_stragglers-Inv (some timeout) p w i =
        replace_stragglers-Inv (stragglers timeout (c.now w) p.worker_assignments) p w i

    -- The first assignments go to the workers from `id` on, which have none.
    pub distribute-Inv :
        (rounds id : ℕ) (p : Progress A) (w : W)
        → Inv o assignments n base p w
        → id + rounds ≤ n
        → p.assignment_index + rounds ≤ length assignments
        → ((j : ℕ) → id ≤ j → HashMap.get p.worker_assignments j ≡ none)
        → (p' : Progress A) × (w' : W) × (distribute c assignments n rounds id p w ≡ some (p', w'))
          × Inv o assignments n base p' w'
          × (o.budget w' ≤ o.budget w)
          × (p'.active_workers ≡ p.active_workers + rounds)
          × (p'.assignment_index ≡ p.assignment_index + rounds)
    unfolding distribute
    distribute-Inv zero id p w i workers enough idle =
        (p, w, refl, i, omega arith, omega arith, omega arith)
    distribute-Inv (suc rounds) id p w i workers enough idle =
        let w1 = c.initialize w id in
        let w2 = (c.wait_for_worker_ready w1 id).0 in
        let q1 = h.initialize_quiet w id in
        let q2 = h.ready_quiet w1 id in
        let (p3, w3, sent, i3, budget3, active3, index3, others) =
          send_next-Inv o c h assignments n base id p w2
            (Quiet-Inv o c h assignments n base p w1 w2 q2
              (Quiet-Inv o c h assignments n base p w w1 q1 i))
            (omega arith) (idle id (omega arith)) (omega arith) in
        let (p4, w4, e, i4, budget4, active4, index4) =
          distribute-Inv rounds (id + 1) p3 w3 i3 (omega arith) (omega (arith, index3))
            (λ j far. ground (arith, others j (omega arith), idle j (omega arith))) in
        (
          p4,
          w4,
          rw (sent, distribute) e,
          i4,
          omega (arith, budget4, budget3, q1.budget_le, q2.budget_le),
          omega (arith, active4, active3),
          omega (arith, index4, index3),
        )
