-- ===== src/Mr/Executor/Completion.antt =====
-- The arm of `Ok` of the executor's loop, and the invariant.
use distributed_systems.Prelude.{
  ℕ, ◌+◌, ◌-◌, ◌≤◌, ◌<◌, ◌≡◌, refl, ap, none, some, List, length, ltb, nat_eq, arith, Option-cases,
  Bool-cases, inl, inr,
}
use distributed_systems.Prelude.HashMap
use distributed_systems.Prelude.HashMap.Weigh.{remove-IsUnique, weigh-remove, get-remove_self}
use distributed_systems.Mr.Executor.{Cluster, Progress, record_done, on_completed}
use distributed_systems.Mr.Executor.Honest.{Observed, Completes, IsHonest, Inv, total}
use distributed_systems.Mr.Executor.Steps.{send_next-Inv}

module _ {W A : Type 0} (o : Observed W A) (c : Cluster W A) (h : IsHonest o c) where
  module _ (assignments : List A) (n : ℕ) (base : List A) where
    -- The completed assignment of a worker leaves it idle.
    done-Inv :
        (id : ℕ) (p : Progress A) (w w' : W)
        → Inv o assignments n base p w
        → Completes o w w' id
        → Inv o assignments n base (record_done id p) w'
          × (id < n)
          × (p.active_workers ≡ (record_done id p).active_workers + 1)
          × (HashMap.get (record_done id p).worker_assignments id ≡ none)
    unfolding record_done
    done-Inv id p w w' i done = elim (Option-cases (HashMap.get p.worker_assignments id)) [
      | inl gone ↦ absurd (ground (arith, i.agree id, done.had))
      | inr (info, had) ↦
          let m = p.worker_assignments in
          let same : info.assignment ≡ done.reported = ground (arith, i.agree id, done.had) in
          (
            record {
              unique = remove-IsUnique m id i.unique;
              active = omega (arith, i.active, weigh-remove (λ x. 1) m id info i.unique had);
              agree =
                  λ j. ground (arith, done.assigned_less j, i.agree j, HashMap.get-remove m id j);
              in_range = λ j far. ground (arith, i.in_range j far, HashMap.get-remove m id j);
              index_le = i.index_le;
              balance = λ f. omega (
                arith,
                ap (total f) done.finished_more,
                ap f same,
                weigh-remove (λ x. f x.assignment) m id info i.unique had,
                i.balance f,
              );
            },
            ground (arith, i.in_range id),
            omega (arith, i.active, weigh-remove (λ x. 1) m id info i.unique had),
            get-remove_self m id,
          )
    ]

    index_same :
        (id : ℕ) (p : Progress A) → (record_done id p).assignment_index ≡ p.assignment_index
    unfolding record_done
    index_same id p = refl

    -- The arm of `Ok`: no index is out of bounds, and one assignment less is to be completed.
    pub on_completed-Inv :
        (id : ℕ) (p : Progress A) (w w' : W)
        → Inv o assignments n base p w
        → Completes o w w' id
        → (p' : Progress A) × (w2 : W) × (on_completed c assignments n id p w' ≡ some (p', w2))
          × Inv o assignments n base p' w2
          × (o.budget w2 ≤ o.budget w)
          × (p'.active_workers + (length assignments - p'.assignment_index) + 1
              ≡ p.active_workers + (length assignments - p.assignment_index))
          × (p'.active_workers ≡ 0 → p'.assignment_index ≡ length assignments)
    unfolding on_completed
    on_completed-Inv id p w w' i done =
        let (i', small, less, idle) = done-Inv id p w w' i done in
        let q = record_done id p in
        elim (Bool-cases (ltb p.assignment_index (length assignments))) [
          | inr last ↦ (
            q,
            w',
            rw (index_same id p) (rw last refl),
            i',
            done.budget_le,
            ground (arith, less, index_same id p),
            λ none_left. ground (arith, i.index_le, index_same id p),
          )
          | inl more ↦
              let (p2, w2, sent, i2, budget, active, index, others) =
                send_next-Inv o c h assignments n base id q w' i' small idle
                  (ground (arith, index_same id p)) in
              (
                p2,
                w2,
                rw (index_same id p) (rw more sent),
                i2,
                omega (arith, budget, done.budget_le),
                ground (arith, less, index_same id p, active, index),
                λ none_left. absurd (omega (arith, active)),
              )
        ]
