-- ===== src/Mr/Executor/Steps.antt =====
-- The steps of the executor's bookkeeping that several arms share, and the invariant.
use distributed_systems.Prelude.{
  ℕ, zero, suc, ◌+◌, ◌≤◌, ◌<◌, ◌≡◌, refl, sym, ap, none, some, List, [], ◌∷◌, length, drop,
  get_elem?, ◌==◌, ==_iff, ltb, if◌then◌else◌, nat_eq, arith, Option-cases, Bool-cases, inl, inr,
  true, ◌∙◌,
}
use distributed_systems.Prelude.HashMap
use native.Mathlib.Nat.{suc-add}
use distributed_systems.Prelude.HashMap.{HashMap}
use distributed_systems.Prelude.HashMap.Weigh.{
  weigh, IsUnique, insert-IsUnique, weigh-insert_new, weigh-reinsert,
}
use distributed_systems.Mr.Executor.{
  Cluster, AssignmentInfo, Progress, record_next, record_again, respawn, send_next, on_failed,
}
use distributed_systems.Mr.Executor.Honest.{Observed, Quiet, Beside, Fails, IsHonest, Inv, total}

module _ {W A : Type 0} (o : Observed W A) where
  Beside-trans : (id : ℕ) (u v w : W) → Beside o id u v → Beside o id v w → Beside o id u w
  Beside-trans id u v w q r = record {
    assigned_beside = λ j other. r.assigned_beside j other ∙ q.assigned_beside j other;
    finished_same = r.finished_same ∙ q.finished_same;
    budget_le = omega (arith, q.budget_le, r.budget_le);
  }

  Fails-Beside : (v w : W) (id : ℕ) → Fails o v w id → Beside o id v w
  Fails-Beside v w id fails = record {
    assigned_beside = λ j other. ground (arith, other, fails.assigned_less j);
    finished_same = fails.finished_same;
    budget_le = omega (arith, fails.budget_lt);
  }

  Beside-Quiet : (id : ℕ) (v w : W) → Quiet o v w → Beside o id v w
  Beside-Quiet id v w q = record {
    assigned_beside = λ j other. q.assigned_same j;
    finished_same = q.finished_same;
    budget_le = q.budget_le;
  }

ltb_of_lt : (a b : ℕ) → a < b → ltb a b ≡ true
ltb_of_lt a b h = ground arith

module _ {A : Type 0} where
  -- The element at an index is the first of what stands from there on.
  pub total-drop :
      (f : A → ℕ) (xs : List A) (i : ℕ) (x : A)
      → get_elem? xs i ≡ some x
      → total f (drop i xs) ≡ f x + total f (drop (i + 1) xs)
  total-drop f [] i x h = absurd (ground (arith, h))
  total-drop f (y ∷ xs) zero x h = ground (arith, h)
  total-drop f (y ∷ xs) (suc i) x h = rw suc-add (total-drop f xs i x h)

  pub get_elem?_of_lt : (xs : List A) (i : ℕ) → i < length xs → (x : A) × (get_elem? xs i ≡ some x)
  get_elem?_of_lt [] i h = absurd (omega arith)
  get_elem?_of_lt (y ∷ xs) zero h = (y, refl)
  get_elem?_of_lt (y ∷ xs) (suc i) h = get_elem?_of_lt xs i (omega arith)

module _ {W A : Type 0} (o : Observed W A) (c : Cluster W A) (h : IsHonest o c) where
  module _ (assignments : List A) (n : ℕ) (base : List A) where
    -- What changes nothing observable keeps the invariant.
    pub Quiet-Inv :
        (p : Progress A) (w w' : W)
        → Quiet o w w'
        → Inv o assignments n base p w
        → Inv o assignments n base p w'
    Quiet-Inv p w w' q i = record {
      unique = i.unique;
      active = i.active;
      agree = λ id. ground (arith, q.assigned_same id, i.agree id);
      in_range = i.in_range;
      index_le = i.index_le;
      balance = λ f. rw q.finished_same (i.balance f);
    }

    -- An idle worker takes the next assignment.
    pub send_next-Inv :
        (id : ℕ) (p : Progress A) (w : W)
        → Inv o assignments n base p w
        → id < n
        → HashMap.get p.worker_assignments id ≡ none
        → p.assignment_index < length assignments
        → (p' : Progress A) × (w' : W) × (send_next c assignments n id p w ≡ some (p', w'))
          × Inv o assignments n base p' w'
          × (o.budget w' ≤ o.budget w)
          × (p'.active_workers ≡ p.active_workers + 1)
          × (p'.assignment_index ≡ p.assignment_index + 1)
          × ((j : ℕ)
              → id < j
              → HashMap.get p'.worker_assignments j ≡ HashMap.get p.worker_assignments j)
    unfolding send_next record_next
    send_next-Inv id p w i small idle more =
        let (a, at) = get_elem?_of_lt assignments p.assignment_index more in
        let w' = c.send_work w id a in
        let info : AssignmentInfo A = record { assignment = a; start_time = c.now w' } in
        let m = p.worker_assignments in
        (
          record_next id info p,
          w',
          rw (at, send_next) (rw (ltb_of_lt id n small)),
          record {
            unique = insert-IsUnique m id info i.unique;
            active = ground (arith, i.active, weigh-insert_new (λ x. 1) m id info idle);
            agree = λ j.
                ground (arith, h.send_assigned w id a j, i.agree j, HashMap.get-insert m id j info);
            in_range = λ j far.
                ground (arith, i.in_range j far, HashMap.get-insert m id j info, ==_iff id j);
            index_le = omega arith;
            balance = λ f. omega (
              arith,
              ap (total f) (h.send_finished w id a),
              weigh-insert_new (λ x. f x.assignment) m id info idle,
              total-drop f assignments p.assignment_index a at,
              i.balance f,
            );
          },
          h.send_budget w id a,
          refl,
          refl,
          λ j far. ground (arith, HashMap.get-insert m id j info, ==_iff id j),
        )

    -- A worker's assignment, sent again, leaves the invariant and the counts as they were.
    pub again-Inv :
        (id : ℕ) (p : Progress A) (v w : W) (info new : AssignmentInfo A)
        → Inv o assignments n base p v
        → Beside o id v w
        → HashMap.get p.worker_assignments id ≡ some info
        → new.assignment ≡ info.assignment
        → (m : HashMap ℕ (AssignmentInfo A)) → IsUnique m
        → ((j : ℕ)
            → HashMap.get m j ≡ (if id == j then some new else HashMap.get p.worker_assignments j))
        → ((g : AssignmentInfo A → ℕ) → g info ≡ g new → weigh g m ≡ weigh g p.worker_assignments)
        → Inv o assignments n base
            (record p { worker_assignments = m })
            (c.send_work w id info.assignment)
    again-Inv id p v w info new i b had same m unique looks weighs = record {
      unique = unique;
      active = ground (arith, i.active, weighs (λ x. 1) refl);
      agree = λ j. elim (Bool-cases (id == j)) [
        | inl here ↦ ground (arith, here, same, h.send_assigned w id info.assignment j, looks j)
        | inr other ↦ ground (
          arith,
          other,
          b.assigned_beside j other,
          h.send_assigned w id info.assignment j,
          i.agree j,
          looks j,
        )
      ];
      in_range = λ j far. ground (arith, i.in_range j far, looks j, ==_iff id j);
      index_le = i.index_le;
      balance = λ f. omega (
        arith,
        ap (total f) (h.send_finished w id info.assignment),
        ap (total f) b.finished_same,
        weighs (λ x. f x.assignment) (ap f (sym same)),
        i.balance f,
      );
    }

    -- Replacing a worker keeps what the other slots have.
    pub respawn-Beside :
        (id : ℕ) (w : W)
        → Beside o id w (
            (c.wait_for_worker_ready
              (c.initialize (c.reset_worker (c.replace_worker w id) id) id)
              id).0)
    respawn-Beside id w =
        let w1 = c.replace_worker w id in
        let w2 = c.reset_worker w1 id in
        let w3 = c.initialize w2 id in
        Beside-trans o id w w1 _ (h.replace_beside w id) (
          Beside-trans o id w1 w2 _ (h.reset_beside w1 id) (
            Beside-trans o id w2 w3 _ (Beside-Quiet o id w2 w3 (h.initialize_quiet w2 id))
              (Beside-Quiet o id w3 _ (h.ready_quiet w3 id))))

    -- The failure of a slot without an assignment.
    idle-Inv :
        (id : ℕ) (p : Progress A) (v w : W)
        → Inv o assignments n base p v
        → Fails o v w id
        → HashMap.get p.worker_assignments id ≡ none
        → Inv o assignments n base p w
    idle-Inv id p v w i fails gone = record {
      unique = i.unique;
      active = i.active;
      agree = λ j. elim (Bool-cases (id == j)) [
        | inl here ↦ ground (arith, here, gone, ==_iff id j, fails.assigned_less j, i.agree j)
        | inr other ↦ ground (arith, other, fails.assigned_less j, i.agree j)
      ];
      in_range = i.in_range;
      index_le = i.index_le;
      balance = λ f. rw fails.finished_same (i.balance f);
    }

    -- The arm of `Err`.
    pub on_failed-Inv :
        (id : ℕ) (p : Progress A) (v w : W)
        → Inv o assignments n base p v
        → Fails o v w id
        → (p' : Progress A) × (w' : W) × (on_failed c assignments n id p w ≡ (p', w'))
          × Inv o assignments n base p' w'
          × (o.budget w' < o.budget v)
          × (p'.active_workers ≡ p.active_workers)
          × (p'.assignment_index ≡ p.assignment_index)
    unfolding on_failed record_again respawn
    on_failed-Inv id p v w i fails = elim (Option-cases (HashMap.get p.worker_assignments id)) [
      | inl gone ↦
          (p, w, rw (gone, on_failed), idle-Inv id p v w i fails gone, fails.budget_lt, refl, refl)
      | inr (info, had) ↦
          let q = Beside-trans o id v w _ (Fails-Beside o v w id fails) (respawn-Beside id w) in
          let w1 =
            (c.wait_for_worker_ready (c.initialize (c.reset_worker (c.replace_worker w id) id) id)
              id).0 in
          let w2 = c.send_work w1 id info.assignment in
          let new : AssignmentInfo A = record {
            assignment = info.assignment;
            start_time = c.now w2;
          } in
          (
            record_again id new p,
            w2,
            rw (had, on_failed),
            again-Inv id p v w1 info new i q had refl (HashMap.insert p.worker_assignments id new)
                (insert-IsUnique p.worker_assignments id new i.unique)
                (λ j. HashMap.get-insert p.worker_assignments id j new)
                (λ g. weigh-reinsert g p.worker_assignments id info new i.unique had),
            omega (
              arith,
              h.send_budget w1 id info.assignment,
              (respawn-Beside id w).budget_le,
              fails.budget_lt,
            ),
            refl,
            refl,
          )
    ]
