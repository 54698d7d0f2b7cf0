-- ===== src/Mr/Executor/Work.antt =====
-- A phase whose workers write to a shared store.
use mathlib.Core.List.{Permᴰ}
use distributed_systems.Prelude.{
  ℕ, ◌+◌, ◌<◌, ◌≡◌, none, refl, sym, ap, ◌∙◌, List, [], ◌∷◌, ◌++◌, length, arith,
}
use distributed_systems.Prelude.Totals.{total, total-append, Permᴰ_of_total}
use distributed_systems.Mr.Executor.{Cluster, done, execute}
use distributed_systems.Mr.Executor.Honest.{Observed, IsHonest}
use distributed_systems.Mr.Executor.Completes.{execute_completes_each_once}
use distributed_systems.Mr.Executor.Watch.{Keeps, patient, execute-Finished}

module _ {S A : Type 0} (work : A → S → S) where
  -- the work of some assignments, one after the other
  abbrev pub do_all : List A → S → S
  do_all [] s = s
  do_all (a ∷ rest) s = do_all rest (work a s)

  do_all-append : (xs ys : List A) (s : S) → do_all (xs ++ ys) s ≡ do_all ys (do_all xs s)
  do_all-append [] ys s = refl
  do_all-append (a ∷ xs) ys s = do_all-append xs ys (work a s)

  pub do_all_keeps :
      (Q : S → Type 0)
      → ((a : A) (s : S) → Q s → Q (work a s))
      → (xs : List A) (s : S) → Q s
      → Q (do_all xs s)
  do_all_keeps Q works [] s q = q
  do_all_keeps Q works (a ∷ xs) s q = do_all_keeps Q works xs (work a s) (works a s q)

module _ {W A S : Type 0} (o : Observed W A) (unreported : W → List A) (store : W → S)
    (work : A → S → S) where
  -- The store changes by the work of some assignments, and these are then reported, or still to be
  -- reported, in addition to what was.
  abbrev pub Grows : W → W → Type 0
  Grows w w' =
      (new : List A) × (store w' ≡ do_all work new (store w))
      × ((f : A → ℕ)
          → total f (o.finished w') + total f (unreported w')
            ≡ total f (o.finished w) + total f (unreported w) + total f new)

  -- Workers that write what they compute before they report it, at any time and the whole of it at
  -- once; `unreported` is what is written and not yet reported. One whose failure is reported has
  -- written nothing, and while no worker has an assignment nothing is unreported.
  pub record IsAtomic (c : Cluster W A) : Type 0 where
    pub setup_store : (w : W) (n : ℕ) → store (c.setup w n) ≡ store w
    pub initialize : (w : W) (id : ℕ) → Grows w (c.initialize w id)
    pub ready : (w : W) (id : ℕ) → Grows w ((c.wait_for_worker_ready w id).0)
    pub send : (w : W) (id : ℕ) (a : A) → o.assigned w id ≡ none → Grows w (c.send_work w id a)
    pub replace :
        (w : W) (id : ℕ)
        → o.assigned w id ≡ none
        → Grows w (c.replace_worker w id) × (o.assigned (c.replace_worker w id) id ≡ none)
    pub reset :
        (w : W) (id : ℕ)
        → o.assigned w id ≡ none
        → Grows w (c.reset_worker w id) × (o.assigned (c.reset_worker w id) id ≡ none)
    pub cancelled : (w : W) → Grows w ((c.is_cancelled w).0)
    pub wait : (w : W) (duration : ℕ) → Grows w ((c.wait_next w duration).0)
    pub settled : (w : W) → ((id : ℕ) → o.assigned w id ≡ none) → unreported w ≡ []

  -- The store holds what the finished and the unreported assignments have written.
  abbrev Written : W → W → Type 0
  Written w0 w =
      (order : List A) × (store w ≡ do_all work order (store w0))
      × ((f : A → ℕ)
          → total f order + total f (o.finished w0)
            ≡ total f (o.finished w) + total f (unreported w))

  Grows-Written : (w0 w w' : W) → Grows w w' → Written w0 w → Written w0 w'
  Grows-Written w0 w w' (new, wrote, counts) (order, written, adds) = (
    order ++ new,
    wrote ∙ ap (do_all work new) written ∙ sym (do_all-append work order new (store w0)),
    λ f. omega (arith, total-append f order new, counts f, adds f),
  )

  module _ (c : Cluster W A) (atomic : IsAtomic c) where
    Written-Keeps : (w0 : W) → Keeps o (Written w0) c
    Written-Keeps w0 = record {
      initialize = λ w id. Grows-Written w0 w _ (atomic.initialize w id);
      ready = λ w id. Grows-Written w0 w _ (atomic.ready w id);
      send = λ w id a idle. Grows-Written w0 w _ (atomic.send w id a idle);
      replace = λ w id idle h.
          let (grows, still) = atomic.replace w id idle in (Grows-Written w0 w _ grows h, still);
      reset = λ w id idle h.
          let (grows, still) = atomic.reset w id idle in (Grows-Written w0 w _ grows h, still);
      cancelled = λ w. Grows-Written w0 w _ (atomic.cancelled w);
      wait = λ w d. Grows-Written w0 w _ (atomic.wait w d);
    }

    pub execute_does_each_once :
        Discrete A
        → IsHonest o c
        → (assignments : List A) (n fuel : ℕ) (w : W) → 0 < n
        → o.budget w + length assignments < fuel
        → (w' : W) × (execute c assignments n patient fuel w ≡ done w')
          × ((order : List A) × Permᴰ assignments order × (store w' ≡ do_all work order (store w)))
    execute_does_each_once eq honest [] n fuel w workers enough =
        (w, (unfold execute in refl), ([], Permᴰ.nil, refl))
    execute_does_each_once eq honest (a ∷ rest) n fuel w workers enough =
        let (w', ends, counts) =
          execute_completes_each_once o c honest patient (a ∷ rest) n fuel w workers enough in
        let w0 = c.setup w n in
        let clear = atomic.settled w0 (λ id. honest.setup_clear w n id) in
        let start : Written w0 w0 = ([], refl, λ f. omega (arith, ap (total f) clear)) in
        let ((order, written, adds), none_left) = rw ends at (
          execute-Finished o (Written w0) c honest (Written-Keeps w0) a rest n fuel w workers
            start) in
        let perm = Permᴰ_of_total eq (a ∷ rest) order (λ f. omega (
          arith,
          counts f,
          adds f,
          ap (total f) (atomic.settled w' none_left),
          ap (total f) (honest.setup_finished w n),
        )) in
        (w', ends, (order, perm, written ∙ ap (do_all work order) (atomic.setup_store w n)))
