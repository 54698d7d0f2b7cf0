-- ===== src/Examples/Bench/Atomic.antt =====
-- What the workers of the bench write to the store, and when.
use mathlib.Core.Path.{ap₂}
use distributed_systems.Prelude.{
  Option, ℕ, ◌≡◌, refl, ap, ◌∙◌, none, some, List, [], ◌∷◌, nat_eq, ==_iff, arith,
}
use distributed_systems.Prelude.HashMap
use distributed_systems.Prelude.HashMap.{HashMap}
use distributed_systems.Mr.Executor.Honest.{total}
use distributed_systems.Mr.Executor.Work.{Grows, IsAtomic}
use distributed_systems.Examples.Bench.{
  Part, one_of, written_by, written_by-insert, written_by-idle, step, report, advance, write, bench,
  seen, unreported,
}

module _ {W A S : Type 0} (part : Part W A S) (work : A → S → S) where
  abbrev GrowsTo : W → W → Type 0
  GrowsTo = Grows (seen part work) (unreported part work) part.store work

  grows_same :
      (w w' : W)
      → part.listed w' ≡ part.listed w
      → part.store w' ≡ part.store w
      → unreported part work w' ≡ unreported part work w
      → GrowsTo w w'
  grows_same w w' l s u = ([], s, λ f. omega (arith, ap (total f) l, ap (total f) u))

  unreported-set :
      (w : W) (m : HashMap ℕ A) (h : Option ℕ) (l : List A) (s : S)
      → unreported part work (part.set w m h l s) ≡ written_by h m
  unreported-set w m h l s = ap₂ written_by (part.writer-set w m h l s) (part.slots-set w m h l s)

  step-Grows :
      (w : W) (m : HashMap ℕ A) → unreported part work w ≡ [] → GrowsTo w (step part work w m).0
  step-Grows w [] u = grows_same w w refl refl refl
  step-Grows w ((id, a) ∷ m) u =
      let rest = HashMap.remove ((id, a) ∷ m) id in
      (
        a ∷ [],
        part.store-set w _ _ _ _,
        λ f. omega (
          arith,
          ap (total f) (part.listed-set w rest none (a ∷ part.listed w) (work a (part.store w))),
          ap (total f) (unreported-set w rest none (a ∷ part.listed w) (work a (part.store w))),
          ap (total f) u,
        ),
      )

  report-Grows :
      (w : W) (m : HashMap ℕ A) (id : ℕ) (found : Option A)
      → unreported part work w ≡ one_of found
      → GrowsTo w (report part work w m id found).0
  report-Grows w m id none u = step-Grows w m u
  report-Grows w m id (some a) u =
      let rest = HashMap.remove m id in
      (
        [],
        part.store-set w _ _ _ _,
        λ f. omega (
          arith,
          ap (total f) (part.listed-set w rest none (a ∷ part.listed w) (part.store w)),
          ap (total f) (unreported-set w rest none (a ∷ part.listed w) (part.store w)),
          ap (total f) u,
        ),
      )

  advance-Grows :
      (w : W) (m : HashMap ℕ A) (h : Option ℕ)
      → unreported part work w ≡ written_by h m
      → GrowsTo w (advance part work w m h).0
  advance-Grows w m none u = step-Grows w m u
  advance-Grows w m (some id) u = report-Grows w m id (HashMap.get m id) u

  write-Grows :
      (w : W) (m : HashMap ℕ A) (l : List A)
      → unreported part work w ≡ l
      → GrowsTo w (write part work w m l)
  unfolding HashMap.get
  write-Grows w m (a ∷ rest) u = grows_same w w refl refl refl
  write-Grows w [] [] u = grows_same w w refl refl refl
  write-Grows w ((id, a) ∷ m) [] u =
      let there : HashMap.get ((id, a) ∷ m) id ≡ some a = ground (arith, ==_iff id id) in
      let here : written_by (some id) ((id, a) ∷ m) ≡ a ∷ [] = ap one_of there in
      (
        a ∷ [],
        part.store-set w _ _ _ _,
        λ f. omega (
          arith,
          ap (total f)
              (part.listed-set w ((id, a) ∷ m) (some id) (part.listed w) (work a (part.store w))),
          ap (total f) (
              unreported-set w ((id, a) ∷ m) (some id) (part.listed w) (work a (part.store w))
              ∙ here),
          ap (total f) u,
        ),
      )

  pub bench-IsAtomic :
      IsAtomic (seen part work) (unreported part work) part.store work (bench part work)
  bench-IsAtomic = record {
    setup_store = λ w n. part.store-set w _ _ _ _;
    initialize = λ w id. grows_same w w refl refl refl;
    ready = λ w id. grows_same w w refl refl refl;
    send = λ w id a idle.
        grows_same w _ (part.listed-set w _ _ _ _) (part.store-set w _ _ _ _)
          (unreported-set w _ _ _ _ ∙ written_by-insert (part.writer w) (part.slots w) id a idle);
    replace = λ w id idle. (grows_same w w refl refl refl, idle);
    reset = λ w id idle. (grows_same w w refl refl refl, idle);
    cancelled = λ w. write-Grows w (part.slots w) (unreported part work w) refl;
    wait = λ w duration. advance-Grows w (part.slots w) (part.writer w) refl;
    settled = λ w idle. written_by-idle (part.writer w) (part.slots w) idle;
  }
