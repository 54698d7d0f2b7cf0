-- ===== src/Examples/Bench.antt =====
-- Workers on a state of which they use a part: one writes what it computes before the executor next
-- waits, and reports it then.
pub mod Atomic
use mathlib.Core.Path.{ap₂}
use distributed_systems.Prelude.{
  Option, Bool-cases, inl, inr, ℕ, ◌≡◌, refl, sym, ap, ◌∙◌, true, false, none, some, List, [], ◌∷◌,
  nat_eq, ◌==◌, ==_iff, if◌then◌else◌, arith,
}
use distributed_systems.Prelude.HashMap
use distributed_systems.Prelude.HashMap.{HashMap}
use distributed_systems.Mr.Executor.{Cluster, Waited}
use distributed_systems.Mr.Executor.Honest.{Observed, Quiet, Beside, Waits, IsHonest, total}
use distributed_systems.Mr.Executor.Work.{Grows, IsAtomic}

-- the part: what the workers have, which of them has written and not yet reported, what they have
-- reported, and the store
pub record Part (W A S : Type 0) : Type 0 where
  pub slots : W → HashMap ℕ A
  pub writer : W → Option ℕ
  pub listed : W → List A
  pub store : W → S
  pub set : W → HashMap ℕ A → Option ℕ → List A → S → W
  pub slots-set :
      (w : W) (m : HashMap ℕ A) (h : Option ℕ) (l : List A) (s : S) → slots (set w m h l s) ≡ m
  pub writer-set :
      (w : W) (m : HashMap ℕ A) (h : Option ℕ) (l : List A) (s : S) → writer (set w m h l s) ≡ h
  pub listed-set :
      (w : W) (m : HashMap ℕ A) (h : Option ℕ) (l : List A) (s : S) → listed (set w m h l s) ≡ l
  pub store-set :
      (w : W) (m : HashMap ℕ A) (h : Option ℕ) (l : List A) (s : S) → store (set w m h l s) ≡ s

-- A new assignment is not written yet.
abbrev pub cleared : Option ℕ → ℕ → Option ℕ
cleared none id = none
cleared (some j) id = if j == id then none else some j

module _ {A : Type 0} where
  abbrev pub one_of : Option A → List A
  one_of none = []
  one_of (some a) = a ∷ []

  abbrev pub written_by : Option ℕ → HashMap ℕ A → List A
  written_by none m = []
  written_by (some id) m = one_of (HashMap.get m id)

  pub written_by-insert :
      (h : Option ℕ) (m : HashMap ℕ A) (id : ℕ) (a : A)
      → HashMap.get m id ≡ none
      → written_by (cleared h id) (HashMap.insert m id a) ≡ written_by h m
  written_by-insert none m id a idle = refl
  written_by-insert (some j) m id a idle = elim (Bool-cases (j == id)) [
    | inl same ↦
        let one : j ≡ id = (==_iff j id).0 same in
        rw same (sym (ap one_of (ap (HashMap.get m) one ∙ idle)))
    | inr other ↦
        rw other
          (ap one_of (ground (arith, HashMap.get-insert m id j a, other, ==_iff id j, ==_iff j id)))
  ]

  pub written_by-idle :
      (h : Option ℕ) (m : HashMap ℕ A) → ((id : ℕ) → HashMap.get m id ≡ none) → written_by h m ≡ []
  written_by-idle none m idle = refl
  written_by-idle (some id) m idle = ap one_of (idle id)

module _ {W A S : Type 0} (part : Part W A S) (work : A → S → S) where
  abbrev pub unreported : W → List A
  unreported w = written_by (part.writer w) (part.slots w)

  -- the first worker that has an assignment completes it
  abbrev pub step : W → HashMap ℕ A → W × Waited
  step w [] = (w, Waited.closed)
  step w ((id, a) ∷ m) = (
    part.set w (HashMap.remove ((id, a) ∷ m) id) none (a ∷ part.listed w) (work a (part.store w)),
    Waited.completed id,
  )

  -- the worker that has written reports
  abbrev pub report : W → HashMap ℕ A → ℕ → Option A → W × Waited
  report w m id none = step w m
  report w m id (some a) = (
    part.set w (HashMap.remove m id) none (a ∷ part.listed w) (part.store w),
    Waited.completed id,
  )

  abbrev pub advance : W → HashMap ℕ A → Option ℕ → W × Waited
  advance w m none = step w m
  advance w m (some id) = report w m id (HashMap.get m id)

  -- the first worker that has an assignment writes, if none has
  abbrev pub write : W → HashMap ℕ A → List A → W
  write w m (a ∷ rest) = w
  write w [] [] = w
  write w ((id, a) ∷ m) [] =
      part.set w ((id, a) ∷ m) (some id) (part.listed w) (work a (part.store w))

  abbrev pub bench : Cluster W A
  bench = record {
    setup = λ w n. part.set w [] none (part.listed w) (part.store w);
    initialize = λ w id. w;
    wait_for_worker_ready = λ w id. (w, true);
    send_work = λ w id a.
        part.set w (HashMap.insert (part.slots w) id a) (cleared (part.writer w) id) (part.listed w)
          (part.store w);
    replace_worker = λ w id. w;
    reset_worker = λ w id. w;
    is_cancelled = λ w. (write w (part.slots w) (unreported w), false);
    wait_next = λ w duration. advance w (part.slots w) (part.writer w);
    now = λ w. 0;
  }

  abbrev pub seen : Observed W A
  seen = record {
    assigned = λ w id. HashMap.get (part.slots w) id;
    finished = part.listed;
    budget = λ w. 0;
  }

  quiet : (w : W) → Quiet seen w w
  quiet w = record { assigned_same = λ id. refl; finished_same = refl; budget_le = omega arith }

  beside : (w : W) (id : ℕ) → Beside seen id w w
  beside w id = record {
    assigned_beside = λ j other. refl;
    finished_same = refl;
    budget_le = omega arith;
  }

  step-Waits :
      (w : W) (m : HashMap ℕ A) (id : ℕ) (a : A)
      → part.slots w ≡ m
      → HashMap.get m id ≡ some a
      → Waits seen w (step w m)
  unfolding HashMap.get
  step-Waits w [] id a e has = absurd (ground (arith, has))
  step-Waits w ((j, b) ∷ m) id a e has = record {
    reported = b;
    had = ap (λ s. HashMap.get s j) e ∙ ground (arith, ==_iff j j);
    assigned_less = λ i.
        ap (λ s. HashMap.get s i) (part.slots-set w _ _ _ _)
        ∙ HashMap.get-remove ((j, b) ∷ m) j i
        ∙ ap (λ s. if j == i then none else HashMap.get s i) (sym e);
    finished_more = part.listed-set w _ _ _ _;
    budget_le = omega arith;
  }

  report-Waits :
      (w : W) (m : HashMap ℕ A) (id j : ℕ) (a : A) (found : Option A)
      → part.slots w ≡ m
      → HashMap.get m id ≡ some a
      → HashMap.get m j ≡ found
      → Waits seen w (report w m j found)
  report-Waits w m id j a none e has at = step-Waits w m id a e has
  report-Waits w m id j a (some b) e has at = record {
    reported = b;
    had = ap (λ s. HashMap.get s j) e ∙ at;
    assigned_less = λ i.
        ap (λ s. HashMap.get s i) (part.slots-set w _ _ _ _)
        ∙ HashMap.get-remove m j i
        ∙ ap (λ s. if j == i then none else HashMap.get s i) (sym e);
    finished_more = part.listed-set w _ _ _ _;
    budget_le = omega arith;
  }

  advance-Waits :
      (w : W) (m : HashMap ℕ A) (h : Option ℕ) (id : ℕ) (a : A)
      → part.slots w ≡ m
      → HashMap.get m id ≡ some a
      → Waits seen w (advance w m h)
  advance-Waits w m none id a e has = step-Waits w m id a e has
  advance-Waits w m (some j) id a e has = report-Waits w m id j a (HashMap.get m j) e has refl

  write-Quiet :
      (w : W) (m : HashMap ℕ A) (l : List A) → part.slots w ≡ m → Quiet seen w (write w m l)
  write-Quiet w m (a ∷ rest) e = quiet w
  write-Quiet w [] [] e = quiet w
  write-Quiet w ((id, a) ∷ m) [] e = record {
    assigned_same = λ j. ap (λ s. HashMap.get s j) (part.slots-set w _ _ _ _ ∙ sym e);
    finished_same = part.listed-set w _ _ _ _;
    budget_le = omega arith;
  }

  pub bench-IsHonest : IsHonest seen bench
  bench-IsHonest = record {
    setup_clear = λ w n id.
        ap (λ s. HashMap.get s id) (part.slots-set w _ _ _ _) ∙ (unfold HashMap.get in refl);
    setup_finished = λ w n. part.listed-set w _ _ _ _;
    setup_budget = λ w n. omega arith;
    initialize_quiet = λ w id. quiet w;
    ready_quiet = λ w id. quiet w;
    replace_beside = λ w id. beside w id;
    reset_beside = λ w id. beside w id;
    cancelled_quiet = λ w. write-Quiet w (part.slots w) (unreported w) refl;
    not_cancelled = λ w. refl;
    send_assigned = λ w id a j.
        ap (λ s. HashMap.get s j) (part.slots-set w _ _ _ _)
        ∙ HashMap.get-insert (part.slots w) id j a;
    send_finished = λ w id a. part.listed-set w _ _ _ _;
    send_budget = λ w id a. omega arith;
    wait_waits =
        λ w duration id a has. advance-Waits w (part.slots w) (part.writer w) id a refl has;
  }
