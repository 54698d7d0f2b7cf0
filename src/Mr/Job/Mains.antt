-- ===== src/Mr/Job/Mains.antt =====
-- What the three main functions show: `channel_main`, `socket_main` and `run_coordinator`.
use mathlib.Core.List.{Memᴰ, Permᴰ}
use mathlib.Core.List.Permᴰ
use distributed_systems.Prelude.{ℕ, ◌≡◌, some, List, [], ◌∷◌, take, All, Text, text_eq}
use distributed_systems.Prelude.HashMap
use distributed_systems.Prelude.HashMap.{HashMap}
use distributed_systems.Mr.StateStore.{LocalStateAccess}
use distributed_systems.Mr.Executor.{Outcome, done}
use distributed_systems.Mr.Executor.Honest.{Observed}
use distributed_systems.Mr.WordSearch.{MapWorkAssignment, ReduceWorkAssignment}
use distributed_systems.Mr.WordSearch.MapPhase.{occurrences}
use distributed_systems.Mr.Report.{Report}
use distributed_systems.Mr.Report.Sorted.{IsSorted}
use distributed_systems.Mr.TestData.{Config, generate_test_data}
use distributed_systems.Mr.Job.{Platform}

-- A report of the targets' counts: it shows the first twenty entries of a list that has the results
-- in order, in which each target stands with the number of texts that contain it.
abbrev pub Shows : Report → List Text → List Text → Type 0
Shows r items targets =
    (sorted : List (Text × List ℕ)) × IsSorted sorted
    × (r.lines ≡ take 20 sorted)
    × All (λ t. Memᴰ (t, occurrences t items ∷ []) sorted) targets

module _ {W M R : Type 0} (p : Platform W M R) (store : W → LocalStateAccess)
    (o_m : Observed W MapWorkAssignment) (o_r : Observed W ReduceWorkAssignment)
    (u_m : W → List MapWorkAssignment) (u_r : W → List ReduceWorkAssignment) (b_m b_r : ℕ) where
  -- The program makes its random texts and targets, ends, and shows the counts of the targets.
  abbrev pub Succeeds : Config → W → Outcome (W × Report) → Type 0
  Succeeds config w outcome =
      (w0 : W) × (items : List Text) × (targets : List Text) × (w' : W) × (r : Report)
      × (generate_test_data p.rng config w ≡ some (w0, items, targets))
      × (outcome ≡ done (w', r))
      × Shows r items targets
