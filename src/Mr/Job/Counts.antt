-- ===== src/Mr/Job/Counts.antt =====
-- The two phases of a job on honest workers that share a store, for `run_phases`.
use mathlib.Core.List.{Memᴰ}
use native.Mathlib.Decide.{ℕ_discrete}
use distributed_systems.Prelude.{
  ℕ, ◌+◌, ◌≤◌, ◌<◌, ◌≡◌, refl, ◌∙◌, ap, List, [], ◌∷◌, length, length-append, map, concat, All,
  Text, arith,
}
use distributed_systems.Mr.StateStore.{StateStore, IsStore}
use distributed_systems.Mr.Executor.{done}
use distributed_systems.Mr.Executor.Honest.{Observed, IsHonest}
use distributed_systems.Mr.Executor.Frame.{Keeps, execute-Keeps}
use distributed_systems.Mr.Executor.Work.{do_all, do_all_keeps, IsAtomic, execute_does_each_once}
use distributed_systems.Mr.Executor.Watch.{patient}
use distributed_systems.Mr.WordSearch.{
  MapWorkAssignment, ReduceWorkAssignment, WordSearchContext, map_work, reduce_work,
}
use distributed_systems.Mr.WordSearch.Assignments.{
  create_map_assignments_cover, create_reduce_assignments_cover,
}
use distributed_systems.Mr.WordSearch.MapPhase.{occurrences}
use distributed_systems.Mr.WordSearch.Phases.{run_map, run_reduce}
use distributed_systems.Mr.WordSearch.Result.{word_search_counts}
use distributed_systems.Mr.TestData.{Config}
use distributed_systems.Mr.Job.{Platform, run_phases}

MapWorkAssignment-discrete : Discrete MapWorkAssignment
MapWorkAssignment-discrete = hlevel ℕ_discrete

ReduceWorkAssignment-discrete : Discrete ReduceWorkAssignment
ReduceWorkAssignment-discrete = hlevel ℕ_discrete

-- There are no more chunks than elements.
length-chunks {ℓ κ μ} :
    {A : Type ℓ} {B : Type κ} (chunk : A → List B) (P : A → Type μ) (work : List A)
    → ((a : A) → P a → 0 < length (chunk a))
    → All P work
    → length work ≤ length (concat (map chunk work))
length-chunks chunk P [] full h = omega arith
length-chunks chunk P (a ∷ rest) full (ha, h) = omega (
  arith,
  full a ha,
  length-append (chunk a) (concat (map chunk rest)),
  length-chunks chunk P rest full h,
)

from_members {ℓ κ} :
    {A : Type ℓ} {P : A → Type κ} (xs : List A) → ((x : A) → Memᴰ x xs → P x) → All P xs
from_members [] h = tt
from_members (x ∷ xs) h = (h x (Memᴰ.head refl), from_members xs (λ y m. h y (Memᴰ.tail m)))

module _ {S : Type 0} (st : StateStore S) where
  run_map-do_all :
      (work : List MapWorkAssignment) (s : S) → do_all (map_work st) work s ≡ run_map st work s
  run_map-do_all [] s = refl
  run_map-do_all (a ∷ rest) s = run_map-do_all rest (map_work st a s)

  run_reduce-do_all :
      (work : List ReduceWorkAssignment) (s : S)
      → do_all (reduce_work st) work s ≡ run_reduce st work s
  run_reduce-do_all [] s = refl
  run_reduce-do_all (a ∷ rest) s = run_reduce-do_all rest (reduce_work st a s)

module _ {W M R S : Type 0} (p : Platform W M R) (st : StateStore S) (store : W → S)
    (o_m : Observed W MapWorkAssignment) (o_r : Observed W ReduceWorkAssignment)
    (u_m : W → List MapWorkAssignment) (u_r : W → List ReduceWorkAssignment) where
  -- A job that runs to its end: fewer than 2^31 texts, positive partition sizes, at least one mapper
  -- and one reducer, an empty store. The workers report each completion once, each writes what it
  -- computes before it reports it, one that fails has written nothing and is replaced, there is no
  -- timeout, so that a late one is waited for, and nobody cancels.
  -- Then both phases end without a panic, and every target has one value: the number of texts that
  -- contain it. The fuel exceeds the assignments and the waits that end without a
  -- completion, of which the mappers leave the reducers no more than `b`.
  pub run_phases_counts :
      IsStore st
      → IsHonest o_m p.mappers
      → IsAtomic o_m u_m store (map_work st) p.mappers
      → IsHonest o_r p.reducers
      → IsAtomic o_r u_r store (reduce_work st) p.reducers
      → (Q : S → Type 0) → ((a : MapWorkAssignment) (s : S) → Q s → Q (map_work st a s))
      → ((a : ReduceWorkAssignment) (s : S) → Q s → Q (reduce_work st a s))
      → (b : ℕ) → Keeps (λ v. o_r.budget v ≤ b) p.mappers
      → (config : Config) (items : List Text) (context : WordSearchContext) (num_mappers : ℕ)
        (num_reducers fuel : ℕ) (w : W)
      → 0 < config.partition_size
      → 0 < config.keys_per_reducer
      → 0 < num_mappers
      → 0 < num_reducers
      → length items < 2147483648
      → ((t : Text) → st.get (store w) t ≡ [])
      → Q (store w)
      → o_r.budget w ≤ b
      → o_m.budget w + length items < fuel
      → b + length context.targets < fuel
      → (w' : W) × (run_phases p config fuel items context num_mappers patient num_reducers patient
            w
          ≡ done w')
        × All (λ t. st.get (store w') t ≡ occurrences t items ∷ []) context.targets
        × Q (store w')
  unfolding run_phases
  run_phases_counts laws honest_m atomic_m honest_r atomic_r Q keeps_m keeps_r b keeps config items
        context num_mappers num_reducers fuel w pos_p pos_k pos_m pos_r few fresh kept budget
        enough_m enough_r =
      let (maps, made, whole, _, sizes) =
        create_map_assignments_cover items context config.partition_size pos_p in
      let (reduces, made', whole', sizes') =
        create_reduce_assignments_cover context config.keys_per_reducer pos_k in
      let few_maps = length-chunks (λ a. a.chunk) _ maps (λ a h. h.0.0) sizes in
      let few_reduces = length-chunks (λ a. a.keys) _ reduces (λ a h. h.0) sizes' in
      let (w1, ends, (order, perm, written)) =
        execute_does_each_once o_m u_m store (map_work st) p.mappers atomic_m
          MapWorkAssignment-discrete honest_m maps num_mappers fuel w pos_m
          (omega (arith, few_maps, ap length whole)) in
      let left : o_r.budget w1 ≤ b = rw ends at (
        execute-Keeps (λ v. o_r.budget v ≤ b) p.mappers keeps patient maps num_mappers fuel w
          budget) in
      let (w2, ends', (order', perm', written')) =
        execute_does_each_once o_r u_r store (reduce_work st) p.reducers atomic_r
          ReduceWorkAssignment-discrete honest_r reduces num_reducers fuel w1 pos_r
          (omega (arith, left, few_reduces, ap length whole')) in
      (
        w2,
        rw (made, ends, made', ends'),
        from_members context.targets (λ t member.
            ap (λ s. st.get s t)
              (written'
                ∙ run_reduce-do_all st order' (store w1)
                ∙ ap (run_reduce st order') (written ∙ run_map-do_all st order (store w)))
            ∙ word_search_counts st laws items context config.partition_size config.keys_per_reducer
                maps order reduces order' (store w) t pos_p pos_k few made made' ∣ perm ∣₁
                ∣ perm' ∣₁ member (fresh t)),
        rw written' (
            do_all_keeps (reduce_work st) Q keeps_r order' (store w1)
              (rw written (do_all_keeps (map_work st) Q keeps_m order (store w) kept))),
      )
