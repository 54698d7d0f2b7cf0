-- ===== src/Mr/WordSearch/Result.antt =====
-- The result of a job whose assignments are each done once, in any order.
use mathlib.Core.List.{Memᴰ, Perm, Permᴰ}
use mathlib.Core.Logic.{∥∥₁_elim}
use native.Mathlib.Nat.{ℕ_set}
use distributed_systems.Prelude.{
  some-inj, ℕ, ◌+◌, ◌<◌, ◌≡◌, sym, ◌∙◌, ap, ◌⊎◌, inl, inr, some, zero, suc, ◌*◌, replicate, List,
  [], ◌∷◌, ◌++◌, length, map, concat, All, Text, arith, length-append,
}
use distributed_systems.Mr.StateStore.{StateStore, IsStore}
use distributed_systems.Mr.WordSearch.{
  MapWorkAssignment, ReduceWorkAssignment, WordSearchContext, create_map_assignments,
  create_reduce_assignments, map_work,
}
use distributed_systems.Mr.WordSearch.Partition.{IsChunk}
use distributed_systems.Mr.WordSearch.MapPhase.{occurrences, occurrences-le, total, map_work-total}
use distributed_systems.Mr.WordSearch.Phases.{
  chunk_sum, chunk_sum-concat, chunk_sum-permᴰ, Looks, Reduces, run_map, run_reduce, run_map-total,
  run_reduce-single,
}
use distributed_systems.Mr.WordSearch.Assignments.{
  create_map_assignments_cover, create_reduce_assignments_cover,
}

All-permᴰ {ℓ κ} : {A : Type ℓ} (P : A → Type κ) {xs ys : List A} → Permᴰ xs ys → All P xs → All P ys
All-permᴰ P Permᴰ.nil h = h
All-permᴰ P (Permᴰ.cons e p) (hx, h) = (rw e at hx, All-permᴰ P p h)
All-permᴰ P (Permᴰ.swap e f) (hx, (hy, h)) = (rw f at hy, (rw e at hx, h))
All-permᴰ P (Permᴰ.trans p q) h = All-permᴰ P q (All-permᴰ P p h)

Reduces-permᴰ :
    (t : Text) {xs ys : List ReduceWorkAssignment} → Permᴰ xs ys → Reduces t xs → Reduces t ys
Reduces-permᴰ t Permᴰ.nil h = h
Reduces-permᴰ t (Permᴰ.cons e p) (inl m) = inl (rw e at m)
Reduces-permᴰ t (Permᴰ.cons e p) (inr h) = inr (Reduces-permᴰ t p h)
Reduces-permᴰ t (Permᴰ.swap e f) (inl m) = inr (inl (rw e at m))
Reduces-permᴰ t (Permᴰ.swap e f) (inr (inl m)) = inl (rw f at m)
Reduces-permᴰ t (Permᴰ.swap e f) (inr (inr h)) = inr (inr h)
Reduces-permᴰ t (Permᴰ.trans p q) h = Reduces-permᴰ t q (Reduces-permᴰ t p h)

mem-append : (t : Text) (xs ys : List Text) → Memᴰ t (xs ++ ys) → (Memᴰ t xs) ⊎ (Memᴰ t ys)
mem-append t [] ys m = inr m
mem-append t (x ∷ xs) ys (Memᴰ.head e) = inl (Memᴰ.head e)
mem-append t (x ∷ xs) ys (Memᴰ.tail m) = elim (mem-append t xs ys m) [
  | inl h ↦ inl (Memᴰ.tail h)
  | inr h ↦ inr h
]

Reduces-concat :
    (t : Text) (work : List ReduceWorkAssignment)
    → Memᴰ t (concat (map (λ a. a.keys) work))
    → Reduces t work
Reduces-concat t [] m = elim m [ ]
Reduces-concat t (a ∷ rest) m = elim (mem-append t a.keys _ m) [
  | inl h ↦ inl h
  | inr h ↦ inr (Reduces-concat t rest h)
]

Looks-cover :
    (t : Text) (size : ℕ) (targets : List Text) (work : List MapWorkAssignment)
    → Memᴰ t targets
    → All (λ a. IsChunk size a.chunk × (a.targets ≡ targets)) work
    → length (concat (map (λ a. a.chunk) work)) < 2147483648
    → All (Looks t) work
Looks-cover t size targets [] m h small = tt
Looks-cover t size targets (a ∷ rest) m ((hc, e), h) small =
    let lengths = length-append a.chunk (concat (map (λ a. a.chunk) rest)) in
    ((rw e m, omega arith), Looks-cover t size targets rest m h (omega arith))

module _ {S : Type 0} (st : StateStore S) (laws : IsStore st) where
  counts_of_permᴰ :
      (items : List Text) (s : S) (t : Text) {maps maps' : List MapWorkAssignment}
      {reduces reduces' : List ReduceWorkAssignment}
      → length items < 2147483648
      → concat (map (λ a. a.chunk) maps) ≡ items
      → All (Looks t) maps
      → Reduces t reduces
      → st.get s t ≡ []
      → Permᴰ maps maps'
      → Permᴰ reduces reduces'
      → st.get (run_reduce st reduces' (run_map st maps' s)) t ≡ occurrences t items ∷ []
  counts_of_permᴰ items s t {maps} {maps'} {reduces} {reduces'} few whole looks reduced fresh p q =
      let counted : chunk_sum t maps' ≡ occurrences t items =
        sym (chunk_sum-permᴰ t p) ∙ chunk_sum-concat t maps ∙ ap (occurrences t) whole in
      let mapped : total (st.get (run_map st maps' s) t) ≡ occurrences t items =
        run_map-total st laws maps' s t (All-permᴰ (Looks t) p looks)
        ∙ rw fresh (omega (arith, counted)) in
      run_reduce-single st laws reduces' (run_map st maps' s) t
        (omega (arith, occurrences-le t items)) (inl (Reduces-permᴰ t q reduced))
      ∙ ap (λ n. n ∷ []) mapped

  -- The result of the job: fewer than 2^31 texts, positive sizes, and a store that holds nothing for
  -- the target. If each map assignment is done once, in any order, and then each reduce assignment
  -- once, in any order, every target has one value: the number of texts that contain it.
  pub word_search_counts :
      (items : List Text) (context : WordSearchContext) (partition_size keys_per_reducer : ℕ)
      (maps maps' : List MapWorkAssignment) (reduces reduces' : List ReduceWorkAssignment) (s : S)
      (t : Text)
      → 0 < partition_size
      → 0 < keys_per_reducer
      → length items < 2147483648
      → create_map_assignments items context partition_size ≡ some maps
      → create_reduce_assignments context keys_per_reducer ≡ some reduces
      → Perm maps maps'
      → Perm reduces reduces'
      → Memᴰ t context.targets
      → st.get s t ≡ []
      → st.get (run_reduce st reduces' (run_map st maps' s)) t ≡ occurrences t items ∷ []
  word_search_counts items context partition_size keys_per_reducer maps maps' reduces reduces' s t
        pos_p pos_k few made_maps made_reduces p q member fresh =
      let (work, made, whole, _, shape) =
        create_map_assignments_cover items context partition_size pos_p in
      let (keys, made', whole', _) =
        create_reduce_assignments_cover context keys_per_reducer pos_k in
      let same : work ≡ maps = some-inj work maps (sym made ∙ made_maps) in
      let same' : keys ≡ reduces = some-inj keys reduces (sym made' ∙ made_reduces) in
      let whole_maps : concat (map (λ a. a.chunk) maps) ≡ items = rw (← same) whole in
      let looks : All (Looks t) maps =
        rw (← same)
          (Looks-cover t partition_size context.targets work member shape (rw whole few)) in
      let reduced : Reduces t reduces = rw (← same') (Reduces-concat t keys (rw whole' member)) in
      let list_set : IsSet (List ℕ) = hlevel ℕ_set in
      ∥∥₁_elim p (list_set _ _) λ pd.
        ∥∥₁_elim q (list_set _ _)
          λ qd. counts_of_permᴰ items s t few whole_maps looks reduced fresh pd qd

  -- An assignment that is done again, as a straggler and its replacement both do it, is counted
  -- again: with `done_again` more rounds a target's sum is the count that many times more.
  pub repeated_assignment_counts_again :
      (a : MapWorkAssignment) (s : S) (t : Text) (done_again : ℕ)
      → Memᴰ t a.targets
      → length a.chunk < 2147483648
      → total (st.get (run_map st (replicate (suc done_again) a) s) t)
        ≡ total (st.get s t) + suc done_again * occurrences t a.chunk
  repeated_assignment_counts_again a s t zero member few =
      omega (arith, map_work-total st laws a s t member few)
  repeated_assignment_counts_again a s t (suc n) member few = omega (
    arith,
    repeated_assignment_counts_again a (map_work st a s) t n member few,
    map_work-total st laws a s t member few,
  )
