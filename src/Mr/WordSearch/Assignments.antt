-- ===== src/Mr/WordSearch/Assignments.antt =====
-- The assignments of the two phases against the texts and the targets of the job.
use distributed_systems.Prelude.{
  ℕ, zero, suc, ◌+◌, ◌<◌, ◌≡◌, refl, ap, some, List, [], ◌∷◌, map, concat, length, All, Text,
}
use distributed_systems.Mr.WordSearch.{
  MapWorkAssignment, ReduceWorkAssignment, WordSearchContext, number_chunks, with_keys,
  create_map_assignments, create_reduce_assignments,
}
use distributed_systems.Mr.WordSearch.Partition.{IsChunk, partition_lem}

-- i, i + 1, …
abbrev pub count_from : ℕ → ℕ → List ℕ
count_from i zero = []
count_from i (suc n) = i ∷ count_from (i + 1) n

module _ (targets : List Text) where
  map-chunk : (i : ℕ) (cs : List (List Text)) → map (λ a. a.chunk) (number_chunks targets i cs) ≡ cs
  unfolding number_chunks
  map-chunk i [] = refl
  map-chunk i (c ∷ cs) = ap (λ r. c ∷ r) (map-chunk (i + 1) cs)

  map-chunk_id :
      (i : ℕ) (cs : List (List Text))
      → map (λ a. a.chunk_id) (number_chunks targets i cs)
        ≡ count_from i (length (number_chunks targets i cs))
  unfolding number_chunks
  map-chunk_id i [] = refl
  map-chunk_id i (c ∷ cs) = ap (λ r. i ∷ r) (map-chunk_id (i + 1) cs)

  number_chunks-All :
      (size i : ℕ) (cs : List (List Text))
      → All (IsChunk size) cs
      → All (λ a. IsChunk size a.chunk × (a.targets ≡ targets)) (number_chunks targets i cs)
  unfolding number_chunks
  number_chunks-All size i [] h = tt
  number_chunks-All size i (c ∷ cs) (hc, h) = ((hc, refl), number_chunks-All size (i + 1) cs h)

-- With a positive partition size the map assignments hold every text once and in order, number their
-- chunks from 0, and each has all targets and between one and `partition_size` texts.
pub create_map_assignments_cover :
    (items : List Text) (context : WordSearchContext) (partition_size : ℕ)
    → 0 < partition_size
    → (work : List MapWorkAssignment) × (create_map_assignments items context partition_size
        ≡ some work)
      × (concat (map (λ a. a.chunk) work) ≡ items)
      × (map (λ a. a.chunk_id) work ≡ count_from 0 (length work))
      × All (λ a. IsChunk partition_size a.chunk × (a.targets ≡ context.targets)) work
unfolding create_map_assignments
create_map_assignments_cover items context partition_size positive =
    let (cs, done, whole, sizes) = partition_lem items partition_size positive in
    let targets = context.targets in
    (
      number_chunks targets 0 cs,
      rw done,
      rw (map-chunk targets 0 cs) whole,
      map-chunk_id targets 0 cs,
      number_chunks-All targets partition_size 0 cs sizes,
    )

map-keys : (cs : List (List Text)) → map (λ a. a.keys) (with_keys cs) ≡ cs
unfolding with_keys
map-keys [] = refl
map-keys (c ∷ cs) = ap (λ r. c ∷ r) (map-keys cs)

with_keys-All :
    (size : ℕ) (cs : List (List Text))
    → All (IsChunk size) cs
    → All (λ a. IsChunk size a.keys) (with_keys cs)
unfolding with_keys
with_keys-All size [] h = tt
with_keys-All size (c ∷ cs) (hc, h) = (hc, with_keys-All size cs h)

-- With a positive number of keys for each reducer the reduce assignments hold every target once and
-- in order, and each has between one and `keys_per_reducer` keys.
pub create_reduce_assignments_cover :
    (context : WordSearchContext) (keys_per_reducer : ℕ)
    → 0 < keys_per_reducer
    → (work : List ReduceWorkAssignment) × (create_reduce_assignments context keys_per_reducer
        ≡ some work)
      × (concat (map (λ a. a.keys) work) ≡ context.targets)
      × All (λ a. IsChunk keys_per_reducer a.keys) work
unfolding create_reduce_assignments
create_reduce_assignments_cover context keys_per_reducer positive =
    let (cs, done, whole, sizes) = partition_lem context.targets keys_per_reducer positive in
    (with_keys cs, rw done, rw (map-keys cs) whole, with_keys-All keys_per_reducer cs sizes)
