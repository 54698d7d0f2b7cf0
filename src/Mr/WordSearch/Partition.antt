-- ===== src/Mr/WordSearch/Partition.antt =====
-- The chunks into which `create_map_assignments` and `create_reduce_assignments` cut a list.
use distributed_systems.Prelude.{
  ℕ, zero, suc, ◌+◌, ◌-◌, ◌*◌, ◌/◌, ◌≤◌, ◌<◌, ◌≡◌, refl, ◌∙◌, ap, some, List, [], ◌∷◌, ◌++◌, concat,
  length, take, drop, All, arith, min, drop_of_le, drop-drop, sym, length-take, length-drop,
  take-append-drop_of_min,
}
use distributed_systems.Mr.WordSearch.{slice, chunks, partition}

-- A chunk of at least one element and at most `size`.
abbrev pub IsChunk {ℓ} : {A : Type ℓ} → ℕ → List A → Type 0
IsChunk size chunk = (0 < length chunk) × (length chunk ≤ size)

module _ {ℓ} {A : Type ℓ} (items : List A) (size : ℕ) where
  -- A cut of what follows `start`.
  pub record IsCut (start : ℕ) (cs : List (List A)) : Type ℓ where
    pub whole : concat cs ≡ drop start items
    pub sizes : All (IsChunk size) cs

  slice_in_range :
      (i : ℕ)
      → i * size < length items
      → slice items (i * size) (min (i * size + size) (length items))
        ≡ some (take (min size (length items - i * size)) (drop (i * size) items))
  unfolding slice
  slice_in_range i h =
      let e : min (i * size + size) (length items) - i * size ≡ min size (length items - i * size) =
        omega arith in
      rw e (ground arith)

  chunks_lem :
      (rounds i : ℕ)
      → length items ≤ i * size + rounds * size
      → i * size + rounds * size < length items + size
      → (cs : List (List A)) × (chunks items size rounds i ≡ some cs) × IsCut (i * size) cs
  unfolding chunks
  chunks_lem zero i enough few =
      ([], refl, record { whole = sym (drop_of_le (i * size) items (omega arith)); sizes = tt })
  chunks_lem (suc rounds) i enough few =
      let start = i * size in
      let n = min size (length items - start) in
      let (cs, rest, cut) = chunks_lem rounds (i + 1) (omega arith) (omega arith) in
      let next : (i + 1) * size ≡ start + size = omega arith in
      (
        take n (drop start items) ∷ cs,
        rw (slice_in_range i (omega arith), rest),
        record {
          whole =
              ap (λ r. take n (drop start items) ++ r)
                (cut.whole ∙ rw (next, ← drop-drop size start items))
              ∙ take-append-drop_of_min size n (drop start items)
                  (omega (arith, length-drop start items));
          sizes =
              (omega (arith, length-take n (drop start items), length-drop start items), cut.sizes);
        },
      )

  -- A positive size never panics, and cuts the whole list.
  pub partition_lem :
      0 < size
      → (cs : List (List A)) × (partition items size ≡ some cs)
        × (concat cs ≡ items)
        × All (IsChunk size) cs
  unfolding partition
  partition_lem positive =
      let rounds = (length items + size - 1) / size in
      let (cs, done, cut) = chunks_lem rounds 0 (omega arith) (omega arith) in
      let from_0 : 0 * size ≡ 0 = omega arith in
      (cs, ground arith, cut.whole ∙ ap (λ n. drop n items) from_0, cut.sizes)
