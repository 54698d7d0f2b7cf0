-- ===== src/Mr/Report.antt =====
-- The end of `main` in map-reduce/task-channels/src/main.rs, and of those of thread-socket and
-- process-rpc: the results sorted, the first twenty of them, and the sum of all counts. A count is an
-- `i32`, kept as its bit pattern. `sort_by` of the standard library is a stable sort; it stands here
-- as an insertion sort.
pub mod Sorted
use distributed_systems.Prelude.{
  ℕ, ◌+◌, ◌-◌, Bool, true, false, ◌&&◌, ◌||◌, List, [], ◌∷◌, length, take, drop, Text, ltb, ◌==◌,
  u32, if◌then◌else◌,
}
use distributed_systems.Prelude.HashMap.{HashMap}
use distributed_systems.Prelude.Sorting.{le_text}

-- `a <= b` of two `i32`
unfoldable pub le_i32 : ℕ → ℕ → Bool
le_i32 a b = ltb (u32 (a + 2147483648)) (u32 (b + 2147483648)) || a == b

-- `count_vec.first().unwrap_or(&0)`
unfoldable pub first_count : Text × List ℕ → ℕ
first_count (word, []) = 0
first_count (word, count ∷ counts) = count

-- Whether the closure of `sort_by` does not put `b` before `a`: a greater count comes first, and with
-- equal counts the smaller word.
unfoldable pub in_order : Text × List ℕ → Text × List ℕ → Bool
unfolding le_i32 le_text first_count
in_order a b =
    if first_count a == first_count b
    then le_text a.0 b.0
    else le_i32 (first_count b) (first_count a)

insert_sorted : Text × List ℕ → List (Text × List ℕ) → List (Text × List ℕ)
unfolding in_order
insert_sorted a [] = a ∷ []
insert_sorted a (b ∷ sorted) = if in_order a b then a ∷ b ∷ sorted else b ∷ insert_sorted a sorted

unfoldable pub sort_results : List (Text × List ℕ) → List (Text × List ℕ)
unfolding insert_sorted
sort_results [] = []
sort_results (a ∷ rest) = insert_sorted a (sort_results rest)

-- a loop `total_occurrences += count`
unfoldable pub add_counts : List (Text × List ℕ) → ℕ → ℕ
unfolding first_count
add_counts [] total_occurrences = total_occurrences
add_counts (a ∷ rest) total_occurrences = add_counts rest (u32 (total_occurrences + first_count a))

-- what is printed: the lines `word: count`, how many more words there are, and the sum
pub record Report : Type 0 where
  pub lines : List (Text × List ℕ)
  pub more_words : ℕ
  pub total_occurrences : ℕ

unfoldable pub report : HashMap Text (List ℕ) → Report
unfolding sort_results add_counts
report final_results =
    let sorted_results = sort_results final_results in
    let shown = add_counts (take 20 sorted_results) 0 in
    record {
      lines = take 20 sorted_results;
      more_words = if ltb 20 (length sorted_results) then length sorted_results - 20 else 0;
      total_occurrences =
          if ltb 20 (length sorted_results)
          then add_counts (drop 20 sorted_results) shown
          else shown;
    }
