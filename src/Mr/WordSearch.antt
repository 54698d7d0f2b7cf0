-- ===== src/Mr/WordSearch.antt =====
-- map-reduce/word-search/src/lib.rs, over any state store. The futures of `map_work` and
-- `reduce_work` are run to their end, as one worker does.
pub mod Partition
pub mod Assignments
pub mod Contains
pub mod MapPhase
pub mod Phases
pub mod Result
pub mod Small
use distributed_systems.Prelude.{
  ℕ, zero, suc, ◌+◌, ◌-◌, ◌*◌, ◌/◌, Bool, true, false, ◌&&◌, ◌||◌, Option, none, some, List, [],
  ◌∷◌, length, take, drop, Text, text_eq, ◌==◌, ltb, leb, u32, if◌then◌else◌, ◌>>=◌, min,
}
use distributed_systems.Prelude.HashMap
use distributed_systems.Prelude.HashMap.{HashMap}
use distributed_systems.Mr.StateStore.{StateStore}

pub record MapWorkAssignment : Type 0 where
  pub chunk_id : ℕ
  pub chunk : List Text
  pub targets : List Text

pub record ReduceWorkAssignment : Type 0 where
  pub keys : List Text

pub record WordSearchContext : Type 0 where
  pub targets : List Text

-- `data[start..end].to_vec()`, which panics out of range
unfoldable pub slice {ℓ} : {A : Type ℓ} → List A → ℕ → ℕ → Option (List A)
slice items start end =
    if leb start end && leb end (length items)
    then some (take (end - start) (drop start items))
    else none

-- `rounds` chunks from chunk `i` on
unfoldable pub chunks {ℓ} : {A : Type ℓ} → List A → ℕ → ℕ → ℕ → Option (List (List A))
unfolding slice
chunks items size zero i = some []
chunks items size (suc rounds) i = do
  chunk ← slice items (i * size) (min (i * size + size) (length items))
  rest ← chunks items size rounds (i + 1)
  some (chunk ∷ rest)

-- The loop over `0..items.len().div_ceil(size)`; `div_ceil` panics at 0.
unfoldable pub partition {ℓ} : {A : Type ℓ} → List A → ℕ → Option (List (List A))
unfolding chunks
partition items size =
    if size == 0 then none else chunks items size ((length items + size - 1) / size) 0

-- `enumerate` from `i` on
unfoldable pub number_chunks : List Text → ℕ → List (List Text) → List MapWorkAssignment
number_chunks targets i [] = []
number_chunks targets i (chunk ∷ rest) =
    record { chunk_id = i; chunk = chunk; targets = targets } ∷ number_chunks targets (i + 1) rest

unfoldable pub create_map_assignments :
    List Text → WordSearchContext → ℕ → Option (List MapWorkAssignment)
unfolding number_chunks
create_map_assignments items context partition_size = do
  data_chunks ← partition items partition_size
  some (number_chunks context.targets 0 data_chunks)

unfoldable pub with_keys : List (List Text) → List ReduceWorkAssignment
with_keys [] = []
with_keys (keys ∷ rest) = record { keys = keys } ∷ with_keys rest

unfoldable pub create_reduce_assignments :
    WordSearchContext → ℕ → Option (List ReduceWorkAssignment)
unfolding with_keys
create_reduce_assignments context keys_per_reducer = do
  key_partitions ← partition context.targets keys_per_reducer
  some (with_keys key_partitions)

is_prefix : Text → Text → Bool
is_prefix [] text = true
is_prefix (p ∷ ps) [] = false
is_prefix (p ∷ ps) (c ∷ cs) = p == c && is_prefix ps cs

-- `text.contains(target)`
unfoldable pub contains : Text → Text → Bool
unfolding is_prefix
contains [] target = is_prefix target []
contains (c ∷ text) target = is_prefix target (c ∷ text) || contains text target

-- the loop over `data`; `count` is an `i32`
count_texts : Text → List Text → ℕ → ℕ
unfolding contains
count_texts target [] count = count
count_texts target (text ∷ rest) count =
    count_texts target rest (if contains text target then u32 (count + 1) else count)

-- the loop over `targets`
collect_counts : List Text → List Text → HashMap Text ℕ → HashMap Text ℕ
unfolding count_texts
collect_counts items [] results = results
collect_counts items (target ∷ targets) results =
    collect_counts items targets (HashMap.insert results target (count_texts target items 0))

unfoldable pub map_logic : List Text → List Text → HashMap Text ℕ
unfolding collect_counts
map_logic items targets = collect_counts items targets []

-- `value > 0` of an `i32`
abbrev pub is_positive : ℕ → Bool
is_positive value = ltb 0 value && ltb value 2147483648

-- `values.iter().sum()`, which wraps around in a release build
unfoldable pub sum_i32 : List ℕ → ℕ → ℕ
sum_i32 [] total = total
sum_i32 (value ∷ values) total = sum_i32 values (u32 (total + value))

module _ {S : Type 0} (st : StateStore S) where
  write_counts : HashMap Text ℕ → S → S
  write_counts [] state = state
  write_counts ((key, value) ∷ results) state =
      write_counts results (if is_positive value then st.update state key value else state)

  unfoldable pub map_work : MapWorkAssignment → S → S
  unfolding write_counts map_logic
  map_work assignment state = write_counts (map_logic assignment.chunk assignment.targets) state

  reduce_keys : List Text → S → S
  unfolding sum_i32
  reduce_keys [] state = state
  reduce_keys (key ∷ keys) state =
      reduce_keys keys (st.replace state key (sum_i32 (st.get state key) 0))

  unfoldable pub reduce_work : ReduceWorkAssignment → S → S
  unfolding reduce_keys
  reduce_work assignment state = reduce_keys assignment.keys state
