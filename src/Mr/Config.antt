-- ===== src/Mr/Config.antt =====
-- map-reduce/core/src/config.rs: how a configuration is loaded, and the summary of it that a program
-- prints. The file system and serde are parameters; serde gives a document's fields, with `none` for
-- one that is left out and has a default.
use mathlib.Core.Bool.{or_assoc}
use distributed_systems.Prelude.{
  refl, ℕ, ◌≡◌, true, false, Bool, ◌||◌, Option, none, some, List, [], ◌∷◌, ◌++◌, Text, codes,
  Result, ok, err, ltb, if◌then◌else◌, arith,
}
use distributed_systems.Prelude.Decimal.{format}
use distributed_systems.Mr.TestData.{Config}

pub record Document : Type 0 where
  pub num_strings : ℕ
  pub max_string_length : ℕ
  pub num_target_words : ℕ
  pub target_word_length : ℕ
  pub partition_size : ℕ
  pub keys_per_reducer : ℕ
  pub num_mappers : ℕ
  pub num_reducers : ℕ
  pub mapper_failure_probability : Option ℕ
  pub reducer_failure_probability : Option ℕ
  pub mapper_timeout_ms : Option ℕ
  pub reducer_timeout_ms : Option ℕ
  pub mapper_straggler_probability : Option ℕ
  pub mapper_straggler_delay_ms : Option ℕ
  pub reducer_straggler_probability : Option ℕ
  pub reducer_straggler_delay_ms : Option ℕ

abbrev pub default_straggler_delay : ℕ
default_straggler_delay = 1000

abbrev unwrap_or : Option ℕ → ℕ → ℕ
unwrap_or none d = d
unwrap_or (some n) d = n

-- `#[serde(default)]` is 0 for a number.
unfoldable pub with_defaults : Document → Config
with_defaults d = record {
  num_strings = d.num_strings;
  max_string_length = d.max_string_length;
  num_target_words = d.num_target_words;
  target_word_length = d.target_word_length;
  partition_size = d.partition_size;
  keys_per_reducer = d.keys_per_reducer;
  num_mappers = d.num_mappers;
  num_reducers = d.num_reducers;
  mapper_failure_probability = unwrap_or d.mapper_failure_probability 0;
  reducer_failure_probability = unwrap_or d.reducer_failure_probability 0;
  mapper_timeout_ms = unwrap_or d.mapper_timeout_ms 0;
  reducer_timeout_ms = unwrap_or d.reducer_timeout_ms 0;
  mapper_straggler_probability = unwrap_or d.mapper_straggler_probability 0;
  mapper_straggler_delay_ms = unwrap_or d.mapper_straggler_delay_ms default_straggler_delay;
  reducer_straggler_probability = unwrap_or d.reducer_straggler_probability 0;
  reducer_straggler_delay_ms = unwrap_or d.reducer_straggler_delay_ms default_straggler_delay;
}

module _ {Error : Type 0} (read_to_string : Text → Result Text Error)
    (from_str : Text → Result Document Error) where
  unfoldable pub load : Text → Result Config Error
  unfolding with_defaults
  load path = elim (read_to_string path) [
    | err e ↦ err e
    | ok contents ↦ elim (from_str contents) [
      | err e ↦ err e
      | ok document ↦ ok (with_defaults document)
    ]
  ]

-- one line of the summary, without its newline
item : Text → ℕ → Text → Text
item label n unit = codes "  - " ++ label ++ codes ": " ++ format n ++ unit

-- a line that is printed if its number is positive
item_if_positive : Text → ℕ → Text → List Text
unfolding item
item_if_positive label n unit = if ltb 0 n then item label n unit ∷ [] else []

straggler_unit : ℕ → Text
straggler_unit delay = codes "% (delay up to " ++ format delay ++ codes "ms)"

-- the condition of the second part
unfoldable pub has_faults : Config → Bool
has_faults c =
    ltb 0 c.mapper_failure_probability
    || ltb 0 c.reducer_failure_probability
    || ltb 0 c.mapper_straggler_probability
    || ltb 0 c.reducer_straggler_probability
    || ltb 0 c.mapper_timeout_ms
    || ltb 0 c.reducer_timeout_ms

unfoldable pub fault_lines : Config → List Text
unfolding item_if_positive straggler_unit
fault_lines c =
    item_if_positive (codes "Mapper failure probability") c.mapper_failure_probability (codes "%")
    ++ item_if_positive (codes "Reducer failure probability") c.reducer_failure_probability
        (codes "%")
    ++ item_if_positive (codes "Mapper straggler probability") c.mapper_straggler_probability
        (straggler_unit c.mapper_straggler_delay_ms)
    ++ item_if_positive (codes "Reducer straggler probability") c.reducer_straggler_probability
        (straggler_unit c.reducer_straggler_delay_ms)
    ++ item_if_positive (codes "Mapper timeout") c.mapper_timeout_ms (codes "ms")
    ++ item_if_positive (codes "Reducer timeout") c.reducer_timeout_ms (codes "ms")

-- The lines that are printed.
unfoldable pub print_summary : Config → List Text
unfolding has_faults fault_lines item
print_summary c =
    codes "Configuration:"
    ∷ item (codes "Strings") c.num_strings []
    ∷ item (codes "Max string length") c.max_string_length []
    ∷ item (codes "Target words") c.num_target_words []
    ∷ item (codes "Target word length") c.target_word_length []
    ∷ item (codes "Partition size") c.partition_size []
    ∷ item (codes "Keys per reducer") c.keys_per_reducer []
    ∷ item (codes "Mappers") c.num_mappers []
    ∷ item (codes "Reducers") c.num_reducers []
    ∷ (if has_faults c then [] ∷ codes "Fault Tolerance:" ∷ fault_lines c else [])

abbrev pub not_empty : List Text → Bool
not_empty [] = false
not_empty (x ∷ xs) = true

not_empty-append : (xs ys : List Text) → not_empty (xs ++ ys) ≡ (not_empty xs || not_empty ys)
not_empty-append [] ys = refl
not_empty-append (x ∷ xs) ys = refl

not_empty-item_if_positive :
    (label : Text) (n : ℕ) (unit : Text) → not_empty (item_if_positive label n unit) ≡ ltb 0 n
unfolding item_if_positive
not_empty-item_if_positive label n unit = ground arith

ruleset printed = (not_empty-append, not_empty-item_if_positive, or_assoc)

-- The heading of the second part is printed exactly when a line follows it.
pub not_empty-fault_lines : (c : Config) → not_empty (fault_lines c) ≡ has_faults c
unfolding has_faults fault_lines
not_empty-fault_lines c = simp printed
