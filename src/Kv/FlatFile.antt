-- ===== src/Kv/FlatFile.antt =====
-- key-value-server/server-flat-file/src/flat_file_storage.rs. The state is the text of the file,
-- which is there once `new` has returned; errors of the file system are not modelled. Each method
-- holds the mutex throughout, so it is one step.
pub mod Lines
pub mod Entries
pub mod Contract
pub mod Commas
pub mod Prints
use distributed_systems.Prelude.{
  ℕ, ◌+◌, Bool, true, false, ◌&&◌, Option, none, some, List, [], ◌∷◌, ◌++◌, concat, map, Text,
  text_beq, text_eq, Result, ok, err, ◌==◌, u64, if◌then◌else◌,
}
use distributed_systems.Prelude.Decimal.{format, parse}
use distributed_systems.Prelude.HashMap
use distributed_systems.Prelude.HashMap.{is_some}
use distributed_systems.Kv.Error.{StorageError, key_not_found, key_already_exists, version_mismatch}
use distributed_systems.Kv.Storage.{Storage}
use distributed_systems.Kv.Listing.{KeyValues, show_all}

abbrev pub comma : ℕ
comma = b','

abbrev pub newline : ℕ
newline = b'\n'

abbrev pub carriage_return : ℕ
carriage_return = b'\r'

cons_head : ℕ → List Text → List Text
cons_head c [] = (c ∷ []) ∷ []
cons_head c (l ∷ ls) = (c ∷ l) ∷ ls

-- `line.split(',').collect()`
unfoldable pub split : Text → List Text
unfolding cons_head
split [] = [] ∷ []
split (c ∷ s) = let rest = split s in if c == comma then [] ∷ rest else cons_head c rest

starts_line : Text → Bool
starts_line [] = false
starts_line (c ∷ s) = c == newline

-- `reader.lines()`: a line ends at a newline, which takes a carriage return before it along.
unfoldable pub lines : Text → List Text
unfolding cons_head starts_line
lines [] = []
lines (c ∷ s) =
    let rest = lines s in
    if c == newline
    then [] ∷ rest
    else if c == carriage_return && starts_line s
    then rest
    else cons_head c rest

-- `.parse().unwrap_or(0)`
version_of : Option ℕ → ℕ
version_of none = 0
version_of (some n) = n

pick : List Text → Text → Option (Text × ℕ) → Option (Text × ℕ)
unfolding version_of
pick (stored_key ∷ stored_value ∷ stored_version ∷ []) key later =
    if text_beq stored_key key
    then some (stored_value, version_of (parse stored_version))
    else later
pick _ key later = later

-- the loop of the inherent `get`
unfoldable pub find : List Text → Text → Option (Text × ℕ)
unfolding pick
find [] key = none
find (line ∷ rest) key = let later = find rest key in pick (split line) key later

-- `format!("{},{},{}", key, value, version)`
unfoldable pub entry_line : Text → Text → ℕ → Text
entry_line key value version = key ++ comma ∷ (value ++ comma ∷ format version)

replace_line : List Text → Text → Text → Text → ℕ → List Text → List Text
replace_line (stored_key ∷ _ ∷ _ ∷ []) line key value new_version later =
    if text_beq stored_key key then entry_line key value new_version ∷ later else line ∷ later
replace_line _ line key value new_version later = later

-- the loop that collects the lines of the new file
unfoldable pub rewrite : List Text → Text → Text → ℕ → List Text
unfolding replace_line
rewrite [] key value new_version = []
rewrite (line ∷ rest) key value new_version =
    let later = rewrite rest key value new_version in
    replace_line (split line) line key value new_version later

abbrev pub end_line : Text → Text
end_line line = line ++ newline ∷ []

pub record FlatFileStorage : Type 0 where
  pub content : Text

-- `existing` is what stands at the path, if anything does.
unfoldable pub new : Option Text → FlatFileStorage
new none = record { content = [] }
new (some existing) = record { content = existing }

-- the inherent `get`
unfoldable pub get_entry : FlatFileStorage → Text → Option (Text × ℕ)
get_entry s key = find (lines s.content) key

found_or_missing : Option (Text × ℕ) → Text → Result (Text × ℕ) StorageError
found_or_missing none key = err (key_not_found key)
found_or_missing (some (value, version)) key = ok (value, version)

-- the `get` of the trait
unfoldable pub get : FlatFileStorage → Text → Result (Text × ℕ) StorageError
unfolding found_or_missing
get s key = found_or_missing (get_entry s key) key

create : Option (Text × ℕ) → FlatFileStorage → Text → Text → FlatFileStorage × Result ℕ StorageError
create entry s key value =
    if is_some entry
    then (s, err (key_already_exists key))
    else (record { content = s.content ++ end_line (entry_line key value 1) }, ok 1)

update_existing :
    Option (Text × ℕ) → FlatFileStorage → Text → Text → ℕ → FlatFileStorage × Result ℕ StorageError
update_existing none s key value expected_version = (s, err (key_not_found key))
update_existing (some (_, current_version)) s key value expected_version =
    let new_version = u64 (expected_version + 1) in
    if current_version == expected_version
    then (
      record { content = concat (map end_line (rewrite (lines s.content) key value new_version)) },
      ok new_version,
    )
    else (s, err (version_mismatch expected_version current_version))

unfoldable pub put : FlatFileStorage → Text → Text → ℕ → FlatFileStorage × Result ℕ StorageError
unfolding create update_existing
put s key value expected_version =
    if expected_version == 0
    then create (get_entry s key) s key value
    else update_existing (get_entry s key) s key value expected_version

unfoldable pub storage : Storage FlatFileStorage
storage = record { get = get; put = put }

gather_line : List Text → KeyValues → KeyValues
unfolding version_of
gather_line (stored_key ∷ stored_value ∷ stored_version ∷ []) found =
    HashMap.insert found stored_key (stored_value, version_of (parse stored_version))
gather_line _ found = found

-- the loop of `print_all` over the lines: a later line of a key takes the place of an earlier one
unfoldable pub gather : List Text → KeyValues → KeyValues
unfolding gather_line
gather [] found = found
gather (line ∷ rest) found = gather rest (gather_line (split line) found)

-- what `print_all` prints
unfoldable pub print_all : FlatFileStorage → List Text
print_all s = show_all (gather (lines s.content) [])
