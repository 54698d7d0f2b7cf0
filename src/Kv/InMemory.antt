-- ===== src/Kv/InMemory.antt =====
-- key-value-server/server-in-memory/src/in_memory_storage.rs. Each method holds the mutex from its
-- first line to its last, so it is one step on the map.
pub mod Contract
use distributed_systems.Prelude.{
  ℕ, ◌+◌, Option, none, some, List, [], Text, Result, ok, err, ◌==◌, u64, if◌then◌else◌, text_eq,
}
use distributed_systems.Prelude.HashMap
use distributed_systems.Prelude.HashMap.{HashMap}
use distributed_systems.Kv.Error.{StorageError, key_not_found, key_already_exists, version_mismatch}
use distributed_systems.Kv.Storage.{Storage}
use distributed_systems.Kv.Listing.{show_all}

pub record InMemoryStorage : Type 0 where
  pub entries : HashMap Text (Text × ℕ)

unfoldable pub new : InMemoryStorage
new = record { entries = [] }

-- `ok_or_else`
found_or_missing : Option (Text × ℕ) → Text → Result (Text × ℕ) StorageError
found_or_missing none key = err (key_not_found key)
found_or_missing (some (value, version)) key = ok (value, version)

unfoldable pub get : InMemoryStorage → Text → Result (Text × ℕ) StorageError
unfolding found_or_missing
get s key = found_or_missing (HashMap.get s.entries key) key

-- the `match data.get(key)` of an update
update_existing :
    Option (Text × ℕ) → InMemoryStorage → Text → Text → ℕ → InMemoryStorage × Result ℕ StorageError
update_existing none s key value expected_version = (s, err (key_not_found key))
update_existing (some (_, current_version)) s key value expected_version =
    if current_version == expected_version
    then (
      record s { entries = HashMap.insert s.entries key (value, u64 (expected_version + 1)) },
      ok (u64 (expected_version + 1)),
    )
    else (s, err (version_mismatch expected_version current_version))

unfoldable pub put : InMemoryStorage → Text → Text → ℕ → InMemoryStorage × Result ℕ StorageError
unfolding update_existing
put s key value expected_version =
    if expected_version == 0
    then (if HashMap.contains_key s.entries key
        then (s, err (key_already_exists key))
        else (record s { entries = HashMap.insert s.entries key (value, 1) }, ok 1))
    else update_existing (HashMap.get s.entries key) s key value expected_version

unfoldable pub storage : Storage InMemoryStorage
storage = record { get = get; put = put }

-- what `print_all` prints
unfoldable pub print_all : InMemoryStorage → List Text
print_all s = show_all s.entries
