-- ===== src/Kv/SledDb.antt =====
-- key-value-server/server-sled-db/src/sled_db_storage.rs. The database (the crate sled) and the
-- codec (serde_json) are parameters; an error of theirs is the text that `e.to_string()` gives. A
-- key stands for its UTF-8 bytes. The closure of `put` takes no lock: it reads first and writes
-- later, so its two halves are two definitions.
pub mod Contract
pub mod Races
use distributed_systems.Prelude.{
  ℕ, ◌+◌, ◌≡◌, Option, none, some, List, [], ◌∷◌, Text, codes, text_beq, text_eq, Result, ok, err,
  ◌==◌, u64, if◌then◌else◌,
}
use distributed_systems.Prelude.HashMap
use distributed_systems.Kv.Error.{
  StorageError, key_not_found, key_already_exists, version_mismatch, storage_error,
}
use distributed_systems.Kv.Storage.{Storage}
use distributed_systems.Kv.Listing.{KeyValues, show_all}

-- `db.get`, `db.insert`, `db.flush`, `serde_json::from_slice` and `serde_json::to_vec`.
pub record Sled (Db Bytes : Type 0) : Type 0 where
  pub get : Db → Text → Result (Option Bytes) Text
  pub insert : Db → Text → Bytes → Db × Result (Unit {0}) Text
  pub flush : Db → Db × Result (Unit {0}) Text
  pub from_slice : Bytes → Result (Text × ℕ) Text
  pub to_vec : Text × ℕ → Result Bytes Text

module _ {Db Bytes : Type 0} (sled : Sled Db Bytes) where
  get_decoded : Result (Option Bytes) Text → Text → Result (Text × ℕ) StorageError
  get_decoded (err e) key = err (storage_error e)
  get_decoded (ok none) key = err (key_not_found key)
  get_decoded (ok (some bytes)) key = elim (sled.from_slice bytes) [
    | err e ↦ err (storage_error e)
    | ok (value, version) ↦ ok (value, version)
  ]

  unfoldable pub get : Db → Text → Result (Text × ℕ) StorageError
  unfolding get_decoded
  get db key = get_decoded (sled.get db key) key

  -- encode, insert, flush: each with its `?`
  write_entry : Db → Text → Text → ℕ → Db × Result ℕ StorageError
  write_entry db key value version = elim (sled.to_vec (value, version)) [
    | err e ↦ (db, err (storage_error e))
    | ok new_value_bytes ↦
        let (db1, inserted) = sled.insert db key new_value_bytes in
        let (db2, flushed) = sled.flush db1 in
        elim inserted [
          | err e ↦ (db1, err (storage_error e))
          | ok _ ↦ elim flushed [ err e ↦ (db2, err (storage_error e)) | ok _ ↦ (db2, ok version) ]
        ]
  ]

  create : Db → Option Bytes → Text → Text → Db × Result ℕ StorageError
  unfolding write_entry
  create db none key value = write_entry db key value 1
  create db (some bytes) key value = elim (sled.from_slice bytes) [
    | ok _ ↦ (db, err (key_already_exists key))
    | err _ ↦ write_entry db key value 1
  ]

  update_existing : Db → Option Bytes → Text → Text → ℕ → Db × Result ℕ StorageError
  unfolding write_entry
  update_existing db none key value expected_version = (db, err (key_not_found key))
  update_existing db (some bytes) key value expected_version = elim (sled.from_slice bytes) [
    | err e ↦ (db, err (storage_error e))
    | ok (_, current_version) ↦
        if current_version == expected_version
        then write_entry db key value (u64 (expected_version + 1))
        else (db, err (version_mismatch expected_version current_version))
  ]

  -- What `put` does with the bytes that it has read, in the database as it is by then.
  unfoldable pub put_with :
      Db → Result (Option Bytes) Text → Text → Text → ℕ → Db × Result ℕ StorageError
  unfolding create update_existing
  put_with db (err e) key value expected_version = (db, err (storage_error e))
  put_with db (ok value_bytes) key value expected_version =
      if expected_version == 0
      then create db value_bytes key value
      else update_existing db value_bytes key value expected_version

  -- The whole closure, with nothing between the read and the rest.
  unfoldable pub put : Db → Text → Text → ℕ → Db × Result ℕ StorageError
  unfolding put_with
  put db key value expected_version = put_with db (sled.get db key) key value expected_version

  unfoldable pub storage : Storage Db
  storage = record { get = get; put = put }

  -- A value that cannot be decoded is shown all the same.
  decoded_or_error : Result (Text × ℕ) Text → Text × ℕ
  decoded_or_error (ok entry) = entry
  decoded_or_error (err e) = (codes "deserialization_error", 0)

  module _ {KeyBytes : Type 0} (from_utf8 : KeyBytes → Option Text) where
    -- `db.iter()`: an entry that cannot be read, or whose key is no text, is passed over.
    unfoldable pub gather : List (Result (KeyBytes × Bytes) Text) → KeyValues → KeyValues
    unfolding decoded_or_error
    gather [] map = map
    gather (err e ∷ results) map = gather results map
    gather (ok (key_bytes, value_bytes) ∷ results) map =
        gather results (elim (from_utf8 key_bytes) [
          | none ↦ map
          | some key ↦ HashMap.insert map key (decoded_or_error (sled.from_slice value_bytes))
        ])

    -- what `print_all` prints
    unfoldable pub print_all : (Db → List (Result (KeyBytes × Bytes) Text)) → Db → List Text
    unfolding gather
    print_all iter db = show_all (gather (iter db) [])

-- What the code relies on: a database without input or output errors that returns the last bytes
-- written at a key, a flush that changes nothing, and a codec that reads back what it writes.
pub record IsReliable {Db Bytes : Type 0} (sled : Sled Db Bytes) : Type 0 where
  pub get_succeeds : (db : Db) (k : Text) → (o : Option Bytes) × (sled.get db k ≡ ok o)
  pub get-insert :
      (db : Db) (k j : Text) (b : Bytes)
      → sled.get (sled.insert db k b).0 j ≡ (if text_beq k j then ok (some b) else sled.get db j)
  pub insert_succeeds : (db : Db) (k : Text) (b : Bytes) → (sled.insert db k b).1 ≡ ok tt
  pub get-flush : (db : Db) (k : Text) → sled.get (sled.flush db).0 k ≡ sled.get db k
  pub flush_succeeds : (db : Db) → (sled.flush db).1 ≡ ok tt
  pub to_vec_succeeds :
      (e : Text × ℕ) → (b : Bytes) × (sled.to_vec e ≡ ok b) × (sled.from_slice b ≡ ok e)
