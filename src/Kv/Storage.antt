-- ===== src/Kv/Storage.antt =====
-- key-value-server/core/src/storage.rs: the trait `Storage`, and the contract that its comments and
-- those of storage_error.rs state, as a reference definition over a map from keys to versioned
-- values. A backend implements the contract through a view of its state.
use distributed_systems.Prelude.{
  ℕ, zero, suc, ◌+◌, ◌≡◌, Option, none, some, Text, text_beq, Result, ok, err, ◌==◌, u64,
  if◌then◌else◌,
}
use distributed_systems.Kv.Error.{StorageError, key_not_found, key_already_exists, version_mismatch}

-- The trait: `put` returns the state that it leaves.
pub record Storage (S : Type 0) : Type 0 where
  pub get : S → Text → Result (Text × ℕ) StorageError
  pub put : S → Text → Text → ℕ → S × Result ℕ StorageError

abbrev pub View : Type 0
View = Text → Option (Text × ℕ)

abbrev pub update : View → Text → Text × ℕ → View
update m k entry j = if text_beq k j then some entry else m j

unfoldable pub contract_get : Option (Text × ℕ) → Text → Result (Text × ℕ) StorageError
contract_get none k = err (key_not_found k)
contract_get (some entry) k = ok entry

-- What a put with an expected version answers at a key that holds `entry`; version 0 creates.
unfoldable pub verdict : Option (Text × ℕ) → Text → ℕ → Result ℕ StorageError
verdict none k zero = ok 1
verdict (some entry) k zero = err (key_already_exists k)
verdict none k (suc n) = err (key_not_found k)
verdict (some (_, current)) k (suc n) =
    if current == suc n then ok (u64 (suc n + 1)) else err (version_mismatch (suc n) current)

-- Only an accepted put writes.
unfoldable pub effect : Result ℕ StorageError → View → Text → Text → View
effect (ok version) m k v = update m k (v, version)
effect (err e) m k v = m

-- A backend with state `S` implements the contract on the keys and values that satisfy `Clean`, in
-- the states that satisfy `Inv`.
pub record Implements {S : Type 0} (st : Storage S) (Inv : S → Type 0) (Clean : Text → Type 0)
    (view : S → View) : Type 0 where
  pub get_lem : (s : S) (k : Text) → Inv s → Clean k → st.get s k ≡ contract_get (view s k) k
  pub put_result :
      (s : S) (k v : Text) (n : ℕ)
      → Inv s
      → Clean k
      → Clean v
      → (st.put s k v n).1 ≡ verdict (view s k) k n
  pub put_view :
      (s : S) (k v : Text) (n : ℕ) (j : Text)
      → Inv s
      → Clean k
      → Clean v
      → Clean j
      → view (st.put s k v n).0 j ≡ effect (verdict (view s k) k n) (view s) k v j
  pub put_Inv : (s : S) (k v : Text) (n : ℕ) → Inv s → Clean k → Clean v → Inv (st.put s k v n).0
