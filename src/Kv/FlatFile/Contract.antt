-- ===== src/Kv/FlatFile/Contract.antt =====
-- The flat-file backend against the storage contract.
use distributed_systems.Prelude.{
  ℕ, zero, suc, ◌+◌, ◌≡◌, refl, Bool-cases, inl, inr, suc-==-zero, ◌==◌, Option, none, some, Text,
  arith, u64,
}
use distributed_systems.Kv.Storage.{contract_get, verdict, effect, Implements}
use distributed_systems.Kv.FlatFile.{
  FlatFileStorage, get_entry, get, put, update_existing, storage, found_or_missing,
}
use distributed_systems.Kv.FlatFile.Lines.{IsClean}
use distributed_systems.Kv.FlatFile.Entries.{
  view, IsWellFormed, appended-IsWellFormed, rewritten-IsWellFormed, view_after_append,
  view_after_rewrite,
}

get-contract : (o : Option (Text × ℕ)) (k : Text) → found_or_missing o k ≡ contract_get o k
unfolding found_or_missing contract_get
get-contract none k = refl
get-contract (some (v, n)) k = refl

module _ (s : FlatFileStorage) (inv : IsWellFormed s) (k v : Text) (ck : IsClean k)
    (cv : IsClean v) where
  -- A put keeps to the contract in its answer, in what lookups find next, and in the file's form.
  abbrev Keeps : ℕ → Type 0
  Keeps n =
      ((put s k v n).1 ≡ verdict (get_entry s k) k n)
      × ((j : Text) → view (put s k v n).0 j ≡ effect (verdict (get_entry s k) k n) (view s) k v j)
      × IsWellFormed (put s k v n).0

  put-Keeps : (n : ℕ) (o : Option (Text × ℕ)) → get_entry s k ≡ o → Keeps n
  unfolding put verdict effect
  put-Keeps zero none absent =
      rw absent
        (refl, view_after_append s inv k v ck cv absent, appended-IsWellFormed s inv k v ck cv)
  put-Keeps zero (some old) present = rw present (refl, (λ j. refl), inv)
  put-Keeps (suc n) none absent = rw (suc-==-zero n, absent) (refl, (λ j. refl), inv)
  put-Keeps (suc n) (some (old, current)) present =
      let version = u64 (suc n + 1) in
      elim (Bool-cases (current == suc n)) [
        | inl fits ↦
            rw (suc-==-zero n, present, update_existing, fits)
              (
                refl,
                view_after_rewrite s inv k v ck cv version (old, current) (omega arith) present,
                rewritten-IsWellFormed s inv k v version ck cv (omega arith),
              )
        | inr stale ↦ rw (suc-==-zero n, present, update_existing, stale) (refl, (λ j. refl), inv)
      ]

pub flat_file-Implements : Implements storage IsWellFormed IsClean view
unfolding storage view
flat_file-Implements = record {
  get_lem = λ s k _ _. unfold get in get-contract (get_entry s k) k;
  put_result = λ s k v n inv ck cv. (put-Keeps s inv k v ck cv n (get_entry s k) refl).0;
  put_view = λ s k v n j inv ck cv _. (put-Keeps s inv k v ck cv n (get_entry s k) refl).1 j;
  put_Inv = λ s k v n inv ck cv. (put-Keeps s inv k v ck cv n (get_entry s k) refl).2;
}

-- The flat-file storage keeps the contract for keys and values without commas and newlines, where the
-- file is a list of its own lines: a get answers the entry of its key, a put answers the verdict on
-- its version, every key is then looked up as that verdict leaves it, and the file is again a list of
-- its own lines.
pub flat_file_keeps_contract :
    (s : FlatFileStorage) (k v : Text) (n : ℕ)
    → IsWellFormed s
    → IsClean k
    → IsClean v
    → (get s k ≡ contract_get (view s k) k)
      × ((put s k v n).1 ≡ verdict (view s k) k n)
      × ((j : Text) → view (put s k v n).0 j ≡ effect (verdict (view s k) k n) (view s) k v j)
      × IsWellFormed (put s k v n).0
unfolding view
flat_file_keeps_contract s k v n inv ck cv =
    let keeps = put-Keeps s inv k v ck cv n (get_entry s k) refl in
    ((unfold get in get-contract (get_entry s k) k), keeps.0, keeps.1, keeps.2)
