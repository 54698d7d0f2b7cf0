-- ===== src/Kv/SledDb/Contract.antt =====
-- The sled backend, one request at a time, against the storage contract.
use distributed_systems.Prelude.{
  ℕ, zero, suc, ◌+◌, ◌≡◌, refl, ◌∙◌, Option, none, some, Text, text_beq, Result, ok, err, u64,
  Bool-cases, suc-==-zero, inl, inr, ◌==◌, if◌then◌else◌, text_eq,
}
use distributed_systems.Kv.Storage.{View, contract_get, verdict, effect, update, Implements}
use distributed_systems.Kv.SledDb.{
  Sled, IsReliable, get, put, put_with, storage, write_entry, create, update_existing, get_decoded,
}

module _ {Db Bytes : Type 0} (sled : Sled Db Bytes) where
  decoded : Result (Text × ℕ) Text → Option (Text × ℕ)
  decoded (ok entry) = some entry
  decoded (err e) = none

  entry_of : Result (Option Bytes) Text → Option (Text × ℕ)
  unfolding decoded
  entry_of (ok (some bytes)) = decoded (sled.from_slice bytes)
  entry_of _ = none

  -- The entry that the bytes at a key decode to.
  unfoldable pub view : Db → View
  unfolding entry_of
  view db k = entry_of (sled.get db k)

  -- Every stored entry can be decoded.
  pub record IsDecodable (db : Db) : Type 0 where
    pub decodes :
        (k : Text) (b : Bytes)
        → sled.get db k ≡ ok (some b)
        → (e : Text × ℕ) × (sled.from_slice b ≡ ok e)

some_of_ok :
    {A : Type 0} (a b : A) → ◌≡◌ {A = Result (Option A) Text} (ok (some a)) (ok (some b)) → a ≡ b
some_of_ok a b e = cc

module _ {Db Bytes : Type 0} {sled : Sled Db Bytes} (reliable : IsReliable sled) where
  -- A write succeeds, and the database then reads as before but for the bytes at its key.
  write_entry_lem :
      (db : Db) (k v : Text) (n : ℕ)
      → (b : Bytes) × (sled.from_slice b ≡ ok (v, n))
        × ((write_entry sled db k v n).1 ≡ ok n)
        × ((j : Text)
            → sled.get (write_entry sled db k v n).0 j
              ≡ (if text_beq k j then ok (some b) else sled.get db j))
  unfolding write_entry
  write_entry_lem db k v n =
      let (b, encoded, back) = reliable.to_vec_succeeds (v, n) in
      (
        b,
        back,
        rw (write_entry, encoded)
            (rw (reliable.insert_succeeds db k b, reliable.flush_succeeds (sled.insert db k b).0)),
        λ j.
            rw (write_entry, encoded)
              (rw (reliable.insert_succeeds db k b, reliable.flush_succeeds (sled.insert db k b).0)
                (reliable.get-flush (sled.insert db k b).0 j ∙ reliable.get-insert db k j b)),
      )

  view-write_entry :
      (db : Db) (k v : Text) (n : ℕ) (j : Text)
      → view sled (write_entry sled db k v n).0 j ≡ update (view sled db) k (v, n) j
  unfolding view
  view-write_entry db k v n j =
      let (b, back, _, reads) = write_entry_lem db k v n in
      elim (Bool-cases (text_beq k j)) [
        | inl same ↦ rw (reads j, same, back)
        | inr other ↦ rw (reads j, other)
      ]

  write_entry-IsDecodable :
      (db : Db) (k v : Text) (n : ℕ)
      → IsDecodable sled db
      → IsDecodable sled (write_entry sled db k v n).0
  write_entry-IsDecodable db k v n inv =
      let (b, back, _, reads) = write_entry_lem db k v n in
      record {
        decodes = λ j c read. elim (Bool-cases (text_beq k j)) [
          | inl same ↦
              let e : ◌≡◌ {A = Result (Option Bytes) Text} (ok (some b)) (ok (some c)) =
                rw (reads j, same) at read in
              ((v, n), rw (← some_of_ok b c e) back)
          | inr other ↦ inv.decodes j c (rw (reads j, other) at read)
        ];
      }

  -- What was read at a key: no bytes, or bytes that decode to an entry.
  abbrev pub Reads : Result (Option Bytes) Text → Option (Text × ℕ) → Type 0
  Reads r none = r ≡ ok none
  Reads r (some e) = (b : Bytes) × (r ≡ ok (some b)) × (sled.from_slice b ≡ ok e)

  pub read-view :
      (db : Db) (k : Text) → IsDecodable sled db → Reads (sled.get db k) (view sled db k)
  unfolding view
  read-view db k inv = go (reliable.get_succeeds db k)
    where
      go :
          (o : Option Bytes) × (sled.get db k ≡ ok o)
          → Reads (sled.get db k) (entry_of sled (sled.get db k))
      go (none, absent) = rw absent refl
      go (some b, present) =
          let (e, back) = inv.decodes k b present in rw present (rw back (b, refl, back))

  -- The second half of a put answers by what was read, and writes into the database as it is.
  pub put_with_lem :
      (db : Db) (r : Result (Option Bytes) Text) (o : Option (Text × ℕ)) (k v : Text) (n : ℕ)
      → Reads r o
      → ((put_with sled db r k v n).1 ≡ verdict o k n)
        × ((j : Text)
            → view sled (put_with sled db r k v n).0 j
              ≡ effect (verdict o k n) (view sled db) k v j)
        × (IsDecodable sled db → IsDecodable sled (put_with sled db r k v n).0)
  unfolding put_with verdict effect
  put_with_lem db r none k v zero read =
      rw read
        ((write_entry_lem db k v 1).2, view-write_entry db k v 1, write_entry-IsDecodable db k v 1)
  put_with_lem db r none k v (suc n) read =
      rw (read, suc-==-zero n) (refl, (λ j. refl), (λ inv. inv))
  put_with_lem db r (some e) k v zero (b, read, back) =
      rw (read, create, back) (refl, (λ j. refl), (λ inv. inv))
  put_with_lem db r (some (w, current)) k v (suc n) (b, read, back) =
      elim (Bool-cases (current == suc n)) [
        | inl fits ↦
            rw (read, suc-==-zero n, update_existing, back, fits)
              (
                (write_entry_lem db k v (u64 (suc n + 1))).2,
                view-write_entry db k v (u64 (suc n + 1)),
                write_entry-IsDecodable db k v (u64 (suc n + 1)),
              )
        | inr stale ↦
            rw (read, suc-==-zero n, update_existing, back, stale) (refl, (λ j. refl), (λ inv. inv))
      ]

  get-contract :
      (db : Db) (k : Text) (o : Option (Text × ℕ))
      → Reads (sled.get db k) o
      → get sled db k ≡ contract_get o k
  unfolding get contract_get
  get-contract db k none read = rw read refl
  get-contract db k (some (v, n)) (b, read, back) = rw (read, get_decoded, back) refl

  pub sled-Implements : Implements (storage sled) (IsDecodable sled) (λ _. Unit {0}) (view sled)
  unfolding storage put
  sled-Implements = record {
    get_lem = λ db k inv _. get-contract db k (view sled db k) (read-view db k inv);
    put_result = λ db k v n inv _ _.
        (put_with_lem db (sled.get db k) (view sled db k) k v n (read-view db k inv)).0;
    put_view = λ db k v n j inv _ _ _.
        (put_with_lem db (sled.get db k) (view sled db k) k v n (read-view db k inv)).1 j;
    put_Inv = λ db k v n inv _ _.
        (put_with_lem db (sled.get db k) (view sled db k) k v n (read-view db k inv)).2 inv;
  }

  -- Over a reliable database whose entries can be decoded the sled storage, one request at a time,
  -- keeps the contract on all texts: a get answers the entry of its key, a put answers the verdict on
  -- its version, every key is then read as that verdict leaves it, and every entry can be decoded.
  pub sled_keeps_contract :
      (db : Db) (k v : Text) (n : ℕ)
      → IsDecodable sled db
      → (get sled db k ≡ contract_get (view sled db k) k)
        × ((put sled db k v n).1 ≡ verdict (view sled db k) k n)
        × ((j : Text)
            → view sled (put sled db k v n).0 j
              ≡ effect (verdict (view sled db k) k n) (view sled db) k v j)
        × IsDecodable sled (put sled db k v n).0
  unfolding put
  sled_keeps_contract db k v n inv =
      let reads = read-view db k inv in
      let put_keeps = put_with_lem db (sled.get db k) (view sled db k) k v n reads in
      (get-contract db k (view sled db k) reads, put_keeps.0, put_keeps.1, put_keeps.2 inv)
