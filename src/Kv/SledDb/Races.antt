-- ===== src/Kv/SledDb/Races.antt =====
-- Two requests at once: the closures of `put` run on a pool of threads and hold no lock, so both may
-- read before either writes.
use distributed_systems.Prelude.{ℕ, ◌+◌, ◌≡◌, refl, ◌∙◌, some, Text, text_beq_iff, ok}
use distributed_systems.Kv.Storage.{effect}
use distributed_systems.Kv.SledDb.{Sled, IsReliable, put_with}
use distributed_systems.Kv.SledDb.Contract.{view, IsDecodable, read-view, put_with_lem}
use distributed_systems.Kv.PutOperation.EndToEnd.{IsVersioned, verdict-current}

module _ {Db Bytes : Type 0} {sled : Sled Db Bytes} (reliable : IsReliable sled) where
  -- Two puts `v` and `w` with the current version of a key, both of which read before either
  -- writes, both answer `Ok` with the same new version, and the value of the first is lost. Under
  -- the contract the second would be refused.
  pub racing_puts_lose_an_update :
      (db : Db) (k v w old : Text) (n : ℕ)
      → IsDecodable sled db
      → view sled db k ≡ some (old, n)
      → IsVersioned (some (old, n))
      → let read = sled.get db k in
        let (db1, first) = put_with sled db read k v n in
        let (db2, second) = put_with sled db1 read k w n in
        (first ≡ ok (n + 1)) × (second ≡ ok (n + 1)) × (view sled db2 k ≡ some (w, n + 1))
  racing_puts_lose_an_update db k v w old n inv present versioned =
      let read = sled.get db k in
      let reads = rw present at (read-view reliable db k inv) in
      let db1 = (put_with sled db read k v n).0 in
      let first = put_with_lem reliable db read (some (old, n)) k v n reads in
      let second = put_with_lem reliable db1 read (some (old, n)) k w n reads in
      let accepted = verdict-current k old n versioned in
      (
        first.0 ∙ accepted,
        second.0 ∙ accepted,
        second.1 k ∙ rw accepted (unfold effect in rw ((text_beq_iff k k).1 refl)),
      )
