-- ===== src/Examples/Backends.antt =====
-- The two persistent backends on small data.
use distributed_systems.Prelude.{
  ℕ, ◌≡◌, ◌≢◌, refl, some, [], ◌∷◌, ◌++◌, Text, codes, text_eq, ok, err, arith,
}
use distributed_systems.Prelude.HashMap
use distributed_systems.Prelude.HashMap.{HashMap}
use distributed_systems.Kv.Error.{key_not_found}
use distributed_systems.Kv.Storage.{contract_get, verdict, effect}
use distributed_systems.Kv.FlatFile
use distributed_systems.Kv.FlatFile.{FlatFileStorage, comma, newline}
use distributed_systems.Kv.FlatFile.Lines.{IsClean, render}
use distributed_systems.Kv.FlatFile.Entries
use distributed_systems.Kv.FlatFile.Entries.{IsWellFormed}
use distributed_systems.Kv.FlatFile.Contract.{flat_file_keeps_contract}
use distributed_systems.Prelude.Sorting.{IsAlphabetic}
use distributed_systems.Kv.Listing.{KeyValues, keys, printed}
use distributed_systems.Kv.FlatFile.Prints.{print_all_shows_storage}
use distributed_systems.Kv.FlatFile.Commas.{comma_value_is_lost}
use distributed_systems.Kv.SledDb
use distributed_systems.Kv.SledDb.{Sled, IsReliable, put_with}
use distributed_systems.Kv.SledDb.Contract
use distributed_systems.Kv.SledDb.Contract.{IsDecodable, sled_keeps_contract}
use distributed_systems.Kv.SledDb.Races.{racing_puts_lose_an_update}

abbrev one_line : FlatFileStorage
one_line = record { content = render ((codes "k", (codes "v", 1)) ∷ []) }

letter-IsClean : (c : ℕ) → c ≢ comma → c ≢ newline → IsClean (c ∷ [])
letter-IsClean c hc hn = ((hc, hn), tt)

k-IsClean : IsClean (codes "k")
k-IsClean = letter-IsClean 107 (λ e. absurd (omega arith)) (λ e. absurd (omega arith))

v-IsClean : IsClean (codes "v")
v-IsClean = letter-IsClean 118 (λ e. absurd (omega arith)) (λ e. absurd (omega arith))

one_line-IsWellFormed : IsWellFormed one_line
one_line-IsWellFormed = record {
  entries = (codes "k", (codes "v", 1)) ∷ [];
  written = refl;
  clean = ((k-IsClean, v-IsClean, omega arith), tt);
}

empty-IsWellFormed : IsWellFormed (record { content = [] })
empty-IsWellFormed = record { entries = []; written = refl; clean = tt }

flat_file_keeps_contract_example :
    (FlatFile.get one_line (codes "k")
      ≡ contract_get (Entries.view one_line (codes "k")) (codes "k"))
    × ((FlatFile.put one_line (codes "k") (codes "v") 1).1
        ≡ verdict (Entries.view one_line (codes "k")) (codes "k") 1)
    × ((j : Text)
        → Entries.view (FlatFile.put one_line (codes "k") (codes "v") 1).0 j
          ≡ effect
              (verdict (Entries.view one_line (codes "k")) (codes "k") 1)
              (Entries.view one_line)
              (codes "k")
              (codes "v")
              j)
    × IsWellFormed (FlatFile.put one_line (codes "k") (codes "v") 1).0
flat_file_keeps_contract_example =
    flat_file_keeps_contract one_line (codes "k") (codes "v") 1 one_line-IsWellFormed k-IsClean
      v-IsClean

comma_value_is_lost_example :
    let s : FlatFileStorage = record { content = [] } in
    let (s', answer) = FlatFile.put s (codes "k") (codes "v" ++ comma ∷ codes "k") 0 in
    (answer ≡ ok 1) × (FlatFile.get s' (codes "k") ≡ err (key_not_found (codes "k")))
unfolding FlatFile.get_entry FlatFile.find FlatFile.lines
comma_value_is_lost_example =
    comma_value_is_lost (record { content = [] }) (codes "k") (codes "v") (codes "k")
      empty-IsWellFormed k-IsClean v-IsClean k-IsClean refl

-- A database in memory, with entries for their own bytes.
abbrev Table : Type 0
Table = HashMap Text (Text × ℕ)

abbrev table : Sled Table (Text × ℕ)
table = record {
  get = λ db k. ok (HashMap.get db k);
  insert = λ db k b. (HashMap.insert db k b, ok tt);
  flush = λ db. (db, ok tt);
  from_slice = λ b. ok b;
  to_vec = λ e. ok e;
}

table-IsReliable : IsReliable table
table-IsReliable = record {
  get_succeeds = λ db k. (HashMap.get db k, refl);
  get-insert = λ db k j b. ground (arith, HashMap.get-insert db k j b);
  insert_succeeds = λ db k b. refl;
  get-flush = λ db k. refl;
  flush_succeeds = λ db. refl;
  to_vec_succeeds = λ e. (e, refl, refl);
}

table-IsDecodable : (db : Table) → IsDecodable table db
table-IsDecodable db = record { decodes = λ k b e. (b, refl) }

abbrev one_row : Table
one_row = (codes "k", (codes "v", 4)) ∷ []

sled_keeps_contract_example :
    (SledDb.get table one_row (codes "k")
      ≡ contract_get (Contract.view table one_row (codes "k")) (codes "k"))
    × ((SledDb.put table one_row (codes "k") (codes "w") 4).1
        ≡ verdict (Contract.view table one_row (codes "k")) (codes "k") 4)
    × ((j : Text)
        → Contract.view table (SledDb.put table one_row (codes "k") (codes "w") 4).0 j
          ≡ effect
              (verdict (Contract.view table one_row (codes "k")) (codes "k") 4)
              (Contract.view table one_row)
              (codes "k")
              (codes "w")
              j)
    × IsDecodable table (SledDb.put table one_row (codes "k") (codes "w") 4).0
sled_keeps_contract_example =
    sled_keeps_contract table-IsReliable one_row (codes "k") (codes "w") 4
      (table-IsDecodable one_row)

racing_puts_lose_an_update_example :
    let read = table.get one_row (codes "k") in
    let (db1, first) = put_with table one_row read (codes "k") (codes "x") 4 in
    let (db2, second) = put_with table db1 read (codes "k") (codes "w") 4 in
    (first ≡ ok 5) × (second ≡ ok 5) × (Contract.view table db2 (codes "k") ≡ some (codes "w", 5))
racing_puts_lose_an_update_example =
    racing_puts_lose_an_update table-IsReliable one_row (codes "k") (codes "x") (codes "w")
      (codes "v") 4 (table-IsDecodable one_row) (unfold HashMap.get Contract.view in refl)
      (omega arith, omega arith)

print_all_shows_storage_example :
    (shown : KeyValues) × (FlatFile.print_all one_line ≡ printed shown)
    × IsAlphabetic (keys shown)
    × ((j : Text) → HashMap.get shown j ≡ Entries.view one_line j)
print_all_shows_storage_example =
    print_all_shows_storage one_line ((codes "k", (codes "v", 1)) ∷ []) refl
      ((k-IsClean, v-IsClean, omega arith), tt) (unfold HashMap.get in (refl, tt))
