-- ===== src/Kv/FlatFile/Prints.antt =====
-- What `print_all` of the flat-file storage shows.
use distributed_systems.Prelude.{
  ℕ, ◌≤◌, ◌≡◌, refl, sym, ap, ◌∙◌, Option, none, some, [], ◌∷◌, map, All, Text, text_beq_iff,
  text_eq, arith,
}
use distributed_systems.Prelude.HashMap
use distributed_systems.Prelude.HashMap.{HashMap}
use distributed_systems.Prelude.HashMap.Weigh.{IsUnique}
use distributed_systems.Prelude.Decimal.{parse-format, max_u64}
use distributed_systems.Prelude.Sorting.{IsAlphabetic}
use distributed_systems.Kv.Listing.{
  KeyValues, keys, in_key_order, printed, show_all-printed, in_key_order_lem,
}
use distributed_systems.Kv.FlatFile.{
  FlatFileStorage, lines, find, gather, gather_line, split, entry_line, print_all, get_entry,
}
use distributed_systems.Kv.FlatFile.Lines.{
  IsClean, IsEntry, line_of, split-entry_line, lines-render, render,
}
use distributed_systems.Kv.FlatFile.Entries.{find-line_of, view}

gather_line-entry_line :
    (k v : Text) (n : ℕ) (found : KeyValues)
    → IsClean k
    → IsClean v
    → n ≤ max_u64
    → gather_line (split (entry_line k v n)) found ≡ HashMap.insert found k (v, n)
unfolding gather_line
gather_line-entry_line k v n found ck cv small =
    rw (split-entry_line k v n ck cv, gather_line) (rw (parse-format n small))

gather-line_of :
    (m found : KeyValues) (j : Text)
    → All IsEntry m
    → IsUnique m
    → HashMap.get (gather (map line_of m) found) j
      ≡ elim (HashMap.get m j) [ none ↦ HashMap.get found j | some e ↦ some e ]
unfolding gather HashMap.get
gather-line_of [] found j h u = refl
gather-line_of ((k, (v, n)) ∷ m) found j ((ck, cv, small), h) (once, u) =
    ap (λ f. HashMap.get (gather (map line_of m) f) j)
      (gather_line-entry_line k v n found ck cv small)
    ∙ gather-line_of m (HashMap.insert found k (v, n)) j h u
    ∙ ground (arith, HashMap.get-insert found k j (v, n), text_beq_iff k j, once)

found_or_none : (o : Option (Text × ℕ)) → (elim o [ none ↦ none | some e ↦ some e ]) ≡ o
found_or_none none = refl
found_or_none (some e) = refl

-- What `print_all` of the flat-file storage prints is a line for each entry of a list, or that there
-- is none, between the two lines that frame it; the list has every key with the entry that a get
-- finds, in the order of the keys, and no other key. The file is a list of its own lines, of clean
-- entries, none with the key of another.
pub print_all_shows_storage :
    (s : FlatFileStorage) (m : KeyValues)
    → s.content ≡ render m
    → All IsEntry m
    → IsUnique m
    → (shown : KeyValues) × (print_all s ≡ printed shown)
      × IsAlphabetic (keys shown)
      × ((j : Text) → HashMap.get shown j ≡ view s j)
unfolding print_all view get_entry HashMap.get
print_all_shows_storage s m written clean unique =
    let read = ap lines written ∙ lines-render m clean in
    let gathered = gather (lines s.content) [] in
    let (ascending, looks) = in_key_order_lem gathered in
    (
      in_key_order gathered,
      show_all-printed gathered,
      ascending,
      λ j.
          looks j
          ∙ ap (λ ls. HashMap.get (gather ls []) j) read
          ∙ gather-line_of m [] j clean unique
          ∙ found_or_none (HashMap.get m j)
          ∙ sym (ap (λ ls. find ls j) read ∙ find-line_of m j clean),
    )
