-- ===== src/Kv/Listing.antt =====
-- What `print_all` shows of a storage: the same lines in the three backends of key-value-server, of a
-- map that each makes of its state in its own way. A `println!` is a text with its newlines.
use distributed_systems.Prelude.{
  ℕ, ◌≡◌, refl, ap, ◌∙◌, Bool, true, ◌||◌, Option-cases, inl, inr, Option, none, some, List, [],
  ◌∷◌, ◌++◌, map, All, Text, codes, text_beq, text_beq_iff, text_eq, if◌then◌else◌, arith,
}
use distributed_systems.Prelude.Decimal.{format}
use distributed_systems.Prelude.HashMap
use distributed_systems.Prelude.HashMap.{HashMap, is_some}
use distributed_systems.Prelude.Sorting.{
  le_text, sort, IsAscending, IsAlphabetic, ascending-IsAlphabetic, sort-IsAscending, has, has-sort,
}

abbrev pub KeyValues : Type 0
KeyValues = HashMap Text (Text × ℕ)

-- `data.keys().cloned().collect()`
abbrev pub keys : KeyValues → List Text
keys [] = []
keys ((k, _) ∷ rest) = k ∷ keys rest

abbrev add_entry : Text → Option (Text × ℕ) → KeyValues → KeyValues
add_entry key none shown = shown
add_entry key (some entry) shown = (key, entry) ∷ shown

-- the loop over the keys, with its `if let Some(…) = data.get(&key)`
unfoldable pub look_up : KeyValues → List Text → KeyValues
look_up entries [] = []
look_up entries (key ∷ rest) = add_entry key (HashMap.get entries key) (look_up entries rest)

-- the entries in the order in which they are shown
unfoldable pub in_key_order : KeyValues → KeyValues
unfolding look_up
in_key_order entries = look_up entries (sort (keys entries))

show_entry : Text × (Text × ℕ) → Text
show_entry (key, (value, version)) =
    codes "  '"
    ++ key
    ++ codes "' -> value='"
    ++ value
    ++ codes "', version="
    ++ format version
    ++ codes "\n"

show_body : KeyValues → List Text
unfolding show_entry in_key_order
show_body [] = codes "  No keys in storage\n" ∷ []
show_body (entry ∷ rest) = map show_entry (in_key_order (entry ∷ rest))

unfoldable pub show_all : KeyValues → List Text
unfolding show_body
show_all entries =
    codes "\n=== Final Storage State ===\n"
    ∷ (show_body entries ++ codes "===========================\n\n" ∷ [])

get-add_entry :
    (k j : Text) (at_k at_j : Option (Text × ℕ)) (shown : KeyValues) (among : Bool)
    → (text_beq k j ≡ true → at_k ≡ at_j)
    → HashMap.get shown j ≡ (if among then at_j else none)
    → HashMap.get (add_entry k at_k shown) j ≡ (if text_beq k j || among then at_j else none)
unfolding HashMap.get
get-add_entry k j none at_j shown among same h = ground (arith, same)
get-add_entry k j (some e) at_j shown among same h = ground (arith, same)

-- A lookup in what is shown is one in the map, at the keys that are looked up.
get-look_up :
    (entries : KeyValues) (ks : List Text) (j : Text)
    → HashMap.get (look_up entries ks) j ≡ (if has j ks then HashMap.get entries j else none)
unfolding look_up has HashMap.get
get-look_up entries [] j = refl
get-look_up entries (k ∷ ks) j =
    get-add_entry k j (HashMap.get entries k) (HashMap.get entries j) (look_up entries ks)
      (has j ks) (λ here. ap (HashMap.get entries) ((text_beq_iff k j).0 here))
      (get-look_up entries ks j)

has-keys : (entries : KeyValues) (j : Text) → has j (keys entries) ≡ is_some (HashMap.get entries j)
unfolding has HashMap.get
has-keys [] j = refl
has-keys ((k, e) ∷ rest) j = ground (arith, has-keys rest j)

All-look_up :
    (entries : KeyValues) (a : Text) (ks : List Text)
    → All (λ k. le_text a k ≡ true) ks
    → All (λ k. le_text a k ≡ true) (keys (look_up entries ks))
unfolding look_up
All-look_up entries a [] h = tt
All-look_up entries a (k ∷ ks) (h, hs) = elim (Option-cases (HashMap.get entries k)) [
  | inl gone ↦ rw gone (All-look_up entries a ks hs)
  | inr (e, there) ↦ rw there (h, All-look_up entries a ks hs)
]

look_up-IsAscending :
    (entries : KeyValues) (ks : List Text)
    → IsAscending ks
    → IsAscending (keys (look_up entries ks))
unfolding look_up
look_up-IsAscending entries [] h = tt
look_up-IsAscending entries (k ∷ ks) (h, hs) = elim (Option-cases (HashMap.get entries k)) [
  | inl gone ↦ rw gone (look_up-IsAscending entries ks hs)
  | inr (e, there) ↦ rw there (All-look_up entries k ks h, look_up-IsAscending entries ks hs)
]

-- The keys are shown in order, each with its entry, and no other key is shown.
pub in_key_order_lem :
    (entries : KeyValues)
    → IsAlphabetic (keys (in_key_order entries))
      × ((j : Text) → HashMap.get (in_key_order entries) j ≡ HashMap.get entries j)
unfolding in_key_order
in_key_order_lem entries = (
  ascending-IsAlphabetic _
      (look_up-IsAscending entries (sort (keys entries)) (sort-IsAscending (keys entries))),
  λ j. ground (
    arith,
    get-look_up entries (sort (keys entries)) j,
    has-sort j (keys entries),
    has-keys entries j,
  ),
)

-- The lines of some entries, in the order in which they stand.
abbrev pub entry_lines : KeyValues → List Text
entry_lines [] = []
entry_lines ((key, (value, version)) ∷ rest) =
    (codes "  '"
      ++ key
      ++ codes "' -> value='"
      ++ value
      ++ codes "', version="
      ++ format version
      ++ codes "\n")
    ∷ entry_lines rest

abbrev printed_body : KeyValues → List Text
printed_body [] = codes "  No keys in storage\n" ∷ []
printed_body (entry ∷ rest) = entry_lines (entry ∷ rest)

-- The whole text that shows these entries.
abbrev pub printed : KeyValues → List Text
printed entries =
    codes "\n=== Final Storage State ===\n"
    ∷ (printed_body entries ++ codes "===========================\n\n" ∷ [])

map-show_entry : (entries : KeyValues) → map show_entry entries ≡ entry_lines entries
unfolding show_entry
map-show_entry [] = refl
map-show_entry ((key, (value, version)) ∷ rest) =
    ap
      (λ ls.
        (codes "  '"
          ++ key
          ++ codes "' -> value='"
          ++ value
          ++ codes "', version="
          ++ format version
          ++ codes "\n")
        ∷ ls)
      (map-show_entry rest)

some_shown :
    (shown : KeyValues) (k : Text) (e : Text × ℕ)
    → HashMap.get shown k ≡ some e
    → entry_lines shown ≡ printed_body shown
unfolding HashMap.get
some_shown [] k e h = absurd (ground (arith, h))
some_shown (x ∷ shown) k e h = refl

pub show_all-printed : (entries : KeyValues) → show_all entries ≡ printed (in_key_order entries)
unfolding show_all show_body sort
show_all-printed [] = refl
show_all-printed ((k, e) ∷ rest) =
    let entries : KeyValues = (k, e) ∷ rest in
    let there : HashMap.get entries k ≡ some e =
      (unfold HashMap.get in ground (arith, text_beq_iff k k)) in
    ap
      (λ ls.
        codes "\n=== Final Storage State ===\n"
        ∷ (ls ++ codes "===========================\n\n" ∷ []))
      (map-show_entry (in_key_order entries)
        ∙ some_shown (in_key_order entries) k e ((in_key_order_lem entries).1 k ∙ there))
