-- ===== src/Kv/FlatFile/Entries.antt =====
-- The entries of a file that the flat-file backend has written: what a lookup finds, and what
-- appending a line and replacing lines make of them.
use distributed_systems.Prelude.{
  ℕ, ◌≤◌, ◌≡◌, refl, ◌∙◌, ap, sym, Bool-cases, inl, inr, none, some, [], ◌∷◌, ◌++◌, concat, map,
  All, All-append, Text, text_beq, text_beq_iff, text_eq, arith, if◌then◌else◌,
}
use distributed_systems.Prelude.HashMap
use distributed_systems.Prelude.HashMap.{HashMap, is_some}
use distributed_systems.Prelude.Decimal.{parse-format, max_u64}
use distributed_systems.Kv.Storage.{View, update}
use distributed_systems.Kv.FlatFile.{
  FlatFileStorage, lines, find, entry_line, end_line, rewrite, get_entry,
}
use distributed_systems.Kv.FlatFile.Lines.{
  IsClean, IsEntry, line_of, render, split-entry_line, lines-render, render-append,
}

-- What a lookup finds.
unfoldable pub view : FlatFileStorage → View
view s k = get_entry s k

-- The file is a list of lines, each with a clean key, a clean value and a version below 2^64.
pub record IsWellFormed (s : FlatFileStorage) : Type 0 where
  pub entries : HashMap Text (Text × ℕ)
  pub written : s.content ≡ render entries
  pub clean : All IsEntry entries

pub find-line_of :
    (m : HashMap Text (Text × ℕ)) (k : Text)
    → All IsEntry m
    → find (map line_of m) k ≡ HashMap.get m k
unfolding find HashMap.get
find-line_of [] k h = refl
find-line_of ((j, (v, n)) ∷ m) k ((cj, cv, small), h) =
    rw (split-entry_line j v n cj cv, parse-format n small, find-line_of m k h) (ground arith)

-- every entry of the key replaced, as `rewrite` does to the lines
pub replaced : HashMap Text (Text × ℕ) → Text → Text × ℕ → HashMap Text (Text × ℕ)
replaced [] k e = []
replaced ((j, d) ∷ m) k e =
    let rest = replaced m k e in if text_beq j k then (k, e) ∷ rest else (j, d) ∷ rest

rewrite-line_of :
    (m : HashMap Text (Text × ℕ)) (k v : Text) (n : ℕ)
    → All IsEntry m
    → rewrite (map line_of m) k v n ≡ map line_of (replaced m k (v, n))
unfolding rewrite replaced
rewrite-line_of [] k v n h = refl
rewrite-line_of ((j, (w, i)) ∷ m) k v n ((cj, cw, small), h) =
    rw (split-entry_line j w i cj cw, rewrite-line_of m k v n h) (ground arith)

get-replaced :
    (m : HashMap Text (Text × ℕ)) (k : Text) (e : Text × ℕ) (j : Text)
    → HashMap.get (replaced m k e) j ≡ (
        if text_beq k j
        then (if is_some (HashMap.get m k) then some e else none)
        else HashMap.get m j)
unfolding HashMap.get replaced
get-replaced [] k e j = ground arith
get-replaced ((i, d) ∷ m) k e j =
    ground (arith, text_beq_iff k j, text_beq_iff i k, text_beq_iff i j, get-replaced m k e j)

get-append :
    (m : HashMap Text (Text × ℕ)) (k : Text) (e : Text × ℕ) (j : Text)
    → HashMap.get m k ≡ none
    → HashMap.get (m ++ (k, e) ∷ []) j ≡ (if text_beq k j then some e else HashMap.get m j)
unfolding HashMap.get
get-append [] k e j h = refl
get-append ((i, d) ∷ m) k e j h =
    ground (arith, text_beq_iff k j, text_beq_iff i k, text_beq_iff i j, get-append m k e j)

replaced-IsEntry :
    (m : HashMap Text (Text × ℕ)) (k v : Text) (n : ℕ)
    → IsEntry (k, (v, n))
    → All IsEntry m
    → All IsEntry (replaced m k (v, n))
unfolding replaced
replaced-IsEntry [] k v n hn h = tt
replaced-IsEntry ((j, d) ∷ m) k v n hn (hd, h) = elim (Bool-cases (text_beq j k)) [
  | inl same ↦ rw same (hn, replaced-IsEntry m k v n hn h)
  | inr other ↦ rw other (hd, replaced-IsEntry m k v n hn h)
]

module _ (s : FlatFileStorage) (inv : IsWellFormed s) where
  open inv use {entries, written, clean}

  get_entry-entries : (k : Text) → get_entry s k ≡ HashMap.get entries k
  unfolding get_entry
  get_entry-entries k =
      rw written (ap (λ l. find l k) (lines-render entries clean) ∙ find-line_of entries k clean)

  view-entries : (k : Text) → view s k ≡ HashMap.get entries k
  unfolding view
  view-entries k = get_entry-entries k

  -- the file after a new line has been appended, and after one has been replaced
  abbrev pub appended : Text → Text → FlatFileStorage
  appended k v = record { content = s.content ++ end_line (entry_line k v 1) }

  abbrev pub rewritten : Text → Text → ℕ → FlatFileStorage
  rewritten k v n = record { content = concat (map end_line (rewrite (lines s.content) k v n)) }

  pub appended-IsWellFormed : (k v : Text) → IsClean k → IsClean v → IsWellFormed (appended k v)
  appended-IsWellFormed k v ck cv = record {
    entries = entries ++ (k, (v, 1)) ∷ [];
    written =
        ap (λ c. c ++ end_line (entry_line k v 1)) written
        ∙ sym (render-append entries (k, (v, 1)));
    clean = All-append IsEntry entries _ clean ((ck, cv, omega arith), tt);
  }

  view-appended :
      (k v j : Text)
      → IsClean k
      → IsClean v
      → get_entry s k ≡ none
      → HashMap.get (entries ++ (k, (v, 1)) ∷ []) j ≡ update (view s) k (v, 1) j
  unfolding view
  view-appended k v j ck cv absent =
      get-append entries k (v, 1) j (sym (get_entry-entries k) ∙ absent) ∙ rw (get_entry-entries j)

  pub rewritten-IsWellFormed :
      (k v : Text) (n : ℕ) → IsClean k → IsClean v → n ≤ max_u64 → IsWellFormed (rewritten k v n)
  rewritten-IsWellFormed k v n ck cv small = record {
    entries = replaced entries k (v, n);
    written =
        ap (λ c. concat (map end_line (rewrite (lines c) k v n))) written
        ∙ ap (λ l. concat (map end_line (rewrite l k v n))) (lines-render entries clean)
        ∙ ap (λ l. concat (map end_line l)) (rewrite-line_of entries k v n clean);
    clean = replaced-IsEntry entries k v n (ck, cv, small) clean;
  }

  view-rewritten :
      (k v j : Text) (n : ℕ) (old : Text × ℕ)
      → get_entry s k ≡ some old
      → HashMap.get (replaced entries k (v, n)) j ≡ update (view s) k (v, n) j
  unfolding view
  view-rewritten k v j n old present =
      get-replaced entries k (v, n) j ∙ rw (← get_entry-entries k, present, ← get_entry-entries j)

module _ (s : FlatFileStorage) (inv : IsWellFormed s) (k v : Text) (ck : IsClean k)
    (cv : IsClean v) where
  pub view_after_append :
      get_entry s k ≡ none → (j : Text) → view (appended s inv k v) j ≡ update (view s) k (v, 1) j
  unfolding appended-IsWellFormed
  view_after_append absent j =
      view-entries (appended s inv k v) (appended-IsWellFormed s inv k v ck cv) j
      ∙ view-appended s inv k v j ck cv absent

  pub view_after_rewrite :
      (n : ℕ) (old : Text × ℕ)
      → n ≤ max_u64
      → get_entry s k ≡ some old
      → (j : Text) → view (rewritten s inv k v n) j ≡ update (view s) k (v, n) j
  unfolding rewritten-IsWellFormed
  view_after_rewrite n old small present j =
      view-entries (rewritten s inv k v n) (rewritten-IsWellFormed s inv k v n ck cv small) j
      ∙ view-rewritten s inv k v j n old present
