-- ===== src/Kv/FlatFile/Commas.antt =====
-- What a comma in a value does to the flat-file backend.
use distributed_systems.Prelude.{
  ◌≡◌, refl, ◌∙◌, ap, sym, map, All-append, none, List, [], ◌∷◌, ◌++◌, append_assoc, Text, ok, err,
  arith,
}
use distributed_systems.Prelude.Decimal.{format, format-IsDigit}
use distributed_systems.Kv.Error.{key_not_found}
use distributed_systems.Kv.FlatFile.{
  FlatFileStorage, comma, newline, end_line, found_or_missing, split, lines, find, entry_line,
  get_entry, get, put,
}
use distributed_systems.Kv.FlatFile.Lines.{
  IsClean, Lacks, line_of, split-append-comma, split-last, digits-Lacks, IsClean-comma,
  IsClean-newline, entry_line-newline, entry_line-EndsClean, lines-render, lines-render-append,
}
use distributed_systems.Kv.FlatFile.Entries.{IsWellFormed}

module _ (k a b : Text) (ck : IsClean k) (ca : IsClean a) (cb : IsClean b) where
  abbrev line : Text
  line = entry_line k (a ++ comma ∷ b) 1

  split-line : split line ≡ k ∷ a ∷ b ∷ format 1 ∷ []
  unfolding entry_line
  split-line =
      split-append-comma k _ (IsClean-comma k ck)
      ∙ ap (λ r. k ∷ r)
          (ap split (append_assoc a (comma ∷ b) (comma ∷ format 1))
            ∙ split-append-comma a _ (IsClean-comma a ca)
            ∙ ap (λ r. a ∷ r)
                (split-append-comma b _ (IsClean-comma b cb)
                  ∙ ap (λ r. b ∷ r)
                      (split-last (format 1)
                        (digits-Lacks comma (λ d. omega arith) (format 1) (format-IsDigit 1)))))

  line-newline : Lacks newline line
  line-newline =
      entry_line-newline k (a ++ comma ∷ b) 1 (IsClean-newline k ck)
        (All-append _ a _ (IsClean-newline a ca) ((λ e. omega arith), IsClean-newline b cb))

  find-append-line : (ls : List Text) (j : Text) → find (ls ++ line ∷ []) j ≡ find ls j
  unfolding find
  find-append-line [] j = rw split-line refl
  find-append-line (l ∷ ls) j = rw (find-append-line ls j) refl

  get_entry-append-line :
      (s : FlatFileStorage)
      → IsWellFormed s
      → get_entry s k ≡ none
      → get_entry (record { content = s.content ++ end_line line }) k ≡ none
  unfolding get_entry
  get_entry-append-line s inv absent =
      ap (λ c. find (lines (c ++ end_line line)) k) inv.written
      ∙ ap (λ l. find l k)
          (lines-render-append inv.entries line inv.clean line-newline
            (entry_line-EndsClean k (a ++ comma ∷ b) 1))
      ∙ find-append-line (map line_of inv.entries) k
      ∙ ap (λ l. find l k) (sym (lines-render inv.entries inv.clean))
      ∙ ap (λ c. find (lines c) k) (sym inv.written)
      ∙ absent

found_none : (k : Text) → found_or_missing none k ≡ err (key_not_found k)
unfolding found_or_missing
found_none k = refl

-- A put of a value with a comma to a key that is not there answers `Ok`, and the next get of the key
-- says that it is not there: the line has four parts, and a reader skips it.
pub comma_value_is_lost :
    (s : FlatFileStorage) (k a b : Text)
    → IsWellFormed s
    → IsClean k
    → IsClean a
    → IsClean b
    → get_entry s k ≡ none
    → let (s', answer) = put s k (a ++ comma ∷ b) 0 in
      (answer ≡ ok 1) × (get s' k ≡ err (key_not_found k))
unfolding put get
comma_value_is_lost s k a b inv ck ca cb absent = rw absent (
  refl,
  ap (λ o. found_or_missing o k) (get_entry-append-line k a b ck ca cb s inv absent) ∙ found_none k,
)
