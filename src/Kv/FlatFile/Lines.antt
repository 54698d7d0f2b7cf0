-- ===== src/Kv/FlatFile/Lines.antt =====
-- Reading back the lines that the flat-file backend writes.
use distributed_systems.Prelude.{
  ℕ, ◌≤◌, ◌≡◌, ◌≢◌, refl, ◌∙◌, ap, [], ◌∷◌, ◌++◌, concat, map, append_assoc, append-nil, sym, All,
  All-append, Text, arith,
}
use distributed_systems.Prelude.HashMap.{HashMap}
use distributed_systems.Prelude.Decimal.{format, IsDigit, format-IsDigit, format-ne-nil, max_u64}
use distributed_systems.Kv.FlatFile.{
  comma, newline, carriage_return, split, lines, entry_line, end_line,
}

-- A text that the file format can hold: no comma and no newline.
abbrev pub IsClean : Text → Type 0
IsClean = All (λ c. (c ≢ comma) × (c ≢ newline))

abbrev pub Lacks : ℕ → Text → Type 0
Lacks b = All (λ c. c ≢ b)

pub split-append-comma :
    (s rest : Text) → Lacks comma s → split (s ++ comma ∷ rest) ≡ s ∷ split rest
unfolding split
split-append-comma [] rest h = refl
split-append-comma (c ∷ s) rest h = ground (arith, split-append-comma s rest)

pub split-last : (s : Text) → Lacks comma s → split s ≡ s ∷ []
unfolding split
split-last [] h = refl
split-last (c ∷ s) h = ground (arith, split-last s)

-- The last character is no carriage return.
abbrev pub EndsClean : Text → Type 0
EndsClean [] = Unit
EndsClean (c ∷ []) = c ≢ carriage_return
EndsClean (c ∷ d ∷ s) = EndsClean (d ∷ s)

lines-append-newline :
    (l rest : Text) → Lacks newline l → EndsClean l → lines (l ++ newline ∷ rest) ≡ l ∷ lines rest
unfolding lines
lines-append-newline [] rest h e = refl
lines-append-newline (c ∷ []) rest h e = ground arith
lines-append-newline (c ∷ d ∷ s) rest h e = ground (arith, lines-append-newline (d ∷ s) rest)

EndsClean-append : (s t : Text) → t ≢ [] → EndsClean t → EndsClean (s ++ t)
EndsClean-append [] t ne h = h
EndsClean-append (c ∷ []) [] ne h = absurd (ne refl)
EndsClean-append (c ∷ []) (d ∷ t) ne h = h
EndsClean-append (c ∷ d ∷ s) t ne h = EndsClean-append (d ∷ s) t ne h

pub digits-Lacks : (b : ℕ) → ¬ IsDigit b → (s : Text) → All IsDigit s → Lacks b s
digits-Lacks b no_digit [] h = tt
digits-Lacks b no_digit (c ∷ s) (hc, hs) =
    ((λ e. no_digit (rw (← e) hc)), digits-Lacks b no_digit s hs)

digits-EndsClean : (s : Text) → All IsDigit s → EndsClean s
digits-EndsClean [] h = tt
digits-EndsClean (c ∷ []) h = ground arith
digits-EndsClean (c ∷ d ∷ s) h = digits-EndsClean (d ∷ s) h.1

pub IsClean-comma : (s : Text) → IsClean s → Lacks comma s
IsClean-comma [] h = tt
IsClean-comma (c ∷ s) (hc, hs) = (hc.0, IsClean-comma s hs)

pub IsClean-newline : (s : Text) → IsClean s → Lacks newline s
IsClean-newline [] h = tt
IsClean-newline (c ∷ s) (hc, hs) = (hc.1, IsClean-newline s hs)

-- A line splits into the key, the value and the version that it was made of.
pub split-entry_line :
    (k v : Text) (n : ℕ) → IsClean k → IsClean v → split (entry_line k v n) ≡ k ∷ v ∷ format n ∷ []
unfolding entry_line
split-entry_line k v n ck cv =
    split-append-comma k _ (IsClean-comma k ck)
    ∙ ap (λ r. k ∷ r)
        (split-append-comma v _ (IsClean-comma v cv)
          ∙ ap (λ r. v ∷ r)
              (split-last (format n)
                (digits-Lacks comma (λ d. omega arith) (format n) (format-IsDigit n))))

pub entry_line-newline :
    (k v : Text) (n : ℕ) → Lacks newline k → Lacks newline v → Lacks newline (entry_line k v n)
unfolding entry_line
entry_line-newline k v n ck cv = All-append _ k _ ck (
  (λ e. omega arith),
  All-append _ v _ cv
      ((λ e. omega arith), digits-Lacks newline (λ d. omega arith) (format n) (format-IsDigit n)),
)

pub entry_line-EndsClean : (k v : Text) (n : ℕ) → EndsClean (entry_line k v n)
unfolding entry_line
entry_line-EndsClean k v n =
    EndsClean-append k _ (λ e. cc)
      (EndsClean-append (comma ∷ v) _ (λ e. cc)
        (EndsClean-append (comma ∷ []) (format n) (format-ne-nil n)
          (digits-EndsClean (format n) (format-IsDigit n))))

-- The file that holds a list of entries, a line for each.
abbrev pub line_of : Text × (Text × ℕ) → Text
line_of (k, (v, n)) = entry_line k v n

abbrev pub render : HashMap Text (Text × ℕ) → Text
render m = concat (map end_line (map line_of m))

abbrev pub IsEntry : Text × (Text × ℕ) → Type 0
IsEntry (k, (v, n)) = IsClean k × IsClean v × (n ≤ max_u64)

-- The lines of a file are the lines that were written to it.
pub lines-render : (m : HashMap Text (Text × ℕ)) → All IsEntry m → lines (render m) ≡ map line_of m
lines-render [] h = unfold lines in refl
lines-render ((k, (v, n)) ∷ m) ((ck, cv, _), h) =
    ap lines (append_assoc (entry_line k v n) (newline ∷ []) (render m))
    ∙ lines-append-newline (entry_line k v n) (render m)
        (entry_line-newline k v n (IsClean-newline k ck) (IsClean-newline v cv))
        (entry_line-EndsClean k v n)
    ∙ ap (λ r. entry_line k v n ∷ r) (lines-render m h)

-- One more line, whatever it holds, is read back as it is.
pub lines-render-append :
    (m : HashMap Text (Text × ℕ)) (l : Text)
    → All IsEntry m
    → Lacks newline l
    → EndsClean l
    → lines (render m ++ end_line l) ≡ map line_of m ++ l ∷ []
lines-render-append [] l h hl e =
    lines-append-newline l [] hl e ∙ ap (λ r. l ∷ r) (unfold lines in refl)
lines-render-append ((k, (v, n)) ∷ m) l ((ck, cv, _), h) hl e =
    ap lines (
      append_assoc (end_line (entry_line k v n)) (render m) (end_line l)
      ∙ append_assoc (entry_line k v n) (newline ∷ []) (render m ++ end_line l))
    ∙ lines-append-newline (entry_line k v n) _
        (entry_line-newline k v n (IsClean-newline k ck) (IsClean-newline v cv))
        (entry_line-EndsClean k v n)
    ∙ ap (λ r. entry_line k v n ∷ r) (lines-render-append m l h hl e)

pub render-append :
    (m : HashMap Text (Text × ℕ)) (e : Text × (Text × ℕ))
    → render (m ++ e ∷ []) ≡ render m ++ end_line (line_of e)
render-append [] e = append-nil (end_line (line_of e))
render-append (x ∷ m) e =
    ap (λ r. end_line (line_of x) ++ r) (render-append m e)
    ∙ sym (append_assoc (end_line (line_of x)) (render m) _)
