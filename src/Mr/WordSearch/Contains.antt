-- ===== src/Mr/WordSearch/Contains.antt =====
-- `contains` against the definition of a substring.
use distributed_systems.Prelude.{
  ◌≡◌, refl, ap, ◌↔◌, inl, inr, true, [], ◌∷◌, ◌++◌, Text, arith, Bool-cases,
}
use distributed_systems.Mr.WordSearch.{contains, is_prefix}

-- `target` stands in `text`, between `before` and `after`.
abbrev pub Occurs : Text → Text → Type 0
Occurs text target = (before : Text) × (after : Text) × (text ≡ before ++ target ++ after)

is_prefix_sound :
    (target text : Text) → is_prefix target text ≡ true → (after : Text) × (text ≡ target ++ after)
unfolding is_prefix
is_prefix_sound [] text h = (text, refl)
is_prefix_sound (p ∷ ps) [] h = cc
is_prefix_sound (p ∷ ps) (c ∷ cs) h =
    let (after, e) = is_prefix_sound ps cs (ground arith) in (after, ground arith)

is_prefix-append : (target after : Text) → is_prefix target (target ++ after) ≡ true
unfolding is_prefix
is_prefix-append [] after = refl
is_prefix-append (p ∷ ps) after = ground (arith, is_prefix-append ps after)

contains_sound : (text target : Text) → contains text target ≡ true → Occurs text target
unfolding contains
contains_sound [] target h = let (after, e) = is_prefix_sound target [] h in ([], after, e)
contains_sound (c ∷ text) target h = elim (Bool-cases (is_prefix target (c ∷ text))) [
  | inl here ↦ let (after, e) = is_prefix_sound target (c ∷ text) here in ([], after, e)
  | inr later ↦
      let (before, after, e) = contains_sound text target (rw later at h) in
      (c ∷ before, after, ap (λ r. c ∷ r) e)
]

contains-append : (before target after : Text) → contains (before ++ target ++ after) target ≡ true
unfolding contains
contains-append [] [] [] = refl
contains-append [] [] (c ∷ after) = refl
contains-append [] (p ∷ ps) after = ground (arith, is_prefix-append (p ∷ ps) after)
contains-append (c ∷ before) target after = ground (arith, contains-append before target after)

-- `contains` holds exactly when the target stands somewhere in the text.
pub contains_iff : (text target : Text) → (contains text target ≡ true) ↔ Occurs text target
contains_iff text target =
    (contains_sound text target, λ o. rw o.2 (contains-append o.0 target o.1))
