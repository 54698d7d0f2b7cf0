-- ===== src/Prelude/Sorting.antt =====
-- Rust's order of texts, and `sort` of the standard library on a list of texts, which stands here as
-- an insertion sort.
use mathlib.Core.Path.{◌≡◌, refl}
use mathlib.Core.Logic.{◌⊎◌, inl, inr}
use Prim.Native.Nat.{◌<◌}
use mathlib.Core.Bool.{Bool, true, false, ◌&&◌, ◌||◌}
use mathlib.Core.List.{List, [], ◌∷◌}
use native.Mathlib.Omega.{arith}
use distributed_systems.Prelude.Tests.{ltb, ◌==◌, if◌then◌else◌, Bool-cases}
use distributed_systems.Prelude.Lists.{All}
use distributed_systems.Prelude.Texts.{Text, text_beq}

-- `a <= b` of two texts
unfoldable pub le_text : Text → Text → Bool
le_text [] t = true
le_text (c ∷ s) [] = false
le_text (c ∷ s) (d ∷ t) = ltb c d || (c == d && le_text s t)

-- Rust's order of texts, code point by code point.
abbrev pub IsTextLe : Text → Text → Type 0
IsTextLe [] t = Unit
IsTextLe (c ∷ s) [] = ⊥
IsTextLe (c ∷ s) (d ∷ t) = (c < d) ⊎ ((c ≡ d) × IsTextLe s t)

pub le_text-IsTextLe : (s t : Text) → le_text s t ≡ true → IsTextLe s t
unfolding le_text
le_text-IsTextLe [] t h = tt
le_text-IsTextLe (c ∷ s) [] h = absurd (ground (arith, h))
le_text-IsTextLe (c ∷ s) (d ∷ t) h = elim (Bool-cases (ltb c d)) [
  | inl less ↦ inl (ground (arith, less))
  | inr other ↦ inr (ground (arith, h, other), le_text-IsTextLe s t (ground (arith, h, other)))
]

-- Each text is at most all that follow it.
abbrev pub IsAlphabetic : List Text → Type 0
IsAlphabetic [] = Unit
IsAlphabetic (a ∷ rest) = All (IsTextLe a) rest × IsAlphabetic rest

pub le_text-total : (s t : Text) → le_text s t ≡ false → le_text t s ≡ true
unfolding le_text
le_text-total [] t h = cc
le_text-total (c ∷ s) [] h = refl
le_text-total (c ∷ s) (d ∷ t) h = ground (arith, le_text-total s t)

pub le_text_trans : (s t u : Text) → le_text s t ≡ true → le_text t u ≡ true → le_text s u ≡ true
unfolding le_text
le_text_trans [] t u h k = refl
le_text_trans (c ∷ s) [] u h k = cc
le_text_trans (c ∷ s) (d ∷ t) [] h k = cc
le_text_trans (c ∷ s) (d ∷ t) (e ∷ u) h k = ground (arith, le_text_trans s t u)

insert : Text → List Text → List Text
insert a [] = a ∷ []
insert a (b ∷ sorted) = if le_text a b then a ∷ b ∷ sorted else b ∷ insert a sorted

unfoldable pub sort : List Text → List Text
unfolding insert
sort [] = []
sort (a ∷ rest) = insert a (sort rest)

-- Each text is at most all that follow it.
abbrev pub IsAscending : List Text → Type 0
IsAscending [] = Unit
IsAscending (a ∷ rest) = All (λ b. le_text a b ≡ true) rest × IsAscending rest

below-IsTextLe :
    (a : Text) (xs : List Text) → All (λ b. le_text a b ≡ true) xs → All (IsTextLe a) xs
below-IsTextLe a [] h = tt
below-IsTextLe a (b ∷ xs) (h, hs) = (le_text-IsTextLe a b h, below-IsTextLe a xs hs)

pub ascending-IsAlphabetic : (xs : List Text) → IsAscending xs → IsAlphabetic xs
ascending-IsAlphabetic [] h = tt
ascending-IsAlphabetic (a ∷ xs) (h, hs) = (below-IsTextLe a xs h, ascending-IsAlphabetic xs hs)

below_rest :
    (a b : Text) (xs : List Text)
    → le_text a b ≡ true
    → All (λ c. le_text b c ≡ true) xs
    → All (λ c. le_text a c ≡ true) xs
below_rest a b [] h hs = tt
below_rest a b (x ∷ xs) h (k, ks) = (le_text_trans a b x h k, below_rest a b xs h ks)

insert-All :
    (a b : Text) (xs : List Text)
    → le_text b a ≡ true
    → All (λ c. le_text b c ≡ true) xs
    → All (λ c. le_text b c ≡ true) (insert a xs)
unfolding insert
insert-All a b [] h hs = (h, tt)
insert-All a b (x ∷ xs) h (k, ks) = elim (Bool-cases (le_text a x)) [
  | inl first ↦ rw first (h, (k, ks))
  | inr later ↦ rw later (k, insert-All a b xs h ks)
]

insert-IsAscending : (a : Text) (xs : List Text) → IsAscending xs → IsAscending (insert a xs)
unfolding insert
insert-IsAscending a [] h = (tt, tt)
insert-IsAscending a (x ∷ xs) (h, hs) = elim (Bool-cases (le_text a x)) [
  | inl first ↦ rw first ((first, below_rest a x xs first h), (h, hs))
  | inr later ↦ rw later (insert-All a x xs (le_text-total a x later) h, insert-IsAscending a xs hs)
]

pub sort-IsAscending : (xs : List Text) → IsAscending (sort xs)
unfolding sort
sort-IsAscending [] = tt
sort-IsAscending (x ∷ xs) = insert-IsAscending x (sort xs) (sort-IsAscending xs)

-- whether a text stands in a list
unfoldable pub has : Text → List Text → Bool
has k [] = false
has k (x ∷ xs) = text_beq x k || has k xs

has-insert : (k a : Text) (xs : List Text) → has k (insert a xs) ≡ has k (a ∷ xs)
unfolding has insert
has-insert k a [] = refl
has-insert k a (x ∷ xs) = ground (arith, has-insert k a xs)

pub has-sort : (k : Text) (xs : List Text) → has k (sort xs) ≡ has k xs
unfolding has sort
has-sort k [] = refl
has-sort k (x ∷ xs) = ground (arith, has-insert k x (sort xs), has-sort k xs)
