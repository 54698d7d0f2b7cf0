-- ===== src/Prelude/Totals.antt =====
-- Weights summed over a list, and the order that they leave open.
use Prim.Native.Nat.{ℕ, ◌+◌, ◌<◌}
use mathlib.Core.Path.{◌≡◌, refl, sym, ap}
use mathlib.Core.List.{List, [], ◌∷◌, ◌++◌, Permᴰ}
use mathlib.Core.List.Permᴰ
use native.Mathlib.Omega.{arith}

module _ {ℓ} {A : Type ℓ} where
  abbrev pub total : (A → ℕ) → List A → ℕ
  total f [] = 0
  total f (x ∷ xs) = f x + total f xs

  pub total-append : (f : A → ℕ) (xs ys : List A) → total f (xs ++ ys) ≡ total f xs + total f ys
  total-append f [] ys = omega arith
  total-append f (x ∷ xs) ys = omega (arith, total-append f xs ys)

  module _ (eq : Discrete A) where
    -- 1 at `x`, 0 elsewhere
    abbrev pub is_at : A → A → ℕ
    is_at x y = elim (eq x y) [ yes _ ↦ 1 | no _ ↦ 0 ]

    later :
        (x y : A) (ys : List A) → ¬ (x ≡ y) → 0 < total (is_at x) (y ∷ ys) → 0 < total (is_at x) ys
    later x y ys n h =
        elim (eq x y)
            as (λ d.
              0 < (elim d [ yes _ ↦ 1 | no _ ↦ 0 ]) + total (is_at x) ys → 0 < total (is_at x) ys) [
                | yes e ↦ λ k. absurd (n e)
                | no _ ↦ λ k. omega arith
              ]
          h

    at_self : (x : A) (xs : List A) → 0 < total (is_at x) (x ∷ xs)
    at_self x xs =
        elim (eq x x) as (λ d. 0 < (elim d [ yes _ ↦ 1 | no _ ↦ 0 ]) + total (is_at x) xs) [
          | yes e ↦ omega arith
          | no n ↦ absurd (n refl)
        ]

    split_at :
        (x : A) (ys : List A)
        → 0 < total (is_at x) ys
        → (l : List A) × (r : List A) × (ys ≡ l ++ x ∷ r)
    split_at x [] h = absurd (omega arith)
    split_at x (y ∷ ys) h = elim (eq x y) [
      | yes e ↦ ([], ys, ap (λ a. a ∷ ys) (sym e))
      | no n ↦ (let (l, r, e) = split_at x ys (later x y ys n h) in (y ∷ l, r, ap (λ zs. y ∷ zs) e))
    ]

    -- Lists with the same sum for every weight hold the same elements, each as often.
    pub Permᴰ_of_total : (xs ys : List A) → ((f : A → ℕ) → total f xs ≡ total f ys) → Permᴰ xs ys
    Permᴰ_of_total [] [] h = Permᴰ.nil
    Permᴰ_of_total [] (y ∷ ys) h = absurd (omega (arith, h (λ a. 1)))
    Permᴰ_of_total (x ∷ xs) ys h =
        let (l, r, e) = split_at x ys (rw (← h (is_at x)) (at_self x xs)) in
        let rest =
          Permᴰ_of_total xs (l ++ r) (λ f.
            omega (arith, h f, ap (total f) e, total-append f l (x ∷ r), total-append f l r)) in
        rw e (Permᴰ.trans (Permᴰ.cons refl rest) (Permᴰ.symm (Permᴰ.middle x l r)))
