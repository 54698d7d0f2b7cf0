-- ===== src/Prelude/Decimal.antt =====
-- How the Rust standard library writes an unsigned integer in decimal (`{}`) and reads a `u64`
-- (`str::parse`): an optional `+`, at least one digit, and no value past `u64::MAX`.
use Prim.Native.Nat.{ℕ, zero, suc, ◌+◌, ◌-◌, ◌*◌, ◌/◌, ◌%◌, ◌≤◌, ◌<◌}
use mathlib.Core.Path.{◌≡◌, refl, ap, ◌∙◌}
use mathlib.Core.Logic.{◌≢◌, inl, inr}
use mathlib.Core.Bool.{◌||◌}
use mathlib.Core.Option.{Option, none, some}
use mathlib.Core.List.{[], ◌∷◌, ◌++◌, concat-ne-nil}
use native.Mathlib.Omega.{arith}
use distributed_systems.Prelude.Tests.{ltb, ◌==◌, if◌then◌else◌, Bool-cases}
use distributed_systems.Prelude.Lists.{All, All-append}
use distributed_systems.Prelude.Texts.{Text, codes}

-- One digit is made per unit of fuel; `n` has at most `n + 1` digits.
digits : ℕ → ℕ → Text
digits zero n = []
digits (suc f) n =
    let higher = digits f (n / 10) ++ (48 + n % 10) ∷ [] in
    if ltb n 10 then (48 + n) ∷ [] else higher

unfoldable pub format : ℕ → Text
unfolding digits
format n = digits (suc n) n

abbrev pub max_u64 : ℕ
max_u64 = 18446744073709551615

scan : Text → ℕ → Option ℕ
scan [] n = some n
scan (c ∷ s) n =
    if ltb c 48 || ltb 57 c
    then none
    else if ltb max_u64 (n * 10 + (c - 48))
    then none
    else scan s (n * 10 + (c - 48))

scan_nonempty : Text → Option ℕ
unfolding scan
scan_nonempty [] = none
scan_nonempty (c ∷ s) = scan (c ∷ s) 0

unfoldable pub parse : Text → Option ℕ
unfolding scan_nonempty
parse [] = none
parse (c ∷ s) = if c == 43 then scan_nonempty s else scan_nonempty (c ∷ s)

format_example : format 1234 ≡ codes "1234"
unfolding format
format_example = refl

parse_example : parse (codes "+0070") ≡ some 70
unfolding parse
parse_example = refl

parse_overflow : parse (codes "18446744073709551616") ≡ none
unfolding parse
parse_overflow = refl

scan-append-digit :
    (s : Text) (a n d : ℕ)
    → scan s a ≡ some n
    → d < 10
    → n * 10 + d ≤ max_u64
    → scan (s ++ (48 + d) ∷ []) a ≡ some (n * 10 + d)
unfolding scan
scan-append-digit [] a n d h small fits = ground arith
scan-append-digit (c ∷ s) a n d h small fits =
    ground (arith, scan-append-digit s (a * 10 + (c - 48)) n d)

scan-digits : (f n : ℕ) → n < f → n ≤ max_u64 → scan (digits f n) 0 ≡ some n
unfolding digits
scan-digits zero n h fits = absurd (omega arith)
scan-digits (suc f) n h fits = elim (Bool-cases (ltb n 10)) [
  | inl small ↦ rw small (unfold scan in ground arith)
  | inr large ↦ rw large (
      scan-append-digit (digits f (n / 10)) 0 (n / 10) (n % 10)
        (scan-digits f (n / 10) (ground arith) (omega arith)) (omega arith) (omega arith)
      ∙ ap some (omega arith))
]

abbrev pub IsDigit : ℕ → Type 0
IsDigit c = (48 ≤ c) × (c ≤ 57)

digits-IsDigit : (f n : ℕ) → All IsDigit (digits f n)
unfolding digits
digits-IsDigit zero n = tt
digits-IsDigit (suc f) n = elim (Bool-cases (ltb n 10)) [
  | inl small ↦ rw small (ground arith)
  | inr large ↦
      rw large (All-append IsDigit (digits f (n / 10)) _ (digits-IsDigit f (n / 10)) (omega arith))
]

-- A decimal print has only digits.
pub format-IsDigit : (n : ℕ) → All IsDigit (format n)
unfolding format
format-IsDigit n = digits-IsDigit (suc n) n

digits-ne-nil : (f n : ℕ) → digits (suc f) n ≢ []
unfolding digits
digits-ne-nil f n = elim (Bool-cases (ltb n 10)) [
  | inl small ↦ rw small (λ e. cc)
  | inr large ↦ rw large (concat-ne-nil _ _)
]

pub format-ne-nil : (n : ℕ) → format n ≢ []
unfolding format
format-ne-nil n = digits-ne-nil n n

parse-eq-scan : (s : Text) → s ≢ [] → All IsDigit s → parse s ≡ scan s 0
unfolding parse
parse-eq-scan [] h all = absurd (h refl)
parse-eq-scan (c ∷ s) h all = ground arith

-- Every `u64` is read back from its decimal print.
pub parse-format : (n : ℕ) → n ≤ max_u64 → parse (format n) ≡ some n
unfolding format
parse-format n h =
    parse-eq-scan (digits (suc n) n) (digits-ne-nil n n) (digits-IsDigit (suc n) n)
    ∙ scan-digits (suc n) n (omega arith) h
