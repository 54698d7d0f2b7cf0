-- ===== src/Mr/Report/Sorted.antt =====
-- What is reported of the results.
use mathlib.Core.List.{Permᴰ}
use mathlib.Core.List.Permᴰ
use native.Mathlib.Decide.{dec_lt}
use distributed_systems.Prelude.{
  ℕ, ◌+◌, ◌-◌, ◌<◌, ◌≤◌, ◌≡◌, ◌⊎◌, ◌==◌, refl, ap, ◌∙◌, true, false, inl, inr, List, [], ◌∷◌,
  length, take, drop, All, Text, ltb, u32, if◌then◌else◌, arith, Bool-cases, take-append-drop,
  drop_of_le,
}
use distributed_systems.Prelude.Totals.{total, total-append}
use distributed_systems.Prelude.Sorting.{le_text-total, le_text_trans, IsTextLe, le_text-IsTextLe}
use distributed_systems.Mr.Report.{
  le_i32, first_count, in_order, insert_sorted, sort_results, add_counts, report,
}

abbrev Entry : Type 0
Entry = Text × List ℕ

-- An `i32` as a bit pattern.
abbrev IsI32 : Entry → Type 0
IsI32 a = first_count a < 4294967296

in_order-total : (a b : Entry) → IsI32 a → IsI32 b → in_order a b ≡ false → in_order b a ≡ true
unfolding in_order le_i32
in_order-total a b ha hb h = ground (arith, le_text-total a.0 b.0)

in_order_trans :
    (a b c : Entry)
    → IsI32 a
    → IsI32 b
    → IsI32 c
    → in_order a b ≡ true
    → in_order b c ≡ true
    → in_order a c ≡ true
unfolding in_order le_i32
in_order_trans a b c ha hb hc h k = ground (arith, le_text_trans a.0 b.0 c.0)

-- Each entry is in order with all that follow it.
abbrev IsOrdered : List Entry → Type 0
IsOrdered [] = Unit
IsOrdered (a ∷ rest) = All (λ b. in_order a b ≡ true) rest × IsOrdered rest

-- `a < b` of two `i32`: one is negative and the other is not, or they are on one side of 0.
abbrev IsLessI32 : ℕ → ℕ → Type 0
IsLessI32 a b =
    ((2147483648 ≤ a) × (b < 2147483648)) ⊎ ((a < b) × ((b < 2147483648) ⊎ (2147483648 ≤ a)))

-- A greater count comes first, and with equal counts the word that is first in the order of texts.
abbrev pub IsBefore : Entry → Entry → Type 0
IsBefore a b =
    IsLessI32 (first_count b) (first_count a) ⊎ ((first_count a ≡ first_count b) × IsTextLe a.0 b.0)

abbrev pub IsSorted : List Entry → Type 0
IsSorted [] = Unit
IsSorted (a ∷ rest) = All (IsBefore a) rest × IsSorted rest

greater-IsBefore :
    (m n : ℕ)
    → m < 4294967296
    → n < 4294967296
    → (m == n) ≡ false
    → le_i32 n m ≡ true
    → IsLessI32 n m
unfolding le_i32
greater-IsBefore m n hm hn other h = elim (dec_lt m 2147483648) [
  | yes low_m ↦ elim (dec_lt n 2147483648) [
    | yes low_n ↦ inr (ground (arith, h, other, hm, hn, low_m, low_n), inl low_m)
    | no high_n ↦ inl (omega (arith, high_n), low_m)
  ]
  | no high_m ↦ elim (dec_lt n 2147483648) [
    | yes low_n ↦ absurd (ground (arith, h, other, hm, hn, high_m, low_n))
    | no high_n ↦
        inr (ground (arith, h, other, hm, hn, high_m, high_n), inr (omega (arith, high_n)))
  ]
]

in_order-IsBefore : (a b : Entry) → IsI32 a → IsI32 b → in_order a b ≡ true → IsBefore a b
unfolding in_order
in_order-IsBefore a b ha hb h = elim (Bool-cases (first_count a == first_count b)) [
  | inl same ↦ inr (ground (arith, same), le_text-IsTextLe a.0 b.0 (rw same at h))
  | inr other ↦ inl (greater-IsBefore (first_count a) (first_count b) ha hb other (rw other at h))
]

below-IsBefore :
    (a : Entry) (xs : List Entry)
    → IsI32 a
    → All IsI32 xs
    → All (λ b. in_order a b ≡ true) xs
    → All (IsBefore a) xs
below-IsBefore a [] ha hs h = tt
below-IsBefore a (b ∷ xs) ha (hb, hs) (h, hx) =
    (in_order-IsBefore a b ha hb h, below-IsBefore a xs ha hs hx)

ordered-IsSorted : (xs : List Entry) → All IsI32 xs → IsOrdered xs → IsSorted xs
ordered-IsSorted [] hs h = tt
ordered-IsSorted (a ∷ xs) (ha, hs) (h, hx) =
    (below-IsBefore a xs ha hs h, ordered-IsSorted xs hs hx)

All-in_order :
    (a b : Entry) (xs : List Entry)
    → IsI32 a
    → IsI32 b
    → All IsI32 xs
    → in_order a b ≡ true
    → All (λ c. in_order b c ≡ true) xs
    → All (λ c. in_order a c ≡ true) xs
All-in_order a b [] ha hb hs h ks = tt
All-in_order a b (c ∷ xs) ha hb (hc, hs) h (k, ks) =
    (in_order_trans a b c ha hb hc h k, All-in_order a b xs ha hb hs h ks)

insert_sorted-All :
    (P : Entry → Type 0) (a : Entry) (xs : List Entry) → P a → All P xs → All P (insert_sorted a xs)
unfolding insert_sorted
insert_sorted-All P a [] ha hs = (ha, tt)
insert_sorted-All P a (b ∷ xs) ha (hb, hs) = elim (Bool-cases (in_order a b)) [
  | inl first ↦ rw first (ha, (hb, hs))
  | inr later ↦ rw later (hb, insert_sorted-All P a xs ha hs)
]

insert_sorted-IsOrdered :
    (a : Entry) (xs : List Entry)
    → IsI32 a
    → All IsI32 xs
    → IsOrdered xs
    → IsOrdered (insert_sorted a xs)
unfolding insert_sorted
insert_sorted-IsOrdered a [] ha hs h = (tt, tt)
insert_sorted-IsOrdered a (b ∷ xs) ha (hb, hs) (hx, h) = elim (Bool-cases (in_order a b)) [
  | inl first ↦ rw first ((first, All-in_order a b xs ha hb hs first hx), (hx, h))
  | inr later ↦ rw later (
    insert_sorted-All (λ c. in_order b c ≡ true) a xs (in_order-total a b ha hb later) hx,
    insert_sorted-IsOrdered a xs ha hs h,
  )
]

insert_sorted-Permᴰ : (a : Entry) (xs : List Entry) → Permᴰ (insert_sorted a xs) (a ∷ xs)
unfolding insert_sorted
insert_sorted-Permᴰ a [] = Permᴰ.refl (a ∷ [])
insert_sorted-Permᴰ a (b ∷ xs) = elim (Bool-cases (in_order a b)) [
  | inl first ↦ rw first (Permᴰ.refl (a ∷ b ∷ xs))
  | inr later ↦
      rw later (Permᴰ.trans (Permᴰ.cons refl (insert_sorted-Permᴰ a xs)) (Permᴰ.swap refl refl))
]

sort_results-Permᴰ : (xs : List Entry) → Permᴰ (sort_results xs) xs
unfolding sort_results
sort_results-Permᴰ [] = Permᴰ.nil
sort_results-Permᴰ (a ∷ xs) =
    Permᴰ.trans (insert_sorted-Permᴰ a (sort_results xs)) (Permᴰ.cons refl (sort_results-Permᴰ xs))

sort_results-All : (P : Entry → Type 0) (xs : List Entry) → All P xs → All P (sort_results xs)
unfolding sort_results
sort_results-All P [] h = tt
sort_results-All P (a ∷ xs) (ha, h) =
    insert_sorted-All P a (sort_results xs) ha (sort_results-All P xs h)

sort_results-IsOrdered : (xs : List Entry) → All IsI32 xs → IsOrdered (sort_results xs)
unfolding sort_results
sort_results-IsOrdered [] h = tt
sort_results-IsOrdered (a ∷ xs) (ha, h) =
    insert_sorted-IsOrdered a (sort_results xs) ha (sort_results-All IsI32 xs h)
      (sort_results-IsOrdered xs h)

total-Permᴰ : (f : Entry → ℕ) {xs ys : List Entry} → Permᴰ xs ys → total f xs ≡ total f ys
total-Permᴰ f Permᴰ.nil = refl
total-Permᴰ f (Permᴰ.cons e p) = omega (arith, ap f e, total-Permᴰ f p)
total-Permᴰ f (Permᴰ.swap e g) = omega (arith, ap f e, ap f g)
total-Permᴰ f (Permᴰ.trans p q) = omega (arith, total-Permᴰ f p, total-Permᴰ f q)

add_counts-total :
    (xs : List Entry) (n : ℕ) → n < 4294967296 → add_counts xs n ≡ u32 (n + total first_count xs)
unfolding add_counts
add_counts-total [] n small = omega arith
add_counts-total (a ∷ xs) n small =
    omega (arith, add_counts-total xs (u32 (n + first_count a)) (omega arith))

length-Permᴰ : {xs ys : List Entry} → Permᴰ xs ys → length xs ≡ length ys
length-Permᴰ Permᴰ.nil = refl
length-Permᴰ (Permᴰ.cons e p) = omega (arith, length-Permᴰ p)
length-Permᴰ (Permᴰ.swap e g) = refl
length-Permᴰ (Permᴰ.trans p q) = omega (arith, length-Permᴰ p, length-Permᴰ q)

-- Both loops together add up the whole list.
two_loops :
    (xs : List Entry)
    → (if ltb 20 (length xs)
        then add_counts (drop 20 xs) (add_counts (take 20 xs) 0)
        else add_counts (take 20 xs) 0)
      ≡ u32 (total first_count xs)
two_loops xs =
    let head = add_counts-total (take 20 xs) 0 (omega arith) in
    let split = total-append first_count (take 20 xs) (drop 20 xs) in
    let whole = ap (total first_count) (take-append-drop 20 xs) in
    elim (Bool-cases (ltb 20 (length xs))) [
      | inl more ↦ rw more (
          omega (
            arith,
            head,
            split,
            whole,
            add_counts-total (drop 20 xs) (add_counts (take 20 xs) 0) (omega (arith, head)),
          ))
      | inr all ↦ rw all (
          omega
            (arith, head, split, whole, ap (total first_count) (drop_of_le 20 xs (ground arith))))
    ]

-- The report shows the first twenty entries of a list that has the results in order, a greater count
-- first and equal counts by their words, says how many it leaves out, and gives the sum of all
-- counts, wrapped around as an `i32`. The counts are `i32`s.
pub report_lem :
    (results : List Entry)
    → All (λ a. first_count a < 4294967296) results
    → (sorted : List Entry) × Permᴰ sorted results
      × IsSorted sorted
      × ((report results).lines ≡ take 20 sorted)
      × ((report results).more_words ≡ length results - 20)
      × ((report results).total_occurrences ≡ u32 (total first_count results))
unfolding report
report_lem results small =
    let sorted = sort_results results in
    let perm = sort_results-Permᴰ results in
    (
      sorted,
      perm,
      ordered-IsSorted _ (sort_results-All IsI32 results small)
          (sort_results-IsOrdered results small),
      refl,
      ground (arith, length-Permᴰ perm),
      two_loops sorted ∙ ap u32 (total-Permᴰ first_count perm),
    )
