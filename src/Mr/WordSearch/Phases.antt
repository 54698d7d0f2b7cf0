-- ===== src/Mr/WordSearch/Phases.antt =====
-- The two phases one after the other, each assignment done once: the result of the job.
use mathlib.Core.List.{Memᴰ, Permᴰ}
use distributed_systems.Prelude.{
  ℕ, ◌+◌, ◌<◌, ◌≡◌, refl, sym, ◌∙◌, ap, ◌⊎◌, inl, inr, List, [], ◌∷◌, ◌++◌, length, map, concat,
  All, Text, text_beq_iff, text_eq, arith, u32,
}
use distributed_systems.Mr.StateStore.{StateStore, IsStore}
use distributed_systems.Mr.WordSearch.{
  MapWorkAssignment, ReduceWorkAssignment, sum_i32, reduce_keys, map_work, reduce_work,
}
use distributed_systems.Mr.WordSearch.MapPhase.{occurrences, total, map_work-total}

pub occurrences-append :
    (t : Text) (xs ys : List Text) → occurrences t (xs ++ ys) ≡ occurrences t xs + occurrences t ys
occurrences-append t [] ys = omega arith
occurrences-append t (x ∷ xs) ys = ground (arith, occurrences-append t xs ys)

-- the counts of the chunks, added up
pub chunk_sum : Text → List MapWorkAssignment → ℕ
chunk_sum t [] = 0
chunk_sum t (a ∷ rest) = occurrences t a.chunk + chunk_sum t rest

pub chunk_sum-concat :
    (t : Text) (work : List MapWorkAssignment)
    → chunk_sum t work ≡ occurrences t (concat (map (λ a. a.chunk) work))
unfolding chunk_sum
chunk_sum-concat t [] = refl
chunk_sum-concat t (a ∷ rest) = omega (
  arith,
  occurrences-append t a.chunk (concat (map (λ a. a.chunk) rest)),
  chunk_sum-concat t rest,
)

pub chunk_sum-permᴰ :
    (t : Text) {xs ys : List MapWorkAssignment} → Permᴰ xs ys → chunk_sum t xs ≡ chunk_sum t ys
unfolding chunk_sum
chunk_sum-permᴰ t Permᴰ.nil = refl
chunk_sum-permᴰ t (Permᴰ.cons e p) = cc (ap (λ a. occurrences t a.chunk) e, chunk_sum-permᴰ t p)
chunk_sum-permᴰ t (Permᴰ.swap e f) =
    omega (arith, ap (λ a. occurrences t a.chunk) e, ap (λ a. occurrences t a.chunk) f)
chunk_sum-permᴰ t (Permᴰ.trans p q) = chunk_sum-permᴰ t p ∙ chunk_sum-permᴰ t q

-- What an assignment must be for the target: it has it, and is small.
abbrev pub Looks : Text → MapWorkAssignment → Type 0
Looks t a = Memᴰ t a.targets × (length a.chunk < 2147483648)

-- Some assignment has the key.
abbrev pub Reduces : Text → List ReduceWorkAssignment → Type 0
Reduces t [] = ⊥
Reduces t (a ∷ rest) = (Memᴰ t a.keys) ⊎ Reduces t rest

sum_i32-total : (vs : List ℕ) (n : ℕ) → n + total vs < 4294967296 → sum_i32 vs n ≡ n + total vs
unfolding sum_i32
sum_i32-total [] n h = omega arith
sum_i32-total (v ∷ vs) n h = sum_i32-total vs (u32 (n + v)) (omega arith) ∙ omega arith

module _ {S : Type 0} (st : StateStore S) where
  -- Assignments done one after the other.
  abbrev pub run_map : List MapWorkAssignment → S → S
  run_map [] s = s
  run_map (a ∷ rest) s = run_map rest (map_work st a s)

  abbrev pub run_reduce : List ReduceWorkAssignment → S → S
  run_reduce [] s = s
  run_reduce (a ∷ rest) s = run_reduce rest (reduce_work st a s)

module _ {S : Type 0} (st : StateStore S) (laws : IsStore st) where
  pub run_map-total :
      (work : List MapWorkAssignment) (s : S) (t : Text)
      → All (Looks t) work
      → total (st.get (run_map st work s) t) ≡ total (st.get s t) + chunk_sum t work
  unfolding chunk_sum
  run_map-total [] s t h = omega arith
  run_map-total (a ∷ rest) s t (ha, h) =
      omega
        (arith, run_map-total rest (map_work st a s) t h, map_work-total st laws a s t ha.0 ha.1)

  -- Reducing any keys keeps the sum of a key's values.
  reduce_keys-total :
      (keys : List Text) (s : S) (t : Text)
      → total (st.get s t) < 4294967296
      → total (st.get (reduce_keys st keys s) t) ≡ total (st.get s t)
  unfolding reduce_keys
  reduce_keys-total [] s t h = refl
  reduce_keys-total (k ∷ ks) s t h =
      let v = sum_i32 (st.get s k) 0 in
      ground (
        arith,
        laws.get-replace s k v t,
        text_beq_iff k t,
        sum_i32-total (st.get s k) 0,
        reduce_keys-total ks (st.replace s k v) t,
      )

  -- A key that is reduced, or has been, holds one value: the sum.
  reduce_keys-single :
      (keys : List Text) (s : S) (t : Text)
      → total (st.get s t) < 4294967296
      → (Memᴰ t keys) ⊎ (st.get s t ≡ total (st.get s t) ∷ [])
      → st.get (reduce_keys st keys s) t ≡ total (st.get s t) ∷ []
  unfolding reduce_keys
  reduce_keys-single [] s t h (inl m) = elim m [ ]
  reduce_keys-single [] s t h (inr e) = e
  reduce_keys-single (k ∷ ks) s t h found =
      let v = sum_i32 (st.get s k) 0 in
      let same = reduce_keys-total (k ∷ []) s t h in
      reduce_keys-single ks (st.replace s k v) t (omega arith) (still found) ∙ ap (λ n. n ∷ []) same
    where
      still :
          (Memᴰ t (k ∷ ks)) ⊎ (st.get s t ≡ total (st.get s t) ∷ [])
          → let s' = st.replace s k (sum_i32 (st.get s k) 0) in
            (Memᴰ t ks) ⊎ (st.get s' t ≡ total (st.get s' t) ∷ [])
      still (inl (Memᴰ.head e)) =
          inr (ground (arith, laws.get-replace s k (sum_i32 (st.get s k) 0) t, text_beq_iff k t))
      still (inl (Memᴰ.tail e)) = inl e
      still (inr e) =
          inr (ground (arith, laws.get-replace s k (sum_i32 (st.get s k) 0) t, text_beq_iff k t))

  pub run_reduce-single :
      (work : List ReduceWorkAssignment) (s : S) (t : Text)
      → total (st.get s t) < 4294967296
      → Reduces t work ⊎ (st.get s t ≡ total (st.get s t) ∷ [])
      → st.get (run_reduce st work s) t ≡ total (st.get s t) ∷ []
  unfolding reduce_work
  run_reduce-single [] s t h (inl m) = absurd m
  run_reduce-single [] s t h (inr e) = e
  run_reduce-single (a ∷ rest) s t h found =
      let same = reduce_keys-total a.keys s t h in
      run_reduce-single rest (reduce_keys st a.keys s) t (omega arith) (still found)
      ∙ ap (λ n. n ∷ []) same
    where
      still :
          Reduces t (a ∷ rest) ⊎ (st.get s t ≡ total (st.get s t) ∷ [])
          → let s' = reduce_keys st a.keys s in
            Reduces t rest ⊎ (st.get s' t ≡ total (st.get s' t) ∷ [])
      still (inl (inl m)) = inr (
          reduce_keys-single a.keys s t h (inl m)
          ∙ ap (λ n. n ∷ []) (sym (reduce_keys-total a.keys s t h)))
      still (inl (inr m)) = inl m
      still (inr e) = inr (
          reduce_keys-single a.keys s t h (inr e)
          ∙ ap (λ n. n ∷ []) (sym (reduce_keys-total a.keys s t h)))
