-- ===== src/Mr/WordSearch/MapPhase.antt =====
-- What the map work leaves in the store: for each target the counts of the chunks, as a sum.
use mathlib.Core.List.{Memᴰ}
use distributed_systems.Prelude.{
  ℕ, suc, ◌+◌, ◌<◌, ◌≤◌, ◌≡◌, refl, ◌∙◌, Option, none, some, List, [], ◌∷◌, ◌++◌, length, All, Text,
  text_beq, text_beq_iff, text_eq, arith, Bool-cases, ◌⊎◌, inl, inr, if◌then◌else◌, u32,
}
use distributed_systems.Prelude.HashMap
use distributed_systems.Prelude.HashMap.{HashMap}
use distributed_systems.Mr.StateStore.{StateStore, IsStore}
use distributed_systems.Mr.WordSearch.{
  MapWorkAssignment, contains, count_texts, collect_counts, map_logic, write_counts, map_work,
  is_positive,
}

-- How many of the texts hold the target.
abbrev pub occurrences : Text → List Text → ℕ
occurrences target [] = 0
occurrences target (text ∷ rest) =
    let more = occurrences target rest in if contains text target then suc more else more

-- The sum of values, with no wrap-around.
abbrev pub total : List ℕ → ℕ
total [] = 0
total (v ∷ vs) = v + total vs

pub total-append : (vs ws : List ℕ) → total (vs ++ ws) ≡ total vs + total ws
total-append [] ws = omega arith
total-append (v ∷ vs) ws = omega (arith, total-append vs ws)

pub occurrences-le : (t : Text) (items : List Text) → occurrences t items ≤ length items
occurrences-le t [] = omega arith
occurrences-le t (x ∷ items) = ground (arith, occurrences-le t items)

count_texts-occurrences :
    (t : Text) (items : List Text) (n : ℕ)
    → n + length items < 2147483648
    → count_texts t items n ≡ n + occurrences t items
unfolding count_texts
count_texts-occurrences t [] n h = omega arith
count_texts-occurrences t (x ∷ items) n h = elim (Bool-cases (contains x t)) [
  | inl here ↦ rw here (count_texts-occurrences t items (u32 (n + 1)) (omega arith) ∙ omega arith)
  | inr not_here ↦ rw not_here (count_texts-occurrences t items n (omega arith))
]

-- what the entries of a key add up to
weight : Text → HashMap Text ℕ → ℕ
weight t [] = 0
weight t ((k, v) ∷ m) = let more = weight t m in if text_beq k t then v + more else more

old_value : Option ℕ → ℕ
old_value none = 0
old_value (some v) = v

weight-insert :
    (m : HashMap Text ℕ) (k : Text) (v : ℕ) (t : Text)
    → weight t (HashMap.insert m k v) + (if text_beq k t then old_value (HashMap.get m k) else 0)
      ≡ weight t m + (if text_beq k t then v else 0)
unfolding weight HashMap.insert HashMap.get old_value
weight-insert [] k v t = ground arith
weight-insert ((j, w) ∷ m) k v t =
    ground (arith, text_beq_iff j k, text_beq_iff k t, text_beq_iff j t, weight-insert m k v t)

-- Each key stands once, with the count that the items give it.
record Counted (items : List Text) (m : HashMap Text ℕ) : Type 0 where
  sums : (t : Text) → weight t m ≡ old_value (HashMap.get m t)
  values : (t : Text) (v : ℕ) → HashMap.get m t ≡ some v → v ≡ count_texts t items 0

insert-Counted :
    (items : List Text) (m : HashMap Text ℕ) (k : Text)
    → Counted items m
    → Counted items (HashMap.insert m k (count_texts k items 0))
unfolding old_value
insert-Counted items m k h =
    let v = count_texts k items 0 in
    record {
      sums = λ t.
          ground
            (arith, weight-insert m k v t, HashMap.get-insert m k t v, h.sums t, text_beq_iff k t);
      values = λ t w e. ground (arith, HashMap.get-insert m k t v, h.values t w, text_beq_iff k t);
    }

get-collect_counts :
    (items targets : List Text) (m : HashMap Text ℕ) (t : Text)
    → Counted items m
    → (Memᴰ t targets) ⊎ (HashMap.get m t ≡ some (count_texts t items 0))
    → weight t (collect_counts items targets m) ≡ count_texts t items 0
unfolding collect_counts
get-collect_counts items [] m t h (inl e) = elim e [ ]
get-collect_counts items [] m t h (inr e) = h.sums t ∙ rw e (unfold old_value in refl)
get-collect_counts items (k ∷ ks) m t h found =
    get-collect_counts items ks (HashMap.insert m k (count_texts k items 0)) t
      (insert-Counted items m k h) (still found)
  where
    still :
        (Memᴰ t (k ∷ ks)) ⊎ (HashMap.get m t ≡ some (count_texts t items 0))
        → (Memᴰ t ks)
          ⊎ (HashMap.get (HashMap.insert m k (count_texts k items 0)) t
              ≡ some (count_texts t items 0))
    still (inl (Memᴰ.head e)) =
        inr (ground (arith, HashMap.get-insert m k t (count_texts k items 0), text_beq_iff k t))
    still (inl (Memᴰ.tail e)) = inl e
    still (inr e) =
        inr (ground (arith, HashMap.get-insert m k t (count_texts k items 0), text_beq_iff k t))

abbrev AllSmall : HashMap Text ℕ → Type 0
AllSmall = All (λ e. e.1 < 2147483648)

insert-AllSmall :
    (m : HashMap Text ℕ) (k : Text) (v : ℕ)
    → v < 2147483648
    → AllSmall m
    → AllSmall (HashMap.insert m k v)
unfolding HashMap.insert
insert-AllSmall [] k v hv h = (hv, tt)
insert-AllSmall ((j, w) ∷ m) k v hv (hw, h) = elim (Bool-cases (text_beq j k)) [
  | inl same ↦ rw same (hv, h)
  | inr other ↦ rw other (hw, insert-AllSmall m k v hv h)
]

collect_counts-AllSmall :
    (items targets : List Text) (m : HashMap Text ℕ)
    → length items < 2147483648
    → AllSmall m
    → AllSmall (collect_counts items targets m)
unfolding collect_counts
collect_counts-AllSmall items [] m few h = h
collect_counts-AllSmall items (k ∷ ks) m few h =
    collect_counts-AllSmall items ks (HashMap.insert m k (count_texts k items 0)) few (
      insert-AllSmall m k _
        (omega (arith, count_texts-occurrences k items 0, occurrences-le k items)) h)

module _ {S : Type 0} (st : StateStore S) (laws : IsStore st) where
  write_counts-total :
      (m : HashMap Text ℕ) (s : S) (t : Text)
      → AllSmall m
      → total (st.get (write_counts st m s) t) ≡ total (st.get s t) + weight t m
  unfolding write_counts weight
  write_counts-total [] s t h = omega arith
  write_counts-total ((k, v) ∷ m) s t (hv, h) = ground (
    arith,
    write_counts-total m (if is_positive v then st.update s k v else s) t h,
    laws.get-update s k v t,
    total-append (st.get s k) (v ∷ []),
    text_beq_iff k t,
  )

  -- A map assignment adds, to the values of each of its targets, how many of its texts hold it.
  pub map_work-total :
      (a : MapWorkAssignment) (s : S) (t : Text)
      → Memᴰ t a.targets
      → length a.chunk < 2147483648
      → total (st.get (map_work st a s) t) ≡ total (st.get s t) + occurrences t a.chunk
  unfolding map_work
  map_work-total a s t mem few =
      let none_yet : Counted a.chunk [] =
        unfold HashMap.get weight old_value in record { sums = λ j. refl; values = λ j v e. cc } in
      omega (
        arith,
        write_counts-total (map_logic a.chunk a.targets) s t
            (collect_counts-AllSmall a.chunk a.targets [] few tt),
        get-collect_counts a.chunk a.targets [] t none_yet (inl mem),
        count_texts-occurrences t a.chunk 0,
      )
