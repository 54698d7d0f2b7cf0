-- ===== src/Mr/WordSearch/Small.antt =====
-- The counts in a local store are `i32`s: what the two phases write to it.
use distributed_systems.Prelude.{
  some-inj, ℕ, ◌+◌, ◌<◌, ◌≡◌, some, List, [], ◌∷◌, All, All-append, Text, text_eq, text_beq, u32,
  arith, Bool-cases, Option-cases, inl, inr,
}
use distributed_systems.Prelude.HashMap
use distributed_systems.Prelude.HashMap.{HashMap}
use distributed_systems.Mr.StateStore.{LocalStateAccess, local, update, replace, get}
use distributed_systems.Mr.WordSearch.{
  MapWorkAssignment, ReduceWorkAssignment, contains, count_texts, collect_counts, map_logic,
  is_positive, sum_i32, write_counts, map_work, reduce_keys, reduce_work,
}

module _ {V : Type 0} (P : V → Type 0) where
  insert-All :
      (m : HashMap Text V) (k : Text) (v : V)
      → All (λ e. P (e.1)) m
      → P v
      → All (λ e. P (e.1)) (HashMap.insert m k v)
  unfolding HashMap.insert
  insert-All [] k v h p = (p, tt)
  insert-All ((j, u) ∷ m) k v (hu, h) p = elim (Bool-cases (text_beq j k)) [
    | inl here ↦ rw (here, HashMap.insert) (p, h)
    | inr later ↦ rw (later, HashMap.insert) (hu, insert-All m k v h p)
  ]

  get-All :
      (m : HashMap Text V) (k : Text) (v : V)
      → All (λ e. P (e.1)) m
      → HashMap.get m k ≡ some v
      → P v
  unfolding HashMap.get
  get-All [] k v h e = absurd (ground (arith, e))
  get-All ((j, u) ∷ m) k v (hu, h) e = elim (Bool-cases (text_beq j k)) [
    | inl here ↦ rw (some-inj u v (rw (here, HashMap.get) at e)) at hu
    | inr later ↦ get-All m k v h (rw (later, HashMap.get) at e)
  ]

-- every value of every key
abbrev pub IsSmall : LocalStateAccess → Type 0
IsSmall s = All (λ e. All (λ v. v < 4294967296) (e.1)) s.values

abbrev Small : ℕ → Type 0
Small v = v < 4294967296

get-IsSmall : (s : LocalStateAccess) (k : Text) → IsSmall s → All Small (get s k)
unfolding get
get-IsSmall s k h = elim (Option-cases (HashMap.get s.values k)) [
  | inl gone ↦ rw (gone, get) tt
  | inr (vs, has) ↦ rw (has, get) (get-All (All Small) s.values k vs h has)
]

update-IsSmall :
    (s : LocalStateAccess) (k : Text) (v : ℕ) → IsSmall s → Small v → IsSmall (update s k v)
unfolding update get
update-IsSmall s k v h small =
    insert-All (All Small) s.values k _ h
      (All-append Small (get s k) (v ∷ []) (get-IsSmall s k h) (small, tt))

replace-IsSmall :
    (s : LocalStateAccess) (k : Text) (v : ℕ) → IsSmall s → Small v → IsSmall (replace s k v)
unfolding replace
replace-IsSmall s k v h small = insert-All (All Small) s.values k (v ∷ []) h (small, tt)

count_texts-Small : (t : Text) (xs : List Text) (n : ℕ) → Small n → Small (count_texts t xs n)
unfolding count_texts
count_texts-Small t [] n h = h
count_texts-Small t (x ∷ xs) n h = elim (Bool-cases (contains x t)) [
  | inl has ↦ rw (has, count_texts) (count_texts-Small t xs (u32 (n + 1)) (omega arith))
  | inr lacks ↦ rw (lacks, count_texts) (count_texts-Small t xs n h)
]

collect_counts-Small :
    (xs ts : List Text) (m : HashMap Text ℕ)
    → All (λ e. Small (e.1)) m
    → All (λ e. Small (e.1)) (collect_counts xs ts m)
unfolding collect_counts
collect_counts-Small xs [] m h = h
collect_counts-Small xs (t ∷ ts) m h =
    collect_counts-Small xs ts (HashMap.insert m t (count_texts t xs 0))
      (insert-All Small m t (count_texts t xs 0) h (count_texts-Small t xs 0 (omega arith)))

write_counts-IsSmall :
    (m : HashMap Text ℕ) (s : LocalStateAccess)
    → All (λ e. Small (e.1)) m
    → IsSmall s
    → IsSmall (write_counts local m s)
unfolding write_counts local
write_counts-IsSmall [] s hm h = h
write_counts-IsSmall ((k, v) ∷ m) s (hv, hm) h = elim (Bool-cases (is_positive v)) [
  | inl positive ↦
      rw (positive, write_counts)
        (write_counts-IsSmall m (update s k v) hm (update-IsSmall s k v h hv))
  | inr zero ↦ rw (zero, write_counts) (write_counts-IsSmall m s hm h)
]

pub map_work-IsSmall :
    (a : MapWorkAssignment) (s : LocalStateAccess) → IsSmall s → IsSmall (map_work local a s)
unfolding map_work map_logic
map_work-IsSmall a s h =
    write_counts-IsSmall (map_logic a.chunk a.targets) s
      (collect_counts-Small a.chunk a.targets [] tt) h

sum_i32-Small : (vs : List ℕ) (n : ℕ) → Small n → Small (sum_i32 vs n)
unfolding sum_i32
sum_i32-Small [] n h = h
sum_i32-Small (v ∷ vs) n h = sum_i32-Small vs (u32 (n + v)) (omega arith)

reduce_keys-IsSmall :
    (ks : List Text) (s : LocalStateAccess) → IsSmall s → IsSmall (reduce_keys local ks s)
unfolding reduce_keys local
reduce_keys-IsSmall [] s h = h
reduce_keys-IsSmall (k ∷ ks) s h =
    let v = sum_i32 (get s k) 0 in
    reduce_keys-IsSmall ks (replace s k v)
      (replace-IsSmall s k v h (sum_i32-Small (get s k) 0 (omega arith)))

pub reduce_work-IsSmall :
    (a : ReduceWorkAssignment) (s : LocalStateAccess) → IsSmall s → IsSmall (reduce_work local a s)
unfolding reduce_work
reduce_work-IsSmall a s h = reduce_keys-IsSmall a.keys s h
