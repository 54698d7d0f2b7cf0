-- ===== src/Prelude/HashMap/Weigh.antt =====
-- Sums over the values of a map whose keys each stand once.
use distributed_systems.Prelude.Tests.{Eq, Bool-cases}
use distributed_systems.Prelude.HashMap
use distributed_systems.Prelude.HashMap.{HashMap}
use Prim.Native.Nat.{ℕ, ◌+◌}
use mathlib.Core.Path.{◌≡◌, refl}
use mathlib.Core.Logic.{inl, inr}
use mathlib.Core.Option.{none, some}
use mathlib.Core.List.{[], ◌∷◌}
use native.Mathlib.Omega.{arith}

module _ {ℓ} {K V : Type ℓ} where
  abbrev pub weigh : (V → ℕ) → HashMap K V → ℕ
  weigh f [] = 0
  weigh f ((k, v) ∷ m) = f v + weigh f m

module _ {ℓ} {K V : Type ℓ} ⦃e : Eq K⦄ where
  -- Each key stands once.
  abbrev pub IsUnique : HashMap K V → Type ℓ
  IsUnique [] = Unit
  IsUnique ((k, v) ∷ m) = (HashMap.get m k ≡ none) × IsUnique m

  pub insert-IsUnique :
      (m : HashMap K V) (k : K) (v : V) → IsUnique m → IsUnique (HashMap.insert m k v)
  unfolding HashMap.insert
  insert-IsUnique [] k v h = ((unfold HashMap.get in refl), tt)
  insert-IsUnique ((j, w) ∷ m) k v (hj, h) = elim (Bool-cases (e.beq j k)) [
    | inl same ↦ rw same (ground (arith, e.beq_iff j k), h)
    | inr other ↦ rw other (
      ground (arith, HashMap.get-insert m k j v, e.beq_iff j k, e.beq_iff k j),
      insert-IsUnique m k v h,
    )
  ]

  pub remove-IsUnique : (m : HashMap K V) (k : K) → IsUnique m → IsUnique (HashMap.remove m k)
  unfolding HashMap.remove
  remove-IsUnique [] k h = tt
  remove-IsUnique ((j, w) ∷ m) k (hj, h) = elim (Bool-cases (e.beq j k)) [
    | inl same ↦ rw same (remove-IsUnique m k h)
    | inr other ↦ rw other (
      ground (arith, HashMap.get-remove m k j, e.beq_iff j k, e.beq_iff k j),
      remove-IsUnique m k h,
    )
  ]

  -- A new key adds its value's weight.
  pub weigh-insert_new :
      (f : V → ℕ) (m : HashMap K V) (k : K) (v : V)
      → HashMap.get m k ≡ none
      → weigh f (HashMap.insert m k v) ≡ weigh f m + f v
  unfolding HashMap.insert HashMap.get
  weigh-insert_new f [] k v h = omega arith
  weigh-insert_new f ((j, w) ∷ m) k v h = ground (arith, weigh-insert_new f m k v)

  weigh-remove_absent :
      (f : V → ℕ) (m : HashMap K V) (k : K)
      → HashMap.get m k ≡ none
      → weigh f (HashMap.remove m k) ≡ weigh f m
  unfolding HashMap.remove HashMap.get
  weigh-remove_absent f [] k h = refl
  weigh-remove_absent f ((j, w) ∷ m) k h = ground (arith, weigh-remove_absent f m k)

  -- A key that is removed takes its value's weight away.
  pub weigh-remove :
      (f : V → ℕ) (m : HashMap K V) (k : K) (v : V)
      → IsUnique m
      → HashMap.get m k ≡ some v
      → weigh f (HashMap.remove m k) + f v ≡ weigh f m
  unfolding HashMap.remove HashMap.get
  weigh-remove f [] k v u h = cc
  weigh-remove f ((j, w) ∷ m) k v (uj, u) h =
      ground (arith, weigh-remove f m k v u, weigh-remove_absent f m k, e.beq_iff j k)

  pub get-remove_self : (m : HashMap K V) (k : K) → HashMap.get (HashMap.remove m k) k ≡ none
  get-remove_self m k = ground (arith, HashMap.get-remove m k k, e.beq_iff k k)

  -- Replacing a value by one of the same weight changes no sum.
  pub weigh-reinsert :
      (f : V → ℕ) (m : HashMap K V) (k : K) (v w : V)
      → IsUnique m
      → HashMap.get m k ≡ some v
      → f v ≡ f w
      → weigh f (HashMap.insert m k w) ≡ weigh f m
  unfolding HashMap.insert HashMap.get
  weigh-reinsert f [] k v w u h same = cc
  weigh-reinsert f ((j, x) ∷ m) k v w (uj, u) h same = ground (arith, weigh-reinsert f m k v w u)
