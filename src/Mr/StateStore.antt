-- ===== src/Mr/StateStore.antt =====
-- map-reduce/core/src/state_store.rs, the trait `StateStore`, and its local implementation in
-- map-reduce/core/src/in_memory_state_store.rs. Each method holds the mutex throughout. A value is
-- an `i32`, kept as its bit pattern, a number below 2^32.
use distributed_systems.Prelude.{
  Option-cases, inl, inr, ap, ◌∙◌, ℕ, ◌≡◌, refl, Option, none, some, List, [], ◌∷◌, ◌++◌, Text,
  text_beq, text_eq, text_beq_iff, arith, if◌then◌else◌,
}
use distributed_systems.Prelude.HashMap
use distributed_systems.Prelude.HashMap.{HashMap}

-- The trait: a method returns the state that it leaves.
pub record StateStore (S : Type 0) : Type 0 where
  pub initialize : S → List Text → S
  pub update : S → Text → ℕ → S
  pub replace : S → Text → ℕ → S
  pub get : S → Text → List ℕ

-- What the comments of the trait promise: `update` appends, `replace` replaces the whole value,
-- neither touches another key, and a key that was never written has no values.
pub record IsStore {S : Type 0} (st : StateStore S) : Type 0 where
  pub get-initialize :
      (s : S) (ks : List Text) (j : Text) → st.get (st.initialize s ks) j ≡ st.get s j
  pub get-update :
      (s : S) (k : Text) (v : ℕ) (j : Text)
      → st.get (st.update s k v) j ≡ (if text_beq k j then st.get s k ++ v ∷ [] else st.get s j)
  pub get-replace :
      (s : S) (k : Text) (v : ℕ) (j : Text)
      → st.get (st.replace s k v) j ≡ (if text_beq k j then v ∷ [] else st.get s j)

pub record LocalStateAccess : Type 0 where
  pub values : HashMap Text (List ℕ)

unfoldable pub new : LocalStateAccess
new = record { values = [] }

-- `unwrap_or_default`, and the value that `entry(key).or_default()` refers to
or_default : Option (List ℕ) → List ℕ
or_default none = []
or_default (some values) = values

unfoldable pub get : LocalStateAccess → Text → List ℕ
unfolding or_default
get s key = or_default (HashMap.get s.values key)

unfoldable pub update : LocalStateAccess → Text → ℕ → LocalStateAccess
unfolding or_default
update s key value = record {
  values = HashMap.insert s.values key (or_default (HashMap.get s.values key) ++ value ∷ []);
}

unfoldable pub replace : LocalStateAccess → Text → ℕ → LocalStateAccess
replace s key value = record { values = HashMap.insert s.values key (value ∷ []) }

unfoldable pub initialize : LocalStateAccess → List Text → LocalStateAccess
unfolding or_default
initialize s [] = s
initialize s (key ∷ keys) =
    initialize
      (record { values = HashMap.insert s.values key (or_default (HashMap.get s.values key)) }) keys

unfoldable pub local : StateStore LocalStateAccess
local = record { initialize = initialize; update = update; replace = replace; get = get }

-- A key with values is an entry of the map.
pub get-some :
    (s : LocalStateAccess) (k : Text) (v : ℕ) (vs : List ℕ)
    → get s k ≡ v ∷ vs
    → HashMap.get s.values k ≡ some (v ∷ vs)
unfolding get or_default
get-some s k v vs e = elim (Option-cases (HashMap.get s.values k)) [
  | inl gone ↦ absurd (ground (arith, rw (gone, or_default) at e))
  | inr (ws, has) ↦ has ∙ ap some (rw (has, or_default) at e)
]

get-update :
    (s : LocalStateAccess) (k : Text) (v : ℕ) (j : Text)
    → get (update s k v) j ≡ (if text_beq k j then get s k ++ v ∷ [] else get s j)
unfolding get update
get-update s k v j =
    ground (arith, HashMap.get-insert s.values k j (or_default (HashMap.get s.values k) ++ v ∷ []))

get-replace :
    (s : LocalStateAccess) (k : Text) (v : ℕ) (j : Text)
    → get (replace s k v) j ≡ (if text_beq k j then v ∷ [] else get s j)
unfolding get replace
get-replace s k v j = ground (arith, HashMap.get-insert s.values k j (v ∷ []))

get-initialize :
    (s : LocalStateAccess) (ks : List Text) (j : Text) → get (initialize s ks) j ≡ get s j
unfolding get initialize
get-initialize s [] j = refl
get-initialize s (k ∷ ks) j =
    let now = or_default (HashMap.get s.values k) in
    ground (
      arith,
      text_beq_iff k j,
      HashMap.get-insert s.values k j now,
      get-initialize (record { values = HashMap.insert s.values k now }) ks j,
    )

-- The local store does what the trait promises.
pub local-IsStore : IsStore local
unfolding local
local-IsStore = record {
  get-initialize = get-initialize;
  get-update = get-update;
  get-replace = get-replace;
}
