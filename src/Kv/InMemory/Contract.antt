-- ===== src/Kv/InMemory/Contract.antt =====
-- The in-memory backend against the storage contract.
use distributed_systems.Prelude.{
  ℕ, zero, suc, ◌+◌, ◌≡◌, refl, Option, none, some, Text, text_eq, arith, u64,
}
use distributed_systems.Prelude.HashMap
use distributed_systems.Kv.Storage.{View, contract_get, verdict, effect, Implements}
use distributed_systems.Kv.InMemory.{InMemoryStorage, get, put, storage, found_or_missing}

unfoldable pub view : InMemoryStorage → View
view s k = HashMap.get s.entries k

abbrev pub Any {ℓ} : {A : Type ℓ} → A → Type 0
Any _ = Unit

get-contract : (o : Option (Text × ℕ)) (k : Text) → found_or_missing o k ≡ contract_get o k
unfolding found_or_missing contract_get
get-contract none k = refl
get-contract (some (v, n)) k = refl

put-verdict : (s : InMemoryStorage) (k v : Text) (n : ℕ) → (put s k v n).1 ≡ verdict (view s k) k n
unfolding put verdict view HashMap.contains_key
put-verdict s k v zero = ground arith
put-verdict s k v (suc n) = ground arith

put-effect :
    (s : InMemoryStorage) (k v : Text) (n : ℕ) (j : Text)
    → view (put s k v n).0 j ≡ effect (verdict (view s k) k n) (view s) k v j
unfolding put verdict view effect HashMap.contains_key
put-effect s k v zero j = ground (arith, HashMap.get-insert s.entries k j (v, 1))
put-effect s k v (suc n) j = ground (arith, HashMap.get-insert s.entries k j (v, u64 (suc n + 1)))

pub in_memory-Implements : Implements storage (Any {A = InMemoryStorage}) (Any {A = Text}) view
unfolding storage
in_memory-Implements = record {
  get_lem = λ s k _ _. unfold view get in get-contract (HashMap.get s.entries k) k;
  put_result = λ s k v n _ _ _. put-verdict s k v n;
  put_view = λ s k v n j _ _ _ _. put-effect s k v n j;
  put_Inv = λ s k v n _ _ _. tt;
}

-- The in-memory storage keeps the contract, with no condition on state, key or value: a get answers
-- the entry of its key, a put answers the verdict on its version, and every key then holds what that
-- verdict leaves there.
pub in_memory_keeps_contract :
    (s : InMemoryStorage) (k v : Text) (n : ℕ)
    → (get s k ≡ contract_get (view s k) k)
      × ((put s k v n).1 ≡ verdict (view s k) k n)
      × ((j : Text) → view (put s k v n).0 j ≡ effect (verdict (view s k) k n) (view s) k v j)
in_memory_keeps_contract s k v n = (
  unfold view get in get-contract (HashMap.get s.entries k) k,
  put-verdict s k v n,
  put-effect s k v n,
)
