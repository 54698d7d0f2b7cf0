-- ===== src/Kv/History/Chain.antt =====
-- Versions over a whole history of requests.
use distributed_systems.Prelude.{
  ℕ, zero, suc, ◌+◌, ◌<◌, ◌≡◌, refl, Bool, Bool-cases, true, false, inl, inr, Option, none, some,
  List, [], ◌∷◌, ◌++◌, Text, text_beq, text_beq_iff, Result, ok, err, length, arith, ◌==◌,
  if◌then◌else◌, All, ◌≤◌, ◌∙◌, ap,
}
use distributed_systems.Kv.Error.{
  StorageError, key_not_found, key_already_exists, version_mismatch, storage_error, PutRequest,
}
use distributed_systems.Kv.Storage.{Storage, View, verdict, effect, Implements}
use distributed_systems.Kv.Server.{KeyValueServer, put, answer_put}
use distributed_systems.Kv.History.{
  Request, get_of, put_of, Accepted, accepted_result, accepted_of, serve, accepted, serve_all,
  accepted_puts,
}

-- the version of an entry, 0 for a key that is not there
abbrev pub version_of : Option (Text × ℕ) → ℕ
version_of none = 0
version_of (some (_, version)) = version

-- The accepted puts lead from one entry of the key to another: each expected the version that the
-- put before it left, was told the next one, and left its value with it.
abbrev pub IsChain : Option (Text × ℕ) → List Accepted → Option (Text × ℕ) → Type 0
IsChain before [] after = after ≡ before
IsChain before ((expected, value, version) ∷ rest) after =
    (expected ≡ version_of before)
    × (version ≡ expected + 1)
    × IsChain (some (value, version)) rest after

IsChain-append :
    (xs ys : List Accepted) (a b c : Option (Text × ℕ))
    → IsChain a xs b
    → IsChain b ys c
    → IsChain a (xs ++ ys) c
IsChain-append [] ys a b c h k = rw (← h) k
IsChain-append ((e, v, n) ∷ xs) ys a b c (h1, h2, h3) k =
    (h1, h2, IsChain-append xs ys (some (v, n)) b c h3 k)

-- what the verdict on a put adds, and what it leaves at its key
abbrev added : ℕ → Text → Result ℕ StorageError → List Accepted
added n v (ok version) = (n, v, version) ∷ []
added n v (err e) = []

abbrev left : Result ℕ StorageError → Option (Text × ℕ) → Text → Option (Text × ℕ)
left (ok version) entry v = some (v, version)
left (err e) entry v = entry

verdict-IsChain :
    (k v : Text) (n : ℕ) (entry : Option (Text × ℕ))
    → version_of entry < 18446744073709551615
    → IsChain entry (added n v (verdict entry k n)) (left (verdict entry k n) entry v)
      × (version_of (left (verdict entry k n) entry v) ≤ version_of entry + 1)
unfolding verdict
verdict-IsChain k v zero none small = ((refl, refl, refl), omega arith)
verdict-IsChain k v (suc n) none small = (refl, omega arith)
verdict-IsChain k v zero (some (w, c)) small = (refl, omega arith)
verdict-IsChain k v (suc n) (some (w, c)) small = elim (Bool-cases (c == suc n)) [
  | inl same ↦ rw (same, verdict) ((ground arith, ground arith, refl), ground arith)
  | inr other ↦ rw (other, verdict) (refl, omega arith)
]

effect-left :
    (answer : Result ℕ StorageError) (m : View) (k v j : Text)
    → effect answer m k v j ≡ (if text_beq k j then left answer (m j) v else m j)
unfolding effect
effect-left (ok version) m k v j = refl
effect-left (err e) m k v j = ground arith

module _ (Status : Type 0) where
  -- the answer of the server tells which puts the storage accepted
  accepted-answer_put :
      (r : PutRequest) (answer : Result ℕ StorageError)
      → accepted_of {Status = Status} r (ok (record { result = some (answer_put answer r.key) }))
        ≡ added r.version r.value answer
  unfolding accepted_of accepted_result answer_put
  accepted-answer_put r (ok version) = refl
  accepted-answer_put r (err (key_not_found k)) = refl
  accepted-answer_put r (err (key_already_exists k)) = refl
  accepted-answer_put r (err (version_mismatch a b)) = refl
  accepted-answer_put r (err (storage_error m)) = refl

  -- a put of one key, seen at another key or at the same one
  put-IsChain :
      (r : PutRequest) (answer : Result ℕ StorageError) (same : Bool)
      (at_key before after : Option (Text × ℕ))
      → answer ≡ verdict at_key r.key r.version
      → after ≡ (if same then left (verdict at_key r.key r.version) before r.value else before)
      → (same ≡ true → at_key ≡ before)
      → version_of before < 18446744073709551615
      → IsChain before
          (if same
            then accepted_of {Status = Status} r
                (ok (record { result = some (answer_put answer r.key) }))
            else [])
          after
        × (version_of after ≤ version_of before + 1)
  put-IsChain r answer true at_key before after answered leaves here small =
      rw (accepted-answer_put r answer, answered, leaves, here refl)
        (verdict-IsChain r.key r.value r.version before small)
  put-IsChain r answer false at_key before after answered leaves here small =
      rw leaves (refl, omega arith)

module _ {S : Type 0} (Status : Type 0) (st : Storage S) (Inv : S → Type 0) (Clean : Text → Type 0)
    (view : S → View) (implements : Implements st Inv Clean view) where
  abbrev pub IsCleanRequest : Request → Type 0
  IsCleanRequest (get_of request) = Unit {0}
  IsCleanRequest (put_of request) = Clean request.key × Clean request.value

  serve-IsChain :
      (server : KeyValueServer S) (j : Text) (request : Request)
      → Inv server.storage
      → Clean j
      → IsCleanRequest request
      → version_of (view server.storage j) < 18446744073709551615
      → let (server', answer) = serve {Status = Status} st server request in
        Inv server'.storage
        × IsChain (view server.storage j) (accepted j request answer) (view server'.storage j)
        × (version_of (view server'.storage j) ≤ version_of (view server.storage j) + 1)
  unfolding serve accepted put
  serve-IsChain server j (get_of request) inv cj clean small = (inv, refl, omega arith)
  serve-IsChain server j (put_of request) inv cj (ck, cv) small =
      let n = request.version in
      let k = request.key in
      let v = request.value in
      let (chain, bound) =
        put-IsChain Status request ((st.put server.storage k v n).1) (text_beq k j) _ _ _
          (implements.put_result server.storage k v n inv ck cv)
          (implements.put_view server.storage k v n j inv ck cv cj ∙ effect-left _ _ _ _ _)
          (λ same. ap (view server.storage) ((text_beq_iff k j).0 same)) small in
      (implements.put_Inv server.storage k v n inv ck cv, chain, bound)

  -- However the requests of the clients mix, the accepted puts of a key form a chain: each expected
  -- the version that the one before it left, was told the next version, and left its value with it;
  -- the last one's entry is what the key holds at the end. So no version is told twice, and no put
  -- overwrites a value other than the one whose version it named. The storage keeps the contract,
  -- the keys and values are those it takes, and the version cannot pass 2^64 - 1.
  pub serve_all-IsChain :
      (server : KeyValueServer S) (j : Text) (requests : List Request)
      → Inv server.storage
      → Clean j
      → All IsCleanRequest requests
      → version_of (view server.storage j) + length requests ≤ 18446744073709551615
      → let (server', answers) = serve_all {Status = Status} st server requests in
        Inv server'.storage
        × IsChain (view server.storage j) (accepted_puts j answers) (view server'.storage j)
  unfolding serve_all accepted_puts
  serve_all-IsChain server j [] inv cj clean small = (inv, refl)
  serve_all-IsChain server j (request ∷ requests) inv cj (c, cs) small =
      let (inv1, chain, bound) = serve-IsChain server j request inv cj c (omega (arith, small)) in
      let (inv2, chains) =
        serve_all-IsChain (serve {Status = Status} st server request).0 j requests inv1 cj cs
          (omega (arith, small, bound)) in
      (inv2, IsChain-append (accepted j request (serve st server request).1) _ _ _ _ chain chains)
