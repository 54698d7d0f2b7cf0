-- ===== src/Kv/PutOperation/Once.antt =====
-- A put on a network that loses nothing, with other clients that write between its requests.
use distributed_systems.Prelude.{
  ℕ, suc, ◌+◌, ◌≤◌, ◌<◌, ◌⊎◌, ◌≡◌, ◌≢◌, false, Option, some, Text, ok, err,
}
use distributed_systems.Kv.Error.{
  ErrorType, not_found, already_exists, mismatch, try_from, GetRequest, PutRequest, PutResult,
  put_success, put_error,
}
use distributed_systems.Kv.Client.{World}
use distributed_systems.Kv.PutOperation.{
  PutOperation, known_type, fetched_version, Turn, continue, finish, execute,
}

-- The `ErrorType` of a refusal says what is wrong with the version: none is stored, one is stored
-- where none is expected, or another one is.
abbrev Refuses : ℕ → ℕ → ErrorType → Option ℕ → Type 0
Refuses expected stored not_found actual = stored ≡ 0
Refuses expected stored already_exists actual = 0 < stored
Refuses expected stored mismatch actual = actual ≡ some stored

module _ {W Status : Type 0} (env : World W Status) (key : Text)
    (stored accepted rivals : W → ℕ) where
  -- `stored` is the version of the key, 0 for none; `accepted` counts the puts of this client that
  -- were accepted, and `rivals` bounds those of other clients that are still to come.
  pub record Calm (w w' : W) : Type 0 where
    pub accepted_same : accepted w' ≡ accepted w
    pub stored_same : (rivals w' < rivals w) ⊎ ((stored w' ≡ stored w) × (rivals w' ≤ rivals w))

  -- The answer to a put with the version `expected`, by the version that the server has stored.
  abbrev pub Verdict : ℕ → PutResult → W → W → Type 0
  Verdict expected (put_success version) w w' =
      (expected ≡ stored w) × (accepted w' ≡ accepted w + 1)
  Verdict expected (put_error e) w w' =
      (expected ≢ stored w)
      × Refuses expected (stored w) (known_type (try_from e.error_type)) e.actual_version
      × Calm w w'

  -- Every request arrives and is answered, nobody cancels, and the server compares versions. Other
  -- clients may write during any call.
  pub record IsLossless : Type 0 where
    pub answered :
        (w : W) (r : PutRequest)
        → r.key ≡ key
        → (v : W) × (result : PutResult) × Calm w v
          × ((env.put w r).1 ≡ ok (record { result = some result }))
          × Verdict r.version result v (env.put w r).0
    pub found :
        (w : W) (r : GetRequest)
        → r.key ≡ key
        → (v : W) × Calm w v
          × Calm v (env.get w r).0
          × (0 < stored v → (fetched_version (env.get w r).1) ≡ stored v)
    pub not_lost : (w : W) → (env.packet_lost w).1 ≡ false
    pub not_cancelled : (w : W) → (env.is_cancelled w).1 ≡ false
    pub after_cancelled : (w : W) → Calm w (env.is_cancelled w).0
    pub after_lost : (w : W) → Calm w (env.packet_lost w).0
    pub after_sleep : (w : W) (ms : ℕ) → Calm w (env.sleep w ms)

  -- The operation is about the key, has no network error behind it, and either has the version that
  -- is stored or another client has written since `rivals` was at most `n`.
  pub record IsUpToDate (n : ℕ) (op : PutOperation) (w : W) : Type 0 where
    pub same_key : op.key ≡ key
    pub fresh : op.network_retry_count ≡ 0
    pub current : (rivals w < n) ⊎ ((op.version ≡ stored w) × (rivals w ≤ n))

  -- A round ends the put with one more accepted write, or brings it up to date again, with a lower
  -- bound on the writes that may still come in between.
  abbrev Brought : ℕ → W → W × Turn → Type 0
  Brought m w (w', continue op) = IsUpToDate m op w' × (accepted w' ≡ accepted w)
  Brought m w (w', finish r) = ⊥

  abbrev Turned : ℕ → W → W × Turn → Type 0
  Turned n w (w', continue op) =
      (m : ℕ) × (n ≡ suc m) × IsUpToDate m op w' × (accepted w' ≡ accepted w)
  Turned n w (w', finish (ok _)) = accepted w' ≡ accepted w + 1
  Turned n w (w', finish (err _)) = ⊥

  module _ (net : IsLossless) where
    abbrev Returns : ℕ → PutOperation → W → Type 0
    Returns fuel op w =
        (w' : W) × (execute env fuel op w ≡ some (w', ok tt)) × (accepted w' ≡ accepted w + 1)
