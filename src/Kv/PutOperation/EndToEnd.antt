-- ===== src/Kv/PutOperation/EndToEnd.antt =====
-- A whole put, from the client through the server to a storage that keeps the contract.
use native.Mathlib.Nat.{zero-add, suc-add}
use distributed_systems.Prelude.{
  ℕ, zero, suc, ◌+◌, ◌<◌, ◌≡◌, refl, ◌∙◌, ap, true, false, Option, none, some, [], Option-cases,
  inl, inr, replicate, Text, text_beq, text_beq_iff, ok, err, arith,
}
use distributed_systems.Kv.Error.{key_already_exists}
use distributed_systems.Kv.Storage.{Storage, View, verdict, contract_get, effect, Implements}
use distributed_systems.Kv.Client.{ClientConfig, World}
use distributed_systems.Kv.Deployment.{Deployment, deployment, stored, next_loss}
use distributed_systems.Kv.PutOperation.{PutOperation, new, continue, round, execute, count_retry}
use distributed_systems.Kv.PutOperation.Loop.{execute-finish, execute-continue}
use distributed_systems.Kv.PutOperation.Rounds.{
  IsQuiet, round-stored, round-delivered, round-IsQuiet, round-lost,
}

-- Versions start at 1, and one more write does not wrap around.
abbrev pub IsVersioned : Option (Text × ℕ) → Type 0
IsVersioned none = Unit
IsVersioned (some (v, n)) = (0 < n) × (n + 1 < 18446744073709551616)

abbrev pub next_version : Option (Text × ℕ) → ℕ
next_version none = 1
next_version (some (v, n)) = n + 1

pub verdict-current :
    (k old : Text) (n : ℕ) → IsVersioned (some (old, n)) → verdict (some (old, n)) k n ≡ ok (n + 1)
unfolding verdict
verdict-current k old zero h = absurd (omega arith)
verdict-current k old (suc n) h = ground arith

-- `key` holds `value` at `version`, and no other key has changed.
pub record Wrote {S : Type 0} (view : S → View) (Clean : Text → Type 0) (s s' : S)
    (key value : Text) (version : ℕ) : Type 0 where
  pub here : view s' key ≡ some (value, version)
  pub others : (j : Text) → Clean j → text_beq key j ≡ false → view s' j ≡ view s j

module _ {S Status : Type 0} (st : Storage S) (deadline_exceeded : Text → Status) {Inv : S → Type 0}
    {Clean : Text → Type 0} {view : S → View} (laws : Implements st Inv Clean view) where
  pub put-Wrote :
      (s : S) (k v : Text) (n version : ℕ)
      → Inv s
      → Clean k
      → Clean v
      → verdict (view s k) k n ≡ ok version
      → Wrote view Clean s (st.put s k v n).0 k v version
  unfolding effect
  put-Wrote s k v n version inv ck cv accepted = record {
    here = laws.put_view s k v n k inv ck cv ck ∙ rw (accepted, (text_beq_iff k k).1 refl);
    others = λ j cj ne. laws.put_view s k v n j inv ck cv cj ∙ rw (accepted, ne);
  }

  abbrev pub env : World (Deployment S) Status
  env = deployment st deadline_exceeded

  -- The storage accepts the put: the round ends the operation.
  quiet_accepted :
      (fuel : ℕ) (op : PutOperation) (w : Deployment S) (version : ℕ)
      → IsQuiet w
      → Inv (stored w)
      → Clean op.key
      → Clean op.value
      → verdict (view (stored w) op.key) op.key op.version ≡ ok version
      → (w' : Deployment S) × (execute env (suc fuel) op w ≡ some (w', ok tt))
        × Wrote view Clean (stored w) (stored w') op.key op.value version
  quiet_accepted fuel op w version q inv ck cv accepted =
      let sent : (next_loss w.client_losses).0 ≡ false = rw q.all_sent in
      let arrives : (next_loss w.response_losses).0 ≡ false = rw q.all_answered in
      (
        (round env op w).0,
        execute-finish env fuel op w (
            round-delivered st deadline_exceeded op w q.running sent arrives
            ∙ rw (laws.put_result (stored w) op.key op.value op.version inv ck cv, accepted)),
        rw (round-stored st deadline_exceeded op w q.running sent)
            (put-Wrote (stored w) op.key op.value op.version version inv ck cv accepted),
      )

  -- The first round of a put to a key that is there learns its version and writes nothing.
  quiet_refused :
      (op : PutOperation) (w : Deployment S) (old : Text) (n : ℕ)
      → IsQuiet w
      → Inv (stored w)
      → Clean op.key
      → Clean op.value
      → op.version ≡ 0
      → view (stored w) op.key ≡ some (old, n)
      → ((round env op w).1 ≡ continue (record op { version = n; network_retry_count = 0 }))
        × ((j : Text) → Clean j → view (stored (round env op w).0) j ≡ view (stored w) j)
        × Inv (stored (round env op w).0)
  quiet_refused op w old n q inv ck cv fresh present =
      let refused : verdict (view (stored w) op.key) op.key op.version
          ≡ err (key_already_exists op.key) =
        unfold verdict in rw (present, fresh) in
      let after = (st.put (stored w) op.key op.value op.version).0 in
      let same : (j : Text) → Clean j → view after j ≡ view (stored w) j = λ j cj.
        laws.put_view (stored w) op.key op.value op.version j inv ck cv cj
        ∙ rw refused (unfold effect in refl) in
      let inv' = laws.put_Inv (stored w) op.key op.value op.version inv ck cv in
      let sent : (next_loss w.client_losses).0 ≡ false = rw q.all_sent in
      let arrives : (next_loss w.response_losses).0 ≡ false = rw q.all_answered in
      (
        round-delivered st deadline_exceeded op w q.running sent arrives
            ∙ rw (laws.put_result (stored w) op.key op.value op.version inv ck cv, refused)
                (rw (laws.get_lem after op.key inv' ck, same op.key ck, present)
                  (unfold contract_get in refl)),
        rw (round-stored st deadline_exceeded op w q.running sent) same,
        rw (round-stored st deadline_exceeded op w q.running sent) inv',
      )

  pub quiet_existing :
      (fuel : ℕ) (op : PutOperation) (w : Deployment S) (old : Text) (n : ℕ)
      → IsQuiet w
      → Inv (stored w)
      → Clean op.key
      → Clean op.value
      → op.version ≡ 0
      → view (stored w) op.key ≡ some (old, n)
      → IsVersioned (some (old, n))
      → (w' : Deployment S) × (execute env (suc (suc fuel)) op w ≡ some (w', ok tt))
        × Wrote view Clean (stored w) (stored w') op.key op.value (n + 1)
  quiet_existing fuel op w old n q inv ck cv fresh present versioned =
      let (learned, same, inv') = quiet_refused op w old n q inv ck cv fresh present in
      let (w', done, wrote) =
        quiet_accepted fuel (record op { version = n; network_retry_count = 0 }) (round env op w).0
          (n + 1) (round-IsQuiet st deadline_exceeded op w q) inv' ck cv
          (rw (same op.key ck, present) (verdict-current op.key old n versioned)) in
      (
        w',
        execute-continue env (suc fuel) op w learned ∙ done,
        record { here = wrote.here; others = λ j cj ne. wrote.others j cj ne ∙ same j cj },
      )

  -- From version 0: one round creates the key, two rounds update it.
  quiet_put :
      (fuel : ℕ) (op : PutOperation) (w : Deployment S)
      → IsQuiet w
      → Inv (stored w)
      → Clean op.key
      → Clean op.value
      → op.version ≡ 0
      → IsVersioned (view (stored w) op.key)
      → (w' : Deployment S) × (execute env (suc (suc fuel)) op w ≡ some (w', ok tt))
        × Wrote view Clean
            (stored w)
            (stored w')
            op.key
            op.value
            (next_version (view (stored w) op.key))
  unfolding verdict
  quiet_put fuel op w q inv ck cv fresh versioned = elim (Option-cases (view (stored w) op.key)) [
    | inl absent ↦ rw absent (quiet_accepted (suc fuel) op w 1 q inv ck cv (rw (absent, fresh)))
    | inr ((old, n), present) ↦
        rw present
          (quiet_existing fuel op w old n q inv ck cv fresh present (rw present at versioned))
  ]

  lossy_put :
      (k fuel : ℕ) (op : PutOperation) (w : Deployment S)
      → w.cancelled ≡ false
      → w.client_losses ≡ replicate k true
      → w.response_losses ≡ []
      → op.network_retry_count + k < op.max_retries
      → op.max_retries < 4294967296
      → Inv (stored w)
      → Clean op.key
      → Clean op.value
      → op.version ≡ 0
      → IsVersioned (view (stored w) op.key)
      → (w' : Deployment S) × (execute env (k + suc (suc fuel)) op w ≡ some (w', ok tt))
        × Wrote view Clean
            (stored w)
            (stored w')
            op.key
            op.value
            (next_version (view (stored w) op.key))
  lossy_put zero fuel op w running sent answered few fits inv ck cv fresh versioned = rw zero-add (
      quiet_put fuel op w (record { running = running; all_sent = sent; all_answered = answered })
        inv ck cv fresh versioned)
  lossy_put (suc k) fuel op w running lost answered few fits inv ck cv fresh versioned =
      let w1 = record w {
        client_losses = replicate k true;
        slept_ms = w.slept_ms + op.config.error_sleep_ms;
      } in
      let first =
        round-lost st deadline_exceeded op w (replicate k true) running lost (omega arith) fits in
      let (w', done, wrote) =
        lossy_put k fuel (count_retry op) w1 running refl answered (omega arith) fits inv ck cv
          fresh versioned in
      (
        w',
        rw suc-add
            (execute-continue env (k + suc (suc fuel)) op w (ap (λ t. t.1) first) ∙ rw first done),
        wrote,
      )

  -- A new put whose first `k` requests are lost before they are sent, `k` below `max_retries`, and
  -- whose later messages all arrive, returns `Ok` after at most `k + 2` rounds. It has then written
  -- its value, once: the version is 1 for a new key and one more than before for an old one, and no
  -- other key has changed. The storage keeps the contract, holds a version that is not 0 and can
  -- grow, and nobody cancels.
  pub put_succeeds :
      (k fuel : ℕ) (config : ClientConfig) (key value : Text) (max_retries : ℕ) (w : Deployment S)
      → w.cancelled ≡ false
      → w.client_losses ≡ replicate k true
      → w.response_losses ≡ []
      → k < max_retries
      → max_retries < 4294967296
      → Inv (stored w)
      → Clean key
      → Clean value
      → IsVersioned (view (stored w) key)
      → (w' : Deployment S) × (execute env (k + suc (suc fuel)) (new config key value max_retries) w
          ≡ some (w', ok tt))
        × Wrote view Clean (stored w) (stored w') key value (next_version (view (stored w) key))
  unfolding new
  put_succeeds k fuel config key value max_retries w running lost answered few fits inv ck cv h =
      lossy_put k fuel (new config key value max_retries) w running lost answered (omega arith) fits
        inv ck cv refl h
