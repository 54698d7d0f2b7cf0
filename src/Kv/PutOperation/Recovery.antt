-- ===== src/Kv/PutOperation/Recovery.antt =====
-- The recovery detection of `handle_put_response`: what `Ok` means after a network error.
use distributed_systems.Prelude.{
  ℕ, zero, suc, ◌<◌, ◌≡◌, ◌≢◌, refl, ◌∙◌, true, false, none, some, [], ◌∷◌, Text, ok, err, arith,
  ltb,
}
use distributed_systems.Kv.Error.{version_mismatch}
use distributed_systems.Kv.Storage.{Storage, View, verdict, effect, Implements}
use distributed_systems.Kv.Client.{ClientConfig}
use distributed_systems.Kv.Deployment.{Deployment, deployment, stored, next_loss}
use distributed_systems.Kv.PutOperation.{PutOperation, new, finish, round, execute, count_retry}
use distributed_systems.Kv.PutOperation.Loop.{execute-continue}
use distributed_systems.Kv.PutOperation.Rounds.{
  IsQuiet, round-stored, round-delivered, round-dropped, round-dropped-schedules,
}
use distributed_systems.Kv.PutOperation.EndToEnd.{Wrote, put-Wrote, quiet_existing}

verdict-stale :
    (k held : Text) (current n : ℕ)
    → 0 < n
    → current ≢ n
    → verdict (some (held, current)) k n ≡ err (version_mismatch n current)
unfolding verdict
verdict-stale k held current zero h ne = absurd (omega arith)
verdict-stale k held current (suc n) h ne = ground arith

module _ {S Status : Type 0} (st : Storage S) (deadline_exceeded : Text → Status) {Inv : S → Type 0}
    {Clean : Text → Type 0} {view : S → View} (laws : Implements st Inv Clean view) where
  -- After a network error of any kind, a request that was never sent included, a put with a stale
  -- version returns `Ok`, and the storage keeps what it held: the value is not written.
  pub stale_put_reports_success :
      (op : PutOperation) (w : Deployment S) (held : Text) (current : ℕ)
      → IsQuiet w
      → Inv (stored w)
      → Clean op.key
      → Clean op.value
      → 0 < op.network_retry_count
      → 0 < op.version
      → view (stored w) op.key ≡ some (held, current)
      → current ≢ op.version
      → let (w', turn) = round (deployment st deadline_exceeded) op w in
        (turn ≡ finish (ok tt)) × ((j : Text) → Clean j → view (stored w') j ≡ view (stored w) j)
  stale_put_reports_success op w held current q inv ck cv failed versioned present stale =
      let refused : verdict (view (stored w) op.key) op.key op.version
          ≡ err (version_mismatch op.version current) =
        rw present (verdict-stale op.key held current op.version versioned stale) in
      let sent : (next_loss w.client_losses).0 ≡ false = rw q.all_sent in
      let arrives : (next_loss w.response_losses).0 ≡ false = rw q.all_answered in
      let had : ltb 0 op.network_retry_count ≡ true = ground arith in
      (
        round-delivered st deadline_exceeded op w q.running sent arrives
            ∙ rw (laws.put_result (stored w) op.key op.value op.version inv ck cv, refused, had),
        rw (round-stored st deadline_exceeded op w q.running sent) (λ j cj.
            laws.put_view (stored w) op.key op.value op.version j inv ck cv cj
            ∙ rw refused (unfold effect in refl)),
      )

  -- A new put to a key that is not there, whose first answer is dropped, writes its value twice: it
  -- returns `Ok` after three rounds, with the key at version 2 and no other key changed.
  pub lost_create_writes_twice :
      (fuel : ℕ) (config : ClientConfig) (key value : Text) (max_retries : ℕ) (w : Deployment S)
      → w.cancelled ≡ false
      → w.client_losses ≡ []
      → w.response_losses ≡ true ∷ []
      → 1 < max_retries
      → max_retries < 4294967296
      → Inv (stored w)
      → Clean key
      → Clean value
      → view (stored w) key ≡ none
      → (w' : Deployment S) × (execute
            (deployment st deadline_exceeded)
            (suc (suc (suc fuel)))
            (new config key value max_retries)
            w
          ≡ some (w', ok tt))
        × Wrote view Clean (stored w) (stored w') key value 2
  unfolding new
  lost_create_writes_twice fuel config key value max_retries w running sent dropped more fits inv ck
        cv absent =
      let op = new config key value max_retries in
      let w1 = (round (deployment st deadline_exceeded) op w).0 in
      let sends : (next_loss w.client_losses).0 ≡ false = rw sent in
      let drops : (next_loss w.response_losses).0 ≡ true = rw dropped in
      let kept = round-stored st deadline_exceeded op w running sends in
      let (running', sent', answered') =
        round-dropped-schedules st deadline_exceeded op w running sends drops (omega arith) fits in
      let created =
        put-Wrote st deadline_exceeded laws (stored w) key value 0 1 inv ck cv
          (rw absent (unfold verdict in refl)) in
      let (w', done, wrote) =
        quiet_existing st deadline_exceeded laws fuel (count_retry op) w1 value 1
          (record {
            running = running';
            all_sent = sent' ∙ rw sent;
            all_answered = answered' ∙ rw dropped;
          })
          (rw kept (laws.put_Inv (stored w) key value 0 inv ck cv)) ck cv refl
          (rw kept created.here) (omega arith) in
      (
        w',
        execute-continue (deployment st deadline_exceeded) (suc (suc fuel)) op w
              (round-dropped st deadline_exceeded op w running sends drops (omega arith) fits)
            ∙ done,
        record {
          here = wrote.here;
          others = λ j cj ne. wrote.others j cj ne ∙ rw kept (created.others j cj ne);
        },
      )
