-- ===== src/Kv/PutOperation/Rounds.antt =====
-- A round against the server of a deployment: what the operation goes on with, by what the storage
-- answers to its put.
use distributed_systems.Prelude.{
  ℕ, ◌+◌, ◌<◌, ◌≡◌, Bool, true, false, List, [], ◌∷◌, Text, Result, ok, err, arith, ltb,
}
use distributed_systems.Kv.Error.{
  StorageError, key_not_found, key_already_exists, version_mismatch, storage_error,
}
use distributed_systems.Kv.Storage.{Storage}
use distributed_systems.Kv.Deployment.{Deployment, deployment, stored, next_loss}
use distributed_systems.Kv.PutOperation.{PutOperation, Turn, continue, finish, round, count_retry}

abbrev answered : PutOperation → PutOperation
answered op = record op { network_retry_count = 0 }

-- the version that a GET leaves in the operation
abbrev refetched : Result (Text × ℕ) StorageError → ℕ
refetched (ok (_, version)) = version
refetched (err e) = 1

-- how a put whose answer arrives ends its round; `had` tells whether the round before it failed
abbrev pub delivered :
    Result ℕ StorageError → Result (Text × ℕ) StorageError → Bool → PutOperation → Turn
delivered (ok version) fetched had op = finish (ok tt)
delivered (err (key_already_exists k)) fetched had op =
    continue (record op { version = refetched fetched; network_retry_count = 0 })
delivered (err (version_mismatch expected actual)) fetched true op = finish (ok tt)
delivered (err (version_mismatch expected actual)) fetched false op =
    continue (record op { version = actual; network_retry_count = 0 })
delivered (err (key_not_found k)) fetched had op =
    continue (record op { version = 0; network_retry_count = 0 })
delivered (err (storage_error msg)) fetched had op =
    continue (record op { version = 0; network_retry_count = 0 })

module _ {S Status : Type 0} (st : Storage S) (deadline_exceeded : Text → Status)
    (op : PutOperation) (w : Deployment S) (running : w.cancelled ≡ false)
    (sent : (next_loss w.client_losses).0 ≡ false) where
  -- Whatever becomes of the answer, the put has been applied to the storage.
  pub round-stored :
      stored (round (deployment st deadline_exceeded) op w).0
      ≡ (st.put (stored w) op.key op.value op.version).0
  unfolding round deployment
  round-stored = rw (running, sent) (ground arith)

  pub round-delivered :
      (next_loss w.response_losses).0 ≡ false
      → (round (deployment st deadline_exceeded) op w).1
        ≡ delivered
            (st.put (stored w) op.key op.value op.version).1
            (st.get (st.put (stored w) op.key op.value op.version).0 op.key)
            (ltb 0 op.network_retry_count)
            op
  unfolding round deployment
  round-delivered arrives = rw (running, sent, arrives) (ground arith)

-- Nothing is lost from here on, and nobody cancels.
pub record IsQuiet {S : Type 0} (w : Deployment S) : Type 0 where
  pub running : w.cancelled ≡ false
  pub all_sent : w.client_losses ≡ []
  pub all_answered : w.response_losses ≡ []

module _ {S Status : Type 0} (st : Storage S) (deadline_exceeded : Text → Status)
    (op : PutOperation) (w : Deployment S) where
  pub round-IsQuiet : IsQuiet w → IsQuiet (round (deployment st deadline_exceeded) op w).0
  unfolding round deployment
  round-IsQuiet q = rw (q.running, q.all_sent) (rw q.all_answered (ground arith))

  -- A round whose request is lost, with retries left, waits and changes nothing else.
  pub round-lost :
      (rest : List Bool)
      → w.cancelled ≡ false
      → w.client_losses ≡ true ∷ rest
      → op.network_retry_count + 1 < op.max_retries
      → op.max_retries < 4294967296
      → round (deployment st deadline_exceeded) op w ≡ (
        record w { client_losses = rest; slept_ms = w.slept_ms + op.config.error_sleep_ms },
        continue (count_retry op),
      )
  unfolding round deployment
  round-lost rest running lost left fits = rw (running, lost) (ground arith)

module _ {S Status : Type 0} (st : Storage S) (deadline_exceeded : Text → Status)
    (op : PutOperation) (w : Deployment S) (running : w.cancelled ≡ false)
    (sent : (next_loss w.client_losses).0 ≡ false)
    (dropped : (next_loss w.response_losses).0 ≡ true) where
  -- A round whose answer is dropped, with retries left, is a network error.
  pub round-dropped :
      op.network_retry_count + 1 < op.max_retries
      → op.max_retries < 4294967296
      → (round (deployment st deadline_exceeded) op w).1 ≡ continue (count_retry op)
  unfolding round deployment
  round-dropped left fits = rw (running, sent, dropped) (ground arith)

  -- It uses up the schedules' next entries.
  pub round-dropped-schedules :
      op.network_retry_count + 1 < op.max_retries
      → op.max_retries < 4294967296
      → let w' = (round (deployment st deadline_exceeded) op w).0 in
        (w'.cancelled ≡ false)
        × (w'.client_losses ≡ (next_loss w.client_losses).1)
        × (w'.response_losses ≡ (next_loss w.response_losses).1)
  unfolding round deployment
  round-dropped-schedules left fits = rw (running, sent, dropped) (ground arith)
