-- ===== src/Kv/PutOperation.antt =====
-- key-value-server/core/src/put_operation.rs. The log lines are left out, and so is `op_num`, which
-- only they use.
pub mod Loop
pub mod EndToEnd
pub mod Network
pub mod Recovery
pub mod Rounds
pub mod Once
use distributed_systems.Prelude.{
  ℕ, zero, suc, ◌+◌, Bool, Option, none, some, Text, Result, ok, err, ltb, leb, u32, if◌then◌else◌,
}
use distributed_systems.Kv.Error.{
  ErrorType, not_found, already_exists, mismatch, try_from, GetResult, get_success, GetResponse,
  PutResult, put_success, put_error, PutResponse,
}
use distributed_systems.Kv.Client.{ClientConfig, World}

pub data PutAction : Type 0 where
  retry_with_new_version do_get_for_version return_success return_error network_retry : PutAction

pub record PutOperation : Type 0 where
  pub config : ClientConfig
  pub key : Text
  pub value : Text
  pub version : ℕ
  pub network_retry_count : ℕ
  pub max_retries : ℕ

unfoldable pub new : ClientConfig → Text → Text → ℕ → PutOperation
new config key value max_retries = record {
  config = config;
  key = key;
  value = value;
  version = 0;
  network_retry_count = 0;
  max_retries = max_retries;
}

-- `ErrorType::try_from(error.error_type).unwrap_or(ErrorType::KeyNotFound)`
unfoldable pub known_type : Option ErrorType → ErrorType
known_type none = not_found
known_type (some t) = t

-- the inner `match error_type`; `had` is `had_network_errors`
on_error : ErrorType → Option ℕ → Bool → PutOperation → PutOperation × PutAction
on_error mismatch (some actual) had op =
    if had then (op, return_success) else (record op { version = actual }, retry_with_new_version)
on_error mismatch none had op = (op, return_error)
on_error already_exists actual had op = (op, do_get_for_version)
on_error not_found actual had op = (record op { version = 0 }, retry_with_new_version)

on_result : Option PutResult → Bool → PutOperation → PutOperation × PutAction
unfolding on_error try_from known_type
on_result (some (put_success new_version)) had op = (op, return_success)
on_result (some (put_error e)) had op =
    on_error (known_type (try_from e.error_type)) e.actual_version had op
on_result none had op = (op, return_error)

-- the version that the GET of `DoGetForVersion` yields; 1 if it fails
unfoldable pub version_of : Option GetResult → ℕ
version_of (some (get_success success)) = success.version
version_of _ = 1

module _ {Status : Type 0} where
  unfoldable pub handle_put_response :
      PutOperation → Result PutResponse Status → PutOperation × PutAction
  unfolding on_result
  handle_put_response op (ok response) =
      on_result response.result (ltb 0 op.network_retry_count)
        (record op { network_retry_count = 0 })
  handle_put_response op (err status) = (op, network_retry)

  unfoldable pub fetched_version : Result GetResponse Status → ℕ
  unfolding version_of
  fetched_version (ok response) = version_of response.result
  fetched_version (err status) = 1

-- One round of the loop goes on with a changed operation, or returns.
pub data Turn : Type 0 where
  continue : PutOperation → Turn
  finish : Result (Unit {0}) (Unit {0}) → Turn

abbrev pub count_retry : PutOperation → PutOperation
count_retry op = record op { network_retry_count = u32 (op.network_retry_count + 1) }

abbrev pub retries_spent : PutOperation → Bool
retries_spent op = leb op.max_retries op.network_retry_count

module _ {W Status : Type 0} (env : World W Status) where
  abbrev sleep_after_error : PutOperation → W → W
  sleep_after_error op w = env.sleep w op.config.error_sleep_ms

  -- a request that is lost before it is sent
  lose_request : PutOperation → W → W × Turn
  lose_request op w =
      let op' = count_retry op in
      if retries_spent op'
      then (sleep_after_error op' w, finish (err tt))
      else (sleep_after_error op' w, continue op')

  -- the arm of `NetworkRetry`
  retry_network : PutOperation → W → W × Turn
  retry_network op w =
      let op' = count_retry op in
      let (w', cancelled) = env.is_cancelled w in
      if retries_spent op'
      then (sleep_after_error op' w, finish (err tt))
      else if cancelled
      then (w', finish (err tt))
      else (sleep_after_error op' w', continue op')

  fetch_version : PutOperation → W → W × Turn
  fetch_version op w =
      let (w', response) = env.get w (record { key = op.key }) in
      (w', continue (record op { version = fetched_version response }))

  -- `match action`
  act : PutAction → PutOperation → W → W × Turn
  unfolding retry_network fetch_version fetched_version
  act retry_with_new_version op w = (w, continue op)
  act do_get_for_version op w = fetch_version op w
  act return_success op w = (env.sleep w op.config.success_sleep_ms, finish (ok tt))
  act return_error op w = (sleep_after_error op w, finish (err tt))
  act network_retry op w = retry_network op w

  send_request : PutOperation → W → W × Turn
  unfolding act handle_put_response
  send_request op w =
      let (w', response) =
        env.put w (record { key = op.key; value = op.value; version = op.version }) in
      let (op', action) = handle_put_response op response in act action op' w'

  -- One round of the loop of `execute`.
  unfoldable pub round : PutOperation → W → W × Turn
  unfolding lose_request send_request
  round op w =
      let (w1, cancelled) = env.is_cancelled w in
      let (w2, lost) = env.packet_lost w1 in
      if cancelled
      then (w1, finish (err tt))
      else if lost
      then lose_request op w2
      else send_request op w2

  -- The loop, with one unit of fuel for each round; `none` means that the fuel ran out.
  unfoldable pub execute : ℕ → PutOperation → W → Option (W × Result (Unit {0}) (Unit {0}))
  execute zero op w = none
  execute (suc fuel) op w =
      let (w', turn) = round op w in
      elim turn [ continue op' ↦ execute fuel op' w' | finish result ↦ some (w', result) ]
