-- ===== src/Kv/Server.antt =====
-- key-value-server/core/src/key_value_server.rs, over any storage, and
-- key-value-server/core/src/packet_loss_wrapper.rs. `Status` is tonic's type of failed calls, and
-- `deadline_exceeded` its constructor for a timeout.
use distributed_systems.Prelude.{
  ℕ, ◌++◌, Bool, none, some, Text, codes, Result, ok, err, if◌then◌else◌,
}
use distributed_systems.Prelude.Decimal.{format}
use distributed_systems.Kv.Error.{
  StorageError, key_not_found, key_already_exists, version_mismatch, quote_key, to_string,
  not_found, already_exists, mismatch, as_i32, GetRequest, PutRequest, GetResult, get_success,
  get_error, GetResponse, put_success, put_error, PutResult, PutResponse,
}
use distributed_systems.Kv.Storage.{Storage}

-- `struct KeyValueServer`
pub record KeyValueServer (S : Type 0) : Type 0 where
  pub storage : S

answer_get : Result (Text × ℕ) StorageError → Text → GetResult
answer_get (ok (value, version)) key = get_success (record { value = value; version = version })
answer_get (err (key_not_found _)) key =
    get_error
      (record { error_type = as_i32 not_found; message = quote_key key (codes "not found") })
answer_get (err e) key = get_error (record { error_type = as_i32 not_found; message = to_string e })

unfoldable pub answer_put : Result ℕ StorageError → Text → PutResult
answer_put (ok new_version) key = put_success new_version
answer_put (err (key_already_exists _)) key = put_error (record {
  error_type = as_i32 already_exists;
  message = quote_key key (codes "already exists");
  actual_version = none;
})
answer_put (err (version_mismatch expected actual)) key = put_error (record {
  error_type = as_i32 mismatch;
  message =
      codes "Version mismatch: expected " ++ format actual ++ codes ", got " ++ format expected;
  actual_version = some actual;
})
answer_put (err (key_not_found _)) key = put_error (record {
  error_type = as_i32 not_found;
  message = quote_key key (codes "not found");
  actual_version = none;
})
answer_put (err e) key =
    put_error
      (record { error_type = as_i32 not_found; message = to_string e; actual_version = none })

module _ {S Status : Type 0} (st : Storage S) where
  unfoldable pub get : KeyValueServer S → GetRequest → Result GetResponse Status
  unfolding answer_get as_i32
  get server request =
      let key = request.key in
      ok (record { result = some (answer_get (st.get server.storage key) key) })

  unfoldable pub put : KeyValueServer S → PutRequest → KeyValueServer S × Result PutResponse Status
  unfolding answer_put as_i32
  put server req =
      let (storage', answer) = st.put server.storage req.key req.value req.version in
      (record { storage = storage' }, ok (record { result = some (answer_put answer req.key) }))

-- `struct PacketLossWrapper`. `lost` is what `fastrand::f32() < self.loss_rate` gives in a call: a
-- drop is drawn afresh in each put, so it is an argument of the call and the rate is left out.
pub record PacketLossWrapper (S : Type 0) : Type 0 where
  pub inner : KeyValueServer S

-- `?` on the inner call, and then the drop.
drop_response : {A Status : Type 0} → (Text → Status) → Bool → Result A Status → Result A Status
drop_response deadline_exceeded lost (err status) = err status
drop_response deadline_exceeded lost (ok response) =
    if lost then err (deadline_exceeded (codes "simulated packet loss")) else ok response

module _ {S Status : Type 0} (st : Storage S) (deadline_exceeded : Text → Status) where
  unfoldable pub wrapper_get : PacketLossWrapper S → GetRequest → Result GetResponse Status
  unfolding get
  wrapper_get w request = get st w.inner request

  unfoldable pub wrapper_put :
      Bool → PacketLossWrapper S → PutRequest → PacketLossWrapper S × Result PutResponse Status
  unfolding put drop_response
  wrapper_put lost w request =
      let (inner', response) = put st w.inner request in
      (record { inner = inner' }, drop_response deadline_exceeded lost response)
