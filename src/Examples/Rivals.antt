-- ===== src/Examples/Rivals.antt =====
-- A put among other clients: the server refuses it while they write, and then accepts it.
use distributed_systems.Prelude.{
  ℕ, zero, suc, ◌+◌, true, false, some, [], ◌∷◌, Text, codes, Result, ok, ◌==◌, if◌then◌else◌,
  nat_eq,
}
use distributed_systems.Kv.Error.{
  ErrorType, as_i32, not_found, already_exists, mismatch, GetResult, get_success, get_error,
  PutRequest, PutResult, put_success, put_error, PutResponse,
}
use distributed_systems.Kv.Client.{ClientConfig, World}
use distributed_systems.Kv.PutOperation
use distributed_systems.Kv.PutOperation.Once.{Calm}

-- The version of the one key, how often the others still write, and how often this client has
-- written. Another client writes just before each request of this one.
record Contest : Type 0 where
  version : ℕ
  left : ℕ
  written : ℕ

abbrev write_first : ℕ → ℕ → ℕ → Contest
write_first version zero written = record { version = version; left = 0; written = written }
write_first version (suc n) written = record { version = version + 1; left = n; written = written }

abbrev arrive : Contest → Contest
arrive w = write_first w.version w.left w.written

abbrev refusal : ErrorType → ℕ → PutResult
refusal t stored =
    put_error (record { error_type = as_i32 t; message = []; actual_version = some stored })

abbrev serve_put : ℕ → Contest → Contest × PutResult
serve_put expected w =
    if expected == w.version
    then (
      record w { version = w.version + 1; written = w.written + 1 },
      put_success (w.version + 1),
    )
    else if w.version == 0
    then (w, refusal not_found w.version)
    else if expected == 0
    then (w, refusal already_exists w.version)
    else (w, refusal mismatch w.version)

abbrev serve_get : ℕ → GetResult
serve_get zero = get_error (record { error_type = as_i32 not_found; message = [] })
serve_get (suc n) = get_success (record { value = []; version = suc n })

abbrev answer_put : PutRequest → Contest → Contest × Result PutResponse Text
answer_put r w =
    let (w', result) = serve_put r.version (arrive w) in (w', ok (record { result = some result }))

abbrev rival_world : World Contest Text
rival_world = record {
  get = λ w r. (arrive w, ok (record { result = some (serve_get (arrive w).version) }));
  put = λ w r. answer_put r w;
  is_cancelled = λ w. (w, false);
  packet_lost = λ w. (w, false);
  random_usize = λ w n. (w, 0);
  random_bool = λ w. (w, true);
  random_u32 = λ w. (w, 0);
  sleep = λ w ms. w;
}

abbrev IsCalm : Contest → Contest → Type 0
IsCalm = Calm rival_world (codes "a") (λ v. v.version) (λ v. v.written) (λ v. v.left)

abbrev client : ClientConfig
client = record {
  name = codes "c";
  success_sleep_ms = 1;
  error_sleep_ms = 1;
  keys = codes "a" ∷ [];
}
