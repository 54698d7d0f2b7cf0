-- ===== src/Examples/KeyValue.antt =====
-- The client's operations against an in-memory server.
use distributed_systems.Prelude.{
  ◌+◌, ◌≡◌, refl, Bool, true, false, some, List, [], ◌∷◌, Text, codes, ok, err, arith,
}
use distributed_systems.Prelude.HashMap
use distributed_systems.Kv.Client.{ClientConfig, World}
use distributed_systems.Kv.InMemory.{InMemoryStorage, storage}
use distributed_systems.Kv.InMemory.Contract.{
  in_memory-Implements, in_memory_keeps_contract, view, Any,
}
use distributed_systems.Kv.InMemory
use distributed_systems.Kv.Storage.{contract_get, verdict, effect}
use distributed_systems.Kv.Deployment.{Deployment, deployment, stored}
use distributed_systems.Kv.PutOperation.{PutOperation, new, execute, finish, round}
use distributed_systems.Kv.PutOperation.EndToEnd.{put_succeeds, Wrote}
use distributed_systems.Kv.PutOperation.Network.{gives_up}
use distributed_systems.Kv.PutOperation.Recovery.{
  stale_put_reports_success, lost_create_writes_twice,
}
use distributed_systems.Kv.GetOperation
use distributed_systems.Kv.Stress.{GrpcClient}
use distributed_systems.Kv.GetOperation.{GetOperation}
use distributed_systems.Kv.GetOperation.Pauses.{execute_pauses, pause}

abbrev config : ClientConfig
config = record {
  name = codes "client";
  success_sleep_ms = 100;
  error_sleep_ms = 200;
  keys = codes "k1" ∷ codes "k2" ∷ [];
}

abbrev one_entry : InMemoryStorage
one_entry = record { entries = (codes "k1", (codes "old", 4)) ∷ [] }

-- a deployment over a storage, with the requests and answers that will be lost
abbrev start : InMemoryStorage → List Bool → List Bool → Deployment InMemoryStorage
start s client_losses response_losses = record {
  server = record { inner = record { storage = s } };
  client_losses = client_losses;
  response_losses = response_losses;
  cancelled = false;
  draws = [];
  slept_ms = 0;
}

abbrev env : World (Deployment InMemoryStorage) Text
env = deployment storage (λ message. message)

in_memory_keeps_contract_example :
    (InMemory.get one_entry (codes "k1") ≡ contract_get (view one_entry (codes "k1")) (codes "k1"))
    × ((InMemory.put one_entry (codes "k1") (codes "new") 4).1
        ≡ verdict (view one_entry (codes "k1")) (codes "k1") 4)
    × ((j : Text)
        → view (InMemory.put one_entry (codes "k1") (codes "new") 4).0 j
          ≡ effect
              (verdict (view one_entry (codes "k1")) (codes "k1") 4)
              (view one_entry)
              (codes "k1")
              (codes "new")
              j)
in_memory_keeps_contract_example = in_memory_keeps_contract one_entry (codes "k1") (codes "new") 4

-- The first request is lost, and the key holds version 4.
put_succeeds_example :
    (w' : Deployment InMemoryStorage) × (execute env 3
        (new config (codes "k1") (codes "new") 3)
        (start one_entry (true ∷ []) [])
      ≡ some (w', ok tt))
    × Wrote view (Any {A = Text}) one_entry (stored w') (codes "k1") (codes "new") 5
unfolding view HashMap.get
put_succeeds_example =
    put_succeeds storage (λ message. message) in_memory-Implements 1 0 config (codes "k1")
      (codes "new") 3 (start one_entry (true ∷ []) []) refl refl refl (omega arith) (omega arith) tt
      tt tt (omega arith, omega arith)

-- a world in which every put fails
abbrev unreachable : World (Deployment InMemoryStorage) Text
unreachable = record env { put = λ w request. (w, err (codes "unavailable")) }

gives_up_example :
    (w' : Deployment InMemoryStorage) × (execute unreachable 2
        (new config (codes "k1") (codes "new") 2)
        (start one_entry [] [])
      ≡ some (w', err tt))
gives_up_example =
    gives_up unreachable (λ w request. (codes "unavailable", refl)) config (codes "k1")
      (codes "new") 2 (start one_entry [] []) (omega arith)

-- a put at version 2, of which one request was lost before
abbrev stale : PutOperation
stale = record (new config (codes "k1") (codes "new") 3) { version = 2; network_retry_count = 1 }

stale_put_reports_success_example :
    let (w', turn) = round env stale (start one_entry [] []) in
    (turn ≡ finish (ok tt))
    × ((j : Text) → Any {A = Text} j → view (stored w') j ≡ view one_entry j)
unfolding new
stale_put_reports_success_example =
    stale_put_reports_success storage (λ message. message) in_memory-Implements stale
      (start one_entry [] []) (codes "old") 4
      (record { running = refl; all_sent = refl; all_answered = refl }) tt tt tt (omega arith)
      (omega arith) (unfold view HashMap.get in refl) (λ e. absurd (omega arith))

lost_create_writes_twice_example :
    (w' : Deployment InMemoryStorage) × (execute env 3
        (new config (codes "k2") (codes "new") 2)
        (start one_entry [] (true ∷ []))
      ≡ some (w', ok tt))
    × Wrote view (Any {A = Text}) one_entry (stored w') (codes "k2") (codes "new") 2
lost_create_writes_twice_example =
    lost_create_writes_twice storage (λ message. message) in_memory-Implements 0 config (codes "k2")
      (codes "new") 2 (start one_entry [] (true ∷ [])) refl refl refl (omega arith) (omega arith) tt
      tt tt (unfold view HashMap.get in refl)

abbrev get_k1 : GetOperation
get_k1 = record { config = config; key = codes "k1" }

execute_pauses_example :
    let w' = GetOperation.execute env get_k1 (start one_entry [] []) in
    (stored w' ≡ one_entry) × (w'.slept_ms ≡ 0 + pause false (view one_entry (codes "k1")) config)
execute_pauses_example =
    execute_pauses storage (λ message. message) in_memory-Implements get_k1 (start one_entry [] [])
      tt tt

-- a world whose draws are all 0
abbrev first_key : World (Deployment InMemoryStorage) Text
first_key = record env { random_usize = λ w n. (w, 0) }

abbrev client : GrpcClient
client = record { config = config; max_retries = 3 }
