-- ===== src/Examples/Runs.antt =====
-- Runs of the server runner over the in-memory storage, and a history of requests.
use distributed_systems.Prelude.{
  ℕ, ◌≡◌, refl, true, some, List, [], ◌∷◌, Text, codes, text_eq, arith,
}
use distributed_systems.Prelude.HashMap
use distributed_systems.Kv.Client.{ClientConfig}
use distributed_systems.Kv.Server
use distributed_systems.Kv.InMemory
use distributed_systems.Kv.InMemory.{InMemoryStorage}
use distributed_systems.Kv.InMemory.Contract.{view, Any, in_memory-Implements}
use distributed_systems.Kv.History.{Request, get_of, put_of, serve_all, accepted_puts}
use distributed_systems.Kv.History.Chain.{IsChain, serve_all-IsChain}
use distributed_systems.Kv.Runner.{
  ServerRunner, Run, returned_ok, returned_err, start, handle, connect, connect_fails, spawn_timers,
  auto_fires, server_finished, print_and_return, move_task, shutdown_signal,
}
use distributed_systems.Kv.Runner.Steps.{
  connects, fails_to_connect, all_connected, auto_timer_fires, server_stops, serves, client_starts,
  client_stops, server_is_over, joins, prints, Reach, here, next,
}
use distributed_systems.Kv.Runner.Invariant.{IsFinal, IsUntouched}
use distributed_systems.Kv.Runner.Ends.{returned_run_has_ended, failed_run_cancels_nobody}
use distributed_systems.Kv.Runner.Terminates.{goes_orderly, IsReturned, run_can_return}

abbrev put_a : Text → ℕ → Request
put_a value version = put_of (record { key = codes "a"; value = value; version = version })

-- Two clients race to create a key, and the second one to update it.
abbrev race : List Request
race =
    put_a (codes "x") 0
    ∷ put_a (codes "y") 0
    ∷ get_of (record { key = codes "a" })
    ∷ put_a (codes "y") 1
    ∷ put_a (codes "z") 1
    ∷ []

abbrev empty_server : Server.KeyValueServer InMemoryStorage
empty_server = record { storage = record { entries = [] } }

race_accepted :
    accepted_puts (codes "a") (serve_all {Status = Text} InMemory.storage empty_server race).1
    ≡ (0, codes "x", 1) ∷ (1, codes "y", 2) ∷ []
unfolding accepted_puts serve_all InMemory.storage InMemory.get InMemory.put HashMap.get
    HashMap.insert HashMap.contains_key
race_accepted = refl

serve_all-IsChain_example :
    Any (serve_all {Status = Text} InMemory.storage empty_server race).0.storage
    × IsChain
        (view (record { entries = [] }) (codes "a"))
        (accepted_puts (codes "a") (serve_all {Status = Text} InMemory.storage empty_server race).1)
        (view (serve_all {Status = Text} InMemory.storage empty_server race).0.storage (codes "a"))
unfolding view HashMap.get
serve_all-IsChain_example =
    serve_all-IsChain Text InMemory.storage Any Any view in_memory-Implements empty_server
      (codes "a") race tt tt (omega arith) (omega arith)

abbrev some_client : ClientConfig
some_client = record {
  name = codes "c";
  success_sleep_ms = 1;
  error_sleep_ms = 1;
  keys = codes "a" ∷ [];
}

abbrev runner : List ClientConfig → ServerRunner InMemoryStorage Text
runner clients = record {
  storage = record { entries = [] };
  config = record {
    test_duration_seconds = 1;
    max_retries_server_packet_loss = 10;
    clients = clients;
  };
  addr = codes "127.0.0.1:50051";
}

abbrev one : ServerRunner InMemoryStorage Text
one = runner (some_client ∷ [])

abbrev two : ServerRunner InMemoryStorage Text
two = runner (some_client ∷ some_client ∷ [])

abbrev Reached : ServerRunner InMemoryStorage Text → Run InMemoryStorage → Type 0
Reached r s =
    Reach InMemory.storage (λ (t : Text). t) (start InMemory.storage (λ (t : Text). t) r) s

-- One client, whose request is served before the timer fires.
whole : (s : Run InMemoryStorage) × Reached one s × (s.main ≡ returned_ok)
unfolding start handle connect spawn_timers auto_fires server_finished print_and_return move_task
    shutdown_signal
whole = (
  _,
  next
      (next
        (next
          (next
            (next
              (next
                (next
                  (next
                    (next (next here (connects some_client [] refl refl)) (all_connected refl refl))
                    (client_starts 0 (_, refl, refl) refl))
                  (serves 0 true (put_a (codes "x") 0) refl (_, refl, refl) refl))
                (auto_timer_fires refl refl))
              (server_stops refl refl refl))
            (client_stops 0 _ refl refl refl refl))
          (server_is_over refl refl refl))
        (joins 0 refl (_, refl, refl) refl))
      (prints 1 refl (omega arith) refl),
  refl,
)

-- The second client cannot connect.
cut : (s : Run InMemoryStorage) × Reached two s × (s.main ≡ returned_err)
unfolding start connect connect_fails
cut = (
  _,
  next (next here (connects some_client (some_client ∷ []) refl refl))
      (fails_to_connect some_client [] refl refl),
  refl,
)

returned_run_has_ended_example :
    IsFinal whole.0
    × (whole.0.printed
        ≡ some
            (serve_all {Status = Text} InMemory.storage
              (record { storage = record { entries = [] } })
              whole.0.served).0.storage)
returned_run_has_ended_example =
    returned_run_has_ended InMemory.storage (λ (t : Text). t) one whole.1 whole.2

failed_run_cancels_nobody_example : IsUntouched cut.0 × (shutdown_signal cut.0 ≡ true)
failed_run_cancels_nobody_example =
    failed_run_cancels_nobody InMemory.storage (λ (t : Text). t) two cut.1 cut.2

run_can_return_example :
    (t : Run InMemoryStorage) × (r : Reach InMemory.storage
      (λ (t : Text). t)
      (start InMemory.storage (λ (t : Text). t) two)
      t)
    × (goes_orderly InMemory.storage (λ (t : Text). t) r ≡ true)
    × IsReturned t.main
run_can_return_example = run_can_return InMemory.storage (λ (t : Text). t) two here
