-- ===== src/Kv/Runner/Steps.antt =====
-- The steps of the tasks of a run, in whatever order they come.
use distributed_systems.Prelude.{
  ℕ, suc, ◌≤◌, ◌≡◌, Bool, true, false, some, List, [], ◌∷◌, ◌++◌, Text, length, get_elem?,
}
use distributed_systems.Kv.Storage.{Storage}
use distributed_systems.Kv.Client.{ClientConfig}
use distributed_systems.Kv.History.{Request}
use distributed_systems.Kv.Runner.{
  Client, sleeping, running, ended, waiting, connecting, awaiting_server, joining, Run,
  shutdown_signal, handle, connect, connect_fails, spawn_timers, auto_fires, cancel_fires,
  server_finished, print_and_return, move_task, IsAt,
}

module _ {S Status : Type 0} (st : Storage S) (deadline_exceeded : Text → Status) where
  -- The steps of all tasks. A client's task ends when `start` finds its token cancelled, or panics;
  -- the server's ends after the shutdown signal, or because `serve_with_shutdown` fails.
  pub data Step (s t : Run S) : Type 0 where
    connects :
        (config : ClientConfig) (rest : List ClientConfig)
        → s.main ≡ connecting (config ∷ rest)
        → t ≡ connect config rest s
        → Step s t
    fails_to_connect :
        (config : ClientConfig) (rest : List ClientConfig)
        → s.main ≡ connecting (config ∷ rest)
        → t ≡ connect_fails s
        → Step s t
    all_connected : s.main ≡ connecting [] → t ≡ spawn_timers s → Step s t
    interrupted : s.ctrl_c ≡ false → t ≡ record s { ctrl_c = true } → Step s t
    auto_timer_fires : s.auto_timer ≡ waiting → t ≡ auto_fires s → Step s t
    cancel_timer_fires : s.cancel_timer ≡ waiting → t ≡ cancel_fires s → Step s t
    server_stops :
        s.serving ≡ true → shutdown_signal s ≡ true → t ≡ record s { serving = false } → Step s t
    server_fails : s.serving ≡ true → t ≡ record s { serving = false } → Step s t
    serves :
        (i : ℕ) (lost : Bool) (request : Request)
        → s.serving ≡ true
        → IsAt s i running
        → t ≡ record s {
          service = handle st deadline_exceeded lost s.service request;
          served = s.served ++ request ∷ [];
        }
        → Step s t
    client_starts : (i : ℕ) → IsAt s i sleeping → t ≡ move_task i running s → Step s t
    client_stops :
        (i : ℕ) (c : Client)
        → get_elem? s.clients i ≡ some c
        → c.task ≡ running
        → c.cancelled ≡ true
        → t ≡ move_task i ended s
        → Step s t
    client_panics : (i : ℕ) → IsAt s i running → t ≡ move_task i ended s → Step s t
    server_is_over : s.main ≡ awaiting_server → s.serving ≡ false → t ≡ server_finished s → Step s t
    joins :
        (i : ℕ)
        → s.main ≡ joining i
        → IsAt s i ended
        → t ≡ record s { main = joining (suc i) }
        → Step s t
    prints : (i : ℕ) → s.main ≡ joining i → length s.clients ≤ i → t ≡ print_and_return s → Step s t

  pub data Reach (s : Run S) : Run S → Type 0 where
    here : Reach s s
    next : {t u : Run S} → Reach s t → Step t u → Reach s u
