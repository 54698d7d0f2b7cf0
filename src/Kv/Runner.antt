-- ===== src/Kv/Runner.antt =====
-- key-value-server/core/src/server_runner.rs: one run of the server with the clients of the
-- configuration. Its tasks go on in any order, so a run is a sequence of steps; a step is what one
-- task does up to its next `.await`. The server of tonic, the oneshot channel, the cancellation
-- tokens and the tasks of tokio are modelled by what the code relies on; the times by their order. No
-- other client sends requests.
pub mod Steps
pub mod Clients
pub mod Invariant
pub mod Ends
pub mod Terminates
use distributed_systems.Prelude.{
  ℕ, zero, suc, ◌≤◌, ◌≡◌, Bool, true, false, ◌||◌, Option, none, some, List, [], ◌∷◌, ◌++◌, map,
  Text, codes, Result, ok, err, length, get_elem?,
}
use distributed_systems.Kv.Storage.{Storage}
use distributed_systems.Kv.Server.{KeyValueServer, PacketLossWrapper, wrapper_put}
use distributed_systems.Kv.Client.{ClientConfig}
use distributed_systems.Kv.Config.{Config}
use distributed_systems.Kv.History.{Request, get_of, put_of}

pub record ServerRunner (S Addr : Type 0) : Type 0 where
  pub storage : S
  pub config : Config
  pub addr : Addr

-- `addr.parse()` is the standard library's.
unfoldable pub new :
    {S Addr Error : Type 0}
    → (Text → Result Addr Error)
    → S
    → Config
    → Text
    → Result (ServerRunner S Addr) Error
new parse storage config addr = elim (parse addr) [
  | err e ↦ err e
  | ok a ↦ ok (record { storage = storage; config = config; addr = a })
]

-- a client's task: in its first sleep, in `client.start()`, or over
pub data Task : Type 0 where
  sleeping running ended : Task

pub record Client : Type 0 where
  pub config : ClientConfig
  -- its token is cancelled
  pub cancelled : Bool
  pub task : Task

-- the sender of the oneshot channel that ends the server
pub data Sender : Type 0 where
  held sent dropped : Sender

-- a task that sleeps for `test_duration + 1` seconds
pub data Timer : Type 0 where
  unset waiting fired : Timer

-- Where `run` stands: at the loop over the clients, with those still to connect; at
-- `server_handle.await`; at `handle.await` of a client; or returned.
pub data Main : Type 0 where
  connecting : List ClientConfig → Main
  awaiting_server : Main
  joining : ℕ → Main
  returned_ok returned_err : Main

pub record Run (S : Type 0) : Type 0 where
  pub service : PacketLossWrapper S
  -- the server's task is not over
  pub serving : Bool
  pub ctrl_c : Bool
  pub auto_shutdown : Sender
  -- the first timer, which also ends the server, and the second, which only cancels the clients
  pub auto_timer : Timer
  pub cancel_timer : Timer
  pub clients : List Client
  pub main : Main
  -- the requests that the server has served, in order, and the storage that `print_all` has shown
  pub served : List Request
  pub printed : Option S

-- How `main` goes: up to `run`, it panics, returns an error or goes on with a run.
pub data MainOutcome (S Error : Type 0) : Type 0 where
  panicked : MainOutcome S Error
  failed : Error → MainOutcome S Error
  runs : Run S → MainOutcome S Error

unfoldable pub cancel : Client → Client
cancel c = record c { cancelled = true }

-- `for cancellation in … { cancellation.cancel(); }`
unfoldable pub cancel_all : List Client → List Client
unfolding cancel
cancel_all [] = []
cancel_all (c ∷ cs) = cancel c ∷ cancel_all cs

-- the `select!` of Ctrl+C and the oneshot receiver, which a dropped sender resolves too
unfoldable pub shutdown_signal : {S : Type 0} → Run S → Bool
shutdown_signal s = elim s.auto_shutdown [ held ↦ s.ctrl_c | sent ↦ true | dropped ↦ true ]

-- a client's task moves on
unfoldable pub set_task : ℕ → Task → List Client → List Client
set_task i task [] = []
set_task zero task (c ∷ cs) = record c { task = task } ∷ cs
set_task (suc i) task (c ∷ cs) = c ∷ set_task i task cs

module _ {S Status : Type 0} (st : Storage S) (deadline_exceeded : Text → Status) where
  -- Up to the loop over the clients; the server's task is spawned.
  unfoldable pub start : {Addr : Type 0} → ServerRunner S Addr → Run S
  start runner = record {
    service = record { inner = record { storage = runner.storage } };
    serving = true;
    ctrl_c = false;
    auto_shutdown = held;
    auto_timer = unset;
    cancel_timer = unset;
    clients = [];
    main = connecting runner.config.clients;
    served = [];
    printed = none;
  }

  -- `main` of the three binaries, with the storage that each makes: `expect` panics.
  unfoldable pub main :
      {Addr Error : Type 0}
      → (Text → Result Config Error)
      → (Text → Result Addr Error)
      → S
      → MainOutcome S Error
  unfolding new start
  main load parse storage = elim (load (codes "config.json")) [
    | err e ↦ panicked
    | ok config ↦ elim (new parse storage config (codes "127.0.0.1:50051")) [
      | err e ↦ failed e
      | ok runner ↦ runs (start runner)
    ]
  ]

  -- the service on a request, of which the wrapper drops the answer or not
  unfoldable pub handle : Bool → PacketLossWrapper S → Request → PacketLossWrapper S
  unfolding wrapper_put
  handle lost service (get_of request) = service
  handle lost service (put_of request) = (wrapper_put st deadline_exceeded lost service request).0

module _ {S : Type 0} where
  unfoldable pub connect : ClientConfig → List ClientConfig → Run S → Run S
  connect config rest s = record s {
    clients = s.clients ++ record { config = config; cancelled = false; task = sleeping } ∷ [];
    main = connecting rest;
  }

  -- `?` returns and drops the sender.
  unfoldable pub connect_fails : Run S → Run S
  connect_fails s = record s { auto_shutdown = dropped; main = returned_err }

  unfoldable pub spawn_timers : Run S → Run S
  spawn_timers s = record s { auto_timer = waiting; cancel_timer = waiting; main = awaiting_server }

  unfoldable pub auto_fires : Run S → Run S
  unfolding cancel_all
  auto_fires s = record s {
    clients = cancel_all s.clients;
    auto_shutdown = sent;
    auto_timer = fired;
  }

  unfoldable pub cancel_fires : Run S → Run S
  unfolding cancel_all
  cancel_fires s = record s { clients = cancel_all s.clients; cancel_timer = fired }

  unfoldable pub server_finished : Run S → Run S
  unfolding cancel_all
  server_finished s = record s { clients = cancel_all s.clients; main = joining 0 }

  unfoldable pub print_and_return : Run S → Run S
  print_and_return s = record s { printed = some s.service.inner.storage; main = returned_ok }

  unfoldable pub move_task : ℕ → Task → Run S → Run S
  unfolding set_task
  move_task i task s = record s { clients = set_task i task s.clients }

  -- a client's task is at a place
  abbrev pub IsAt : Run S → ℕ → Task → Type 0
  IsAt s i task = (c : Client) × (get_elem? s.clients i ≡ some c) × (c.task ≡ task)
