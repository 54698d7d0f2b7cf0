-- ===== src/Examples/Offices.antt =====
-- A map phase over processes, one of which fails.
use distributed_systems.Prelude.{ℕ, ◌+◌, true, none, List, [], ◌∷◌, Text, ok, ◌==◌, if◌then◌else◌}
use distributed_systems.Mr.Executor.{Cluster}
use distributed_systems.Mr.Executor.Honest.{Observed}
use distributed_systems.Mr.Worker.{Task}
use distributed_systems.Mr.Worker.Handle.{Resources}
use distributed_systems.Mr.Transport.{WorkerMessage, Mpsc, Factory}
use distributed_systems.Mr.Grpc.{Fate, Network}
use distributed_systems.Mr.Grpc.Work.{Json, GrpcWorkReceiver}
use distributed_systems.Mr.Grpc.Fleet.{Processes, Worker}
use distributed_systems.Mr.Grpc.Fleet.Leaves.{Owned}
use distributed_systems.Mr.Grpc.Fleet.Phase.{on_processes, mapper_process}
use distributed_systems.Examples.Workers.{Bench, bench, seen}

-- The workers' desks and the processes that run, with the number of the next one.
record Office : Type 0 where
  desk : Bench
  running : List ℕ
  next : ℕ

abbrev without : ℕ → List ℕ → List ℕ
without c [] = []
without c (x ∷ xs) = let rest = without c xs in if x == c then rest else x ∷ rest

abbrev office_processes : Processes Office ℕ Text
office_processes = record {
  start = λ w args. (record w { running = w.next ∷ w.running; next = w.next + 1 }, w.next);
  wait = λ w c. (w, ok tt);
  start_kill = λ w c. record w { running = without c w.running };
}

abbrev Runs : Office → ℕ → Type 0
Runs w c = Owned (λ (n : ℕ). n) c w.running

abbrev office : Cluster Office ℕ
office = record {
  setup = λ w n. record w { desk = bench.setup w.desk n };
  initialize = λ w id. w;
  wait_for_worker_ready = λ w id. (w, true);
  send_work = λ w id a. record w { desk = bench.send_work w.desk id a };
  replace_worker = λ w id. w;
  reset_worker = λ w id. w;
  is_cancelled = λ w. (w, (bench.is_cancelled w.desk).1);
  wait_next = λ w duration.
      let (desk, waited) = bench.wait_next w.desk duration in (record w { desk = desk }, waited);
  now = λ w. 0;
}

abbrev nothing : Mpsc Office (Unit {0}) (Unit {0}) (WorkerMessage ℕ ℕ)
nothing = record {
  channel = λ w n. (w, tt, tt);
  send = λ w tx m. (w, true);
  recv = λ w rx. (w, none);
}

abbrev any_network : Network Office
any_network = record { connect = λ w. (w, true); fate = λ w. (w, Fate.answered) }

abbrev numbers : Json ℕ
numbers = record { to_string = λ n. n ∷ []; from_str = λ t. none }

abbrev tasks : Json (Task × Resources (Unit {0}) (Unit {0}) (GrpcWorkReceiver (Unit {0})))
tasks = record { to_string = λ t. t.0.id ∷ []; from_str = λ t. none }

abbrev factory : Factory (Unit {0}) (Unit {0})
factory = record {
  state = tt;
  shutdown = tt;
  failure_prob = 10;
  straggler_prob = 0;
  straggler_delay = 0;
}

abbrev hired : Office → ℕ → Office × Worker office_processes
hired =
    mapper_process office_processes Runs office any_network (λ w ms. w) (λ f w. f w) nothing numbers
      numbers (λ w addr. tt) tasks factory

abbrev whole_office : Cluster (Office × List (Worker office_processes)) ℕ
whole_office = on_processes office_processes hired office

abbrev seen_office : Observed (Office × List (Worker office_processes)) ℕ
seen_office = record {
  assigned = λ s id. seen.assigned s.0.desk id;
  finished = λ s. seen.finished s.0.desk;
  budget = λ s. seen.budget s.0.desk;
}

-- Process 7 runs already; one of the workers fails.
abbrev open_office : Office
open_office = record {
  desk = record { slots = []; reported = []; failures = 1 };
  running = 7 ∷ [];
  next = 8;
}
