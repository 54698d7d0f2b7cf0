-- ===== src/Examples/Loops.antt =====
-- One worker's run, and a completion that nobody waits for.
use distributed_systems.Prelude.{
  ℕ, ◌+◌, ◌≡◌, refl, inl, true, false, none, some, List, [], ◌∷◌, ◌++◌, length, text_eq, nat_eq,
  arith,
}
use distributed_systems.Prelude.HashMap
use distributed_systems.Prelude.HashMap.{HashMap}
use distributed_systems.Mr.Executor.{Cluster, Waited, AssignmentInfo, Progress, done, work_loop}
use distributed_systems.Mr.Executor.Stray.{stray_completion_ends_phase}
use distributed_systems.Mr.Worker.{Status, Runtime, Received, Task, run, stopped}
use distributed_systems.Mr.Worker.Answers.{IsRecorded}
use distributed_systems.Mr.Worker.Finishes.{IsInbox, run_answers_all}

-- A cluster that reports a completion of worker 5, whatever it was given.
abbrev stray : Cluster (Unit {0}) ℕ
stray = record {
  setup = λ w n. w;
  initialize = λ w id. w;
  wait_for_worker_ready = λ w id. (w, true);
  send_work = λ w id a. w;
  replace_worker = λ w id. w;
  reset_worker = λ w id. w;
  is_cancelled = λ w. (w, false);
  wait_next = λ w duration. (w, Waited.completed 5);
  now = λ w. 0;
}

abbrev last_one : AssignmentInfo ℕ
last_one = record { assignment = 8; start_time = 0 }

abbrev nearly : Progress ℕ
nearly = record {
  assignment_index = 2;
  active_workers = 1;
  worker_assignments = (0, last_one) ∷ [];
}

stray_completion_ends_phase_example :
    work_loop stray (7 ∷ 8 ∷ []) 2 (record { timeout = none }) 2 nearly tt ≡ done tt
unfolding HashMap.get
stray_completion_ends_phase_example =
    stray_completion_ends_phase stray (7 ∷ 8 ∷ []) 2 0 5 0 last_one nearly tt refl (omega arith)
      refl refl refl refl

-- A worker with its messages, of which one sees what it sends.
record Desk : Type 0 where
  waiting : List (Received ℕ)
  sent : List Status

abbrev take_one : List (Received ℕ) → List Status → Desk × Received ℕ
take_one [] sent = (record { waiting = []; sent = sent }, Received.closed)
take_one (m ∷ rest) sent = (record { waiting = rest; sent = sent }, m)

abbrev desk_runtime : Runtime Desk ℕ
desk_runtime = record {
  is_cancelled = λ w. (w, false);
  recv = λ w ms. take_one w.waiting w.sent;
  register = λ w id. (w, true);
  send = λ w st. (record w { sent = w.sent ++ st ∷ [] }, true);
  random_below = λ w n. (w, 50);
  random_up_to = λ w n. (w, 1);
  sleep = λ w n. w;
}

take_one-takes :
    (l : List (Received ℕ)) (s : List Status) (m : Received ℕ) (rest : List (Received ℕ))
    → l ≡ m ∷ rest
    → ((take_one l s).1 ≡ m) × (((take_one l s).0).waiting ≡ rest)
take_one-takes l s m rest e = rw e (refl, refl)

take_one-ends :
    (l : List (Received ℕ)) (s : List Status) → l ≡ [] → (take_one l s).1 ≡ Received.closed
take_one-ends l s e = rw e refl

take_one-sent : (l : List (Received ℕ)) (s : List Status) → ((take_one l s).0).sent ≡ s
take_one-sent [] s = refl
take_one-sent (m ∷ rest) s = refl

desk-IsRecorded : IsRecorded desk_runtime (λ w. w.sent)
desk-IsRecorded = record {
  sent-send = λ w st. refl;
  sent-random_below = λ w n. refl;
  sent-random_up_to = λ w n. refl;
  sent-sleep = λ w n. refl;
}

desk-IsInbox : IsInbox desk_runtime (λ w. w.sent) (λ w. w.waiting)
desk-IsInbox = record {
  cancelled = λ w. refl;
  cancelled-inbox = λ w. refl;
  cancelled-sent = λ w. refl;
  recv_takes = λ w ms m rest e. take_one-takes w.waiting w.sent m rest e;
  recv_ends = λ w ms e. take_one-ends w.waiting w.sent e;
  recv-sent = λ w ms. take_one-sent w.waiting w.sent;
  register-inbox = λ w id. refl;
  register-sent = λ w id. refl;
  send-inbox = λ w st. refl;
  random_below-inbox = λ w n. refl;
  random_up_to-inbox = λ w n. refl;
  sleep-inbox = λ w n. refl;
}

abbrev desk : Desk
desk = record {
  waiting = Received.initialize ∷ Received.work 5 ∷ Received.timed_out ∷ Received.work 6 ∷ [];
  sent = [];
}

abbrev desk_task : Task
desk_task = record {
  id = 1;
  failure_probability = 0;
  straggler_probability = 60;
  straggler_delay_ms = 300;
}

run_answers_all_example :
    (w' : Desk) × (run desk_runtime desk_task (λ w a. some w) 5 desk ≡ stopped w')
    × (length w'.sent ≡ 0 + 2)
run_answers_all_example =
    run_answers_all desk_runtime (λ w. w.sent) (λ w. w.waiting) desk-IsRecorded desk-IsInbox
      desk_task (λ w a. some w) (inl (omega arith)) (λ v a. (v, refl, refl, refl)) 5 desk
      desk.waiting refl (omega arith)
