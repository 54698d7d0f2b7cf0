-- ===== src/Examples/Workers.antt =====
-- One phase on small clusters, and one worker.
use distributed_systems.Prelude.{
  ℕ, zero, suc, ◌≡◌, refl, ◌⊎◌, inl, true, false, none, some, List, [], ◌∷◌, ◌++◌, nat_eq, arith,
  ==_iff,
}
use distributed_systems.Prelude.HashMap
use distributed_systems.Prelude.HashMap.{HashMap}
use distributed_systems.Mr.Executor.{Cluster, Waited}
use distributed_systems.Mr.Executor.Honest.{Observed, Quiet, Beside, Waits, IsHonest}
use distributed_systems.Mr.Worker.{Status, Runtime, Received, Task, again, died, on_work}
use distributed_systems.Mr.Worker.Answers.{
  IsRecorded, on_work_answers_once, panicking_job_sends_nothing,
}

-- Workers known by what they have, and the number of failures that will still happen. A wait reports
-- a failure while there is one to come, which takes the assignment of slot 0, and then the completion of the first slot.
pub record Bench : Type 0 where
  pub slots : HashMap ℕ ℕ
  pub reported : List ℕ
  pub failures : ℕ

abbrev wait : HashMap ℕ ℕ → List ℕ → ℕ → Bench × Waited
wait [] reported zero = (record { slots = []; reported = reported; failures = 0 }, Waited.closed)
wait ((id, a) ∷ slots) reported zero = (
  record { slots = HashMap.remove ((id, a) ∷ slots) id; reported = a ∷ reported; failures = 0 },
  Waited.completed id,
)
wait slots reported (suc n) =
    (record { slots = HashMap.remove slots 0; reported = reported; failures = n }, Waited.failed 0)

abbrev pub bench : Cluster Bench ℕ
bench = record {
  setup = λ w n. record w { slots = [] };
  initialize = λ w id. w;
  wait_for_worker_ready = λ w id. (w, true);
  send_work = λ w id a. record w { slots = HashMap.insert w.slots id a };
  replace_worker = λ w id. record w { slots = HashMap.remove w.slots id };
  reset_worker = λ w id. w;
  is_cancelled = λ w. (w, false);
  wait_next = λ w duration. wait w.slots w.reported w.failures;
  now = λ w. 0;
}

abbrev pub seen : Observed Bench ℕ
seen = record {
  assigned = λ w id. HashMap.get w.slots id;
  finished = λ w. w.reported;
  budget = λ w. w.failures;
}

quiet : (w : Bench) → Quiet seen w w
quiet w = record { assigned_same = λ id. refl; finished_same = refl; budget_le = omega arith }

fire-Beside : (w : Bench) (id : ℕ) → Beside seen id w (bench.replace_worker w id)
fire-Beside w id = record {
  assigned_beside = λ j other. ground (arith, other, HashMap.get-remove w.slots id j);
  finished_same = refl;
  budget_le = omega arith;
}

same-Beside : (w : Bench) (id : ℕ) → Beside seen id w w
same-Beside w id = record {
  assigned_beside = λ j other. refl;
  finished_same = refl;
  budget_le = omega arith;
}

wait-Waits :
    (slots : HashMap ℕ ℕ) (reported : List ℕ) (failures id a : ℕ)
    → HashMap.get slots id ≡ some a
    → Waits seen
        (record { slots = slots; reported = reported; failures = failures })
        (wait slots reported failures)
unfolding HashMap.get
wait-Waits [] reported zero id a has = absurd (ground (arith, has))
wait-Waits ((j, b) ∷ slots) reported zero id a has = record {
  reported = b;
  had = ground (arith, ==_iff j j);
  assigned_less = λ i. HashMap.get-remove ((j, b) ∷ slots) j i;
  finished_more = refl;
  budget_le = omega arith;
}
wait-Waits slots reported (suc n) id a has = record {
  assigned_less = λ j. HashMap.get-remove slots 0 j;
  finished_same = refl;
  budget_lt = omega arith;
}

pub bench-IsHonest : IsHonest seen bench
bench-IsHonest = record {
  setup_clear = λ w n id. (unfold HashMap.get in refl);
  setup_finished = λ w n. refl;
  setup_budget = λ w n. omega arith;
  initialize_quiet = λ w id. quiet w;
  ready_quiet = λ w id. quiet w;
  replace_beside = fire-Beside;
  reset_beside = same-Beside;
  cancelled_quiet = λ w. quiet w;
  not_cancelled = λ w. refl;
  send_assigned = λ w id a j. HashMap.get-insert w.slots id j a;
  send_finished = λ w id a. refl;
  send_budget = λ w id a. omega arith;
  wait_waits = λ w duration id a has. wait-Waits w.slots w.reported w.failures id a has;
}

abbrev idle : Bench
idle = record { slots = []; reported = []; failures = 2 }

-- A worker of which one sees what it sends.
abbrev quiet_runtime : Runtime (List Status) ℕ
quiet_runtime = record {
  is_cancelled = λ w. (w, false);
  recv = λ w ms. (w, Received.work 5);
  register = λ w id. (w, true);
  send = λ w st. (w ++ st ∷ [], true);
  random_below = λ w n. (w, 50);
  random_up_to = λ w n. (w, 1);
  sleep = λ w n. w;
}

quiet_runtime-IsRecorded : IsRecorded quiet_runtime (λ w. w)
quiet_runtime-IsRecorded = record {
  sent-send = λ w st. refl;
  sent-random_below = λ w n. refl;
  sent-random_up_to = λ w n. refl;
  sent-sleep = λ w n. refl;
}

abbrev slow_task : Task
slow_task = record {
  id = 1;
  failure_probability = 0;
  straggler_probability = 60;
  straggler_delay_ms = 300;
}

on_work_answers_once_example :
    (w' : List Status) × (on_work quiet_runtime slow_task (λ w a. some w) 5 [] ≡ again w')
    × ((w' ≡ [] ++ Status.ok 1 ∷ []) ⊎ (w' ≡ [] ++ Status.err ∷ []))
on_work_answers_once_example =
    on_work_answers_once quiet_runtime (λ w. w) quiet_runtime-IsRecorded slow_task (λ w a. some w) 5
      [] (inl (omega arith)) (λ v. (v, refl, refl))

panicking_job_sends_nothing_example :
    (w' : List Status) × (on_work quiet_runtime slow_task (λ w a. none) 5 [] ≡ died w') × (w' ≡ [])
panicking_job_sends_nothing_example =
    panicking_job_sends_nothing quiet_runtime (λ w. w) quiet_runtime-IsRecorded slow_task
      (λ w a. none) 5 [] refl (λ v. refl)
