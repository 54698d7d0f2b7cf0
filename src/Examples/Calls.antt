-- ===== src/Examples/Calls.antt =====
-- Calls over small networks.
use distributed_systems.Prelude.{
  text_beq, if◌then◌else◌, ℕ, ◌+◌, ◌-◌, ◌≡◌, refl, true, false, Bool, Option, none, some, List, [],
  ◌∷◌, ◌++◌, replicate, Text, codes, text_eq, arith,
}
use distributed_systems.Mr.StateStore.{LocalStateAccess, IsStore, local, local-IsStore}
use distributed_systems.Mr.Worker.{Status}
use distributed_systems.Mr.Executor.{Outcome, done}
use distributed_systems.Mr.Transport.{WorkerMessage, Mpsc}
use distributed_systems.Mr.Grpc.{Fate, Network}
use distributed_systems.Mr.Grpc.Store
use distributed_systems.Mr.Grpc.Store.{Remote, grpc}
use distributed_systems.Mr.Grpc.Store.Effects.{
  IsReliable, AtMostOnce, grpc-IsStore, calls-AtMostOnce,
}
use distributed_systems.Mr.Grpc.Signals
use distributed_systems.Mr.Grpc.Signals.{Notify, SynchronizationService, GrpcStatusSender}
use distributed_systems.Mr.Grpc.Signals.Copies
use distributed_systems.Mr.Grpc.Signals.Copies.{Copied, send_copies, lost_answers_repeat_report}
use distributed_systems.Mr.Grpc.Work.{Json, deliver, recv}
use distributed_systems.Mr.Grpc.Work.Arrives
use distributed_systems.Mr.Grpc.Work.Arrives.{deliver_at_most_once, deliver-recv}
use distributed_systems.Mr.Grpc.Process.{Cli}

-- A network that does as it is told, and then answers.
abbrev next_fate : List Fate → List Fate × Fate
next_fate [] = ([], Fate.answered)
next_fate (f ∷ rest) = (rest, f)

abbrev scripted : Network (List Fate)
scripted = record { connect = λ n. (n, true); fate = next_fate }

abbrev good : Network (Unit {0})
good = record { connect = λ n. (n, true); fate = λ n. (n, Fate.answered) }

good-IsReliable : IsReliable good
good-IsReliable = record { connects = λ n. refl; answers = λ n. refl }

grpc-IsStore_example : IsStore (grpc good local)
grpc-IsStore_example = grpc-IsStore good local good-IsReliable local-IsStore

abbrev counted : LocalStateAccess
counted = record { values = (codes "b", 3 ∷ 2 ∷ []) ∷ [] }

abbrev shaky : Remote (List Fate) LocalStateAccess
shaky = record { network = Fate.unanswered ∷ []; has_client = false; state = counted }

calls-AtMostOnce_example :
    AtMostOnce scripted local
      (λ s. local.initialize s (codes "b" ∷ []))
      counted
      ((Store.initialize scripted local shaky (codes "b" ∷ [])).state)
    × AtMostOnce scripted local
        (λ s. local.update s (codes "b") 4)
        counted
        ((Store.update scripted local shaky (codes "b") 4).state)
    × AtMostOnce scripted local
        (λ s. local.replace s (codes "b") 4)
        counted
        ((Store.replace scripted local shaky (codes "b") 4).state)
    × (((Store.get scripted local shaky (codes "b")).0).state ≡ counted)
calls-AtMostOnce_example = calls-AtMostOnce scripted local shaky (codes "b" ∷ []) (codes "b") 4

-- The queue of the reports is the state; no answer comes back.
abbrev reports : Mpsc (List (ℕ × Bool)) (Unit {0}) (Unit {0}) (ℕ × Bool)
reports = record {
  channel = λ w n. (w, tt, tt);
  send = λ w tx m. (w ++ m ∷ [], true);
  recv = λ w rx. (w, none);
}

abbrev waiters : Notify (List (ℕ × Bool)) (Unit {0})
waiters = record { new = λ w. (w, tt); notify_one = λ w n. w; notified = λ w n. w }

abbrev silent : Network (List (ℕ × Bool))
silent = record { connect = λ w. (w, true); fate = λ w. (w, Fate.unanswered) }

abbrev service : SynchronizationService (Unit {0}) (Unit {0})
service = record { completion_tx = tt; readiness_notifiers = [] }

reports-IsQueue : Copies.IsQueue reports waiters silent (λ w ms. w) service (λ w. w)
reports-IsQueue = record {
  send_adds = λ w m e. refl;
  send_fails = λ w m e. absurd (ground (arith, e));
  connect_keeps = λ w. refl;
  fate_keeps = λ w. refl;
  sleep_keeps = λ w ms. refl;
}

abbrev reporter : GrpcStatusSender
reporter = record { server_addr = 21000; worker_id = 3 }

send_copies_example :
    (let (w', told) =
        Signals.send reports waiters silent (λ w ms. w) service [] reporter (Status.ok 3) in
      Copied reports waiters silent (λ w ms. w) service (λ w. w) (3, true) 5 [] w' told)
unfolding Signals.is_ok
send_copies_example =
    send_copies reports waiters silent (λ w ms. w) service (λ w. w) reports-IsQueue [] reporter
      (Status.ok 3)

lost_answers_repeat_report_example :
    (Signals.send reports waiters silent (λ w ms. w) service [] reporter Status.err).0
    ≡ [] ++ replicate 5 (3, false)
unfolding Signals.is_ok
lost_answers_repeat_report_example =
    lost_answers_repeat_report reports waiters silent (λ w ms. w) service (λ w. w) reports-IsQueue
      (λ v. refl) (λ v. refl) (λ v m. refl) [] reporter Status.err

-- The queue of a worker is the state; an assignment and a token are numbers.
abbrev first_of : List (WorkerMessage ℕ ℕ) → List (WorkerMessage ℕ ℕ) × Option (WorkerMessage ℕ ℕ)
first_of [] = ([], none)
first_of (m ∷ rest) = (rest, some m)

abbrev desk : Mpsc (List (WorkerMessage ℕ ℕ)) (Unit {0}) (Unit {0}) (WorkerMessage ℕ ℕ)
desk = record {
  channel = λ w n. (w, tt, tt);
  send = λ w tx m. (w ++ m ∷ [], true);
  recv = λ w rx. first_of w;
}

abbrev of_text : Text → Option ℕ
of_text (n ∷ []) = some n
of_text _ = none

abbrev numbers : Json ℕ
numbers = record { to_string = λ n. n ∷ []; from_str = of_text }

abbrev to_desk : Network (List (WorkerMessage ℕ ℕ))
to_desk = record { connect = λ w. (w, true); fate = λ w. (w, Fate.answered) }

desk-IsQueue :
    Arrives.IsQueue desk numbers numbers to_desk (λ w ms. w) (λ w addr. tt) (λ w tx. w) (λ tx. tx)
desk-IsQueue = record {
  send_adds = λ w tx m e. refl;
  send_fails = λ w tx m e. absurd (ground (arith, e));
  fate_keeps = λ w tx. refl;
  recv_takes = λ w tx m rest e. rw e refl;
}

deliver-recv_example :
    (let w' = deliver desk numbers numbers to_desk (λ w ms. w) (λ w addr. tt) 30001 7 1 [] in
      (recv desk numbers numbers (λ w port tx. w) w' (record { port = 30001; rx = some tt })).2)
    ≡ some (WorkerMessage.work 7 1)
deliver-recv_example =
    deliver-recv desk numbers numbers to_desk (λ w ms. w) (λ w addr. tt) (λ w tx. w) (λ tx. tx)
      desk-IsQueue (λ n. refl) (λ n. refl) (λ w port tx. w) [] 30001 30001 7 1 refl refl refl

-- A parser that takes the options one after the other.
abbrev set_option : Text → Text → Cli → Cli
set_option name value cli =
    if text_beq name (codes "--type")
    then record cli { worker_type = some value }
    else if text_beq name (codes "--task")
    then record cli { task = some value }
    else cli

abbrev parse_after : Option Text → List Text → Cli
parse_after _ [] = record { worker = false; worker_type = none; task = none }
parse_after none (name ∷ rest) =
    let flagged = parse_after none rest in
    let taken = parse_after (some name) rest in
    if text_beq name (codes "--worker") then record flagged { worker = true } else taken
parse_after (some name) (value ∷ rest) = set_option name value (parse_after none rest)

abbrev add_task : ℕ → ℕ → Outcome ℕ
add_task m w = done (w + m)

abbrev take_task : ℕ → ℕ → Outcome ℕ
take_task r w = done (w - r)
