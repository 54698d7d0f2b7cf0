-- ===== src/Kv/Runner/Terminates.antt =====
-- A run comes to its end: every step but the serving of a request lowers a measure, and until `run`
-- has returned there is such a step.
use distributed_systems.Prelude.{
  ℕ, zero, suc, ◌+◌, ◌-◌, ◌*◌, ◌≤◌, ◌<◌, ◌≡◌, refl, ap, All, Bool, true, false, ◌⊎◌, inl, inr, some,
  [], ◌∷◌, get_elem?, length, length-append, arith, Text, Bool-cases, ◌&&◌,
}
use native.Mathlib.Decide.{dec_lt}
use distributed_systems.Kv.Storage.{Storage}
use distributed_systems.Kv.Runner.{
  ServerRunner, Client, Task, sleeping, running, ended, Timer, unset, waiting, fired, Main,
  connecting, awaiting_server, joining, returned_ok, returned_err, Run, shutdown_signal, start,
  connect, connect_fails, spawn_timers, auto_fires, cancel_fires, server_finished, print_and_return,
  move_task,
}
use distributed_systems.Kv.Runner.Steps.{
  Step, connects, fails_to_connect, all_connected, interrupted, auto_timer_fires,
  cancel_timer_fires, server_stops, server_fails, serves, client_starts, client_stops,
  client_panics, server_is_over, joins, prints, Reach, here, next,
}
use distributed_systems.Kv.Runner.Clients.{
  IsCancelled, steps_left, all_left, all_left-append, all_left-cancel_all, length-cancel_all,
  all_left-set_task, length-set_task, All-at, lt_of_at, at_of_lt,
}
use distributed_systems.Kv.Runner.Invariant.{IsArmed, Holds, Inv, Step-Inv, Reach-Inv}
use distributed_systems.Kv.Runner.Ends.{start-Inv}

abbrev pub IsReturned : Main → Type 0
IsReturned m = (m ≡ returned_ok) ⊎ (m ≡ returned_err)

abbrev timer_left : Timer → ℕ
timer_left unset = 0
timer_left waiting = 1
timer_left fired = 0

abbrev if_true : Bool → ℕ
if_true true = 1
if_true false = 0

if_true-le : (b : Bool) → if_true b ≤ 1
if_true-le true = omega arith
if_true-le false = omega arith

abbrev main_left : Main → ℕ → ℕ
main_left (connecting rest) n = 5 * length rest + n + 10
main_left awaiting_server n = n + 4
main_left (joining i) n = (n - i) + 2
main_left returned_ok n = 0
main_left returned_err n = 0

module _ {S : Type 0} where
  measure : Run S → ℕ
  measure s =
      main_left s.main (length s.clients)
      + all_left s.clients
      + timer_left s.auto_timer
      + timer_left s.cancel_timer
      + if_true s.serving
      + (1 - if_true s.ctrl_c)

  move_task-measure :
      (s : Run S) (i : ℕ) (task : Task) (c : Client)
      → get_elem? s.clients i ≡ some c
      → steps_left task < steps_left c.task
      → measure (move_task i task s) < measure s
  unfolding measure move_task
  move_task-measure s i task c at less =
      rw (length-set_task i task s.clients) (omega (arith, all_left-set_task i task c s.clients at))

module _ {S Status : Type 0} (st : Storage S) (deadline_exceeded : Text → Status) where
  abbrev pub is_serving : {s t : Run S} → Step st deadline_exceeded s t → Bool
  is_serving (serves _ _ _ _ _ _) = true
  is_serving _ = false

  Step-measure :
      {s t : Run S} (step : Step st deadline_exceeded s t)
      → measure t + 1 ≤ measure s + if_true (is_serving step)
  unfolding connect connect_fails spawn_timers auto_fires cancel_fires server_finished
      print_and_return measure all_left
  Step-measure {s} (connects config rest e p) =
      rw (p, e) (omega (arith, length-append s.clients _, all_left-append s.clients _))
  Step-measure {s} (fails_to_connect config rest e p) = rw (p, e) (omega arith)
  Step-measure {s} (all_connected e p) = rw (p, e) (omega arith)
  Step-measure {s} (interrupted e p) = rw (p, e) (omega arith)
  Step-measure {s} (auto_timer_fires e p) =
      rw (p, e, length-cancel_all s.clients, all_left-cancel_all s.clients) (omega arith)
  Step-measure {s} (cancel_timer_fires e p) =
      rw (p, e, length-cancel_all s.clients, all_left-cancel_all s.clients) (omega arith)
  Step-measure {s} (server_stops up signal p) = rw (p, up) (omega arith)
  Step-measure {s} (server_fails up p) = rw (p, up) (omega arith)
  Step-measure {s} (serves i lost request up place p) = rw p (omega arith)
  Step-measure {s} (client_starts i (c, at, place) p) =
      rw p (omega (arith, move_task-measure s i running c at (rw place (omega arith))))
  Step-measure {s} (client_stops i c at place cancelled p) =
      rw p (omega (arith, move_task-measure s i ended c at (rw place (omega arith))))
  Step-measure {s} (client_panics i (c, at, place) p) =
      rw p (omega (arith, move_task-measure s i ended c at (rw place (omega arith))))
  Step-measure {s} (server_is_over e down p) =
      rw (p, e, length-cancel_all s.clients, all_left-cancel_all s.clients) (omega arith)
  Step-measure {s} (joins i e (c, at, place) p) =
      rw (p, e) (omega (arith, lt_of_at i c s.clients at))
  Step-measure {s} (prints i e all p) = rw (p, e) (omega arith)

  -- the steps of a run that do not serve a request
  unfoldable pub other_steps : {s t : Run S} → Reach st deadline_exceeded s t → ℕ
  other_steps here = 0
  other_steps (next r step) = other_steps r + (1 - if_true (is_serving step))

  other_steps-measure :
      {s t : Run S} (r : Reach st deadline_exceeded s t) → other_steps r + measure t ≤ measure s
  unfolding other_steps
  other_steps-measure here = omega arith
  other_steps-measure (next r step) =
      omega (arith, other_steps-measure r, Step-measure step, if_true-le (is_serving step))

  -- A run makes a bounded number of steps that do not serve a request: at most five for each client
  -- of the configuration, and twelve.
  pub other_steps_bounded :
      {Addr : Type 0} (runner : ServerRunner S Addr) {s : Run S}
      (r : Reach st deadline_exceeded (start st deadline_exceeded runner) s)
      → other_steps r ≤ 5 * length runner.config.clients + 12
  unfolding start measure all_left
  other_steps_bounded runner r = omega (arith, other_steps-measure r)

  -- Nothing fails in this step, and nobody interrupts the run.
  abbrev pub is_orderly : {s t : Run S} → Step st deadline_exceeded s t → Bool
  is_orderly (fails_to_connect _ _ _ _) = false
  is_orderly (interrupted _ _) = false
  is_orderly (server_fails _ _) = false
  is_orderly (client_panics _ _ _) = false
  is_orderly _ = true

  abbrev pub goes_orderly : {s t : Run S} → Reach st deadline_exceeded s t → Bool
  goes_orderly here = true
  goes_orderly (next r step) = goes_orderly r && is_orderly step

  Reach-trans :
      {s t u : Run S} (r : Reach st deadline_exceeded s t) (q : Reach st deadline_exceeded t u)
      → goes_orderly r ≡ true
      → goes_orderly q ≡ true
      → (whole : Reach st deadline_exceeded s u) × (goes_orderly whole ≡ true)
  Reach-trans r here first second = (r, first)
  Reach-trans r (next q step) first second =
      let (whole, orderly) = Reach-trans r q first (ground (arith, second)) in
      (next whole step, ground (arith, orderly, second))

  -- a step in order that serves nothing
  abbrev Progress : Run S → Type 0
  Progress s =
      (t : Run S) × (step : Step st deadline_exceeded s t) × (is_serving step ≡ false)
      × (is_orderly step ≡ true)

  -- `run` waits for a cancelled client.
  client-Progress :
      (task : Task) (s : Run S) (i : ℕ) (c : Client)
      → s.main ≡ joining i
      → get_elem? s.clients i ≡ some c
      → IsCancelled c
      → c.task ≡ task
      → Progress s
  client-Progress sleeping s i c e at cancelled place =
      (_, client_starts i (c, at, place) refl, refl, refl)
  client-Progress running s i c e at cancelled place =
      (_, client_stops i c at place cancelled refl, refl, refl)
  client-Progress ended s i c e at cancelled place = (_, joins i e (c, at, place) refl, refl, refl)

  join-Progress : (s : Run S) (i : ℕ) → s.main ≡ joining i → All IsCancelled s.clients → Progress s
  join-Progress s i e cancelled = elim (dec_lt i (length s.clients)) [
    | yes below ↦
        let (c, at) = at_of_lt i s.clients (omega (arith, below)) in
        client-Progress c.task s i c e at (All-at IsCancelled i c s.clients at cancelled) refl
    | no past ↦ (_, prints i e (omega (arith, past)) refl, refl, refl)
  ]

  await-Progress : (s : Run S) → s.main ≡ awaiting_server → IsArmed s → Progress s
  unfolding shutdown_signal
  await-Progress s e armed = elim (Bool-cases s.serving) [
    | inr down ↦ (_, server_is_over e down refl, refl, refl)
    | inl up ↦ elim armed [
      | inl timer ↦ (_, auto_timer_fires timer refl, refl, refl)
      | inr told ↦ (_, server_stops up (rw (told, shutdown_signal) refl) refl, refl, refl)
    ]
  ]

  main-Progress : (m : Main) (s : Run S) → s.main ≡ m → Holds m s → IsReturned m ⊎ Progress s
  main-Progress (connecting []) s e h = inr (_, all_connected e refl, refl, refl)
  main-Progress (connecting (c ∷ rest)) s e h = inr (_, connects c rest e refl, refl, refl)
  main-Progress awaiting_server s e h = inr (await-Progress s e h)
  main-Progress (joining i) s e (d, cancelled, over) = inr (join-Progress s i e cancelled)
  main-Progress returned_ok s e h = inl (inl refl)
  main-Progress returned_err s e h = inl (inr refl)

  return_from :
      (fuel : ℕ) (s : Run S)
      → measure s < fuel
      → Inv s
      → (t : Run S) × (r : Reach st deadline_exceeded s t) × (goes_orderly r ≡ true)
        × IsReturned t.main
  return_from zero s small inv = absurd (omega arith)
  return_from (suc fuel) s small inv = elim (main-Progress s.main s refl inv) [
    | inl returned ↦ (s, here, refl, returned)
    | inr (t, step, other, orderly) ↦
        let (u, r, rest, returned) =
          return_from fuel t (omega (arith, Step-measure step, ap if_true other))
            (Step-Inv st deadline_exceeded step inv) in
        let (whole, all) = Reach-trans (next here step) r orderly rest in (u, whole, all, returned)
  ]

  -- No run is stuck: whatever has happened so far, it can go on until `run` has returned, and for
  -- that nothing has to fail: no server, no client, no connection, and nobody has to interrupt it.
  pub run_can_return :
      {Addr : Type 0} (runner : ServerRunner S Addr) {s : Run S}
      → Reach st deadline_exceeded (start st deadline_exceeded runner) s
      → (t : Run S) × (r : Reach st deadline_exceeded s t) × (goes_orderly r ≡ true)
        × IsReturned t.main
  run_can_return runner {s} r =
      return_from (suc (measure s)) s (omega arith)
        (Reach-Inv st deadline_exceeded (start-Inv st deadline_exceeded runner) r)
