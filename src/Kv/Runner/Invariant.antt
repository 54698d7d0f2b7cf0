-- ===== src/Kv/Runner/Invariant.antt =====
-- What holds wherever `run` stands, whatever its tasks have done.
use distributed_systems.Prelude.{
  ℕ, ◌≡◌, ◌≢◌, refl, sym, ◌∙◌, true, false, ◌⊎◌, inl, inr, some, List, ◌∷◌, get_elem?, take, All,
  All-append, Text, length, ◌≤◌, arith,
}
use distributed_systems.Kv.Storage.{Storage}
use distributed_systems.Kv.Server.{PacketLossWrapper}
use distributed_systems.Kv.History.{Request}
use distributed_systems.Kv.Client.{ClientConfig}
use distributed_systems.Kv.Runner.{
  Client, Task, sleeping, running, ended, held, sent, dropped, unset, waiting, Main, connecting,
  awaiting_server, joining, returned_ok, returned_err, Run, connect, connect_fails, spawn_timers,
  auto_fires, cancel_fires, server_finished, print_and_return, move_task,
}
use distributed_systems.Kv.Runner.Steps.{
  Step, connects, fails_to_connect, all_connected, interrupted, auto_timer_fires,
  cancel_timer_fires, server_stops, server_fails, serves, client_starts, client_stops,
  client_panics, server_is_over, joins, prints, Reach, here, next,
}
use distributed_systems.Kv.Runner.Clients.{
  IsCancelled, IsFree, IsOver, cancel_all-IsCancelled, cancel_all-IsOver, cancel_all-All,
  All-set_task, set_task-IsOver, All-take-suc, take_of_le, All-at,
}

not_over : (task : Task) (c : Client) → c.task ≡ task → task ≢ ended → c.task ≢ ended
not_over task c at live e = live (sym at ∙ e)

module _ {S : Type 0} where
  -- No timer runs, and nobody is cancelled.
  abbrev pub IsUntouched : Run S → Type 0
  IsUntouched s = (s.auto_timer ≡ unset) × (s.cancel_timer ≡ unset) × All IsFree s.clients

  -- The server will be told to end, or has been.
  abbrev pub IsArmed : Run S → Type 0
  IsArmed s = (s.auto_timer ≡ waiting) ⊎ (s.auto_shutdown ≡ sent)

  -- The server is over, every client is cancelled and over, and the storage is shown.
  abbrev pub IsFinal : Run S → Type 0
  IsFinal s =
      (s.serving ≡ false)
      × All IsCancelled s.clients
      × All IsOver s.clients
      × (s.printed ≡ some s.service.inner.storage)

  abbrev pub Holds : Main → Run S → Type 0
  Holds (connecting _) s = IsUntouched s × (s.auto_shutdown ≡ held)
  Holds awaiting_server s = IsArmed s
  Holds (joining i) s =
      (s.serving ≡ false) × All IsCancelled s.clients × All IsOver (take i s.clients)
  Holds returned_ok s = IsFinal s
  Holds returned_err s = IsUntouched s × (s.auto_shutdown ≡ dropped)

  abbrev pub Inv : Run S → Type 0
  Inv s = Holds s.main s

  module _ (s : Run S) where
    connect-Inv :
        (config : ClientConfig) (rest : List ClientConfig)
        → Holds (connecting (config ∷ rest)) s
        → Inv (connect config rest s)
    unfolding connect
    connect-Inv config rest ((a, c, free), h) =
        ((a, c, All-append IsFree s.clients _ free (refl, tt)), h)

    interrupted-Holds : (m : Main) → Holds m s → Holds m (record s { ctrl_c = true })
    interrupted-Holds (connecting rest) h = h
    interrupted-Holds awaiting_server h = h
    interrupted-Holds (joining i) h = h
    interrupted-Holds returned_ok h = h
    interrupted-Holds returned_err h = h

    stopped-Holds : (m : Main) → Holds m s → Holds m (record s { serving = false })
    stopped-Holds (connecting rest) h = h
    stopped-Holds awaiting_server h = h
    stopped-Holds (joining i) (d, c, o) = (refl, c, o)
    stopped-Holds returned_ok (d, c, o, p) = (refl, c, o, p)
    stopped-Holds returned_err h = h

    auto_fires-Holds : (m : Main) → s.auto_timer ≡ waiting → Holds m s → Holds m (auto_fires s)
    unfolding auto_fires
    auto_fires-Holds (connecting rest) w ((a, c, h), g) = absurd (ground arith)
    auto_fires-Holds awaiting_server w h = inr refl
    auto_fires-Holds (joining i) w (d, c, o) =
        (d, cancel_all-IsCancelled s.clients, cancel_all-IsOver i s.clients o)
    auto_fires-Holds returned_ok w (d, c, o, p) =
        (d, cancel_all-IsCancelled s.clients, cancel_all-All s.clients o, p)
    auto_fires-Holds returned_err w ((a, c, h), g) = absurd (ground arith)

    cancel_fires-Holds :
        (m : Main) → s.cancel_timer ≡ waiting → Holds m s → Holds m (cancel_fires s)
    unfolding cancel_fires
    cancel_fires-Holds (connecting rest) w ((a, c, h), g) = absurd (ground arith)
    cancel_fires-Holds awaiting_server w h = h
    cancel_fires-Holds (joining i) w (d, c, o) =
        (d, cancel_all-IsCancelled s.clients, cancel_all-IsOver i s.clients o)
    cancel_fires-Holds returned_ok w (d, c, o, p) =
        (d, cancel_all-IsCancelled s.clients, cancel_all-All s.clients o, p)
    cancel_fires-Holds returned_err w ((a, c, h), g) = absurd (ground arith)

    -- A task that is not over moves on.
    move_task-Holds :
        (m : Main) (i : ℕ) (task : Task) (c : Client)
        → get_elem? s.clients i ≡ some c
        → c.task ≢ ended
        → Holds m s
        → Holds m (move_task i task s)
    unfolding move_task
    move_task-Holds (connecting rest) i task c at live ((a, t, free), h) =
        ((a, t, All-set_task IsFree i task s.clients (λ _ f. f) free), h)
    move_task-Holds awaiting_server i task c at live h = h
    move_task-Holds (joining j) i task c at live (d, cancelled, over) = (
      d,
      All-set_task IsCancelled i task s.clients (λ _ f. f) cancelled,
      set_task-IsOver i j task c s.clients at (λ e. absurd (live e)) over,
    )
    move_task-Holds returned_ok i task c at live (d, cancelled, over, p) =
        absurd (live (All-at IsOver i c s.clients at over))
    move_task-Holds returned_err i task c at live ((a, t, free), h) =
        ((a, t, All-set_task IsFree i task s.clients (λ _ f. f) free), h)

    print-Inv : (i : ℕ) → length s.clients ≤ i → Holds (joining i) s → Inv (print_and_return s)
    unfolding print_and_return
    print-Inv i h (d, c, o) = (d, c, rw (take_of_le i s.clients h) at o, refl)

    -- A request is served while the server's task is not over.
    served-Holds :
        (m : Main) (service : PacketLossWrapper S) (served : List Request)
        → s.serving ≡ true
        → Holds m s
        → Holds m (record s { service = service; served = served })
    served-Holds (connecting rest) service served up h = h
    served-Holds awaiting_server service served up h = h
    served-Holds (joining i) service served up (down, c, o) = absurd (ground arith)
    served-Holds returned_ok service served up (down, c, o, p) = absurd (ground arith)
    served-Holds returned_err service served up h = h

module _ {S Status : Type 0} (st : Storage S) (deadline_exceeded : Text → Status) where
  pub Step-Inv : {s t : Run S} → Step st deadline_exceeded s t → Inv s → Inv t
  unfolding connect connect_fails spawn_timers auto_fires cancel_fires server_finished
      print_and_return move_task
  Step-Inv {s} (connects config rest e p) inv = rw p (connect-Inv s config rest (rw e at inv))
  Step-Inv {s} (fails_to_connect config rest e p) inv = let h = rw e at inv in rw p (h.0, refl)
  Step-Inv {s} (all_connected e p) inv = rw p (inl refl)
  Step-Inv {s} (interrupted e p) inv = rw p (interrupted-Holds s s.main inv)
  Step-Inv {s} (auto_timer_fires e p) inv = rw p (auto_fires-Holds s s.main e inv)
  Step-Inv {s} (cancel_timer_fires e p) inv = rw p (cancel_fires-Holds s s.main e inv)
  Step-Inv {s} (server_stops up signal p) inv = rw p (stopped-Holds s s.main inv)
  Step-Inv {s} (server_fails up p) inv = rw p (stopped-Holds s s.main inv)
  Step-Inv {s} (serves i lost request up place p) inv = rw p (served-Holds s s.main _ _ up inv)
  Step-Inv {s} (client_starts i (c, at, place) p) inv =
      rw p (move_task-Holds s s.main i running c at (not_over sleeping c place (λ e. cc)) inv)
  Step-Inv {s} (client_stops i c at place cancelled p) inv =
      rw p (move_task-Holds s s.main i ended c at (not_over running c place (λ e. cc)) inv)
  Step-Inv {s} (client_panics i (c, at, place) p) inv =
      rw p (move_task-Holds s s.main i ended c at (not_over running c place (λ e. cc)) inv)
  Step-Inv {s} (server_is_over e down p) inv = rw p (down, cancel_all-IsCancelled s.clients, tt)
  Step-Inv {s} (joins i e (c, at, over) p) inv =
      let (d, cancelled, before) = rw e at inv in
      rw p (d, cancelled, All-take-suc IsOver i c s.clients at over before)
  Step-Inv {s} (prints i e all p) inv = rw p (print-Inv s i all (rw e at inv))

  pub Reach-Inv : {s t : Run S} → Inv s → Reach st deadline_exceeded s t → Inv t
  Reach-Inv inv here = inv
  Reach-Inv inv (next r step) = Step-Inv step (Reach-Inv inv r)
