-- ===== src/Kv/Runner/Ends.antt =====
-- How a run ends: what it has then done, and that it does.
use distributed_systems.Prelude.{
  ◌≡◌, refl, sym, ap, ◌∙◌, Bool, true, some, List, [], ◌∷◌, ◌++◌, Text,
}
use distributed_systems.Kv.Storage.{Storage}
use distributed_systems.Kv.Server.{KeyValueServer, PacketLossWrapper, wrapper_put}
use distributed_systems.Kv.History.{Request, get_of, put_of, serve, serve_all}
use distributed_systems.Kv.Runner.{
  ServerRunner, returned_ok, returned_err, Run, shutdown_signal, start, handle, connect,
  connect_fails, spawn_timers, auto_fires, cancel_fires, server_finished, print_and_return,
  move_task,
}
use distributed_systems.Kv.Runner.Steps.{
  Step, connects, fails_to_connect, all_connected, interrupted, auto_timer_fires,
  cancel_timer_fires, server_stops, server_fails, serves, client_starts, client_stops,
  client_panics, server_is_over, joins, prints, Reach, here, next,
}
use distributed_systems.Kv.Runner.Invariant.{IsUntouched, IsFinal, Inv, Reach-Inv}

module _ {S Status : Type 0} (st : Storage S) (deadline_exceeded : Text → Status) where
  handle-serve :
      (lost : Bool) (service : PacketLossWrapper S) (request : Request)
      → (handle st deadline_exceeded lost service request).inner
        ≡ (serve {Status = Status} st service.inner request).0
  unfolding handle serve wrapper_put
  handle-serve lost service (get_of request) = refl
  handle-serve lost service (put_of request) = refl

  serve_all-append :
      (server : KeyValueServer S) (xs : List Request) (request : Request)
      → (serve_all {Status = Status} st server (xs ++ request ∷ [])).0
        ≡ (serve {Status = Status} st (serve_all {Status = Status} st server xs).0 request).0
  unfolding serve_all
  serve_all-append server [] request = refl
  serve_all-append server (x ∷ xs) request =
      serve_all-append (serve {Status = Status} st server x).0 xs request

  module _ (server : KeyValueServer S) where
    -- The service holds what the requests served so far have left.
    abbrev IsServed : Run S → Type 0
    IsServed s = s.service.inner ≡ (serve_all {Status = Status} st server s.served).0

    Step-IsServed : {s t : Run S} → Step st deadline_exceeded s t → IsServed s → IsServed t
    unfolding connect connect_fails spawn_timers auto_fires cancel_fires server_finished
        print_and_return move_task
    Step-IsServed (connects config rest e p) h = rw p h
    Step-IsServed (fails_to_connect config rest e p) h = rw p h
    Step-IsServed (all_connected e p) h = rw p h
    Step-IsServed (interrupted e p) h = rw p h
    Step-IsServed (auto_timer_fires e p) h = rw p h
    Step-IsServed (cancel_timer_fires e p) h = rw p h
    Step-IsServed (server_stops up signal p) h = rw p h
    Step-IsServed (server_fails up p) h = rw p h
    Step-IsServed {s} (serves i lost request up place p) h = rw p (
        handle-serve lost s.service request
        ∙ ap (λ v. (serve {Status = Status} st v request).0) h
        ∙ sym (serve_all-append server s.served request))
    Step-IsServed (client_starts i place p) h = rw p h
    Step-IsServed (client_stops i c at place cancelled p) h = rw p h
    Step-IsServed (client_panics i place p) h = rw p h
    Step-IsServed (server_is_over e down p) h = rw p h
    Step-IsServed (joins i e place p) h = rw p h
    Step-IsServed (prints i e all p) h = rw p h

    Reach-IsServed : {s t : Run S} → IsServed s → Reach st deadline_exceeded s t → IsServed t
    Reach-IsServed h here = h
    Reach-IsServed h (next r step) = Step-IsServed step (Reach-IsServed h r)

  module _ {Addr : Type 0} (runner : ServerRunner S Addr) where
    pub start-Inv : Inv (start st deadline_exceeded runner)
    unfolding start
    start-Inv = ((refl, refl, tt), refl)

    -- When `run` has returned `Ok`, the server is over and every client is cancelled and over, and
    -- what `print_all` has shown is what all requests that were ever served leave of the storage.
    pub returned_run_has_ended :
        {s : Run S}
        → Reach st deadline_exceeded (start st deadline_exceeded runner) s
        → s.main ≡ returned_ok
        → IsFinal s
          × (s.printed
              ≡ some
                  (serve_all {Status = Status} st
                    (record { storage = runner.storage })
                    s.served).0.storage)
    unfolding start serve_all
    returned_run_has_ended r e =
        let final = rw e at (Reach-Inv st deadline_exceeded start-Inv r) in
        (
          final,
          final.3
              ∙ ap (λ (v : KeyValueServer S). some v.storage)
                  (Reach-IsServed (record { storage = runner.storage }) refl r),
        )

    -- When a client cannot connect, `run` returns `Err` with nobody cancelled, now or later: no
    -- timer runs, and the dropped sender ends the server under the clients that are connected.
    pub failed_run_cancels_nobody :
        {s : Run S}
        → Reach st deadline_exceeded (start st deadline_exceeded runner) s
        → s.main ≡ returned_err
        → IsUntouched s × (shutdown_signal s ≡ true)
    unfolding shutdown_signal
    failed_run_cancels_nobody r e =
        let (untouched, d) = rw e at (Reach-Inv st deadline_exceeded start-Inv r) in
        (untouched, rw (d, shutdown_signal) refl)
