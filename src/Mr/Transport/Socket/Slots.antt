-- ===== src/Mr/Transport/Socket/Slots.antt =====
-- The listeners of the slots and the ports of their senders.
use distributed_systems.Prelude.{
  sym, ap, ◌∙◌, ◌==◌, if◌then◌else◌, Ends, Ends-map, ==_refl, [], ℕ, zero, suc, ◌+◌, ◌≤◌, ◌<◌, ◌≡◌,
  refl, none, some, Option, nat_eq, arith, Bool-cases, Option-cases, inl, inr,
}
use distributed_systems.Prelude.HashMap
use distributed_systems.Mr.Transport.Wire.{Tcp}
use distributed_systems.Mr.Transport.Socket.{
  Listeners, SocketStatusSender, SocketWorkerSynchronization, get_sender, listen_at, listen_from,
  new, close_slot, reset_worker,
}

module _ {W L C : Type 0} (tcp : Tcp W C) (sockets : Listeners W L C) (port_of : L → ℕ) where
  abbrev port : Option L → Option ℕ
  port none = none
  port (some l) = some (port_of l)

  -- Every slot's senders go to the port of its listener.
  abbrev pub IsPaired : SocketWorkerSynchronization L → Type 0
  IsPaired s = (j : ℕ) → HashMap.get s.ports j ≡ port (HashMap.get s.listeners j)

  -- `bind` yields the port of the listener.
  abbrev pub BindsPort : Type 0
  BindsPort =
      (w w' : W) (p actual : ℕ) (l : L)
      → sockets.bind w p ≡ some (w', l, actual)
      → port_of l ≡ actual

  -- `s'` is `s` but for a new listener in slot `i`.
  pub record Listens (s s' : SocketWorkerSynchronization L) (i : ℕ) : Type 0 where
    pub listener : L
    pub listeners_at :
        (j : ℕ)
        → HashMap.get s'.listeners j ≡ (if i == j then some listener else HashMap.get s.listeners j)
    pub ports_at :
        (j : ℕ)
        → HashMap.get s'.ports j
          ≡ (if i == j then some (port_of listener) else HashMap.get s.ports j)

  -- `s'` is `s` but that slot `i` has a listener to whose port `sender` sends.
  pub record Replaced (s s' : SocketWorkerSynchronization L) (i : ℕ) (sender : SocketStatusSender)
      : Type 0 where
    pub paired : IsPaired s'
    pub of_slot : sender.worker_id ≡ i
    pub listener : L
    pub to_listener : sender.port ≡ port_of listener
    pub listeners_at :
        (j : ℕ)
        → HashMap.get s'.listeners j ≡ (if i == j then some listener else HashMap.get s.listeners j)
    pub senders_at : (j : ℕ) → get_sender s' j ≡ (if i == j then some sender else get_sender s j)

  Listens-IsPaired :
      (s s' : SocketWorkerSynchronization L) (i : ℕ) → Listens s s' i → IsPaired s → IsPaired s'
  Listens-IsPaired s s' i h paired j = ground (arith, h.listeners_at j, h.ports_at j, paired j)

  module _ (binds : BindsPort) where
    listen_at-Listens :
        (w : W) (s : SocketWorkerSynchronization L) (i : ℕ)
        → Ends (λ r. Listens s (r.1) i) (listen_at tcp sockets w s i)
    unfolding listen_at
    listen_at-Listens w s i = elim (Option-cases (sockets.bind w 0)) [
      | inl fails ↦ rw (fails, listen_at) tt
      | inr ((w', l, p), bound) ↦
          rw (bound, listen_at)
            (record {
              listener = l;
              listeners_at = λ j. HashMap.get-insert s.listeners i j l;
              ports_at = λ j.
                  HashMap.get-insert s.ports i j p
                  ∙ ap (λ q. if i == j then some q else HashMap.get s.ports j)
                      (sym (binds w w' 0 p l bound));
            })
    ]

    listen_from-IsPaired :
        (n i : ℕ) (w : W) (s : SocketWorkerSynchronization L)
        → IsPaired s
        → Ends
            (λ r.
              IsPaired (r.1)
              × ((j : ℕ) → i ≤ j → j < i + n → (p : ℕ) × (HashMap.get ((r.1).ports) j ≡ some p))
              × ((j : ℕ) → j < i → HashMap.get ((r.1).ports) j ≡ HashMap.get s.ports j))
            (listen_from tcp sockets n i w s)
    unfolding listen_from
    listen_from-IsPaired zero i w s paired = (paired, λ j le lt. absurd (omega arith), λ j lt. refl)
    listen_from-IsPaired (suc n) i w s paired = elim (Option-cases (listen_at tcp sockets w s i)) [
      | inl fails ↦ rw (fails, listen_from) tt
      | inr ((w1, s1), works) ↦
          let h : Listens s s1 i = rw works at (listen_at-Listens w s i) in
          rw (works, listen_from)
            (Ends-map _ _ (listen_from tcp sockets n (i + 1) w1 s1)
              (λ r (pairs, have, kept). (
                pairs,
                λ j le lt. ground (arith, have j, kept j, h.ports_at j),
                λ j lt. ground (arith, kept j, h.ports_at j),
              ))
              (listen_from-IsPaired n (i + 1) w1 s1 (Listens-IsPaired s s1 i h paired)))
    ]

    close_slot_lem :
        (w : W) (s : SocketWorkerSynchronization L) (i j : ℕ)
        → (HashMap.get (((close_slot tcp sockets w s i).1).listeners) j
            ≡ (if i == j then none else HashMap.get s.listeners j))
          × (((close_slot tcp sockets w s i).1).ports ≡ s.ports)
    unfolding close_slot
    close_slot_lem w s i j = elim (Option-cases (HashMap.get s.listeners i)) [
      | inl gone ↦ rw (gone, close_slot) (HashMap.get-remove s.listeners i j, refl)
      | inr (l, had) ↦ rw (had, close_slot) (HashMap.get-remove s.listeners i j, refl)
    ]

    -- The slots that `new` makes are paired, and each worker has a sender.
    pub new-IsPaired :
        (w w' : W) (n j : ℕ) (s : SocketWorkerSynchronization L)
        → new tcp sockets w n ≡ some (w', s)
        → j < n
        → IsPaired s × ((sender : SocketStatusSender) × (get_sender s j ≡ some sender))
    unfolding new get_sender HashMap.get
    new-IsPaired w w' n j s made lt =
        let h = listen_from-IsPaired n 0 w (record { listeners = []; ports = [] }) (λ j. refl) in
        let (paired, have, _) = rw made at h in
        let (p, at) = have j (omega arith) (omega arith) in
        (paired, (record { port = p; worker_id = j }, rw (at, get_sender) refl))

    Listens-Replaced :
        (s s1 s2 : SocketWorkerSynchronization L) (i p : ℕ) (h : Listens s1 s2 i)
        → IsPaired s
        → ((j : ℕ)
            → HashMap.get s1.listeners j ≡ (if i == j then none else HashMap.get s.listeners j))
        → s1.ports ≡ s.ports
        → p ≡ port_of h.listener
        → Replaced s s2 i (record { port = p; worker_id = i })
    unfolding get_sender
    Listens-Replaced s s1 s2 i p h paired closed kept same = record {
      paired = λ j. ground (arith, h.listeners_at j, h.ports_at j, closed j, kept, paired j);
      of_slot = refl;
      listener = h.listener;
      to_listener = same;
      listeners_at = λ j. ground (arith, h.listeners_at j, closed j);
      senders_at = λ j. elim (Bool-cases (i == j)) [
        | inl here ↦
            let is_j : i ≡ j = ground (arith, here) in
            let at : HashMap.get s2.ports j ≡ some p =
              h.ports_at j ∙ rw here (ap some (sym same)) in
            rw (at, get_sender)
              (rw here (ap (λ k. some (record { port = p; worker_id = k })) (sym is_j)))
        | inr other ↦
            let same : HashMap.get s2.ports j ≡ HashMap.get s.ports j =
              h.ports_at j ∙ rw other (ap (λ m. HashMap.get m j) kept) in
            rw (same, get_sender) (rw other refl)
      ];
    }

    reset_worker-Ends :
        (w : W) (i : ℕ) (s : SocketWorkerSynchronization L)
        → IsPaired s
        → Ends (λ (w', s', sender). Replaced s s' i sender) (reset_worker tcp sockets w s i)
    unfolding reset_worker get_sender
    reset_worker-Ends w i s paired =
        let w1 = (close_slot tcp sockets w s i).0 in
        let s1 = (close_slot tcp sockets w s i).1 in
        let closed = close_slot_lem w s i in
        elim (Option-cases (listen_at tcp sockets w1 s1 i)) [
          | inl fails ↦ rw (fails, reset_worker) tt
          | inr ((w2, s2), works) ↦
              let h : Listens s1 s2 i = rw works at (listen_at-Listens w1 s1 i) in
              let at : HashMap.get s2.ports i ≡ some (port_of h.listener) =
                h.ports_at i ∙ rw (==_refl i) refl in
              rw (works, reset_worker)
                (rw (at, get_sender)
                  (Listens-Replaced s s1 s2 i (port_of h.listener) h paired (λ j. (closed j).0)
                    ((closed i).1) refl))
        ]

    -- A reset gives the worker's slot a listener of its own, to which the sender that it returns
    -- sends, and leaves the other slots and their senders as they are.
    pub reset_worker_moves_listener :
        (w w' : W) (i : ℕ) (s s' : SocketWorkerSynchronization L) (sender : SocketStatusSender)
        → IsPaired s
        → reset_worker tcp sockets w s i ≡ some (w', s', sender)
        → Replaced s s' i sender
    reset_worker_moves_listener w w' i s s' sender paired done =
        rw done at (reset_worker-Ends w i s paired)
