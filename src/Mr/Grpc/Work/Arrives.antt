-- ===== src/Mr/Grpc/Work/Arrives.antt =====
-- How often the worker's queue has an assignment that the coordinator sends.
use distributed_systems.Prelude.{
  ℕ, ◌≡◌, refl, ◌∙◌, ap, ◌⊎◌, inl, inr, true, false, Option, some, List, [], ◌∷◌, ◌++◌, Bool-cases,
}
use distributed_systems.Mr.Transport.{WorkerMessage, Mpsc}
use distributed_systems.Mr.Grpc.{Fate, Network, call}
use distributed_systems.Mr.Grpc.Work.{
  Json, WorkMessage, WorkAck, answer_of, queue, receive_work, recv, request, deliver,
}

module _ {W Tx Rx A C : Type 0} (mpsc : Mpsc W Tx Rx (WorkerMessage A C)) (assignments : Json A)
    (tokens : Json C) (net : Network W) (sleep : W → ℕ → W) (service_at : W → ℕ → Tx)
    (queued : W → Tx → List (WorkerMessage A C)) (rx_of : Tx → Rx) where
  -- A send that succeeds puts its message at the end of the queue; one that fails, and the network,
  -- leave the queue as it is.
  pub record IsQueue : Type 0 where
    pub send_adds :
        (w : W) (tx : Tx) (m : WorkerMessage A C)
        → (mpsc.send w tx m).1 ≡ true
        → queued ((mpsc.send w tx m).0) tx ≡ queued w tx ++ m ∷ []
    pub send_fails :
        (w : W) (tx : Tx) (m : WorkerMessage A C)
        → (mpsc.send w tx m).1 ≡ false
        → queued ((mpsc.send w tx m).0) tx ≡ queued w tx
    pub fate_keeps : (w : W) (tx : Tx) → queued ((net.fate w).0) tx ≡ queued w tx
    -- The worker's end of the channel takes the first message of the queue.
    pub recv_takes :
        (w : W) (tx : Tx) (m : WorkerMessage A C) (rest : List (WorkerMessage A C))
        → queued w tx ≡ m ∷ rest
        → (mpsc.recv w (rx_of tx)).1 ≡ some m

  module _ (laws : IsQueue)
      (reads_a : (a : A) → assignments.from_str (assignments.to_string a) ≡ some a)
      (reads_c : (c : C) → tokens.from_str (tokens.to_string c) ≡ some c) where
    abbrev message : A → C → WorkMessage
    message a c = record {
      assignment_json = assignments.to_string a;
      completion_json = tokens.to_string c;
    }

    receive_work_lem :
        (w : W) (tx : Tx) (a : A) (c : C)
        → receive_work mpsc assignments tokens tx (message a c) w
          ≡ queue mpsc assignments tokens tx (WorkerMessage.work a c) w
    unfolding receive_work
    receive_work_lem w tx a c = rw (reads_a a, receive_work) (rw (reads_c c) refl)

    abbrev handled : W → Tx → A → C → W × Option WorkAck
    handled w tx a c =
        let (w', result) = receive_work mpsc assignments tokens tx (message a c) w in
        (w', answer_of result)

    handled-queued :
        (w : W) (tx : Tx) (a : A) (c : C)
        → (mpsc.send w tx (WorkerMessage.work a c)).1 ≡ true
        → queued ((handled w tx a c).0) tx ≡ queued w tx ++ WorkerMessage.work a c ∷ []
    unfolding queue
    handled-queued w tx a c sent =
        ap (λ p. queued (p.0) tx) (receive_work_lem w tx a c)
        ∙ rw (sent, queue) (laws.send_adds w tx (WorkerMessage.work a c) sent)

    handled-once :
        (w : W) (tx : Tx) (a : A) (c : C)
        → (queued ((handled w tx a c).0) tx ≡ queued w tx)
          ⊎ (queued ((handled w tx a c).0) tx ≡ queued w tx ++ WorkerMessage.work a c ∷ [])
    unfolding queue
    handled-once w tx a c = elim (Bool-cases ((mpsc.send w tx (WorkerMessage.work a c)).1)) [
      | inl sent ↦ inr (handled-queued w tx a c sent)
      | inr fails ↦ inl (
          ap (λ p. queued (p.0) tx) (receive_work_lem w tx a c)
          ∙ rw (fails, queue) (laws.send_fails w tx (WorkerMessage.work a c) fails))
    ]

    -- Whatever the network does, an assignment that the coordinator sends is put in the worker's
    -- queue once, with its status sender, or not at all.
    pub deliver_at_most_once :
        (w : W) (addr : ℕ) (a : A) (c : C)
        → let w' = deliver mpsc assignments tokens net sleep service_at addr a c w in
          let tx = service_at w addr in
          (queued w' tx ≡ queued w tx) ⊎ (queued w' tx ≡ queued w tx ++ WorkerMessage.work a c ∷ [])
    unfolding deliver request call
    deliver_at_most_once w addr a c = go ((net.fate w).1) refl
      where
        tx : Tx
        tx = service_at w addr

        kept : queued ((net.fate w).0) tx ≡ queued w tx
        kept = laws.fate_keeps w tx

        once :
            (queued ((handled ((net.fate w).0) tx a c).0) tx ≡ queued w tx)
            ⊎ (queued ((handled ((net.fate w).0) tx a c).0) tx
                ≡ queued w tx ++ WorkerMessage.work a c ∷ [])
        once = rw kept at (handled-once ((net.fate w).0) tx a c)

        go :
            (fate : Fate)
            → (net.fate w).1 ≡ fate
            → let w' = deliver mpsc assignments tokens net sleep service_at addr a c w in
              (queued w' tx ≡ queued w tx)
              ⊎ (queued w' tx ≡ queued w tx ++ WorkerMessage.work a c ∷ [])
        go Fate.lost e = rw (e, deliver, request, call) (inl kept)
        go Fate.unanswered e = rw (e, deliver, request, call) once
        go Fate.answered e = rw (e, deliver, request, call) once

    -- An assignment that is sent to a worker whose queue is empty, with a call that is answered, is
    -- what the worker receives, together with the status sender that was sent.
    pub deliver-recv :
        (serve : W → ℕ → Tx → W) (w : W) (addr port : ℕ) (a : A) (c : C)
        → let tx = service_at w addr in
          (net.fate w).1 ≡ Fate.answered
          → (mpsc.send ((net.fate w).0) tx (WorkerMessage.work a c)).1 ≡ true
          → queued w tx ≡ []
          → let w' = deliver mpsc assignments tokens net sleep service_at addr a c w in
            (recv mpsc assignments tokens serve w' (record { port = port; rx = some (rx_of tx) })).2
            ≡ some (WorkerMessage.work a c)
    unfolding deliver request call recv
    deliver-recv serve w addr port a c answers sent empty =
        let tx = service_at w addr in
        let w1 = (net.fate w).0 in
        let w' = deliver mpsc assignments tokens net sleep service_at addr a c w in
        let there : queued w' tx ≡ WorkerMessage.work a c ∷ [] =
          rw (answers, deliver, request, call)
            (handled-queued w1 tx a c sent
              ∙ ap (λ l. l ++ WorkerMessage.work a c ∷ []) (laws.fate_keeps w tx ∙ empty)) in
        laws.recv_takes w' tx (WorkerMessage.work a c) [] there
