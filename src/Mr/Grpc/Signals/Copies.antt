-- ===== src/Mr/Grpc/Signals/Copies.antt =====
-- How often a report of a worker stands in the coordinator's queue.
use distributed_systems.Prelude.{
  ℕ, zero, suc, ◌≤◌, ◌≡◌, refl, sym, ap, ◌∙◌, Bool, true, false, Option, none, List, [], ◌∷◌, ◌++◌,
  replicate, append_assoc, append-nil, arith, u64, ◌⊎◌, Option-cases, if◌then◌else◌, Bool-cases,
  inl, inr,
}
use distributed_systems.Mr.Worker.{Status}
use distributed_systems.Mr.Transport.{Mpsc}
use distributed_systems.Mr.Grpc.{Fate, Network, call}
use distributed_systems.Mr.Grpc.Signals.{
  Notify, SynchronizationService, CompletionAck, GrpcStatusSender, is_ok, report_completion, try,
  attempts, send,
}

module _ {W Tx Rx N : Type 0} (mpsc : Mpsc W Tx Rx (ℕ × Bool)) (notify : Notify W N)
    (net : Network W) (sleep : W → ℕ → W) (service : SynchronizationService Tx N)
    (queued : W → List (ℕ × Bool)) where
  -- `queued` is the queue of the service: a send that succeeds puts its message at the end, and
  -- nothing else that a sender does touches it.
  pub record IsQueue : Type 0 where
    pub send_adds :
        (w : W) (m : ℕ × Bool)
        → (mpsc.send w service.completion_tx m).1 ≡ true
        → queued ((mpsc.send w service.completion_tx m).0) ≡ queued w ++ m ∷ []
    pub send_fails :
        (w : W) (m : ℕ × Bool)
        → (mpsc.send w service.completion_tx m).1 ≡ false
        → queued ((mpsc.send w service.completion_tx m).0) ≡ queued w
    pub connect_keeps : (w : W) → queued ((net.connect w).0) ≡ queued w
    pub fate_keeps : (w : W) → queued ((net.fate w).0) ≡ queued w
    pub sleep_keeps : (w : W) (ms : ℕ) → queued (sleep w ms) ≡ queued w

  -- The queue has one message more, or it has none more and there is no answer.
  abbrev Adds {ℓ} : {A : Type ℓ} → A → ℕ × Bool → W → W → A → Type ℓ
  Adds failure m w w' answer =
      (queued w' ≡ queued w ++ m ∷ []) ⊎ ((queued w' ≡ queued w) × (answer ≡ failure))

  -- The queue has `k` more copies of `m`, at least one when the sender was told so.
  abbrev pub Copied : ℕ × Bool → ℕ → W → W → Bool → Type 0
  Copied m n w w' told =
      (k : ℕ) × (k ≤ n) × (queued w' ≡ queued w ++ replicate k m) × ((if told then 1 else 0) ≤ k)

  module _ (laws : IsQueue) (id : ℕ) (success : Bool) where
    abbrev report : W → W × Option CompletionAck
    report w =
        report_completion mpsc notify service (record { worker_id = id; success = success }) w

    report-Adds : (w : W) → Adds none (id, success) w ((report w).0) ((report w).1)
    unfolding report_completion
    report-Adds w = elim (Bool-cases ((mpsc.send w service.completion_tx (id, success)).1)) [
      | inl sent ↦ rw (sent, report_completion) (inl (laws.send_adds w (id, success) sent))
      | inr fails ↦
          rw (fails, report_completion) (inr (laws.send_fails w (id, success) fails, refl))
    ]

    call-Adds : (w : W) → Adds none (id, success) w ((call net report w).0) ((call net report w).1)
    unfolding call
    call-Adds w = go ((net.fate w).1) refl
      where
        kept : queued ((net.fate w).0) ≡ queued w
        kept = laws.fate_keeps w

        added :
            Adds none (id, success) w ((report ((net.fate w).0)).0) ((report ((net.fate w).0)).1)
        added = rw kept at (report-Adds ((net.fate w).0))

        go :
            (fate : Fate)
            → (net.fate w).1 ≡ fate
            → Adds none (id, success) w ((call net report w).0) ((call net report w).1)
        go Fate.lost e = rw (e, call) (inr (kept, refl))
        go Fate.unanswered e =
            rw (e, call) (elim added [ inl more ↦ inl more | inr (same, _) ↦ inr (same, refl) ])
        go Fate.answered e = rw (e, call) added

    try-Adds :
        (w : W)
        → let (w', answered) = try mpsc notify net sleep report w in
          Adds false (id, success) w w' answered
    unfolding try
    try-Adds w =
        let w1 = (net.connect w).0 in
        let called = rw (laws.connect_keeps w) at (call-Adds w1) in
        elim (Bool-cases ((net.connect w).1)) [
          | inr fails ↦ rw (fails, try) (inr (laws.connect_keeps w, refl))
          | inl connects ↦ elim (Option-cases ((call net report w1).1)) [
            | inl nothing ↦
                rw (connects, try)
                  (rw nothing
                    (elim called [ inl more ↦ inl more | inr (same, _) ↦ inr (same, refl) ]))
            | inr (r, answers) ↦
                rw (connects, try)
                  (rw answers (elim called [
                    | inl more ↦ inl more
                    | inr (_, none_came) ↦ absurd (ground (arith, answers, none_came))
                  ]))
          ]
        ]

    attempts-Copied :
        (n : ℕ) (w : W)
        → let (w', told) = attempts mpsc notify net sleep n report w in
          Copied (id, success) n w w' told
    unfolding attempts
    attempts-Copied zero w = (0, omega arith, sym (append-nil (queued w)), omega arith)
    attempts-Copied (suc n) w =
        let tried = try mpsc notify net sleep report w in
        let w2 = sleep (tried.0) 100 in
        let (k, le, more, told) = rw (laws.sleep_keeps (tried.0) 100) at (attempts-Copied n w2) in
        elim (Bool-cases (tried.1)) [
          | inl answered ↦
              rw (answered, attempts)
                (elim (try-Adds w) [
                  | inl once ↦ (1, omega arith, once, omega arith)
                  | inr (_, fails) ↦ absurd (ground (arith, answered, fails))
                ])
          | inr fails ↦
              rw (fails, attempts)
                (elim (try-Adds w) [
                  | inl once ↦ (
                    suc k,
                    omega (arith, le),
                    more
                        ∙ ap (λ l. l ++ replicate k (id, success)) once
                        ∙ append_assoc (queued w) ((id, success) ∷ []) (replicate k (id, success)),
                    omega (arith, told),
                  )
                  | inr (same, _) ↦ (
                    k,
                    omega (arith, le),
                    more ∙ ap (λ l. l ++ replicate k (id, success)) same,
                    told,
                  )
                ])
        ]

    module _ (connects : (v : W) → (net.connect v).1 ≡ true)
        (unanswered : (v : W) → (net.fate v).1 ≡ Fate.unanswered)
        (sends : (v : W) (m : ℕ × Bool) → (mpsc.send v service.completion_tx m).1 ≡ true) where
      try-lost :
          (w : W)
          → let (w', answered) = try mpsc notify net sleep report w in
            (queued w' ≡ queued w ++ (id, success) ∷ []) × (answered ≡ false)
      unfolding try call report_completion
      try-lost w =
          let w1 = (net.connect w).0 in
          let w2 = (net.fate w1).0 in
          let quiet : (call net report w1).1 ≡ none = rw (unanswered w1, call) refl in
          let same : (call net report w1).0 ≡ (mpsc.send w2 service.completion_tx (id, success)).0 =
            rw (unanswered w1, call) (rw (sends w2 (id, success), report_completion) refl) in
          let more : queued ((call net report w1).0) ≡ queued w ++ (id, success) ∷ [] =
            ap queued same
            ∙ laws.send_adds w2 (id, success) (sends w2 (id, success))
            ∙ ap (λ l. l ++ (id, success) ∷ []) (laws.fate_keeps w1 ∙ laws.connect_keeps w) in
          rw (connects w, try) (rw quiet (more, refl))

      attempts-lost :
          (n : ℕ) (w : W)
          → queued ((attempts mpsc notify net sleep n report w).0)
            ≡ queued w ++ replicate n (id, success)
      unfolding attempts
      attempts-lost zero w = sym (append-nil (queued w))
      attempts-lost (suc n) w =
          let (more, fails) = try-lost w in
          let w1 = (try mpsc notify net sleep report w).0 in
          rw (fails, attempts)
            (attempts-lost n (sleep w1 100)
              ∙ ap (λ l. l ++ replicate n (id, success)) (laws.sleep_keeps w1 100 ∙ more)
              ∙ append_assoc (queued w) ((id, success) ∷ []) (replicate n (id, success)))

  -- A report stands at most five times in the coordinator's queue, and at least once when the worker
  -- is told that it was sent.
  pub send_copies :
      IsQueue
      → (w : W) (sender : GrpcStatusSender) (status : Status)
      → let (w', told) = send mpsc notify net sleep service w sender status in
        Copied (u64 sender.worker_id, is_ok status) 5 w w' told
  unfolding send
  send_copies laws w sender status = attempts-Copied laws (u64 sender.worker_id) (is_ok status) 5 w

  -- When each report is queued and no answer comes back, it stands there five times.
  pub lost_answers_repeat_report :
      IsQueue
      → ((v : W) → (net.connect v).1 ≡ true)
      → ((v : W) → (net.fate v).1 ≡ Fate.unanswered)
      → ((v : W) (m : ℕ × Bool) → (mpsc.send v service.completion_tx m).1 ≡ true)
      → (w : W) (sender : GrpcStatusSender) (status : Status)
      → queued ((send mpsc notify net sleep service w sender status).0)
        ≡ queued w ++ replicate 5 (u64 sender.worker_id, is_ok status)
  unfolding send
  lost_answers_repeat_report laws connects unanswered sends w sender status =
      attempts-lost laws (u64 sender.worker_id) (is_ok status) connects unanswered sends 5 w
