-- ===== src/Mr/Worker/Finishes.antt =====
-- The whole loop of a worker, on the messages that wait for it.
use distributed_systems.Prelude.{
  ℕ, zero, suc, ◌+◌, ◌≡◌, ◌<◌, refl, ◌∙◌, ap, ◌⊎◌, inl, inr, false, Option, some, List, [], ◌∷◌,
  length, length-append, ltb, arith, Bool-cases, Option-cases, Ends,
}
use distributed_systems.Mr.Worker.{
  Status, Runtime, Received, timed_out, closed, initialize, work, Round, again, stop, died, stopped,
  Task, draw, straggle, on_work, on_received, run,
}
use distributed_systems.Mr.Worker.Answers.{IsRecorded, on_work_answers_once}

module _ {W A : Type 0} (rt : Runtime W A) (P : W → Type 0) where
  -- What a worker does with an assignment keeps `P`.
  pub record Keeps : Type 0 where
    pub send : (w : W) (st : Status) → P w → P ((rt.send w st).0)
    pub random_below : (w : W) (n : ℕ) → P w → P ((rt.random_below w n).0)
    pub random_up_to : (w : W) (n : ℕ) → P w → P ((rt.random_up_to w n).0)
    pub sleep : (w : W) (n : ℕ) → P w → P (rt.sleep w n)

  abbrev pub RoundIn : Round W → Type 0
  RoundIn (again w) = P w
  RoundIn (stop w) = P w
  RoundIn (died w) = P w

  module _ (k : Keeps) where
    draw-Keeps : (n : ℕ) (w : W) → P w → P ((draw rt n w).0)
    unfolding draw
    draw-Keeps n w h = elim (Bool-cases (ltb 0 n)) [
      | inl some_time ↦ rw (some_time, draw) (k.random_below w 100 h)
      | inr never ↦ rw (never, draw) h
    ]

    straggle-Keeps : (task : Task) (w : W) → P w → Ends P (straggle rt task w)
    unfolding straggle
    straggle-Keeps task w h =
        let w1 = (draw rt task.straggler_probability w).0 in
        let h1 = draw-Keeps task.straggler_probability w h in
        let delayed = rt.random_up_to w1 task.straggler_delay_ms in
        elim (Bool-cases ((draw rt task.straggler_probability w).1)) [
          | inr prompt ↦ rw (prompt, straggle) h1
          | inl slow ↦ elim (Bool-cases (ltb 0 task.straggler_delay_ms)) [
            | inr never ↦ rw (slow, straggle) (rw never tt)
            | inl positive ↦
                rw (slow, straggle)
                  (rw positive (
                    k.sleep (delayed.0) (delayed.1) (k.random_up_to w1 task.straggler_delay_ms h1)))
          ]
        ]

    pub on_work-Keeps :
        (task : Task) (job : W → A → Option W) (a : A) (w : W)
        → ((v : W) → P v → Ends P (job v a))
        → P w
        → RoundIn (on_work rt task job a w)
    unfolding on_work
    on_work-Keeps task job a w keeps h =
        let w1 = (draw rt task.failure_probability w).0 in
        let h1 = draw-Keeps task.failure_probability w h in
        let straggled = straggle-Keeps task w1 h1 in
        elim (Bool-cases ((draw rt task.failure_probability w).1)) [
          | inl fails ↦ rw (fails, on_work) (k.send w1 Status.err h1)
          | inr works ↦ elim (Option-cases (straggle rt task w1)) [
            | inl out ↦ rw (works, on_work) (rw out h1)
            | inr (w3, slow) ↦
                let h3 : P w3 = rw slow at straggled in
                let worked = keeps w3 h3 in
                elim (Option-cases (job w3 a)) [
                  | inl panics ↦ rw (works, on_work) (rw slow (rw panics h3))
                  | inr (w4, returns) ↦
                      rw (works, on_work)
                        (rw slow
                          (rw returns (k.send w4 (Status.ok task.id) (rw returns at worked))))
                ]
          ]
        ]

-- How many statuses are due for some messages: one for each assignment before the end.
module _ {A : Type 0} where
  abbrev pub due : List (Received A) → ℕ
  due [] = 0
  due (closed ∷ rest) = 0
  due (timed_out ∷ rest) = due rest
  due (initialize ∷ rest) = due rest
  due (work a ∷ rest) = suc (due rest)

module _ {W A : Type 0} (rt : Runtime W A) (sent : W → List Status)
    (inbox : W → List (Received A)) where
  -- `inbox` is what `recv` will yield, one after the other and then the end; nobody shuts down.
  pub record IsInbox : Type 0 where
    pub cancelled : (w : W) → (rt.is_cancelled w).1 ≡ false
    pub cancelled-inbox : (w : W) → inbox ((rt.is_cancelled w).0) ≡ inbox w
    pub cancelled-sent : (w : W) → sent ((rt.is_cancelled w).0) ≡ sent w
    pub recv_takes :
        (w : W) (ms : ℕ) (m : Received A) (rest : List (Received A))
        → inbox w ≡ m ∷ rest
        → ((rt.recv w ms).1 ≡ m) × (inbox ((rt.recv w ms).0) ≡ rest)
    pub recv_ends : (w : W) (ms : ℕ) → inbox w ≡ [] → (rt.recv w ms).1 ≡ closed
    pub recv-sent : (w : W) (ms : ℕ) → sent ((rt.recv w ms).0) ≡ sent w
    pub register-inbox : (w : W) (id : ℕ) → inbox ((rt.register w id).0) ≡ inbox w
    pub register-sent : (w : W) (id : ℕ) → sent ((rt.register w id).0) ≡ sent w
    pub send-inbox : (w : W) (st : Status) → inbox ((rt.send w st).0) ≡ inbox w
    pub random_below-inbox : (w : W) (n : ℕ) → inbox ((rt.random_below w n).0) ≡ inbox w
    pub random_up_to-inbox : (w : W) (n : ℕ) → inbox ((rt.random_up_to w n).0) ≡ inbox w
    pub sleep-inbox : (w : W) (n : ℕ) → inbox (rt.sleep w n) ≡ inbox w

  module _ (rec : IsRecorded rt sent) (laws : IsInbox) (task : Task) (job : W → A → Option W)
      (delay : (0 < task.straggler_delay_ms) ⊎ (task.straggler_probability ≡ 0))
      (returns : (v : W) (a : A)
        → (v' : W) × (job v a ≡ some v') × (sent v' ≡ sent v) × (inbox v' ≡ inbox v)) where
    inbox-Keeps : (rest : List (Received A)) → Keeps rt (λ v. inbox v ≡ rest)
    inbox-Keeps rest = record {
      send = λ w st h. laws.send-inbox w st ∙ h;
      random_below = λ w n h. laws.random_below-inbox w n ∙ h;
      random_up_to = λ w n h. laws.random_up_to-inbox w n ∙ h;
      sleep = λ w n h. laws.sleep-inbox w n ∙ h;
    }

    job-inbox :
        (rest : List (Received A)) (a : A) (v : W)
        → inbox v ≡ rest
        → Ends (λ u. inbox u ≡ rest) (job v a)
    job-inbox rest a v h = let (v', back, _, same) = returns v a in rw back (same ∙ h)

    -- an assignment: one status more, and the same messages left
    on_work-Answers :
        (a : A) (w : W)
        → (w' : W) × (on_work rt task job a w ≡ again w')
          × (inbox w' ≡ inbox w)
          × (length (sent w') ≡ suc (length (sent w)))
    on_work-Answers a w =
        let (w', next, answers) =
          on_work_answers_once rt sent rec task job a w delay
            (λ v. let (v', back, same, _) = returns v a in (v', back, same)) in
        let left =
          on_work-Keeps rt (λ v. inbox v ≡ inbox w) (inbox-Keeps (inbox w)) task job a w
            (job-inbox (inbox w) a) refl in
        (
          w',
          next,
          rw next at left,
          elim answers [
            | inl e ↦ omega (arith, ap length e, length-append (sent w) (Status.ok task.id ∷ []))
            | inr e ↦ omega (arith, ap length e, length-append (sent w) (Status.err ∷ []))
          ],
        )

    -- one round on a message that waits
    module _ (w : W) (m : Received A) (rest : List (Received A))
        (waiting : inbox w ≡ m ∷ rest) where
      abbrev received : W
      received = (rt.recv ((rt.is_cancelled w).0) 100).0

      takes : ((rt.recv ((rt.is_cancelled w).0) 100).1 ≡ m) × (inbox received ≡ rest)
      takes = laws.recv_takes ((rt.is_cancelled w).0) 100 m rest (laws.cancelled-inbox w ∙ waiting)

    quiet_round : (w : W) → sent ((rt.recv ((rt.is_cancelled w).0) 100).0) ≡ sent w
    quiet_round w = laws.recv-sent ((rt.is_cancelled w).0) 100 ∙ laws.cancelled-sent w

    -- A worker that nobody shuts down stops when its messages come to an end, and has then answered
    -- each assignment with exactly one status. Its job returns and sends no status of its own, a delay
    -- can be drawn where stragglers are simulated, and the fuel exceeds the messages.
    pub run_answers_all :
        (fuel : ℕ) (w : W) (messages : List (Received A))
        → inbox w ≡ messages
        → length messages < fuel
        → (w' : W) × (run rt task job fuel w ≡ stopped w')
          × (length (sent w') ≡ length (sent w) + due messages)
    unfolding run on_received
    run_answers_all zero w messages waiting enough = absurd (omega arith)
    run_answers_all (suc fuel) w [] waiting enough =
        let ends = laws.recv_ends ((rt.is_cancelled w).0) 100 (laws.cancelled-inbox w ∙ waiting) in
        rw (laws.cancelled w, run)
          (rw ends (
            (rt.recv ((rt.is_cancelled w).0) 100).0,
            refl,
            omega (arith, ap length (quiet_round w)),
          ))
    run_answers_all (suc fuel) w (closed ∷ rest) waiting enough =
        let (got, left) = takes w closed rest waiting in
        rw (laws.cancelled w, run)
          (rw got (received w closed rest waiting, refl, omega (arith, ap length (quiet_round w))))
    run_answers_all (suc fuel) w (timed_out ∷ rest) waiting enough =
        let (got, left) = takes w timed_out rest waiting in
        let (w', stops, counts) =
          run_answers_all fuel (received w timed_out rest waiting) rest left (omega arith) in
        rw (laws.cancelled w, run)
          (rw got (w', stops, omega (arith, counts, ap length (quiet_round w))))
    run_answers_all (suc fuel) w (initialize ∷ rest) waiting enough =
        let (got, left) = takes w initialize rest waiting in
        let v = received w initialize rest waiting in
        let (w', stops, counts) =
          run_answers_all fuel ((rt.register v task.id).0) rest
            (laws.register-inbox v task.id ∙ left) (omega arith) in
        rw (laws.cancelled w, run)
          (rw got (
            w',
            stops,
            omega (
              arith,
              counts,
              ap length (laws.register-sent v task.id),
              ap length (quiet_round w),
            ),
          ))
    run_answers_all (suc fuel) w (work a ∷ rest) waiting enough =
        let (got, left) = takes w (work a) rest waiting in
        let v = received w (work a) rest waiting in
        let (w3, next, same, more) = on_work-Answers a v in
        let (w', stops, counts) = run_answers_all fuel w3 rest (same ∙ left) (omega arith) in
        rw (laws.cancelled w, run)
          (rw got (rw next (w', stops, omega (arith, counts, more, ap length (quiet_round w)))))
