-- ===== src/Mr/Worker/Answers.antt =====
-- What a mapper or a reducer reports of the work it is given.
use distributed_systems.Prelude.{
  ℕ, ◌≡◌, ◌<◌, refl, ◌⊎◌, inl, inr, true, false, Option, none, some, List, [], ◌∷◌, ◌++◌, ltb,
  arith, Bool-cases,
}
use distributed_systems.Mr.Worker.{Status, Runtime, Task, again, died, draw, straggle, on_work}

module _ {W A : Type 0} (rt : Runtime W A) (sent : W → List Status) where
  -- The statuses that were sent are those of `send`, in order.
  pub record IsRecorded : Type 0 where
    pub sent-send : (w : W) (st : Status) → sent ((rt.send w st).0) ≡ sent w ++ st ∷ []
    pub sent-random_below : (w : W) (n : ℕ) → sent ((rt.random_below w n).0) ≡ sent w
    pub sent-random_up_to : (w : W) (n : ℕ) → sent ((rt.random_up_to w n).0) ≡ sent w
    pub sent-sleep : (w : W) (n : ℕ) → sent (rt.sleep w n) ≡ sent w

  module _ (rec : IsRecorded) where
    sent-draw : (n : ℕ) (w : W) → sent ((draw rt n w).0) ≡ sent w
    unfolding draw
    sent-draw n w = ground (arith, rec.sent-random_below w 100)

    slow-positive :
        (task : Task) (w : W)
        → (0 < task.straggler_delay_ms) ⊎ (task.straggler_probability ≡ 0)
        → (draw rt task.straggler_probability w).1 ≡ true
        → ltb 0 task.straggler_delay_ms ≡ true
    unfolding draw
    slow-positive task w h slow = ground arith

    -- Where a delay can be drawn, the simulated delay ends and sends nothing.
    straggle-total :
        (task : Task) (w : W)
        → (0 < task.straggler_delay_ms) ⊎ (task.straggler_probability ≡ 0)
        → (w' : W) × (straggle rt task w ≡ some w') × (sent w' ≡ sent w)
    unfolding straggle
    straggle-total task w h =
        let w1 = (draw rt task.straggler_probability w).0 in
        let delayed = rt.random_up_to w1 task.straggler_delay_ms in
        elim (Bool-cases ((draw rt task.straggler_probability w).1)) [
          | inr prompt ↦ rw prompt (w1, refl, sent-draw task.straggler_probability w)
          | inl slow ↦ rw slow (
              rw (slow-positive task w h slow) (
                rt.sleep delayed.0 delayed.1,
                refl,
                ground (
                  arith,
                  rec.sent-sleep delayed.0 delayed.1,
                  rec.sent-random_up_to w1 task.straggler_delay_ms,
                  sent-draw task.straggler_probability w,
                ),
              ))
        ]

    -- A worker whose job returns answers its assignment with exactly one status, `Ok` with its id or
    -- `Err`, and goes on to the next round. The job sends no status of its own, and the delay is
    -- positive where stragglers are simulated.
    pub on_work_answers_once :
        (task : Task) (job : W → A → Option W) (assignment : A) (w : W)
        → (0 < task.straggler_delay_ms) ⊎ (task.straggler_probability ≡ 0)
        → ((v : W) → (v' : W) × (job v assignment ≡ some v') × (sent v' ≡ sent v))
        → (w' : W) × (on_work rt task job assignment w ≡ again w')
          × ((sent w' ≡ sent w ++ Status.ok task.id ∷ []) ⊎ (sent w' ≡ sent w ++ Status.err ∷ []))
    unfolding on_work
    on_work_answers_once task job assignment w delay returns =
        let w1 = (draw rt task.failure_probability w).0 in
        let (w3, prompt, sent3) = straggle-total task w1 delay in
        let (w4, returned, sent4) = returns w3 in
        elim (Bool-cases ((draw rt task.failure_probability w).1)) [
          | inl fails ↦ rw fails (
            (rt.send w1 Status.err).0,
            refl,
            inr (ground (arith, rec.sent-send w1 Status.err, sent-draw task.failure_probability w)),
          )
          | inr works ↦ rw works (
              rw prompt (
                rw returned (
                  (rt.send w4 (Status.ok task.id)).0,
                  refl,
                  inl (
                      ground (
                        arith,
                        rec.sent-send w4 (Status.ok task.id),
                        sent-draw task.failure_probability w,
                      )),
                )))
        ]

    never-fails :
        (task : Task) (w : W)
        → task.failure_probability ≡ 0
        → (draw rt task.failure_probability w).1 ≡ false
    unfolding draw
    never-fails task w never = ground arith

    straggle-cases :
        (task : Task) (w : W)
        → (straggle rt task w ≡ none)
          ⊎ ((w' : W) × (straggle rt task w ≡ some w') × (sent w' ≡ sent w))
    unfolding straggle
    straggle-cases task w = elim (Bool-cases (ltb 0 task.straggler_delay_ms)) [
      | inl positive ↦ inr (straggle-total task w (inl (ground arith)))
      | inr zero ↦ elim (Bool-cases ((draw rt task.straggler_probability w).1)) [
        | inl slow ↦ inl (rw slow (rw zero))
        | inr prompt ↦ rw prompt (
            inr (
              (draw rt task.straggler_probability w).0,
              refl,
              sent-draw task.straggler_probability w,
            ))
      ]
    ]

    -- A job that panics, in a worker that simulates no failure, ends the worker's task, and no status
    -- is sent: the executor is told nothing.
    pub panicking_job_sends_nothing :
        (task : Task) (job : W → A → Option W) (assignment : A) (w : W)
        → task.failure_probability ≡ 0
        → ((v : W) → job v assignment ≡ none)
        → (w' : W) × (on_work rt task job assignment w ≡ died w') × (sent w' ≡ sent w)
    unfolding on_work
    panicking_job_sends_nothing task job assignment w never panics =
        let w1 = (draw rt task.failure_probability w).0 in
        rw (never-fails task w never) (elim (straggle-cases task w1) [
          | inl out ↦ rw out (w1, refl, sent-draw task.failure_probability w)
          | inr (w3, slow, same) ↦
              rw slow
                (rw (panics w3) (w3, refl, ground (arith, sent-draw task.failure_probability w)))
        ])
