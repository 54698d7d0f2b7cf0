-- ===== src/Mr/Executor/Frame.antt =====
-- What every call of a phase leaves true is true after the phase.
use distributed_systems.Prelude.{
  ℕ, zero, suc, ◌+◌, Option, none, some, List, [], ◌∷◌, length, get_elem?, ltb, min, nat_eq,
  Bool-cases, Option-cases, inl, inr,
}
use distributed_systems.Prelude.HashMap
use distributed_systems.Mr.Executor.{
  Cluster, Waited, Progress, Executor, Outcome, done, respawn, start_progress, record_done,
  stragglers, replace_stragglers, check_stragglers, send_next, distribute, on_completed, on_failed,
  react, wait_duration, work_loop, execute,
}

-- `P` holds in the world in which the phase ends, if it does.
abbrev pub EndsIn : {W : Type 0} → (W → Type 0) → Outcome W → Type 0
EndsIn P (done w) = P w
EndsIn P _ = Unit {0}

module _ {W A : Type 0} (P : W → Type 0) where
  -- Each call of the cluster keeps `P`.
  pub record Keeps (c : Cluster W A) : Type 0 where
    pub setup : (w : W) (n : ℕ) → P w → P (c.setup w n)
    pub initialize : (w : W) (id : ℕ) → P w → P (c.initialize w id)
    pub ready : (w : W) (id : ℕ) → P w → P ((c.wait_for_worker_ready w id).0)
    pub send : (w : W) (id : ℕ) (a : A) → P w → P (c.send_work w id a)
    pub replace : (w : W) (id : ℕ) → P w → P (c.replace_worker w id)
    pub reset : (w : W) (id : ℕ) → P w → P (c.reset_worker w id)
    pub cancelled : (w : W) → P w → P ((c.is_cancelled w).0)
    pub wait : (w : W) (duration : ℕ) → P w → P ((c.wait_next w duration).0)

  abbrev Stays : Option (Progress A × W) → Type 0
  Stays none = Unit {0}
  Stays (some (p, w)) = P w

  module _ (c : Cluster W A) (k : Keeps c) where
    respawn-Keeps : (id : ℕ) (a : A) (w : W) → P w → P (respawn c id a w)
    unfolding respawn
    respawn-Keeps id a w h =
        k.send _ id a (k.ready _ id (k.initialize _ id (k.reset _ id (k.replace w id h))))

    replace_stragglers-Keeps :
        (ids : List ℕ) (p : Progress A) (w : W) → P w → P (replace_stragglers c ids p w).1
    unfolding replace_stragglers
    replace_stragglers-Keeps [] p w h = h
    replace_stragglers-Keeps (id ∷ ids) p w h =
        elim (Option-cases (HashMap.get p.worker_assignments id)) [
          | inl gone ↦ rw (gone, replace_stragglers) (replace_stragglers-Keeps ids p w h)
          | inr (info, had) ↦
              rw (had, replace_stragglers)
                (replace_stragglers-Keeps ids _ _ (respawn-Keeps id info.assignment w h))
        ]

    check_stragglers-Keeps :
        (timeout : Option ℕ) (p : Progress A) (w : W) → P w → P (check_stragglers c timeout p w).1
    unfolding check_stragglers
    check_stragglers-Keeps none p w h = h
    check_stragglers-Keeps (some timeout) p w h =
        replace_stragglers-Keeps (stragglers timeout (c.now w) p.worker_assignments) p w h

    module _ (assignments : List A) (n : ℕ) where
      send_next-Keeps :
          (id : ℕ) (p : Progress A) (w : W) → P w → Stays (send_next c assignments n id p w)
      unfolding send_next
      send_next-Keeps id p w h = elim (Option-cases (get_elem? assignments p.assignment_index)) [
        | inl past ↦ rw (past, send_next) tt
        | inr (a, at) ↦ elim (Bool-cases (ltb id n)) [
          | inl small ↦ rw (at, send_next) (rw small (k.send w id a h))
          | inr far ↦ rw (at, send_next) (rw far tt)
        ]
      ]

      distribute-Keeps :
          (rounds id : ℕ) (p : Progress A) (w : W)
          → P w
          → Stays (distribute c assignments n rounds id p w)
      unfolding distribute
      distribute-Keeps zero id p w h = h
      distribute-Keeps (suc rounds) id p w h =
          let w1 = (c.wait_for_worker_ready (c.initialize w id) id).0 in
          let sent = send_next-Keeps id p w1 (k.ready _ id (k.initialize w id h)) in
          elim (Option-cases (send_next c assignments n id p w1)) [
            | inl fails ↦ rw (fails, distribute) tt
            | inr (r, works) ↦
                rw (works, distribute) (distribute-Keeps rounds (id + 1) r.0 r.1 (rw works at sent))
          ]

      on_completed-Keeps :
          (id : ℕ) (p : Progress A) (w : W) → P w → Stays (on_completed c assignments n id p w)
      unfolding on_completed record_done
      on_completed-Keeps id p w h =
          elim (Bool-cases (ltb p.assignment_index (length assignments))) [
            | inl more ↦ rw (more, on_completed) (send_next-Keeps id (record_done id p) w h)
            | inr last ↦ rw (last, on_completed) h
          ]

      on_failed-Keeps :
          (id : ℕ) (p : Progress A) (w : W) → P w → P (on_failed c assignments n id p w).1
      unfolding on_failed
      on_failed-Keeps id p w h = elim (Option-cases (HashMap.get p.worker_assignments id)) [
        | inl gone ↦ rw (gone, on_failed) h
        | inr (info, had) ↦ rw (had, on_failed) (respawn-Keeps id info.assignment w h)
      ]

      react-Keeps :
          (waited : Waited) (p : Progress A) (w : W)
          → P w
          → Stays (react c assignments n waited p w)
      unfolding react
      react-Keeps Waited.timed_out p w h = h
      react-Keeps Waited.closed p w h = h
      react-Keeps (Waited.completed id) p w h = on_completed-Keeps id p w h
      react-Keeps (Waited.failed id) p w h = on_failed-Keeps id p w h

      work_loop-Keeps :
          (e : Executor) (fuel : ℕ) (p : Progress A) (w : W)
          → P w
          → EndsIn P (work_loop c assignments n e fuel p w)
      unfolding work_loop
      work_loop-Keeps e zero p w h = tt
      work_loop-Keeps e (suc fuel) p w h = elim (Bool-cases (ltb 0 p.active_workers)) [
        | inr idle ↦ rw (idle, work_loop) h
        | inl busy ↦ elim (Bool-cases ((c.is_cancelled w).1)) [
          | inl stop ↦ rw (busy, work_loop) (rw stop (k.cancelled w h))
          | inr go ↦
              let w1 = (c.is_cancelled w).0 in
              let checked = check_stragglers c e.timeout p w1 in
              let waited = c.wait_next checked.1 (wait_duration e) in
              let h3 =
                k.wait checked.1 (wait_duration e)
                  (check_stragglers-Keeps e.timeout p w1 (k.cancelled w h)) in
              let reacts = react-Keeps waited.1 checked.0 waited.0 h3 in
              elim (Option-cases (react c assignments n waited.1 checked.0 waited.0)) [
                | inl fails ↦ rw (busy, work_loop) (rw go (rw fails tt))
                | inr (r, works) ↦
                    rw (busy, work_loop)
                      (rw go (rw works (work_loop-Keeps e fuel r.0 r.1 (rw works at reacts))))
              ]
        ]
      ]

    pub execute-Keeps :
        (e : Executor) (assignments : List A) (n fuel : ℕ) (w : W)
        → P w
        → EndsIn P (execute c assignments n e fuel w)
    unfolding execute
    execute-Keeps e [] n fuel w h = h
    execute-Keeps e (a ∷ rest) n fuel w h =
        let work = a ∷ rest in
        let w0 = c.setup w n in
        let sent =
          distribute-Keeps work n (min n (length work)) 0 start_progress w0 (k.setup w n h) in
        elim (Option-cases (distribute c work n (min n (length work)) 0 start_progress w0)) [
          | inl fails ↦ rw (fails, execute) tt
          | inr (r, works) ↦
              rw (works, execute) (work_loop-Keeps work n e fuel r.0 r.1 (rw works at sent))
        ]
