-- ===== src/Mr/Job/Whole.antt =====
-- A whole job, from the random texts to the end of the reduce phase: `run_job`, which the three main
-- functions share.
use distributed_systems.Prelude.{
  ℕ, zero, suc, ◌+◌, ◌≤◌, ◌<◌, ◌≡◌, refl, ap, some, Option, List, [], ◌∷◌, length, All, Text, arith,
}
use distributed_systems.Mr.StateStore.{StateStore, IsStore}
use distributed_systems.Mr.Executor.{Executor, Outcome, execute, done, panicked, out_of_fuel}
use distributed_systems.Mr.Executor
use distributed_systems.Mr.Executor.Honest.{Observed, IsHonest}
use distributed_systems.Mr.Executor.Frame.{Keeps}
use distributed_systems.Mr.Executor.Work.{IsAtomic}
use distributed_systems.Mr.Executor.Watch.{patient}
use distributed_systems.Mr.WordSearch.{
  MapWorkAssignment, ReduceWorkAssignment, map_work, reduce_work,
}
use distributed_systems.Mr.WordSearch.MapPhase.{occurrences}
use distributed_systems.Mr.TestData.{Config, generate_test_data, create_workers, initialize_phase}
use distributed_systems.Mr.TestData.Shapes.{generate_test_data_shapes}
use distributed_systems.Mr.Job.{Platform, run_job}
use distributed_systems.Mr.Job.Counts.{run_phases_counts}

module _ {W Worker : Type 0} (create : W → ℕ → W × Worker) (P : W → Type 0)
    (keeps : (w : W) (id : ℕ) → P w → P ((create w id).0)) where
  create_workers_lem :
      (n id : ℕ) (w : W)
      → P w
      → P ((create_workers create n id w).0) × (length ((create_workers create n id w).1) ≡ n)
  unfolding create_workers
  create_workers_lem zero id w h = (h, refl)
  create_workers_lem (suc n) id w h =
      let (h', len) = create_workers_lem n (id + 1) ((create w id).0) (keeps w id h) in
      (h', ap suc len)

module _ {W M R S : Type 0} (p : Platform W M R) (st : StateStore S) (store : W → S)
    (o_m : Observed W MapWorkAssignment) (o_r : Observed W ReduceWorkAssignment)
    (u_m : W → List MapWorkAssignment) (u_r : W → List ReduceWorkAssignment) (b_m b_r : ℕ)
    (Q : S → Type 0) where
  -- An empty store of which `Q` holds, and at most so many waits that will end without a completion.
  pub record IsReady (w : W) : Type 0 where
    pub empty : (t : Text) → st.get (store w) t ≡ []
    pub kept : Q (store w)
    pub map_waits : o_m.budget w ≤ b_m
    pub reduce_waits : o_r.budget w ≤ b_r

  -- The behaviour of what a job calls: random numbers in their range, workers that report each
  -- completion once and write what they compute before that, a state that is empty once
  -- initialised, and factories that leave it so.
  pub record IsSound : Type 0 where
    pub honest_m : IsHonest o_m p.mappers
    pub atomic_m : IsAtomic o_m u_m store (map_work st) p.mappers
    pub honest_r : IsHonest o_r p.reducers
    pub atomic_r : IsAtomic o_r u_r store (reduce_work st) p.reducers
    pub keeps : Keeps (λ v. o_r.budget v ≤ b_r) p.mappers
    pub map_keeps : (a : MapWorkAssignment) (s : S) → Q s → Q (map_work st a s)
    pub reduce_keeps : (a : ReduceWorkAssignment) (s : S) → Q s → Q (reduce_work st a s)
    pub in_range :
        (w : W) (low high : ℕ)
        → low ≤ high
        → (low ≤ (p.rng.random_range w low high).1) × ((p.rng.random_range w low high).1 ≤ high)
    pub initializes : (w : W) (targets : List Text) → IsReady (p.initialize_state w targets)
    pub creates_m : (w : W) (id : ℕ) → IsReady w → IsReady ((p.create_mapper w id).0)
    pub creates_r : (w : W) (id : ℕ) → IsReady w → IsReady ((p.create_reducer w id).0)

  -- A configuration that asks for something to do and sets no timeout, with the fuel that it takes. A
  -- timeout would let the executor replace a late worker that writes all the same.
  pub record IsUsable (config : Config) (fuel : ℕ) : Type 0 where
    pub has_length : 0 < config.max_string_length
    pub has_partition : 0 < config.partition_size
    pub has_keys : 0 < config.keys_per_reducer
    pub has_mappers : 0 < config.num_mappers
    pub has_reducers : 0 < config.num_reducers
    pub few_strings : config.num_strings < 2147483648
    pub no_mapper_timeout : config.mapper_timeout_ms ≡ 0
    pub no_reducer_timeout : config.reducer_timeout_ms ≡ 0
    pub map_fuel : b_m + config.num_strings < fuel
    pub reduce_fuel : b_r + config.num_target_words < fuel

  -- A job runs to its end without a panic, whichever workers fail or are late, and
  -- leaves for every target one value: the number of the random texts that contain it. `Q` is what
  -- the work of the assignments keeps of the store.
  pub run_job_counts :
      IsStore st
      → IsSound
      → (open_state : W → Option W)
      → ((v : W) → IsReady v → (v' : W) × (open_state v ≡ some v') × IsReady v')
      → (config : Config) (fuel : ℕ) (w : W) → IsUsable config fuel
      → (w0 : W) × (items : List Text) × (targets : List Text) × (w' : W) × (generate_test_data
            p.rng config w
          ≡ some (w0, items, targets))
        × (run_job p config fuel open_state w ≡ done w')
        × All (λ t. st.get (store w') t ≡ occurrences t items ∷ []) targets
        × Q (store w')
  unfolding run_job initialize_phase
  run_job_counts laws sound open_state opens config fuel w usable =
      let (w0, items, targets, made, strings, _, words, _) =
        generate_test_data_shapes p.rng sound.in_range config w usable.has_length in
      let (w2, opened, ready2) =
        opens (p.initialize_state w0 targets) (sound.initializes w0 targets) in
      let m = create_workers p.create_mapper config.num_mappers 0 w2 in
      let (ready3, len_m) =
        create_workers_lem p.create_mapper IsReady sound.creates_m config.num_mappers 0 w2 ready2 in
      let r = create_workers p.create_reducer config.num_reducers 0 (m.0) in
      let (ready4, len_r) =
        create_workers_lem p.create_reducer IsReady sound.creates_r config.num_reducers 0 (m.0)
          ready3 in
      let (w', runs, counts, ends) =
        run_phases_counts p st store o_m o_r u_m u_r laws sound.honest_m sound.atomic_m
          sound.honest_r sound.atomic_r Q sound.map_keeps sound.reduce_keeps b_r sound.keeps config
          items (record { targets = targets }) (length (m.1)) (length (r.1)) fuel (r.0)
          usable.has_partition usable.has_keys (omega (arith, len_m, usable.has_mappers))
          (omega (arith, len_r, usable.has_reducers)) (omega (arith, strings, usable.few_strings))
          ready4.empty ready4.kept ready4.reduce_waits
          (omega (arith, ready4.map_waits, strings, usable.map_fuel))
          (omega (arith, words, usable.reduce_fuel)) in
      let same_m : Executor.new config.mapper_timeout_ms ≡ patient =
        (unfold Executor.new in rw usable.no_mapper_timeout refl) in
      let same_r : Executor.new config.reducer_timeout_ms ≡ patient =
        (unfold Executor.new in rw usable.no_reducer_timeout refl) in
      (w0, items, targets, w', made, rw (made, opened) (rw same_m (rw same_r runs)), counts, ends)
