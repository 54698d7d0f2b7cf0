-- ===== src/Mr/TestData.antt =====
-- map-reduce/core/src/utils.rs: the random texts and words of a run, and the workers of a phase. The
-- generator of random numbers and the worker factory are parameters.
pub mod Shapes
use distributed_systems.Prelude.{
  ℕ, zero, suc, ◌+◌, Option, none, some, List, [], ◌∷◌, Text, ltb, if◌then◌else◌,
}
use distributed_systems.Mr.Executor
use distributed_systems.Mr.Executor.{Executor}

-- `Config` of map-reduce/core/src/config.rs
pub record Config : Type 0 where
  pub num_strings : ℕ
  pub max_string_length : ℕ
  pub num_target_words : ℕ
  pub target_word_length : ℕ
  pub partition_size : ℕ
  pub keys_per_reducer : ℕ
  pub num_mappers : ℕ
  pub num_reducers : ℕ
  pub mapper_failure_probability : ℕ
  pub reducer_failure_probability : ℕ
  pub mapper_timeout_ms : ℕ
  pub reducer_timeout_ms : ℕ
  pub mapper_straggler_probability : ℕ
  pub mapper_straggler_delay_ms : ℕ
  pub reducer_straggler_probability : ℕ
  pub reducer_straggler_delay_ms : ℕ

-- `rng.random_range(low..=high)`, for a range that is not empty
pub record Rng (W : Type 0) : Type 0 where
  pub random_range : W → ℕ → ℕ → W × ℕ

module _ {W : Type 0} (rng : Rng W) where
  -- `(0..length).map(|_| …).collect()`, with letters from `b'a'` to `b'z'`
  unfoldable pub letters : ℕ → W → W × Text
  letters zero w = (w, [])
  letters (suc n) w =
      let (w1, c) = rng.random_range w 97 122 in let (w2, rest) = letters n w1 in (w2, c ∷ rest)

  -- `random_range(1..=max_length)` panics at 0.
  unfoldable pub generate_random_string : ℕ → W → Option (W × Text)
  unfolding letters
  generate_random_string max_length w =
      let (w1, length) = rng.random_range w 1 max_length in
      if ltb 0 max_length then some (letters length w1) else none

  unfoldable pub generate_target_word : ℕ → W → W × Text
  unfolding letters
  generate_target_word length w = letters length w

  unfoldable pub random_strings : ℕ → ℕ → W → Option (W × List Text)
  unfolding generate_random_string
  random_strings max_length zero w = some (w, [])
  random_strings max_length (suc n) w = elim (generate_random_string max_length w) [
    | none ↦ none
    | some (w1, text) ↦ elim (random_strings max_length n w1) [
      | none ↦ none
      | some (w2, rest) ↦ some (w2, text ∷ rest)
    ]
  ]

  unfoldable pub target_words : ℕ → ℕ → W → W × List Text
  unfolding generate_target_word
  target_words length zero w = (w, [])
  target_words length (suc n) w =
      let (w1, word) = generate_target_word length w in
      let (w2, rest) = target_words length n w1 in (w2, word ∷ rest)

  unfoldable pub generate_test_data : Config → W → Option (W × List Text × List Text)
  unfolding random_strings target_words
  generate_test_data config w =
      elim (random_strings config.max_string_length config.num_strings w) [
        | none ↦ none
        | some (w1, data_texts) ↦
            let (w2, targets) = target_words config.target_word_length config.num_target_words w1 in
            some (w2, data_texts, targets)
      ]

module _ {W Worker : Type 0} (create_worker : W → ℕ → W × Worker) where
  -- the workers with the ids from `id` on
  unfoldable pub create_workers : ℕ → ℕ → W → W × List Worker
  create_workers zero id w = (w, [])
  create_workers (suc n) id w =
      let (w1, worker) = create_worker w id in
      let (w2, rest) = create_workers n (id + 1) w1 in (w2, worker ∷ rest)

  unfoldable pub initialize_phase : ℕ → ℕ → W → W × List Worker × Executor
  unfolding create_workers
  initialize_phase num_workers timeout_ms w =
      let (w', workers) = create_workers num_workers 0 w in (w', workers, Executor.new timeout_ms)
