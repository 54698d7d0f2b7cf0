-- ===== src/Mr/TestData/Shapes.antt =====
-- The sizes and letters of the generated texts.
use distributed_systems.Prelude.{
  ℕ, zero, suc, ◌≤◌, ◌<◌, ◌≡◌, refl, some, List, [], ◌∷◌, length, All, Text, arith,
}
use distributed_systems.Mr.TestData.{
  Config, Rng, letters, generate_random_string, generate_target_word, random_strings, target_words,
  generate_test_data,
}

-- A number drawn from a range that is not empty is in the range.
abbrev pub IsInRange {ℓ} : {W : Type ℓ} → (W → ℕ → ℕ → W × ℕ) → Type ℓ
IsInRange {W = W} random_range =
    (w : W) (low high : ℕ)
    → low ≤ high
    → (low ≤ (random_range w low high).1) × ((random_range w low high).1 ≤ high)

abbrev pub IsLetter : ℕ → Type 0
IsLetter c = (97 ≤ c) × (c ≤ 122)

-- between `low` and `high` letters
abbrev pub IsWord : ℕ → ℕ → Text → Type 0
IsWord low high text = All IsLetter text × (low ≤ length text) × (length text ≤ high)

module _ {W : Type 0} (rng : Rng W) (ranged : IsInRange rng.random_range) where
  letters-IsWord : (n : ℕ) (w : W) → IsWord n n (letters rng n w).1
  unfolding letters
  letters-IsWord zero w = (tt, omega arith, omega arith)
  letters-IsWord (suc n) w =
      let rest = letters-IsWord n (rng.random_range w 97 122).0 in
      ((ranged w 97 122 (omega arith), rest.0), omega (arith, rest.1), omega (arith, rest.2))

  draws_string :
      (m : ℕ) (w : W)
      → 0 < m
      → generate_random_string rng m w
        ≡ some (letters rng (rng.random_range w 1 m).1 (rng.random_range w 1 m).0)
  unfolding generate_random_string
  draws_string m w positive = ground arith

  random_strings-IsWord :
      (m n : ℕ) (w : W)
      → 0 < m
      → (w' : W) × (texts : List Text) × (random_strings rng m n w ≡ some (w', texts))
        × (length texts ≡ n)
        × All (IsWord 1 m) texts
  unfolding random_strings
  random_strings-IsWord m zero w positive = (w, [], refl, refl, tt)
  random_strings-IsWord m (suc n) w positive =
      let drawn = rng.random_range w 1 m in
      let word = letters rng drawn.1 drawn.0 in
      let sized = ranged w 1 m (omega arith) in
      let shape = letters-IsWord drawn.1 drawn.0 in
      let (w', rest, e, count, shapes) = random_strings-IsWord m n word.0 positive in
      (
        w',
        word.1 ∷ rest,
        rw (draws_string m w positive, random_strings) (rw e),
        omega (arith, count),
        ((shape.0, omega (arith, shape.1, sized.0), omega (arith, shape.2, sized.1)), shapes),
      )

  target_words-IsWord :
      (k n : ℕ) (w : W)
      → (length (target_words rng k n w).1 ≡ n) × All (IsWord k k) (target_words rng k n w).1
  unfolding target_words generate_target_word
  target_words-IsWord k zero w = (refl, tt)
  target_words-IsWord k (suc n) w =
      let rest = target_words-IsWord k n (letters rng k w).0 in
      (omega (arith, rest.0), (letters-IsWord k w, rest.1))

  -- With a positive maximal length, the test data are `num_strings` texts of one to
  -- `max_string_length` letters from a to z and `num_target_words` words of exactly
  -- `target_word_length` such letters. A number drawn from a range is in it.
  pub generate_test_data_shapes :
      (config : Config) (w : W)
      → 0 < config.max_string_length
      → (w' : W) × (texts : List Text) × (targets : List Text) × (generate_test_data rng config w
          ≡ some (w', texts, targets))
        × (length texts ≡ config.num_strings)
        × All (IsWord 1 config.max_string_length) texts
        × (length targets ≡ config.num_target_words)
        × All (IsWord config.target_word_length config.target_word_length) targets
  unfolding generate_test_data
  generate_test_data_shapes config w positive =
      let (w1, texts, e, count, shapes) =
        random_strings-IsWord config.max_string_length config.num_strings w positive in
      let words = target_words-IsWord config.target_word_length config.num_target_words w1 in
      let made = target_words rng config.target_word_length config.num_target_words w1 in
      (made.0, texts, made.1, rw (e, generate_test_data), count, shapes, words.0, words.1)
