-- ===== src/Kv/Stress/Safety.antt =====
-- The indexing of the stress client.
use distributed_systems.Prelude.{
  ℕ, zero, suc, ◌≡◌, ◌≢◌, ◌<◌, refl, Bool, true, false, Bool-cases, inl, inr, Option, none, some,
  List, [], ◌∷◌, length, get_elem?, Text, arith,
}
use distributed_systems.Kv.Client.{World}
use distributed_systems.Kv.Stress.{
  GrpcClient, Outcome, done, panicked, out_of_fuel, ran, operate, perform_operation, start,
}

get_elem?_of_lt : (xs : List Text) (i : ℕ) → i < length xs → (x : Text) × (get_elem? xs i ≡ some x)
get_elem?_of_lt [] i h = absurd (omega arith)
get_elem?_of_lt (x ∷ xs) zero h = (x, refl)
get_elem?_of_lt (x ∷ xs) (suc i) h = get_elem?_of_lt xs i (omega arith)

module _ {W Status : Type 0} (env : World W Status) where
  ran-safe : {A : Type 0} (o : Option (W × A)) → ran env o ≢ panicked
  unfolding ran
  ran-safe none e = cc
  ran-safe (some (w, a)) e = cc

  operate-safe :
      (fuel : ℕ) (client : GrpcClient) (is_get : Bool) (key : Text) (w : W)
      → operate env fuel client is_get key w ≢ panicked
  unfolding operate
  operate-safe fuel client true key w e = cc
  operate-safe fuel client false key w e = ran-safe _ e

  -- An index drawn below a positive bound is below it.
  abbrev pub DrawsBelow : Type 0
  DrawsBelow = (w : W) (n : ℕ) → 0 < n → (env.random_usize w n).1 < n

  module _ (draws : DrawsBelow) (client : GrpcClient)
      (some_keys : 0 < length client.config.keys) where
    perform_operation-safe : (fuel : ℕ) (w : W) → perform_operation env fuel client w ≢ panicked
    unfolding perform_operation
    perform_operation-safe fuel w =
        let drawn = env.random_usize w (length client.config.keys) in
        let (key, at) =
          get_elem?_of_lt client.config.keys drawn.1
            (draws w (length client.config.keys) some_keys) in
        let b = env.random_bool drawn.0 in
        rw (at, perform_operation) (operate-safe fuel client b.1 key b.0)

    -- A client with at least one key never indexes past its keys, in a run of any number of
    -- operations and whatever the server answers. An index drawn below a positive bound is below it.
    pub start_never_panics : (rounds fuel : ℕ) (w : W) → start env rounds fuel client w ≢ panicked
    unfolding start
    start_never_panics zero fuel w e = cc
    start_never_panics (suc rounds) fuel w e =
        let w' = (env.is_cancelled w).0 in
        elim (Bool-cases ((env.is_cancelled w).1)) [
          | inl stop ↦ stops _ (rw stop at e)
          | inr goes ↦
              after (λ v. start_never_panics rounds fuel v) (perform_operation env fuel client w')
                (perform_operation-safe fuel w') (rw goes at e)
        ]
      where
        stops : (v : W) → done v ≢ panicked
        stops v e = cc

        after :
            ((v : W) → start env rounds fuel client v ≢ panicked)
            → (o : Outcome W) → o ≢ panicked
            → (elim o [
              | done w'' ↦ start env rounds fuel client w''
              | panicked ↦ panicked
              | out_of_fuel ↦ out_of_fuel
            ])
              ≢ panicked
        after later (done w'') safe = later w''
        after later panicked safe = safe
        after later out_of_fuel safe = λ e. cc
