-- ===== src/Kv/Stress.antt =====
-- key-value-server/core/src/grpc_client.rs: the client that runs random operations until it is
-- cancelled. `connect` is tonic's and is left out. The operation counter is only logged.
pub mod Safety
use distributed_systems.Prelude.{
  ℕ, zero, suc, ◌++◌, Bool, Option, none, some, Text, codes, length, get_elem?, if◌then◌else◌,
}
use distributed_systems.Prelude.Decimal.{format}
use distributed_systems.Kv.Client.{ClientConfig, World}
use distributed_systems.Kv.GetOperation
use distributed_systems.Kv.PutOperation

pub record GrpcClient : Type 0 where
  pub config : ClientConfig
  pub max_retries : ℕ

-- A panic ends the client's task; the fuel bounds the rounds of the loops.
pub data Outcome (W : Type 0) : Type 0 where
  done : W → Outcome W
  panicked : Outcome W
  out_of_fuel : Outcome W

module _ {W Status : Type 0} (env : World W Status) where
  -- `let _ = op.execute(…)`: the result is dropped
  ran : {A : Type 0} → Option (W × A) → Outcome W
  ran none = out_of_fuel
  ran (some (w, _)) = done w

  operate : ℕ → GrpcClient → Bool → Text → W → Outcome W
  unfolding ran
  operate fuel client is_get key w =
      let (w', drawn) = env.random_u32 w in
      let value = codes "value_" ++ format drawn in
      if is_get
      then done (GetOperation.execute env (GetOperation.new client.config key) w)
      else ran (
          PutOperation.execute env fuel
            (PutOperation.new client.config key value client.max_retries) w')

  -- An empty list of keys panics in `random.usize(0..0)`, an index past its end in `keys[…]`.
  unfoldable pub perform_operation : ℕ → GrpcClient → W → Outcome W
  unfolding operate
  perform_operation fuel client w =
      let (w1, i) = env.random_usize w (length client.config.keys) in
      let (w2, is_get) = env.random_bool w1 in
      elim (get_elem? client.config.keys i) [
        | none ↦ panicked
        | some key ↦ operate fuel client is_get key w2
      ]

  -- `rounds` bounds the operations, `fuel` the rounds of each put.
  unfoldable pub start : ℕ → ℕ → GrpcClient → W → Outcome W
  start zero fuel client w = out_of_fuel
  start (suc rounds) fuel client w =
      let (w', cancelled) = env.is_cancelled w in
      let rest : Outcome W = elim (perform_operation fuel client w') [
        | done w'' ↦ start rounds fuel client w''
        | panicked ↦ panicked
        | out_of_fuel ↦ out_of_fuel
      ] in
      if cancelled then done w' else rest
