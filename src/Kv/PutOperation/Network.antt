-- ===== src/Kv/PutOperation/Network.antt =====
-- The retry counter, for a client that cannot reach its server.
use Prim.Native.Nat.{max}
use distributed_systems.Prelude.{
  ℕ, zero, suc, ◌-◌, ◌<◌, ◌≤◌, ◌≡◌, refl, ◌⊎◌, inl, inr, some, Text, err, arith,
}
use distributed_systems.Kv.Error.{PutRequest}
use distributed_systems.Kv.Client.{ClientConfig, World}
use distributed_systems.Kv.PutOperation.{
  PutOperation, new, continue, finish, count_retry, round, execute,
}
use distributed_systems.Kv.PutOperation.Loop.{execute-finish, execute-continue}

module _ {W Status : Type 0} (env : World W Status) where
  -- No put of this world gets an answer.
  abbrev pub IsUnreachable : Type 0
  IsUnreachable = (w : W) (r : PutRequest) → (s : Status) × ((env.put w r).1 ≡ err s)

  abbrev HasRetries : PutOperation → Type 0
  HasRetries op = (op.network_retry_count < op.max_retries) ⊎ (op.network_retry_count ≡ 0)

  round_unreachable :
      (down : IsUnreachable) (op : PutOperation) (w : W)
      → ((round env op w).1 ≡ finish (err tt))
        ⊎ (((round env op w).1 ≡ continue (count_retry op))
            × ((count_retry op).network_retry_count < op.max_retries))
  unfolding round
  round_unreachable down op w =
      let w2 = (env.packet_lost (env.is_cancelled w).0).0 in
      ground (arith, down w2 (record { key = op.key; value = op.value; version = op.version }))

  execute_unreachable :
      (fuel : ℕ) (down : IsUnreachable) (op : PutOperation) (w : W)
      → op.max_retries < 4294967296
      → HasRetries op
      → op.max_retries - op.network_retry_count ≤ fuel
      → 0 < fuel
      → (w' : W) × (execute env fuel op w ≡ some (w', err tt))
  execute_unreachable zero down op w fits left enough some_fuel = absurd (omega arith)
  execute_unreachable (suc fuel) down op w fits left enough some_fuel =
      let w' = (round env op w).0 in
      elim (round_unreachable down op w) [
        | inl stop ↦ (w', execute-finish env fuel op w stop)
        | inr (more, below) ↦ rw (execute-continue env fuel op w more) (
            execute_unreachable fuel down (count_retry op) w' fits (inl below) (ground arith)
              (ground arith))
      ]

  -- A put whose requests all fail returns `Err`, after at most `max_retries` rounds, or one if
  -- `max_retries` is 0. `max_retries` is a `u32`.
  pub gives_up :
      (down : IsUnreachable) (config : ClientConfig) (key value : Text) (max_retries : ℕ) (w : W)
      → max_retries < 4294967296
      → (w' : W) × (execute env (max max_retries 1) (new config key value max_retries) w
          ≡ some (w', err tt))
  unfolding new
  gives_up down config key value max_retries w fits =
      execute_unreachable (max max_retries 1) down (new config key value max_retries) w fits
        (inr refl) (ground arith) (ground arith)
