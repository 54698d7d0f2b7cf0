-- ===== src/Kv/GetOperation.antt =====
-- key-value-server/core/src/get_operation.rs. The operation returns nothing: what is left of it is
-- the request and the pause. The log lines are left out, and `op_num` with them.
pub mod Pauses
use distributed_systems.Prelude.{ℕ, Bool, Option, none, some, Text, Result, ok, err, if◌then◌else◌}
use distributed_systems.Kv.Error.{GetResult, get_success, get_error, GetResponse}
use distributed_systems.Kv.Client.{ClientConfig, World}

pub record GetOperation : Type 0 where
  pub config : ClientConfig
  pub key : Text

unfoldable pub new : ClientConfig → Text → GetOperation
new config key = record { config = config; key = key }

-- the pause after each arm of `match result`
pause_for : ClientConfig → Option GetResult → ℕ
pause_for config (some (get_success success)) = config.success_sleep_ms
pause_for config (some (get_error error)) = config.error_sleep_ms
pause_for config none = config.error_sleep_ms

module _ {Status : Type 0} where
  pause_after : ClientConfig → Result GetResponse Status → ℕ
  unfolding pause_for
  pause_after config (ok response) = pause_for config response.result
  pause_after config (err status) = config.error_sleep_ms

module _ {W Status : Type 0} (env : World W Status) where
  unfoldable pub execute : GetOperation → W → W
  unfolding pause_after
  execute op w =
      let (w1, lost) = env.packet_lost w in
      let (w2, response) = env.get w1 (record { key = op.key }) in
      if lost
      then env.sleep w1 op.config.error_sleep_ms
      else env.sleep w2 (pause_after op.config response)
