-- ===== src/Kv/Client.antt =====
-- What the operations of a client reach through references and trait objects: `KvClient`
-- (key-value-server/core/src/kv_client.rs), `Timer` (timer.rs), `Random` (random.rs) and the
-- `CancellationToken` of tokio; with `ClientConfig` of key-value-server/core/src/config.rs.
use distributed_systems.Prelude.{ℕ, Bool, List, Text, Result}
use distributed_systems.Kv.Error.{GetRequest, PutRequest, GetResponse, PutResponse}

-- `client_packet_loss_rate` is a float: the outcome of the test against it is `packet_lost` below.
pub record ClientConfig : Type 0 where
  pub name : Text
  pub success_sleep_ms : ℕ
  pub error_sleep_ms : ℕ
  pub keys : List Text

-- `W` is the state of everything outside the client. Each call may find it changed, by other clients
-- or by the passage of time, so each returns the world that it leaves.
pub record World (W Status : Type 0) : Type 0 where
  pub get : W → GetRequest → W × Result GetResponse Status
  pub put : W → PutRequest → W × Result PutResponse Status
  pub is_cancelled : W → W × Bool
  -- `random.f32() < config.client_packet_loss_rate / 100.0`
  pub packet_lost : W → W × Bool
  -- `random.usize(0..n)`, `random.bool()` and `random.u32(0..u32::MAX)`
  pub random_usize : W → ℕ → W × ℕ
  pub random_bool : W → W × Bool
  pub random_u32 : W → W × ℕ
  -- `timer.sleep(Duration::from_millis(ms))`
  pub sleep : W → ℕ → W
