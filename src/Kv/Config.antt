-- ===== src/Kv/Config.antt =====
-- key-value-server/core/src/config.rs: what a run is configured with. The file system and serde are
-- parameters; serde gives a document's fields, with `none` for one that is left out and has a default.
use distributed_systems.Prelude.{ℕ, Option, none, some, List, Text, Result, ok, err}
use distributed_systems.Kv.Client.{ClientConfig}

-- `server_packet_loss_rate` is a float: the outcome of the test against it is an argument of the
-- wrapper's put.
pub record Config : Type 0 where
  pub test_duration_seconds : ℕ
  pub max_retries_server_packet_loss : ℕ
  pub clients : List ClientConfig

pub record Document : Type 0 where
  pub test_duration_seconds : ℕ
  pub max_retries_server_packet_loss : Option ℕ
  pub clients : List ClientConfig

abbrev pub default_max_retries_server_packet_loss : ℕ
default_max_retries_server_packet_loss = 10

-- `#[serde(default = "default_max_retries_server_packet_loss")]`
max_retries_or_default : Option ℕ → ℕ
max_retries_or_default none = default_max_retries_server_packet_loss
max_retries_or_default (some n) = n

unfoldable pub with_defaults : Document → Config
unfolding max_retries_or_default
with_defaults d = record {
  test_duration_seconds = d.test_duration_seconds;
  max_retries_server_packet_loss = max_retries_or_default d.max_retries_server_packet_loss;
  clients = d.clients;
}

module _ {Error : Type 0} (read_to_string : Text → Result Text Error)
    (from_str : Text → Result Document Error) where
  unfoldable pub load : Text → Result Config Error
  unfolding with_defaults
  load path = elim (read_to_string path) [
    | err e ↦ err e
    | ok content ↦ elim (from_str content) [
      | err e ↦ err e
      | ok document ↦ ok (with_defaults document)
    ]
  ]
