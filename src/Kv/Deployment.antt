-- ===== src/Kv/Deployment.antt =====
-- A client and the server that `ServerRunner::run` of key-value-server/core/src/server_runner.rs
-- wires to it: the storage in a `KeyValueServer`, that in a `PacketLossWrapper`, reached over a
-- network that delivers. The schedules say which requests the client loses before they are sent and
-- which answers the wrapper drops; past their end nothing is lost. No other client runs.
use distributed_systems.Prelude.{ℕ, ◌+◌, Bool, false, List, [], ◌∷◌, Text, Result, ◌==◌}
use distributed_systems.Kv.Error.{GetRequest, PutRequest, GetResponse, PutResponse}
use distributed_systems.Kv.Storage.{Storage}
use distributed_systems.Kv.Server.{PacketLossWrapper, wrapper_get, wrapper_put}
use distributed_systems.Kv.Client.{World}

pub record Deployment (S : Type 0) : Type 0 where
  pub server : PacketLossWrapper S
  pub client_losses : List Bool
  pub response_losses : List Bool
  pub cancelled : Bool
  pub draws : List ℕ
  pub slept_ms : ℕ

abbrev pub next_loss : List Bool → Bool × List Bool
next_loss [] = (false, [])
next_loss (b ∷ rest) = (b, rest)

abbrev pub next_draw : List ℕ → ℕ × List ℕ
next_draw [] = (0, [])
next_draw (n ∷ rest) = (n, rest)

module _ {S Status : Type 0} (st : Storage S) (deadline_exceeded : Text → Status) where
  deployment_put : Deployment S → PutRequest → Deployment S × Result PutResponse Status
  deployment_put w request =
      let (lost, rest) = next_loss w.response_losses in
      let (server', response) = wrapper_put st deadline_exceeded lost w.server request in
      (record w { server = server'; response_losses = rest }, response)

  deployment_get : Deployment S → GetRequest → Deployment S × Result GetResponse Status
  deployment_get w request = (w, wrapper_get st deadline_exceeded w.server request)

  unfoldable pub deployment : World (Deployment S) Status
  unfolding deployment_put deployment_get wrapper_get wrapper_put
  deployment = record {
    get = deployment_get;
    put = deployment_put;
    is_cancelled = λ w. (w, w.cancelled);
    packet_lost = λ w.
        let (lost, rest) = next_loss w.client_losses in (record w { client_losses = rest }, lost);
    random_usize = λ w n. let (d, rest) = next_draw w.draws in (record w { draws = rest }, d);
    random_bool = λ w. let (d, rest) = next_draw w.draws in (record w { draws = rest }, d == 0);
    random_u32 = λ w. let (d, rest) = next_draw w.draws in (record w { draws = rest }, d);
    sleep = λ w ms. record w { slept_ms = w.slept_ms + ms };
  }

abbrev pub stored : {S : Type 0} → Deployment S → S
stored w = w.server.inner.storage
