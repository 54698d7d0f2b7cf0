-- ===== src/Mr/Grpc.antt =====
-- The transport of map-reduce/process-rpc: calls of gRPC between the coordinator and the processes of
-- its workers. Here is a call; tonic and the network are parameters.
pub mod Store
pub mod Signals
pub mod Work
pub mod Ports
pub mod Process
pub mod Fleet
use distributed_systems.Prelude.{ℕ, Bool, Option, none, some}

-- What becomes of a call: its request is lost, the handler runs but the answer is lost, or the caller
-- has the handler's answer.
pub data Fate : Type 0 where
  lost unanswered answered : Fate

-- Connections, with state `W`.
pub record Network (W : Type 0) : Type 0 where
  pub connect : W → W × Bool
  pub fate : W → W × Fate

module _ {W : Type 0} (net : Network W) where
  -- `client.method(request).await`, with `none` for an error; the handler's error is `none` too.
  unfoldable pub call : {Resp : Type 0} → (W → W × Option Resp) → W → W × Option Resp
  call handler w =
      let (w1, fate) = net.fate w in
      elim fate [ lost ↦ (w1, none) | unanswered ↦ ((handler w1).0, none) | answered ↦ handler w1 ]
