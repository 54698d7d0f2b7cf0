-- ===== src/Mr/Transport.antt =====
-- The three transports between the coordinator and its workers: map-reduce/task-channels,
-- map-reduce/thread-socket and map-reduce/process-rpc. Here is what they share: the messages, and the
-- parts of tokio that two of them use.
pub mod Wire
pub mod Socket
pub mod Channel
pub mod Runtimes
use distributed_systems.Prelude.{ℕ, Bool, Option, Result, ok, err}
use distributed_systems.Mr.Worker.{Task, Status}
use distributed_systems.Mr.Worker.Handle.{WorkSender, WorkerRuntime, Resources, Mapper, new_worker}

-- map-reduce/core/src/worker_message.rs
pub data WorkerMessage (A C : Type 0) : Type 0 where
  initialize : C → WorkerMessage A C
  work : A → C → WorkerMessage A C

-- What the status of the worker in a slot tells the executor: a failure names the slot.
abbrev pub told : ℕ → Status → Result ℕ ℕ
told slot (Status.ok id) = ok id
told slot Status.err = err slot

-- `tokio::sync::mpsc` with state `W`: a channel has a sender, which may be cloned, and a receiver.
-- `send` is false when the receiver is gone, and `recv` yields `None` when all senders are.
pub record Mpsc (W Tx Rx Msg : Type 0) : Type 0 where
  pub channel : W → ℕ → W × Tx × Rx
  pub send : W → Tx → Msg → W × Bool
  pub recv : W → Rx → W × Option Msg

-- `MapperFactory` and `ReducerFactory` of the three crates
pub record Factory (S SD : Type 0) : Type 0 where
  pub state : S
  pub shutdown : SD
  pub failure_prob : ℕ
  pub straggler_prob : ℕ
  pub straggler_delay : ℕ

unfoldable pub new_factory : {S SD : Type 0} → S → SD → ℕ → ℕ → ℕ → Factory S SD
new_factory state shutdown failure_prob straggler_prob straggler_delay = record {
  state = state;
  shutdown = shutdown;
  failure_prob = failure_prob;
  straggler_prob = straggler_prob;
  straggler_delay = straggler_delay;
}

-- The body of each `create_worker` once it has the two ends of the work channel.
module _ {W Channel A C S SD WR TaskHandle Error : Type 0} (sender : WorkSender W Channel A C)
    (runtime : WorkerRuntime W (Task × Resources S SD WR) TaskHandle Error) where
  unfoldable pub create_with : Factory S SD → ℕ → Channel → WR → W → W × Mapper Channel TaskHandle
  unfolding new_worker
  create_with factory id work_channel work_rx w =
      new_worker sender runtime id
        (record { state = factory.state; shutdown_signal = factory.shutdown; work_rx = work_rx })
        work_channel factory.failure_prob factory.straggler_prob factory.straggler_delay w
