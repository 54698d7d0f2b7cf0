-- ===== src/Mr/Transport/Channel/Round.antt =====
-- A worker over the channels: one round of `MapperTask::run` (map-reduce/core/src/mapper.rs) and of
-- `ReducerTask::run` with the receiver and the status senders of map-reduce/task-channels.
use distributed_systems.Prelude.{ℕ, Bool, Option, none, some, if◌then◌else◌}
use distributed_systems.Mr.Worker.{
  Status, Runtime, Received, timed_out, closed, initialize, work, Task, Round, again, on_received,
}
use distributed_systems.Mr.Transport.{WorkerMessage, Mpsc}
use distributed_systems.Mr.Transport.Channel.{Streams, register, send}

-- What a worker has beside its senders: the shutdown signal, `timeout(…, work_rx.recv())`, random
-- numbers and the clock.
pub record Surroundings (W Rx Msg : Type 0) : Type 0 where
  pub is_cancelled : W → W × Bool
  -- `none` for the timeout
  pub recv_within : W → Rx → ℕ → W × Option (Option Msg)
  pub random_below : W → ℕ → W × ℕ
  pub random_up_to : W → ℕ → W × ℕ
  pub sleep : W → ℕ → W

module _ {W Tx Rx WorkRx A : Type 0} (mpsc : Mpsc W Tx Rx Status) (streams : Streams W Rx Status)
    (env : Surroundings W WorkRx (WorkerMessage A Tx)) where
  received_of : Option (Option (WorkerMessage A Tx)) → Received A
  received_of none = timed_out
  received_of (some none) = closed
  received_of (some (some (WorkerMessage.initialize token))) = initialize
  received_of (some (some (WorkerMessage.work assignment sender))) = work assignment

  -- the surroundings with the status sender of a message
  unfoldable pub runtime_of : WorkRx → Tx → Runtime W A
  unfolding register send received_of
  runtime_of work_rx tx = record {
    is_cancelled = env.is_cancelled;
    recv = λ w ms. let (w', r) = env.recv_within w work_rx ms in (w', received_of r);
    register = λ w id. register mpsc streams w tx id;
    send = λ w status. send mpsc streams w tx status;
    random_below = env.random_below;
    random_up_to = env.random_up_to;
    sleep = env.sleep;
  }

  module _ (task : Task) (job : W → A → Option W) (work_rx : WorkRx) where
    -- the `match work_result`: the sender that came with a message answers it
    unfoldable pub dispatch : Option (Option (WorkerMessage A Tx)) → W → Round W
    unfolding runtime_of on_received
    dispatch none w = again w
    dispatch (some none) w = Round.stop w
    dispatch (some (some (WorkerMessage.initialize token))) w =
        on_received (runtime_of work_rx token) task job initialize w
    dispatch (some (some (WorkerMessage.work assignment sender))) w =
        on_received (runtime_of work_rx sender) task job (work assignment) w

    -- the body of the loop
    unfoldable pub worker_round : W → Round W
    unfolding dispatch
    worker_round w =
        let (w1, cancelled) = env.is_cancelled w in
        let (w2, r) = env.recv_within w1 work_rx 100 in
        let next = dispatch r w2 in if cancelled then Round.stop w1 else next
