-- ===== src/Mr/Worker/Handle.antt =====
-- The handle of a worker: `Mapper` in map-reduce/core/src/mapper.rs; `Reducer` in
-- map-reduce/core/src/reducer.rs is the same code. The work channel and the runtime are the
-- parameters that they are in the source.
use distributed_systems.Prelude.{ℕ, Result}
use distributed_systems.Mr.Worker.{Task}

-- the trait of map-reduce/core/src/work_sender.rs
pub record WorkSender (W Channel A C : Type 0) : Type 0 where
  pub initialize : Channel → C → W → W
  pub send_work : Channel → A → C → W → W

-- the trait of map-reduce/core/src/worker_runtime.rs, for a task `T`
pub record WorkerRuntime (W T TaskHandle Error : Type 0) : Type 0 where
  pub spawn : T → W → W × TaskHandle
  pub join : TaskHandle → W → W × Result (Unit {0}) Error

-- what a task takes beside its plain values: the store, the shutdown signal and the receiver
pub record Resources (S SD WR : Type 0) : Type 0 where
  pub state : S
  pub shutdown_signal : SD
  pub work_rx : WR

pub record Mapper (Channel TaskHandle : Type 0) : Type 0 where
  pub work_channel : Channel
  pub task_handle : TaskHandle

module _ {W Channel A C S SD WR TaskHandle Error : Type 0} (sender : WorkSender W Channel A C)
    (runtime : WorkerRuntime W (Task × Resources S SD WR) TaskHandle Error) where
  unfoldable pub new_worker :
      ℕ → Resources S SD WR → Channel → ℕ → ℕ → ℕ → W → W × Mapper Channel TaskHandle
  new_worker id resources work_channel failure_probability straggler_probability straggler_delay_ms
        w =
      let task : Task = record {
        id = id;
        failure_probability = failure_probability;
        straggler_probability = straggler_probability;
        straggler_delay_ms = straggler_delay_ms;
      } in
      let (w', task_handle) = runtime.spawn (task, resources) w in
      (w', record { work_channel = work_channel; task_handle = task_handle })

  unfoldable pub initialize_worker : Mapper Channel TaskHandle → C → W → W
  initialize_worker worker token w = sender.initialize worker.work_channel token w

  unfoldable pub send_worker : Mapper Channel TaskHandle → A → C → W → W
  send_worker worker assignment complete_tx w =
      sender.send_work worker.work_channel assignment complete_tx w

  unfoldable pub wait_worker : Mapper Channel TaskHandle → W → W × Result (Unit {0}) Error
  wait_worker worker w = runtime.join worker.task_handle w

  -- `Reducer`, with the same bodies
  unfoldable pub new_reducer :
      ℕ → Resources S SD WR → Channel → ℕ → ℕ → ℕ → W → W × Mapper Channel TaskHandle
  unfolding new_worker
  new_reducer = new_worker

  unfoldable pub initialize_reducer : Mapper Channel TaskHandle → C → W → W
  unfolding initialize_worker
  initialize_reducer = initialize_worker

  unfoldable pub send_reducer : Mapper Channel TaskHandle → A → C → W → W
  unfolding send_worker
  send_reducer = send_worker
