-- ===== src/Mr/Transport/Runtimes.antt =====
-- The worker runtimes of the two transports inside one process: `TokioRuntime` of
-- map-reduce/task-channels/src/channel_worker_runtime.rs and `ThreadRuntime` of
-- map-reduce/thread-socket/src/socket_worker_runtime.rs. Tasks, threads and their errors are
-- parameters.
use distributed_systems.Prelude.{◌++◌, Text, codes, Result, ok, err}
use distributed_systems.Mr.Worker.Handle.{WorkerRuntime}

-- `tokio::task::spawn` of what a future does to the state, and the await of its handle
pub record Tasks (W TaskHandle Error : Type 0) : Type 0 where
  pub spawn : (W → W) → W → W × TaskHandle
  pub join : TaskHandle → W → W × Result (Unit {0}) Error

-- `run` of the trait `WorkerTask` is a parameter.
unfoldable pub tokio_runtime :
    {W T TaskHandle Error : Type 0}
    → Tasks W TaskHandle Error
    → (T → W → W)
    → WorkerRuntime W T TaskHandle Error
tokio_runtime tasks run = record {
  spawn = λ task w. tasks.spawn (run task) w;
  join = λ handle w. tasks.join handle w;
}

-- `thread::spawn`, `JoinHandle::join` inside `spawn_blocking`, whose own error is the outer one, and
-- `Runtime::new().unwrap().block_on`; the errors are those that `format!` shows.
pub record Threads (W JoinHandle ThreadError JoinError : Type 0) : Type 0 where
  pub spawn : (W → W) → W → W × JoinHandle
  pub block_on : (W → W) → W → W
  pub join_blocking : JoinHandle → W → W × Result (Result (Unit {0}) ThreadError) JoinError
  pub show_thread : ThreadError → Text
  pub show_join : JoinError → Text

module _ {W JoinHandle ThreadError JoinError : Type 0}
    (threads : Threads W JoinHandle ThreadError JoinError) where
  -- the two `map_err` and the `?`
  thread_joined : Result (Result (Unit {0}) ThreadError) JoinError → Result (Unit {0}) Text
  thread_joined (ok (ok done)) = ok done
  thread_joined (ok (err e)) = err (codes "Thread join error: " ++ threads.show_thread e)
  thread_joined (err e) = err (codes "Tokio join error: " ++ threads.show_join e)

  unfoldable pub thread_runtime : {T : Type 0} → (T → W → W) → WorkerRuntime W T JoinHandle Text
  unfolding thread_joined
  thread_runtime run = record {
    spawn = λ task w. threads.spawn (threads.block_on (run task)) w;
    join =
        λ handle w. let (w', joined) = threads.join_blocking handle w in (w', thread_joined joined);
  }
