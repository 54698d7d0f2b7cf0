-- ===== src/Lib.antt =====
-- A model of the two programs of this repository: the versioned key-value server with its client
-- (key-value-server), and the map-reduce framework with its word search (map-reduce).
--
-- key-value-server. A storage maps keys to values with versions; a put names the version it expects,
-- 0 for a new key. Three backends implement the trait. The server turns requests into calls of its
-- storage, a wrapper drops the answers of some puts, and a client runs random gets and puts, a put
-- retrying until it succeeds or its retries are spent.
--   Kv/Error         core/src/storage_error.rs, and the messages of core/proto
--   Kv/Storage       core/src/storage.rs: the trait `Storage` as a record, and the contract its
--                    comments state: `contract_get`, `verdict` and `effect` on a view of the state
--   Kv/InMemory      server-in-memory/src/in_memory_storage.rs
--   Kv/FlatFile      server-flat-file/src/flat_file_storage.rs, over the content of the file; `Lines`,
--                    `Entries` and `Contract` have the proofs, `Commas` a value that is lost
--   Kv/SledDb        server-sled-db/src/sled_db_storage.rs, over a parameter for the database and the
--                    codec; `Contract` for one request at a time, `Races` for two at once
--   Kv/Server        core/src/key_value_server.rs and packet_loss_wrapper.rs
--   Kv/Client        core/src/kv_client.rs, timer.rs, random.rs, config.rs: what an operation calls
--   Kv/PutOperation  core/src/put_operation.rs: `round` is one round of the loop of `execute`; `Rounds`
--                    and `Loop` say what a round does, `EndToEnd`, `Network` and `Recovery` what a put
--                    does, `Once` what it writes among other clients
--   Kv/GetOperation  core/src/get_operation.rs
--   Kv/Stress        core/src/grpc_client.rs; `Safety` for its indexing
--   Kv/Deployment    one client and the server that core/src/server_runner.rs wires to it, with
--                    schedules of the requests and answers that are lost
--   Kv/History       the requests of any number of clients, in the order of their service; `Chain` for
--                    their versions
--   Kv/Config        core/src/config.rs
--   Kv/Runner        core/src/server_runner.rs and the three main.rs: the state of a run and what its
--                    tasks do to it; `Steps` is the step relation, `Clients` and `Invariant` what
--                    holds of it, `Ends` what a run has done at its end, `Terminates` that it ends
--   Kv/Listing       what `print_all` of the three backends prints; Kv/FlatFile/Prints for that of one
-- All paths of this part are below key-value-server/.
--
-- map-reduce. A job splits its input into assignments; an executor hands them to workers, replaces
-- workers that fail or are late, until all are completed; the workers share a state store.
--   Mr/StateStore    core/src/state_store.rs and in_memory_state_store.rs
--   Mr/WordSearch    word-search/src/lib.rs; `Partition` and `Assignments` for the splitting,
--                    `Contains`, `MapPhase`, `Phases` and `Result` for the counts, `Small`
--                    for their size
--   Mr/Worker        the loops of core/src/mapper.rs and core/src/reducer.rs; `Handle` for what
--                    spawns one, `Answers` for what one reports
--   Mr/Executor      core/src/executor.rs; `Honest` has what it relies on and its invariant, `Steps`,
--                    `Completion` and `Rounds` the single steps, `Completes` a whole phase
--   Mr/TestData      core/src/utils.rs and the fields of core/src/config.rs; `Shapes` for the texts
--   Mr/Config        the rest of core/src/config.rs: defaults, loading, and the summary
--   Mr/Job           the `main` functions of task-channels/src/main.rs and thread-socket/src/main.rs,
--                    and `run_coordinator` of process-rpc/src/main.rs; `Counts` for the two phases,
--                    `Whole` for a job, `Mains` for what the programs show
--   Mr/Report        the end of these functions; `Sorted` for what is shown
--   Mr/Transport     what the three transports share, with core/src/worker_message.rs
--     Runtimes       task-channels/src/channel_worker_runtime.rs and
--                    thread-socket/src/socket_worker_runtime.rs
--     Wire           a message on a TCP connection; `Frames` for what is read of it
--     Socket         thread-socket/src/socket_*.rs, mapper.rs, reducer.rs; `Messages` for a status on
--                    its way, `Slots` for the listeners
--     Channel        task-channels/src/channel_*.rs, mapper.rs, reducer.rs; `Slots` for the channels,
--                    `Round` for one round of a worker over them, `Assigned` for an assignment on
--                    its way there and back
--   Mr/Grpc          process-rpc: `Store` has src/grpc_state_server.rs and grpc_state_store.rs,
--                    `Signals` grpc_status_sender.rs and grpc_worker_synchronization.rs, `Work`
--                    grpc_work_sender.rs, grpc_work_receiver.rs, mapper.rs and reducer.rs, `Ports` the
--                    port numbers, `Process` the command line of grpc_worker_runtime.rs and
--                    `run_worker` of main.rs, `Fleet` the handles of processes, with `Leaves` for
--                    what becomes of them and `Phase` for a phase of the executor over them
-- In Mr/Executor, `Frame` is for what all calls of a phase keep, `Watch` for what the executor's
-- own calls keep, `Work` for a phase that writes to a shared store, `Stray` for a completion that
-- nobody waits for; in Mr/Worker, `Finishes` is for the whole loop. `main` creates the workers with
-- `initialize_phase`, then runs `execute` for the map phase and for the reduce phase; the executor
-- reaches the workers through the record `Cluster`, a worker its messages through `Runtime`, and
-- the transports are what stands behind these two. All paths of this part are below map-reduce/.
-- Prelude/ has the shared types and lemmas, `Totals` sums over lists and the order that they leave
-- open, `Sorting` the order of texts. Examples/ applies the theorems to small inputs.
--
-- State and numbers. A method returns the state it leaves; what is outside a component (network,
-- clock, random numbers, workers, database) is a record of functions on a state of its own, with
-- the behaviour that a theorem needs as a record of laws. Texts are lists of code points. Versions
-- and retry counts wrap around as u64 and u32 do in a release build; a count of texts is an i32,
-- kept as its bit pattern. A comparison of a random float with a rate is a Boolean draw.
--
-- Fuel. The loops of `PutOperation::execute`, `GrpcClient::start`, the executor and the workers
-- take fuel, one for each round: `max_retries`, at least one, for a put that nothing answers, `k + 2` for one
-- whose first `k` requests are lost, and for a phase more than its assignments and the waits that
-- end without a completion, for a worker more than its messages. `drain` and `wait_next` over
-- sockets take fuel for the messages and the connections that arrive. The entries below say where
-- this fuel is shown to be enough.
--
-- Not modelled: log lines, errors and panics of the file system, and what only calls a library: the
-- start of servers, threads, tasks and processes, whose effects are parameters. A run of the server
-- runner has its tasks, their order and their ends; tonic, tokio and the clock stand in it by what the
-- code relies on. The futures of tokio are run one at a time: a read of a message that a timeout cuts
-- off halfway is left out. `MapWorkAssignment.data` is called `chunk`.
pub mod Prelude
pub mod Kv
pub mod Mr
pub mod Examples
