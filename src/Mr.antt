-- ===== src/Mr.antt =====
-- map-reduce: the shared state, the word-search job, the phase executor, the workers, the test data, the
-- main functions and the transports between them.
pub mod StateStore
pub mod WordSearch
pub mod Executor
pub mod Worker
pub mod TestData
pub mod Config
pub mod Job
pub mod Report
pub mod Transport
pub mod Grpc
