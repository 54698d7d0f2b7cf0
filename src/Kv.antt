-- ===== src/Kv.antt =====
-- key-value-server: the storage contract and its backends, the server and the client.
pub mod Error
pub mod Storage
pub mod Listing
pub mod InMemory
pub mod Server
pub mod Client
pub mod History
pub mod Config
pub mod Runner
pub mod Deployment
pub mod PutOperation
pub mod GetOperation
pub mod Stress
pub mod SledDb
pub mod FlatFile
