-- ===== src/Examples.antt =====
-- The theorems at concrete inputs.
mod KeyValue
mod Backends
mod WordSearch
mod Workers
mod Bench
mod Jobs
mod Loops
mod Transports
mod Calls
mod Runs
mod Messages
mod Rivals
mod Offices
