-- ===== src/Indexer.antt =====
-- The package `indexer` (indexer/indexer.go, indexer/wait_table.go): the state that its goroutines
-- share. What the SDK's storages answer is an argument of each operation.
pub mod WaitTable
pub mod Events
pub mod Find
pub mod Schedule
pub mod Interleaving
pub mod Fetch
pub mod Pruning
pub mod Syncing
pub mod Queries
pub mod Storage
