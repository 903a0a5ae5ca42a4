-- ===== src/Thought.antt =====
-- The package `thought`: the client of thoughtd and the translation of its blocks.
pub mod Types
pub mod Coin
pub mod Node
pub mod Address
pub mod Rpc
pub mod RawBlock
pub mod BlockData
pub mod Operations
pub mod Created
pub mod Transactions
pub mod Ledger
