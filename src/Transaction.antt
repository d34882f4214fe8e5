-- ===== src/Transaction.antt =====
-- transaction.cpp, the hash of the coinbase transaction and Bitcoin's variable-length integers, both
-- over a memory stream.
mod Defs
mod Runs
pub mod TxHash
unfoldable pub use Defs.*
