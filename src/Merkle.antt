-- ===== src/Merkle.antt =====
-- transaction.cpp, `bitclient_calculateMerkleRoot`, against Bitcoin's tree of hashes.
mod Tree
mod Runs
mod Spec
pub mod Layers
pub mod Root
unfoldable pub use Tree.*
unfoldable pub use Spec.*
