-- ===== src/Miner.antt =====
-- main.cpp: the work that the connection hands to the miner's threads, and the shares that come back.
mod Source
mod Runs
pub mod Copying
unfoldable pub use Source.*
