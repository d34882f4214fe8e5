-- ===== src/TsQueue.antt =====
-- tsqueue.hpp: the bounded blocking queue between the miner's threads.
mod Queue
mod Runs
pub mod Order
mod Threads
pub mod Progress
unfoldable pub use Queue.*
unfoldable pub use Threads.*
