-- ===== src/Client.antt =====
-- xptClient.cpp and xptClientPacketHandler.cpp: the miner's end of the connection to the pool.
mod State
mod Handlers
mod Sending
mod Process
mod Runs
pub mod Base58
pub mod Fees
pub mod Framing
pub mod Sends
pub mod Login
pub mod Handling
pub mod Work
unfoldable pub use State.*
unfoldable pub use Handlers.*
unfoldable pub use Sending.*
unfoldable pub use Process.*
