-- ===== src/Packet.antt =====
-- xptMiner/xptMiner/xptPacketbuffer.cpp and `xptPacketbuffer_t` of xptServer.h: the buffer in which
-- packets are built and parsed.
mod Buffer
mod Reads
mod Writes
mod Runs
pub mod Header
pub mod Fields
pub mod WriteFields
pub mod ReadFields
pub mod RoundTrip
pub mod ReadSafety
pub mod WriteSafety
unfoldable pub use Buffer.*
unfoldable pub use Reads.*
unfoldable pub use Writes.*
