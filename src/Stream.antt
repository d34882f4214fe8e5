-- ===== src/Stream.antt =====
-- jhlib.cpp, the memory streams `streamEx_dynamicMemoryRange_t` and the functions on `stream_t` that
-- reach them.
mod Memory
mod Runs
pub mod WriteData
unfoldable pub use Memory.*
