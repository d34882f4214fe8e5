-- ===== src/SimpleList.antt =====
-- jhlib.cpp, `simpleList_t`: the growable array of pointers that holds connections and shares.
mod Defs
mod Runs
pub mod Contents
pub mod Removal
unfoldable pub use Defs.*
