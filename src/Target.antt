-- ===== src/Target.antt =====
-- xptClient.cpp, `xptClient_getDifficultyTargetFromCompact`: a 256-bit target in eight words from
-- Bitcoin's compact form, against the number that the form stands for.
mod Compact
mod Runs
pub mod Value
unfoldable pub use Compact.*
