-- ===== src/Riecoin.antt =====
-- riecoinMiner.cpp, the sieve for prime sextuplets.
mod Sieve
mod Runs
mod RoundRuns
mod StartRuns
mod Verify
mod Limbs
pub mod Shares
pub mod Marks
pub mod Strikes
pub mod Sorting
pub mod Offsets
mod Scan
mod WordBits
pub mod Candidates
pub mod WholeScan
pub mod Reach
pub mod Rows
pub mod Jobs
mod Merging
pub mod Dense
pub mod Merged
mod Bytes
mod Init
pub mod Crossing
mod Wheel
pub mod Primes
mod Segment
mod Remainders
pub mod Batches
pub mod Buckets
mod Mpz
mod Start
pub mod Starting
pub mod RowRanges
mod JobRuns
pub mod Iteration
unfoldable pub use Sieve.*
unfoldable pub use Scan.*
unfoldable pub use Merging.*
unfoldable pub use Segment.*
unfoldable pub use Init.*
unfoldable pub use Remainders.*
unfoldable pub use Mpz.*
unfoldable pub use Start.*
unfoldable pub use Verify.*
