-- ===== src/Lib.antt =====
-- A verification of fastrie, the Riecoin miner in xptMiner/xptMiner/. All paths below are relative to
-- that directory.
--
-- The program. A miner keeps one connection to a pool. `xptClient_process` (xptClient.cpp) is called in
-- a loop: it submits the queued shares, sends pings, and receives packets, whose handlers
-- (xptClientPacketHandler.cpp) parse them with the packet buffer (xptPacketbuffer.cpp). The work that
-- arrives is copied to the miner's threads (main.cpp), which build the coinbase transaction and its
-- Merkle root (transaction.cpp, over the memory streams of jhlib.cpp), sieve for prime sextuplets and
-- test the candidates (riecoinMiner.cpp), passing jobs through a bounded blocking queue (tsqueue.hpp).
-- Shares come back through a growable list (jhlib.cpp) that the next call of `xptClient_process` empties.
--
-- The files.
--   Base             what the modules share: Boolean tests, lists, bytes and words, memory, bits.
--   Packet           xptPacketbuffer.cpp. Buffer, Reads and Writes are the operations, Header the four
--                    header bytes; Fields is the specification, a packet as a list of typed fields.
--   Target           xptClient.cpp, xptClient_getDifficultyTargetFromCompact.
--   SimpleList       jhlib.cpp, simpleList_t.
--   Stream           jhlib.cpp, streamEx_dynamicMemoryRange_* and the stream functions over it.
--   Merkle           transaction.cpp, bitclient_calculateMerkleRoot, with Bitcoin's tree in Merkle.Spec.
--   Transaction      transaction.cpp, bitclient_generateTxHash and bitclient_addVarIntFromStream.
--   Client           xptClient.cpp and xptClientPacketHandler.cpp. State is xptClient_t, Handlers the
--                    packet handlers, Sending what is sent and connecting, Process xptClient_process,
--                    Base58 the fee addresses.
--   TsQueue          tsqueue.hpp. Queue is the operations, Threads a producer and a consumer with their sleeps
--                    and signals, by the pthreads macros of global.h.
--   Riecoin          riecoinMiner.cpp. Init is the table of primes of riecoin_init, Start the target and the
--                    first offset, Remainders with Offsets update_remainders and put_offsets_in_segments,
--                    Jobs the division of the primes among the workers, Sieve process_sieve, Merging the
--                    master's own sieving, Scan the hunt for candidates, Segment a whole round of the main
--                    loop, Verify the tests and shares of verify_thread. Mpz is what they rely on of GMP.
--   Miner            main.cpp, xptMiner_getWorkFromXPTConnection and xptMiner_submitShare.
--
-- How the code is modelled. A struct is a record whose fields have the names of the source, a block of
-- memory a list of bytes. An operation that can leave its memory returns an Option, and `none` is that
-- access; a failed assertion is `none` too. A uint32 is a natural number with its wrap-around written
-- out. Operations on the packet buffer run in a monad of the buffer and the caller's error flag,
-- operations on the client in a monad of the client. What the client does to its socket is a list of
-- calls in its state. The outcome of `recv`, the time, and the memory that `malloc` and `realloc` return
-- are arguments. sha256 is a parameter of the definitions that use it.
--
-- Fuel. `strike` has one round more than the sieve has positions, and each round moves on by the prime;
-- `cross_out` and `cross_all` have the limit of the table, and each round raises the number that they
-- compare with it; `mod_jobs` has a round for each prime, `sieve_jobs` one more than there are workers;
-- `scan_word` has the 65 rounds of `sb_process_count`, and `layers` the ten of the source; all other loops
-- follow a list or a number.
--
-- What is not modelled: the opening of sockets, printing, freeing, the start of threads and the command
-- line; more than one producer and consumer asleep at a queue; fields of other coins; GMP, whose operations
-- are parameters, in update_remainders the remainder and the inverse of a prime; of riecoinMiner.cpp the
-- making of the inverses and the primorial, and the master's waiting; of jhlib.cpp the readers, bit streams and
-- substreams; of main.cpp the loops; and xptServer.cpp.
pub mod Base
pub mod Packet
pub mod Target
pub mod SimpleList
pub mod Stream
pub mod Merkle
pub mod Transaction
pub mod Client
pub mod TsQueue
pub mod Riecoin
pub mod Miner
