-- ===== src/Transaction/Defs.antt =====
-- `bitclient_addVarIntFromStream` and `bitclient_generateTxHash`.
use fastrie.Base.{ℕ, ◌*◌, ◌%◌, ◌^◌, Option, none, some, List, leb, if◌then◌else◌, le_bytes}
use fastrie.Stream.{
  MemoryStream, from_dynamic_memory_range, write_data, write_u8, write_u16, write_u32, map_stream,
}
use fastrie.Merkle.{Hash, digest}

-- The results of the writes are not looked at.
unfoldable pub stream_of : Option (MemoryStream × ℕ) → Option MemoryStream
stream_of none = none
stream_of (some (s, _)) = some s

infixl 5 ◌>>=◌
abbrev ◌>>=◌ : {A B : Type 0} → Option A → (A → Option B) → Option B
none >>= f = none
some a >>= f = f a

unfoldable pub add_var_int : (ℕ → Option (List ℕ)) → MemoryStream → ℕ → Option MemoryStream
unfolding stream_of
add_var_int malloc s v =
    if leb v 0xfc
    then stream_of (write_u8 malloc s (v % 2 ^ 8))
    else if leb v 0xffff
    then (do s₁ ← stream_of (write_u8 malloc s 0xfd); stream_of (write_u16 malloc s₁ (v % 2 ^ 16)))
    else if leb v 0xffff_ffff
    then (do s₁ ← stream_of (write_u8 malloc s 0xfe); stream_of (write_u32 malloc s₁ (v % 2 ^ 32)))
    else (do
      s₁ ← stream_of (write_u8 malloc s 0xff)
      stream_of (write_data malloc s₁ (le_bytes 8 v)))

-- The stream's own memory of 32 KB, of which `block` is the first.
unfoldable pub transaction_stream : List ℕ → MemoryStream
unfolding from_dynamic_memory_range
transaction_stream block = from_dynamic_memory_range (1024 * 32) block

-- The result is what is written to `txHash`.
unfoldable pub generate_tx_hash :
    (List ℕ → Hash) → (ℕ → Option (List ℕ)) → List ℕ → List ℕ → List ℕ → ℕ → Option Hash
unfolding stream_of
generate_tx_hash sha256 malloc user_extra_nonce coin_base1 coin_base2 mode = do
  block ← malloc 1024
  s₁ ← stream_of (write_data malloc (transaction_stream block) coin_base1)
  s₂ ← stream_of (write_data malloc s₁ user_extra_nonce)
  s₃ ← stream_of (write_data malloc s₂ coin_base2)
  (_, transaction_data) ← map_stream s₃
  some (digest sha256 mode transaction_data)
