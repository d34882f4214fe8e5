-- ===== src/Packet/Buffer.antt =====
-- xptPacketbuffer.cpp: the buffer, its creation and resizing, and the two ways to begin a packet.
-- The buffer and the caller's error flag are the state of a monad in which `none` is an access to
-- memory outside the allocated block.
use fastrie.Base.{
  ℕ, ◌%◌, min, Bool, true, false, Option, none, some, List, ◌++◌, take, store, le_bytes, sub32,
}

-- `xptPacketbuffer_t`. The list is the block that `buffer` points at.
pub record PacketBuffer : Type 0 where
  pub buffer : List ℕ
  pub parser_index : ℕ
  pub buffer_limit : ℕ
  pub buffer_size : ℕ

-- A buffer with the variable that the callers hand over as `bool* error`.
pub record Session : Type 0 where
  pub pb : PacketBuffer
  pub open pb use *
  pub error : Bool

abbrev pub M : Type 0 → Type 0
M A = Session → Option (A × Session)

infixl 5 ◌>>=◌ ◌>>◌
abbrev pub ◌>>=◌ : {A B : Type 0} → M A → (A → M B) → M B
◌>>=◌ m f s = elim (m s) [ none ↦ none | some (a, s') ↦ f a s' ]

abbrev pub ◌>>◌ : {B : Type 0} → M (Unit {0}) → M B → M B
◌>>◌ m k s = elim (m s) [ none ↦ none | some (_, s') ↦ k s' ]

abbrev pub return : {A : Type 0} → A → M A
return a s = some (a, s)

-- Runs `yes_branch` or `no_branch`; the one that is not taken waits.
abbrev pub when_else : {A : Type 0} → Bool → M A → M A → M A
when_else b m k s = elim b [ true ↦ m s | false ↦ k s ]

-- `block` is the memory that `malloc(initialSize)` returns.
unfoldable pub create : ℕ → List ℕ → PacketBuffer
create initial_size block = record {
  buffer = block;
  parser_index = 0;
  buffer_limit = initial_size;
  buffer_size = 0;
}

-- `realloc` keeps the bytes that fit the new size; `fresh` is what it adds behind them.
unfoldable pub change_size_limit : PacketBuffer → ℕ → List ℕ → PacketBuffer
change_size_limit pb size_limit fresh = record {
  buffer = take size_limit pb.buffer ++ fresh;
  parser_index = min pb.parser_index size_limit;
  buffer_limit = size_limit;
  buffer_size = min pb.buffer_size size_limit;
}

-- `none` if the block is shorter than the header.
unfoldable pub begin_write_packet : PacketBuffer → ℕ → Option PacketBuffer
begin_write_packet pb opcode = elim (store pb.buffer 0 (le_bytes 4 (opcode % 256))) [
  | none ↦ none
  | some buffer ↦ some (record pb { buffer = buffer; parser_index = 4 })
]

unfoldable pub begin_read_packet : PacketBuffer → PacketBuffer
begin_read_packet pb = record pb { parser_index = 4 }

unfoldable get_read_size : PacketBuffer → ℕ
get_read_size pb = sub32 pb.buffer_size pb.parser_index
