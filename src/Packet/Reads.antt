-- ===== src/Packet/Reads.antt =====
-- xptPacketbuffer.cpp: the functions that parse a packet.
use fastrie.Base.{
  ℕ, ◌-◌, ◌*◌, true, false, Option, none, some, List, ◌||◌, load, le_value, add32, ltb, leb, ◌==◌,
  if◌then◌else◌,
}
use fastrie.Packet.Buffer.{Session, M, ◌>>=◌, return, when_else}

-- `pb->parserIndex = pb->bufferSize; *error = true;`
unfoldable pub fail_read : Session → Session
fail_read s = record s { pb = record (s.pb) { parser_index = s.buffer_size }; error = true }

-- `*error = true;`
unfoldable pub fail : Session → Session
fail s = record s { error = true }

-- The bytes at the read position, and `pb->parserIndex += width; *error = false;`
unfoldable pub take_bytes : ℕ → M (List ℕ)
take_bytes width s = elim (load s.buffer s.parser_index width) [
  | none ↦ none
  | some bs ↦ some (
    bs,
    record s { pb = record (s.pb) { parser_index = add32 s.parser_index width }; error = false },
  )
]

-- The common text of the five fixed-width readers.
unfoldable pub read_le : ℕ → M ℕ
unfolding fail_read take_bytes
read_le width s =
    if ltb s.buffer_size (add32 s.parser_index width)
    then some (0, fail_read s)
    else (do bs ← take_bytes width; return (le_value bs)) s

-- A float is the 32 bits that represent it.
unfoldable pub read_float : M ℕ
unfolding read_le
read_float = read_le 4

unfoldable pub read_u64 : M ℕ
unfolding read_le
read_u64 = read_le 8

unfoldable pub read_u32 : M ℕ
unfolding read_le
read_u32 = read_le 4

unfoldable pub read_u16 : M ℕ
unfolding read_le
read_u16 = read_le 2

unfoldable pub read_u8 : M ℕ
unfolding read_le
read_u8 = read_le 1

-- The result is what is copied to the caller's array, `none` where nothing is. A length of 16 MB or
-- more leaves the error flag as it was.
unfoldable pub read_data : ℕ → M (Option (List ℕ))
unfolding fail_read take_bytes
read_data len s =
    if leb (1024 * 1024 * 16) len
    then some (none, s)
    else if ltb s.buffer_size (add32 s.parser_index len)
    then some (none, fail_read s)
    else (do bs ← take_bytes len; return (some bs)) s

-- The characters behind the length prefix; `max` is already the maximum without the final zero.
unfoldable pub read_characters : ℕ → ℕ → M (Option (List ℕ))
unfolding fail take_bytes
read_characters max len s =
    if leb max len
    then some (none, fail s)
    else if ltb s.buffer_size (add32 s.parser_index len)
    then some (none, fail s)
    else (do bs ← take_bytes len; return (some bs)) s

-- The `if( *error ) return;` behind the prefix.
unfoldable pub read_rest : ℕ → ℕ → M (Option (List ℕ))
unfolding read_characters
read_rest max len s = if s.error then some (none, s) else read_characters max len s

-- The result is the text that is written to `stringData`, without the final zero.
unfoldable pub read_string : ℕ → M (Option (List ℕ))
unfolding fail read_u8 read_u16 read_rest
read_string max s =
    if max == 0 || ltb 0xffff max
    then some (none, fail s)
    else (do len ← when_else (leb (max - 1) 0xff) read_u8 read_u16; read_rest (max - 1) len) s
