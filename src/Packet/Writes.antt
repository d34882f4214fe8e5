-- ===== src/Packet/Writes.antt =====
-- xptPacketbuffer.cpp: the functions that build a packet.
use fastrie.Base.{
  ℕ, ◌+◌, ◌-◌, ◌*◌, ◌%◌, ◌^◌, false, Option, none, some, List, ◌||◌, load, store, le_value,
  le_bytes, add32, sub32, ltb, leb, ◌==◌, if◌then◌else◌, length, bit_or,
}
use fastrie.Packet.Buffer.{PacketBuffer, M, ◌>>◌}
use fastrie.Packet.Reads.{fail}

-- Stores bytes at the write position, and `pb->parserIndex += length;`
unfoldable pub put_bytes : List ℕ → M (Unit {0})
put_bytes bs s = elim (store s.buffer s.parser_index bs) [
  | none ↦ none
  | some buffer ↦ some (
    tt,
    record s {
      pb = record (s.pb) { buffer = buffer; parser_index = add32 s.parser_index (length bs) };
    },
  )
]

-- `*error = false;`
unfoldable pub succeed : M (Unit {0})
succeed s = some (tt, record s { error = false })

-- The common text of the five fixed-width writers.
unfoldable pub write_le : ℕ → ℕ → M (Unit {0})
unfolding fail put_bytes succeed
write_le width v s =
    if ltb s.buffer_limit (add32 s.parser_index width)
    then some (tt, fail s)
    else (do put_bytes (le_bytes width v); succeed) s

unfoldable pub write_float : ℕ → M (Unit {0})
unfolding write_le
write_float v = write_le 4 v

unfoldable pub write_u64 : ℕ → M (Unit {0})
unfolding write_le
write_u64 v = write_le 8 v

unfoldable pub write_u32 : ℕ → M (Unit {0})
unfolding write_le
write_u32 v = write_le 4 v

unfoldable pub write_u16 : ℕ → M (Unit {0})
unfolding write_le
write_u16 v = write_le 2 v

unfoldable pub write_u8 : ℕ → M (Unit {0})
unfolding write_le
write_u8 v = write_le 1 v

-- The list is `data[0..length)`. A length of 16 MB or more leaves the error flag as it was.
unfoldable pub write_data : List ℕ → M (Unit {0})
unfolding fail put_bytes succeed
write_data bs s =
    if leb (1024 * 1024 * 16) (length bs)
    then some (tt, s)
    else if ltb s.buffer_limit (add32 s.parser_index (length bs))
    then some (tt, fail s)
    else (do put_bytes bs; succeed) s

-- The bytes that the prefix takes, by the maximum without the final zero.
unfoldable pub prefix_width : ℕ → ℕ
prefix_width max = if leb max 0xff then 1 else 2

-- `max` is already the maximum without the final zero. The lengths are far from 2 ^ 32 here.
unfoldable pub write_characters : ℕ → List ℕ → M (Unit {0})
unfolding fail put_bytes succeed prefix_width
write_characters max text s =
    if ltb max (length text)
    then some (tt, fail s)
    else if ltb s.buffer_limit (add32 s.parser_index (length text + prefix_width max))
    then some (tt, fail s)
    else (do put_bytes (le_bytes (prefix_width max) (length text)); put_bytes text; succeed) s

-- `text` is the string without its final zero, so that its length is `strlen(stringData)`.
unfoldable pub write_string : List ℕ → ℕ → M (Unit {0})
unfolding fail write_characters
write_string text max s =
    if max == 0 || ltb 0xffff max then some (tt, fail s) else write_characters (max - 1) text s

-- The header: the opcode below, the size of the data above it. `none` if the block has no header.
unfoldable pub finalize_write_packet : PacketBuffer → Option PacketBuffer
finalize_write_packet pb = elim (load pb.buffer 0 4) [
  | none ↦ none
  | some header ↦
      elim (store pb.buffer 0
        (le_bytes 4 (bit_or (le_value header % 256) (sub32 pb.parser_index 4 * 256 % 2 ^ 32)))) [
          | none ↦ none
          | some buffer ↦ some (record pb { buffer = buffer })
        ]
]
