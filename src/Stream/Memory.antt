-- ===== src/Stream/Memory.antt =====
-- `streamEx_dynamicMemoryRange_*` and the stream functions over them. `none` is an access outside a
-- block. A stream here is always one of these: `settings` is not modelled.
use fastrie.Base.{
  ℕ, ◌-◌, ◌/◌, min, Bool, true, false, Option, none, some, List, [], ◌++◌, take, drop, length, load,
  store, le_bytes, add32, sub32, ltb, ◌==◌, if◌then◌else◌,
}

pub record MemoryStream : Type 0 where
  pub size_limit : ℕ
  pub buffer : List ℕ
  pub buffer_position : ℕ
  pub buffer_size : ℕ
  pub buffer_limit : ℕ
  pub disallow_write : Bool
  pub do_not_free_memory : Bool

-- `streamEx_fromMemoryRange`
unfoldable from_memory_range : List ℕ → ℕ → MemoryStream
from_memory_range mem memory_limit = record {
  size_limit = 0;
  buffer = mem;
  buffer_position = 0;
  buffer_size = memory_limit;
  buffer_limit = 0;
  disallow_write = true;
  do_not_free_memory = true;
}

unfoldable first_limit : ℕ → ℕ
first_limit memory_limit = if ltb memory_limit 1024 then memory_limit else 1024

-- `streamEx_fromDynamicMemoryRange`; `block` is the memory that `malloc` returns.
unfoldable pub from_dynamic_memory_range : ℕ → List ℕ → MemoryStream
unfolding first_limit
from_dynamic_memory_range memory_limit block = record {
  size_limit = memory_limit;
  buffer = block;
  buffer_position = 0;
  buffer_size = 0;
  buffer_limit = first_limit memory_limit;
  disallow_write = false;
  do_not_free_memory = false;
}

-- The bytes that go to the caller's buffer; their number is the C result.
unfoldable pub read_data : MemoryStream → ℕ → Option (MemoryStream × List ℕ)
read_data s len =
    let bytes_to_read = min len (sub32 s.buffer_size s.buffer_position) in
    elim (load s.buffer s.buffer_position bytes_to_read) [
      | none ↦ none
      | some bs ↦ some (record s { buffer_position = add32 s.buffer_position bytes_to_read }, bs)
    ]

-- Writing over what is there already. The list is what remains to be written.
unfoldable pub overwrite : MemoryStream → List ℕ → Option (MemoryStream × List ℕ)
overwrite s bs =
    let overwrite_size = sub32 s.buffer_size s.buffer_position in
    let bytes_to_write = min overwrite_size (length bs) in
    if overwrite_size == 0
    then some (s, bs)
    else elim (store s.buffer s.buffer_position (take bytes_to_write bs)) [
      | none ↦ none
      | some buffer ↦ some (
        record s { buffer = buffer; buffer_position = add32 s.buffer_position bytes_to_write },
        drop bytes_to_write bs,
      )
    ]

-- How much larger the buffer becomes for `n` more bytes of which `left` have room.
unfoldable pub enlarge_size : MemoryStream → ℕ → ℕ → ℕ
enlarge_size s n left =
    let minimal = sub32 n left in
    let ideal = s.buffer_limit / 4 in
    min (sub32 s.size_limit s.buffer_limit)
      (if ltb ideal minimal then add32 ideal minimal else ideal)

-- `malloc n` is the block that `malloc` returns, `none` if it fails.
unfoldable pub enlarge : (ℕ → Option (List ℕ)) → MemoryStream → ℕ → MemoryStream
unfolding enlarge_size
enlarge malloc s n =
    let left = sub32 s.buffer_limit s.buffer_position in
    let size = enlarge_size s n left in
    if ltb left n
    then if size == 0 then s else elim (malloc (add32 s.buffer_limit size)) [
      | none ↦ s
      | some block ↦ record s {
        buffer = take s.buffer_size s.buffer ++ drop s.buffer_size block;
        buffer_limit = add32 s.buffer_limit size;
      }
    ]
    else s

-- Writing behind the end, as far as there is room. The number is what is left unwritten.
unfoldable pub extend : MemoryStream → List ℕ → Option (MemoryStream × ℕ)
extend s bs =
    let left = sub32 s.buffer_limit s.buffer_position in
    let bytes_to_write = min left (length bs) in
    if bytes_to_write == 0
    then some (s, length bs)
    else elim (store s.buffer s.buffer_position (take bytes_to_write bs)) [
      | none ↦ none
      | some buffer ↦ some (
        record s {
          buffer = buffer;
          buffer_position = add32 s.buffer_position bytes_to_write;
          buffer_size = add32 s.buffer_size bytes_to_write;
        },
        length bs - bytes_to_write,
      )
    ]

-- The number is the C result, the bytes written.
unfoldable pub write_allowed :
    (ℕ → Option (List ℕ)) → MemoryStream → List ℕ → Option (MemoryStream × ℕ)
write_allowed malloc s bs = elim (overwrite s bs) [
  | none ↦ none
  | some (s₁, rest) ↦
      if length rest == 0
      then some (s₁, length bs)
      else elim (extend (enlarge malloc s₁ (length rest)) rest) [
        | none ↦ none
        | some (s₂, unwritten) ↦ some (s₂, length bs - unwritten)
      ]
]

unfoldable pub write_data :
    (ℕ → Option (List ℕ)) → MemoryStream → List ℕ → Option (MemoryStream × ℕ)
write_data malloc s bs = if s.disallow_write then some (s, 0) else write_allowed malloc s bs

unfoldable get_size : MemoryStream → ℕ
get_size s = s.buffer_size

unfoldable set_size : MemoryStream → ℕ → MemoryStream
set_size s size =
    if s.disallow_write
    then s
    else if ltb size s.buffer_size
    then record s { buffer_size = size }
    else s

unfoldable get_seek : MemoryStream → ℕ
get_seek s = s.buffer_position

-- `seek` is the bit pattern of the sint32; `relative` is not looked at. `bufferPosition` is a uint32,
-- so that the test against 0 never holds.
unfoldable pub set_seek : MemoryStream → ℕ → Bool → MemoryStream
set_seek s seek relative = record s {
  buffer_position = if ltb s.buffer_size seek then s.buffer_size else seek;
}

-- `stream_skipData`
unfoldable skip_data : MemoryStream → ℕ → MemoryStream
unfolding set_seek
skip_data s len = set_seek s len true

-- `stream_writeU8`, `stream_writeU16` and `stream_writeU32`.
unfoldable pub write_u8 : (ℕ → Option (List ℕ)) → MemoryStream → ℕ → Option (MemoryStream × ℕ)
unfolding write_data
write_u8 malloc s v = write_data malloc s (le_bytes 1 v)

unfoldable pub write_u16 : (ℕ → Option (List ℕ)) → MemoryStream → ℕ → Option (MemoryStream × ℕ)
unfolding write_data
write_u16 malloc s v = write_data malloc s (le_bytes 2 v)

unfoldable pub write_u32 : (ℕ → Option (List ℕ)) → MemoryStream → ℕ → Option (MemoryStream × ℕ)
unfolding write_data
write_u32 malloc s v = write_data malloc s (le_bytes 4 v)

-- `streamEx_map`: the whole of what was written, and the stream left at its end.
unfoldable pub map_stream : MemoryStream → Option (MemoryStream × List ℕ)
unfolding set_seek get_size read_data
map_stream s =
    let s' = set_seek s 0 false in
    if get_size s' == 0 then some (s', []) else read_data s' (get_size s')
