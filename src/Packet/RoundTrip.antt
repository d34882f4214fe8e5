-- ===== src/Packet/RoundTrip.antt =====
-- A whole packet, from the sender's buffer to the receiver's fields.
use fastrie.Base.{
  ℕ, ◌+◌, ◌*◌, ◌%◌, ◌^◌, ◌≤◌, ◌<◌, ◌≡◌, refl, ◌∙◌, sym, ap, Bool, true, false, Option, none, some,
  List, [], ◌++◌, length, length-append, append_assoc, All, drop, length-drop, drop-append_length,
  le_bytes, length-le_bytes, le_value, le_value-le_bytes, arith, sub32, load, load-append, store,
  store-append, bit_or, bit_or_fields,
}
use fastrie.Packet.Buffer.{PacketBuffer, Session, begin_write_packet, begin_read_packet}
use fastrie.Packet.Header.{header_opcode, header_size}
use fastrie.Packet.Reads.{fail, read_string}
use fastrie.Packet.Writes.{finalize_write_packet, write_string}
use fastrie.Packet.Fields.{
  write_field, text, Field, encode, encode_all, write_all, read_all, IsWritable, IsReadableField,
  between,
}
use fastrie.Packet.WriteFields.{HasRoom, write_field-between, write_all-between}
use fastrie.Packet.ReadFields.{Holds, read_string_full, read_all-between}

-- The way every sender builds a packet: begin, write the fields, set the length.
unfoldable pub build : ℕ → List Field → PacketBuffer → Option PacketBuffer
build opcode fs pb = elim (begin_write_packet pb opcode) [
  | none ↦ none
  | some started ↦ elim (write_all fs (record { pb = started; error = false })) [
    | none ↦ none
    | some (_, s) ↦ finalize_write_packet s.pb
  ]
]

-- The session that a builder starts from.
abbrev started : ℕ → PacketBuffer → Session
started opcode pb =
    between (le_bytes 4 (opcode % 256)) (drop 4 pb.buffer) pb.buffer_limit pb.buffer_size false

begin_write_packet_lem :
    (pb : PacketBuffer) (opcode : ℕ)
    → 4 ≤ length pb.buffer
    → begin_write_packet pb opcode ≡ some (started opcode pb).pb
unfolding begin_write_packet le_bytes
begin_write_packet_lem pb opcode h = rw (stored, begin_write_packet) refl
  where
    stored :
        store pb.buffer 0 (le_bytes 4 (opcode % 256))
        ≡ some (le_bytes 4 (opcode % 256) ++ drop 4 pb.buffer)
    stored = store-append [] pb.buffer (le_bytes 4 (opcode % 256)) 0 refl h

-- The header word keeps the opcode and takes the size of the data.
header_word :
    (v n i : ℕ)
    → i ≡ 4 + n
    → n < 2 ^ 24
    → bit_or (v % 256) (sub32 i 4 * 256 % 2 ^ 32) ≡ v % 256 + n * 256
header_word v n i e h =
    ap (λ w. bit_or (v % 256) w) shifted ∙ bit_or_fields 8 (v % 256) n (omega arith)
  where
    shifted : sub32 i 4 * 256 % 2 ^ 32 ≡ n * 2 ^ 8
    shifted = omega arith

finalize_lem :
    (pb : PacketBuffer) (head rest : List ℕ) (n : ℕ)
    → pb.buffer ≡ head ++ rest
    → length head ≡ 4
    → pb.parser_index ≡ 4 + n
    → n < 2 ^ 24
    → finalize_write_packet pb
      ≡ some (record pb { buffer = le_bytes 4 (le_value head % 256 + n * 256) ++ rest })
unfolding finalize_write_packet
finalize_lem pb head rest n eb eh ei hn = rw (loaded, stored, finalize_write_packet) refl
  where
    loaded : load pb.buffer 0 4 ≡ some head
    loaded = rw eb (load-append [] head rest 0 4 refl (sym eh))

    word : ℕ
    word = bit_or (le_value head % 256) (sub32 pb.parser_index 4 * 256 % 2 ^ 32)

    kept : drop (length (le_bytes 4 word)) (head ++ rest) ≡ rest
    kept =
        ap (λ i. drop i (head ++ rest)) (length-le_bytes 4 word ∙ sym eh)
        ∙ drop-append_length head rest

    stored :
        store pb.buffer 0 (le_bytes 4 word)
        ≡ some (le_bytes 4 (le_value head % 256 + n * 256) ++ rest)
    stored =
        ap (λ l. store l 0 (le_bytes 4 word)) eb
        ∙ store-append [] (head ++ rest) (le_bytes 4 word) 0 refl
            (omega (arith, length-le_bytes 4 word, length-append head rest))
        ∙ ap (λ l. some (le_bytes 4 word ++ l)) kept
        ∙ ap (λ w. some (le_bytes 4 w ++ rest))
            (header_word (le_value head) n pb.parser_index ei hn)

-- The finished packet: the header, the fields' bytes, and what stood behind them.
abbrev pub packet_bytes : ℕ → List Field → List ℕ
packet_bytes opcode fs = le_bytes 4 (opcode + length (encode_all fs) * 256) ++ encode_all fs

abbrev pub finished : ℕ → List Field → PacketBuffer → PacketBuffer
finished opcode fs pb = record pb {
  buffer = packet_bytes opcode fs ++ drop (length (encode_all fs)) (drop 4 pb.buffer);
  parser_index = 4 + length (encode_all fs);
}

-- What a sender's buffer must offer for a packet.
pub record CanBuild (opcode : ℕ) (fs : List Field) (pb : PacketBuffer) : Type 0 where
  pub opcode_byte : opcode < 256
  pub data_small : length (encode_all fs) < 2 ^ 24
  pub room : 4 + length (encode_all fs) ≤ pb.buffer_limit
  pub allocated : pb.buffer_limit ≤ length pb.buffer
  pub limit_small : pb.buffer_limit < 2 ^ 31
  pub writable : All IsWritable fs

-- Begin, write the fields, finalize: no access leaves the block, and the block holds the header with
-- the opcode and the size of the data, then the bytes of the fields in order; the rest of the block
-- stays, and the position stands behind the last byte.
pub build_lem :
    (opcode : ℕ) (fs : List Field) (pb : PacketBuffer)
    → CanBuild opcode fs pb
    → build opcode fs pb ≡ some (finished opcode fs pb)
unfolding build
build_lem opcode fs pb c =
    rw (begin_write_packet_lem pb opcode (omega arith), build, written)
      (finalize_lem (between (head ++ encode_all fs) tail limit size false).pb head
          (encode_all fs ++ tail) (length (encode_all fs)) (append_assoc head (encode_all fs) tail)
          (length-le_bytes 4 (opcode % 256)) position c.data_small
        ∙ (λ k. some (record {
          buffer = same_bytes k;
          parser_index = position k;
          buffer_limit = limit;
          buffer_size = size;
        })))
  where
    open pb use {buffer_limit as limit, buffer_size as size}

    head : List ℕ
    head = le_bytes 4 (opcode % 256)

    tail : List ℕ
    tail = drop (length (encode_all fs)) (drop 4 pb.buffer)

    position : length (head ++ encode_all fs) ≡ 4 + length (encode_all fs)
    position =
        length-append head (encode_all fs)
        ∙ ap (λ n. n + length (encode_all fs)) (length-le_bytes 4 (opcode % 256))

    same_word : le_value head % 256 ≡ opcode
    same_word = ap (λ v. v % 256) (le_value-le_bytes 4 (opcode % 256) (omega arith)) ∙ reduced
      where
        reduced : opcode % 256 % 256 ≡ opcode
        reduced = omega (arith, c.opcode_byte)

    same_bytes :
        le_bytes 4 (le_value head % 256 + length (encode_all fs) * 256) ++ (encode_all fs ++ tail)
        ≡ packet_bytes opcode fs ++ tail
    same_bytes =
        ap (λ v. le_bytes 4 (v + length (encode_all fs) * 256) ++ (encode_all fs ++ tail)) same_word
        ∙ sym
            (append_assoc (le_bytes 4 (opcode + length (encode_all fs) * 256)) (encode_all fs) tail)

    written :
        write_all fs (started opcode pb)
        ≡ some (tt, between (head ++ encode_all fs) tail pb.buffer_limit pb.buffer_size false)
    written =
        write_all-between pb.buffer_limit pb.buffer_size fs head (drop 4 pb.buffer) c.writable
          (record {
            fits = omega (arith, length-le_bytes 4 (opcode % 256));
            allocated = omega (arith, length-drop 4 pb.buffer, length-le_bytes 4 (opcode % 256));
            small = c.limit_small;
          })

-- What a receiver makes of a finished packet: the opcode and the size that the header names, and the
-- fields, with the flag and the position that the parse ends with.
pub record Received (opcode : ℕ) (fs : List Field) (pb : PacketBuffer) : Type 0 where
  pub word : ℕ
  pub header : load pb.buffer 0 4 ≡ some (le_bytes 4 word)
  opcode_back : header_opcode word ≡ opcode
  size_back : header_size word ≡ length (encode_all fs)
  pub parsed : Session
  fields_back :
      read_all fs (record { pb = begin_read_packet pb; error = false }) ≡ some (fs, parsed)
  no_error : parsed.error ≡ false
  to_the_end : parsed.parser_index ≡ pb.buffer_size

-- A received packet that holds the bytes of `opcode` and `fs`, with anything behind it, gives back
-- the opcode, the size and every field; the parse ends without an error at the end of the packet.
pub receive_lem :
    (opcode : ℕ) (fs : List Field) (tail : List ℕ) (pb : PacketBuffer)
    → opcode < 256
    → length (encode_all fs) < 2 ^ 24
    → All IsReadableField fs
    → pb.buffer ≡ packet_bytes opcode fs ++ tail
    → pb.buffer_size ≡ 4 + length (encode_all fs)
    → Received opcode fs pb
unfolding header_opcode header_size begin_read_packet
receive_lem opcode fs tail pb ho hn hf eb es = record {
  word = opcode + length (encode_all fs) * 256;
  header =
      rw (eb, append_assoc head (encode_all fs) tail)
        (load-append [] head (encode_all fs ++ tail) 0 4 refl (sym (length-le_bytes 4 _)));
  opcode_back = omega arith;
  size_back = omega arith;
  parsed = between (head ++ encode_all fs) tail pb.buffer_limit pb.buffer_size false;
  fields_back =
      ap (λ s. read_all fs s) at_start
      ∙ read_all-between pb.buffer_limit pb.buffer_size fs head tail hf
          (record { fits = omega (arith, length-le_bytes 4 word); small = omega arith });
  no_error = refl;
  to_the_end = omega (arith, length-append head (encode_all fs), length-le_bytes 4 word);
}
  where
    word : ℕ
    word = opcode + length (encode_all fs) * 256

    head : List ℕ
    head = le_bytes 4 word

    at_start :
        ◌≡◌ {A = Session}
          (record { pb = record pb { parser_index = 4 }; error = false })
          (between head (encode_all fs ++ tail) pb.buffer_limit pb.buffer_size false)
    at_start = λ k. record {
      pb = record {
        buffer = (eb ∙ append_assoc head (encode_all fs) tail) k;
        parser_index = sym (length-le_bytes 4 word) k;
        buffer_limit = pb.buffer_limit;
        buffer_size = pb.buffer_size;
      };
      error = false;
    }

-- A text of exactly one character less than `max` is written without an error wherever it fits, and
-- the reader that is given the same `max` refuses those bytes and sets its error flag.
pub text_full :
    (max limit size : ℕ) (t front rest more : List ℕ) (e : Bool)
    → length t + 1 ≡ max
    → max ≤ 0xffff
    → HasRoom limit size front rest (length (encode (text t max)))
    → Holds limit size front (length (encode (text t max)))
    → (write_string t max (between front rest limit size e)
        ≡ some (
          tt,
          between
              (front ++ encode (text t max))
              (drop (length (encode (text t max))) rest)
              limit
              size
              false,
        ))
      × ((s : Session) × (read_string max (between front (encode (text t max) ++ more) limit size e)
            ≡ some (none, s))
          × (s.error ≡ true))
unfolding write_field fail
text_full max limit size t front rest more e h hm room held = (
  write_field-between limit size (text t max) front rest e (omega arith, hm) room,
  (_, read_string_full limit size max t front more e h hm held, refl),
)
