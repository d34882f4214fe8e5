-- ===== src/Packet/Runs.antt =====
-- Packets at concrete bytes.
use fastrie.Base.{
  ◌≡◌, refl, true, false, none, some, List, [], ◌∷◌, ◌++◌, drop, length, replicate, arith, le_bytes,
  store, load, le_value,
}
use fastrie.Packet.Buffer.{PacketBuffer, Session, begin_write_packet}
use fastrie.Packet.Reads.{read_string}
use fastrie.Packet.Writes.{
  write_string, prefix_width, write_u32, write_data, write_u8, finalize_write_packet,
}
use fastrie.Packet.Fields.{
  Field, u8, u16, u32, bytes, text, encode, encode_all, write_all, write_field, between,
}
use fastrie.Packet.RoundTrip.{
  build, CanBuild, packet_bytes, finished, Received, build_lem, receive_lem, text_full,
}
use fastrie.Packet.ReadSafety.{Runs, ReadCall, u64, read_calls, read_calls_lem}
use fastrie.Packet.WriteSafety.{Builds, write_all_lem}

abbrev some_fields : List Field
some_fields = u32 258 ∷ text (104 ∷ 105 ∷ []) 128 ∷ bytes (7 ∷ 8 ∷ 9 ∷ []) ∷ u8 1 ∷ []

abbrev some_buffer : PacketBuffer
some_buffer = record {
  buffer = replicate 20 0;
  parser_index = 0;
  buffer_limit = 20;
  buffer_size = 0;
}

built_bytes :
    build 7 some_fields some_buffer
    ≡ some (record {
      buffer =
          7 ∷ 11 ∷ 0 ∷ 0 ∷ 2 ∷ 1 ∷ 0 ∷ 0 ∷ 2 ∷ 104 ∷ 105 ∷ 7 ∷ 8 ∷ 9 ∷ 1 ∷ 0 ∷ 0 ∷ 0 ∷ 0 ∷ 0 ∷ [];
      parser_index = 15;
      buffer_limit = 20;
      buffer_size = 0;
    })
unfolding build begin_write_packet store le_bytes write_all write_field write_u32 write_string
    write_data write_u8 finalize_write_packet load le_value
built_bytes = refl

some_fields-fit : CanBuild 7 some_fields some_buffer
unfolding encode_all encode le_bytes prefix_width
some_fields-fit = record {
  opcode_byte = omega arith;
  data_small = omega arith;
  room = omega arith;
  allocated = omega arith;
  limit_small = omega arith;
  writable = (tt, ((omega arith, omega arith), (omega arith, (tt, tt))));
}

build_lem_example : build 7 some_fields some_buffer ≡ some (finished 7 some_fields some_buffer)
build_lem_example = build_lem 7 some_fields some_buffer some_fields-fit

-- What arrives of that packet, with two bytes of an older one behind it.
abbrev arrived : PacketBuffer
arrived = record {
  buffer = packet_bytes 7 some_fields ++ (5 ∷ 6 ∷ []);
  parser_index = 0;
  buffer_limit = 20;
  buffer_size = 15;
}

receive_lem_example : Received 7 some_fields arrived
unfolding encode_all encode le_bytes prefix_width
receive_lem_example =
    receive_lem 7 some_fields (5 ∷ 6 ∷ []) arrived (omega arith) (omega arith)
      (omega arith, ((omega arith, omega arith), (omega arith, (omega arith, tt)))) refl refl

-- A packet of nine bytes that breaks off inside the last field.
abbrev short_packet : Session
short_packet = record {
  pb = record {
    buffer = 3 ∷ 5 ∷ 0 ∷ 0 ∷ 1 ∷ 2 ∷ 3 ∷ 4 ∷ 5 ∷ [];
    parser_index = 4;
    buffer_limit = 9;
    buffer_size = 9;
  };
  error = false;
}

read_calls_lem_example :
    Runs short_packet (read_calls (ReadCall.u32 ∷ u64 ∷ ReadCall.text 512 ∷ []) short_packet)
read_calls_lem_example =
    read_calls_lem (ReadCall.u32 ∷ u64 ∷ ReadCall.text 512 ∷ []) short_packet
      (record { in_block = omega arith; in_packet = omega arith; small = omega arith })

-- A buffer in which the third field no longer fits.
abbrev small_buffer : Session
small_buffer = record {
  pb = record { buffer = replicate 8 0; parser_index = 4; buffer_limit = 8; buffer_size = 0 };
  error = false;
}

write_all_lem_example : Builds small_buffer (write_all (u16 5 ∷ u8 1 ∷ u32 9 ∷ []) small_buffer)
write_all_lem_example =
    write_all_lem (u16 5 ∷ u8 1 ∷ u32 9 ∷ []) small_buffer
      (record { in_block = omega arith; in_limit = omega arith; small = omega arith })

-- A text of three characters where the maximum is four.
text_full_example :
    (write_string (1 ∷ 2 ∷ 3 ∷ []) 4 (between [] (0 ∷ 0 ∷ 0 ∷ 0 ∷ []) 4 4 false)
      ≡ some (
        tt,
        between
            (encode (text (1 ∷ 2 ∷ 3 ∷ []) 4))
            (drop (length (encode (text (1 ∷ 2 ∷ 3 ∷ []) 4))) (0 ∷ 0 ∷ 0 ∷ 0 ∷ []))
            4
            4
            false,
      ))
    × ((s : Session) × (read_string 4
            (between [] (encode (text (1 ∷ 2 ∷ 3 ∷ []) 4) ++ []) 4 4 false)
          ≡ some (none, s))
        × (s.error ≡ true))
unfolding encode le_bytes prefix_width
text_full_example =
    text_full 4 4 4 (1 ∷ 2 ∷ 3 ∷ []) [] (0 ∷ 0 ∷ 0 ∷ 0 ∷ []) [] false (omega arith) (omega arith)
      (record { fits = omega arith; allocated = omega arith; small = omega arith })
      (record { fits = omega arith; small = omega arith })
