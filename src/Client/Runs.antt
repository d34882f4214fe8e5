-- ===== src/Client/Runs.antt =====
-- The client at concrete packets.
use fastrie.Base.{
  ℕ, ◌*◌, ◌<◌, ◌⊎◌, ◌≡◌, refl, true, false, Option, some, List, [], ◌∷◌, ◌++◌, length, replicate,
  length-replicate, take, arith, le_bytes, ◌==◌, if◌then◌else◌,
}
use fastrie.Packet.{PacketBuffer}
use fastrie.Packet.RoundTrip.{packet_bytes}
use fastrie.SimpleList.{SimpleList}
use fastrie.SimpleList.Contents.{contents}
use fastrie.Client.State.{Client, ShareToSubmit, no_work, create_client}
use fastrie.Client.Handlers.{process_packet_block_data1}
use fastrie.Client.Sending.{connect, login_fields}
use fastrie.Client.Process.{Surroundings, process_packet, submit_shares}
use fastrie.Client.Framing.{Handles, receive_all, framing_lem}
use fastrie.Client.Sends.{IsSendable, IsShare, sent, share_packets, submit_shares_lem}
use fastrie.Client.Login.{AreEntries, connect_lem}
use fastrie.Client.Base58.{
  decode_base58, track_size, multiply_words, multiply_word, put_word, output_length, convert,
  add_digit, propagate, extend_words, output_bytes, checksum_ok, accept_address,
}
use fastrie.Client.Fees.{entry, with_entries, accept_address_lem}
use fastrie.Client.Handling.{Completes, process_packet_lem}
use fastrie.Client.Work.{WorkPacket, IsWork, HasArrays, work_bytes, work_info, block_data1_lem}

abbrev buffer_of : List ℕ → PacketBuffer
buffer_of bytes = record {
  buffer = bytes;
  parser_index = 0;
  buffer_limit = length bytes;
  buffer_size = length bytes;
}

abbrev share : ShareToSubmit
share = record {
  algorithm = 7;
  merkle_root = replicate 32 1;
  prev_block_hash = replicate 32 2;
  version = 2;
  nonce = 0;
  n_time = 1000;
  n_bits = 33;
  riecoin_n_offset = replicate 32 3;
  merkle_root_original = replicate 32 4;
  user_extra_nonce_length = 4;
  user_extra_nonce_data = replicate 16 5;
}

-- Two shares, the second of another algorithm.
abbrev heap : ℕ → Option ShareToSubmit
heap p = if p == 9 then some (record share { algorithm = 6 }) else some share

abbrev surroundings : Surroundings
surroundings = record {
  now = 1395000000;
  high_res_time = 5;
  heap = heap;
  fresh = λ n. replicate n 0;
}

abbrev queue : SimpleList
queue = record {
  objects = 8 ∷ 9 ∷ 0 ∷ 0 ∷ [];
  object_count = 2;
  object_limit = 4;
  step_scaler = 1;
  is_preallocated = false;
  do_not_free_raw_data = false;
}

abbrev client : List ℕ → List ℕ → Client
client send_block received = record (create_client send_block received queue 0) {
  recv_buffer = buffer_of received;
}

abbrev send_block : List ℕ
send_block = replicate (256 * 1024) 0

send_block-IsSendable : IsSendable (client send_block []).send_buffer
unfolding create_client
send_block-IsSendable = record {
  limit = refl;
  allocated = omega (arith, length-replicate {A = ℕ} (256 * 1024) 0);
}

-- A ping of eight bytes, cut after the second byte of the header and the third of the data, into a
-- receive buffer of five bytes.
framing_lem_example :
    Handles surroundings
      (client [] (replicate 5 0))
      8
      8
      ((8 ∷ 8 ∷ 0 ∷ 0 ∷ []) ++ (1 ∷ 2 ∷ 3 ∷ 4 ∷ 5 ∷ 6 ∷ 7 ∷ 8 ∷ []))
      (receive_all surroundings
        ((8 ∷ 8 ∷ []) ∷ (0 ∷ 0 ∷ []) ∷ (1 ∷ 2 ∷ 3 ∷ []) ∷ (4 ∷ 5 ∷ 6 ∷ 7 ∷ 8 ∷ []) ∷ [])
        (client [] (replicate 5 0)))
unfolding create_client le_bytes
framing_lem_example =
    framing_lem surroundings (client [] (replicate 5 0)) 8 8 ((8 ∷ 8 ∷ []) ∷ (0 ∷ 0 ∷ []) ∷ [])
      ((1 ∷ 2 ∷ 3 ∷ []) ∷ (4 ∷ 5 ∷ 6 ∷ 7 ∷ 8 ∷ []) ∷ []) (λ k. length-replicate k 0)
      (record {
        no_bytes = refl;
        no_size = refl;
        allocated = refl;
        room = omega arith;
        small = omega arith;
      })
      (omega arith) (omega arith) (omega arith, (omega arith, tt)) (omega arith, (omega arith, tt))
      refl refl

-- A message that breaks off inside its text.
abbrev broken_message : Client
broken_message = record (client [] (7 ∷ 4 ∷ 0 ∷ 0 ∷ 0 ∷ 9 ∷ 0 ∷ 65 ∷ [])) { opcode = 7 }

process_packet_lem_example : Completes broken_message (process_packet surroundings broken_message)
unfolding create_client
process_packet_lem_example =
    process_packet_lem surroundings broken_message
      (record { in_block = omega arith; in_packet = omega arith; small = omega arith })
      (omega arith) (omega arith)

abbrev sending : Client
sending = client send_block []

share-IsShare : IsShare share × IsShare (record share { algorithm = 6 })
share-IsShare = (
  record {
    merkle_root = refl;
    prev_block_hash = refl;
    riecoin_n_offset = refl;
    merkle_root_original = refl;
    user_extra_nonce = omega arith;
  },
  record {
    merkle_root = refl;
    prev_block_hash = refl;
    riecoin_n_offset = refl;
    merkle_root_original = refl;
    user_extra_nonce = omega arith;
  },
)

submit_shares_lem_example :
    (c' : Client) × (submit_shares surroundings sending ≡ some (tt, c'))
    × (contents c'.share_submit_queue ≡ [])
    × (c' ≡ record sending {
      send_buffer = c'.send_buffer;
      socket_calls =
          sending.socket_calls
          ++ sent sending.client_socket (share_packets heap (contents sending.share_submit_queue));
      share_submit_queue = record (sending.share_submit_queue) { object_count = 0 };
    })
unfolding create_client
submit_shares_lem_example =
    submit_shares_lem surroundings sending
      (
        (share, refl, share-IsShare.0),
        ((record share { algorithm = 6 }, refl, share-IsShare.1), tt),
      )
      send_block-IsSendable

abbrev socket : ℕ
socket = 5

-- The name of 130 characters is cut.
connect_lem_example :
    (pb : PacketBuffer) × (connect (120 ∷ []) socket (replicate 130 65) (66 ∷ []) sending
      ≡ some (
        true,
        record sending {
          client_socket = socket;
          username = take 127 (replicate 130 65);
          password = 66 ∷ [];
          block_work_info = no_work;
          send_buffer = pb;
          socket_calls =
              sending.socket_calls
              ++ sent socket (
                  packet_bytes 1 (
                    login_fields (120 ∷ []) (record sending {
                      client_socket = socket;
                      username = take 127 (replicate 130 65);
                      password = 66 ∷ [];
                      block_work_info = no_work;
                    }))
                  ∷ []);
          disconnected = false;
        },
      ))
    × IsSendable pb
unfolding create_client
connect_lem_example =
    connect_lem (120 ∷ []) socket (replicate 130 65) (66 ∷ []) sending (omega arith)
      (omega arith, tt) send_block-IsSendable refl (omega arith)

abbrev work : WorkPacket
work = record {
  version = 2;
  height = 1200;
  n_bits = 33;
  target_compact = 33;
  target_share_compact = 30;
  n_time = 1395000000;
  prev_block_hash = replicate 32 1;
  merkle_root = replicate 32 2;
  part1 = 1 ∷ 2 ∷ [];
  part2 = 3 ∷ [];
  tx_hashes = replicate 32 7 ∷ replicate 32 8 ∷ [];
}

abbrev offered : Client
offered = client [] ((3 ∷ 161 ∷ 0 ∷ 0 ∷ []) ++ work_bytes work (1 ∷ []))

work-IsWork : IsWork work
work-IsWork = record {
  version = omega arith;
  height = omega arith;
  n_bits = omega arith;
  target_compact = omega arith;
  target_share_compact = omega arith;
  n_time = omega arith;
  prev_block_hash = refl;
  merkle_root = refl;
  part1 = omega arith;
  part2 = omega arith;
  hashes = omega arith;
  hash = (refl, (refl, tt));
}

no_work-HasArrays : HasArrays no_work
unfolding no_work
no_work-HasArrays = record {
  prev_block_hash = length-replicate {A = ℕ} 32 0;
  merkle_root = length-replicate {A = ℕ} 32 0;
  part1 = length-replicate {A = ℕ} 1024 0;
  part2 = length-replicate {A = ℕ} 1024 0;
  hashes = length-replicate {A = ℕ} (32 * 4096) 0;
}

block_data1_lem_example :
    (pb : PacketBuffer) × (process_packet_block_data1 1395000000 offered
      ≡ some (
        true,
        record offered {
          recv_buffer = pb;
          block_work_info = work_info 1395000000 offered.algorithm work offered.block_work_info;
          has_work_data = true;
        },
      ))
unfolding create_client le_bytes
block_data1_lem_example =
    block_data1_lem 1395000000 166 166 offered work (3 ∷ 161 ∷ 0 ∷ 0 ∷ []) (1 ∷ []) work-IsWork
      no_work-HasArrays refl refl (omega arith) (omega arith)

-- "2g" is the byte 97, behind a byte of 0 for the room that is reserved.
decoded_run : decode_base58 (50 ∷ 103 ∷ []) ≡ some (some (0 ∷ 97 ∷ []))
unfolding decode_base58 track_size multiply_words multiply_word put_word output_length convert
    add_digit propagate extend_words output_bytes
decoded_run = refl

abbrev zero_hash : List ℕ → List ℕ
zero_hash bs = replicate 32 0

abbrev raw : List ℕ
raw = replicate 25 0

accept_address_lem_example :
    AreEntries (accept_address zero_hash raw 50 sending).developer_fee_entry
    × (((length raw ≡ 25)
          × (checksum_ok zero_hash raw ≡ true)
          × (length sending.developer_fee_entry < 8)
          × (accept_address zero_hash raw 50 sending
              ≡ with_entries sending (sending.developer_fee_entry ++ (entry raw 50 ∷ []))))
        ⊎ (accept_address zero_hash raw 50 sending ≡ sending))
unfolding create_client
accept_address_lem_example = accept_address_lem zero_hash raw 50 sending (omega arith, tt)
