-- ===== src/Client/Sending.antt =====
-- xptClient.cpp: the packets that the client sends, and what it keeps about shares and its connection.
use fastrie.Base.{
  ℕ, Bool, true, false, none, some, List, [], ◌∷◌, ◌++◌, take, length, ◌==◌, if◌then◌else◌,
}
use fastrie.Packet.Fields.{Field, u8, u16, u32, u64, bytes, text}
use fastrie.Packet.{begin_write_packet}
use fastrie.Packet.Fields.{write_all}
use fastrie.Packet.RoundTrip.{build}
use fastrie.SimpleList.{add}
use fastrie.Client.State.{
  Client, ShareToSubmit, DevFeeEntry, send, close_socket, socket_error, no_work, C, ◌>>◌, return,
  choose,
}
use fastrie.Client.Handlers.{algorithm_riecoin}

-- The common text of the senders: build the packet in the send buffer, and hand its bytes to `send`.
-- None of them looks at its error flag.
unfoldable pub send_packet : ℕ → List Field → C (Unit {0})
unfolding build
send_packet opcode fields c = elim (build opcode fields c.send_buffer) [
  | none ↦ none
  | some pb ↦ some (
    tt,
    record c {
      send_buffer = pb;
      socket_calls = c.socket_calls ++ (send c.client_socket (take pb.parser_index pb.buffer) ∷ []);
    },
  )
]

unfoldable pub dev_fee_fields : List DevFeeEntry → List Field
dev_fee_fields [] = []
dev_fee_fields (d ∷ ds) = u16 d.dev_fee ∷ bytes d.pub_key_hash ∷ dev_fee_fields ds

-- The fields of the worker login packet, version 6.
unfoldable pub login_fields : List ℕ → Client → List Field
unfolding dev_fee_fields
login_fields miner_version c =
    u32 6
    ∷ text c.username 128
    ∷ text c.password 128
    ∷ text miner_version 45
    ∷ u8 (length c.developer_fee_entry)
    ∷ dev_fee_fields c.developer_fee_entry

unfoldable pub send_worker_login : List ℕ → C (Unit {0})
unfolding send_packet login_fields
send_worker_login miner_version c = send_packet 1 (login_fields miner_version c) c

-- `writeData(userExtraNonceData, userExtraNonceLength)`
unfoldable pub share_fields : ShareToSubmit → List Field
share_fields s =
    bytes s.merkle_root
    ∷ bytes s.prev_block_hash
    ∷ u32 s.version
    ∷ u32 s.n_time
    ∷ u32 s.nonce
    ∷ u32 s.n_bits
    ∷ bytes s.riecoin_n_offset
    ∷ bytes s.merkle_root_original
    ∷ u8 s.user_extra_nonce_length
    ∷ bytes (take s.user_extra_nonce_length s.user_extra_nonce_data)
    ∷ u32 0
    ∷ []

-- What is written before the algorithm is looked at.
unfoldable pub common_fields : ShareToSubmit → List Field
common_fields s =
    bytes s.merkle_root
    ∷ bytes s.prev_block_hash
    ∷ u32 s.version
    ∷ u32 s.n_time
    ∷ u32 s.nonce
    ∷ u32 s.n_bits
    ∷ []

-- A packet that is begun and neither finished nor sent.
unfoldable pub begin_packet : ℕ → List Field → C (Unit {0})
begin_packet opcode fields c = elim (begin_write_packet c.send_buffer opcode) [
  | none ↦ none
  | some pb ↦ elim (write_all fields (record { pb = pb; error = false })) [
    | none ↦ none
    | some (_, s) ↦ some (tt, record c { send_buffer = s.pb })
  ]
]

-- A share of another algorithm is not sent; what was begun of its packet stays in the send buffer.
unfoldable pub send_share : ShareToSubmit → C (Unit {0})
unfolding send_packet share_fields begin_packet common_fields
send_share share =
    choose (share.algorithm == algorithm_riecoin) (send_packet 4 (share_fields share))
      (begin_packet 4 (common_fields share))

-- `timestamp` is `getTimeHighRes()`.
unfoldable pub send_ping : ℕ → C (Unit {0})
unfolding send_packet
send_ping timestamp = send_packet 8 (u64 timestamp ∷ [])

-- `share` is the pointer; `fresh` the memory that `realloc` adds where the queue grows.
unfoldable pub found_share : List ℕ → ℕ → C (Unit {0})
unfolding add
found_share fresh share c = elim (add fresh c.share_submit_queue share) [
  | none ↦ none
  | some queue ↦ some (tt, record c { share_submit_queue = queue })
]

-- `strncpy(to, from, 127)` into an array that was zero.
abbrev copied_name : List ℕ → List ℕ
copied_name name = take 127 name

-- The branch without `_WIN32`: `socket` is the result of `xptClient_openConnection`, whose failure is
-- not told from a success.
unfoldable pub connect : List ℕ → ℕ → List ℕ → List ℕ → C Bool
unfolding no_work send_worker_login
connect miner_version socket auth_user auth_pass = λ c.
    choose c.disconnected
      (choose (socket == 0) (return false) (do
        (λ c. some (
          tt,
          record c {
            client_socket = socket;
            username = copied_name auth_user;
            password = copied_name auth_pass;
            block_work_info = no_work;
          },
        ))
        send_worker_login miner_version
        (λ c. some (true, record c { disconnected = false }))))
      (return false) c

unfoldable force_disconnect : Client → Client
force_disconnect c = if c.disconnected then c else record c {
  client_socket = socket_error;
  socket_calls =
      (if c.client_socket == socket_error
        then c.socket_calls
        else c.socket_calls ++ (close_socket c.client_socket ∷ []));
  disconnected = true;
  has_work_data = false;
}

unfoldable pub is_disconnected : Client → Bool
is_disconnected c = c.disconnected

unfoldable is_authenticated : Client → Bool
is_authenticated c = c.client_state == 1
