-- ===== src/Client/State.antt =====
-- `xptClient_t` with the structs inside it, and the monad of the functions over it. `none` is an access
-- outside an array or a block. The critical sections are not modelled: a call is one step.
use fastrie.Base.{ℕ, ◌*◌, Bool, true, false, Option, none, some, List, [], replicate, store}
use fastrie.Packet.{PacketBuffer, M, create, begin_read_packet}
use fastrie.SimpleList.{SimpleList}
use fastrie.Target.{HashTarget, low_word}

-- `xptBlockWorkInfo_t`, without the fields that only other coins use. The arrays are blocks of 32,
-- 1024 and 32 * 4096 bytes.
pub record BlockWorkInfo : Type 0 where
  pub height : ℕ
  pub version : ℕ
  pub n_time : ℕ
  pub n_bits : ℕ
  pub merkle_root : List ℕ
  pub prev_block_hash : List ℕ
  pub time_bias : ℕ
  pub target : HashTarget
  pub target_share : HashTarget
  pub target_compact : ℕ
  pub target_share_compact : ℕ
  pub coin_base1_size : ℕ
  pub coin_base1 : List ℕ
  pub coin_base2_size : ℕ
  pub coin_base2 : List ℕ
  pub tx_hash_count : ℕ
  pub tx_hashes : List ℕ
  pub time_work : ℕ

-- `memset(&xptClient->blockWorkInfo, 0x00, sizeof(xptBlockWorkInfo_t))`
unfoldable pub no_work : BlockWorkInfo
no_work = record {
  height = 0;
  version = 0;
  n_time = 0;
  n_bits = 0;
  merkle_root = replicate 32 0;
  prev_block_hash = replicate 32 0;
  time_bias = 0;
  target = low_word 0;
  target_share = low_word 0;
  target_compact = 0;
  target_share_compact = 0;
  coin_base1_size = 0;
  coin_base1 = replicate 1024 0;
  coin_base2_size = 0;
  coin_base2 = replicate 1024 0;
  tx_hash_count = 0;
  tx_hashes = replicate (32 * 4096) 0;
  time_work = 0;
}

-- `xptShareToSubmit_t`, without the fields that only other coins use.
pub record ShareToSubmit : Type 0 where
  pub algorithm : ℕ
  pub merkle_root : List ℕ
  pub prev_block_hash : List ℕ
  pub version : ℕ
  pub nonce : ℕ
  pub n_time : ℕ
  pub n_bits : ℕ
  pub riecoin_n_offset : List ℕ
  pub merkle_root_original : List ℕ
  pub user_extra_nonce_length : ℕ
  pub user_extra_nonce_data : List ℕ

pub record DevFeeEntry : Type 0 where
  pub dev_fee : ℕ
  pub pub_key_hash : List ℕ

-- What the client does to its sockets.
pub data SocketCall : Type 0 where
  send : ℕ → List ℕ → SocketCall
  close_socket : ℕ → SocketCall

-- A socket is the bit pattern of the C int.
abbrev pub socket_error : ℕ
socket_error = 0xffff_ffff

-- The texts are without their final zeros; the first `developerFeeCount` entries are the list. The
-- share queue is a list of pointers into the heap. `socket_calls` is what was done so far, the latest
-- call last, and `total_rejected_share_count` the global counter of main.cpp.
pub record Client : Type 0 where
  pub client_socket : ℕ
  pub send_buffer : PacketBuffer
  pub recv_buffer : PacketBuffer
  pub username : List ℕ
  pub password : List ℕ
  pub client_state : ℕ
  pub algorithm : ℕ
  pub recv_size : ℕ
  pub recv_index : ℕ
  pub opcode : ℕ
  pub disconnected : Bool
  pub block_work_info : BlockWorkInfo
  pub has_work_data : Bool
  pub share_submit_queue : SimpleList
  pub time_send_ping : ℕ
  pub ping_sum : ℕ
  pub ping_count : ℕ
  pub developer_fee_entry : List DevFeeEntry
  pub socket_calls : List SocketCall
  pub total_rejected_share_count : ℕ

-- `xptClient_create`; the arguments are the blocks that the allocator returns, and the counter's value.
unfoldable pub create_client : List ℕ → List ℕ → SimpleList → ℕ → Client
unfolding create no_work
create_client send_block recv_block queue rejected = record {
  client_socket = socket_error;
  send_buffer = create (256 * 1024) send_block;
  recv_buffer = create (256 * 1024) recv_block;
  username = [];
  password = [];
  client_state = 0;
  algorithm = 0;
  recv_size = 0;
  recv_index = 0;
  opcode = 0;
  disconnected = true;
  block_work_info = no_work;
  has_work_data = false;
  share_submit_queue = queue;
  time_send_ping = 0;
  ping_sum = 0;
  ping_count = 0;
  developer_fee_entry = [];
  socket_calls = [];
  total_rejected_share_count = rejected;
}

abbrev pub C : Type 0 → Type 0
C A = Client → Option (A × Client)

infixl 5 ◌>>=◌ ◌>>◌
abbrev pub ◌>>=◌ : {A B : Type 0} → C A → (A → C B) → C B
◌>>=◌ m f c = elim (m c) [ none ↦ none | some (a, c') ↦ f a c' ]

abbrev pub ◌>>◌ : {A B : Type 0} → C A → C B → C B
◌>>◌ m k c = elim (m c) [ none ↦ none | some (_, c') ↦ k c' ]

abbrev pub return : {A : Type 0} → A → C A
return a c = some (a, c)

-- The branch that is not taken waits.
abbrev pub choose : {A : Type 0} → Bool → C A → C A → C A
choose b m k c = elim b [ true ↦ m c | false ↦ k c ]

abbrev pub modify : (Client → Client) → C (Unit {0})
modify f c = some (tt, f c)

-- A reader on the receive buffer, with the caller's variable `readError`.
abbrev pub reading : {A : Type 0} → M A → Bool → C (A × Bool)
reading m error c = elim (m (record { pb = c.recv_buffer; error = error })) [
  | none ↦ none
  | some (a, s) ↦ some ((a, s.error), record c { recv_buffer = s.pb })
]

-- `xptPacketbuffer_beginReadPacket(xptClient->recvBuffer)`
abbrev pub begin_reading : C (Unit {0})
begin_reading c = some (tt, record c { recv_buffer = begin_read_packet c.recv_buffer })

-- What a reader copies to an array at `offset`; nothing where it failed.
unfoldable pub copy_to : List ℕ → ℕ → Option (List ℕ) → Option (List ℕ)
copy_to array offset none = some array
copy_to array offset (some bs) = store array offset bs
