-- ===== src/Client/Handlers.antt =====
-- xptClientPacketHandler.cpp: what the client does with each packet. The result is the C result. What
-- is printed is not modelled.
use fastrie.Base.{
  ℕ, zero, suc, ◌+◌, ◌-◌, ◌*◌, ◌/◌, ◌%◌, ◌^◌, Bool, true, false, Option, none, some, List, sub32,
  add32, ◌==◌, if◌then◌else◌,
}
use fastrie.Packet.{read_float, read_u64, read_u32, read_u16, read_u8, read_data, read_string}
use fastrie.Target.{HashTarget, target_from_compact}
use fastrie.Client.State.{C, ◌>>=◌, ◌>>◌, return, choose, modify, reading, begin_reading, copy_to}

abbrev pub logged_in : ℕ
logged_in = 1

abbrev pub algorithm_riecoin : ℕ
algorithm_riecoin = 7

-- `now` is `time(NULL)`.
unfoldable pub process_packet_auth_response : ℕ → C Bool
process_packet_auth_response now = do
  begin_reading
  (code, error) ← reading read_u32 false
  choose error (return false) (do
    (_, error') ← reading (read_string 512) error
    choose error' (return false) (
        choose (code == 0)
          (do
            modify
                (λ c. record c { client_state = logged_in; time_send_ping = (now + 60) % 2 ^ 32 })
            (algorithm, _) ← reading read_u8 error'
            modify (λ c. record c { algorithm = algorithm })
            return true)
          (return false)))

unfoldable pub process_packet_share_ack : C Bool
process_packet_share_ack = do
  begin_reading
  (code, error) ← reading read_u32 false
  choose error (return false) (do
    (_, error₁) ← reading (read_string 512) error
    (_, error₂) ← reading read_float error₁
    choose error₂ (return false) (
        choose (code == 0) (return true) (do
          modify
              (λ c. record c { total_rejected_share_count = add32 c.total_rejected_share_count 1 })
          return true)))

unfoldable pub process_packet_message : C Bool
process_packet_message = do
  begin_reading
  (_, error) ← reading read_u8 false
  choose error (return false) (do
    (_, error') ← reading (read_string 1024) error
    choose error' (return false) (return true))

-- The branch without `_WIN32`; `timestamp_now` is `getTimeHighRes()`.
unfoldable pub process_packet_ping : ℕ → C Bool
process_packet_ping timestamp_now = do
  begin_reading
  (timestamp, error) ← reading read_u64 false
  choose error (return false) (do
    modify (λ c. record c {
      ping_sum = (c.ping_sum + (timestamp_now + 2 ^ 64 - timestamp) % 2 ^ 64 / 100000) % 2 ^ 64;
      ping_count = add32 c.ping_count 1;
    })
    return true)

-- A value that is given or is an access outside an array.
abbrev pub accessed : {A : Type 0} → Option A → C A
accessed none c = none
accessed (some a) c = some (a, c)

-- The loop over the transaction hashes: `n` are left, the next is the `i`th.
unfoldable pub read_tx_hashes : ℕ → ℕ → List ℕ → Bool → C (List ℕ)
unfolding copy_to
read_tx_hashes zero i tx_hashes error = return tx_hashes
read_tx_hashes (suc n) i tx_hashes error = do
  (r, error') ← reading (read_data 32) error
  tx_hashes' ← accessed (copy_to tx_hashes (32 * i) r)
  read_tx_hashes n (suc i) tx_hashes' error'

-- `if( xptClient->algorithm != ALGORITHM_RIECOIN )`
abbrev target_unless_riecoin : ℕ → ℕ → HashTarget → HashTarget
target_unless_riecoin algorithm compact old =
    if algorithm == algorithm_riecoin then old else target_from_compact compact

-- The fields are set as they are read; where all reads stay inside the arrays that is the state at the
-- end. `recvError` is handed on and never looked at.
unfoldable pub process_packet_block_data1 : ℕ → C Bool
unfolding copy_to
process_packet_block_data1 now = do
  begin_reading
  (version, e₁) ← reading read_u32 false
  (height, e₂) ← reading read_u32 e₁
  (n_bits, e₃) ← reading read_u32 e₂
  (target_compact, e₄) ← reading read_u32 e₃
  (target_share_compact, e₅) ← reading read_u32 e₄
  (n_time, e₆) ← reading read_u32 e₅
  (prev, e₇) ← reading (read_data 32) e₆
  (root, e₈) ← reading (read_data 32) e₇
  (size1, e₉) ← reading read_u16 e₈
  (part1, f₁) ← reading (read_data size1) e₉
  (size2, f₂) ← reading read_u16 f₁
  (part2, f₃) ← reading (read_data size2) f₂
  (count, f₄) ← reading read_u16 f₃
  work ← (λ c. some (c.block_work_info, c))
  prev_block_hash ← accessed (copy_to work.prev_block_hash 0 prev)
  merkle_root ← accessed (copy_to work.merkle_root 0 root)
  coin_base1 ← accessed (copy_to work.coin_base1 0 part1)
  coin_base2 ← accessed (copy_to work.coin_base2 0 part2)
  tx_hashes ← read_tx_hashes count 0 work.tx_hashes f₄
  modify (λ c. record c {
    block_work_info = record {
      height = height;
      version = version;
      n_time = n_time;
      n_bits = n_bits;
      merkle_root = merkle_root;
      prev_block_hash = prev_block_hash;
      time_bias = sub32 n_time (now % 2 ^ 32);
      target = target_unless_riecoin c.algorithm target_compact work.target;
      target_share = target_unless_riecoin c.algorithm target_share_compact work.target_share;
      target_compact = target_compact;
      target_share_compact = target_share_compact;
      coin_base1_size = size1;
      coin_base1 = coin_base1;
      coin_base2_size = size2;
      coin_base2 = coin_base2;
      tx_hash_count = count;
      tx_hashes = tx_hashes;
      time_work = now % 2 ^ 32;
    };
    has_work_data = true;
  })
  return true
