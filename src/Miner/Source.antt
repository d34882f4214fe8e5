-- ===== src/Miner/Source.antt =====
-- `workDataSource`, `xptMiner_getWorkFromXPTConnection` and `xptMiner_submitShare`. `none` is an access
-- outside an array. The start of the miner's tables by `riecoin_init` is not modelled here.
use fastrie.Base.{
  ℕ, zero, suc, ◌+◌, ◌*◌, ◌%◌, ◌^◌, Option, none, some, List, ◌++◌, replicate, load, store,
  le_bytes, ltb, ◌==◌, ◌&&◌, not, if◌then◌else◌,
}
use fastrie.Target.{HashTarget}
use fastrie.Client.{Client, ShareToSubmit, is_disconnected, found_share, algorithm_riecoin}

-- The arrays are blocks of 1024 and 32 * 4096 bytes; `mining_start_time` and
-- `monitor_current_block_height` are globals beside it.
pub record WorkDataSource : Type 0 where
  pub algorithm : ℕ
  pub version : ℕ
  pub n_bits : ℕ
  pub height : ℕ
  pub time_bias : ℕ
  pub merkle_root_original : List ℕ
  pub prev_block_hash : List ℕ
  pub target : HashTarget
  pub target_share : HashTarget
  pub target_compact : ℕ
  pub share_target_compact : ℕ
  pub coin_base1 : List ℕ
  pub coin_base2 : List ℕ
  pub coin_base1_size : ℕ
  pub coin_base2_size : ℕ
  pub tx_hash : List ℕ
  pub tx_hash_count : ℕ
  pub mining_start_time : ℕ
  pub monitor_current_block_height : ℕ

infixl 5 ◌>>=◌
abbrev pub ◌>>=◌ : {A B : Type 0} → Option A → (A → Option B) → Option B
◌>>=◌ o f = elim o [ none ↦ none | some a ↦ f a ]

-- `memcpy(to+at, from+i, n)`
unfoldable pub copy : List ℕ → ℕ → List ℕ → ℕ → ℕ → Option (List ℕ)
copy to at source i n = do bs ← load source i n; store to at bs

-- The loop over the hashes from the `i`th on, `n` of them: each goes one slot further.
unfoldable pub copy_hashes : ℕ → ℕ → List ℕ → List ℕ → Option (List ℕ)
unfolding copy
copy_hashes zero i to source = some to
copy_hashes (suc n) i to source = do
  to' ← copy to (32 * (i + 1)) source (32 * i) 32
  copy_hashes n (suc i) to' source

abbrev max_transactions : ℕ
max_transactions = 4096

-- The fields that are set, with the arrays as they were copied.
abbrev pub updated : ℕ → Client → WorkDataSource → List ℕ → List ℕ → List ℕ → WorkDataSource
updated now c w coin_base1 coin_base2 tx_hash = record {
  algorithm = c.algorithm;
  version = c.block_work_info.version;
  n_bits = c.block_work_info.n_bits;
  height = c.block_work_info.height;
  time_bias = c.block_work_info.time_bias;
  merkle_root_original = c.block_work_info.merkle_root;
  prev_block_hash = c.block_work_info.prev_block_hash;
  target = c.block_work_info.target;
  target_share = c.block_work_info.target_share;
  target_compact = c.block_work_info.target_compact;
  share_target_compact = c.block_work_info.target_share_compact;
  coin_base1 = coin_base1;
  coin_base2 = coin_base2;
  coin_base1_size = c.block_work_info.coin_base1_size;
  coin_base2_size = c.block_work_info.coin_base2_size;
  tx_hash = tx_hash;
  tx_hash_count =
      if ltb max_transactions c.block_work_info.tx_hash_count
      then 0
      else c.block_work_info.tx_hash_count;
  mining_start_time =
      if w.height == 0 && not (c.block_work_info.height == 0)
      then now % 2 ^ 32
      else w.mining_start_time;
  monitor_current_block_height = c.block_work_info.height;
}

unfoldable pub get_work : ℕ → Client → WorkDataSource → Option WorkDataSource
unfolding copy copy_hashes
get_work now c w = do
  coin_base1 ← copy w.coin_base1 0 c.block_work_info.coin_base1 0 c.block_work_info.coin_base1_size
  coin_base2 ← copy w.coin_base2 0 c.block_work_info.coin_base2 0 c.block_work_info.coin_base2_size
  tx_hash ← copy_hashes c.block_work_info.tx_hash_count 0 w.tx_hash c.block_work_info.tx_hashes
  some (updated now c w coin_base1 coin_base2 tx_hash)

-- The fields of `minerRiecoinBlock_t` that a share takes.
record RiecoinBlock : Type 0 where
  pub version : ℕ
  pub prev_block_hash : List ℕ
  pub merkle_root : List ℕ
  pub n_time : ℕ
  pub n_bits : ℕ
  pub merkle_root_original : List ℕ
  unique_merkle_seed : ℕ

-- The share that is made of a block; `nTime` of the block has 64 bits.
unfoldable share_of : RiecoinBlock → List ℕ → ShareToSubmit
share_of block n_offset = record {
  algorithm = algorithm_riecoin;
  merkle_root = block.merkle_root;
  prev_block_hash = block.prev_block_hash;
  version = block.version;
  nonce = 0;
  n_time = block.n_time % 2 ^ 32;
  n_bits = block.n_bits;
  riecoin_n_offset = n_offset;
  merkle_root_original = block.merkle_root_original;
  user_extra_nonce_length = 4;
  user_extra_nonce_data = le_bytes 4 block.unique_merkle_seed ++ replicate 12 0;
}

-- The share's pointer is `p`, where the heap then holds `share_of`. The connection is not NULL here.
unfoldable submit_share : List ℕ → ℕ → Client → Option Client
unfolding is_disconnected found_share
submit_share fresh p c =
    if is_disconnected c
    then some c
    else elim (found_share fresh p c) [ none ↦ none | some (_, c') ↦ some c' ]
