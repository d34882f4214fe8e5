-- ===== src/Miner/Runs.antt =====
-- Work of two hashes, and of too many.
use fastrie.Base.{
  ℕ, zero, suc, ap, sym, ◌*◌, ◌≡◌, refl, false, none, some, List, [], ◌∷◌, ◌++◌, drop, length,
  replicate, All, arith,
}
use fastrie.Target.{low_word}
use fastrie.SimpleList.{SimpleList}
use fastrie.Client.{Client, create_client, no_work}
use fastrie.Client.Framing.{concat}
use fastrie.Client.Work.{count}
use fastrie.Miner.Source.{WorkDataSource, get_work}
use fastrie.Miner.Copying.{get_work_lem, get_work_overflow}

unfoldable zeros : ℕ → List ℕ
zeros zero = []
zeros (suc n) = 0 ∷ zeros n

length-zeros : (n : ℕ) → length (zeros n) ≡ n
unfolding zeros
length-zeros zero = refl
length-zeros (suc n) = ap suc (length-zeros n)

abbrev hash : List ℕ
hash = replicate 32 7

unfoldable hashes : ℕ → List (List ℕ)
hashes zero = []
hashes (suc n) = hash ∷ hashes n

hashes-count : (n : ℕ) → count (hashes n) ≡ n
unfolding hashes
hashes-count zero = refl
hashes-count (suc n) = ap suc (hashes-count n)

hashes-All : (n : ℕ) → All (λ h. length h ≡ 32) (hashes n)
unfolding hashes
hashes-All zero = tt
hashes-All (suc n) = (refl, hashes-All n)

abbrev queue : SimpleList
queue = record {
  objects = [];
  object_count = 0;
  object_limit = 0;
  step_scaler = 1;
  is_preallocated = false;
  do_not_free_raw_data = false;
}

-- A client whose work has `n` hashes and a coinbase of three bytes.
abbrev client : ℕ → Client
client n = record (create_client [] [] queue 0) {
  block_work_info = record no_work {
    height = 9;
    coin_base1_size = 2;
    coin_base1 = zeros 1024;
    coin_base2_size = 1;
    coin_base2 = zeros 1024;
    tx_hash_count = n;
    tx_hashes = concat (hashes n) ++ [];
  };
}

abbrev source : WorkDataSource
source = record {
  algorithm = 7;
  version = 0;
  n_bits = 0;
  height = 0;
  time_bias = 0;
  merkle_root_original = [];
  prev_block_hash = [];
  target = low_word 0;
  target_share = low_word 0;
  target_compact = 0;
  share_target_compact = 0;
  coin_base1 = zeros 1024;
  coin_base2 = zeros 1024;
  coin_base1_size = 0;
  coin_base2_size = 0;
  tx_hash = zeros 32 ++ zeros (32 * 4095);
  tx_hash_count = 0;
  mining_start_time = 0;
  monitor_current_block_height = 0;
}

abbrev two : ℕ
two = 2

get_work_lem_example :
    (w' : WorkDataSource) × (get_work 5 (client two) source ≡ some w')
    × (w'.tx_hash
        ≡ zeros 32
          ++ (concat (hashes two) ++ drop (length (concat (hashes two))) (zeros (32 * 4095))))
    × (w'.tx_hash_count ≡ count (hashes two))
    × (w'.height ≡ (client two).block_work_info.height)
unfolding create_client
get_work_lem_example =
    get_work_lem 5 (client two) source (hashes two) (zeros 32) (zeros (32 * 4095)) []
      (length-zeros 1024, omega arith, length-zeros 1024)
      (length-zeros 1024, omega arith, length-zeros 1024) (hashes-All two) (sym (hashes-count two))
      refl refl (length-zeros 32) (length-zeros (32 * 4095)) (omega (arith, hashes-count two))

abbrev too_many : ℕ
too_many = 4096

get_work_overflow_example : get_work 5 (client too_many) source ≡ none
unfolding create_client
get_work_overflow_example =
    get_work_overflow 5 (client too_many) source (hashes too_many) (zeros 32) (zeros (32 * 4095)) []
      (length-zeros 1024, omega arith, length-zeros 1024)
      (length-zeros 1024, omega arith, length-zeros 1024) (hashes-All too_many)
      (sym (hashes-count too_many)) refl refl (length-zeros 32) (length-zeros (32 * 4095))
      (omega (arith, hashes-count too_many))
