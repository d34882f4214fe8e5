-- ===== src/Target/Compact.antt =====
-- `xptClient_getDifficultyTargetFromCompact` and its loop.
use fastrie.Base.{ℕ, zero, suc, ◌-◌, ◌*◌, ◌/◌, ◌%◌, ◌^◌, bit_or, test_bit, leb, ◌==◌, if◌then◌else◌}

-- `hashTarget[0..7]`, the least significant word first.
pub record HashTarget : Type 0 where
  pub w0 : ℕ
  pub w1 : ℕ
  pub w2 : ℕ
  pub w3 : ℕ
  pub w4 : ℕ
  pub w5 : ℕ
  pub w6 : ℕ
  pub w7 : ℕ

-- `(high<<8)|(low>>24)` on uint32.
unfoldable pub shift_word : ℕ → ℕ → ℕ
shift_word high low = bit_or (high * 256 % 2 ^ 32) (low / 2 ^ 24)

-- One round of the loop. Each line reads words that the lines above it have not yet written.
unfoldable pub shift_byte : HashTarget → HashTarget
shift_byte t = record {
  w0 = t.w0 * 256 % 2 ^ 32;
  w1 = shift_word t.w1 t.w0;
  w2 = shift_word t.w2 t.w1;
  w3 = shift_word t.w3 t.w2;
  w4 = shift_word t.w4 t.w3;
  w5 = shift_word t.w5 t.w4;
  w6 = shift_word t.w6 t.w5;
  w7 = shift_word t.w7 t.w6;
}

unfoldable pub shift_bytes : ℕ → HashTarget → HashTarget
shift_bytes zero t = t
shift_bytes (suc n) t = shift_bytes n (shift_byte t)

-- `memset(hashTarget, 0x00, 32); hashTarget[0] = word;`
unfoldable pub low_word : ℕ → HashTarget
low_word word = record { w0 = word; w1 = 0; w2 = 0; w3 = 0; w4 = 0; w5 = 0; w6 = 0; w7 = 0 }

unfoldable pub target_from_compact : ℕ → HashTarget
unfolding low_word
target_from_compact compact =
    let size = compact / 2 ^ 24 in
    let word = compact % 2 ^ 23 in
    if test_bit compact 23 == 1
    then low_word 0
    else if leb size 3
    then low_word (word / 2 ^ (8 * (3 - size)))
    else shift_bytes (size - 3) (low_word word)
