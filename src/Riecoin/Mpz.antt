-- ===== src/Riecoin/Mpz.antt =====
-- What the miner relies on of GMP: its operations on numbers that are not negative, by the values of the
-- `mpz_t` variables, with what its manual says of them.
use fastrie.Base.{ℕ, ◌+◌, ◌-◌, ◌*◌, ◌/◌, ◌%◌, ◌^◌, ◌≤◌, ◌<◌, ◌≡◌}

pub record Mpz : Type 0 where
  pub mul_2exp : ℕ → ℕ → ℕ
  pub mul_ui : ℕ → ℕ → ℕ
  pub add : ℕ → ℕ → ℕ
  pub add_ui : ℕ → ℕ → ℕ
  pub sub : ℕ → ℕ → ℕ
  pub sub_ui : ℕ → ℕ → ℕ
  pub tdiv_r : ℕ → ℕ → ℕ
  pub powm : ℕ → ℕ → ℕ → ℕ
  -- `_mp_d[i]` and `_mp_size`, with limbs of 64 bits
  pub limb : ℕ → ℕ → ℕ
  pub size : ℕ → ℕ
  pub mul_2exp_lem : (a n : ℕ) → mul_2exp a n ≡ a * 2 ^ n
  pub mul_ui_lem : (a b : ℕ) → mul_ui a b ≡ a * b
  pub add_lem : (a b : ℕ) → add a b ≡ a + b
  pub add_ui_lem : (a b : ℕ) → add_ui a b ≡ a + b
  pub sub_lem : (a b : ℕ) → b ≤ a → sub a b ≡ a - b
  pub sub_ui_lem : (a b : ℕ) → b ≤ a → sub_ui a b ≡ a - b
  pub tdiv_r_lem : (a b : ℕ) → 0 < b → tdiv_r a b ≡ a % b
  pub powm_lem : (a e m : ℕ) → 0 < m → powm a e m ≡ a ^ e % m
  pub limb_lem : (a i : ℕ) → limb a i ≡ a / 2 ^ (64 * i) % 2 ^ 64
  pub size_lem : (a : ℕ) → a < 2 ^ (64 * size a)
