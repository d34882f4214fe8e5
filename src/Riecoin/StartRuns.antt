-- ===== src/Riecoin/StartRuns.antt =====
-- The target and the shares at concrete inputs, with operations on numbers that keep what the manual of GMP says.
use fastrie.Base.{
  ℕ, zero, suc, ◌+◌, ◌-◌, ◌*◌, ◌/◌, ◌%◌, ◌^◌, ◌≤◌, ◌<◌, ◌≡◌, refl, true, some, List, [], ◌∷◌, ◌++◌,
  length, map, All, le_value, replicate, arith,
}
use native.Mathlib.Nat.{pow-suc, pow-le-pow_right}
use fastrie.Riecoin.WholeScan.{AllBytes}
use fastrie.Riecoin.Mpz.{Mpz}
use fastrie.Riecoin.Verify.{Verified, check_indexes}
use fastrie.Riecoin.Shares.{passes, passing, is_share, offset_of, shares, check_indexes_lem}
use fastrie.Riecoin.Start.{primorial_offset, target, remainder_primorial}
use fastrie.Riecoin.Starting.{hash_value, starting_lem}

lt-pow : (a : ℕ) → a < 2 ^ a
lt-pow zero = omega arith
lt-pow (suc a) = omega (arith, lt-pow a, pow-suc 2 a)

longer : (a : ℕ) → a ≤ 64 * a
longer a = omega arith

abbrev gmp : Mpz
gmp = record {
  mul_2exp = λ a n. a * 2 ^ n;
  mul_ui = λ a b. a * b;
  add = λ a b. a + b;
  add_ui = λ a b. a + b;
  sub = λ a b. a - b;
  sub_ui = λ a b. a - b;
  tdiv_r = λ a b. a % b;
  powm = λ a e m. a ^ e % m;
  limb = λ a i. a / 2 ^ (64 * i) % 2 ^ 64;
  size = λ a. a;
  mul_2exp_lem = λ a n. refl;
  mul_ui_lem = λ a b. refl;
  add_lem = λ a b. refl;
  add_ui_lem = λ a b. refl;
  sub_lem = λ a b h. refl;
  sub_ui_lem = λ a b h. refl;
  tdiv_r_lem = λ a b h. refl;
  powm_lem = λ a e m h. refl;
  limb_lem = λ a i. refl;
  size_lem = λ a. omega (arith, lt-pow a, pow-le-pow_right {n = 2} (omega arith) (longer a));
}

abbrev hash : List ℕ
hash = replicate 32 129

replicate-AllBytes : (n b : ℕ) → b < 256 → AllBytes (replicate n b)
replicate-AllBytes zero b h = tt
replicate-AllBytes (suc n) b h = (h, replicate-AllBytes n b h)

starting_lem_example :
    (z_target : ℕ) × target gmp hash 1024 ≡ some z_target
    × z_target ≡ (2 ^ 264 + hash_value hash 256 0) * 2 ^ (1024 - 265)
    × ((k : ℕ)
        → (z_target + remainder_primorial gmp z_target 30030 + k * 30030) % 30030
          ≡ primorial_offset % 30030)
starting_lem_example =
    starting_lem gmp hash 1024 30030 (replicate-AllBytes 32 129 (omega arith)) refl (omega arith)
      (omega arith) (omega arith)

-- The counters at 0, and nothing submitted.
abbrev fresh : Verified
fresh = record {
  total2_chain_count = 0;
  total3_chain_count = 0;
  total4_chain_count = 0;
  total_share_count = 0;
  submitted = [];
}

-- 97 = 90 + 7 starts a sextuplet of primes.
tuple_run : is_share (90 + offset_of 30 7 0 0) ≡ true
unfolding is_share passing passes
tuple_run = refl

check_indexes_lem_example :
    (v' : Verified) × (new : List (List ℕ)) × (check_indexes gmp 30 7 90 0 (0 ∷ 1 ∷ []) fresh
      ≡ some v')
    × (v'.submitted ≡ [] ++ new)
    × All (λ b. length b ≡ 32) new
    × (map le_value new ≡ shares 30 7 90 0 (0 ∷ 1 ∷ []))
    × (v'.total_share_count ≡ (0 + length new) % 2 ^ 32)
    × (v'.total4_chain_count ≡ (0 + length new) % 2 ^ 32)
check_indexes_lem_example =
    check_indexes_lem gmp 30 7 90 0 (0 ∷ 1 ∷ []) fresh (omega arith) (omega arith) (omega arith)
