-- ===== src/Riecoin/Start.antt =====
-- `riecoin_process`, "generatePrimeBase": the target from the hash of the block, and the first offset at which
-- it has the wanted remainder.
use fastrie.Base.{
  ℕ, zero, suc, ◌+◌, ◌-◌, ◌*◌, ◌/◌, ◌%◌, ◌^◌, Option, some, List, load, le_value, test_bit, sub32,
  ◌==◌, if◌then◌else◌,
}
use fastrie.Riecoin.Sieve.{◌>>=◌}
use fastrie.Riecoin.Mpz.{Mpz}

abbrev pub zeroes_before_hash_in_prime : ℕ
zeroes_before_hash_in_prime = 8

abbrev pub primorial_offset : ℕ
primorial_offset = 16057

-- `(powHashU32[i/32]>>(i%32))&1`
unfoldable pub hash_bit : List ℕ → ℕ → Option ℕ
hash_bit pow_hash i =
    load pow_hash (4 * (i / 32)) 4 >>= λ word. some (test_bit (le_value word) (i % 32))

module _ (g : Mpz) where
  -- `z_target->_mp_d[0]++;`
  unfoldable pub increment : ℕ → ℕ
  increment z = z - g.limb z 0 + (g.limb z 0 + 1) % 2 ^ 64

  -- The loop over the bits of the hash; `n` are left.
  unfoldable pub add_hash : List ℕ → ℕ → ℕ → ℕ → Option ℕ
  add_hash pow_hash zero i z = some z
  add_hash pow_hash (suc n) i z = hash_bit pow_hash i >>= λ b.
      (let z' = g.mul_2exp z 1 in add_hash pow_hash n (suc i) (if b == 0 then z' else increment z'))

  unfoldable pub target : List ℕ → ℕ → Option ℕ
  target pow_hash search_bits =
      add_hash pow_hash 256 0 (g.mul_2exp 1 zeroes_before_hash_in_prime) >>= λ z.
      some (g.mul_2exp z (sub32 (sub32 (sub32 search_bits 1) zeroes_before_hash_in_prime) 256))

  unfoldable pub remainder_primorial : ℕ → ℕ → ℕ
  remainder_primorial z_target z_primorial =
      g.add_ui (g.tdiv_r (g.sub z_primorial (g.tdiv_r z_target z_primorial)) z_primorial)
        primorial_offset
