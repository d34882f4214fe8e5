-- ===== src/Riecoin/Verify.antt =====
-- `verify_thread`, TYPE_CHECK: the Fermat tests of the candidates, and the shares. `none` is a write outside
-- `nOffset`.
use fastrie.Base.{
  ℕ, zero, suc, ◌+◌, ◌*◌, Bool, Option, some, List, [], ◌∷◌, ◌++◌, replicate, ltb, leb, ◌==◌, store,
  le_bytes, add32, if◌then◌else◌,
}
use fastrie.Riecoin.Sieve.{sieve_size, ◌>>=◌}
use fastrie.Riecoin.Mpz.{Mpz}

-- The counters of main.cpp, and the offsets given to `xptMiner_submitShare`, the last one last.
pub record Verified : Type 0 where
  pub total2_chain_count : ℕ
  pub total3_chain_count : ℕ
  pub total4_chain_count : ℕ
  pub total_share_count : ℕ
  pub submitted : List (List ℕ)

-- `primeTupleOffset[1]` to `primeTupleOffset[5]`
abbrev pub next_members : List ℕ
next_members = 4 ∷ 2 ∷ 4 ∷ 2 ∷ 4 ∷ []

-- A counter that the source raises where `n_primes` is at least `k`.
unfoldable pub count_chain : ℕ → ℕ → ℕ → ℕ
count_chain k n_primes count = if leb k n_primes then add32 count 1 else count

unfoldable pub count_chains : ℕ → Verified → Verified
count_chains n_primes v = record v {
  total2_chain_count = count_chain 2 n_primes v.total2_chain_count;
  total3_chain_count = count_chain 3 n_primes v.total3_chain_count;
  total4_chain_count = count_chain 4 n_primes v.total4_chain_count;
}

unfoldable pub submit : List ℕ → Verified → Verified
submit n_offset v = record v {
  total_share_count = add32 v.total_share_count 1;
  submitted = v.submitted ++ (n_offset ∷ []);
}

module _ (g : Mpz) where
  -- The Fermat test to the base 2.
  unfoldable pub fermat : ℕ → Bool
  fermat z = g.powm 2 (g.sub_ui z 1) z == 1

  -- The loop over the members after the first; its `continue` skips nothing.
  unfoldable pub count_primes : List ℕ → ℕ → ℕ → ℕ
  count_primes [] z n_primes = n_primes
  count_primes (offset ∷ offsets) z n_primes =
      let z' = g.add_ui z offset in
      count_primes offsets z' (if fermat z' then n_primes + 1 else n_primes)

  -- The loop that writes the limbs of 64 bits from `d` on; `n` are left.
  unfoldable pub write_limbs : ℕ → ℕ → ℕ → List ℕ → Option (List ℕ)
  write_limbs z zero d n_offset = some n_offset
  write_limbs z (suc n) d n_offset = store n_offset (d * 8) (le_bytes 8 (g.limb z d)) >>= λ written.
      write_limbs z n (suc d) written

  unfoldable pub offset_bytes : ℕ → Option (List ℕ)
  offset_bytes z = write_limbs z (if ltb (g.size z) 4 then g.size z else 4) 0 (replicate 32 0)

  module _ (z_primorial z_verify_remainder_primorial z_verify_target : ℕ) where
    unfoldable pub candidate : ℕ → ℕ → ℕ
    candidate loop index =
        g.add
          (g.add
            (g.add (g.mul_ui (g.mul_ui z_primorial loop) sieve_size) (g.mul_ui z_primorial index))
            z_verify_remainder_primorial)
          z_verify_target

    -- The body of the loop for one candidate.
    unfoldable pub check_index : ℕ → ℕ → Verified → Option Verified
    check_index loop index v =
        let z = candidate loop index in
        let n_primes = count_primes next_members z 1 in
        if fermat z
        then (if leb 4 n_primes
            then (offset_bytes (g.sub z z_verify_target) >>= λ n_offset.
                some (submit n_offset (count_chains n_primes v)))
            else some (count_chains n_primes v))
        else some v

    unfoldable pub check_indexes : ℕ → List ℕ → Verified → Option Verified
    check_indexes loop [] v = some v
    check_indexes loop (index ∷ indexes) v = check_index loop index v >>= check_indexes loop indexes
