-- ===== src/Riecoin/Starting.antt =====
-- The target has the wanted size, and the candidates the wanted remainder.
use fastrie.Base.{
  ℕ, zero, suc, ◌+◌, ◌-◌, ◌*◌, ◌/◌, ◌%◌, ◌^◌, ◌≤◌, ◌<◌, ◌≡◌, refl, ap, ◌∙◌, some, List, length,
  load, take, drop, length-take, length-drop, le→leb, test_bit, sub32, ◌==◌, ==_iff, Bool-cases,
  inl, inr, arith,
}
use native.Mathlib.Nat.{
  pow-suc, mod-lt, mod-add-div, add-mul-mod_self_right, mul_assoc, mul_comm, mul-le-mul, add-mul,
  add-mod-mod,
}
use fastrie.Riecoin.Marks.{byte_at}
use fastrie.Riecoin.WholeScan.{
  AllBytes, byte_at-drop, byte_at-take, AllBytes-drop, AllBytes-take, test_bit-le_value,
}
use fastrie.Riecoin.Mpz.{Mpz}
use fastrie.Riecoin.Start.{
  primorial_offset, hash_bit, increment, add_hash, target, remainder_primorial,
}

-- Bit `i` of the hash.
abbrev pub bit_of : List ℕ → ℕ → ℕ
bit_of pow_hash i = test_bit (byte_at pow_hash (i / 8)) (i % 8)

-- The number whose binary digits are `n` bits of the hash from bit `i` on, the first one on top.
unfoldable pub hash_value : List ℕ → ℕ → ℕ → ℕ
hash_value pow_hash zero i = 0
hash_value pow_hash (suc n) i = bit_of pow_hash i * 2 ^ n + hash_value pow_hash n (suc i)

test_bit-le : (a k : ℕ) → test_bit a k ≤ 1
unfolding test_bit
test_bit-le a zero = omega arith
test_bit-le a (suc k) = test_bit-le (a / 2) k

hash_value-lt : (pow_hash : List ℕ) (n i : ℕ) → hash_value pow_hash n i < 2 ^ n
unfolding hash_value
hash_value-lt pow_hash zero i = omega arith
hash_value-lt pow_hash (suc n) i = omega (
  arith,
  hash_value-lt pow_hash n (suc i),
  pow-suc 2 n,
  mul-le-mul {m₁ = 2 ^ n} {m₂ = 2 ^ n} (test_bit-le (byte_at pow_hash (i / 8)) (i % 8))
      (omega arith),
)

hash_bit_lem :
    (pow_hash : List ℕ) (i : ℕ)
    → AllBytes pow_hash
    → length pow_hash ≡ 32
    → i < 256
    → hash_bit pow_hash i ≡ some (bit_of pow_hash i)
unfolding hash_bit load
hash_bit_lem pow_hash i a len h =
    rw (hash_bit, le→leb (4 * (i / 32) + 4) (length pow_hash) (omega (arith, len)))
      (ap (λ b. some b)
        (test_bit-le_value word (i % 32)
            (AllBytes-take 4 _ (AllBytes-drop (4 * (i / 32)) pow_hash a))
            (omega (
              arith,
              length-take 4 (drop (4 * (i / 32)) pow_hash),
              length-drop (4 * (i / 32)) pow_hash,
              len,
            ))
          ∙ ap (λ b. test_bit b (i % 32 % 8))
              (byte_at-take 4 (i % 32 / 8) (drop (4 * (i / 32)) pow_hash) (omega arith)
                ∙ byte_at-drop (4 * (i / 32)) (i % 32 / 8) pow_hash
                ∙ ap (byte_at pow_hash) (omega arith))
          ∙ ap (test_bit (byte_at pow_hash (i / 8))) (omega arith)))
  where
    word : List ℕ
    word = take 4 (drop (4 * (i / 32)) pow_hash)

module _ (g : Mpz) where
  -- On an even number no carry is lost.
  increment_lem : (z : ℕ) → increment g (2 * z) ≡ 2 * z + 1
  unfolding increment
  increment_lem z = omega (arith, g.limb_lem (2 * z) 0, whole)
    where
      whole : 2 * z / 2 ^ (64 * 0) ≡ 2 * z
      whole = omega arith

  doubled : (z : ℕ) → g.mul_2exp z 1 ≡ 2 * z
  doubled z = omega (arith, g.mul_2exp_lem z 1)

  add_hash_lem :
      (pow_hash : List ℕ) (n i z : ℕ)
      → AllBytes pow_hash
      → length pow_hash ≡ 32
      → i + n ≤ 256
      → add_hash g pow_hash n i z ≡ some (z * 2 ^ n + hash_value pow_hash n i)
  unfolding add_hash hash_value
  add_hash_lem pow_hash zero i z a len h = ap (λ v. some v) (omega arith)
  add_hash_lem pow_hash (suc n) i z a len h =
      rw (add_hash, hash_bit_lem pow_hash i a len (omega arith), doubled z)
        (elim (Bool-cases (bit_of pow_hash i == 0)) [
          | inl e ↦ rw e (
              add_hash_lem pow_hash n (suc i) (2 * z) a len (omega arith)
              ∙ ap (λ v. some v)
                  (omega (arith, powers, ap (λ b. b * 2 ^ n) ((==_iff (bit_of pow_hash i) 0).0 e))))
          | inr e ↦
              let one : bit_of pow_hash i ≡ 1 =
                ground (arith, test_bit-le (byte_at pow_hash (i / 8)) (i % 8)) in
              rw e (
                ap (add_hash g pow_hash n (suc i)) (increment_lem z)
                ∙ add_hash_lem pow_hash n (suc i) (2 * z + 1) a len (omega arith)
                ∙ ap (λ v. some v)
                    (omega (arith, powers, add-mul (2 * z) 1 (2 ^ n), ap (λ b. b * 2 ^ n) one)))
        ])
    where
      powers : z * 2 ^ suc n ≡ 2 * z * 2 ^ n
      powers = omega (arith, ap (λ t. z * t) (pow-suc 2 n), mul_assoc z 2 (2 ^ n), mul_comm z 2)

  -- The target has one digit 1, eight digits 0, the 256 bits of the hash, bit 0 first, and zeros up to the
  -- wanted number of digits.
  target_digits :
      (pow_hash : List ℕ) (search_bits : ℕ)
      → AllBytes pow_hash
      → length pow_hash ≡ 32
      → 265 ≤ search_bits
      → search_bits < 2 ^ 32
      → target g pow_hash search_bits
        ≡ some ((2 ^ 264 + hash_value pow_hash 256 0) * 2 ^ (search_bits - 265))
  unfolding target
  target_digits pow_hash search_bits a len lo hi =
      rw (target, add_hash_lem pow_hash 256 0 (g.mul_2exp 1 8) a len (omega arith))
        (ap (λ v. some v)
          (g.mul_2exp_lem _ _
            ∙ ap (λ v. v * 2 ^ sub32 (sub32 (sub32 search_bits 1) 8) 256)
                (omega (arith, g.mul_2exp_lem 1 8))
            ∙ ap (λ v. (2 ^ 264 + hash_value pow_hash 256 0) * 2 ^ v) (omega (arith, lo, hi))))

  -- The first number from the target on with remainder 0, and the offset behind it.
  remainder_primorial_lem :
      (z_target z_primorial : ℕ)
      → 0 < z_primorial
      → (z_target + remainder_primorial g z_target z_primorial) % z_primorial
        ≡ primorial_offset % z_primorial
  unfolding remainder_primorial
  remainder_primorial_lem z_target z_primorial pos =
      ap (λ v. (z_target + v) % z_primorial)
        (g.add_ui_lem _ _ ∙ ap (λ v. v + primorial_offset) offset)
      ∙ ap (λ v. v % z_primorial) regroup
      ∙ add-mod-mod (z_target + primorial_offset) (z_primorial - z_target % z_primorial) z_primorial
      ∙ ap (λ v. v % z_primorial) whole
      ∙ add-mul-mod_self_right primorial_offset (suc (z_target / z_primorial)) z_primorial
    where
      small : z_target % z_primorial < z_primorial
      small = mod-lt z_target pos

      offset :
          g.tdiv_r (g.sub z_primorial (g.tdiv_r z_target z_primorial)) z_primorial
          ≡ (z_primorial - z_target % z_primorial) % z_primorial
      offset =
          g.tdiv_r_lem _ z_primorial pos
          ∙ ap (λ v. v % z_primorial)
              (ap (g.sub z_primorial) (g.tdiv_r_lem z_target z_primorial pos)
                ∙ g.sub_lem z_primorial (z_target % z_primorial) (omega (arith, small)))

      regroup :
          z_target + ((z_primorial - z_target % z_primorial) % z_primorial + primorial_offset)
          ≡ z_target + primorial_offset + (z_primorial - z_target % z_primorial) % z_primorial
      regroup = omega arith

      whole :
          z_target + primorial_offset + (z_primorial - z_target % z_primorial)
          ≡ primorial_offset + suc (z_target / z_primorial) * z_primorial
      whole = omega (
        arith,
        small,
        mod-add-div z_target z_primorial,
        mul_comm z_primorial (z_target / z_primorial),
        add-mul 1 (z_target / z_primorial) z_primorial,
      )

  -- From a hash of 32 bytes and a size of at least 265 and below 2 ^ 32, the target is the number whose binary
  -- digits are a one, eight zeros, the bits of the hash from bit 0 on, and zeros up to the size. And each
  -- candidate, the target plus the first offset plus a multiple of the primorial, which is positive, leaves on
  -- division by the primorial what the wanted offset leaves.
  pub starting_lem :
      (pow_hash : List ℕ) (search_bits z_primorial : ℕ)
      → AllBytes pow_hash
      → length pow_hash ≡ 32
      → 265 ≤ search_bits
      → search_bits < 2 ^ 32
      → 0 < z_primorial
      → (z_target : ℕ) × target g pow_hash search_bits ≡ some z_target
        × z_target ≡ (2 ^ 264 + hash_value pow_hash 256 0) * 2 ^ (search_bits - 265)
        × ((k : ℕ)
            → (z_target + remainder_primorial g z_target z_primorial + k * z_primorial)
                % z_primorial
              ≡ primorial_offset % z_primorial)
  starting_lem pow_hash search_bits z_primorial a len lo hi pos = (
    (2 ^ 264 + hash_value pow_hash 256 0) * 2 ^ (search_bits - 265),
    target_digits pow_hash search_bits a len lo hi,
    refl,
    λ k. add-mul-mod_self_right _ k z_primorial ∙ remainder_primorial_lem _ z_primorial pos,
  )
