-- ===== src/Riecoin/Limbs.antt =====
-- The offset of a share, in bytes.
use fastrie.Base.{
  ℕ, zero, suc, ◌+◌, ◌-◌, ◌*◌, ◌/◌, ◌%◌, ◌^◌, ◌≤◌, ◌<◌, ◌≡◌, refl, sym, ap, ◌∙◌, some, List, [],
  ◌∷◌, ◌++◌, length, length-append, replicate, length-replicate, drop, append_assoc, Bool-cases,
  inl, inr, ltb, store-append, le_bytes, le_value, le_value-le_bytes, length-le_bytes, arith,
}
use native.Mathlib.Nat.{
  pow-suc, pow-le-pow_right, one-le-pow, add-zero, mul-one, mod-lt, le_refl, mod-add-div,
  mod-eq_of_lt, add-mul-mod_self_right, mul_assoc, mul_comm, mul-add, div-div-eq-div-mul,
  mul-le-mul,
}
use fastrie.Riecoin.Sieve.{◌>>=◌}
use fastrie.Riecoin.Mpz.{Mpz}
use fastrie.Riecoin.Verify.{write_limbs, offset_bytes}

le_value-append :
    (xs ys : List ℕ) → le_value (xs ++ ys) ≡ le_value xs + 256 ^ length xs * le_value ys
unfolding le_value
le_value-append [] ys = omega arith
le_value-append (x ∷ xs) ys = omega (
  arith,
  le_value-append xs ys,
  ap (λ t. t * le_value ys) (pow-suc 256 (length xs)),
  mul_assoc 256 (256 ^ length xs) (le_value ys),
  mul_comm 256 (256 ^ length xs),
)

le_value-zeros : (n : ℕ) → le_value (replicate n 0) ≡ 0
unfolding le_value
le_value-zeros zero = refl
le_value-zeros (suc n) = omega (arith, le_value-zeros n)

drop-zeros : (n k : ℕ) → drop {A = ℕ} n (replicate (n + k) 0) ≡ replicate k 0
drop-zeros zero k = ap (λ j. replicate j 0) (omega arith)
drop-zeros (suc n) k = ap (λ j. drop (suc n) (replicate j 0)) form ∙ drop-zeros n k
  where
    form : suc n + k ≡ suc (n + k)
    form = omega arith

pow_add : (m n : ℕ) → 2 ^ (m + n) ≡ 2 ^ m * 2 ^ n
pow_add m zero = ap (λ k. 2 ^ k) (add-zero m) ∙ sym (mul-one (2 ^ m))
pow_add m (suc n) =
    ap (λ k. 2 ^ k) form
    ∙ pow-suc 2 (m + n)
    ∙ ap (λ t. t * 2) (pow_add m n)
    ∙ mul_assoc (2 ^ m) (2 ^ n) 2
    ∙ ap (λ t. 2 ^ m * t) (sym (pow-suc 2 n))
  where
    form : m + suc n ≡ suc (m + n)
    form = omega arith

pow_limb : (n : ℕ) → 2 ^ (64 * suc n) ≡ 2 ^ (64 * n) * 2 ^ 64
pow_limb n = ap (λ k. 2 ^ k) form ∙ pow_add (64 * n) 64
  where
    form : 64 * suc n ≡ 64 * n + 64
    form = omega arith

-- The remainder of a product, digit by digit.
mod_product : (w a b : ℕ) → 0 < a → 0 < b → w % a + a * (w / a % b) ≡ w % (a * b)
mod_product w a b ha hb = sym (
    ap (λ v. v % (a * b)) whole ∙ add-mul-mod_self_right _ (w / a / b) (a * b) ∙ mod-eq_of_lt small)
  where
    whole : w ≡ w % a + a * (w / a % b) + w / a / b * (a * b)
    whole = omega (
      arith,
      mod-add-div w a,
      ap (λ t. a * t) (sym (mod-add-div (w / a) b)),
      mul-add a (w / a % b) (b * (w / a / b)),
      mul_assoc a b (w / a / b),
      mul_comm (a * b) (w / a / b),
    )

    small : w % a + a * (w / a % b) < a * b
    small = omega (
      arith,
      mod-lt w ha,
      mul-add a 1 (w / a % b),
      mul-le-mul {m₁ = 1 + w / a % b} {m₂ = b} (le_refl a) (omega (arith, mod-lt (w / a) hb)),
    )

module _ (g : Mpz) where
  unfoldable limb_bytes : ℕ → ℕ → ℕ → List ℕ
  limb_bytes z zero d = []
  limb_bytes z (suc n) d = le_bytes 8 (g.limb z d) ++ limb_bytes z n (suc d)

  write_limbs_lem :
      (z n d m : ℕ) (front : List ℕ)
      → length front ≡ d * 8
      → write_limbs g z n d (front ++ replicate (n * 8 + m) 0)
        ≡ some (front ++ (limb_bytes z n d ++ replicate m 0))
  unfolding write_limbs limb_bytes
  write_limbs_lem z zero d m front len = ap (λ j. some (front ++ replicate j 0)) (omega arith)
  write_limbs_lem z (suc n) d m front len =
      ap (λ o. o >>= write_limbs g z n (suc d))
        (store-append front (replicate (suc n * 8 + m) 0) bs (d * 8) (sym len) room
          ∙ ap (λ b. some b) regroup)
      ∙ write_limbs_lem z n (suc d) m (front ++ bs) longer
      ∙ ap (λ b. some b)
          (append_assoc front bs _
            ∙ ap (λ b. front ++ b) (sym (append_assoc bs (limb_bytes z n (suc d)) _)))
    where
      bs : List ℕ
      bs = le_bytes 8 (g.limb z d)

      eight : length bs ≡ 8
      eight = length-le_bytes 8 (g.limb z d)

      room : length bs ≤ length {A = ℕ} (replicate (suc n * 8 + m) 0)
      room = omega (arith, eight, length-replicate {A = ℕ} (suc n * 8 + m) 0)

      longer : length (front ++ bs) ≡ suc d * 8
      longer = omega (arith, eight, len, length-append front bs)

      split : suc n * 8 + m ≡ length bs + (n * 8 + m)
      split = omega (arith, eight)

      regroup :
          front ++ (bs ++ drop (length bs) (replicate (suc n * 8 + m) 0))
          ≡ (front ++ bs) ++ replicate (n * 8 + m) 0
      regroup =
          ap (λ b. front ++ (bs ++ b))
            (ap (λ j. drop (length bs) (replicate j 0)) split ∙ drop-zeros (length bs) (n * 8 + m))
          ∙ sym (append_assoc front bs _)

  limb_bytes-value : (z n d : ℕ) → le_value (limb_bytes z n d) ≡ z / 2 ^ (64 * d) % 2 ^ (64 * n)
  unfolding limb_bytes le_value
  limb_bytes-value z zero d = omega arith
  limb_bytes-value z (suc n) d =
      le_value-append bs (limb_bytes z n (suc d))
      ∙ ap (λ t. le_value bs + t * le_value (limb_bytes z n (suc d)))
          (ap (λ k. 256 ^ k) (length-le_bytes 8 _))
      ∙ (ap (λ t. t + 256 ^ 8 * le_value (limb_bytes z n (suc d))) digit
          ∙ ap (λ t. w % 2 ^ 64 + 2 ^ 64 * t)
              (limb_bytes-value z n (suc d) ∙ ap (λ t. t % 2 ^ (64 * n)) next))
      ∙ mod_product w (2 ^ 64) (2 ^ (64 * n)) (omega arith) (one-le-pow (64 * n) 2 (omega arith))
      ∙ ap (λ t. w % t) (mul_comm (2 ^ 64) (2 ^ (64 * n)) ∙ sym (pow_limb n))
    where
      bs : List ℕ
      bs = le_bytes 8 (g.limb z d)

      w : ℕ
      w = z / 2 ^ (64 * d)

      digit : le_value bs ≡ w % 2 ^ 64
      digit = le_value-le_bytes 8 (g.limb z d) (omega (arith, g.limb_lem z d)) ∙ g.limb_lem z d

      next : z / 2 ^ (64 * suc d) ≡ w / 2 ^ 64
      next = ap (λ t. z / t) (pow_limb d) ∙ sym (div-div-eq-div-mul z (2 ^ (64 * d)) (2 ^ 64))

  length-limb_bytes : (z n d : ℕ) → length (limb_bytes z n d) ≡ n * 8
  unfolding limb_bytes
  length-limb_bytes z zero d = refl
  length-limb_bytes z (suc n) d = omega (
    arith,
    length-append (le_bytes 8 (g.limb z d)) (limb_bytes z n (suc d)),
    length-le_bytes 8 (g.limb z d),
    length-limb_bytes z n (suc d),
  )

  -- With `n` limbs, at most four, that hold the number or are all four.
  written_lem :
      (z n : ℕ)
      → n ≤ 4
      → z % 2 ^ (64 * n) ≡ z % 2 ^ 256
      → (b : List ℕ) × (write_limbs g z n 0 (replicate 32 0) ≡ some b)
        × (length b ≡ 32)
        × (le_value b ≡ z % 2 ^ 256)
  written_lem z n small holds = (
    limb_bytes z n 0 ++ replicate (32 - n * 8) 0,
    ap (λ j. write_limbs g z n 0 (replicate j 0)) split
        ∙ write_limbs_lem z n 0 (32 - n * 8) [] refl,
    omega (
      arith,
      length-append (limb_bytes z n 0) (replicate (32 - n * 8) 0),
      length-limb_bytes z n 0,
      length-replicate {A = ℕ} (32 - n * 8) 0,
    ),
    le_value-append (limb_bytes z n 0) (replicate (32 - n * 8) 0)
        ∙ ap (λ t. le_value (limb_bytes z n 0) + 256 ^ length (limb_bytes z n 0) * t)
            (le_value-zeros (32 - n * 8))
        ∙ omega (arith, limb_bytes-value z n 0, holds, whole),
  )
    where
      split : 32 ≡ n * 8 + (32 - n * 8)
      split = omega (arith, small)

      whole : z / 2 ^ (64 * 0) % 2 ^ (64 * n) ≡ z % 2 ^ (64 * n)
      whole = ap (λ t. t % 2 ^ (64 * n)) (omega arith)

  pub offset_bytes_lem :
      (z : ℕ)
      → (b : List ℕ) × (offset_bytes g z ≡ some b) × (length b ≡ 32) × (le_value b ≡ z % 2 ^ 256)
  unfolding offset_bytes
  offset_bytes_lem z = elim (Bool-cases (ltb (g.size z) 4)) [
    | inl e ↦
        let few : g.size z < 4 = ground (arith, e) in
        rw e (
          written_lem z (g.size z) (omega (arith, few))
            (mod-eq_of_lt (g.size_lem z) ∙ sym (mod-eq_of_lt (wide z few))))
    | inr e ↦ rw e (written_lem z 4 (omega arith) refl)
  ]
    where
      wide : (z : ℕ) → g.size z < 4 → z < 2 ^ 256
      wide z few = omega (
        arith,
        g.size_lem z,
        pow-le-pow_right {n = 2} (omega arith) {i = 64 * g.size z} {j = 256} (omega (arith, few)),
      )
