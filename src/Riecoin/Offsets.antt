-- ===== src/Riecoin/Offsets.antt =====
-- `update_remainders`: where in the sieve a prime divides one of the six candidates.
use fastrie.Base.{
  ℕ, suc, ◌+◌, ◌-◌, ◌*◌, ◌/◌, ◌%◌, ◌^◌, ◌≤◌, ◌<◌, ◌≡◌, ◌∙◌, sym, ap, subst, All, List, [], ◌∷◌, ltb,
  ltb→lt, ltb→ge, sub32, if◌then◌else◌, arith, Bool-cases, inl, inr,
}
use native.Mathlib.Nat.{
  mul-le-mul, mul_comm, mul_assoc, mul-add, add-mul, add-mul-mod_self_right, div-add-mod,
  mod-add-div, suc-mul, mod-lt, zero-mod, mod-eq_of_lt,
}

abbrev pub prime_tuple_offset : List ℕ
prime_tuple_offset = 0 ∷ 4 ∷ 2 ∷ 4 ∷ 2 ∷ 4 ∷ []

-- `remainder += primeTupleOffset[f]; if (remainder > p) remainder -= p;`
unfoldable next_remainder : ℕ → ℕ → ℕ → ℕ
next_remainder p tuple_offset remainder =
    let r = (remainder + tuple_offset) % 2 ^ 32 in if ltb p r then r - p else r

-- `pa = p-remainder; index = pa*inverted; index %= p;`
unfoldable pub index_of : ℕ → ℕ → ℕ → ℕ
index_of p inverted remainder = sub32 p remainder * inverted % 2 ^ 64 % p

-- The loop over `f`: the six indexes of a prime, from the remainder of the target.
unfoldable pub tuple_indexes : ℕ → ℕ → List ℕ → ℕ → List ℕ
unfolding next_remainder index_of
tuple_indexes p inverted [] remainder = []
tuple_indexes p inverted (t ∷ ts) remainder =
    let r = next_remainder p t remainder in index_of p inverted r ∷ tuple_indexes p inverted ts r

-- With `inverted * m` one more than a multiple of `p`, stepping `index` times by `m` from a number with
-- remainder `r` gives a multiple of `p`.
reaches_multiple :
    (p inverted m n r t : ℕ)
    → 0 < p
    → r ≤ p
    → n ≡ r + t * p
    → inverted * m % p ≡ 1
    → (n + (p - r) * inverted % p * m) % p ≡ 0
reaches_multiple p inverted m n r t hp hr en ei =
    sym (add-mul-mod_self_right (n + index * m) (x / p * m) p)
    ∙ ap (λ k. k % p) total
    ∙ add-mul-mod_self_right 0 (suc t + (p - r) * (inverted * m / p)) p
    ∙ zero-mod p
  where
    x : ℕ
    x = (p - r) * inverted

    index : ℕ
    index = x % p

    y : ℕ
    y = inverted * m

    whole : index * m + x / p * m * p ≡ (p - r) * (inverted * m)
    whole =
        ap (λ k. index * m + k) (mul_comm (x / p * m) p ∙ sym (mul_assoc p (x / p) m))
        ∙ sym (add-mul index (p * (x / p)) m)
        ∙ ap (λ k. k * m) (mod-add-div x p)
        ∙ mul_assoc (p - r) inverted m

    split : (p - r) * (inverted * m) ≡ (p - r) + (p - r) * (inverted * m / p) * p
    split =
        ap (λ k. (p - r) * k) (sym (div-add-mod y p) ∙ ap (λ k. p * (y / p) + k) ei)
        ∙ mul-add (p - r) (p * (y / p)) 1
        ∙ ap (λ k. k + (p - r) * 1)
            (ap (λ k. (p - r) * k) (mul_comm p (y / p)) ∙ sym (mul_assoc (p - r) (y / p) p))
        ∙ omega arith

    total : n + index * m + x / p * m * p ≡ 0 + (suc t + (p - r) * (inverted * m / p)) * p
    total =
        omega (
          arith,
          whole,
          split,
          en,
          hr,
          add-mul (suc t) ((p - r) * (inverted * m / p)) p,
          suc-mul t p,
        )

-- Each index, with the part of the tuple that it is for, counted from the first member.
abbrev pub AllReach : ℕ → ℕ → ℕ → ℕ → List ℕ → List ℕ → Type 0
AllReach p m tar s [] is = Unit {0}
AllReach p m tar s (t ∷ ts) [] = ⊥
AllReach p m tar s (t ∷ ts) (i ∷ is) =
    (i < p) × ((tar + (s + t) + i * m) % p ≡ 0) × AllReach p m tar (s + t) ts is

next_remainder_lem :
    (p t r n k : ℕ)
    → 4 ≤ p
    → p < 2 ^ 31
    → t ≤ 4
    → r ≤ p
    → n ≡ r + k * p
    → (next_remainder p t r ≤ p) × ((k' : ℕ) × (n + t ≡ next_remainder p t r + k' * p))
unfolding next_remainder
next_remainder_lem p t r n k lp hp ht hr en = elim (Bool-cases (ltb p ((r + t) % 2 ^ 32))) [
  | inl e ↦ rw e (omega arith, (suc k, omega (arith, en, suc-mul k p, ltb→lt _ _ e)))
  | inr e ↦ rw e (omega (arith, ltb→ge _ _ e), (k, omega (arith, en)))
]

-- The products do not wrap.
index_of_lem :
    (p inverted r : ℕ)
    → p < 2 ^ 31
    → inverted < 2 ^ 32
    → r ≤ p
    → index_of p inverted r ≡ (p - r) * inverted % p
unfolding index_of
index_of_lem p inverted r hp hi hr =
    ap (λ n. n * inverted % 2 ^ 64 % p) same ∙ ap (λ n. n % p) (mod-eq_of_lt small)
  where
    same : sub32 p r ≡ p - r
    same = omega (arith, hp, hr)

    product : (p - r) * inverted ≤ 2 ^ 31 * 2 ^ 32
    product = mul-le-mul {n₂ = 2 ^ 31} {m₂ = 2 ^ 32} (omega arith) (omega arith)

    small : (p - r) * inverted < 2 ^ 64
    small = omega (arith, product)

loop_lem :
    (p inverted primorial tar s r k : ℕ) (ts : List ℕ)
    → 4 ≤ p
    → p < 2 ^ 31
    → inverted < 2 ^ 32
    → inverted * primorial % p ≡ 1
    → All (λ t. t ≤ 4) ts
    → r ≤ p
    → tar + s ≡ r + k * p
    → AllReach p primorial tar s ts (tuple_indexes p inverted ts r)
unfolding tuple_indexes
loop_lem p inverted primorial tar s r k [] lp hp hi ei a hr en = tt
loop_lem p inverted primorial tar s r k (t ∷ ts) lp hp hi ei (ht, rest) hr en =
    let (hr', (k', en')) = next_remainder_lem p t r (tar + s) k lp hp ht hr en in
    let r' : ℕ = next_remainder p t r in
    let same = index_of_lem p inverted r' hp hi hr' in
    let total : tar + (s + t) ≡ r' + k' * p = omega (arith, en') in
    (
      subst (λ i. i < p) (sym same) (mod-lt ((p - r') * inverted) (omega arith)),
      ap (λ i. (tar + (s + t) + i * primorial) % p) same
          ∙ reaches_multiple p inverted primorial (tar + (s + t)) r' k' (omega arith) hr' total ei,
      loop_lem p inverted primorial tar (s + t) r' k' ts lp hp hi ei rest hr' total,
    )

-- The sieve indexes of a prime are right: with `inverted` the inverse of the primorial modulo `p`, and
-- `remainder` that of the target, the index for each member of the tuple is below `p`, and the candidate
-- at that index, the target plus the member's offset plus `index` primorials, is divisible by `p`.
pub tuple_indexes_lem :
    (p inverted primorial tar : ℕ)
    → 4 ≤ p
    → p < 2 ^ 31
    → inverted < 2 ^ 32
    → inverted * primorial % p ≡ 1
    → AllReach p primorial tar 0 prime_tuple_offset
        (tuple_indexes p inverted prime_tuple_offset (tar % p))
tuple_indexes_lem p inverted primorial tar lp hp hi ei =
    loop_lem p inverted primorial tar 0 (tar % p) (tar / p) prime_tuple_offset lp hp hi ei
      (omega arith, (omega arith, (omega arith, (omega arith, (omega arith, (omega arith, tt))))))
      (omega (arith, mod-lt tar positive)) (omega (arith, mod-add-div tar p, mul_comm p (tar / p)))
  where
    positive : 0 < p
    positive = omega arith
