-- ===== src/Riecoin/Reach.antt =====
-- Which positions an offset of a prime reaches, in this segment of the sieve and in the next.
use fastrie.Base.{
  ℕ, zero, suc, ◌+◌, ◌-◌, ◌*◌, ◌%◌, ◌≤◌, ◌<◌, max, ◌≡◌, ◌⊎◌, sym, ap, ◌∙◌, ◌&&◌, ltb, ltb→lt,
  ltb→ge, leb, leb→le, leb→gt, ◌==◌, if◌then◌else◌, Bool-cases, inl, inr, arith,
}
use native.Mathlib.Nat.{suc-mul, mod-eq-sub-mod, mod-eq_of_lt, zero-mod, add-mul-mod_self_right}
use fastrie.Riecoin.Sieve.{sieve_size}
use fastrie.Riecoin.Marks.{hit, hits}
use fastrie.Riecoin.Strikes.{progression}

-- `k` is `o`, `o + p` or so on.
unfoldable pub reach : ℕ → ℕ → ℕ → ℕ
reach p o k = if leb o k && (k - o) % p == 0 then 1 else 0

-- The marks at these positions, inside the sieve. Position 0 is never marked.
unfoldable pub strikes : ℕ → ℕ → ℕ → ℕ
unfolding reach
strikes p o k = if ltb 0 k && ltb k sieve_size then reach p o k else 0

pub reach-step :
    (p o k : ℕ) → 1 ≤ p → reach p o k ≡ max (if o == k then 1 else 0) (reach p (o + p) k)
unfolding reach
reach-step p o k lp = elim (Bool-cases (ltb k (o + p))) [
  | inl e ↦
      let lt : k < o + p = ltb→lt _ _ e in
      ground (arith, zero-mod p, mod-eq_of_lt {n = k - o} {m = p})
  | inr e ↦
      let ge : o + p ≤ k = ltb→ge _ _ e in
      let same : (k - o) % p ≡ (k - (o + p)) % p =
        mod-eq-sub-mod (omega arith) ∙ ap (λ n. n % p) (apart o k ge) in
      ground (arith, same)
]
  where
    apart : (o k : ℕ) → o + p ≤ k → k - o - p ≡ k - (o + p)
    apart o k h = omega arith

pub reach-before : (p o k : ℕ) → k < o → reach p o k ≡ 0
unfolding reach
reach-before p o k h = ground arith

pub hits-progression :
    (p o n k : ℕ)
    → 1 ≤ p
    → ((sieve_size ≤ o) × (n ≡ 0)) ⊎ (o + n * p < sieve_size + p)
    → sieve_size ≤ o + n * p
    → hits k (progression o p n) ≡ strikes p o k
unfolding hits hit progression strikes
hits-progression p o zero k lp w h = ground (arith, reach-before p o k)
hits-progression p o (suc n) k lp w h = elim w [
  | inl (past, none_left) ↦ absurd (omega arith)
  | inr near ↦
      let more : suc n * p ≡ p + n * p = omega (arith, suc-mul n p) in
      ground (
        arith,
        reach-step p o k lp,
        hits-progression p (o + p) n k lp (inr (omega (arith, near, more)))
            (omega (arith, h, more)),
        reach-before p (o + p) k,
      )
]

reach-later :
    (p o n k : ℕ)
    → 1 ≤ p
    → ((sieve_size ≤ o) × (n ≡ 0)) ⊎ (o + n * p < sieve_size + p)
    → sieve_size ≤ o + n * p
    → sieve_size + k < o + n * p
    → reach p (o + n * p - sieve_size) k ≡ reach p o (sieve_size + k)
unfolding reach
reach-later p o zero k lp w h past = ground arith
reach-later p o (suc n) k lp w h past = elim w [
  | inl (far, none_left) ↦ absurd (omega arith)
  | inr near ↦
      let more : suc n * p ≡ p + n * p = omega (arith, suc-mul n p) in
      let gap : ℕ = p - (o + suc n * p - (sieve_size + k)) in
      let rest : (sieve_size + k - o) % p ≡ gap =
        ap (λ i. i % p) (omega (arith, near, past, more))
        ∙ add-mul-mod_self_right gap n p
        ∙ mod-eq_of_lt (omega (arith, near, past, more)) in
      ground (arith, rest, near, past)
]

-- What is left after the segment reaches in the next segment what was reached there before.
pub reach-next :
    (p o n k : ℕ)
    → 1 ≤ p
    → ((sieve_size ≤ o) × (n ≡ 0)) ⊎ (o + n * p < sieve_size + p)
    → sieve_size ≤ o + n * p
    → reach p (o + n * p - sieve_size) k ≡ reach p o (sieve_size + k)
unfolding reach
reach-next p o n k lp w h = elim (Bool-cases (leb (o + n * p) (sieve_size + k))) [
  | inl e ↦
      let le : o + n * p ≤ sieve_size + k = leb→le _ _ e in
      let same : (k - (o + n * p - sieve_size)) % p ≡ (sieve_size + k - o) % p =
        sym (add-mul-mod_self_right (k - (o + n * p - sieve_size)) n p)
        ∙ ap (λ i. i % p) (omega (arith, le, h)) in
      ground (arith, same)
  | inr e ↦ reach-later p o n k lp w h (leb→gt _ _ e)
]
