-- ===== src/Riecoin/Crossing.antt =====
-- The sieve of Eratosthenes crosses out exactly the composite numbers.
use fastrie.Base.{
  ℕ, zero, suc, ◌+◌, ◌-◌, ◌*◌, ◌/◌, ◌%◌, ◌^◌, ◌≤◌, ◌<◌, max, ◌≡◌, refl, sym, ap, subst, ◌∙◌, true,
  false, not, ◌&&◌, some, List, length, ltb, ltb→lt, ltb→ge, leb, leb→le, ◌==◌, ==_iff,
  if◌then◌else◌, Bool-cases, inl, inr, arith, add32, test_bit,
}
use native.Mathlib.Nat.{
  mul-mod_right, div-add-mod, mul_assoc, add-mul-mod_self_right, mod-eq_of_lt, suc-mul,
  pow-le-pow_right, mul-le-mul,
}
use fastrie.Riecoin.Init.{mul32, is_composite, cross_out, cross_all}
use fastrie.Riecoin.Marks.{byte_at, byte_at-some, marked, mark_lem}
use fastrie.Riecoin.Reach.{reach, reach-step, reach-before}
use fastrie.Riecoin.WordBits.{bit_and-pow}

-- Whether `k` has a divisor from 2 to below `f`, no larger than its square root.
unfoldable pub has_divisor : ℕ → ℕ → ℕ
has_divisor zero k = 0
has_divisor (suc d) k =
    max (has_divisor d k) (if leb 2 d && (leb (d * d) k && k % d == 0) then 1 else 0)

cross_out_lem :
    (fuel limit : ℕ) (composite : List ℕ) (n factor : ℕ)
    → length composite ≡ (limit + 7) / 8
    → 1 ≤ factor
    → limit + factor < 2 ^ 32
    → limit < fuel + n
    → 1 ≤ fuel
    → (composite' : List ℕ) × (cross_out fuel limit composite n factor ≡ some composite')
      × (length composite' ≡ length composite)
      × ((k : ℕ) → k < limit → marked composite' k ≡ max (marked composite k) (reach factor n k))
unfolding cross_out
cross_out_lem zero limit composite n factor len one fits enough some_fuel = absurd (omega arith)
cross_out_lem (suc fuel) limit composite n factor len one fits enough some_fuel =
    elim (Bool-cases (ltb n limit)) [
      | inr e ↦ (
        composite,
        rw (cross_out, e) refl,
        refl,
        λ k h. omega (arith, reach-before factor n k (omega (arith, h, ltb→ge _ _ e))),
      )
      | inl e ↦
          let lt : n < limit = ltb→lt _ _ e in
          let (c₁, e₁, len₁, bits₁) = mark_lem composite n (omega (arith, len)) in
          let (c₂, e₂, len₂, bits₂) =
            cross_out_lem fuel limit c₁ (n + factor) factor (len₁ ∙ len) one fits (omega arith)
              (omega arith) in
          let same : add32 n factor ≡ n + factor = omega arith in
          (
            c₂,
            rw (cross_out, e) (rw e₁ (ap (λ i. cross_out fuel limit c₁ i factor) same ∙ e₂)),
            len₂ ∙ len₁,
            λ k h. ground (arith, bits₁ k, bits₂ k, reach-step factor n k one),
          )
    ]

zero_times : (t q : ℕ) → 1 ≤ q → (t * q == 0) ≡ (t == 0)
zero_times zero q h = ground arith
zero_times (suc t) q h = ground (arith, suc-mul t q)

pub is_composite_lem :
    (composite : List ℕ) (n : ℕ)
    → n / 8 < length composite
    → is_composite composite n ≡ some (not (marked composite n == 0))
unfolding is_composite marked
is_composite_lem composite n h =
    rw (is_composite, byte_at-some composite (n / 8) h)
      (ap (λ v. some (not (v == 0))) (bit_and-pow (n % 8) (byte_at composite (n / 8)))
        ∙ ap (λ b. some (not b))
            (zero_times (test_bit (byte_at composite (n / 8)) (n % 8)) (2 ^ (n % 8))
              (pow-le-pow_right {n = 2} (omega arith) {i = 0} {j = n % 8} (omega arith))))

pub has_divisor-le : (f k : ℕ) → has_divisor f k ≤ 1
unfolding has_divisor
has_divisor-le zero k = omega arith
has_divisor-le (suc d) k = ground (arith, has_divisor-le d k)

-- A divisor in range is found, and what is found is one.
pub has_divisor_of : (f k d : ℕ) → 2 ≤ d → d < f → d * d ≤ k → k % d ≡ 0 → has_divisor f k ≡ 1
unfolding has_divisor
has_divisor_of zero k d two lt small e = absurd (omega arith)
has_divisor_of (suc f) k d two lt small e = elim (Bool-cases (d == f)) [
  | inl q ↦
      let same : d ≡ f = (==_iff d f).0 q in
      let small' : f * f ≤ k = subst (λ i. i * i ≤ k) same small in
      let e' : k % f ≡ 0 = subst (λ i. k % i ≡ 0) same e in
      let two' : 2 ≤ f = omega (arith, two, same) in ground (arith, has_divisor-le f k)
  | inr q ↦ omega (arith, has_divisor-le (suc f) k, has_divisor_of f k d two (ground arith) small e)
]

pub divisor_of :
    (f k : ℕ) → has_divisor f k ≡ 1 → (d : ℕ) × (2 ≤ d) × (d < f) × (d * d ≤ k) × (k % d ≡ 0)
unfolding has_divisor
divisor_of zero k e = absurd (omega arith)
divisor_of (suc d) k e = elim (Bool-cases (has_divisor d k == 1)) [
  | inl q ↦
      let (c, two, lt, small, g) = divisor_of d k ((==_iff (has_divisor d k) 1).0 q) in
      (c, two, omega arith, small, g)
  | inr q ↦
      let none_before : has_divisor d k ≡ 0 = ground (arith, has_divisor-le d k) in
      (d, ground arith, omega arith, ground arith, ground arith)
]

-- A multiple of a number with a divisor has that divisor.
mod_trans : (k f d : ℕ) → k % f ≡ 0 → f % d ≡ 0 → k % d ≡ 0
mod_trans k f d e g = ap (λ i. i % d) whole ∙ mul-mod_right d (f / d * (k / f))
  where
    outer : k ≡ f * (k / f)
    outer = omega (arith, div-add-mod k f, e)

    inner : f ≡ d * (f / d)
    inner = omega (arith, div-add-mod f d, g)

    whole : k ≡ d * (f / d * (k / f))
    whole = outer ∙ ap (λ i. i * (k / f)) inner ∙ mul_assoc d (f / d) (k / f)

-- A composite number finds nothing new.
has_divisor-skip : (f k : ℕ) → 2 ≤ f → has_divisor f f ≡ 1 → has_divisor (suc f) k ≡ has_divisor f k
unfolding has_divisor
has_divisor-skip f k two e = elim (Bool-cases (leb (f * f) k && k % f == 0)) [
  | inr q ↦ ground arith
  | inl q ↦
      let small : f * f ≤ k = ground arith in
      let g : k % f ≡ 0 = ground arith in
      let (d, two', lt, less, g') = divisor_of f f e in
      let square : 1 * f ≤ f * f = mul-le-mul (omega arith) (omega arith) in
      let found : has_divisor f k ≡ 1 =
        has_divisor_of f k d two' lt (omega (arith, less, square, small)) (mod_trans k f d g g') in
      ground (arith, found)
]

-- Any other finds its multiples from its square on.
has_divisor-cross :
    (f k : ℕ) → 2 ≤ f → has_divisor (suc f) k ≡ max (has_divisor f k) (reach f (f * f) k)
unfolding has_divisor reach
has_divisor-cross f k two = elim (Bool-cases (leb (f * f) k)) [
  | inr q ↦ ground arith
  | inl q ↦
      let le : f * f ≤ k = leb→le _ _ q in
      let same : k % f ≡ (k - f * f) % f =
        ap (λ i. i % f) (omega (arith, le)) ∙ add-mul-mod_self_right (k - f * f) f f in
      ground (arith, same)
]

square-le : (f n : ℕ) → f ≤ n → f * f ≤ n * n
square-le f n h = mul-le-mul h h

small_root : (f limit : ℕ) → f * f < limit → limit ≤ 2 ^ 31 → f < 65535
small_root f limit h fits = elim (Bool-cases (ltb f 65535)) [
  | inl e ↦ ltb→lt _ _ e
  | inr e ↦ absurd (omega (arith, square-le 65535 f (ltb→ge _ _ e), h, fits))
]

-- The rounds of the outer loop.
module _ (fuel limit : ℕ) (composite : List ℕ) (f : ℕ) (more : ltb (mul32 f f) limit ≡ true) where
  cross_all-skips :
      is_composite composite f ≡ some true
      → cross_all (suc fuel) limit composite f ≡ cross_all fuel limit composite (add32 f 1)
  unfolding cross_all
  cross_all-skips t = rw (cross_all, more) (rw t refl)

  cross_all-crosses :
      (c : List ℕ)
      → is_composite composite f ≡ some false
      → cross_out (suc limit) limit composite (mul32 f f) f ≡ some c
      → cross_all (suc fuel) limit composite f ≡ cross_all fuel limit c (add32 f 1)
  unfolding cross_all
  cross_all-crosses c t e = rw (cross_all, more) (rw t (rw e refl))

pub cross_all_lem :
    (fuel limit : ℕ) (composite : List ℕ) (f : ℕ)
    → length composite ≡ (limit + 7) / 8
    → limit ≤ 2 ^ 31
    → 2 ≤ f
    → f ≤ 65535
    → limit < fuel + f
    → 1 ≤ fuel
    → ((k : ℕ) → k < limit → marked composite k ≡ has_divisor f k)
    → (composite' : List ℕ) × (f' : ℕ) × (cross_all fuel limit composite f ≡ some composite')
      × (length composite' ≡ length composite)
      × (limit ≤ f' * f')
      × ((k : ℕ) → k < limit → marked composite' k ≡ has_divisor f' k)
unfolding cross_all
cross_all_lem zero limit composite f len fits two sixteen enough some_fuel inv =
    absurd (omega arith)
cross_all_lem (suc fuel) limit composite f len fits two sixteen enough some_fuel inv =
    let square : mul32 f f ≡ f * f = mod-eq_of_lt (omega (arith, square-le f 65535 sixteen)) in
    let grows : 1 * f ≤ f * f = mul-le-mul (omega arith) (omega arith) in
    let next : add32 f 1 ≡ suc f = omega arith in
    elim (Bool-cases (ltb (f * f) limit)) [
      | inr e ↦ (composite, f, rw (cross_all, square) (rw e refl), refl, ltb→ge _ _ e, inv)
      | inl e ↦
          let lt : f * f < limit = ltb→lt _ _ e in
          let more : ltb (mul32 f f) limit ≡ true = ap (λ i. ltb i limit) square ∙ e in
          let inside : f < limit = omega (arith, lt, grows) in
          let root : f < 65535 = small_root f limit lt fits in
          let tested : is_composite composite f ≡ some (not (marked composite f == 0)) =
            is_composite_lem composite f (omega (arith, len, inside)) in
          elim (Bool-cases (marked composite f == 0)) [
            | inr m ↦
                let is_one : has_divisor f f ≡ 1 =
                  ground (arith, inv f inside, has_divisor-le f f) in
                let (c, f', e₁, len₁, done, inv₁) =
                  cross_all_lem fuel limit composite (suc f) len fits (omega arith) (omega arith)
                    (omega arith) (omega (arith, enough, inside))
                    (λ k h. inv k h ∙ sym (has_divisor-skip f k two is_one)) in
                (
                  c,
                  f',
                  cross_all-skips fuel limit composite f more (tested ∙ ap (λ b. some (not b)) m)
                      ∙ ap (cross_all fuel limit composite) next
                      ∙ e₁,
                  len₁,
                  done,
                  inv₁,
                )
            | inl m ↦
                let (c₀, e₀, len₀, bits₀) =
                  cross_out_lem (suc limit) limit composite (f * f) f len (omega arith)
                    (omega (arith, fits, root)) (omega arith) (omega arith) in
                let (c, f', e₁, len₁, done, inv₁) =
                  cross_all_lem fuel limit c₀ (suc f) (len₀ ∙ len) fits (omega arith) (omega arith)
                    (omega arith) (omega (arith, enough, inside))
                    (λ k h. omega (arith, bits₀ k h, inv k h, has_divisor-cross f k two)) in
                (
                  c,
                  f',
                  cross_all-crosses fuel limit composite f more c₀
                        (tested ∙ ap (λ b. some (not b)) m)
                        (ap (λ i. cross_out (suc limit) limit composite i f) square ∙ e₀)
                      ∙ ap (cross_all fuel limit c₀) next
                      ∙ e₁,
                  len₁ ∙ len₀,
                  done,
                  inv₁,
                )
          ]
    ]
