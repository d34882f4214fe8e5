-- ===== src/Riecoin/Wheel.antt =====
-- The table of primes has room for all of them: of 210 numbers in a row only 48 are divisible by none of 2,
-- 3, 5 and 7.
use fastrie.Base.{
  ℕ, zero, suc, ◌+◌, ◌-◌, ◌*◌, ◌/◌, ◌%◌, ◌≤◌, ◌<◌, ◌≡◌, refl, ap, ◌∙◌, Bool, true, false, ◌&&◌,
  ◌||◌, not, ltb, ltb→lt, ltb→ge, leb, leb→le, ◌==◌, ==_iff, if◌then◌else◌, Bool-cases, inl, inr,
  arith,
}

abbrev coprime : ℕ → Bool
coprime n = not (n % 2 == 0) && (not (n % 3 == 0) && (not (n % 5 == 0) && not (n % 7 == 0)))

abbrev pub small_prime : ℕ → Bool
small_prime n = n == 2 || (n == 3 || (n == 5 || n == 7))

-- What may be a prime.
abbrev pub candidate : ℕ → ℕ
candidate n = if small_prime n || coprime n then 1 else 0

unfoldable coprimes : ℕ → ℕ
coprimes zero = 0
coprimes (suc n) = coprimes n + (if coprime n then 1 else 0)

unfoldable pub candidates : ℕ → ℕ
candidates zero = 0
candidates (suc n) = candidates n + candidate n

-- A test of all numbers below a bound.
every : (ℕ → Bool) → ℕ → Bool
every test zero = true
every test (suc n) = if test n then every test n else false

every-at : (test : ℕ → Bool) (n k : ℕ) → k < n → every test n ≡ true → test k ≡ true
unfolding every
every-at test zero k h e = absurd (omega arith)
every-at test (suc n) k h e = elim (Bool-cases (k == n)) [
  | inl q ↦ ap test ((==_iff k n).0 q) ∙ ground (arith, e)
  | inr q ↦ every-at test n k (ground arith) (ground (arith, e))
]

abbrev few_coprimes : ℕ → Bool
few_coprimes n = leb (coprimes n) (n / 4 + 6)

first_turn : every few_coprimes 210 ≡ true
unfolding every coprimes
first_turn = refl

coprime-turn : (n : ℕ) → coprime (210 + n) ≡ coprime n
coprime-turn n = rw (two n, three n, five n, seven n) refl
  where
    two : (n : ℕ) → (210 + n) % 2 ≡ n % 2
    two n = omega arith

    three : (n : ℕ) → (210 + n) % 3 ≡ n % 3
    three n = omega arith

    five : (n : ℕ) → (210 + n) % 5 ≡ n % 5
    five n = omega arith

    seven : (n : ℕ) → (210 + n) % 7 ≡ n % 7
    seven n = omega arith

coprimes_turn : (n : ℕ) → coprimes (210 + n) ≡ coprimes n + 48
unfolding coprimes
coprimes_turn zero = refl
coprimes_turn (suc n) =
    ap coprimes (next n)
    ∙ omega (arith, coprimes_turn n, ap {B = ℕ} (λ b. if b then 1 else 0) (coprime-turn n))
  where
    next : (n : ℕ) → 210 + suc n ≡ suc (210 + n)
    next n = omega arith

coprimes_few : (turns n : ℕ) → n < 210 * suc turns → coprimes n ≤ n / 4 + 6
coprimes_few zero n h = leb→le _ _ (every-at few_coprimes 210 n (omega arith) first_turn)
coprimes_few (suc turns) n h = elim (Bool-cases (ltb n 210)) [
  | inl e ↦ leb→le _ _ (every-at few_coprimes 210 n (ltb→lt _ _ e) first_turn)
  | inr e ↦
      let ge : 210 ≤ n = ltb→ge _ _ e in
      let split : n ≡ 210 + (n - 210) = omega arith in
      omega (
        arith,
        ap coprimes split,
        coprimes_turn (n - 210),
        coprimes_few turns (n - 210) (omega arith),
      )
]

-- The small primes below `n`.
abbrev fours : ℕ → ℕ
fours n =
    (if ltb 2 n then 1 else 0)
    + (if ltb 3 n then 1 else 0)
    + (if ltb 5 n then 1 else 0)
    + (if ltb 7 n then 1 else 0)

fours_few : (n : ℕ) → fours n ≤ 4
fours_few n = ground arith

-- A number adds to the small primes or to the others.
one_more :
    (n : ℕ) (b : Bool)
    → (if small_prime n || b then 1 else 0) + fours n ≤ (if b then 1 else 0) + fours (suc n)
one_more n true = ground arith
one_more n false = ground arith

candidates-le : (n : ℕ) → candidates n ≤ coprimes n + fours n
unfolding candidates coprimes
candidates-le zero = omega arith
candidates-le (suc n) = omega (arith, candidates-le n, one_more n (coprime n))

pub candidates_few : (n : ℕ) → candidates n ≤ n / 4 + 10
candidates_few n = omega (arith, candidates-le n, fours_few n, coprimes_few n n (omega arith))
