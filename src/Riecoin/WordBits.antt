-- ===== src/Riecoin/WordBits.antt =====
-- The bits of a 64-bit word: clearing the highest, the complement, and the bytes that a word is made of.
use fastrie.Base.{
  ℕ, zero, suc, ◌+◌, ◌-◌, ◌*◌, ◌/◌, ◌^◌, ◌≤◌, ◌<◌, ◌≡◌, ap, ◌∙◌, bit_and, bit_and_step,
  bit_and-none, none-bit_and, test_bit, ltb, ltb→lt, ltb→ge, ◌==◌, if◌then◌else◌, Bool-cases, inl,
  inr, arith,
}
use native.Mathlib.Nat.{pow-suc, pow-le-pow_right, mul_assoc}
use fastrie.Riecoin.Scan.{leading_zeros}

-- `x & ~(1 << h)`, where bit `h` is the highest of `x`.
pub clear_high :
    (w h x : ℕ) → h < w → 2 ^ h ≤ x → x < 2 ^ suc h → bit_and x (2 ^ w - 1 - 2 ^ h) ≡ x - 2 ^ h
clear_high zero h x hw lo hi = absurd (omega arith)
clear_high (suc w) zero x hw lo hi =
    ap (λ n. bit_and n (2 ^ suc w - 1 - 1)) one
    ∙ omega (
      arith,
      one,
      pow-suc 2 w,
      bit_and_step 1 (2 ^ suc w - 1 - 1),
      none-bit_and ((2 ^ suc w - 1 - 1) / 2),
    )
  where
    one : x ≡ 1
    one = omega arith
clear_high (suc w) (suc h) x hw lo hi = omega (
  arith,
  pow-suc 2 w,
  pow-suc 2 h,
  bit_and_step x (2 ^ suc w - 1 - 2 ^ suc h),
  ap (λ n. bit_and (x / 2) n) half,
  clear_high w h (x / 2) (omega arith) (omega (arith, pow-suc 2 h))
      (omega (arith, pow-suc 2 (suc h))),
  pow-mono,
)
  where
    pow-mono : 2 ^ suc h ≤ 2 ^ w
    pow-mono = pow-le-pow_right (omega arith) (omega arith)

    half : (2 ^ suc w - 1 - 2 ^ suc h) / 2 ≡ 2 ^ w - 1 - 2 ^ h
    half = omega (arith, pow-suc 2 w, pow-suc 2 h)

pub test_bit-high :
    (h x k : ℕ)
    → 2 ^ h ≤ x
    → x < 2 ^ suc h
    → test_bit x k ≡ test_bit (x - 2 ^ h) k + (if k == h then 1 else 0)
unfolding test_bit
test_bit-high zero x zero lo hi = omega arith
test_bit-high zero x (suc k) lo hi = ground (arith, ap (λ n. test_bit n k) same)
  where
    same : x / 2 ≡ (x - 1) / 2
    same = omega arith
test_bit-high (suc h) x zero lo hi = ground (arith, pow-suc 2 h)
test_bit-high (suc h) x (suc k) lo hi = ground (
  arith,
  ap (λ n. test_bit n k) half,
  test_bit-high h (x / 2) k (omega (arith, pow-suc 2 h)) (omega (arith, pow-suc 2 (suc h))),
)
  where
    half : x / 2 - 2 ^ h ≡ (x - 2 ^ suc h) / 2
    half = omega (arith, pow-suc 2 h)

-- The highest bit, by the leading zeros.
pub leading_zeros_lem :
    (n x : ℕ)
    → 0 < x
    → x < 2 ^ n
    → (h : ℕ) × (h + 1 + leading_zeros n x ≡ n) × (2 ^ h ≤ x) × (x < 2 ^ suc h)
unfolding leading_zeros
leading_zeros_lem zero x pos h = absurd (omega arith)
leading_zeros_lem (suc n) x pos h = elim (Bool-cases (ltb x (2 ^ n))) [
  | inl e ↦
      let (j, place, lo, hi) = leading_zeros_lem n x pos (ltb→lt _ _ e) in
      (j, rw e (omega (arith, place)), lo, hi)
  | inr e ↦ (n, rw e (omega arith), ltb→ge _ _ e, h)
]

pub test_bit-not : (n x k : ℕ) → x < 2 ^ n → k < n → test_bit (2 ^ n - 1 - x) k ≡ 1 - test_bit x k
unfolding test_bit
test_bit-not zero x k h hk = absurd (omega arith)
test_bit-not (suc n) x zero h hk = omega (arith, pow-suc 2 n)
test_bit-not (suc n) x (suc k) h hk =
    ap (λ m. test_bit m k) half
    ∙ test_bit-not n (x / 2) k (omega (arith, pow-suc 2 n)) (omega arith)
  where
    half : (2 ^ suc n - 1 - x) / 2 ≡ 2 ^ n - 1 - x / 2
    half = omega (arith, pow-suc 2 n)

pub test_bit-low : (n b v k : ℕ) → k < n → test_bit (b + 2 ^ n * v) k ≡ test_bit b k
unfolding test_bit
test_bit-low zero b v k h = absurd (omega arith)
test_bit-low (suc n) b v zero h =
    omega (arith, ap (λ m. m * v) (pow-suc 2 n), mul_assoc 2 (2 ^ n) v)
test_bit-low (suc n) b v (suc k) h =
    ap (λ m. test_bit m k) (omega (arith, ap (λ m. m * v) (pow-suc 2 n), mul_assoc 2 (2 ^ n) v))
    ∙ test_bit-low n (b / 2) v k (omega arith)

pub test_bit-shift : (x k : ℕ) → test_bit x (8 + k) ≡ test_bit (x / 256) k
unfolding test_bit
test_bit-shift x k = rw (towards k) (ap (λ m. test_bit m k) (omega arith))
  where
    towards : (k : ℕ) → 8 + k ≡ suc (suc (suc (suc (suc (suc (suc (suc k)))))))
    towards k = omega arith

-- `x & (1 << j)`
pub bit_and-pow : (j x : ℕ) → bit_and x (2 ^ j) ≡ test_bit x j * 2 ^ j
unfolding test_bit
bit_and-pow zero x = omega (arith, bit_and_step x 1, bit_and-none (x / 2))
bit_and-pow (suc j) x = omega (
  arith,
  bit_and_step x (2 ^ suc j),
  ap (λ m. bit_and (x / 2) m) half,
  bit_and-pow j (x / 2),
  pow-suc 2 j,
  ap (λ (m : ℕ). test_bit (x / 2) j * m) (pow-suc 2 j),
)
  where
    half : 2 ^ suc j / 2 ≡ 2 ^ j
    half = omega (arith, pow-suc 2 j)
