-- ===== src/Base/Bits.antt =====
-- Bits of a number, and `|` on them, at every width.
use Prim.Native.Nat.{
  ℕ, zero, suc, ◌+◌, ◌*◌, ◌/◌, ◌%◌, ◌^◌, ◌≤◌, ◌<◌, min, max, bit_and, bit_or, digits, bitwise,
  bit_or-bitwise, bit_and-bitwise,
}
use mathlib.Core.Path.{◌≡◌, refl, sym, ap, ◌∙◌}
use mathlib.Core.Logic.{◌≢◌}
use native.Mathlib.Omega.{arith}
use native.Mathlib.Nat.{pow-suc}

-- `(a >> k) & 1`
unfoldable pub test_bit : ℕ → ℕ → ℕ
test_bit a zero = a % 2
test_bit a (suc k) = test_bit (a / 2) k

-- The recursion over the digits, for any operation on two digits: the count of digits to go does not
-- matter as long as it covers the first number, so the lowest digit can be split off.
module _ (rest : ℕ → ℕ) (op : ℕ → ℕ → ℕ) where
  digits_done : (n a b : ℕ) → a ≡ 0 → digits rest op n a b ≡ rest b
  digits_done zero a b e = refl
  digits_done (suc n) zero b e = refl
  digits_done (suc n) (suc a) b e = absurd (omega (arith, e))

  digits_count : (n m a b : ℕ) → a ≤ n → a ≤ m → digits rest op n a b ≡ digits rest op m a b
  digits_count zero m a b low high = sym (digits_done m a b (omega arith))
  digits_count (suc n) zero a b low high = digits_done (suc n) a b (omega arith)
  digits_count (suc n) (suc m) zero b low high = refl
  digits_count (suc n) (suc m) (suc a) b low high =
      ap (λ t. t * 2 + op (suc a % 2) (b % 2))
        (digits_count n m (suc a / 2) (b / 2) (omega arith) (omega arith))

  bitwise_step :
      (a b : ℕ)
      → bitwise rest op (suc a) b ≡ bitwise rest op (suc a / 2) (b / 2) * 2 + op (suc a % 2) (b % 2)
  bitwise_step a b =
      ap (λ t. t * 2 + op (suc a % 2) (b % 2))
        (digits_count a (suc a / 2) (suc a / 2) (b / 2) (omega arith) (omega arith))

zero-bit_or : (b : ℕ) → bit_or 0 b ≡ b
zero-bit_or b = bit_or-bitwise 0 b

bit_or_step : (a b : ℕ) → bit_or a b ≡ bit_or (a / 2) (b / 2) * 2 + max (a % 2) (b % 2)
bit_or_step zero b = omega (arith, zero-bit_or b, zero-bit_or (b / 2))
bit_or_step (suc a) b =
    bit_or-bitwise (suc a) b
    ∙ bitwise_step (λ c. c) max a b
    ∙ ap (λ t. t * 2 + max (suc a % 2) (b % 2)) (sym (bit_or-bitwise (suc a / 2) (b / 2)))

pub bit_and_step : (a b : ℕ) → bit_and a b ≡ bit_and (a / 2) (b / 2) * 2 + min (a % 2) (b % 2)
bit_and_step zero b = omega (arith, bit_and-bitwise 0 b, bit_and-bitwise 0 (b / 2))
bit_and_step (suc a) b =
    bit_and-bitwise (suc a) b
    ∙ bitwise_step (λ c. 0) min a b
    ∙ ap (λ t. t * 2 + min (suc a % 2) (b % 2)) (sym (bit_and-bitwise (suc a / 2) (b / 2)))

-- Nothing is left of `0 & b` and of `a & 0`.
pub none-bit_and : (b : ℕ) → bit_and 0 b ≡ 0
none-bit_and b = bit_and-bitwise 0 b

pub bit_and-none : (a : ℕ) → bit_and a 0 ≡ 0
bit_and-none a = bit_and-bitwise a 0 ∙ cleared a a
  where
    cleared : (n a : ℕ) → digits (λ c. 0) min n a 0 ≡ 0
    cleared zero a = refl
    cleared (suc n) zero = refl
    cleared (suc n) (suc a) = omega (arith, cleared n (suc a / 2))

-- The bits of `a | b` are the larger of the bits.
pub test_bit-bit_or : (a b k : ℕ) → test_bit (bit_or a b) k ≡ max (test_bit a k) (test_bit b k)
unfolding test_bit
test_bit-bit_or a b zero = omega (arith, bit_or_step a b)
test_bit-bit_or a b (suc k) = ap (λ n. test_bit n k) half ∙ test_bit-bit_or (a / 2) (b / 2) k
  where
    half : bit_or a b / 2 ≡ bit_or (a / 2) (b / 2)
    half = omega (arith, bit_or_step a b)

pub test_bit-zero : (k : ℕ) → test_bit 0 k ≡ 0
unfolding test_bit
test_bit-zero zero = refl
test_bit-zero (suc k) = test_bit-zero k

pow-half : (j : ℕ) → 2 ^ suc j / 2 ≡ 2 ^ j
pow-half j = omega (arith, pow-suc 2 j)

-- `1 << j` has bit `j` and no other.
pub test_bit-pow_self : (j : ℕ) → test_bit (2 ^ j) j ≡ 1
unfolding test_bit
test_bit-pow_self zero = refl
test_bit-pow_self (suc j) = ap (λ n. test_bit n j) (pow-half j) ∙ test_bit-pow_self j

pub test_bit-pow_ne : (j k : ℕ) → j ≢ k → test_bit (2 ^ j) k ≡ 0
unfolding test_bit
test_bit-pow_ne zero zero h = absurd (h refl)
test_bit-pow_ne zero (suc k) h = test_bit-zero k
test_bit-pow_ne (suc j) zero h = omega (arith, pow-suc 2 j)
test_bit-pow_ne (suc j) (suc k) h =
    ap (λ n. test_bit n k) (pow-half j) ∙ test_bit-pow_ne j k (λ e. h (ap suc e))

bit_or-zero_fuel : (n a : ℕ) → a ≤ n → bit_or a 0 ≡ a
bit_or-zero_fuel n zero h = refl
bit_or-zero_fuel zero (suc a) h = absurd (omega arith)
bit_or-zero_fuel (suc n) (suc a) h =
    omega (arith, bit_or_step (suc a) 0, bit_or-zero_fuel n (suc a / 2) (omega arith))

-- `r | (q << k)` is a sum where `r` fits `k` bits.
pub bit_or_fields : (k r q : ℕ) → r < 2 ^ k → bit_or r (q * 2 ^ k) ≡ r + q * 2 ^ k
bit_or_fields zero r q h =
    ap (λ n. bit_or n (q * 2 ^ 0)) only_zero ∙ zero-bit_or (q * 2 ^ 0) ∙ omega arith
  where
    only_zero : r ≡ 0
    only_zero = omega arith
bit_or_fields (suc k) r q h =
    ap (λ n. bit_or r n) double
    ∙ omega
        (arith, bit_or_step r (2 * (q * 2 ^ k)), halved, double, bit_or_fields k (r / 2) q small)
  where
    double : q * 2 ^ suc k ≡ 2 * (q * 2 ^ k)
    double = omega (arith, ap (λ (t : ℕ). q * t) (pow-suc 2 k))

    small : r / 2 < 2 ^ k
    small = omega (arith, pow-suc 2 k)

    halved : bit_or (r / 2) (2 * (q * 2 ^ k) / 2) ≡ bit_or (r / 2) (q * 2 ^ k)
    halved = ap (λ n. bit_or (r / 2) n) (omega arith)

-- The same with the fields the other way round.
pub bit_or_fields_high : (k q r : ℕ) → r < 2 ^ k → bit_or (q * 2 ^ k) r ≡ q * 2 ^ k + r
bit_or_fields_high zero q r h =
    ap (λ n. bit_or (q * 2 ^ 0) n) only_zero
    ∙ bit_or-zero_fuel (q * 2 ^ 0) (q * 2 ^ 0) (omega arith)
    ∙ omega arith
  where
    only_zero : r ≡ 0
    only_zero = omega arith
bit_or_fields_high (suc k) q r h =
    ap (λ n. bit_or n r) double
    ∙ omega (
      arith,
      bit_or_step (2 * (q * 2 ^ k)) r,
      halved,
      double,
      bit_or_fields_high k q (r / 2) small,
    )
  where
    double : q * 2 ^ suc k ≡ 2 * (q * 2 ^ k)
    double = omega (arith, ap (λ (t : ℕ). q * t) (pow-suc 2 k))

    small : r / 2 < 2 ^ k
    small = omega (arith, pow-suc 2 k)

    halved : bit_or (2 * (q * 2 ^ k) / 2) (r / 2) ≡ bit_or (q * 2 ^ k) (r / 2)
    halved = ap (λ n. bit_or n (r / 2)) (omega arith)

-- `|` stays within the width of its operands.
pub bit_or-lt : (n a b : ℕ) → a < 2 ^ n → b < 2 ^ n → bit_or a b < 2 ^ n
bit_or-lt zero a b h k = omega (arith, ap (λ m. bit_or m b) none_a, zero-bit_or b)
  where
    none_a : a ≡ 0
    none_a = omega arith
bit_or-lt (suc n) a b h k = omega (
  arith,
  bit_or_step a b,
  pow-suc 2 n,
  bit_or-lt n (a / 2) (b / 2) (omega (arith, pow-suc 2 n)) (omega (arith, pow-suc 2 n)),
)
