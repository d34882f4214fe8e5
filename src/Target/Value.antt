-- ===== src/Target/Value.antt =====
-- The number that a target stands for.
use fastrie.Base.{
  ℕ, zero, suc, ◌+◌, ◌-◌, ◌*◌, ◌/◌, ◌%◌, ◌^◌, ◌≤◌, ◌<◌, ◌≡◌, refl, ◌∙◌, ap, bit_or,
  bit_or_fields_high, test_bit, leb, ◌==◌, if◌then◌else◌, arith, Bool, Bool-cases, inl, inr, true,
  false,
}
use fastrie.Target.Compact.{
  HashTarget, shift_word, shift_byte, shift_bytes, low_word, target_from_compact,
}
use native.Mathlib.Nat.{pow-suc}

pub record IsTarget (t : HashTarget) : Type 0 where
  b0 : t.w0 < 2 ^ 32
  pub b1 : t.w1 < 2 ^ 32
  pub b2 : t.w2 < 2 ^ 32
  b3 : t.w3 < 2 ^ 32
  b4 : t.w4 < 2 ^ 32
  b5 : t.w5 < 2 ^ 32
  b6 : t.w6 < 2 ^ 32
  b7 : t.w7 < 2 ^ 32

unfoldable pub value : HashTarget → ℕ
value t =
    t.w0
    + t.w1 * 2 ^ 32
    + t.w2 * 2 ^ 64
    + t.w3 * 2 ^ 96
    + t.w4 * 2 ^ 128
    + t.w5 * 2 ^ 160
    + t.w6 * 2 ^ 192
    + t.w7 * 2 ^ 224

shift_word_sum :
    (high low : ℕ) → low < 2 ^ 32 → shift_word high low ≡ high % 2 ^ 24 * 256 + low / 2 ^ 24
unfolding shift_word
shift_word_sum high low h =
    ap (λ n. bit_or n (low / 2 ^ 24)) cut
    ∙ bit_or_fields_high 8 (high % 2 ^ 24) (low / 2 ^ 24) (omega arith)
  where
    cut : high * 256 % 2 ^ 32 ≡ high % 2 ^ 24 * 2 ^ 8
    cut = omega arith

shift_byte-IsTarget : (t : HashTarget) → IsTarget t → IsTarget (shift_byte t)
unfolding shift_byte
shift_byte-IsTarget t v = record {
  b0 = omega arith;
  b1 = omega (arith, shift_word_sum t.w1 t.w0 v.b0);
  b2 = omega (arith, shift_word_sum t.w2 t.w1 v.b1);
  b3 = omega (arith, shift_word_sum t.w3 t.w2 v.b2);
  b4 = omega (arith, shift_word_sum t.w4 t.w3 v.b3);
  b5 = omega (arith, shift_word_sum t.w5 t.w4 v.b4);
  b6 = omega (arith, shift_word_sum t.w6 t.w5 v.b5);
  b7 = omega (arith, shift_word_sum t.w7 t.w6 v.b6);
}

-- One round multiplies by 256 and drops what leaves the eight words.
value-shift_byte :
    (t : HashTarget) → IsTarget t → value (shift_byte t) + t.w7 / 2 ^ 24 * 2 ^ 256 ≡ value t * 256
unfolding shift_byte value
value-shift_byte t v = omega (
  arith,
  shift_word_sum t.w1 t.w0 v.b0,
  shift_word_sum t.w2 t.w1 v.b1,
  shift_word_sum t.w3 t.w2 v.b2,
  shift_word_sum t.w4 t.w3 v.b3,
  shift_word_sum t.w5 t.w4 v.b4,
  shift_word_sum t.w6 t.w5 v.b5,
  shift_word_sum t.w7 t.w6 v.b6,
)

value-lt : (t : HashTarget) → IsTarget t → value t < 2 ^ 256
unfolding value
value-lt t v = omega arith

value-shift_bytes :
    (n : ℕ) (t : HashTarget) → IsTarget t → value (shift_bytes n t) ≡ value t * 256 ^ n % 2 ^ 256
unfolding shift_bytes
value-shift_bytes zero t v = omega (arith, value-lt t v)
value-shift_bytes (suc n) t v = value-shift_bytes n (shift_byte t) (shift_byte-IsTarget t v) ∙ carry
  where
    carry : value (shift_byte t) * 256 ^ n % 2 ^ 256 ≡ value t * 256 ^ suc n % 2 ^ 256
    carry = omega (
      arith,
      ap (λ (x : ℕ). x * 256 ^ n) (value-shift_byte t v),
      ap (λ (x : ℕ). value t * x) (pow-suc 256 n),
    )

-- What the compact form stands for, in exact arithmetic: `word * 256 ^ (size - 3)`, rounded down.
unfoldable pub compact_value : ℕ → ℕ → ℕ
compact_value size word =
    if leb size 3 then word / 2 ^ (8 * (3 - size)) else word * 256 ^ (size - 3)

-- The words are in range, and stand for `n`.
abbrev StandsFor : HashTarget → ℕ → Type 0
StandsFor t n = IsTarget t × (value t ≡ n)

if-StandsFor :
    (b : Bool) (s t : HashTarget) (m n : ℕ)
    → (b ≡ true → StandsFor s m)
    → (b ≡ false → StandsFor t n)
    → StandsFor (if b then s else t) (if b then m else n)
if-StandsFor true s t m n hs ht = hs refl
if-StandsFor false s t m n hs ht = ht refl

low_word-StandsFor : (w : ℕ) → w < 2 ^ 32 → StandsFor (low_word w) w
unfolding low_word value
low_word-StandsFor w h = omega arith

shift_bytes-IsTarget : (n : ℕ) (t : HashTarget) → IsTarget t → IsTarget (shift_bytes n t)
unfolding shift_bytes
shift_bytes-IsTarget zero t v = v
shift_bytes-IsTarget (suc n) t v = shift_bytes-IsTarget n (shift_byte t) (shift_byte-IsTarget t v)

shifted-StandsFor :
    (n w : ℕ) → w < 2 ^ 32 → StandsFor (shift_bytes n (low_word w)) (w * 256 ^ n % 2 ^ 256)
shifted-StandsFor n w h =
    let (low, e) = low_word-StandsFor w h in
    (
      shift_bytes-IsTarget n (low_word w) low,
      value-shift_bytes n (low_word w) low ∙ ap (λ x. x * 256 ^ n % 2 ^ 256) e,
    )

div-le : (w d : ℕ) → w / d ≤ w
div-le w d = grind arith

magnitude :
    (size word : ℕ)
    → word < 2 ^ 23
    → StandsFor
        (if leb size 3
          then low_word (word / 2 ^ (8 * (3 - size)))
          else shift_bytes (size - 3) (low_word word))
        (compact_value size word % 2 ^ 256)
unfolding compact_value
magnitude size word h = elim (Bool-cases (leb size 3)) [
  | inl e ↦ rw e (small (word / 2 ^ (8 * (3 - size))) (div-le word (2 ^ (8 * (3 - size)))))
  | inr e ↦ rw e (shifted-StandsFor (size - 3) word (omega arith))
]
  where
    small : (w : ℕ) → w ≤ word → StandsFor (low_word w) (w % 2 ^ 256)
    small w le = let (low, e) = low_word-StandsFor w (omega arith) in (low, e ∙ omega arith)

-- On every 32-bit compact value: the target is the number that the form stands for, cut to 256 bits;
-- with the sign bit set it is zero. Its eight words are 32-bit words.
pub target_from_compact_lem :
    (compact : ℕ)
    → compact < 2 ^ 32
    → IsTarget (target_from_compact compact)
      × (value (target_from_compact compact) ≡ (
          if test_bit compact 23 == 1
          then 0
          else compact_value (compact / 2 ^ 24) (compact % 2 ^ 23) % 2 ^ 256))
unfolding target_from_compact
target_from_compact_lem compact h =
    if-StandsFor (test_bit compact 23 == 1) _ _ _ _ (λ _. low_word-StandsFor 0 (omega arith))
      (λ _. magnitude (compact / 2 ^ 24) (compact % 2 ^ 23) (omega arith))
