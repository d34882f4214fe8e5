-- ===== src/Base/Words.antt =====
-- Machine words as native numbers, and little-endian memory: a load and a store that fail outside
-- the block, and the value of a run of bytes.
use Prim.Native.Nat.{ℕ, zero, suc, ◌+◌, ◌-◌, ◌*◌, ◌/◌, ◌%◌, ◌^◌, ◌≤◌, ◌<◌}
use mathlib.Core.Path.{◌≡◌, refl, ap, ◌∙◌}
use mathlib.Core.List.{List, [], ◌∷◌, ◌++◌}
use mathlib.Core.Option.{Option, none, some}
use native.Mathlib.Omega.{arith}
use native.Mathlib.Nat.{pow-suc, zero-add}
use fastrie.Base.Tests.{leb, le→leb, if◌then◌else◌}
use fastrie.Base.Lists.{
  length, take, drop, All, length-append, length-take, length-drop, take-append_length,
  drop-append_length,
}

abbrev IsByte : ℕ → Type 0
IsByte b = b < 256

-- uint32 `a + b` and `a - b`.
abbrev pub add32 : ℕ → ℕ → ℕ
add32 a b = (a + b) % 2 ^ 32

abbrev pub sub32 : ℕ → ℕ → ℕ
sub32 a b = (a + 2 ^ 32 - b) % 2 ^ 32

-- The value of a run of bytes in the memory of a little-endian machine, and the bytes of a value.
unfoldable pub le_value : List ℕ → ℕ
le_value [] = 0
le_value (b ∷ bs) = b + 256 * le_value bs

unfoldable pub le_bytes : ℕ → ℕ → List ℕ
le_bytes zero v = []
le_bytes (suc n) v = v % 256 ∷ le_bytes n (v / 256)

-- A read and a write of a block of memory. `none` is an access that leaves the block.
unfoldable pub load : List ℕ → ℕ → ℕ → Option (List ℕ)
load buf i n = if leb (i + n) (length buf) then some (take n (drop i buf)) else none

unfoldable pub store : List ℕ → ℕ → List ℕ → Option (List ℕ)
store buf i bs =
    if leb (i + length bs) (length buf)
    then some (take i buf ++ (bs ++ drop (i + length bs) buf))
    else none

pub length-le_bytes : (n v : ℕ) → length (le_bytes n v) ≡ n
unfolding le_bytes
length-le_bytes zero v = refl
length-le_bytes (suc n) v = ap suc (length-le_bytes n (v / 256))

le_bytes-IsByte : (n v : ℕ) → All IsByte (le_bytes n v)
unfolding le_bytes
le_bytes-IsByte zero v = tt
le_bytes-IsByte (suc n) v = (omega arith, le_bytes-IsByte n (v / 256))

pub le_value-le_bytes : (n v : ℕ) → v < 256 ^ n → le_value (le_bytes n v) ≡ v
unfolding le_value le_bytes
le_value-le_bytes zero v h = omega arith
le_value-le_bytes (suc n) v h =
    omega (arith, pow-suc 256 n, le_value-le_bytes n (v / 256) (omega (arith, pow-suc 256 n)))

pub le_value-lt : (bs : List ℕ) → All IsByte bs → le_value bs < 256 ^ length bs
unfolding le_value
le_value-lt [] h = omega arith
le_value-lt (b ∷ bs) h = omega (arith, pow-suc 256 (length bs), le_value-lt bs h.1)

drop-append {ℓ} :
    {A : Type ℓ} (xs ys : List A) (i k : ℕ) → i ≡ length xs + k → drop i (xs ++ ys) ≡ drop k ys
drop-append [] ys i k e = ap (λ j. drop j ys) (e ∙ zero-add k)
drop-append (x ∷ xs) ys i k e =
    ap (λ j. drop j (x ∷ (xs ++ ys))) suc_form ∙ drop-append xs ys (length xs + k) k refl
  where
    suc_form : i ≡ suc (length xs + k)
    suc_form = omega arith

load_fits :
    (buf : List ℕ) (i n : ℕ) → i + n ≤ length buf → load buf i n ≡ some (take n (drop i buf))
unfolding load
load_fits buf i n h = rw (le→leb _ _ h) refl

store_fits :
    (buf : List ℕ) (i : ℕ) (bs : List ℕ)
    → i + length bs ≤ length buf
    → store buf i bs ≡ some (take i buf ++ (bs ++ drop (i + length bs) buf))
unfolding store
store_fits buf i bs h = rw (le→leb _ _ h) refl

-- Reading what lies behind `front`.
pub load-append :
    (front bs rest : List ℕ) (i n : ℕ)
    → i ≡ length front
    → n ≡ length bs
    → load (front ++ (bs ++ rest)) i n ≡ some bs
load-append front bs rest i n ei en =
    load_fits (front ++ (bs ++ rest)) i n
      (omega (arith, length-append front (bs ++ rest), length-append bs rest))
    ∙ rw (ei, en, drop-append_length front (bs ++ rest), take-append_length bs rest)

-- Overwriting what lies behind `front`.
pub store-append :
    (front rest bs : List ℕ) (i : ℕ)
    → i ≡ length front
    → length bs ≤ length rest
    → store (front ++ rest) i bs ≡ some (front ++ (bs ++ drop (length bs) rest))
store-append front rest bs i e h =
    store_fits (front ++ rest) i bs (omega (arith, length-append front rest))
    ∙ rw (
      drop-append front rest (i + length bs) (length bs) (omega arith),
      e,
      take-append_length front rest,
    )

-- An access inside the block succeeds, and a write keeps its length.
pub load_inside :
    (buf : List ℕ) (i n : ℕ)
    → i + n ≤ length buf
    → (bs : List ℕ) × (load buf i n ≡ some bs) × (length bs ≡ n)
unfolding load
load_inside buf i n h = (
  take n (drop i buf),
  rw (le→leb _ _ h) refl,
  omega (arith, length-take n (drop i buf), length-drop i buf),
)

pub store_inside :
    (buf : List ℕ) (i : ℕ) (bs : List ℕ)
    → i + length bs ≤ length buf
    → (buf' : List ℕ) × (store buf i bs ≡ some buf') × (length buf' ≡ length buf)
unfolding store
store_inside buf i bs h = (
  take i buf ++ (bs ++ drop (i + length bs) buf),
  rw (le→leb _ _ h) refl,
  omega (
    arith,
    length-append (take i buf) (bs ++ drop (i + length bs) buf),
    length-append bs (drop (i + length bs) buf),
    length-take i buf,
    length-drop (i + length bs) buf,
  ),
)

-- What an access that succeeds shows.
load-some :
    (buf : List ℕ) (i n : ℕ) {bs : List ℕ}
    → load buf i n ≡ some bs
    → (i + n ≤ length buf) × (length bs ≡ n)
unfolding load
load-some buf i n e = ground (arith, length-take n (drop i buf), length-drop i buf)
