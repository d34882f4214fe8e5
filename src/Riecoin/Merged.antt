-- ===== src/Riecoin/Merged.antt =====
-- Merging the workers' sieves: the bits of the result are those of any of them.
use fastrie.Base.{
  ℕ, zero, suc, ◌+◌, ◌-◌, ◌*◌, ◌/◌, ◌%◌, ◌^◌, ◌≤◌, ◌<◌, max, ◌≡◌, ◌≢◌, refl, sym, ap, subst, ◌∙◌,
  some, ◌&&◌, ltb, ltb→lt, ltb→ge, leb, ◌==◌, ==_iff, if◌then◌else◌, List, [], ◌∷◌, ◌++◌, length,
  length-take, length-drop, length-append, take, drop, load, store, le_value, le_bytes,
  length-le_bytes, le_value-le_bytes, bit_or, bit_or-lt, test_bit, test_bit-bit_or, All, Bool-cases,
  inl, inr, arith, le→leb,
}
use fastrie.Riecoin.Merging.{merge_word, merge_all, merge_sieves}
use fastrie.Riecoin.Marks.{byte_at, marked}
use fastrie.Riecoin.WholeScan.{
  AllBytes, byte_at-drop, byte_at-take, AllBytes-drop, AllBytes-take, test_bit-le_value, word_at,
  word_at-lt, test_bit-word_at,
}

-- The largest of the bits.
unfoldable pub marked_in : List (List ℕ) → ℕ → ℕ
marked_in [] k = 0
marked_in (s ∷ ss) k = max (marked s k) (marked_in ss k)

le_bytes-AllBytes : (n v : ℕ) → AllBytes (le_bytes n v)
unfolding le_bytes
le_bytes-AllBytes zero v = tt
le_bytes-AllBytes (suc n) v = (omega arith, le_bytes-AllBytes n (v / 256))

byte_at-front : (xs ys : List ℕ) (j : ℕ) → j < length xs → byte_at (xs ++ ys) j ≡ byte_at xs j
byte_at-front [] ys j h = absurd (omega arith)
byte_at-front (x ∷ xs) ys zero h = refl
byte_at-front (x ∷ xs) ys (suc j) h = byte_at-front xs ys j (omega arith)

byte_at-behind :
    (xs ys : List ℕ) (j : ℕ) → length xs ≤ j → byte_at (xs ++ ys) j ≡ byte_at ys (j - length xs)
byte_at-behind [] ys j h = ap (byte_at ys) (omega arith)
byte_at-behind (x ∷ xs) ys zero h = absurd (omega arith)
byte_at-behind (x ∷ xs) ys (suc j) h =
    byte_at-behind xs ys j (omega arith) ∙ ap (byte_at ys) (omega arith)

AllBytes-append : (xs ys : List ℕ) → AllBytes xs → AllBytes ys → AllBytes (xs ++ ys)
AllBytes-append [] ys a b = b
AllBytes-append (x ∷ xs) ys (p, a) b = (p, AllBytes-append xs ys a b)

-- A sieve in which the word `i` is replaced.
module _ (sieve : List ℕ) (i v : ℕ) (a : AllBytes sieve) (h : 8 * i + 8 ≤ length sieve)
    (small : v < 2 ^ 64) where
  abbrev replaced : List ℕ
  replaced = take (8 * i) sieve ++ (le_bytes 8 v ++ drop (8 * i + 8) sieve)

  front : length (take (8 * i) sieve) ≡ 8 * i
  front = omega (arith, length-take (8 * i) sieve)

  length-replaced : length replaced ≡ length sieve
  length-replaced = omega (
    arith,
    length-append (take (8 * i) sieve) (le_bytes 8 v ++ drop (8 * i + 8) sieve),
    length-append (le_bytes 8 v) (drop (8 * i + 8) sieve),
    length-le_bytes 8 v,
    front,
    length-drop (8 * i + 8) sieve,
  )

  replaced-AllBytes : AllBytes replaced
  replaced-AllBytes =
      AllBytes-append (take (8 * i) sieve) _ (AllBytes-take (8 * i) sieve a) (
        AllBytes-append (le_bytes 8 v) _ (le_bytes-AllBytes 8 v)
          (AllBytes-drop (8 * i + 8) sieve a))

  marked-inside : (k : ℕ) → k / 64 ≡ i → marked replaced k ≡ test_bit v (k % 64)
  unfolding marked
  marked-inside k e =
      ap (λ b. test_bit b (k % 8))
        (byte_at-behind (take (8 * i) sieve) _ (k / 8) (omega (arith, front, e))
          ∙ ap (byte_at (le_bytes 8 v ++ drop (8 * i + 8) sieve)) (omega (arith, front, e))
          ∙ byte_at-front (le_bytes 8 v) _ (k % 64 / 8) (omega (arith, length-le_bytes 8 v)))
      ∙ ap (test_bit (byte_at (le_bytes 8 v) (k % 64 / 8))) (omega arith)
      ∙ sym (
          test_bit-le_value (le_bytes 8 v) (k % 64) (le_bytes-AllBytes 8 v)
            (omega (arith, length-le_bytes 8 v)))
      ∙ ap (λ n. test_bit n (k % 64)) (le_value-le_bytes 8 v (omega arith))

  marked-outside : (k : ℕ) → k / 64 ≢ i → marked replaced k ≡ marked sieve k
  unfolding marked
  marked-outside k ne =
      ap (λ b. test_bit b (k % 8))
        (elim (Bool-cases (ltb (k / 8) (8 * i))) [
          | inl e ↦
              byte_at-front (take (8 * i) sieve) _ (k / 8) (omega (arith, front, ltb→lt _ _ e))
              ∙ byte_at-take (8 * i) (k / 8) sieve (ltb→lt _ _ e)
          | inr e ↦
              let past : 8 * i + 8 ≤ k / 8 = far k ne (ltb→ge _ _ e) in
              byte_at-behind (take (8 * i) sieve) _ (k / 8) (omega (arith, front, past))
              ∙ byte_at-behind (le_bytes 8 v) _ (k / 8 - length (take (8 * i) sieve))
                  (omega (arith, front, past, length-le_bytes 8 v))
              ∙ byte_at-drop (8 * i + 8) _ sieve
              ∙ ap (byte_at sieve) (omega (arith, front, past, length-le_bytes 8 v))
        ])
    where
      far : (k : ℕ) → k / 64 ≢ i → 8 * i ≤ k / 8 → 8 * i + 8 ≤ k / 8
      far k ne le = omega (arith, ne, le)

store_word :
    (sieve : List ℕ) (i v : ℕ)
    → 8 * i + 8 ≤ length sieve
    → store sieve (8 * i) (le_bytes 8 v)
      ≡ some (take (8 * i) sieve ++ (le_bytes 8 v ++ drop (8 * i + 8) sieve))
unfolding store
store_word sieve i v h = rw (length-le_bytes 8 v) (rw (le→leb _ _ h) refl)

load_word :
    (sieve : List ℕ) (i : ℕ)
    → 8 * i + 8 ≤ length sieve
    → load sieve (8 * i) 8 ≡ some (word_at sieve i)
unfolding load
load_word sieve i h = rw (le→leb _ _ h) refl

-- What merging adds: whole words, of `sieve`'s size and in bytes.
pub record Merged (sieve sieve' : List ℕ) (more : ℕ → ℕ) : Type 0 where
  pub bytes : AllBytes sieve'
  pub size : length sieve' ≡ length sieve
  pub bits : (k : ℕ) → marked sieve' k ≡ max (marked sieve k) (more k)

merge_word_lem :
    (sieve : List ℕ) (i : ℕ) (other : List ℕ)
    → AllBytes sieve
    → AllBytes other
    → 8 * i + 8 ≤ length sieve
    → length other ≡ length sieve
    → (sieve' : List ℕ) × (merge_word sieve i other ≡ some sieve')
      × Merged sieve sieve' (λ k. if k / 64 == i then marked other k else 0)
unfolding merge_word
merge_word_lem sieve i other a a' h same =
    let h' : 8 * i + 8 ≤ length other = omega (arith, h, same) in
    let x : ℕ = le_value (word_at sieve i) in
    let y : ℕ = le_value (word_at other i) in
    let small : bit_or x y < 2 ^ 64 =
      bit_or-lt 64 x y (word_at-lt sieve i a (omega (arith, h)))
        (word_at-lt other i a' (omega (arith, h'))) in
    (
      replaced sieve i (bit_or x y) a h small,
      rw (merge_word, load_word sieve i h)
          (rw (load_word other i h') (store_word sieve i (bit_or x y) h)),
      record {
        bytes = replaced-AllBytes sieve i (bit_or x y) a h small;
        size = length-replaced sieve i (bit_or x y) a h small;
        bits = λ k. elim (Bool-cases (k / 64 == i)) [
          | inl e ↦
              let here : k / 64 ≡ i = (==_iff (k / 64) i).0 e in
              let whole : 64 * i + k % 64 ≡ k = omega (arith, here) in
              rw e (
                marked-inside sieve i (bit_or x y) a h small k here
                ∙ test_bit-bit_or x y (k % 64)
                ∙ omega (
                  arith,
                  test_bit-word_at sieve i (k % 64) a (omega (arith, h)) (omega arith),
                  test_bit-word_at other i (k % 64) a' (omega (arith, h')) (omega arith),
                  ap (marked sieve) whole,
                  ap (marked other) whole,
                ))
          | inr e ↦
              rw e (omega (arith, marked-outside sieve i (bit_or x y) a h small k (ground arith)))
        ];
      },
    )

-- The workers' sieves have the master's size.
abbrev pub AllFit : ℕ → List (List ℕ) → Type 0
AllFit n others = All (λ other. AllBytes other × (length other ≡ n)) others

merge_all_lem :
    (sieve : List ℕ) (i : ℕ) (others : List (List ℕ))
    → AllBytes sieve
    → AllFit (length sieve) others
    → 8 * i + 8 ≤ length sieve
    → (sieve' : List ℕ) × (merge_all sieve i others ≡ some sieve')
      × Merged sieve sieve' (λ k. if k / 64 == i then marked_in others k else 0)
unfolding merge_all marked_in
merge_all_lem sieve i [] a fit h =
    (sieve, refl, record { bytes = a; size = refl; bits = λ k. ground arith })
merge_all_lem sieve i (other ∷ others) a ((a', same), fit) h =
    let (sieve₁, e₁, m₁) = merge_word_lem sieve i other a a' h same in
    let (sieve₂, e₂, m₂) =
      merge_all_lem sieve₁ i others m₁.bytes (subst (λ n. AllFit n others) (sym m₁.size) fit)
        (omega (arith, h, m₁.size)) in
    (
      sieve₂,
      rw (merge_all, e₁) e₂,
      record {
        bytes = m₂.bytes;
        size = m₂.size ∙ m₁.size;
        bits = λ k. ground (arith, m₁.bits k, m₂.bits k);
      },
    )

-- The master's loop over `n` words from word `i` on never leaves a sieve, and ends with a sieve of the same
-- size in which a bit of these words is set exactly if it was set in the master's sieve or in a worker's, and
-- all other bits are as they were.
pub merge_sieves_lem :
    (n i : ℕ) (sieve : List ℕ) (others : List (List ℕ))
    → AllBytes sieve
    → AllFit (length sieve) others
    → 8 * (i + n) ≤ length sieve
    → (sieve' : List ℕ) × (merge_sieves sieve n i others ≡ some sieve')
      × Merged sieve sieve'
          (λ k. if leb i (k / 64) && ltb (k / 64) (i + n) then marked_in others k else 0)
unfolding merge_sieves
merge_sieves_lem zero i sieve others a fit h =
    (sieve, refl, record { bytes = a; size = refl; bits = λ k. ground arith })
merge_sieves_lem (suc n) i sieve others a fit h =
    let (sieve₁, e₁, m₁) = merge_all_lem sieve i others a fit (omega (arith, h)) in
    let (sieve₂, e₂, m₂) =
      merge_sieves_lem n (suc i) sieve₁ others m₁.bytes
        (subst (λ n. AllFit n others) (sym m₁.size) fit) (omega (arith, h, m₁.size)) in
    (
      sieve₂,
      rw (merge_sieves, e₁) e₂,
      record {
        bytes = m₂.bytes;
        size = m₂.size ∙ m₁.size;
        bits = λ k. ground (arith, m₁.bits k, m₂.bits k);
      },
    )
