-- ===== src/Riecoin/WholeScan.antt =====
-- The scan over all words of the sieve.
use fastrie.Base.{
  ℕ, zero, suc, ◌+◌, ◌-◌, ◌*◌, ◌/◌, ◌%◌, ◌^◌, ◌≤◌, ◌<◌, ◌≡◌, ◌⊎◌, refl, ap, ◌∙◌, true, false, ◌&&◌,
  Option, none, some, List, [], ◌∷◌, length, All, ltb, ltb→lt, ltb→ge, leb, ◌==◌, ==_iff,
  if◌then◌else◌, load, le_value, take, drop, test_bit, arith, length-take, length-drop, le_value-lt,
  Bool-cases, inl, inr, le→leb,
}
use fastrie.Riecoin.Scan.{
  Others, Scan, not64, scan_word, scan_words, push_work, push_rest, start_scan, scan_sieve,
}
use fastrie.Riecoin.Marks.{byte_at, marked}
use fastrie.Riecoin.Sorting.{occurrences}
use fastrie.Riecoin.Candidates.{
  Hands-join, IsSteady, IsStopped, times_pushed, IsBatch, handed, IsScan, Hands, bits,
  scan_word_lem, push_work_lem, next_round,
}
use fastrie.Riecoin.WordBits.{test_bit-not, test_bit-low, test_bit-shift}

abbrev pub AllBytes : List ℕ → Type 0
AllBytes bs = All (λ b. b < 256) bs

pub byte_at-drop : (i j : ℕ) (bs : List ℕ) → byte_at (drop i bs) j ≡ byte_at bs (i + j)
byte_at-drop zero j bs = ap (λ n. byte_at bs n) (omega arith)
byte_at-drop (suc i) j [] = refl
byte_at-drop (suc i) j (b ∷ bs) = byte_at-drop i j bs ∙ ap (λ n. byte_at (b ∷ bs) n) (towards i j)
  where
    towards : (i j : ℕ) → suc (i + j) ≡ suc i + j
    towards i j = omega arith

pub byte_at-take : (n j : ℕ) (bs : List ℕ) → j < n → byte_at (take n bs) j ≡ byte_at bs j
byte_at-take zero j bs h = absurd (omega arith)
byte_at-take (suc n) j [] h = refl
byte_at-take (suc n) zero (b ∷ bs) h = refl
byte_at-take (suc n) (suc j) (b ∷ bs) h = byte_at-take n j bs (omega arith)

pub AllBytes-drop : (i : ℕ) (bs : List ℕ) → AllBytes bs → AllBytes (drop i bs)
AllBytes-drop zero bs a = a
AllBytes-drop (suc i) [] a = tt
AllBytes-drop (suc i) (b ∷ bs) (p, a) = AllBytes-drop i bs a

pub AllBytes-take : (n : ℕ) (bs : List ℕ) → AllBytes bs → AllBytes (take n bs)
AllBytes-take zero bs a = tt
AllBytes-take (suc n) [] a = tt
AllBytes-take (suc n) (b ∷ bs) (p, a) = (p, AllBytes-take n bs a)

-- The bits of a little-endian word are those of its bytes.
pub test_bit-le_value :
    (bs : List ℕ) (j : ℕ)
    → AllBytes bs
    → j < 8 * length bs
    → test_bit (le_value bs) j ≡ test_bit (byte_at bs (j / 8)) (j % 8)
unfolding le_value
test_bit-le_value [] j a h = absurd (omega arith)
test_bit-le_value (b ∷ bs) j (p, a) h = elim (Bool-cases (ltb j 8)) [
  | inl e ↦
      let lt : j < 8 = ltb→lt _ _ e in
      test_bit-low 8 b (le_value bs) j lt
      ∙ ap (λ i. test_bit (byte_at (b ∷ bs) i) j) (first j lt)
      ∙ ap (λ i. test_bit (byte_at (b ∷ bs) (j / 8)) i) (low j lt)
  | inr e ↦
      let ge : 8 ≤ j = ltb→ge _ _ e in
      ap (λ i. test_bit (b + 256 * le_value bs) i) (split j ge)
      ∙ test_bit-shift (b + 256 * le_value bs) (j - 8)
      ∙ ap (λ v. test_bit v (j - 8)) (above (le_value bs))
      ∙ test_bit-le_value bs (j - 8) a (omega arith)
      ∙ ap (λ i. test_bit (byte_at bs ((j - 8) / 8)) i) (same j ge)
      ∙ ap (λ i. test_bit (byte_at (b ∷ bs) i) (j % 8)) (next j ge)
]
  where
    first : (j : ℕ) → j < 8 → 0 ≡ j / 8
    first j h = omega arith

    low : (j : ℕ) → j < 8 → j ≡ j % 8
    low j h = omega arith

    split : (j : ℕ) → 8 ≤ j → j ≡ 8 + (j - 8)
    split j h = omega arith

    above : (v : ℕ) → (b + 256 * v) / 256 ≡ v
    above v = omega arith

    same : (j : ℕ) → 8 ≤ j → (j - 8) % 8 ≡ j % 8
    same j h = omega arith

    next : (j : ℕ) → 8 ≤ j → suc ((j - 8) / 8) ≡ j / 8
    next j h = omega arith

-- The positions of `n` words from word `b` on that are not marked.
pub free : List ℕ → ℕ → ℕ → ℕ → ℕ
free sieve b n k = if leb b (k / 64) && ltb (k / 64) (b + n) then 1 - marked sieve k else 0

free-suc :
    (sieve : List ℕ) (b n k : ℕ)
    → free sieve b (suc n) k ≡ free sieve b 1 k + free sieve (suc b) n k
unfolding free
free-suc sieve b n k = ground arith

free-zero : (sieve : List ℕ) (b k : ℕ) → free sieve b 0 k ≡ 0
unfolding free
free-zero sieve b k = ground arith

abbrev pub word_at : List ℕ → ℕ → List ℕ
word_at sieve b = take 8 (drop (8 * b) sieve)

length-word_at :
    (sieve : List ℕ) (b : ℕ) → 8 * (b + 1) ≤ length sieve → length (word_at sieve b) ≡ 8
length-word_at sieve b h =
    omega (arith, length-take 8 (drop (8 * b) sieve), length-drop (8 * b) sieve)

AllBytes-word_at : (sieve : List ℕ) (b : ℕ) → AllBytes sieve → AllBytes (word_at sieve b)
AllBytes-word_at sieve b a = AllBytes-take 8 (drop (8 * b) sieve) (AllBytes-drop (8 * b) sieve a)

pub word_at-lt :
    (sieve : List ℕ) (b : ℕ)
    → AllBytes sieve
    → 8 * (b + 1) ≤ length sieve
    → le_value (word_at sieve b) < 2 ^ 64
word_at-lt sieve b a h = omega (
  arith,
  le_value-lt (word_at sieve b) (AllBytes-word_at sieve b a),
  ap (λ n. 256 ^ n) (length-word_at sieve b h),
)

-- The bits of the word `b` are those of its positions.
pub test_bit-word_at :
    (sieve : List ℕ) (b j : ℕ)
    → AllBytes sieve
    → 8 * (b + 1) ≤ length sieve
    → j < 64
    → test_bit (le_value (word_at sieve b)) j ≡ marked sieve (64 * b + j)
unfolding marked
test_bit-word_at sieve b j a h hj =
    test_bit-le_value (word_at sieve b) j (AllBytes-word_at sieve b a)
      (omega (arith, length-word_at sieve b h))
    ∙ ap (λ n. test_bit n (j % 8))
        (byte_at-take 8 (j / 8) (drop (8 * b) sieve) (omega arith)
          ∙ byte_at-drop (8 * b) (j / 8) sieve
          ∙ ap (λ n. byte_at sieve n) (place b j))
    ∙ ap (λ n. test_bit (byte_at sieve ((64 * b + j) / 8)) n) (low b j)
  where
    place : (b j : ℕ) → 8 * b + j / 8 ≡ (64 * b + j) / 8
    place b j = omega arith

    low : (b j : ℕ) → j % 8 ≡ (64 * b + j) % 8
    low b j = omega arith

-- The set bits of a complemented word are the unmarked positions of that word.
test_bit-not_word :
    (sieve : List ℕ) (b j : ℕ)
    → AllBytes sieve
    → 8 * (b + 1) ≤ length sieve
    → j < 64
    → test_bit (not64 (le_value (word_at sieve b))) j ≡ 1 - marked sieve (64 * b + j)
test_bit-not_word sieve b j a h hj =
    test_bit-not 64 (le_value (word_at sieve b)) j (word_at-lt sieve b a h) hj
    ∙ ap (λ n. 1 - n) (test_bit-word_at sieve b j a h hj)

bits-free :
    (sieve : List ℕ) (b k : ℕ)
    → AllBytes sieve
    → 8 * (b + 1) ≤ length sieve
    → bits b (not64 (le_value (word_at sieve b))) k ≡ free sieve b 1 k
unfolding free
bits-free sieve b k a h = elim (Bool-cases (k / 64 == b)) [
  | inr e ↦ ground arith
  | inl e ↦
      let same : k / 64 ≡ b = (==_iff (k / 64) b).0 e in
      ground (
        arith,
        test_bit-not_word sieve b (k % 64) a h (omega arith),
        ap (λ n. marked sieve n) (whole same),
      )
]
  where
    whole : k / 64 ≡ b → 64 * b + k % 64 ≡ k
    whole e = omega (arith, e)

-- A round of the loop that is made.
next_word : Others → List ℕ → ℕ → ℕ → Scan → Option Scan
next_word w sieve n b s = elim (load sieve (8 * b) 8) [
  | none ↦ none
  | some word ↦ elim (scan_word w b 65 (not64 (le_value word)) s) [
    | none ↦ none
    | some s' ↦ scan_words w sieve n (suc b) s'
  ]
]

scan_words_stop :
    (w : Others) (sieve : List ℕ) (n b : ℕ) (s : Scan)
    → s.do_reset ≡ true
    → scan_words w sieve n b s ≡ some s
unfolding scan_words next_round next_word
scan_words_stop w sieve zero b s e = refl
scan_words_stop w sieve (suc n) b s e = ap (λ q. next_round q s (next_word w sieve n b s)) e

next_word_lem :
    (w : Others) (sieve : List ℕ) (n b : ℕ) (s s₁ s₂ : Scan)
    → 8 * b + 8 ≤ length sieve
    → scan_word w b 65 (not64 (le_value (word_at sieve b))) s ≡ some s₁
    → scan_words w sieve n (suc b) s₁ ≡ some s₂
    → next_word w sieve n b s ≡ some s₂
unfolding next_word load
next_word_lem w sieve n b s s₁ s₂ inside e₁ e₂ = rw (next_word, le→leb _ _ inside) (rw e₁ e₂)

scan_words_lem :
    (w : Others) (sieve : List ℕ) (n b : ℕ) (s : Scan)
    → AllBytes sieve
    → 8 * (b + n) ≤ length sieve
    → IsScan s
    → s.do_reset ≡ false
    → (s' : Scan) × (scan_words w sieve n b s ≡ some s') × Hands w s s' (free sieve b n)
unfolding scan_words next_round next_word load
scan_words_lem w sieve zero b s a h v off = (
  s,
  refl,
  record {
    valid = v;
    most = λ k. omega arith;
    seen = 0;
    count = omega (arith, v.counted);
    all =
        inr
          (off, λ j below. absurd (omega (arith, below)), λ k. omega (arith, free-zero sieve b k));
  },
)
scan_words_lem w sieve (suc n) b s a h v off =
    let inside : 8 * b + 8 ≤ length sieve = omega (arith, h) in
    let word : ℕ = not64 (le_value (word_at sieve b)) in
    let (s₁, e₁, p₁) =
      scan_word_lem w b 65 64 word s v off (omega arith) (omega arith) (omega arith) in
    let here : (k : ℕ) → free sieve b (suc n) k ≡ bits b word k + free sieve (suc b) n k =
      λ k. omega (arith, free-suc sieve b n k, bits-free sieve b k a (omega (arith, h))) in
    let first : (s₂ : Scan)
        → scan_words w sieve n (suc b) s₁ ≡ some s₂
        → scan_words w sieve (suc n) b s ≡ some s₂ =
      λ s₂ e₂.
        ap (λ q. next_round q s (next_word w sieve n b s)) off
        ∙ next_word_lem w sieve n b s s₁ s₂ inside e₁ e₂ in
    elim (p₁.all) [
      | inl (r, stopped) ↦ (
        s₁,
        first s₁ (scan_words_stop w sieve n (suc b) s₁ r),
        record {
          valid = p₁.valid;
          most = λ k. omega (arith, p₁.most k, here k);
          seen = p₁.seen;
          count = p₁.count;
          all = inl (r, stopped);
        },
      )
      | inr (r, steady, q) ↦
          let (s₂, e₂, p₂) = scan_words_lem w sieve n (suc b) s₁ a (omega (arith, h)) p₁.valid r in
          (
            s₂,
            first s₂ e₂,
            Hands-join w s s₁ s₂ (bits b word) (free sieve (suc b) n) (free sieve b (suc n)) p₁.seen
                q p₁.count steady p₂ here,
          )
    ]

free_all :
    (sieve : List ℕ) (n k : ℕ)
    → free sieve 0 n k ≡ (if ltb k (64 * n) then 1 - marked sieve k else 0)
unfolding free
free_all sieve n k = ground arith

nil_of_length : (xs : List ℕ) → length xs ≡ 0 → xs ≡ []
nil_of_length [] e = refl
nil_of_length (x ∷ xs) e = absurd (omega (arith, e))

push_rest_lem :
    (s : Scan)
    → IsScan s
    → All IsBatch (push_rest s).pushed
      × ((push_rest s).indexes ≡ [])
      × ((k : ℕ) → times_pushed k (push_rest s).pushed ≡ handed k s)
      × ((push_rest s).do_reset ≡ s.do_reset)
      × ((push_rest s).count_candidates ≡ s.count_candidates)
unfolding push_rest push_work handed
push_rest_lem s v = elim (Bool-cases (ltb 0 (length s.indexes))) [
  | inl e ↦
      let (v₁, same) = push_work_lem s v.counted (ltb→lt _ _ e) (omega (arith, v.room)) v.batches in
      rw e (v₁.batches, refl, λ k. omega (arith, same k), refl, refl)
  | inr e ↦
      let none_left : s.indexes ≡ [] = nil_of_length s.indexes (omega (arith, ltb→ge _ _ e)) in
      rw e (v.batches, none_left, λ k. omega (arith, ap (occurrences k) none_left), refl, refl)
]

pub scan_sieve_lem :
    (w : Others) (sieve : List ℕ) (n outstanding count : ℕ)
    → AllBytes sieve
    → length sieve ≡ 8 * n
    → count < 2 ^ 32
    → (s : Scan) × (seen : ℕ) × (scan_sieve w sieve n outstanding count ≡ some s)
      × (s.indexes ≡ [])
      × All IsBatch s.pushed
      × ((k : ℕ) → times_pushed k s.pushed ≤ (if ltb k (64 * n) then 1 - marked sieve k else 0))
      × (s.count_candidates ≡ (count + seen) % 2 ^ 32)
      × (((s.do_reset ≡ true) × IsStopped w count seen)
          ⊎ ((s.do_reset ≡ false)
              × IsSteady w count seen
              × ((k : ℕ)
                  → times_pushed k s.pushed ≡ (if ltb k (64 * n) then 1 - marked sieve k else 0))))
unfolding scan_sieve handed
scan_sieve_lem w sieve n outstanding count a e small =
    let start : Scan = start_scan outstanding count in
    let (s₁, e₁, p₁) =
      scan_words_lem w sieve n 0 start a (omega (arith, e))
        (record { counted = small; room = omega arith; batches = tt }) refl in
    let (v, none_left, same, reset, counts) = push_rest_lem s₁ p₁.valid in
    (
      push_rest s₁,
      p₁.seen,
      rw (scan_sieve, e₁) refl,
      none_left,
      v,
      λ k. omega (arith, p₁.most k, same k, free_all sieve n k),
      counts ∙ p₁.count,
      elim (p₁.all) [
        | inl (r, stopped) ↦ inl (reset ∙ r, stopped)
        | inr (r, steady, q) ↦
            inr (reset ∙ r, steady, λ k. omega (arith, q k, same k, free_all sieve n k))
      ],
    )
