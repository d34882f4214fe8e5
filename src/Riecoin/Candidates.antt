-- ===== src/Riecoin/Candidates.antt =====
-- The scan hands every unmarked position of the sieve to the verifiers once.
use fastrie.Base.{
  ℕ, zero, suc, ◌+◌, ◌-◌, ◌*◌, ◌/◌, ◌%◌, ◌^◌, ◌≤◌, ◌<◌, ◌≡◌, ◌⊎◌, refl, sym, ap, subst, ◌∙◌, Bool,
  true, false, Option, some, List, [], ◌∷◌, ◌++◌, length, length-append, All, ltb, ltb→lt, ltb→ge,
  ◌==◌, ==_iff, if◌then◌else◌, bit_and, test_bit, test_bit-zero, add32, sub32, arith, Bool-cases,
  inl, inr, if-true,
}
use native.Mathlib.Nat.{pow-suc, pow-le-pow_right}
use fastrie.Riecoin.Scan.{
  Others, Scan, push_work, push_full, check_height, add_candidate, high_bit, not64, scan_word,
}
use fastrie.Riecoin.Sorting.{occurrences}
use fastrie.Riecoin.WordBits.{clear_high, test_bit-high, leading_zeros_lem}

-- How often an index was handed out.
abbrev pub times_pushed : ℕ → List (List ℕ) → ℕ
times_pushed k [] = 0
times_pushed k (b ∷ bs) = occurrences k b + times_pushed k bs

abbrev pub IsBatch : List ℕ → Type 0
IsBatch b = (1 ≤ length b) × (length b ≤ 64)

pub occurrences-append :
    (k : ℕ) (xs ys : List ℕ) → occurrences k (xs ++ ys) ≡ occurrences k xs + occurrences k ys
occurrences-append k [] ys = omega arith
occurrences-append k (x ∷ xs) ys = omega (arith, occurrences-append k xs ys)

times_pushed-append :
    (k : ℕ) (bs : List (List ℕ)) (b : List ℕ)
    → times_pushed k (bs ++ (b ∷ [])) ≡ times_pushed k bs + occurrences k b
times_pushed-append k [] b = omega arith
times_pushed-append k (x ∷ bs) b = omega (arith, times_pushed-append k bs b)

All-append {ℓ κ} :
    {A : Type ℓ} (P : A → Type κ) (xs : List A) (x : A) → All P xs → P x → All P (xs ++ (x ∷ []))
All-append P [] x a p = (p, a)
All-append P (y ∷ xs) x (b, rest) p = (b, All-append P xs x rest p)

unfoldable pub handed : ℕ → Scan → ℕ
handed k s = times_pushed k s.pushed + occurrences k s.indexes

pub record IsScan (s : Scan) : Type 0 where
  pub counted : s.count_candidates < 2 ^ 32
  pub room : length s.indexes < 64
  pub batches : All IsBatch s.pushed

abbrev is : ℕ → ℕ → ℕ
is i k = if k == i then 1 else 0

pub push_work_lem :
    (s : Scan)
    → s.count_candidates < 2 ^ 32
    → 1 ≤ length s.indexes
    → length s.indexes ≤ 64
    → All IsBatch s.pushed
    → IsScan (push_work s) × ((k : ℕ) → handed k (push_work s) ≡ handed k s)
unfolding push_work handed
push_work_lem s counted lo hi a = (
  record {
    counted = counted;
    room = omega arith;
    batches = All-append IsBatch s.pushed s.indexes a (lo, hi);
  },
  λ k. omega (arith, times_pushed-append k s.pushed s.indexes),
)

push_full_lem :
    (s : Scan)
    → s.count_candidates < 2 ^ 32
    → length s.indexes ≤ 64
    → All IsBatch s.pushed
    → IsScan (push_full s) × ((k : ℕ) → handed k (push_full s) ≡ handed k s)
unfolding push_full
push_full_lem s counted hi a = elim (Bool-cases (length s.indexes == 64)) [
  | inl e ↦
      let full : length s.indexes ≡ 64 = (==_iff (length s.indexes) 64).0 e in
      rw e (push_work_lem s counted (omega (arith, full)) hi a)
  | inr e ↦ rw e (record { counted = counted; room = ground arith; batches = a }, λ k. refl)
]

check_height_lem :
    (w : Others) (n : ℕ) (s : Scan)
    → IsScan s
    → IsScan (check_height w n s) × ((k : ℕ) → handed k (check_height w n s) ≡ handed k s)
unfolding check_height handed
check_height_lem w n s v = elim (Bool-cases (w.height_changed n)) [
  | inl e ↦ rw e (record { counted = v.counted; room = v.room; batches = v.batches }, λ k. refl)
  | inr e ↦ rw e (v, λ k. refl)
]

add_candidate_lem :
    (w : Others) (i : ℕ) (s : Scan)
    → IsScan s
    → IsScan (add_candidate w i s)
      × ((k : ℕ) → handed k (add_candidate w i s) ≡ handed k s + is i k)
unfolding add_candidate handed
add_candidate_lem w i s v =
    let n : ℕ = s.count_candidates in
    let s₁ : Scan = record s {
      indexes = s.indexes ++ (i ∷ []);
      outstanding_tests = sub32 s.outstanding_tests (w.done_before n);
      count_candidates = add32 n 1;
    } in
    let (v₂, same₂) =
      push_full_lem s₁ (omega arith) (omega (arith, length-append s.indexes (i ∷ []), v.room))
        v.batches in
    let s₂ : Scan = push_full s₁ in
    let s₃ : Scan = record s₂ { outstanding_tests = sub32 s₂.outstanding_tests (w.done_after n) } in
    let (v₄, same₄) =
      check_height_lem w n s₃
        (record { counted = v₂.counted; room = v₂.room; batches = v₂.batches }) in
    (v₄, λ k. omega (arith, same₄ k, same₂ k, occurrences-append k s.indexes (i ∷ [])))

-- A candidate counts up by one, and the scan is given up exactly if the height has changed there.
push_full-count : (s : Scan) → (push_full s).count_candidates ≡ s.count_candidates
unfolding push_full push_work
push_full-count s = elim (Bool-cases (length s.indexes == 64)) [
  | inl e ↦ rw e refl
  | inr e ↦ rw e refl
]

push_full-reset : (s : Scan) → (push_full s).do_reset ≡ s.do_reset
unfolding push_full push_work
push_full-reset s = elim (Bool-cases (length s.indexes == 64)) [
  | inl e ↦ rw e refl
  | inr e ↦ rw e refl
]

add_candidate-height :
    (w : Others) (i : ℕ) (s : Scan)
    → s.do_reset ≡ false
    → ((add_candidate w i s).count_candidates ≡ (s.count_candidates + 1) % 2 ^ 32)
      × ((add_candidate w i s).do_reset ≡ w.height_changed s.count_candidates)
unfolding add_candidate check_height
add_candidate-height w i s e =
    let s₁ : Scan = record s {
      indexes = s.indexes ++ (i ∷ []);
      outstanding_tests = sub32 s.outstanding_tests (w.done_before s.count_candidates);
      count_candidates = add32 s.count_candidates 1;
    } in
    elim (Bool-cases (w.height_changed s.count_candidates)) [
      | inl h ↦ rw (h, add_candidate) (push_full-count s₁, refl)
      | inr h ↦ rw (h, add_candidate) (push_full-count s₁, push_full-reset s₁ ∙ e)
    ]

-- At none of `n` candidates from number `count` on has the height changed.
abbrev pub IsSteady : Others → ℕ → ℕ → Type 0
IsSteady w count n = (j : ℕ) → j < n → w.height_changed ((count + j) % 2 ^ 32) ≡ false

-- The height changed at the last of `n` candidates and at none before.
abbrev pub IsStopped : Others → ℕ → ℕ → Type 0
IsStopped w count n =
    (j : ℕ) × (n ≡ suc j) × (w.height_changed ((count + j) % 2 ^ 32) ≡ true) × IsSteady w count j

IsSteady-append :
    (w : Others) (count a b : ℕ)
    → IsSteady w count a
    → IsSteady w ((count + a) % 2 ^ 32) b
    → IsSteady w count (a + b)
IsSteady-append w count a b p q j h = elim (Bool-cases (ltb j a)) [
  | inl e ↦ p j (ltb→lt _ _ e)
  | inr e ↦
      let far : a ≤ j = ltb→ge _ _ e in
      ap (λ n. w.height_changed n) (omega (arith, far)) ∙ q (j - a) (omega (arith, far, h))
]

IsStopped-append :
    (w : Others) (count a b : ℕ)
    → IsSteady w count a
    → IsStopped w ((count + a) % 2 ^ 32) b
    → IsStopped w count (a + b)
IsStopped-append w count a b p (j, e, changed, q) = (
  a + j,
  omega (arith, e),
  ap (λ n. w.height_changed n) (omega arith) ∙ changed,
  IsSteady-append w count a j p q,
)

-- What a part of the scan does that starts without a reset: at most `more` is handed out, over `seen`
-- candidates; it stops at the first of them where the height changed, and hands out all where it did not.
pub record Hands (w : Others) (s s' : Scan) (more : ℕ → ℕ) : Type 0 where
  pub valid : IsScan s'
  pub most : (k : ℕ) → handed k s' ≤ handed k s + more k
  pub seen : ℕ
  pub count : s'.count_candidates ≡ (s.count_candidates + seen) % 2 ^ 32
  pub all :
      ((s'.do_reset ≡ true) × IsStopped w s.count_candidates seen)
      ⊎ ((s'.do_reset ≡ false)
          × IsSteady w s.count_candidates seen
          × ((k : ℕ) → handed k s' ≡ handed k s + more k))

-- One part after another that saw no change.
pub Hands-join :
    (w : Others) (s s₁ s₂ : Scan) (m₁ m₂ m : ℕ → ℕ) (seen₁ : ℕ)
    → ((k : ℕ) → handed k s₁ ≡ handed k s + m₁ k)
    → s₁.count_candidates ≡ (s.count_candidates + seen₁) % 2 ^ 32
    → IsSteady w s.count_candidates seen₁
    → Hands w s₁ s₂ m₂
    → ((k : ℕ) → m k ≡ m₁ k + m₂ k)
    → Hands w s s₂ m
Hands-join w s s₁ s₂ m₁ m₂ m seen₁ one count₁ steady rest more = record {
  valid = rest.valid;
  most = λ k. omega (arith, rest.most k, one k, more k);
  seen = seen₁ + rest.seen;
  count = omega (arith, rest.count, count₁);
  all = elim (rest.all) [
    | inl (r, stopped) ↦ inl (
      r,
      IsStopped-append w s.count_candidates seen₁ rest.seen steady
          (subst (λ c. IsStopped w c rest.seen) count₁ stopped),
    )
    | inr (r, steady₂, q) ↦ inr (
      r,
      IsSteady-append w s.count_candidates seen₁ rest.seen steady
          (subst (λ c. IsSteady w c rest.seen) count₁ steady₂),
      λ k. omega (arith, q k, one k, more k),
    )
  ];
}

abbrev pub bits : ℕ → ℕ → ℕ → ℕ
bits b sb k = if k / 64 == b then test_bit sb (k % 64) else 0

bits-zero : (b k : ℕ) → bits b 0 k ≡ 0
bits-zero b k = ground (arith, test_bit-zero (k % 64))

bits-high :
    (b h sb k : ℕ)
    → h < 64
    → 2 ^ h ≤ sb
    → sb < 2 ^ suc h
    → bits b sb k ≡ bits b (sb - 2 ^ h) k + is (b * 64 + h) k
bits-high b h sb k hh lo hi = ground (arith, test_bit-high h sb (k % 64) lo hi)

-- The highest bit of a word, and the word without it.
record Highest (width sb h : ℕ) : Type 0 where
  place : high_bit sb ≡ h
  below : h < width
  from : 2 ^ h ≤ sb
  to : sb < 2 ^ suc h
  without : bit_and sb (not64 (2 ^ h)) ≡ sb - 2 ^ h

highest : (width sb : ℕ) → 0 < sb → sb < 2 ^ width → width ≤ 64 → (h : ℕ) × Highest width sb h
highest width sb pos small wide =
    let (h, place, lo, hi) =
      leading_zeros_lem 64 sb pos (omega (arith, pow-le-pow_right {n = 2} (omega arith) wide)) in
    (
      h,
      record {
        place = omega (arith, place);
        below = elim (Bool-cases (ltb h width)) [
          | inl q ↦ ltb→lt _ _ q
          | inr q ↦
              absurd
                (omega (arith, lo, small, pow-le-pow_right {n = 2} (omega arith) (ltb→ge _ _ q)))
        ];
        from = lo;
        to = hi;
        without = clear_high 64 h sb (omega (arith, place)) lo hi;
      },
    )

Hands-none :
    (w : Others) (b sb : ℕ) (s : Scan)
    → IsScan s
    → s.do_reset ≡ false
    → sb ≡ 0
    → Hands w s s (bits b sb)
Hands-none w b sb s v off e = record {
  valid = v;
  most = λ k. omega arith;
  seen = 0;
  count = omega (arith, v.counted);
  all = inr (
    off,
    λ j h. absurd (omega (arith, h)),
    λ k. omega (arith, ap (λ n. bits b n k) e, bits-zero b k),
  );
}

-- The two ways on after a candidate.
unfoldable pub next_round : Bool → Scan → Option Scan → Option Scan
next_round reset s rest = elim reset [ true ↦ some s | false ↦ rest ]

next_round_lem :
    (w : Others) (b rounds sb : ℕ) (s : Scan) (reset : Bool)
    → (sb == 0) ≡ false
    → (add_candidate w (b * 64 + high_bit sb) s).do_reset ≡ reset
    → scan_word w b (suc rounds) sb s
      ≡ next_round reset (add_candidate w (b * 64 + high_bit sb) s) (
          scan_word w b rounds
            (bit_and sb (not64 (2 ^ high_bit sb)))
            (add_candidate w (b * 64 + high_bit sb) s))
unfolding scan_word next_round
next_round_lem w b rounds sb s reset e r =
    rw (e, scan_word)
      (ap
        (λ q. next_round q (add_candidate w (b * 64 + high_bit sb) s) (
          scan_word w b rounds (bit_and sb (not64 (2 ^ high_bit sb)))
            (add_candidate w (b * 64 + high_bit sb) s)))
        r)

pub scan_word_lem :
    (w : Others) (b rounds width sb : ℕ) (s : Scan)
    → IsScan s
    → s.do_reset ≡ false
    → sb < 2 ^ width
    → width ≤ rounds
    → width ≤ 64
    → (s' : Scan) × (scan_word w b rounds sb s ≡ some s') × Hands w s s' (bits b sb)
unfolding scan_word next_round
scan_word_lem w b zero width sb s v off small enough wide =
    let none_left : width ≡ 0 = omega arith in
    let e : sb ≡ 0 = omega (arith, ap (λ n. 2 ^ n) none_left) in
    (s, if-true _ _ ((==_iff sb 0).1 e), Hands-none w b sb s v off e)
scan_word_lem w b (suc rounds) width sb s v off small enough wide = elim (Bool-cases (sb == 0)) [
  | inl e ↦ (s, rw (e, scan_word) refl, Hands-none w b sb s v off ((==_iff sb 0).0 e))
  | inr e ↦
      let (h, t) = highest width sb (ground arith) small wide in
      let (v₁, one) = add_candidate_lem w (b * 64 + high_bit sb) s v in
      let s₁ : Scan = add_candidate w (b * 64 + high_bit sb) s in
      let more : (k : ℕ) → bits b sb k ≡ bits b (sb - 2 ^ h) k + is (b * 64 + h) k =
        λ k. bits-high b h sb k (omega (arith, t.below)) t.from t.to in
      let here : (k : ℕ) → is (b * 64 + high_bit sb) k ≡ is (b * 64 + h) k =
        λ k. ap (λ i. is (b * 64 + i) k) t.place in
      let (count₁, changed) = add_candidate-height w (b * 64 + high_bit sb) s off in
      let here₀ : w.height_changed ((s.count_candidates + 0) % 2 ^ 32)
          ≡ w.height_changed s.count_candidates =
        ap (λ n. w.height_changed n) (omega (arith, v.counted)) in
      elim (Bool-cases (s₁.do_reset)) [
        | inl r ↦ (
          s₁,
          next_round_lem w b rounds sb s true e r,
          record {
            valid = v₁;
            most = λ k. omega (arith, one k, more k, here k);
            seen = 1;
            count = count₁;
            all = inl (r, (0, refl, here₀ ∙ sym changed ∙ r, λ j h. absurd (omega (arith, h))));
          },
        )
        | inr r ↦
            let (s₂, e₂, rest) =
              scan_word_lem w b rounds h (sb - 2 ^ h) s₁ v₁ r (omega (arith, t.to, pow-suc 2 h))
                (omega (arith, t.below)) (omega (arith, t.below)) in
            (
              s₂,
              next_round_lem w b rounds sb s false e r
                  ∙ (ap (λ n. scan_word w b rounds (bit_and sb (not64 (2 ^ n))) s₁) t.place
                      ∙ ap (λ n. scan_word w b rounds n s₁) t.without
                      ∙ e₂),
              Hands-join w s s₁ s₂ (is (b * 64 + high_bit sb)) (bits b (sb - 2 ^ h)) (bits b sb) 1
                  one count₁
                  (λ j below.
                    ap (λ n. w.height_changed ((s.count_candidates + n) % 2 ^ 32))
                      (omega (arith, below))
                    ∙ here₀
                    ∙ sym changed
                    ∙ r)
                  rest (λ k. omega (arith, more k, here k)),
            )
      ]
]
