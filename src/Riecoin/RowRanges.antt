-- ===== src/Riecoin/RowRanges.antt =====
-- Ranges of the prime table: what holds of one part and of another holds of both.
use fastrie.Base.{
  ℕ, zero, suc, ◌+◌, ◌^◌, ◌≤◌, ◌<◌, max, ◌≡◌, refl, sym, ap, subst, ◌∙◌, List, [], length, get_or,
  All, ltb, ltb→lt, ltb→ge, ◌==◌, ==_iff, Bool-cases, inl, inr, arith,
}
use fastrie.Riecoin.Sieve.{sieve_size}
use fastrie.Riecoin.Rows.{row_reach, rows_reach, IsRow, AreRows, Kept}

pub AreRows-at :
    (primes : List ℕ) (offsets : List (List ℕ)) (n pno j : ℕ)
    → AreRows primes offsets n pno
    → pno ≤ j
    → j < pno + n
    → IsRow primes offsets j
AreRows-at primes offsets zero pno j a lo hi = absurd (omega arith)
AreRows-at primes offsets (suc n) pno j (r, a) lo hi = elim (Bool-cases (j == pno)) [
  | inl e ↦ subst (λ i. IsRow primes offsets i) (sym ((==_iff j pno).0 e)) r
  | inr e ↦ AreRows-at primes offsets n (suc pno) j a (ground arith) (omega arith)
]

pub AreRows-of :
    (primes : List ℕ) (offsets : List (List ℕ)) (n pno : ℕ)
    → ((j : ℕ) → pno ≤ j → j < pno + n → IsRow primes offsets j)
    → AreRows primes offsets n pno
AreRows-of primes offsets zero pno f = tt
AreRows-of primes offsets (suc n) pno f = (
  f pno (omega arith) (omega arith),
  AreRows-of primes offsets n (suc pno) (λ j lo hi. f j (omega arith) (omega arith)),
)

-- A row that a loop left alone is still valid.
IsRow-kept :
    (primes : List ℕ) (offsets offsets' : List (List ℕ)) (j : ℕ)
    → get_or offsets' j [] ≡ get_or offsets j []
    → length offsets' ≡ length offsets
    → IsRow primes offsets j
    → IsRow primes offsets' j
IsRow-kept primes offsets offsets' j e len r = record {
  in_primes = r.in_primes;
  in_offsets = omega (arith, len, r.in_offsets);
  positive = r.positive;
  small = r.small;
  offsets_small = subst (λ os. All (λ o. o < 2 ^ 31) os) (sym e) r.offsets_small;
}

pub rows_reach-kept :
    (primes : List ℕ) (offsets offsets' : List (List ℕ)) (n pno k : ℕ)
    → ((j : ℕ) → pno ≤ j → j < pno + n → get_or offsets' j [] ≡ get_or offsets j [])
    → rows_reach primes offsets' n pno k ≡ rows_reach primes offsets n pno k
unfolding rows_reach
rows_reach-kept primes offsets offsets' zero pno k f = refl
rows_reach-kept primes offsets offsets' (suc n) pno k f = omega (
  arith,
  ap (λ os. row_reach (get_or primes pno 0) os k) (f pno (omega arith) (omega arith)),
  rows_reach-kept primes offsets offsets' n (suc pno) k
      (λ j lo hi. f j (omega arith) (omega arith)),
)

pub rows_reach-split :
    (primes : List ℕ) (offsets : List (List ℕ)) (m n t pno k : ℕ)
    → t ≡ m + n
    → rows_reach primes offsets t pno k
      ≡ max (rows_reach primes offsets m pno k) (rows_reach primes offsets n (m + pno) k)
unfolding rows_reach
rows_reach-split primes offsets zero n t pno k e = omega (
  arith,
  ap (λ i. rows_reach primes offsets i pno k) none_first,
  ap (λ i. rows_reach primes offsets n i k) same,
)
  where
    none_first : t ≡ n
    none_first = omega (arith, e)

    same : 0 + pno ≡ pno
    same = omega arith
rows_reach-split primes offsets (suc m) n zero pno k e = absurd (omega (arith, e))
rows_reach-split primes offsets (suc m) n (suc t) pno k e = omega (
  arith,
  rows_reach-split primes offsets m n t (suc pno) k (omega (arith, e)),
  ap (λ i. rows_reach primes offsets n i k) (shift m pno),
)
  where
    shift : (m pno : ℕ) → m + suc pno ≡ suc m + pno
    shift m pno = omega arith

-- What a range of rows has been through.
pub record Ran (primes : List ℕ) (offsets offsets' : List (List ℕ)) (n pno : ℕ) : Type 0 where
  pub later :
      (k : ℕ)
      → rows_reach primes offsets' n pno k ≡ rows_reach primes offsets n pno (sieve_size + k)
  pub rows : AreRows primes offsets' n pno
  pub kept : Kept offsets offsets' n pno
  pub size : length offsets' ≡ length offsets

-- Two ranges, one behind the other.
pub Ran-join :
    (primes : List ℕ) (o₀ o₁ o₂ : List (List ℕ)) (m n t pno : ℕ)
    → t ≡ m + n
    → Ran primes o₀ o₁ m pno
    → Ran primes o₁ o₂ n (m + pno)
    → Ran primes o₀ o₂ t pno
Ran-join primes o₀ o₁ o₂ m n t pno e r₁ r₂ = record {
  later = λ k. omega (
    arith,
    rows_reach-split primes o₂ m n t pno k e,
    rows_reach-split primes o₀ m n t pno (sieve_size + k) e,
    rows_reach-kept primes o₁ o₂ m pno k (λ j lo hi. r₂.kept j (inl (omega arith))),
    rows_reach-kept primes o₀ o₁ n (m + pno) (sieve_size + k)
        (λ j lo hi. r₁.kept j (inr (omega arith))),
    r₁.later k,
    r₂.later k,
  );
  rows = AreRows-of primes o₂ t pno (λ j lo hi. elim (Bool-cases (ltb j (m + pno))) [
    | inl h ↦
        IsRow-kept primes o₁ o₂ j (r₂.kept j (inl (ltb→lt _ _ h))) r₂.size
          (AreRows-at primes o₁ m pno j r₁.rows lo (omega (arith, ltb→lt _ _ h)))
    | inr h ↦ AreRows-at primes o₂ n (m + pno) j r₂.rows (ltb→ge _ _ h) (omega (arith, hi, e))
  ]);
  kept = λ j out. elim out [
    | inl h ↦ r₂.kept j (inl (omega (arith, h))) ∙ r₁.kept j (inl h)
    | inr h ↦ r₂.kept j (inr (omega (arith, h, e))) ∙ r₁.kept j (inr (omega (arith, h, e)))
  ];
  size = r₂.size ∙ r₁.size;
}

-- Rows that a loop over others left alone are valid, and reach what they reached.
pub AreRows-kept :
    (primes : List ℕ) (o₀ o₁ : List (List ℕ)) (m n pno : ℕ)
    → Kept o₀ o₁ m pno
    → length o₁ ≡ length o₀
    → AreRows primes o₀ n (m + pno)
    → AreRows primes o₁ n (m + pno)
AreRows-kept primes o₀ o₁ m n pno kept len a = AreRows-of primes o₁ n (m + pno) (λ j lo hi.
    IsRow-kept primes o₀ o₁ j (kept j (inr (omega arith))) len
      (AreRows-at primes o₀ n (m + pno) j a lo hi))
