-- ===== src/Riecoin/Sorting.antt =====
-- `silly_sort_indexes` sorts the six offsets of a prime.
use fastrie.Base.{
  ℕ, zero, suc, ◌+◌, ◌≤◌, ◌≡◌, refl, ap, Bool, true, false, List, [], ◌∷◌, length, All, ltb, ltb→lt,
  ltb→ge, ◌==◌, ==_iff, if◌then◌else◌, arith, Bool-cases, inl, inr,
}
use fastrie.Riecoin.Sieve.{sort_pass, sort_rounds, silly_sort_indexes}

abbrev pub IsSorted : List ℕ → Type 0
IsSorted [] = Unit {0}
IsSorted (x ∷ xs) = All (λ y. x ≤ y) xs × IsSorted xs

-- How often `x` occurs.
abbrev pub occurrences : ℕ → List ℕ → ℕ
occurrences x [] = 0
occurrences x (y ∷ ys) = (if x == y then 1 else 0) + occurrences x ys

-- A pass brings the least to the front and loses nothing.
record Pass (x : ℕ) (xs : List ℕ) (r : ℕ × List ℕ) : Type 0 where
  pub first : r.0 ≤ x
  pub least : All (λ y. r.0 ≤ y) r.1
  same_length : length r.1 ≡ length xs
  pub same : (k : ℕ) → occurrences k (r.0 ∷ r.1) ≡ occurrences k (x ∷ xs)

if-Pass :
    (b : Bool) (x : ℕ) (xs : List ℕ) (r r' : ℕ × List ℕ)
    → (b ≡ true → Pass x xs r)
    → (b ≡ false → Pass x xs r')
    → Pass x xs (if b then r else r')
if-Pass true x xs r r' h h' = h refl
if-Pass false x xs r r' h h' = h' refl

sort_pass_lem : (x : ℕ) (xs : List ℕ) → Pass x xs (sort_pass x xs)
unfolding sort_pass
sort_pass_lem x [] = record {
  first = omega arith;
  least = tt;
  same_length = refl;
  same = λ k. refl;
}
sort_pass_lem x (y ∷ ys) =
    if-Pass (ltb y x) x (y ∷ ys) _ _
      (λ e.
        let p = sort_pass_lem y ys in
        record {
          first = omega (arith, p.first, ltb→lt _ _ e);
          least = (omega (arith, p.first, ltb→lt _ _ e), p.least);
          same_length = ap suc p.same_length;
          same = λ k. omega (arith, p.same k);
        })
      (λ e.
        let p = sort_pass_lem x ys in
        record {
          first = p.first;
          least = (omega (arith, p.first, ltb→ge _ _ e), p.least);
          same_length = ap suc p.same_length;
          same = λ k. omega (arith, p.same k);
        })

occurs-bound : (m k : ℕ) (ys : List ℕ) → All (λ y. m ≤ y) ys → 1 ≤ occurrences k ys → m ≤ k
occurs-bound m k [] a h = absurd (omega arith)
occurs-bound m k (y ∷ ys) (a, rest) h = elim (Bool-cases (k == y)) [
  | inl e ↦ omega (arith, (==_iff k y).0 e)
  | inr e ↦ occurs-bound m k ys rest (omega (arith, ap {B = ℕ} (λ b. if b then 1 else 0) e))
]

bound-occurs :
    (m : ℕ) (xs : List ℕ) → ((k : ℕ) → 1 ≤ occurrences k xs → m ≤ k) → All (λ y. m ≤ y) xs
bound-occurs m [] h = tt
bound-occurs m (x ∷ xs) h = (
  h x (omega (arith, ap {B = ℕ} (λ b. if b then 1 else 0) ((==_iff x x).1 refl))),
  bound-occurs m xs (λ k o. h k (omega (arith, o))),
)

sort_rounds_lem :
    (n : ℕ) (xs : List ℕ)
    → length xs ≤ suc n
    → IsSorted (sort_rounds n xs) × ((k : ℕ) → occurrences k (sort_rounds n xs) ≡ occurrences k xs)
unfolding sort_rounds
sort_rounds_lem zero [] h = (tt, λ k. refl)
sort_rounds_lem zero (x ∷ []) h = ((tt, tt), λ k. refl)
sort_rounds_lem zero (x ∷ y ∷ ys) h = absurd (omega arith)
sort_rounds_lem (suc n) [] h = (tt, λ k. refl)
sort_rounds_lem (suc n) (x ∷ xs) h =
    let p = sort_pass_lem x xs in
    let r = sort_pass x xs in
    let (sorted, same) = sort_rounds_lem n r.1 (omega (arith, p.same_length)) in
    (
      (
        bound-occurs r.0 (sort_rounds n r.1)
            (λ k o. occurs-bound r.0 k r.1 p.least (omega (arith, same k, o))),
        sorted,
      ),
      λ k. omega (arith, same k, p.same k),
    )

-- `silly_sort_indexes` sorts: of the six indexes the result is in ascending order, and every number
-- occurs in it as often as before.
pub silly_sort_indexes_lem :
    (xs : List ℕ)
    → length xs ≡ 6
    → IsSorted (silly_sort_indexes xs)
      × ((k : ℕ) → occurrences k (silly_sort_indexes xs) ≡ occurrences k xs)
unfolding silly_sort_indexes
silly_sort_indexes_lem xs h = sort_rounds_lem 5 xs (omega (arith, h))
