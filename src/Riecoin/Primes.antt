-- ===== src/Riecoin/Primes.antt =====
-- The table that `riecoin_init` builds holds the primes below the limit, in ascending order.
use fastrie.Base.{
  ℕ, zero, suc, ◌+◌, ◌-◌, ◌*◌, ◌/◌, ◌%◌, ◌^◌, ◌≤◌, ◌<◌, max, ◌≡◌, ◌≢◌, ◌↔◌, refl, sym, ap, ◌∙◌,
  true, false, not, ◌&&◌, some, List, [], ◌∷◌, ◌++◌, length, length-append, replicate,
  length-replicate, All, ltb, ltb→lt, ltb→ge, lt→ltb, leb, leb→le, leb→gt, ◌==◌, ==_iff,
  if◌then◌else◌, Bool-cases, inl, inr, arith, test_bit, test_bit-zero,
}
use native.Mathlib.Nat.{mul-le-mul, div-add-mod, mul-mod_right, mul_comm, mod-eq_of_lt}
use fastrie.Riecoin.Init.{is_composite, collect, table_room, prime_table}
use fastrie.Riecoin.Marks.{byte_at, marked}
use fastrie.Riecoin.Sorting.{occurrences, IsSorted}
use fastrie.Riecoin.Candidates.{occurrences-append}
use fastrie.Riecoin.Crossing.{
  has_divisor, has_divisor-le, has_divisor_of, divisor_of, is_composite_lem, cross_all_lem,
}
use fastrie.Riecoin.Wheel.{small_prime, candidate, candidates, candidates_few}

pub record IsPrime (n : ℕ) : Type 0 where
  pub two : 2 ≤ n
  pub no_divisor : (d : ℕ) → 2 ≤ d → d < n → n % d ≢ 0

below_root : (d f n : ℕ) → d * d ≤ n → n < f * f → d < f
below_root d f n small below = elim (Bool-cases (ltb d f)) [
  | inl e ↦ ltb→lt _ _ e
  | inr e ↦
      let square : f * f ≤ d * d = mul-le-mul (ltb→ge _ _ e) (ltb→ge _ _ e) in
      absurd (omega (arith, square, small, below))
]

-- A number that was not crossed out is a prime: the smaller of two factors is below the root.
no_factor : (f n d : ℕ) → 2 ≤ n → n < f * f → has_divisor f n ≡ 0 → 2 ≤ d → d < n → n % d ≢ 0
no_factor f n d two below e two' lt g = elim (Bool-cases (leb (d * d) n)) [
  | inl h ↦
      let small : d * d ≤ n = leb→le _ _ h in
      absurd (omega (arith, e, has_divisor_of f n d two' (below_root d f n small below) small g))
  | inr h ↦
      let q : ℕ = n / d in
      let whole : d * q ≡ n = omega (arith, div-add-mod n d, g) in
      let less : q < d = smaller q (leb→gt _ _ h) whole in
      let two_q : 2 ≤ q = at_least q whole in
      let small : q * q ≤ n = omega (
        arith,
        mul-le-mul {n₁ = q} {m₁ = q} {n₂ = d} {m₂ = q} (omega (arith, less)) (omega arith),
        whole,
      ) in
      let divides : n % q ≡ 0 = ap (λ i. i % q) (sym whole ∙ mul_comm d q) ∙ mul-mod_right q d in
      absurd
        (omega (arith, e, has_divisor_of f n q two_q (below_root q f n small below) small divides))
]
  where
    smaller : (q : ℕ) → n < d * d → d * q ≡ n → q < d
    smaller q h whole = elim (Bool-cases (ltb q d)) [
      | inl k ↦ ltb→lt _ _ k
      | inr k ↦ absurd (
          omega (
            arith,
            h,
            whole,
            mul-le-mul {n₁ = d} {m₁ = d} {n₂ = d} {m₂ = q} (omega arith) (ltb→ge _ _ k),
          ))
    ]

    at_least : (q : ℕ) → d * q ≡ n → 2 ≤ q
    at_least zero whole = absurd (omega (arith, whole, two))
    at_least (suc zero) whole = absurd (omega (arith, whole, lt))
    at_least (suc (suc q)) whole = omega arith

not_crossed : (f n : ℕ) → 2 ≤ n → n < f * f → has_divisor f n ≡ 0 → IsPrime n
not_crossed f n two below e = record {
  two = two;
  no_divisor = λ d two' lt. no_factor f n d two below e two' lt;
}

prime_not_crossed : (f n : ℕ) → IsPrime n → has_divisor f n ≡ 0
prime_not_crossed f n p = elim (Bool-cases (has_divisor f n == 1)) [
  | inr e ↦ ground (arith, has_divisor-le f n)
  | inl e ↦
      let (d, two, lt, small, g) = divisor_of f n ((==_iff (has_divisor f n) 1).0 e) in
      let less : 2 * d ≤ d * d = mul-le-mul two (omega arith) in
      absurd (p.no_divisor d two (omega (arith, less, small, two)) g)
]

-- Primes are among the candidates.
not_divided : (n d : ℕ) → 2 ≤ d → IsPrime n → n ≢ d → (n % d == 0) ≡ false
not_divided n d two p ne = elim (Bool-cases (ltb n d)) [
  | inl e ↦ ground (arith, mod-eq_of_lt (ltb→lt _ _ e), p.two)
  | inr e ↦ ground (arith, p.no_divisor d two (omega (arith, ltb→ge _ _ e, ne)))
]

candidate_of : (n : ℕ) → IsPrime n → candidate n ≡ 1
candidate_of n p = elim (Bool-cases (small_prime n)) [
  | inl e ↦ rw e refl
  | inr e ↦
      rw
        (
          e,
          not_divided n 2 (omega arith) p (ground arith),
          not_divided n 3 (omega arith) p (ground arith),
          not_divided n 5 (omega arith) p (ground arith),
          not_divided n 7 (omega arith) p (ground arith),
        )
        refl
]

IsSorted-append :
    (xs : List ℕ) (y : ℕ) → IsSorted xs → All (λ x. x < y) xs → IsSorted (xs ++ (y ∷ []))
IsSorted-append [] y s a = (tt, tt)
IsSorted-append (x ∷ xs) y (le, s) (lt, a) = (all_le xs le, IsSorted-append xs y s a)
  where
    all_le : (zs : List ℕ) → All (λ z. x ≤ z) zs → All (λ z. x ≤ z) (zs ++ (y ∷ []))
    all_le [] b = (omega (arith, lt), tt)
    all_le (z ∷ zs) (l, b) = (l, all_le zs b)

All-lt-append : (xs : List ℕ) (y : ℕ) → All (λ x. x < y) xs → All (λ x. x < suc y) (xs ++ (y ∷ []))
All-lt-append [] y a = (omega arith, tt)
All-lt-append (x ∷ xs) y (lt, a) = (omega (arith, lt), All-lt-append xs y a)

All-lt-suc : (xs : List ℕ) (y : ℕ) → All (λ x. x < y) xs → All (λ x. x < suc y) xs
All-lt-suc [] y a = tt
All-lt-suc (x ∷ xs) y (lt, a) = (omega (arith, lt), All-lt-suc xs y a)

-- The numbers from `n` to below `limit` that are not crossed out.
abbrev new_entry : ℕ → ℕ → ℕ → ℕ → ℕ
new_entry f limit n m = if not (ltb m n) && (ltb m limit && has_divisor f m == 0) then 1 else 0

module _ (f limit n m : ℕ) (inside : n < limit) where
  new_entry-skip :
      (has_divisor f n == 0) ≡ false → new_entry f limit (suc n) m ≡ new_entry f limit n m
  new_entry-skip e = elim (Bool-cases (m == n)) [
    | inl q ↦ ground (arith, ap (has_divisor f) ((==_iff m n).0 q))
    | inr q ↦ ground arith
  ]

  new_entry-take :
      (has_divisor f n == 0) ≡ true
      → (if m == n then 1 else 0) + new_entry f limit (suc n) m ≡ new_entry f limit n m
  new_entry-take e = elim (Bool-cases (m == n)) [
    | inl q ↦ ground (arith, ap (has_divisor f) ((==_iff m n).0 q))
    | inr q ↦ ground arith
  ]

collect_lem :
    (f limit rounds : ℕ) (composite : List ℕ) (n : ℕ) (table : List ℕ)
    → length composite ≡ (limit + 7) / 8
    → ((k : ℕ) → k < limit → marked composite k ≡ has_divisor f k)
    → limit ≤ f * f
    → 2 ≤ n
    → n + rounds ≡ max limit n
    → length table ≤ candidates n
    → IsSorted table
    → All (λ x. x < n) table
    → (table' : List ℕ) × (collect limit rounds composite n table ≡ some table')
      × IsSorted table'
      × ((m : ℕ) → occurrences m table' ≡ occurrences m table + new_entry f limit n m)
unfolding collect candidates
collect_lem f limit zero composite n table len inv done two rounds_left few sorted below =
    (table, refl, sorted, λ m. ground arith)
collect_lem f limit (suc rounds) composite n table len inv done two rounds_left few sorted below =
    let inside : n < limit = omega (arith, rounds_left) in
    let tested : is_composite composite n ≡ some (not (has_divisor f n == 0)) =
      is_composite_lem composite n (omega (arith, len, inside))
      ∙ ap (λ v. some (not (v == 0))) (inv n inside) in
    elim (Bool-cases (has_divisor f n == 0)) [
      | inr e ↦
          let (table', e₁, sorted', all) =
            collect_lem f limit rounds composite (suc n) table len inv done (omega arith)
              (omega (arith, rounds_left)) (omega (arith, few)) sorted (All-lt-suc table n below) in
          (
            table',
            rw (collect, tested) (rw e e₁),
            sorted',
            λ m. omega (arith, all m, new_entry-skip f limit n m inside e),
          )
      | inl e ↦
          let prime : IsPrime n =
            not_crossed f n two (omega (arith, inside, done)) ((==_iff (has_divisor f n) 0).0 e) in
          let more : length table < table_room limit =
            omega (arith, few, candidate_of n prime, candidates_few (suc n), inside) in
          let (table', e₁, sorted', all) =
            collect_lem f limit rounds composite (suc n) (table ++ (n ∷ [])) len inv done
              (omega arith) (omega (arith, rounds_left))
              (omega (arith, few, candidate_of n prime, length-append table (n ∷ [])))
              (IsSorted-append table n sorted below) (All-lt-append table n below) in
          (
            table',
            rw (collect, tested) (rw (e, lt→ltb _ _ more) e₁),
            sorted',
            λ m. omega (
              arith,
              all m,
              occurrences-append m table (n ∷ []),
              new_entry-take f limit n m inside e,
            ),
          )
    ]

marked-replicate : (n k : ℕ) → marked (replicate n 0) k ≡ 0
unfolding marked
marked-replicate n k = ap (λ b. test_bit b (k % 8)) (zeros n (k / 8)) ∙ test_bit-zero (k % 8)
  where
    zeros : (n i : ℕ) → byte_at (replicate n 0) i ≡ 0
    zeros zero i = refl
    zeros (suc n) zero = refl
    zeros (suc n) (suc i) = zeros n i

has_divisor-two : (k : ℕ) → has_divisor 2 k ≡ 0
unfolding has_divisor
has_divisor-two k = ground arith

-- What the entries of the table are.
table_entry : (f limit n : ℕ) → limit ≤ f * f → new_entry f limit 2 n ≡ 1 → (n < limit) × IsPrime n
table_entry f limit n done e =
    let inside : n < limit = ground arith in
    let two : 2 ≤ n = ground arith in
    (inside, not_crossed f n two (omega (arith, inside, done)) (ground arith))

entry_of : (f limit n : ℕ) → n < limit → IsPrime n → new_entry f limit 2 n ≡ 1
entry_of f limit n inside p = ground (arith, prime_not_crossed f n p, p.two)

-- For every limit of at most 2 ^ 31 the table is built without leaving an array, its own of `limit / 4 + 10`
-- entries included; it is in ascending order, no number is in it twice, and a number is in it exactly if it is
-- a prime below the limit.
pub prime_table_lem :
    (limit : ℕ)
    → limit ≤ 2 ^ 31
    → (table : List ℕ) × (prime_table limit ≡ some table)
      × IsSorted table
      × ((n : ℕ) → occurrences n table ≤ 1)
      × ((n : ℕ) → (occurrences n table ≡ 1) ↔ ((n < limit) × IsPrime n))
unfolding prime_table
prime_table_lem limit fits =
    let size : ℕ = (limit + 7) / 8 in
    let (composite, f, e₁, len, done, inv) =
      cross_all_lem (suc limit) limit (replicate size 0) 2 (length-replicate size 0) fits
        (omega arith) (omega arith) (omega arith) (omega arith)
        (λ k h. marked-replicate size k ∙ sym (has_divisor-two k)) in
    let (table, e₂, sorted, all) =
      collect_lem f limit (limit - 2) composite 2 [] (len ∙ length-replicate size 0) inv done
        (omega arith) (omega arith) (omega arith) tt tt in
    (
      table,
      rw (prime_table, e₁) e₂,
      sorted,
      λ n. ground (arith, all n),
      λ n. (
        λ h. table_entry f limit n done (omega (arith, all n, h)),
        λ h. omega (arith, all n, entry_of f limit n h.0 h.1),
      ),
    )
