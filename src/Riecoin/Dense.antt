-- ===== src/Riecoin/Dense.antt =====
-- What the master's loop over the dense primes marks.
use fastrie.Base.{
  ℕ, zero, suc, ◌+◌, ◌*◌, ◌^◌, ◌≤◌, ◌<◌, max, ◌≡◌, ◌⊎◌, refl, sym, ap, subst, ◌∙◌, some, ltb,
  ltb→lt, ltb→ge, if◌then◌else◌, List, [], ◌∷◌, length, length-set, set, get_or, get_elem?-get_or,
  get_or-set_self, get_or-set_ne, Bool-cases, inl, inr, arith, add32, sub32,
}
use native.Mathlib.Nat.{suc-mul}
use fastrie.Riecoin.Sieve.{sieve_size, sort_pass, sort_rounds, silly_sort_indexes}
use fastrie.Riecoin.Merging.{strike_now, dense_offsets, dense_primes}
use fastrie.Riecoin.Marks.{marked, mark_lem}
use fastrie.Riecoin.Reach.{reach, reach-step, reach-before, reach-next}
use fastrie.Riecoin.Rows.{
  row_reach, rows_reach, rows_reach-set, AllSmall, AreRows, AreRows-set, next_small, Kept,
  Outside-suc,
}

-- Inside the sieve.
abbrev pub within : ℕ → ℕ → ℕ
within k reached = if ltb k sieve_size then reached else 0

-- What the loop over one offset leaves behind.
record Struck (sieve sieve' : List ℕ) (p offset offset' n : ℕ) : Type 0 where
  wide : length sieve' ≡ length sieve
  bits : (k : ℕ) → marked sieve' k ≡ max (marked sieve k) (within k (reach p offset k))
  moved : offset' ≡ offset + n * p
  behind : sieve_size ≤ offset'
  next : ((sieve_size ≤ offset) × (n ≡ 0)) ⊎ (offset' < sieve_size + p)

strike_now_lem :
    (fuel : ℕ) (sieve : List ℕ) (p offset : ℕ)
    → 8 * length sieve ≡ sieve_size
    → 1 ≤ p
    → p < 2 ^ 31
    → 1 ≤ fuel
    → sieve_size < fuel + offset
    → (sieve' : List ℕ) × (offset' : ℕ) × (n : ℕ) × (strike_now fuel sieve p offset
        ≡ some (sieve', offset'))
      × Struck sieve sieve' p offset offset' n
unfolding strike_now
strike_now_lem zero sieve p offset wide lp hp one enough = absurd (omega arith)
strike_now_lem (suc fuel) sieve p offset wide lp hp one enough =
    elim (Bool-cases (ltb offset sieve_size)) [
      | inr e ↦ (
        sieve,
        offset,
        0,
        rw (e, strike_now) refl,
        record {
          wide = refl;
          bits = λ k. ground (arith, reach-before p offset k, ltb→ge offset sieve_size e);
          moved = omega arith;
          behind = ltb→ge _ _ e;
          next = inl (ltb→ge _ _ e, refl);
        },
      )
      | inl e ↦
          let lt : offset < sieve_size = ltb→lt _ _ e in
          let (sieve₁, e₁, same₁, bits₁) = mark_lem sieve offset (omega (arith, wide)) in
          let same : add32 offset p ≡ offset + p = omega arith in
          let (sieve₂, offset₂, n, e₂, st) =
            strike_now_lem fuel sieve₁ p (offset + p) (ap (λ i. 8 * i) same₁ ∙ wide) lp hp
              (omega arith) (omega arith) in
          (
            sieve₂,
            offset₂,
            suc n,
            rw (strike_now, e) (rw e₁ (ap (strike_now fuel sieve₁ p) same ∙ e₂)),
            record {
              wide = st.wide ∙ same₁;
              bits = λ k. ground (arith, bits₁ k, st.bits k, reach-step p offset k lp);
              moved = omega (arith, st.moved, suc-mul n p);
              behind = st.behind;
              next = inr (elim (st.next) [
                | inl (past, none_more) ↦ omega (arith, st.moved, ap (λ i. i * p) none_more)
                | inr near ↦ near
              ]);
            },
          )
    ]

dense_offsets_lem :
    (sieve : List ℕ) (p : ℕ) (os : List ℕ)
    → 8 * length sieve ≡ sieve_size
    → 1 ≤ p
    → p < 2 ^ 31
    → AllSmall os
    → (sieve' : List ℕ) × (os' : List ℕ) × (dense_offsets sieve p os ≡ some (sieve', os'))
      × (length sieve' ≡ length sieve)
      × ((k : ℕ) → marked sieve' k ≡ max (marked sieve k) (within k (row_reach p os k)))
      × ((k : ℕ) → row_reach p os' k ≡ row_reach p os (sieve_size + k))
      × AllSmall os'
unfolding dense_offsets row_reach
dense_offsets_lem sieve p [] wide lp hp a =
    (sieve, [], refl, refl, λ k. ground arith, λ k. refl, tt)
dense_offsets_lem sieve p (o ∷ os) wide lp hp (small, a) =
    let (sieve₁, o₁, n, e₁, st) =
      strike_now_lem (suc sieve_size) sieve p o wide lp hp (omega arith) (omega arith) in
    let (sieve₂, os₂, e₂, same₂, bits₂, later, a₂) =
      dense_offsets_lem sieve₁ p os (ap (λ i. 8 * i) st.wide ∙ wide) lp hp a in
    let (o', near, small') = next_small st.moved st.behind st.next small hp in
    (
      sieve₂,
      sub32 o₁ sieve_size ∷ os₂,
      rw (dense_offsets, e₁) (rw e₂ refl),
      same₂ ∙ st.wide,
      λ k. ground (arith, bits₂ k, st.bits k),
      λ k. omega (
        arith,
        later k,
        ap (λ i. reach p i k) o',
        reach-next p o n k lp near (omega (arith, st.moved, st.behind)),
      ),
      (small', a₂),
    )

-- Sorting the offsets of a prime changes nothing about where they reach.
sort_pass-reach :
    (p x : ℕ) (xs : List ℕ) (k : ℕ)
    → max (reach p (sort_pass x xs).0 k) (row_reach p (sort_pass x xs).1 k)
      ≡ max (reach p x k) (row_reach p xs k)
unfolding sort_pass row_reach
sort_pass-reach p x [] k = refl
sort_pass-reach p x (y ∷ ys) k = elim (Bool-cases (ltb y x)) [
  | inl e ↦ rw e (omega (arith, sort_pass-reach p y ys k))
  | inr e ↦ rw e (omega (arith, sort_pass-reach p x ys k))
]

sort_pass-AllSmall :
    (x : ℕ) (xs : List ℕ) → AllSmall (x ∷ xs) → AllSmall ((sort_pass x xs).0 ∷ (sort_pass x xs).1)
unfolding sort_pass
sort_pass-AllSmall x [] a = a
sort_pass-AllSmall x (y ∷ ys) (sx, (sy, a)) = elim (Bool-cases (ltb y x)) [
  | inl e ↦ let (h, t) = sort_pass-AllSmall y ys (sy, a) in rw e (h, (sx, t))
  | inr e ↦ let (h, t) = sort_pass-AllSmall x ys (sx, a) in rw e (h, (sy, t))
]

sort_rounds-reach :
    (p n : ℕ) (xs : List ℕ) (k : ℕ) → row_reach p (sort_rounds n xs) k ≡ row_reach p xs k
unfolding sort_rounds row_reach
sort_rounds-reach p zero xs k = refl
sort_rounds-reach p (suc n) [] k = refl
sort_rounds-reach p (suc n) (x ∷ xs) k =
    omega (arith, sort_rounds-reach p n (sort_pass x xs).1 k, sort_pass-reach p x xs k)

sort_rounds-AllSmall : (n : ℕ) (xs : List ℕ) → AllSmall xs → AllSmall (sort_rounds n xs)
unfolding sort_rounds
sort_rounds-AllSmall zero xs a = a
sort_rounds-AllSmall (suc n) [] a = tt
sort_rounds-AllSmall (suc n) (x ∷ xs) a =
    let (h, t) = sort_pass-AllSmall x xs a in (h, sort_rounds-AllSmall n (sort_pass x xs).1 t)

-- The master's loop over `n` dense primes ends and never leaves an array. A bit is marked afterwards
-- exactly if it was before or if it stands at one of the primes' offsets or a multiple of its prime behind
-- it, position 0 included. The offsets that are left are valid, and reach in the next segment exactly what
-- the old ones reach there; the offsets of other primes stay.
pub dense_primes_lem :
    (primes : List ℕ) (n pno : ℕ) (sieve : List ℕ) (offsets : List (List ℕ))
    → 8 * length sieve ≡ sieve_size
    → AreRows primes offsets n pno
    → (sieve' : List ℕ) × (offsets' : List (List ℕ)) × (dense_primes primes n pno sieve offsets
        ≡ some (sieve', offsets'))
      × (length sieve' ≡ length sieve)
      × ((k : ℕ)
          → marked sieve' k ≡ max (marked sieve k) (within k (rows_reach primes offsets n pno k)))
      × ((k : ℕ)
          → rows_reach primes offsets' n pno k ≡ rows_reach primes offsets n pno (sieve_size + k))
      × AreRows primes offsets' n pno
      × Kept offsets offsets' n pno
      × (length offsets' ≡ length offsets)
unfolding dense_primes rows_reach silly_sort_indexes
dense_primes_lem primes zero pno sieve offsets wide a =
    (sieve, offsets, refl, refl, λ k. ground arith, λ k. refl, tt, λ j h. refl, refl)
dense_primes_lem primes (suc n) pno sieve offsets wide (r, a) =
    let p : ℕ = get_or primes pno 0 in
    let six : List ℕ = get_or offsets pno [] in
    let (sieve₁, six₁, e₁, same₁, bits₁, later₁, small₁) =
      dense_offsets_lem sieve p (silly_sort_indexes six) wide r.positive r.small
        (sort_rounds-AllSmall 5 six r.offsets_small) in
    let offsets₁ : List (List ℕ) = set offsets pno six₁ in
    let (sieve₂, offsets₂, e₂, same₂, bits₂, later₂, rows₂, kept₂, length₂) =
      dense_primes_lem primes n (suc pno) sieve₁ offsets₁ (ap (λ i. 8 * i) same₁ ∙ wide)
        (AreRows-set primes offsets six₁ n pno (suc pno) (omega arith) a) in
    let mine : get_or offsets₂ pno [] ≡ six₁ =
      kept₂ pno (inl (omega arith)) ∙ get_or-set_self offsets pno six₁ [] r.in_offsets in
    (
      sieve₂,
      offsets₂,
      rw
          (
            dense_primes,
            get_elem?-get_or primes pno 0 r.in_primes,
            get_elem?-get_or offsets pno [] r.in_offsets,
          )
          (rw e₁ e₂),
      same₂ ∙ same₁,
      λ k. ground (
        arith,
        bits₁ k,
        bits₂ k,
        sort_rounds-reach p 5 six k,
        rows_reach-set primes offsets six₁ n pno (suc pno) k (omega arith),
      ),
      λ k. omega (
        arith,
        later₁ k,
        later₂ k,
        sort_rounds-reach p 5 six (sieve_size + k),
        ap (λ os. row_reach p os k) mine,
        rows_reach-set primes offsets six₁ n pno (suc pno) (sieve_size + k) (omega arith),
      ),
      (
        record {
          in_primes = r.in_primes;
          in_offsets = omega (arith, r.in_offsets, length₂, length-set offsets pno six₁);
          positive = r.positive;
          small = r.small;
          offsets_small = subst AllSmall (sym mine) small₁;
        },
        rows₂,
      ),
      λ j h.
          let (h', ne) = Outside-suc pno n j h in
          kept₂ j h' ∙ get_or-set_ne offsets {i = pno} {j = j} six₁ [] ne,
      length₂ ∙ length-set offsets pno six₁,
    )
