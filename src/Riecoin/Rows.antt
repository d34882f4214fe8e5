-- ===== src/Riecoin/Rows.antt =====
-- `process_sieve` over a range of primes: what is marked, and the offsets that it leaves for the next
-- segment.
use fastrie.Base.{
  ℕ, zero, suc, ◌+◌, ◌-◌, ◌*◌, ◌^◌, ◌≤◌, ◌<◌, max, ◌≡◌, ◌≢◌, ◌⊎◌, refl, sym, ap, subst, ◌∙◌, some,
  ◌&&◌, ltb, if◌then◌else◌, List, [], ◌∷◌, length, length-set, set, get_or, get_elem?-get_or,
  get_or-set_self, get_or-set_ne, All, inl, inr, arith, sub32,
}
use fastrie.Riecoin.Sieve.{
  sieve_size, Pending, init_pending, strike_offsets, strike_primes, process_sieve,
}
use fastrie.Riecoin.Marks.{marked, hits, Holds, init-Holds, flush_pending_lem}
use fastrie.Riecoin.Strikes.{progression, strike_lem}
use fastrie.Riecoin.Reach.{reach, strikes, hits-progression, reach-next}

-- The positions that the offsets of one prime reach, and those of `n` primes from number `pno` on.
unfoldable pub row_reach : ℕ → List ℕ → ℕ → ℕ
row_reach p [] k = 0
row_reach p (o ∷ os) k = max (reach p o k) (row_reach p os k)

unfoldable pub rows_reach : List ℕ → List (List ℕ) → ℕ → ℕ → ℕ → ℕ
rows_reach primes offsets zero pno k = 0
rows_reach primes offsets (suc n) pno k =
    max (row_reach (get_or primes pno 0) (get_or offsets pno []) k)
      (rows_reach primes offsets n (suc pno) k)

-- The part of it that is marked: inside the sieve, and position 0 never.
abbrev pub in_sieve : ℕ → ℕ → ℕ
in_sieve k reached = if ltb 0 k && ltb k sieve_size then reached else 0

abbrev pub AllSmall : List ℕ → Type 0
AllSmall os = All (λ o. o < 2 ^ 31) os

-- What the tables hold at one prime, and at `n` primes.
pub record IsRow (primes : List ℕ) (offsets : List (List ℕ)) (pno : ℕ) : Type 0 where
  pub in_primes : pno < length primes
  pub in_offsets : pno < length offsets
  pub positive : 1 ≤ get_or primes pno 0
  pub small : get_or primes pno 0 < 2 ^ 31
  pub offsets_small : AllSmall (get_or offsets pno [])

abbrev pub AreRows : List ℕ → List (List ℕ) → ℕ → ℕ → Type 0
AreRows primes offsets zero pno = Unit {0}
AreRows primes offsets (suc n) pno = IsRow primes offsets pno × AreRows primes offsets n (suc pno)

pub next_small :
    {o o₁ n p : ℕ}
    → o₁ ≡ o + n * p
    → sieve_size ≤ o₁
    → ((sieve_size ≤ o) × (n ≡ 0)) ⊎ (o₁ < sieve_size + p)
    → o < 2 ^ 31
    → p < 2 ^ 31
    → (o + n * p - sieve_size ≡ sub32 o₁ sieve_size)
      × (((sieve_size ≤ o) × (n ≡ 0)) ⊎ (o + n * p < sieve_size + p))
      × (sub32 o₁ sieve_size < 2 ^ 31)
next_small {o} {o₁} {n} {p} e behind w ho hp = elim w [
  | inl (far, none_left) ↦
      let same : n * p ≡ 0 = ap (λ i. i * p) none_left ∙ omega arith in
      (omega (arith, e, same), inl (far, none_left), omega (arith, e, same))
  | inr near ↦ (omega (arith, e), inr (omega (arith, e)), omega (arith, e))
]

strike_offsets_lem :
    (sieve : List ℕ) (pending : Pending) (p : ℕ) (os : List ℕ) (all : ℕ → ℕ)
    → Holds sieve pending all
    → 1 ≤ p
    → p < 2 ^ 31
    → AllSmall os
    → (sieve' : List ℕ) × (pending' : Pending) × (os' : List ℕ) × (strike_offsets sieve pending p os
        ≡ some (sieve', pending', os'))
      × Holds sieve' pending' (λ k. max (all k) (in_sieve k (row_reach p os k)))
      × ((k : ℕ) → row_reach p os' k ≡ row_reach p os (sieve_size + k))
      × AllSmall os'
unfolding strike_offsets row_reach strikes
strike_offsets_lem sieve pending p [] all v lp hp a = (
  sieve,
  pending,
  [],
  refl,
  record {
    wide = v.wide;
    slots = v.slots;
    pos = v.pos;
    below = v.below;
    together = λ k. ground (arith, v.together k);
  },
  λ k. refl,
  tt,
)
strike_offsets_lem sieve pending p (o ∷ os) all v lp hp (small, a) =
    let (sieve₁, pending₁, o₁, n, e₁, st) =
      strike_lem (suc sieve_size) sieve pending all p o v lp hp (omega arith) (omega arith) in
    let (sieve₂, pending₂, os₂, e₂, v₂, later, a₂) =
      strike_offsets_lem sieve₁ pending₁ p os (λ k. max (all k) (hits k (progression o p n)))
        st.holds lp hp a in
    let (o', near, small') = next_small st.moved st.behind st.next small hp in
    (
      sieve₂,
      pending₂,
      sub32 o₁ sieve_size ∷ os₂,
      rw (strike_offsets, e₁) (rw e₂ refl),
      record {
        wide = v₂.wide;
        slots = v₂.slots;
        pos = v₂.pos;
        below = v₂.below;
        together = λ k. ground (
          arith,
          v₂.together k,
          hits-progression p o n k lp near (omega (arith, st.moved, st.behind)),
        );
      },
      λ k. omega (
        arith,
        later k,
        ap (λ i. reach p i k) o',
        reach-next p o n k lp near (omega (arith, st.moved, st.behind)),
      ),
      (small', a₂),
    )

-- Rows in front of a changed one, or behind it, are what they were.
pub rows_reach-set :
    (primes : List ℕ) (offsets : List (List ℕ)) (os : List ℕ) (n j pno k : ℕ)
    → j < pno
    → rows_reach primes (set offsets j os) n pno k ≡ rows_reach primes offsets n pno k
unfolding rows_reach
rows_reach-set primes offsets os zero j pno k h = refl
rows_reach-set primes offsets os (suc n) j pno k h = omega (
  arith,
  ap (λ r. row_reach (get_or primes pno 0) r k)
      (get_or-set_ne offsets {i = j} {j = pno} os [] (λ e. omega (arith, e))),
  rows_reach-set primes offsets os n j (suc pno) k (omega arith),
)

pub AreRows-set :
    (primes : List ℕ) (offsets : List (List ℕ)) (os : List ℕ) (n j pno : ℕ)
    → j < pno
    → AreRows primes offsets n pno
    → AreRows primes (set offsets j os) n pno
AreRows-set primes offsets os zero j pno h a = tt
AreRows-set primes offsets os (suc n) j pno h (r, a) = (
  record {
    in_primes = r.in_primes;
    in_offsets = subst (λ i. pno < i) (sym (length-set offsets j os)) r.in_offsets;
    positive = r.positive;
    small = r.small;
    offsets_small =
        subst AllSmall (sym (get_or-set_ne offsets {i = j} {j = pno} os [] (λ e. omega (arith, e))))
          r.offsets_small;
  },
  AreRows-set primes offsets os n j (suc pno) (omega arith) a,
)

-- The rows that a loop over `n` primes from number `pno` on leaves alone.
abbrev pub Outside : ℕ → ℕ → ℕ → Type 0
Outside pno n j = (j < pno) ⊎ (pno + n ≤ j)

abbrev pub Kept : List (List ℕ) → List (List ℕ) → ℕ → ℕ → Type 0
Kept offsets offsets' n pno = (j : ℕ) → Outside pno n j → get_or offsets' j [] ≡ get_or offsets j []

pub Outside-suc : (pno n j : ℕ) → Outside pno (suc n) j → Outside (suc pno) n j × (pno ≢ j)
Outside-suc pno n j (inl h) = (inl (omega arith), λ e. omega (arith, e))
Outside-suc pno n j (inr h) = (inr (omega arith), λ e. omega (arith, e))

strike_primes_lem :
    (primes : List ℕ) (n pno : ℕ) (sieve : List ℕ) (pending : Pending) (offsets : List (List ℕ))
    (all : ℕ → ℕ)
    → Holds sieve pending all
    → AreRows primes offsets n pno
    → (sieve' : List ℕ) × (pending' : Pending) × (offsets' : List (List ℕ)) × (strike_primes primes
          n pno sieve pending offsets
        ≡ some (sieve', pending', offsets'))
      × Holds sieve' pending' (λ k. max (all k) (in_sieve k (rows_reach primes offsets n pno k)))
      × ((k : ℕ)
          → rows_reach primes offsets' n pno k ≡ rows_reach primes offsets n pno (sieve_size + k))
      × AreRows primes offsets' n pno
      × Kept offsets offsets' n pno
      × (length offsets' ≡ length offsets)
unfolding strike_primes rows_reach
strike_primes_lem primes zero pno sieve pending offsets all v a = (
  sieve,
  pending,
  offsets,
  refl,
  record {
    wide = v.wide;
    slots = v.slots;
    pos = v.pos;
    below = v.below;
    together = λ k. ground (arith, v.together k);
  },
  λ k. refl,
  tt,
  λ j h. refl,
  refl,
)
strike_primes_lem primes (suc n) pno sieve pending offsets all v (r, a) =
    let p : ℕ = get_or primes pno 0 in
    let six : List ℕ = get_or offsets pno [] in
    let (sieve₁, pending₁, six₁, e₁, v₁, later₁, small₁) =
      strike_offsets_lem sieve pending p six all v r.positive r.small r.offsets_small in
    let offsets₁ : List (List ℕ) = set offsets pno six₁ in
    let (sieve₂, pending₂, offsets₂, e₂, v₂, later₂, rows₂, same₂, length₂) =
      strike_primes_lem primes n (suc pno) sieve₁ pending₁ offsets₁
        (λ k. max (all k) (in_sieve k (row_reach p six k))) v₁
        (AreRows-set primes offsets six₁ n pno (suc pno) (omega arith) a) in
    let mine : get_or offsets₂ pno [] ≡ six₁ =
      same₂ pno (inl (omega arith)) ∙ get_or-set_self offsets pno six₁ [] r.in_offsets in
    (
      sieve₂,
      pending₂,
      offsets₂,
      rw
          (
            strike_primes,
            get_elem?-get_or primes pno 0 r.in_primes,
            get_elem?-get_or offsets pno [] r.in_offsets,
          )
          (rw e₁ e₂),
      record {
        wide = v₂.wide;
        slots = v₂.slots;
        pos = v₂.pos;
        below = v₂.below;
        together = λ k. ground (
          arith,
          v₂.together k,
          rows_reach-set primes offsets six₁ n pno (suc pno) k (omega arith),
        );
      },
      λ k. omega (
        arith,
        later₁ k,
        later₂ k,
        ap (λ os. row_reach p os k) mine,
        rows_reach-set primes offsets six₁ n pno (suc pno) (sieve_size + k) (omega arith),
      ),
      (
        record {
          in_primes = r.in_primes;
          in_offsets = omega (arith, r.in_offsets, length₂, length-set offsets pno six₁);
          positive = r.positive;
          small = r.small;
          offsets_small = subst AllSmall (sym mine) small₁;
        },
        rows₂,
      ),
      λ j h.
          let (h', ne) = Outside-suc pno n j h in
          same₂ j h' ∙ get_or-set_ne offsets {i = pno} {j = j} six₁ [] ne,
      length₂ ∙ length-set offsets pno six₁,
    )

-- `process_sieve` over `n` primes whose tables have valid entries ends, never leaves an array and never
-- fails its assertion. A bit is marked afterwards exactly if it was before, or if it stands, other than at
-- position 0, at one of the primes' offsets or a multiple of its prime behind it. The offsets that are left
-- are valid, and reach in the next segment exactly what the old ones reach there; the offsets of other
-- primes stay.
pub process_sieve_lem :
    (primes : List ℕ) (starting_prime_index : ℕ) (sieve : List ℕ) (offsets : List (List ℕ))
    (start_i n : ℕ)
    → 8 * length sieve ≡ sieve_size
    → AreRows primes offsets n (start_i + starting_prime_index)
    → (sieve' : List ℕ) × (offsets' : List (List ℕ)) × (process_sieve primes starting_prime_index
          sieve offsets start_i
          (start_i + n)
        ≡ some (sieve', offsets'))
      × (length sieve' ≡ length sieve)
      × ((k : ℕ)
          → marked sieve' k
            ≡ max
                (marked sieve k)
                (in_sieve k (rows_reach primes offsets n (start_i + starting_prime_index) k)))
      × ((k : ℕ)
          → rows_reach primes offsets' n (start_i + starting_prime_index) k
            ≡ rows_reach primes offsets n (start_i + starting_prime_index) (sieve_size + k))
      × AreRows primes offsets' n (start_i + starting_prime_index)
      × Kept offsets offsets' n (start_i + starting_prime_index)
      × (length offsets' ≡ length offsets)
unfolding process_sieve
process_sieve_lem primes sp sieve offsets start_i n wide a =
    let (sieve₁, pending₁, offsets₁, e₁, v₁, later, rows, same, len) =
      strike_primes_lem primes n (start_i + sp) sieve init_pending offsets (λ k. marked sieve k)
        (init-Holds sieve wide) a in
    let (sieve₂, e₂, same₂, bits₂) = flush_pending_lem pending₁.slots sieve₁ v₁.wide v₁.below in
    (
      sieve₂,
      offsets₁,
      rw (process_sieve, rounds start_i n) (rw e₁ (rw e₂ refl)),
      omega (arith, same₂, v₁.wide, wide),
      λ k. omega (arith, bits₂ k, v₁.together k),
      later,
      rows,
      same,
      len,
    )
  where
    rounds : (start_i n : ℕ) → start_i + n - start_i ≡ n
    rounds start_i n = omega arith
