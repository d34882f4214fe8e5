-- ===== src/Riecoin/Strikes.antt =====
-- Striking out the multiples of one prime in one segment of the sieve.
use fastrie.Base.{
  ℕ, zero, suc, ◌+◌, ◌*◌, ◌^◌, ◌≤◌, ◌<◌, max, ◌≡◌, refl, ◌∙◌, ap, some, List, [], ◌∷◌, add32, ltb,
  ltb→lt, ltb→ge, arith, Bool-cases, inl, inr, ◌⊎◌,
}
use native.Mathlib.Nat.{suc-mul}
use fastrie.Riecoin.Sieve.{sieve_size, Pending, strike}
use fastrie.Riecoin.Marks.{hit, hits, Holds, AllBelow, add_to_pending_lem}

-- `n` positions from `offset` on, `p` apart.
unfoldable pub progression : ℕ → ℕ → ℕ → List ℕ
progression offset p zero = []
progression offset p (suc n) = offset ∷ progression (offset + p) p n

-- What the loop over one offset leaves behind.
pub record Struck (sieve' : List ℕ) (pending' : Pending) (all : ℕ → ℕ) (p offset offset' n : ℕ)
    : Type 0 where
  pub holds : Holds sieve' pending' (λ k. max (all k) (hits k (progression offset p n)))
  pub moved : offset' ≡ offset + n * p
  pub behind : sieve_size ≤ offset'
  pub next : ((sieve_size ≤ offset) × (n ≡ 0)) ⊎ (offset' < sieve_size + p)
  pub inside : AllBelow (progression offset p n)

-- The loop of `process_sieve` over one offset of a prime `p`, from a sieve with pending marks: it ends,
-- with at most one round per position of the sieve, never leaves an array or fails the assertion, and
-- adds exactly the marks at `offset`, `offset + p` and so on below the end of the sieve (position 0
-- apart); the offset it leaves is the first of these positions at or behind the end.
pub strike_lem :
    (fuel : ℕ) (sieve : List ℕ) (pending : Pending) (all : ℕ → ℕ) (p offset : ℕ)
    → Holds sieve pending all
    → 1 ≤ p
    → p < 2 ^ 31
    → 1 ≤ fuel
    → sieve_size < fuel + offset
    → (sieve' : List ℕ) × (pending' : Pending) × (offset' : ℕ) × (n : ℕ) × (strike fuel sieve
          pending p offset
        ≡ some (sieve', pending', offset'))
      × Struck sieve' pending' all p offset offset' n
unfolding strike progression hits
strike_lem zero sieve pending all p offset v lp hp one enough = absurd (omega arith)
strike_lem (suc fuel) sieve pending all p offset v lp hp one enough =
    elim (Bool-cases (ltb offset sieve_size)) [
      | inr e ↦ (
        sieve,
        pending,
        offset,
        0,
        rw (e, strike) refl,
        record {
          holds = record {
            wide = v.wide;
            slots = v.slots;
            pos = v.pos;
            below = v.below;
            together = λ k. omega (arith, v.together k);
          };
          moved = omega arith;
          behind = ltb→ge _ _ e;
          next = inl (ltb→ge _ _ e, refl);
          inside = tt;
        },
      )
      | inl e ↦
          let lt : offset < sieve_size = ltb→lt _ _ e in
          let (sieve₁, pending₁, e₁, v₁) = add_to_pending_lem sieve pending offset all v lt in
          let same : add32 offset p ≡ offset + p = omega arith in
          let (sieve₂, pending₂, offset₂, n, e₂, st) =
            strike_lem fuel sieve₁ pending₁ (λ k. max (all k) (hit k offset)) p (offset + p) v₁ lp
              hp (omega arith) (omega arith) in
          (
            sieve₂,
            pending₂,
            offset₂,
            suc n,
            rw (e, strike, e₁) (ap (strike fuel sieve₁ pending₁ p) same ∙ e₂),
            record {
              holds = record {
                wide = st.holds.wide;
                slots = st.holds.slots;
                pos = st.holds.pos;
                below = st.holds.below;
                together = λ k. omega (arith, st.holds.together k);
              };
              moved = omega (arith, st.moved, suc-mul n p);
              behind = st.behind;
              next = inr (elim (st.next) [
                | inl (past, none_more) ↦ omega (arith, st.moved, ap (λ i. i * p) none_more)
                | inr near ↦ near
              ]);
              inside = (lt, st.inside);
            },
          )
    ]
