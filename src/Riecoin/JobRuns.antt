-- ===== src/Riecoin/JobRuns.antt =====
-- The workers' part of a round: every job of the round strikes its primes in its sieve.
use fastrie.Base.{
  ℕ, zero, suc, ◌+◌, ◌-◌, ◌*◌, ◌≤◌, ◌<◌, max, ◌≡◌, refl, sym, ap, subst, ◌∙◌, some, List, [], ◌∷◌,
  length, get_or, get_elem?-get_or, set, length-set, inr, arith,
}
use fastrie.Riecoin.Sieve.{sieve_size, process_sieve}
use fastrie.Riecoin.Jobs.{Work, Tiles, Numbered}
use fastrie.Riecoin.Segment.{run_jobs}
use fastrie.Riecoin.Marks.{marked}
use fastrie.Riecoin.Rows.{rows_reach, in_sieve, AreRows, process_sieve_lem}
use fastrie.Riecoin.Merged.{marked_in, AllFit}
use fastrie.Riecoin.WholeScan.{AllBytes}
use fastrie.Riecoin.Bytes.{BytesWith, process_sieve-Bytes}
use fastrie.Riecoin.RowRanges.{
  AreRows-at, AreRows-of, rows_reach-kept, rows_reach-split, Ran, Ran-join, AreRows-kept,
}

-- A sieve of the workers that got more marks.
marked_in-set :
    (sieves : List (List ℕ)) (i : ℕ) (sieve' : List ℕ) (k more : ℕ)
    → i < length sieves
    → marked sieve' k ≡ max (marked (get_or sieves i []) k) more
    → marked_in (set sieves i sieve') k ≡ max (marked_in sieves k) more
unfolding marked_in
marked_in-set [] i sieve' k more h e = absurd (omega arith)
marked_in-set (s ∷ ss) zero sieve' k more h e = omega (arith, e)
marked_in-set (s ∷ ss) (suc i) sieve' k more h e =
    omega (arith, marked_in-set ss i sieve' k more (omega arith) e)

AllFit-at :
    (n i : ℕ) (sieves : List (List ℕ))
    → AllFit n sieves
    → i < length sieves
    → AllBytes (get_or sieves i []) × (length (get_or sieves i []) ≡ n)
AllFit-at n i [] a h = absurd (omega arith)
AllFit-at n zero (s ∷ ss) (p, a) h = p
AllFit-at n (suc i) (s ∷ ss) (p, a) h = AllFit-at n i ss a (omega arith)

AllFit-set :
    (n i : ℕ) (sieves : List (List ℕ)) (s : List ℕ)
    → AllFit n sieves
    → AllBytes s
    → length s ≡ n
    → AllFit n (set sieves i s)
AllFit-set n i [] s a b e = tt
AllFit-set n zero (x ∷ ss) s (p, a) b e = ((b, e), a)
AllFit-set n (suc i) (x ∷ ss) s (p, a) b e = (p, AllFit-set n i ss s a b e)

Tiles-le : (a b : ℕ) (jobs : List Work) → Tiles a b jobs → a ≤ b
Tiles-le a b [] e = omega (arith, e)
Tiles-le a b (j ∷ js) (s, lt, t) = omega (arith, lt, Tiles-le j.end b js t)

pub run_jobs_lem :
    (primes : List ℕ) (sp size : ℕ) (jobs : List Work) (a b i n : ℕ)
    (sieves offsets : List (List ℕ))
    → 8 * size ≡ sieve_size
    → Tiles a b jobs
    → b ≡ a + n
    → Numbered i jobs
    → i + length jobs ≤ length sieves
    → AllFit size sieves
    → AreRows primes offsets n (a + sp)
    → (sieves' : List (List ℕ)) × (offsets' : List (List ℕ)) × (run_jobs primes sp jobs sieves
          offsets
        ≡ some (sieves', offsets'))
      × AllFit size sieves'
      × ((k : ℕ)
          → marked_in sieves' k
            ≡ max (marked_in sieves k) (in_sieve k (rows_reach primes offsets n (a + sp) k)))
      × Ran primes offsets offsets' n (a + sp)
unfolding run_jobs rows_reach
run_jobs_lem primes sp size [] a b i zero sieves offsets wide t eb num room fit rows = (
  sieves,
  offsets,
  refl,
  fit,
  λ k. ground arith,
  record { later = λ k. refl; rows = tt; kept = λ j out. refl; size = refl },
)
run_jobs_lem primes sp size [] a b i (suc n) sieves offsets wide t eb num room fit rows =
    absurd (omega (arith, t, eb))
run_jobs_lem primes sp size (j ∷ js) a b i n sieves offsets wide (starts, lt, t) eb (id, num) room
      fit rows =
    let m : ℕ = j.end - a in
    let n₂ : ℕ = b - j.end in
    let le : j.end ≤ b = Tiles-le j.end b js t in
    let parts : n ≡ m + n₂ = omega (arith, lt, le, eb) in
    let next : j.end + sp ≡ m + (a + sp) = omega (arith, lt) in
    let inside : j.sieve_id < length sieves = omega (arith, id, room) in
    let s : List ℕ = get_or sieves j.sieve_id [] in
    let (bytes, same_size) = AllFit-at size j.sieve_id sieves fit inside in
    let (s₁, offsets₁, e₁, len₁, bits₁, later₁, rows₁, kept₁, size₁) =
      process_sieve_lem primes sp s offsets a m (ap (λ k. 8 * k) same_size ∙ wide) (
        AreRows-of primes offsets m (a + sp)
          (λ k lo hi. AreRows-at primes offsets n (a + sp) k rows lo (omega (arith, hi, parts)))) in
    let made : process_sieve primes sp s offsets j.start j.end ≡ some (s₁, offsets₁) =
      ap (λ k. process_sieve primes sp s offsets k j.end) starts
      ∙ ap (process_sieve primes sp s offsets a) (omega (arith, lt))
      ∙ e₁ in
    let behind : AreRows primes offsets n₂ (m + (a + sp)) =
      AreRows-of primes offsets n₂ (m + (a + sp)) (λ k lo hi.
        AreRows-at primes offsets n (a + sp) k rows (omega (arith, lo))
          (omega (arith, hi, parts))) in
    let sieves₁ : List (List ℕ) = set sieves j.sieve_id s₁ in
    let (sieves₂, offsets₂, e₂, fit₂, bits₂, r₂) =
      run_jobs_lem primes sp size js j.end b (suc i) n₂ sieves₁ offsets₁ wide t (omega (arith, le))
        num (omega (arith, room, length-set sieves j.sieve_id s₁))
        (AllFit-set size j.sieve_id sieves s₁ fit
          (subst BytesWith e₁ (process_sieve-Bytes primes sp s offsets a (a + m) bytes))
          (len₁ ∙ same_size))
        (subst (λ k. AreRows primes offsets₁ n₂ k) (sym next)
          (AreRows-kept primes offsets offsets₁ m n₂ (a + sp) kept₁ size₁ behind)) in
    (
      sieves₂,
      offsets₂,
      rw (run_jobs, get_elem?-get_or sieves j.sieve_id [] inside) (rw made e₂),
      fit₂,
      λ k. ground (
        arith,
        bits₂ k,
        marked_in-set sieves j.sieve_id s₁ k (in_sieve k (rows_reach primes offsets m (a + sp) k))
            inside (bits₁ k),
        rows_reach-split primes offsets m n₂ n (a + sp) k parts,
        ap (λ l. rows_reach primes offsets₁ n₂ l k) next,
        rows_reach-kept primes offsets offsets₁ n₂ (m + (a + sp)) k
            (λ l lo hi. kept₁ l (inr (omega (arith, lo)))),
      ),
      Ran-join primes offsets offsets₁ offsets₂ m n₂ n (a + sp) parts
          (record { later = later₁; rows = rows₁; kept = kept₁; size = size₁ })
          (subst (λ k. Ran primes offsets₁ offsets₂ n₂ k) next r₂),
    )
