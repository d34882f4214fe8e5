-- ===== src/Riecoin/Jobs.antt =====
-- How the master of `riecoin_process` divides the primes among the workers. `none` is out of fuel.
use fastrie.Base.{
  ℕ, zero, suc, ◌+◌, ◌-◌, ◌*◌, ◌/◌, ◌%◌, ◌^◌, ◌≤◌, ◌<◌, min, ◌≡◌, ◌⊎◌, refl, sym, ap, subst, ◌∙◌,
  true, false, Option, none, some, List, [], ◌∷◌, length, ltb, ltb→lt, ltb→ge, lt→ltb,
  if◌then◌else◌, add32, Bool-cases, inl, inr, arith,
}
use native.Mathlib.Nat.{
  suc-mul, mod-eq_of_lt, mul-le-mul_right, div-le_self, div-add-mod, mod-lt, mul-add,
}

-- `modWork` and `sieveWork`; the first has no sieve.
pub record Work : Type 0 where
  pub start : ℕ
  pub end : ℕ
  pub sieve_id : ℕ

-- `for (auto base = primeIndex; base < riecoin_primeTestSize; base += incr)`
unfoldable pub mod_jobs : ℕ → ℕ → ℕ → ℕ → Option (List Work)
mod_jobs zero size incr base = none
mod_jobs (suc fuel) size incr base = elim (ltb base size) [
  | false ↦ some []
  | true ↦ elim (mod_jobs fuel size incr (add32 base incr)) [
    | none ↦ none
    | some jobs ↦
        some (record { start = base; end = min size (add32 base incr); sieve_id = 0 } ∷ jobs)
  ]
]

-- The end of a job: a rest of less than 1000 primes is taken too.
unfoldable pub job_end : ℕ → ℕ → ℕ → ℕ
job_end total incr base =
    let lim = min total (add32 base incr) in if ltb total (add32 lim 1000) then total else lim

-- `for (auto base = n_dense; base < (n_dense+n_sparse); base += incr)`, with `total` that sum.
unfoldable pub sieve_jobs : ℕ → ℕ → ℕ → ℕ → ℕ → ℕ → Option (List Work)
sieve_jobs zero workers total incr which base = none
sieve_jobs (suc fuel) workers total incr which base = elim (ltb base total) [
  | false ↦ some []
  | true ↦
      let job : Work = record { start = base; end = job_end total incr base; sieve_id = which } in
      elim (ltb total (add32 (job_end total incr base) 1000)) [
        | true ↦ some (job ∷ [])
        | false ↦
            elim (sieve_jobs fuel workers total incr ((which + 1) % workers) (add32 base incr)) [
              | none ↦ none
              | some jobs ↦ some (job ∷ jobs)
            ]
      ]
]

-- The jobs follow one another from `a` to `b` without gap or overlap.
abbrev pub Tiles : ℕ → ℕ → List Work → Type 0
Tiles a b [] = a ≡ b
Tiles a b (j ∷ js) = (j.start ≡ a) × (a < j.end) × Tiles j.end b js

-- The sieves are numbered from `i` on.
abbrev pub Numbered : ℕ → List Work → Type 0
Numbered i [] = Unit {0}
Numbered i (j ∷ js) = (j.sieve_id ≡ i) × Numbered (suc i) js

mod_jobs-Tiles :
    (fuel size incr base : ℕ)
    → 1 ≤ incr
    → size + incr < 2 ^ 32
    → base < size + incr
    → size - base < fuel
    → (jobs : List Work) × (mod_jobs fuel size incr base ≡ some jobs)
      × Tiles (min base size) size jobs
      × (length jobs * incr + base < size + incr)
unfolding mod_jobs
mod_jobs-Tiles zero size incr base one fits near enough = absurd (omega arith)
mod_jobs-Tiles (suc fuel) size incr base one fits near enough = elim (Bool-cases (ltb base size)) [
  | inr e ↦ ([], rw (e, mod_jobs) refl, omega (arith, ltb→ge _ _ e), omega arith)
  | inl e ↦
      let lt : base < size = ltb→lt _ _ e in
      let (jobs, e₁, t, count) =
        mod_jobs-Tiles fuel size incr (base + incr) one fits (omega arith) (omega arith) in
      let same : add32 base incr ≡ base + incr = omega arith in
      (
        record { start = base; end = min size (add32 base incr); sieve_id = 0 } ∷ jobs,
        rw (e, mod_jobs) (rw (ap (mod_jobs fuel size incr) same ∙ e₁) refl),
        (omega arith, omega arith, subst (λ i. Tiles i size jobs) (omega arith) t),
        omega (arith, count, suc-mul (length jobs) incr),
      )
]

job_end_lem :
    (total incr base : ℕ)
    → 1 ≤ incr
    → base < total
    → total + incr + 1000 < 2 ^ 32
    → ((ltb total (add32 (job_end total incr base) 1000) ≡ true)
        × (job_end total incr base ≡ total))
      ⊎ ((ltb total (add32 (job_end total incr base) 1000) ≡ false)
          × (job_end total incr base ≡ base + incr)
          × (base + incr < total))
unfolding job_end
job_end_lem total incr base one lt fits =
    elim (Bool-cases (ltb total (add32 (min total (add32 base incr)) 1000))) [
      | inl e ↦ rw e (inl (lt→ltb _ _ (omega arith), refl))
      | inr e ↦
          let far : add32 (min total (add32 base incr)) 1000 ≤ total = ltb→ge _ _ e in
          rw e (inr (e, omega arith, omega arith))
    ]

some_left : (m incr : ℕ) → 0 < m * incr → 1 ≤ m
some_left zero incr h = absurd (omega arith)
some_left (suc m) incr h = omega arith

-- `m` sieves are left, and the primes left fit them.
sieve_jobs-Tiles :
    (fuel workers total incr which base m : ℕ)
    → 1 ≤ incr
    → total + incr + 1000 < 2 ^ 32
    → which + m ≡ workers
    → base < total
    → total < m * incr + base
    → m < fuel
    → (jobs : List Work) × (sieve_jobs fuel workers total incr which base ≡ some jobs)
      × Tiles base total jobs
      × Numbered which jobs
      × (length jobs ≤ m)
unfolding sieve_jobs
sieve_jobs-Tiles zero workers total incr which base m one fits ids lt room enough =
    absurd (omega arith)
sieve_jobs-Tiles (suc fuel) workers total incr which base zero one fits ids lt room enough =
    absurd (omega arith)
sieve_jobs-Tiles (suc fuel) workers total incr which base (suc m) one fits ids lt room enough =
    let e : ltb base total ≡ true = lt→ltb _ _ lt in
    elim (job_end_lem total incr base one lt fits) [
      | inl (stop, whole) ↦ (
        record { start = base; end = job_end total incr base; sieve_id = which } ∷ [],
        rw (e, sieve_jobs) (rw stop refl),
        (refl, omega (arith, whole), whole),
        (refl, tt),
        omega arith,
      )
      | inr (goes, whole, more) ↦
          let left : 1 ≤ m = some_left m incr (omega (arith, room, more, suc-mul m incr)) in
          let (jobs, e₁, t, ns, count) =
            sieve_jobs-Tiles fuel workers total incr (suc which) (base + incr) m one fits
              (omega arith) more (omega (arith, suc-mul m incr)) (omega arith) in
          let same : add32 base incr ≡ base + incr = omega arith in
          let next : (which + 1) % workers ≡ suc which =
            mod-eq_of_lt (omega (arith, left, ids)) ∙ omega arith in
          (
            record { start = base; end = job_end total incr base; sieve_id = which } ∷ jobs,
            rw (e, sieve_jobs)
                (rw goes (
                  rw
                    (ap (λ i. sieve_jobs fuel workers total incr i (add32 base incr)) next
                      ∙ ap (sieve_jobs fuel workers total incr (suc which)) same
                      ∙ e₁)
                    refl)),
            (refl, omega (arith, whole), subst (λ i. Tiles i total jobs) (sym whole) t),
            (refl, ns),
            omega arith,
          )
    ]

-- The table of primes is divided without gap or overlap, into at most 256 jobs: fewer than the 1024 that
-- `verifyWorkQueue` holds. The table has at least 128 primes.
pub mod_jobs_lem :
    (size prime_index : ℕ)
    → 128 ≤ size
    → size < 2 ^ 31
    → prime_index < size
    → (jobs : List Work) × (mod_jobs (suc size) size (size / 128) prime_index ≡ some jobs)
      × Tiles prime_index size jobs
      × (length jobs ≤ 256)
mod_jobs_lem size prime_index large fits lt =
    let (jobs, e, t, count) =
      mod_jobs-Tiles (suc size) size (size / 128) prime_index (omega arith) (omega arith)
        (omega arith) (omega arith) in
    (
      jobs,
      e,
      subst (λ i. Tiles i size jobs) (omega arith) t,
      few size (length jobs) large (omega arith),
    )
  where
    few : (size n : ℕ) → 128 ≤ size → n * (size / 128) < size + size / 128 → n ≤ 256
    few size n large h = elim (Bool-cases (ltb n 257)) [
      | inl e ↦ omega (arith, ltb→lt _ _ e)
      | inr e ↦ absurd (omega (arith, h, large, mul-le-mul_right (size / 128) (ltb→ge _ _ e)))
    ]

-- The sparse primes are divided without gap or overlap, into at most one job for each worker, and each
-- job has a sieve of its own.
pub sieve_jobs_lem :
    (workers n_dense n_sparse : ℕ)
    → 1 ≤ workers
    → 1 ≤ n_sparse
    → n_dense + n_sparse < 2 ^ 30
    → (jobs : List Work) × (sieve_jobs
          (workers + 1)
          workers
          (n_dense + n_sparse)
          (n_sparse / workers + 1)
          0
          n_dense
        ≡ some jobs)
      × Tiles n_dense (n_dense + n_sparse) jobs
      × Numbered 0 jobs
      × (length jobs ≤ workers)
sieve_jobs_lem workers n_dense n_sparse some_workers some_primes fits =
    sieve_jobs-Tiles (workers + 1) workers (n_dense + n_sparse) (n_sparse / workers + 1) 0 n_dense
      workers (omega arith) (omega (arith, div-le_self n_sparse workers)) (omega arith)
      (omega arith) room (omega arith)
  where
    room : n_dense + n_sparse < workers * (n_sparse / workers + 1) + n_dense
    room = omega (
      arith,
      div-add-mod n_sparse workers,
      mod-lt n_sparse some_workers,
      mul-add workers (n_sparse / workers) 1,
    )
