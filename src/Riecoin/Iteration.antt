-- ===== src/Riecoin/Iteration.antt =====
-- What a round of the main loop hands to the verifiers, and what it leaves for the next round.
use fastrie.Base.{
  ℕ, zero, suc, ◌+◌, ◌-◌, ◌*◌, ◌/◌, ◌%◌, ◌≤◌, ◌<◌, ◌^◌, false, max, ◌≡◌, ◌⊎◌, refl, sym, ap, subst,
  ◌∙◌, true, some, List, [], ◌∷◌, length, map, All, ltb, leb, ◌&&◌, if◌then◌else◌, inl, inr, arith,
  test_bit, test_bit-zero, sub32,
}
use fastrie.Riecoin.Sieve.{sieve_size}
use fastrie.Riecoin.Scan.{Others, sieve_words}
use fastrie.Riecoin.Jobs.{Work, Tiles, Numbered}
use fastrie.Riecoin.Segment.{clear_sieve, Round, pop_done, await_workers, sieve_round}
use fastrie.Riecoin.Marks.{byte_at, marked, hits, AllBelow, mark_segment_lem}
use fastrie.Riecoin.Rows.{rows_reach, in_sieve, AreRows}
use fastrie.Riecoin.Dense.{within, dense_primes_lem}
use fastrie.Riecoin.Merged.{marked_in, AllFit, merge_sieves_lem}
use fastrie.Riecoin.WholeScan.{AllBytes, scan_sieve_lem}
use fastrie.Riecoin.Candidates.{times_pushed, IsBatch, IsSteady, IsStopped}
use fastrie.Riecoin.Bytes.{Bytes, BytesWith, mark_segment-Bytes, dense_primes-Bytes}
use fastrie.Riecoin.RowRanges.{rows_reach-kept, Ran, Ran-join, AreRows-kept}
use fastrie.Riecoin.JobRuns.{run_jobs_lem}

module _ (sieve : List ℕ) where
  clear_sieve-AllBytes : AllBytes (clear_sieve sieve)
  unfolding clear_sieve
  clear_sieve-AllBytes = zeros sieve
    where
      zeros : (xs : List ℕ) → AllBytes (map (λ _. 0) xs)
      zeros [] = tt
      zeros (x ∷ xs) = (omega arith, zeros xs)

  length-clear_sieve : length (clear_sieve sieve) ≡ length sieve
  unfolding clear_sieve
  length-clear_sieve = same sieve
    where
      same : (xs : List ℕ) → length {A = ℕ} (map (λ _. 0) xs) ≡ length xs
      same [] = refl
      same (x ∷ xs) = ap suc (same xs)

  marked-clear_sieve : (k : ℕ) → marked (clear_sieve sieve) k ≡ 0
  unfolding clear_sieve marked
  marked-clear_sieve k = ap (λ b. test_bit b (k % 8)) (zeros sieve (k / 8)) ∙ test_bit-zero (k % 8)
    where
      zeros : (xs : List ℕ) (i : ℕ) → byte_at (map (λ _. 0) xs) i ≡ 0
      zeros [] i = refl
      zeros (x ∷ xs) zero = refl
      zeros (x ∷ xs) (suc i) = zeros xs i

-- The workers' sieves have the size of the master's.
abbrev pub AllLong : ℕ → List (List ℕ) → Type 0
AllLong n sieves = All (λ s. length s ≡ n) sieves

clear_all-AllFit :
    (n : ℕ) (sieves : List (List ℕ)) → AllLong n sieves → AllFit n (map clear_sieve sieves)
clear_all-AllFit n [] a = tt
clear_all-AllFit n (s ∷ ss) (e, a) =
    ((clear_sieve-AllBytes s, length-clear_sieve s ∙ e), clear_all-AllFit n ss a)

length-clear_all : (sieves : List (List ℕ)) → length (map clear_sieve sieves) ≡ length sieves
length-clear_all [] = refl
length-clear_all (s ∷ ss) = ap suc (length-clear_all ss)

clear_all-marked : (sieves : List (List ℕ)) (k : ℕ) → marked_in (map clear_sieve sieves) k ≡ 0
unfolding marked_in
clear_all-marked [] k = refl
clear_all-marked (s ∷ ss) k = omega (arith, marked-clear_sieve s k, clear_all-marked ss k)

-- The positions of a segment that are left: not reached by a dense prime, nor, position 0 apart, by a sparse
-- one, and no entry of `ents`.
unfoldable pub left_over : List ℕ → List (List ℕ) → ℕ → ℕ → ℕ → List ℕ → ℕ → ℕ
left_over primes offsets n_dense n_sparse sp ents k =
    if ltb k sieve_size
    then 1
      - max
          (max (rows_reach primes offsets n_dense sp k)
            (if ltb 0 k then rows_reach primes offsets n_sparse (n_dense + sp) k else 0))
          (hits k ents)
    else 0

-- The marks of a round, put together.
marks_join :
    (k d s h m₁ w₂ m₃ m₄ : ℕ)
    → m₁ ≡ within k d
    → w₂ ≡ in_sieve k s
    → m₃ ≡ max m₁ (if leb 0 (k / 64) && ltb (k / 64) (0 + sieve_words) then w₂ else 0)
    → m₄ ≡ max m₃ h
    → (if ltb k (64 * sieve_words) then 1 - m₄ else 0)
      ≡ (if ltb k sieve_size then 1 - max (max d (if ltb 0 k then s else 0)) h else 0)
marks_join k d s h m₁ w₂ m₃ m₄ e₁ e₂ e₃ e₄ = ground arith

pop_done_lem : (n : ℕ) → pop_done n n ≡ some 0
unfolding pop_done
pop_done_lem zero = refl
pop_done_lem (suc n) = pop_done_lem n

-- From an empty queue, every worker is awaited and nothing is left.
await_workers_lem : (jobs : List Work) → await_workers 0 jobs ≡ some 0
unfolding await_workers
await_workers_lem jobs =
    rw (await_workers, ap (λ n. pop_done n (length jobs)) zero_add ∙ pop_done_lem (length jobs))
      refl
  where
    zero_add : 0 + length jobs ≡ length jobs
    zero_add = omega arith

-- A round of the main loop, with valid tables for the dense and the sparse primes, jobs that divide the sparse
-- primes among different sieves, hits inside the sieve, an empty `workerDoneQueue` and a counter of candidates
-- below 2 ^ 32, comes to its end: no array is left, no assertion fails and no `exit` is reached. It leaves the
-- queue empty and hands out batches of 1 to 64 positions, none twice and none that the primes or the hits
-- strike out; position 0 is struck out by the dense primes alone. It is given up, with `do_reset`, at the first
-- candidate where the height has changed, and where it changed at none, all the others are handed out. The
-- offsets that it leaves are valid, and reach in the next segment exactly what the old ones reach there.
pub sieve_round_lem :
    (w : Others) (primes : List ℕ) (sp n_dense n_sparse : ℕ) (jobs : List Work)
    (ents sieve : List ℕ) (sieves offsets : List (List ℕ)) (outstanding count : ℕ)
    → 8 * length sieve ≡ sieve_size
    → AllLong (length sieve) sieves
    → Tiles n_dense (n_dense + n_sparse) jobs
    → Numbered 0 jobs
    → length jobs ≤ length sieves
    → AreRows primes offsets n_dense sp
    → AreRows primes offsets n_sparse (n_dense + sp)
    → AllBelow ents
    → count < 2 ^ 32
    → (r : Round) × (seen : ℕ) × (sieve_round w primes sp n_dense jobs ents sieve sieves offsets 0
          outstanding count
        ≡ some r)
      × (r.worker_done ≡ 0)
      × All IsBatch r.scan.pushed
      × ((k : ℕ)
          → times_pushed k r.scan.pushed ≤ left_over primes offsets n_dense n_sparse sp ents k)
      × (r.scan.count_candidates ≡ (count + seen) % 2 ^ 32)
      × (((r.scan.do_reset ≡ true) × IsStopped w count seen)
          ⊎ ((r.scan.do_reset ≡ false)
              × IsSteady w count seen
              × ((k : ℕ)
                  → times_pushed k r.scan.pushed
                    ≡ left_over primes offsets n_dense n_sparse sp ents k)))
      × Ran primes offsets r.offsets (n_dense + n_sparse) sp
unfolding sieve_round left_over
sieve_round_lem w primes sp n_dense n_sparse jobs ents sieve sieves offsets outstanding count wide
      long tiles num room dense sparse below small =
    let sieve₀ : List ℕ = clear_sieve sieve in
    let wide₀ : 8 * length sieve₀ ≡ sieve_size =
      ap (λ n. 8 * n) (length-clear_sieve sieve) ∙ wide in
    let (sieve₁, offsets₁, e₁, len₁, bits₁, later₁, rows₁, kept₁, size₁) =
      dense_primes_lem primes n_dense sp sieve₀ offsets wide₀ dense in
    let bytes₁ : AllBytes sieve₁ =
      subst BytesWith e₁
        (dense_primes-Bytes primes n_dense sp sieve₀ offsets (clear_sieve-AllBytes sieve)) in
    let (sieves₂, offsets₂, e₂, fit₂, bits₂, r₂) =
      run_jobs_lem primes sp (length sieve) jobs n_dense (n_dense + n_sparse) 0 n_sparse
        (map clear_sieve sieves) offsets₁ wide tiles refl num
        (omega (arith, room, length-clear_all sieves)) (clear_all-AllFit (length sieve) sieves long)
        (AreRows-kept primes offsets offsets₁ n_dense n_sparse sp kept₁ size₁ sparse) in
    let words : 8 * (0 + sieve_words) ≤ length sieve₁ = omega (arith, len₁, wide₀) in
    let (sieve₃, e₃, m₃) =
      merge_sieves_lem sieve_words 0 sieve₁ sieves₂ bytes₁
        (subst (λ n. AllFit n sieves₂) (sym (len₁ ∙ length-clear_sieve sieve)) fit₂) words in
    let (sieve₄, e₄, len₄, bits₄) =
      mark_segment_lem sieve₃ ents (ap (λ n. 8 * n) (m₃.size ∙ len₁) ∙ wide₀) below in
    let (s, seen, e₅, none_left, batches, most, counts, all) =
      scan_sieve_lem w sieve₄ sieve_words (sub32 outstanding w.done_sieving) count
        (subst Bytes e₄ (mark_segment-Bytes sieve₃ ents m₃.bytes))
        (omega (arith, len₄, m₃.size, len₁, wide₀)) small in
    let same : (k : ℕ)
        → (if ltb k (64 * sieve_words) then 1 - marked sieve₄ k else 0)
          ≡ left_over primes offsets n_dense n_sparse sp ents k =
      λ k.
        marks_join k (rows_reach primes offsets n_dense sp k)
          (rows_reach primes offsets n_sparse (n_dense + sp) k) (hits k ents) (marked sieve₁ k)
          (marked_in sieves₂ k) (marked sieve₃ k) (marked sieve₄ k)
          (omega (arith, bits₁ k, marked-clear_sieve sieve k))
          (omega (
            arith,
            bits₂ k,
            clear_all-marked sieves k,
            ap (in_sieve k) (
                rows_reach-kept primes offsets offsets₁ n_sparse (n_dense + sp) k
                  (λ j lo hi. kept₁ j (inr (omega (arith, lo))))),
          ))
          (m₃.bits k) (bits₄ k) in
    (
      record { worker_done = 0; scan = s; offsets = offsets₂ },
      seen,
      rw (sieve_round, e₁) (rw e₂ (rw (await_workers_lem jobs) (rw e₃ (rw e₄ (rw e₅ refl))))),
      refl,
      batches,
      λ k. omega (arith, most k, same k),
      counts,
      elim all [
        | inl stopped ↦ inl stopped
        | inr (r, steady, q) ↦ inr (r, steady, λ k. q k ∙ same k)
      ],
      Ran-join primes offsets offsets₁ offsets₂ n_dense n_sparse (n_dense + n_sparse) sp refl
          (record { later = later₁; rows = rows₁; kept = kept₁; size = size₁ }) r₂,
    )
