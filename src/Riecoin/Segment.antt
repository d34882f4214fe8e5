-- ===== src/Riecoin/Segment.antt =====
-- One round of the main loop of `riecoin_process`: clear the sieves, strike the dense and the sparse
-- primes, merge, mark the hits of the once-only primes, and scan. The workers' jobs are run one after the
-- other: they use different sieves and different rows of the offsets.
use fastrie.Base.{
  ℕ, zero, suc, ◌+◌, length, ◌==◌, sub32, if◌then◌else◌, Option, none, some, List, [], ◌∷◌,
  get_elem?, set, map,
}
use fastrie.Riecoin.Sieve.{process_sieve, mark_segment}
use fastrie.Riecoin.Scan.{Others, Scan, scan_sieve, sieve_words}
use fastrie.Riecoin.Merging.{dense_primes, merge_sieves}
use fastrie.Riecoin.Jobs.{Work}

-- `memset(..., 0, riecoin_sieveSize/8)`
unfoldable pub clear_sieve : List ℕ → List ℕ
clear_sieve sieve = map (λ _. 0) sieve

-- `TYPE_SIEVE` of `verify_thread`, for every job of a round.
unfoldable pub run_jobs :
    List ℕ → ℕ → List Work → List (List ℕ) → List (List ℕ) → Option (List (List ℕ) × List (List ℕ))
run_jobs primes starting_prime_index [] sieves offsets = some (sieves, offsets)
run_jobs primes starting_prime_index (j ∷ js) sieves offsets = elim (get_elem? sieves j.sieve_id) [
  | none ↦ none
  | some sieve ↦ elim (process_sieve primes starting_prime_index sieve offsets j.start j.end) [
    | none ↦ none
    | some (sieve', offsets') ↦
        run_jobs primes starting_prime_index js (set sieves j.sieve_id sieve') offsets'
  ]
]

-- `n` times `workerDoneQueue.pop_front()`, by the number of entries; `none` is a pop that blocks for good.
unfoldable pub pop_done : ℕ → ℕ → Option ℕ
pop_done done zero = some done
pop_done zero (suc n) = none
pop_done (suc done) (suc n) = pop_done done n

-- Each job ends with `workerDoneQueue.push_back(1)`, the master pops once for each of its `n_workers` jobs,
-- and an entry that is left ends the program, `none`.
unfoldable pub await_workers : ℕ → List Work → Option ℕ
unfolding pop_done
await_workers worker_done jobs = elim (pop_done (worker_done + length jobs) (length jobs)) [
  | none ↦ none
  | some left ↦ if left == 0 then some left else none
]

-- What a round leaves behind; `worker_done` is the size of `workerDoneQueue`.
pub record Round : Type 0 where
  pub worker_done : ℕ
  pub scan : Scan
  pub offsets : List (List ℕ)

-- `hits` are the entries of `segment_hits[loop]`.
unfoldable pub sieve_round :
    Others
    → List ℕ
    → ℕ
    → ℕ
    → List Work
    → List ℕ
    → List ℕ
    → List (List ℕ)
    → List (List ℕ)
    → ℕ
    → ℕ
    → ℕ
    → Option Round
sieve_round w primes starting_prime_index n_dense jobs hits sieve sieves offsets worker_done
      outstanding count =
    elim (dense_primes primes n_dense starting_prime_index (clear_sieve sieve) offsets) [
      | none ↦ none
      | some (sieve₁, offsets₁) ↦
          elim (run_jobs primes starting_prime_index jobs (map clear_sieve sieves) offsets₁) [
            | none ↦ none
            | some (sieves₁, offsets₂) ↦ elim (await_workers worker_done jobs) [
              | none ↦ none
              | some left ↦ elim (merge_sieves sieve₁ sieve_words 0 sieves₁) [
                | none ↦ none
                | some sieve₂ ↦ elim (mark_segment sieve₂ hits) [
                  | none ↦ none
                  | some sieve₃ ↦
                      elim (scan_sieve w sieve₃ sieve_words (sub32 outstanding w.done_sieving)
                        count) [
                          | none ↦ none
                          | some scan ↦
                              some (record { worker_done = left; scan = scan; offsets = offsets₂ })
                        ]
                ]
              ]
            ]
          ]
    ]
