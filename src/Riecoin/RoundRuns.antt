-- ===== src/Riecoin/RoundRuns.antt =====
-- The rounds of the main loop, the tables and the jobs at concrete inputs.
use fastrie.Base.{
  ℕ, zero, suc, ◌+◌, ◌*◌, ◌/◌, ◌%◌, ◌^◌, ◌≤◌, ◌<◌, max, ◌≡◌, ◌⊎◌, ◌↔◌, refl, ap, true, false, ◌&&◌,
  some, List, [], ◌∷◌, ◌++◌, length, replicate, get_or, All, ltb, leb, ◌==◌, load, le_value,
  if◌then◌else◌, arith,
}
use fastrie.Riecoin.Sieve.{sieve_size, mark, process_sieve}
use fastrie.Riecoin.Scan.{
  Others, Scan, scan_sieve, scan_words, scan_word, add_candidate, push_full, push_work,
  check_height, push_rest, leading_zeros,
}
use fastrie.Riecoin.Init.{prime_table, cross_all, cross_out, collect, is_composite, n_sieve_workers}
use fastrie.Riecoin.Merging.{merge_sieves}
use fastrie.Riecoin.Jobs.{Work, mod_jobs, sieve_jobs, Tiles, Numbered, mod_jobs_lem, sieve_jobs_lem}
use fastrie.Riecoin.Segment.{Round, sieve_round}
use fastrie.Riecoin.Remainders.{Tables, Buckets, indexes_of, update_remainders}
use fastrie.Riecoin.Offsets.{tuple_indexes}
use fastrie.Riecoin.Marks.{marked}
use fastrie.Riecoin.Sorting.{IsSorted, occurrences}
use fastrie.Riecoin.Candidates.{times_pushed, IsBatch, IsSteady, IsStopped}
use fastrie.Riecoin.Rows.{rows_reach, in_sieve, IsRow, AreRows, Kept, process_sieve_lem}
use fastrie.Riecoin.Merged.{Merged, marked_in, merge_sieves_lem}
use fastrie.Riecoin.Primes.{IsPrime, prime_table_lem}
use fastrie.Riecoin.RowRanges.{Ran}
use fastrie.Riecoin.Iteration.{left_over, sieve_round_lem}
use fastrie.Riecoin.Batches.{once_only, stored, kept}
use fastrie.Riecoin.Buckets.{IsBuckets, entries, in_segment, update_remainders_lem}

-- Nobody is done, and the height stays.
abbrev quiet : Others
quiet = record {
  done_sieving = 0;
  done_before = λ n. 0;
  done_after = λ n. 0;
  height_changed = λ n. false;
  work_cleared = 0;
}

abbrev two_words : List ℕ
two_words =
    255 ∷ 255 ∷ 255 ∷ 255 ∷ 255 ∷ 255 ∷ 255 ∷ 191 ∷ 254 ∷ 255 ∷ 255 ∷ 255 ∷ 255 ∷ 255 ∷ 255 ∷ 255
    ∷ []

scanned_run :
    scan_sieve quiet two_words 2 0 0
    ≡ some (record {
      indexes = [];
      pushed = (62 ∷ 64 ∷ []) ∷ [];
      outstanding_tests = 1;
      count_candidates = 2;
      do_reset = false;
    })
unfolding scan_sieve scan_words scan_word add_candidate push_full push_work check_height push_rest
    leading_zeros load le_value
scanned_run = refl

-- The height changes at the first candidate: the scan stops there.
abbrev changing : Others
changing = record quiet { height_changed = λ n. n == 0 }

stopped_run :
    scan_sieve changing two_words 2 0 0
    ≡ some (record {
      indexes = [];
      pushed = (62 ∷ []) ∷ [];
      outstanding_tests = 1;
      count_candidates = 1;
      do_reset = true;
    })
unfolding scan_sieve scan_words scan_word add_candidate push_full push_work check_height push_rest
    leading_zeros load le_value
stopped_run = refl

mod_jobs_run :
    mod_jobs 300 260 128 40
    ≡ some (
        record { start = 40; end = 168; sieve_id = 0 }
        ∷ record { start = 168; end = 260; sieve_id = 0 }
        ∷ [])
unfolding mod_jobs
mod_jobs_run = refl

mod_jobs_lem_example :
    (jobs : List Work) × (mod_jobs (suc 1000) 1000 (1000 / 128) 40 ≡ some jobs)
    × Tiles 40 1000 jobs
    × (length jobs ≤ 256)
mod_jobs_lem_example = mod_jobs_lem 1000 40 (omega arith) (omega arith) (omega arith)

sieve_jobs_lem_example :
    (jobs : List Work) × (sieve_jobs (8 + 1) 8 (1860 + 300000) (300000 / 8 + 1) 0 1860 ≡ some jobs)
    × Tiles 1860 (1860 + 300000) jobs
    × Numbered 0 jobs
    × (length jobs ≤ 8)
sieve_jobs_lem_example = sieve_jobs_lem 8 1860 300000 (omega arith) (omega arith) (omega arith)

prime_table_run : prime_table 30 ≡ some (2 ∷ 3 ∷ 5 ∷ 7 ∷ 11 ∷ 13 ∷ 17 ∷ 19 ∷ 23 ∷ 29 ∷ [])
unfolding prime_table cross_all cross_out collect is_composite mark
prime_table_run = refl

-- The number of workers does not depend on the number of threads.
workers_run : (n_sieve_workers 2 ≡ 8) × (n_sieve_workers 64 ≡ 8)
unfolding n_sieve_workers
workers_run = (refl, refl)

prime_table_lem_example :
    (table : List ℕ) × (prime_table 1000000 ≡ some table)
    × IsSorted table
    × ((n : ℕ) → occurrences n table ≤ 1)
    × ((n : ℕ) → (occurrences n table ≡ 1) ↔ ((n < 1000000) × IsPrime n))
prime_table_lem_example = prime_table_lem 1000000 (omega arith)

merge_sieves_lem_example :
    (sieve' : List ℕ) × (merge_sieves two_words 2 0 ((replicate 16 64) ∷ []) ≡ some sieve')
    × Merged two_words sieve' (λ k.
      if leb 0 (k / 64) && ltb (k / 64) (0 + 2) then marked_in (replicate 16 64 ∷ []) k else 0)
merge_sieves_lem_example =
    merge_sieves_lem 2 0 two_words (replicate 16 64 ∷ []) (omega arith) (omega arith) (omega arith)

unfoldable blank : ℕ → List ℕ
blank zero = []
blank (suc n) = 0 ∷ blank n

length-blank : (n : ℕ) → length (blank n) ≡ n
unfolding blank
length-blank zero = refl
length-blank (suc n) = ap suc (length-blank n)

abbrev megabyte : List ℕ
megabyte = blank (2 ^ 20)

megabyte-wide : 8 * length megabyte ≡ sieve_size
megabyte-wide = ap (λ n. 8 * n) (length-blank (2 ^ 20))

abbrev two_primes : List ℕ
two_primes = 179 ∷ 181 ∷ []

abbrev two_rows : List (List ℕ)
two_rows = (7 ∷ 3 ∷ 178 ∷ 0 ∷ 21 ∷ 22 ∷ []) ∷ (11 ∷ 180 ∷ 15 ∷ 14 ∷ 3 ∷ 2 ∷ []) ∷ []

first-IsRow : IsRow two_primes two_rows 0
first-IsRow = omega arith

second-IsRow : IsRow two_primes two_rows 1
second-IsRow = omega arith

process_sieve_lem_example :
    (sieve' : List ℕ) × (offsets' : List (List ℕ)) × (process_sieve two_primes 0 megabyte two_rows 1
        (1 + 1)
      ≡ some (sieve', offsets'))
    × (length sieve' ≡ length megabyte)
    × ((k : ℕ)
        → marked sieve' k
          ≡ max (marked megabyte k) (in_sieve k (rows_reach two_primes two_rows 1 (1 + 0) k)))
    × ((k : ℕ)
        → rows_reach two_primes offsets' 1 (1 + 0) k
          ≡ rows_reach two_primes two_rows 1 (1 + 0) (sieve_size + k))
    × AreRows two_primes offsets' 1 (1 + 0)
    × Kept two_rows offsets' 1 (1 + 0)
    × (length offsets' ≡ length two_rows)
process_sieve_lem_example =
    process_sieve_lem two_primes 0 megabyte two_rows 1 1 megabyte-wide (second-IsRow, tt)

abbrev one_job : List Work
one_job = record { start = 1; end = 2; sieve_id = 0 } ∷ []

sieve_round_lem_example :
    (r : Round) × (seen : ℕ) × (sieve_round quiet two_primes 0 1 one_job
        (9 ∷ [])
        megabyte
        (megabyte ∷ [])
        two_rows
        0
        0
        0
      ≡ some r)
    × (r.worker_done ≡ 0)
    × All IsBatch r.scan.pushed
    × ((k : ℕ) → times_pushed k r.scan.pushed ≤ left_over two_primes two_rows 1 1 0 (9 ∷ []) k)
    × (r.scan.count_candidates ≡ (0 + seen) % 2 ^ 32)
    × (((r.scan.do_reset ≡ true) × IsStopped quiet 0 seen)
        ⊎ ((r.scan.do_reset ≡ false)
            × IsSteady quiet 0 seen
            × ((k : ℕ)
                → times_pushed k r.scan.pushed ≡ left_over two_primes two_rows 1 1 0 (9 ∷ []) k)))
    × Ran two_primes two_rows r.offsets (1 + 1) 0
sieve_round_lem_example =
    sieve_round_lem quiet two_primes 0 1 1 one_job (9 ∷ []) megabyte (megabyte ∷ []) two_rows 0 0
      megabyte-wide (refl, tt) (omega arith) (omega arith) (omega arith) (first-IsRow, tt)
      (second-IsRow, tt) (omega arith) (omega arith)

-- The second prime is a once-only one.
abbrev tables : Tables
tables = record { primes = 13 ∷ 536870923 ∷ []; inverts = 10 ∷ 17 ∷ []; remainder = λ p. 5 }

abbrev no_hits : Buckets
no_hits = record { counts = replicate 64 0; hits = replicate 64 (replicate 8 0) }

get_or-replicate {ℓ} : {A : Type ℓ} (n i : ℕ) (a d : A) → i < n → get_or (replicate n a) i d ≡ a
get_or-replicate zero i a d h = absurd (omega arith)
get_or-replicate (suc n) zero a d h = refl
get_or-replicate (suc n) (suc i) a d h = get_or-replicate n i a d (omega arith)

no_hits-IsBuckets : IsBuckets 8 no_hits
no_hits-IsBuckets = record {
  counts = refl;
  hits = refl;
  rows = λ s h. ap length (get_or-replicate 64 s (replicate 8 0) [] h);
  within = λ s h. omega (arith, get_or-replicate {A = ℕ} 64 s 0 0 h);
}

in_segment-le : (s : ℕ) (is : List ℕ) → length (in_segment s is) ≤ length is
unfolding in_segment
in_segment-le s [] = omega arith
in_segment-le s (i ∷ is) = ground (arith, in_segment-le s is)

few_hits : length (once_only tables 2 0) ≤ 8
unfolding once_only kept indexes_of tuple_indexes
few_hits = omega arith

update_remainders_lem_example :
    (b' : Buckets) × (update_remainders 8 tables 0 (0 + 2) two_rows no_hits
      ≡ some (stored tables 2 0 two_rows, b'))
    × IsBuckets 8 b'
    × ((s : ℕ) → s < 64 → entries b' s ≡ entries no_hits s ++ in_segment s (once_only tables 2 0))
update_remainders_lem_example =
    update_remainders_lem 8 tables 0 2 two_rows no_hits
      (record {
        in_primes = omega arith;
        in_inverts = omega arith;
        in_offsets = λ j h k. omega arith;
      })
      no_hits-IsBuckets (omega arith)
      (λ s h. omega (
        arith,
        get_or-replicate {A = ℕ} 64 s 0 0 h,
        in_segment-le s (once_only tables 2 0),
        few_hits,
      ))
