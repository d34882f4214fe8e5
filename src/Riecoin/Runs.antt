-- ===== src/Riecoin/Runs.antt =====
-- The sieve at concrete entries.
use fastrie.Base.{ℕ, zero, suc, ap, ◌*◌, ◌%◌, ◌^◌, ◌≡◌, refl, some, List, [], ◌∷◌, length, arith}
use fastrie.Riecoin.Sieve.{
  sieve_size, Pending, init_pending, mark_segment, strike, silly_sort_indexes,
}
use fastrie.Riecoin.Marks.{marked, hits, Marks, init-Holds, mark_segment_lem}
use fastrie.Riecoin.Strikes.{Struck, strike_lem}
use fastrie.Riecoin.Sorting.{IsSorted, occurrences, silly_sort_indexes_lem}
use fastrie.Riecoin.Offsets.{prime_tuple_offset, tuple_indexes, AllReach, tuple_indexes_lem}

unfoldable zeros : ℕ → List ℕ
zeros zero = []
zeros (suc n) = 0 ∷ zeros n

length-zeros : (n : ℕ) → length (zeros n) ≡ n
unfolding zeros
length-zeros zero = refl
length-zeros (suc n) = ap suc (length-zeros n)

abbrev empty_sieve : List ℕ
empty_sieve = zeros (2 ^ 20)

empty_sieve-wide : 8 * length empty_sieve ≡ sieve_size
empty_sieve-wide = ap (λ n. 8 * n) (length-zeros (2 ^ 20))

mark_segment_lem_example :
    Marks empty_sieve (λ k. hits k (17 ∷ 8 ∷ 0 ∷ [])) (mark_segment empty_sieve (17 ∷ 8 ∷ 0 ∷ []))
mark_segment_lem_example =
    mark_segment_lem empty_sieve (17 ∷ 8 ∷ 0 ∷ []) empty_sieve-wide
      (omega arith, (omega arith, (omega arith, tt)))

strike_lem_example :
    (sieve' : List ℕ) × (pending' : Pending) × (offset' : ℕ) × (n : ℕ) × (strike
        (2 ^ 23)
        empty_sieve
        init_pending
        179
        5
      ≡ some (sieve', pending', offset'))
    × Struck sieve' pending' (λ k. marked empty_sieve k) 179 5 offset' n
strike_lem_example =
    strike_lem (2 ^ 23) empty_sieve init_pending (λ k. marked empty_sieve k) 179 5
      (init-Holds empty_sieve empty_sieve-wide) (omega arith) (omega arith) (omega arith)
      (omega arith)

sorted_run : silly_sort_indexes (6 ∷ 2 ∷ 9 ∷ 2 ∷ 1 ∷ 5 ∷ []) ≡ 1 ∷ 2 ∷ 2 ∷ 5 ∷ 6 ∷ 9 ∷ []
unfolding silly_sort_indexes
sorted_run = refl

silly_sort_indexes_lem_example :
    IsSorted (silly_sort_indexes (6 ∷ 2 ∷ 9 ∷ 2 ∷ 1 ∷ 5 ∷ []))
    × ((k : ℕ)
        → occurrences k (silly_sort_indexes (6 ∷ 2 ∷ 9 ∷ 2 ∷ 1 ∷ 5 ∷ []))
          ≡ occurrences k (6 ∷ 2 ∷ 9 ∷ 2 ∷ 1 ∷ 5 ∷ []))
silly_sort_indexes_lem_example = silly_sort_indexes_lem (6 ∷ 2 ∷ 9 ∷ 2 ∷ 1 ∷ 5 ∷ []) refl

-- The prime 13, the primorial 30 and its inverse 10.
tuple_indexes_run : tuple_indexes 13 10 prime_tuple_offset (1000 % 13) ≡ 10 ∷ 9 ∷ 2 ∷ 1 ∷ 7 ∷ 6 ∷ []
unfolding tuple_indexes
tuple_indexes_run = refl

tuple_indexes_lem_example :
    AllReach 13 30 1000 0 prime_tuple_offset (tuple_indexes 13 10 prime_tuple_offset (1000 % 13))
tuple_indexes_lem_example =
    tuple_indexes_lem 13 10 30 1000 (omega arith) (omega arith) (omega arith) refl
