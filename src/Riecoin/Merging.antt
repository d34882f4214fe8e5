-- ===== src/Riecoin/Merging.antt =====
-- The master's own part of a segment: it strikes the dense primes without the queue of pending marks, and
-- merges the workers' sieves into its own.
use fastrie.Base.{
  ℕ, zero, suc, ◌*◌, true, false, Option, none, some, List, [], ◌∷◌, get_elem?, set, bit_or, add32,
  sub32, ltb, load, store, le_value, le_bytes,
}
use fastrie.Riecoin.Sieve.{sieve_size, mark, silly_sort_indexes}

-- `while (offsets[pno][f] < riecoin_sieveSize) ...`; out of fuel is `none` too. The assertion repeats the
-- test.
unfoldable pub strike_now : ℕ → List ℕ → ℕ → ℕ → Option (List ℕ × ℕ)
strike_now zero sieve p offset = none
strike_now (suc fuel) sieve p offset = elim (ltb offset sieve_size) [
  | false ↦ some (sieve, offset)
  | true ↦ elim (mark sieve offset) [
    | none ↦ none
    | some sieve' ↦ strike_now fuel sieve' p (add32 offset p)
  ]
]

-- The loop over the six offsets of a prime.
unfoldable pub dense_offsets : List ℕ → ℕ → List ℕ → Option (List ℕ × List ℕ)
dense_offsets sieve p [] = some (sieve, [])
dense_offsets sieve p (offset ∷ offsets) = elim (strike_now (suc sieve_size) sieve p offset) [
  | none ↦ none
  | some (sieve', offset') ↦ elim (dense_offsets sieve' p offsets) [
    | none ↦ none
    | some (sieve'', offsets') ↦ some (sieve'', sub32 offset' sieve_size ∷ offsets')
  ]
]

-- The loop over the dense primes from number `pno` on; `n` are left.
unfoldable pub dense_primes :
    List ℕ → ℕ → ℕ → List ℕ → List (List ℕ) → Option (List ℕ × List (List ℕ))
dense_primes primes zero pno sieve offsets = some (sieve, offsets)
dense_primes primes (suc n) pno sieve offsets = elim (get_elem? primes pno) [
  | none ↦ none
  | some p ↦ elim (get_elem? offsets pno) [
    | none ↦ none
    | some six ↦ elim (dense_offsets sieve p (silly_sort_indexes six)) [
      | none ↦ none
      | some (sieve', six') ↦ dense_primes primes n (suc pno) sieve' (set offsets pno six')
    ]
  ]
]

-- `s64[i] |= ((uint64_t *)(riecoin_sieves[j]))[i];`
unfoldable pub merge_word : List ℕ → ℕ → List ℕ → Option (List ℕ)
merge_word sieve i other = elim (load sieve (8 * i) 8) [
  | none ↦ none
  | some word ↦ elim (load other (8 * i) 8) [
    | none ↦ none
    | some word' ↦ store sieve (8 * i) (le_bytes 8 (bit_or (le_value word) (le_value word')))
  ]
]

-- The loop over the workers.
unfoldable pub merge_all : List ℕ → ℕ → List (List ℕ) → Option (List ℕ)
merge_all sieve i [] = some sieve
merge_all sieve i (other ∷ others) = elim (merge_word sieve i other) [
  | none ↦ none
  | some sieve' ↦ merge_all sieve' i others
]

-- The loop over the words; `n` are left.
unfoldable pub merge_sieves : List ℕ → ℕ → ℕ → List (List ℕ) → Option (List ℕ)
merge_sieves sieve zero i others = some sieve
merge_sieves sieve (suc n) i others = elim (merge_all sieve i others) [
  | none ↦ none
  | some sieve' ↦ merge_sieves sieve' n (suc i) others
]
