-- ===== src/Riecoin/Init.antt =====
-- `riecoin_init`: the number of workers and the table of primes by the sieve of Eratosthenes. `none` is an
-- access outside an array; a loop that runs out of fuel is `none` too.
use fastrie.Base.{
  ℕ, zero, suc, ◌+◌, ◌-◌, ◌*◌, ◌/◌, ◌%◌, ◌^◌, Bool, true, false, not, Option, none, some, List, [],
  ◌∷◌, ◌++◌, length, get_elem?, replicate, bit_and, min, max, add32, ltb, ◌==◌,
}
use fastrie.Riecoin.Sieve.{mark}

-- `N_SIEVE_WORKERS`
unfoldable pub n_sieve_workers : ℕ → ℕ
n_sieve_workers num_threads = max (min 1 (num_threads / 4)) 8

abbrev pub mul32 : ℕ → ℕ → ℕ
mul32 a b = a * b % 2 ^ 32

-- `vfComposite[n>>3] & (1<<(n&7))`
unfoldable pub is_composite : List ℕ → ℕ → Option Bool
is_composite composite n = elim (get_elem? composite (n / 8)) [
  | none ↦ none
  | some byte ↦ some (not (bit_and byte (2 ^ (n % 8)) == 0))
]

-- `for (nComposite = nFactor * nFactor; nComposite < limit; nComposite += nFactor)`
unfoldable pub cross_out : ℕ → ℕ → List ℕ → ℕ → ℕ → Option (List ℕ)
cross_out zero limit composite n factor = none
cross_out (suc fuel) limit composite n factor = elim (ltb n limit) [
  | false ↦ some composite
  | true ↦ elim (mark composite n) [
    | none ↦ none
    | some composite' ↦ cross_out fuel limit composite' (add32 n factor) factor
  ]
]

-- `for (nFactor = 2; nFactor * nFactor < limit; nFactor++)`
unfoldable pub cross_all : ℕ → ℕ → List ℕ → ℕ → Option (List ℕ)
cross_all zero limit composite factor = none
cross_all (suc fuel) limit composite factor = elim (ltb (mul32 factor factor) limit) [
  | false ↦ some composite
  | true ↦ elim (is_composite composite factor) [
    | none ↦ none
    | some true ↦ cross_all fuel limit composite (add32 factor 1)
    | some false ↦ elim (cross_out (suc limit) limit composite (mul32 factor factor) factor) [
      | none ↦ none
      | some composite' ↦ cross_all fuel limit composite' (add32 factor 1)
    ]
  ]
]

-- The entries that the table has room for.
abbrev pub table_room : ℕ → ℕ
table_room limit = limit / 4 + 10

-- `for (n = 2; n < limit; n++)`, with the rounds left.
unfoldable pub collect : ℕ → ℕ → List ℕ → ℕ → List ℕ → Option (List ℕ)
collect limit zero composite n table = some table
collect limit (suc rounds) composite n table = elim (is_composite composite n) [
  | none ↦ none
  | some true ↦ collect limit rounds composite (suc n) table
  | some false ↦ elim (ltb (length table) (table_room limit)) [
    | false ↦ none
    | true ↦ collect limit rounds composite (suc n) (table ++ (n ∷ []))
  ]
]

unfoldable pub prime_table : ℕ → Option (List ℕ)
prime_table limit = elim (cross_all (suc limit) limit (replicate ((limit + 7) / 8) 0) 2) [
  | none ↦ none
  | some composite ↦ collect limit (limit - 2) composite 2 []
]
