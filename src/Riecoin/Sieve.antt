-- ===== src/Riecoin/Sieve.antt =====
-- The marking of the sieve's bits, with the small queue of pending marks. `none` is an access outside
-- an array or a failed assertion.
use fastrie.Base.{
  ℕ, zero, suc, ◌+◌, ◌-◌, ◌/◌, ◌%◌, ◌^◌, true, false, Option, none, some, List, [], ◌∷◌, get_elem?,
  set, replicate, bit_or, add32, sub32, ltb, ◌==◌, if◌then◌else◌,
}

abbrev pub sieve_size : ℕ
sieve_size = 2 ^ 23

infixl 5 ◌>>=◌
abbrev pub ◌>>=◌ : {A B : Type 0} → Option A → (A → Option B) → Option B
◌>>=◌ o f = elim o [ none ↦ none | some a ↦ f a ]

-- `sieve[ent>>3] |= (1<<(ent&7));`
unfoldable pub mark : List ℕ → ℕ → Option (List ℕ)
mark sieve ent = elim (get_elem? sieve (ent / 8)) [
  | none ↦ none
  | some byte ↦ some (set sieve (ent / 8) (bit_or byte (2 ^ (ent % 8))))
]

pub record Pending : Type 0 where
  pub slots : List ℕ
  pub pos : ℕ

unfoldable pub init_pending : Pending
init_pending = record { slots = replicate 16 0; pos = 0 }

-- A slot that is 0 is empty. The assertion is that the other entries lie in the sieve.
unfoldable pub mark_pending : List ℕ → ℕ → Option (List ℕ)
unfolding mark
mark_pending sieve old =
    if old == 0 then some sieve else if ltb old sieve_size then mark sieve old else none

unfoldable pub add_to_pending : List ℕ → Pending → ℕ → Option (List ℕ × Pending)
unfolding mark_pending
add_to_pending sieve pending ent = elim (get_elem? pending.slots pending.pos) [
  | none ↦ none
  | some old ↦ elim (mark_pending sieve old) [
    | none ↦ none
    | some sieve' ↦
        some (
          sieve',
          record { slots = set pending.slots pending.pos ent; pos = (pending.pos + 1) % 16 },
        )
  ]
]

-- The loop over the slots at the end.
unfoldable pub flush_pending : List ℕ → List ℕ → Option (List ℕ)
unfolding mark_pending
flush_pending sieve [] = some sieve
flush_pending sieve (old ∷ slots) = elim (mark_pending sieve old) [
  | none ↦ none
  | some sieve' ↦ flush_pending sieve' slots
]

-- The loop over `segment_hits[loop]`.
unfoldable pub add_hits : List ℕ → Pending → List ℕ → Option (List ℕ × Pending)
unfolding add_to_pending
add_hits sieve pending [] = some (sieve, pending)
add_hits sieve pending (ent ∷ ents) = elim (add_to_pending sieve pending ent) [
  | none ↦ none
  | some (sieve', pending') ↦ add_hits sieve' pending' ents
]

-- The master's marking of the entries of a segment.
unfoldable pub mark_segment : List ℕ → List ℕ → Option (List ℕ)
unfolding init_pending add_hits flush_pending
mark_segment sieve ents = elim (add_hits sieve init_pending ents) [
  | none ↦ none
  | some (sieve', pending) ↦ flush_pending sieve' pending.slots
]

-- `while (offsets[pno][f] < riecoin_sieveSize) ...` of `process_sieve`; out of fuel is `none` too.
unfoldable pub strike : ℕ → List ℕ → Pending → ℕ → ℕ → Option (List ℕ × Pending × ℕ)
unfolding add_to_pending
strike zero sieve pending p offset = none
strike (suc fuel) sieve pending p offset = elim (ltb offset sieve_size) [
  | false ↦ some (sieve, pending, offset)
  | true ↦ elim (add_to_pending sieve pending offset) [
    | none ↦ none
    | some (sieve', pending') ↦ strike fuel sieve' pending' p (add32 offset p)
  ]
]

-- The loop over the six offsets of a prime. Each round of the inner loop adds at least 1.
unfoldable pub strike_offsets : List ℕ → Pending → ℕ → List ℕ → Option (List ℕ × Pending × List ℕ)
strike_offsets sieve pending p [] = some (sieve, pending, [])
strike_offsets sieve pending p (offset ∷ offsets) =
    elim (strike (suc sieve_size) sieve pending p offset) [
      | none ↦ none
      | some (sieve', pending', offset') ↦ elim (strike_offsets sieve' pending' p offsets) [
        | none ↦ none
        | some (sieve'', pending'', offsets') ↦
            some (sieve'', pending'', sub32 offset' sieve_size ∷ offsets')
      ]
    ]

-- The loop over the primes from number `pno` on; `n` are left. The tables are the prime numbers and
-- their six offsets.
unfoldable pub strike_primes :
    List ℕ → ℕ → ℕ → List ℕ → Pending → List (List ℕ) → Option (List ℕ × Pending × List (List ℕ))
strike_primes primes zero pno sieve pending offsets = some (sieve, pending, offsets)
strike_primes primes (suc n) pno sieve pending offsets = elim (get_elem? primes pno) [
  | none ↦ none
  | some p ↦ elim (get_elem? offsets pno) [
    | none ↦ none
    | some six ↦ elim (strike_offsets sieve pending p six) [
      | none ↦ none
      | some (sieve', pending', six') ↦
          strike_primes primes n (suc pno) sieve' pending' (set offsets pno six')
    ]
  ]
]

-- The result is the sieve and the offsets for the next segment.
unfoldable pub process_sieve :
    List ℕ → ℕ → List ℕ → List (List ℕ) → ℕ → ℕ → Option (List ℕ × List (List ℕ))
process_sieve primes starting_prime_index sieve offsets start_i end_i =
    elim (strike_primes primes (end_i - start_i) (start_i + starting_prime_index) sieve init_pending
      offsets) [
        | none ↦ none
        | some (sieve', pending, offsets') ↦ elim (flush_pending sieve' pending.slots) [
          | none ↦ none
          | some sieve'' ↦ some (sieve'', offsets')
        ]
      ]

-- `silly_sort_indexes`: the inner loop brings the least of the rest to the front.
unfoldable pub sort_pass : ℕ → List ℕ → ℕ × List ℕ
sort_pass x [] = (x, [])
sort_pass x (y ∷ ys) =
    let swapped = sort_pass y ys in
    let kept = sort_pass x ys in
    if ltb y x then (swapped.0, x ∷ swapped.1) else (kept.0, y ∷ kept.1)

-- The outer loop, once per element.
unfoldable pub sort_rounds : ℕ → List ℕ → List ℕ
unfolding sort_pass
sort_rounds zero xs = xs
sort_rounds (suc n) [] = []
sort_rounds (suc n) (x ∷ xs) = let r = sort_pass x xs in r.0 ∷ sort_rounds n r.1

unfoldable pub silly_sort_indexes : List ℕ → List ℕ
unfolding sort_rounds
silly_sort_indexes indexes = sort_rounds 5 indexes
