-- ===== src/Riecoin/Remainders.antt =====
-- `update_remainders` and `put_offsets_in_segments`: the offsets of the primes for a new target, and the hits
-- of the primes that are so large that they hit a segment at most once. `none` is an access outside an array
-- or the `exit` for a segment that is full. The remainder of the target, by GMP, is an argument.
use fastrie.Base.{
  ℕ, zero, suc, ◌-◌, ◌/◌, ◌^◌, true, false, Option, none, some, List, [], ◌∷◌, ◌++◌, length,
  get_elem?, set, add32, sub32, ltb, leb, if◌then◌else◌,
}
use fastrie.Riecoin.Sieve.{sieve_size, ◌>>=◌}
use fastrie.Riecoin.Init.{mul32}
use fastrie.Riecoin.Offsets.{prime_tuple_offset, tuple_indexes}

abbrev pub max_increments : ℕ
max_increments = 2 ^ 29

abbrev pub offset_stack_size : ℕ
offset_stack_size = 16384

-- `segment_counts` and `segment_hits`.
pub record Buckets : Type 0 where
  pub counts : List ℕ
  pub hits : List (List ℕ)

-- The body of the loop of `put_offsets_in_segments`; `num` is `num_entries_per_segment`.
unfoldable pub put_offset : ℕ → Buckets → ℕ → Option Buckets
put_offset num b index =
    let segment = index / 2 ^ 23 in
    elim (get_elem? b.counts segment) [
      | none ↦ none
      | some sc ↦ elim (leb num sc) [
        | true ↦ none
        | false ↦ elim (get_elem? b.hits segment) [
          | none ↦ none
          | some row ↦ elim (ltb sc (length row)) [
            | false ↦ none
            | true ↦ some (record {
              counts = set b.counts segment (add32 sc 1);
              hits = set b.hits segment (set row sc (sub32 index (mul32 sieve_size segment)));
            })
          ]
        ]
      ]
    ]

unfoldable pub put_offsets : ℕ → Buckets → List ℕ → Option Buckets
put_offsets num b [] = some b
put_offsets num b (index ∷ indexes) = put_offset num b index >>= λ b'. put_offsets num b' indexes

-- `stack` is the used part of `offset_stack`.
pub record Worker : Type 0 where
  pub stack : List ℕ
  pub buckets : Buckets
  pub offsets : List (List ℕ)

-- `offset_stack[n_offsets++] = index;`, and the stack emptied when it is full.
unfoldable pub push_offset : ℕ → Worker → ℕ → Option Worker
push_offset num w index = elim (ltb (length w.stack) offset_stack_size) [
  | false ↦ none
  | true ↦ elim (leb offset_stack_size (length (w.stack ++ (index ∷ [])))) [
    | false ↦ some (record w { stack = w.stack ++ (index ∷ []) })
    | true ↦ put_offsets num w.buckets (w.stack ++ (index ∷ [])) >>= λ b.
        some (record w { stack = []; buckets = b })
  ]
]

-- The indexes of a once-only prime.
unfoldable pub push_offsets : ℕ → Worker → List ℕ → Option Worker
push_offsets num w [] = some w
push_offsets num w (index ∷ indexes) = elim (ltb index max_increments) [
  | false ↦ push_offsets num w indexes
  | true ↦ push_offset num w index >>= λ w'. push_offsets num w' indexes
]

-- The tables and the target, by its remainders.
pub record Tables : Type 0 where
  pub primes : List ℕ
  pub inverts : List ℕ
  pub remainder : ℕ → ℕ

unfoldable pub indexes_of : Tables → ℕ → ℕ → List ℕ
indexes_of t p inverted = tuple_indexes p inverted prime_tuple_offset (t.remainder p)

-- The body of the loop over the primes.
unfoldable pub update_prime : ℕ → Tables → ℕ → Worker → Option Worker
update_prime num t i w = get_elem? t.primes i >>= λ p. get_elem? t.inverts i >>= λ inverted.
    elim (leb max_increments p) [
      | true ↦ push_offsets num w (indexes_of t p inverted)
      | false ↦ get_elem? w.offsets i >>= λ _.
          some (record w { offsets = set w.offsets i (indexes_of t p inverted) })
    ]

-- The loop over the primes from number `i` on; `n` are left.
unfoldable pub update_primes : ℕ → Tables → ℕ → ℕ → Worker → Option Worker
update_primes num t zero i w = some w
update_primes num t (suc n) i w = update_prime num t i w >>= λ w'. update_primes num t n (suc i) w'

-- `if (n_offsets > 0)` at the end.
unfoldable pub finish : ℕ → Worker → Option (List (List ℕ) × Buckets)
finish num w =
    if ltb 0 (length w.stack)
    then (put_offsets num w.buckets w.stack >>= λ b. some (w.offsets, b))
    else some (w.offsets, w.buckets)

unfoldable pub update_remainders :
    ℕ → Tables → ℕ → ℕ → List (List ℕ) → Buckets → Option (List (List ℕ) × Buckets)
update_remainders num t start_i end_i offsets buckets =
    update_primes num t (end_i - start_i) start_i
      (record { stack = []; buckets = buckets; offsets = offsets })
    >>= finish num
