-- ===== src/Riecoin/Bytes.antt =====
-- The operations on a sieve keep it an array of bytes.
use fastrie.Base.{
  ℕ, zero, suc, ◌+◌, ◌-◌, ◌/◌, ◌%◌, ◌^◌, ◌<◌, ◌≡◌, subst, Option, none, some, List, [], ◌∷◌,
  get_elem?, set, bit_or-lt, add32, ltb, ◌==◌, Bool-cases, Option-cases, inl, inr, arith,
}
use fastrie.Riecoin.Sieve.{
  sieve_size, mark, Pending, init_pending, mark_pending, add_to_pending, flush_pending, add_hits,
  mark_segment, strike, strike_offsets, strike_primes, process_sieve, silly_sort_indexes,
}
use fastrie.Riecoin.Merging.{strike_now, dense_offsets, dense_primes}
use fastrie.Riecoin.WholeScan.{AllBytes}
use native.Mathlib.Nat.{pow-le-pow_right}

-- The sieve of a result, where there is one.
abbrev pub Bytes : Option (List ℕ) → Type 0
Bytes none = Unit {0}
Bytes (some s) = AllBytes s

abbrev pub BytesWith : {A : Type 0} → Option (List ℕ × A) → Type 0
BytesWith none = Unit {0}
BytesWith (some (s, x)) = AllBytes s

abbrev pub BytesAlso : {A B : Type 0} → Option (List ℕ × A × B) → Type 0
BytesAlso none = Unit {0}
BytesAlso (some (s, x, y)) = AllBytes s

set-AllBytes : (bs : List ℕ) (i v : ℕ) → AllBytes bs → v < 256 → AllBytes (set bs i v)
set-AllBytes [] i v a h = tt
set-AllBytes (b ∷ bs) zero v (p, a) h = (h, a)
set-AllBytes (b ∷ bs) (suc i) v (p, a) h = (p, set-AllBytes bs i v a h)

get_elem?-AllBytes : (bs : List ℕ) (i b : ℕ) → AllBytes bs → get_elem? bs i ≡ some b → b < 256
get_elem?-AllBytes [] i b a e = absurd (ground arith)
get_elem?-AllBytes (x ∷ bs) zero b (p, a) e = ground arith
get_elem?-AllBytes (x ∷ bs) (suc i) b (p, a) e = get_elem?-AllBytes bs i b a e

mark-Bytes : (sieve : List ℕ) (ent : ℕ) → AllBytes sieve → Bytes (mark sieve ent)
unfolding mark
mark-Bytes sieve ent a = elim (Option-cases (get_elem? sieve (ent / 8))) [
  | inl e ↦ rw (mark, e) tt
  | inr (b, e) ↦
      rw (mark, e)
        (set-AllBytes sieve (ent / 8) _ a (
          bit_or-lt 8 b (2 ^ (ent % 8)) (get_elem?-AllBytes sieve (ent / 8) b a e)
            (bit (ent % 8) (omega arith))))
]
  where
    bit : (j : ℕ) → j < 8 → 2 ^ j < 2 ^ 8
    bit j h = omega (arith, pow-le-pow_right {n = 2} (omega arith) {i = j} {j = 7} (omega arith))

mark_pending-Bytes : (sieve : List ℕ) (old : ℕ) → AllBytes sieve → Bytes (mark_pending sieve old)
unfolding mark_pending
mark_pending-Bytes sieve old a = elim (Bool-cases (old == 0)) [
  | inl e ↦ rw (mark_pending, e) a
  | inr e ↦ elim (Bool-cases (ltb old sieve_size)) [
    | inl h ↦ rw (mark_pending, e) (rw h (mark-Bytes sieve old a))
    | inr h ↦ rw (mark_pending, e) (rw h tt)
  ]
]

add_to_pending-Bytes :
    (sieve : List ℕ) (pending : Pending) (ent : ℕ)
    → AllBytes sieve
    → BytesWith (add_to_pending sieve pending ent)
unfolding add_to_pending
add_to_pending-Bytes sieve pending ent a =
    elim (Option-cases (get_elem? pending.slots pending.pos)) [
      | inl e ↦ rw (add_to_pending, e) tt
      | inr (old, e) ↦ elim (Option-cases (mark_pending sieve old)) [
        | inl q ↦ rw (add_to_pending, e) (rw q tt)
        | inr (s, q) ↦
            rw (add_to_pending, e) (rw q (subst Bytes q (mark_pending-Bytes sieve old a)))
      ]
    ]

flush_pending-Bytes : (sieve slots : List ℕ) → AllBytes sieve → Bytes (flush_pending sieve slots)
unfolding flush_pending
flush_pending-Bytes sieve [] a = a
flush_pending-Bytes sieve (old ∷ slots) a = elim (Option-cases (mark_pending sieve old)) [
  | inl q ↦ rw (flush_pending, q) tt
  | inr (s, q) ↦
      rw (flush_pending, q)
        (flush_pending-Bytes s slots (subst Bytes q (mark_pending-Bytes sieve old a)))
]

add_hits-Bytes :
    (sieve : List ℕ) (pending : Pending) (ents : List ℕ)
    → AllBytes sieve
    → BytesWith (add_hits sieve pending ents)
unfolding add_hits
add_hits-Bytes sieve pending [] a = a
add_hits-Bytes sieve pending (ent ∷ ents) a =
    elim (Option-cases (add_to_pending sieve pending ent)) [
      | inl q ↦ rw (add_hits, q) tt
      | inr ((s, pd), q) ↦
          rw (add_hits, q)
            (add_hits-Bytes s pd ents
              (subst BytesWith q (add_to_pending-Bytes sieve pending ent a)))
    ]

pub mark_segment-Bytes : (sieve ents : List ℕ) → AllBytes sieve → Bytes (mark_segment sieve ents)
unfolding mark_segment
mark_segment-Bytes sieve ents a = elim (Option-cases (add_hits sieve init_pending ents)) [
  | inl q ↦ rw (mark_segment, q) tt
  | inr ((s, pd), q) ↦
      rw (mark_segment, q)
        (flush_pending-Bytes s pd.slots
          (subst BytesWith q (add_hits-Bytes sieve init_pending ents a)))
]

strike-Bytes :
    (fuel : ℕ) (sieve : List ℕ) (pending : Pending) (p offset : ℕ)
    → AllBytes sieve
    → BytesAlso (strike fuel sieve pending p offset)
unfolding strike
strike-Bytes zero sieve pending p offset a = tt
strike-Bytes (suc fuel) sieve pending p offset a = elim (Bool-cases (ltb offset sieve_size)) [
  | inr e ↦ rw (strike, e) a
  | inl e ↦ elim (Option-cases (add_to_pending sieve pending offset)) [
    | inl q ↦ rw (strike, e) (rw q tt)
    | inr ((s, pd), q) ↦
        rw (strike, e)
          (rw q (
            strike-Bytes fuel s pd p (add32 offset p)
              (subst BytesWith q (add_to_pending-Bytes sieve pending offset a))))
  ]
]

strike_offsets-Bytes :
    (sieve : List ℕ) (pending : Pending) (p : ℕ) (os : List ℕ)
    → AllBytes sieve
    → BytesAlso (strike_offsets sieve pending p os)
unfolding strike_offsets
strike_offsets-Bytes sieve pending p [] a = a
strike_offsets-Bytes sieve pending p (o ∷ os) a =
    elim (Option-cases (strike (suc sieve_size) sieve pending p o)) [
      | inl q ↦ rw (strike_offsets, q) tt
      | inr ((s, pd, o'), q) ↦ elim (Option-cases (strike_offsets s pd p os)) [
        | inl r ↦ rw (strike_offsets, q) (rw r tt)
        | inr ((s', pd', os'), r) ↦
            rw (strike_offsets, q)
              (rw r (
                subst BytesAlso r (
                  strike_offsets-Bytes s pd p os
                    (subst BytesAlso q (strike-Bytes (suc sieve_size) sieve pending p o a)))))
      ]
    ]

strike_primes-Bytes :
    (primes : List ℕ) (n pno : ℕ) (sieve : List ℕ) (pending : Pending) (offsets : List (List ℕ))
    → AllBytes sieve
    → BytesAlso (strike_primes primes n pno sieve pending offsets)
unfolding strike_primes
strike_primes-Bytes primes zero pno sieve pending offsets a = a
strike_primes-Bytes primes (suc n) pno sieve pending offsets a =
    elim (Option-cases (get_elem? primes pno)) [
      | inl e ↦ rw (strike_primes, e) tt
      | inr (p, e) ↦ elim (Option-cases (get_elem? offsets pno)) [
        | inl f ↦ rw (strike_primes, e) (rw f tt)
        | inr (six, f) ↦ elim (Option-cases (strike_offsets sieve pending p six)) [
          | inl q ↦ rw (strike_primes, e) (rw f (rw q tt))
          | inr ((s, pd, six'), q) ↦
              rw (strike_primes, e)
                (rw f (
                  rw q (
                    strike_primes-Bytes primes n (suc pno) s pd (set offsets pno six')
                      (subst BytesAlso q (strike_offsets-Bytes sieve pending p six a)))))
        ]
      ]
    ]

pub process_sieve-Bytes :
    (primes : List ℕ) (sp : ℕ) (sieve : List ℕ) (offsets : List (List ℕ)) (start_i end_i : ℕ)
    → AllBytes sieve
    → BytesWith (process_sieve primes sp sieve offsets start_i end_i)
unfolding process_sieve
process_sieve-Bytes primes sp sieve offsets start_i end_i a =
    elim (Option-cases
      (strike_primes primes (end_i - start_i) (start_i + sp) sieve init_pending offsets)) [
        | inl q ↦ rw (process_sieve, q) tt
        | inr ((s, pd, offsets'), q) ↦
            let a' : AllBytes s = subst BytesAlso q (
              strike_primes-Bytes primes (end_i - start_i) (start_i + sp) sieve init_pending offsets
                a) in
            elim (Option-cases (flush_pending s pd.slots)) [
              | inl r ↦ rw (process_sieve, q) (rw r tt)
              | inr (s', r) ↦
                  rw (process_sieve, q) (rw r (subst Bytes r (flush_pending-Bytes s pd.slots a')))
            ]
      ]

strike_now-Bytes :
    (fuel : ℕ) (sieve : List ℕ) (p offset : ℕ)
    → AllBytes sieve
    → BytesWith (strike_now fuel sieve p offset)
unfolding strike_now
strike_now-Bytes zero sieve p offset a = tt
strike_now-Bytes (suc fuel) sieve p offset a = elim (Bool-cases (ltb offset sieve_size)) [
  | inr e ↦ rw (strike_now, e) a
  | inl e ↦ elim (Option-cases (mark sieve offset)) [
    | inl q ↦ rw (strike_now, e) (rw q tt)
    | inr (s, q) ↦
        rw (strike_now, e)
          (rw q (
            strike_now-Bytes fuel s p (add32 offset p) (subst Bytes q (mark-Bytes sieve offset a))))
  ]
]

dense_offsets-Bytes :
    (sieve : List ℕ) (p : ℕ) (os : List ℕ) → AllBytes sieve → BytesWith (dense_offsets sieve p os)
unfolding dense_offsets
dense_offsets-Bytes sieve p [] a = a
dense_offsets-Bytes sieve p (o ∷ os) a =
    elim (Option-cases (strike_now (suc sieve_size) sieve p o)) [
      | inl q ↦ rw (dense_offsets, q) tt
      | inr ((s, o'), q) ↦ elim (Option-cases (dense_offsets s p os)) [
        | inl r ↦ rw (dense_offsets, q) (rw r tt)
        | inr ((s', os'), r) ↦
            rw (dense_offsets, q)
              (rw r (
                subst BytesWith r (
                  dense_offsets-Bytes s p os
                    (subst BytesWith q (strike_now-Bytes (suc sieve_size) sieve p o a)))))
      ]
    ]

pub dense_primes-Bytes :
    (primes : List ℕ) (n pno : ℕ) (sieve : List ℕ) (offsets : List (List ℕ))
    → AllBytes sieve
    → BytesWith (dense_primes primes n pno sieve offsets)
unfolding dense_primes
dense_primes-Bytes primes zero pno sieve offsets a = a
dense_primes-Bytes primes (suc n) pno sieve offsets a = elim (Option-cases (get_elem? primes pno)) [
  | inl e ↦ rw (dense_primes, e) tt
  | inr (p, e) ↦ elim (Option-cases (get_elem? offsets pno)) [
    | inl f ↦ rw (dense_primes, e) (rw f tt)
    | inr (six, f) ↦ elim (Option-cases (dense_offsets sieve p (silly_sort_indexes six))) [
      | inl q ↦ rw (dense_primes, e) (rw f (rw q tt))
      | inr ((s, six'), q) ↦
          rw (dense_primes, e)
            (rw f (
              rw q (
                dense_primes-Bytes primes n (suc pno) s (set offsets pno six')
                  (subst BytesWith q (dense_offsets-Bytes sieve p (silly_sort_indexes six) a)))))
    ]
  ]
]
