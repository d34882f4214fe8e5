-- ===== src/Riecoin/Buckets.antt =====
-- What `update_remainders` leaves in the segments' hits.
use fastrie.Base.{
  ℕ, zero, suc, ◌+◌, ◌-◌, ◌/◌, ◌%◌, ◌^◌, ◌≤◌, ◌<◌, ◌≡◌, refl, sym, ap, subst, ◌∙◌, some, List, [],
  ◌∷◌, ◌++◌, append-nil, append_assoc, length, get_or, get_elem?-get_or, get_or-set_self,
  get_or-set_ne, set, length-set, take, All, ltb, leb, ltb→lt, lt→ltb, gt→leb, if-true, if-false,
  ◌==◌, ==_iff, if◌then◌else◌, Bool-cases, inl, inr, arith, add32, sub32,
}
use fastrie.Riecoin.Sieve.{sieve_size, ◌>>=◌}
use fastrie.Riecoin.Init.{mul32}
use fastrie.Riecoin.Remainders.{
  max_increments, Buckets, put_offset, put_offsets, Tables, update_remainders,
}
use fastrie.Riecoin.Batches.{kept, once_only, stored, Reaches, indexes_at, update_primes_lem}

abbrev count : Buckets → ℕ → ℕ
count b s = get_or b.counts s 0

abbrev row : Buckets → ℕ → List ℕ
row b s = get_or b.hits s []

-- The entries of segment `s`.
abbrev pub entries : Buckets → ℕ → List ℕ
entries b s = take (count b s) (row b s)

-- 64 segments, each with room for `num` entries.
pub record IsBuckets (num : ℕ) (b : Buckets) : Type 0 where
  pub counts : length b.counts ≡ 64
  pub hits : length b.hits ≡ 64
  pub rows : (s : ℕ) → s < 64 → length (get_or b.hits s []) ≡ num
  pub within : (s : ℕ) → s < 64 → get_or b.counts s 0 ≤ num

-- The positions in segment `s` of the indexes that lie in it.
unfoldable pub in_segment : ℕ → List ℕ → List ℕ
in_segment s [] = []
in_segment s (i ∷ is) = if i / 2 ^ 23 == s then i % 2 ^ 23 ∷ in_segment s is else in_segment s is

take-set_next :
    (xs : List ℕ) (n v : ℕ) → n < length xs → take (suc n) (set xs n v) ≡ take n xs ++ (v ∷ [])
take-set_next [] n v h = absurd (omega arith)
take-set_next (x ∷ xs) zero v h = refl
take-set_next (x ∷ xs) (suc n) v h = ap (λ l. x ∷ l) (take-set_next xs n v (omega arith))

module _ (num : ℕ) (b : Buckets) (v : IsBuckets num b) (i : ℕ) (small : i < 2 ^ 29)
    (fits : num < 2 ^ 32) (room : count b (i / 2 ^ 23) < num) where
  abbrev seg : ℕ
  seg = i / 2 ^ 23

  abbrev after : Buckets
  after = record {
    counts = set b.counts seg (suc (count b seg));
    hits = set b.hits seg (set (row b seg) (count b seg) (i % 2 ^ 23));
  }

  seg_in : seg < 64
  seg_in = omega arith

  put_offset-some : put_offset num b i ≡ some after
  unfolding put_offset
  put_offset-some =
      rw (put_offset, get_elem?-get_or b.counts seg 0 (omega (arith, v.counts, seg_in)))
        (rw (gt→leb num (count b seg) room) (
          rw (get_elem?-get_or b.hits seg [] (omega (arith, v.hits, seg_in))) (
            rw (lt→ltb (count b seg) (length (row b seg)) (omega (arith, room, v.rows seg seg_in)))
              (rw (counted, placed) refl))))
    where
      counted : add32 (count b seg) 1 ≡ suc (count b seg)
      counted = omega (arith, room, fits)

      placed : sub32 i (mul32 sieve_size seg) ≡ i % 2 ^ 23
      placed = omega (arith, small)

  after-counts :
      (s : ℕ) → s < 64 → count after s ≡ (if seg == s then suc (count b s) else count b s)
  after-counts s h = elim (Bool-cases (seg == s)) [
    | inl e ↦
        let same : seg ≡ s = (==_iff seg s).0 e in
        rw e (
          ap (λ j. get_or (set b.counts seg (suc (count b seg))) j 0) (sym same)
          ∙ get_or-set_self b.counts seg (suc (count b seg)) 0 (omega (arith, v.counts, seg_in))
          ∙ ap (λ j. suc (count b j)) same)
    | inr e ↦ rw e (get_or-set_ne b.counts {i = seg} {j = s} (suc (count b seg)) 0 (ground arith))
  ]

  after-rows :
      (s : ℕ)
      → s < 64
      → row after s ≡ (if seg == s then set (row b s) (count b s) (i % 2 ^ 23) else row b s)
  after-rows s h = elim (Bool-cases (seg == s)) [
    | inl e ↦
        let same : seg ≡ s = (==_iff seg s).0 e in
        rw e (
          ap (λ j. get_or (set b.hits seg (set (row b seg) (count b seg) (i % 2 ^ 23))) j [])
            (sym same)
          ∙ get_or-set_self b.hits seg _ [] (omega (arith, v.hits, seg_in))
          ∙ ap (λ j. set (row b j) (count b j) (i % 2 ^ 23)) same)
    | inr e ↦ rw e (get_or-set_ne b.hits {i = seg} {j = s} _ [] (ground arith))
  ]

  after-IsBuckets : IsBuckets num after
  after-IsBuckets = record {
    counts = length-set b.counts seg _ ∙ v.counts;
    hits = length-set b.hits seg _ ∙ v.hits;
    rows = λ s h. elim (Bool-cases (seg == s)) [
      | inl e ↦
          ap length (after-rows s h ∙ if-true _ _ e)
          ∙ length-set (row b s) (count b s) _
          ∙ v.rows s h
      | inr e ↦ ap length (after-rows s h ∙ if-false _ _ e) ∙ v.rows s h
    ];
    within = λ s h. elim (Bool-cases (seg == s)) [
      | inl e ↦
          omega (arith, after-counts s h ∙ if-true _ _ e, ap (count b) ((==_iff seg s).0 e), room)
      | inr e ↦ omega (arith, after-counts s h ∙ if-false _ _ e, v.within s h)
    ];
  }

  after-entries : (s : ℕ) → s < 64 → entries after s ≡ entries b s ++ in_segment s (i ∷ [])
  unfolding in_segment
  after-entries s h = elim (Bool-cases (seg == s)) [
    | inl e ↦
        let here : count b s < num = subst (λ j. count b j < num) ((==_iff seg s).0 e) room in
        rw e (
          ap (λ n. take n (row after s)) (after-counts s h ∙ if-true _ _ e)
          ∙ ap (take (suc (count b s))) (after-rows s h ∙ if-true _ _ e)
          ∙ take-set_next (row b s) (count b s) (i % 2 ^ 23) (omega (arith, here, v.rows s h)))
    | inr e ↦ rw e (
        ap (λ n. take n (row after s)) (after-counts s h ∙ if-false _ _ e)
        ∙ ap (take (count b s)) (after-rows s h ∙ if-false _ _ e)
        ∙ sym (append-nil (entries b s)))
  ]

in_segment-cons :
    (s i : ℕ) (is : List ℕ) → in_segment s (i ∷ is) ≡ in_segment s (i ∷ []) ++ in_segment s is
unfolding in_segment
in_segment-cons s i is = elim (Bool-cases (i / 2 ^ 23 == s)) [
  | inl e ↦ rw e refl
  | inr e ↦ rw e refl
]

in_segment-own :
    (i : ℕ) (is : List ℕ)
    → length (in_segment (i / 2 ^ 23) (i ∷ is)) ≡ suc (length (in_segment (i / 2 ^ 23) is))
unfolding in_segment
in_segment-own i is = rw ((==_iff (i / 2 ^ 23) (i / 2 ^ 23)).1 refl) refl

room_left :
    (num : ℕ) (b : Buckets) (v : IsBuckets num b) (i : ℕ) (small : i < 2 ^ 29) (fits : num < 2 ^ 32)
    (room : count b (i / 2 ^ 23) < num) (is : List ℕ) (s : ℕ)
    → s < 64
    → count b s + length (in_segment s (i ∷ is)) ≤ num
    → count (after num b v i small fits room) s + length (in_segment s is) ≤ num
unfolding in_segment
room_left num b v i small fits room is s h enough = elim (Bool-cases (i / 2 ^ 23 == s)) [
  | inl e ↦ omega (
    arith,
    after-counts num b v i small fits room s h ∙ if-true _ _ e,
    ap length (if-true (i % 2 ^ 23 ∷ in_segment s is) (in_segment s is) e),
    enough,
  )
  | inr e ↦ omega (
    arith,
    after-counts num b v i small fits room s h ∙ if-false _ _ e,
    ap length (if-false (i % 2 ^ 23 ∷ in_segment s is) (in_segment s is) e),
    enough,
  )
]

abbrev AllIncrements : List ℕ → Type 0
AllIncrements is = All (λ i. i < max_increments) is

put_offsets_lem :
    (num : ℕ) (is : List ℕ) (b : Buckets)
    → IsBuckets num b
    → num < 2 ^ 32
    → AllIncrements is
    → ((s : ℕ) → s < 64 → get_or b.counts s 0 + length (in_segment s is) ≤ num)
    → (b' : Buckets) × (put_offsets num b is ≡ some b')
      × IsBuckets num b'
      × ((s : ℕ) → s < 64 → entries b' s ≡ entries b s ++ in_segment s is)
unfolding put_offsets in_segment
put_offsets_lem num [] b v fits a room = (b, refl, v, λ s h. sym (append-nil (entries b s)))
put_offsets_lem num (i ∷ is) b v fits (small, a) room =
    let here : count b (i / 2 ^ 23) < num =
      omega (arith, room (i / 2 ^ 23) (omega arith), in_segment-own i is) in
    let b₁ : Buckets = after num b v i small fits here in
    let (b₂, e₂, v₂, all) =
      put_offsets_lem num is b₁ (after-IsBuckets num b v i small fits here) fits a
        (λ s h. room_left num b v i small fits here is s h (room s h)) in
    (
      b₂,
      rw (put_offsets, put_offset-some num b v i small fits here) e₂,
      v₂,
      λ s h.
          all s h
          ∙ ap (λ l. l ++ in_segment s is) (after-entries num b v i small fits here s h)
          ∙ append_assoc (entries b s) (in_segment s (i ∷ [])) (in_segment s is)
          ∙ ap (λ l. entries b s ++ l) (sym (in_segment-cons s i is)),
    )

kept-AllIncrements : (is : List ℕ) → AllIncrements (kept is)
unfolding kept
kept-AllIncrements [] = tt
kept-AllIncrements (i ∷ is) = elim (Bool-cases (ltb i max_increments)) [
  | inl e ↦ rw e (ltb→lt _ _ e, kept-AllIncrements is)
  | inr e ↦ rw e (kept-AllIncrements is)
]

append-AllIncrements :
    (xs ys : List ℕ) → AllIncrements xs → AllIncrements ys → AllIncrements (xs ++ ys)
append-AllIncrements [] ys a b = b
append-AllIncrements (x ∷ xs) ys (p, a) b = (p, append-AllIncrements xs ys a b)

once_only-AllIncrements : (t : Tables) (n i : ℕ) → AllIncrements (once_only t n i)
unfolding once_only
once_only-AllIncrements t zero i = tt
once_only-AllIncrements t (suc n) i =
    append-AllIncrements _ (once_only t n (suc i)) first (once_only-AllIncrements t n (suc i))
  where
    first :
        AllIncrements
          (if leb max_increments (get_or t.primes i 0) then kept (indexes_at t i) else [])
    first = elim (Bool-cases (leb max_increments (get_or t.primes i 0))) [
      | inl e ↦ rw e (kept-AllIncrements (indexes_at t i))
      | inr e ↦ rw e tt
    ]

-- The loop over `n` primes from number `start_i` on, with tables that reach as far and room in the segments for
-- all hits, comes to its end without leaving an array or the `exit`. It replaces the six offsets of every
-- prime below 2 ^ 29 by its six indexes and no other row; and of the indexes of the larger primes, in the order
-- in which they are found, those below 2 ^ 29 are behind the entries of their segments, whatever
-- the stack of 16384 collects in between.
pub update_remainders_lem :
    (num : ℕ) (t : Tables) (start_i n : ℕ) (offsets : List (List ℕ)) (b : Buckets)
    → Reaches t n start_i (length offsets)
    → IsBuckets num b
    → num < 2 ^ 32
    → ((s : ℕ) → s < 64 → get_or b.counts s 0 + length (in_segment s (once_only t n start_i)) ≤ num)
    → (b' : Buckets) × (update_remainders num t start_i (start_i + n) offsets b
        ≡ some (stored t n start_i offsets, b'))
      × IsBuckets num b'
      × ((s : ℕ) → s < 64 → entries b' s ≡ entries b s ++ in_segment s (once_only t n start_i))
unfolding update_remainders
update_remainders_lem num t start_i n offsets b r v fits room =
    let (b', e, v', all) =
      put_offsets_lem num (once_only t n start_i) b v fits (once_only-AllIncrements t n start_i)
        room in
    (
      b',
      rw (update_remainders, rounds start_i n)
          (update_primes_lem t num n start_i (length offsets)
              (record { stack = []; buckets = b; offsets = offsets }) r refl (omega arith)
            ∙ ap (λ o. o >>= λ b. some (stored t n start_i offsets, b)) e),
      v',
      all,
    )
  where
    rounds : (start_i n : ℕ) → start_i + n - start_i ≡ n
    rounds start_i n = omega arith
