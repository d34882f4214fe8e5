-- ===== src/Riecoin/Batches.antt =====
-- Collecting the hits in a stack changes nothing: they are put into the segments in the order in which they
-- are found.
use fastrie.Base.{
  ℕ, zero, suc, ◌+◌, ◌≤◌, ◌<◌, ◌≡◌, refl, sym, ap, ◌∙◌, Option, none, some, List, [], ◌∷◌, ◌++◌,
  append-nil, append_assoc, length, get_elem?, get_or, get_elem?-get_or, set, length-set, ltb, leb,
  lt→ltb, ltb→ge, leb→gt, if◌then◌else◌, Bool-cases, Option-cases, inl, inr, arith,
}
use fastrie.Riecoin.Sieve.{◌>>=◌}
use fastrie.Riecoin.Remainders.{
  max_increments, offset_stack_size, Buckets, put_offset, put_offsets, Worker, push_offset,
  push_offsets, Tables, indexes_of, update_prime, update_primes, finish,
}

put_offsets-append :
    (num : ℕ) (b : Buckets) (xs ys : List ℕ)
    → put_offsets num b (xs ++ ys) ≡ (put_offsets num b xs >>= λ b'. put_offsets num b' ys)
unfolding put_offsets
put_offsets-append num b [] ys = refl
put_offsets-append num b (x ∷ xs) ys = elim (Option-cases (put_offset num b x)) [
  | inl e ↦ rw (e, put_offsets) refl
  | inr (b', e) ↦ rw (e, put_offsets) (put_offsets-append num b' xs ys)
]

-- The indexes that lie in a segment.
unfoldable pub kept : List ℕ → List ℕ
kept [] = []
kept (i ∷ is) = if ltb i max_increments then i ∷ kept is else kept is

-- What follows `w` behaves as putting the stack and `rest`.
abbrev Puts :
    {X : Type 0} → ℕ → (Worker → Option X) → (Buckets → Option X) → List ℕ → Worker → Type 0
Puts num k f rest w = k w ≡ (put_offsets num w.buckets (w.stack ++ rest) >>= f)

push_offset_lem :
    {X : Type 0} (num : ℕ) (k : Worker → Option X) (f : Buckets → Option X) (i : ℕ) (rest : List ℕ)
    (w : Worker)
    → length w.stack < offset_stack_size
    → ((w' : Worker)
        → length w'.stack < offset_stack_size
        → w'.offsets ≡ w.offsets
        → Puts num k f rest w')
    → Puts num (λ w. push_offset num w i >>= k) f (i ∷ rest) w
unfolding push_offset
push_offset_lem num k f i rest w small next =
    let full : List ℕ = w.stack ++ (i ∷ []) in
    let regroup : (put_offsets num w.buckets (w.stack ++ (i ∷ rest)) >>= f)
        ≡ (put_offsets num w.buckets (full ++ rest) >>= f) =
      ap (λ l. put_offsets num w.buckets l >>= f) (sym (append_assoc w.stack (i ∷ []) rest)) in
    elim (Bool-cases (leb offset_stack_size (length full))) [
      | inr e ↦
          rw (push_offset, lt→ltb _ _ small)
            (rw e (next (record w { stack = full }) (leb→gt _ _ e) refl ∙ sym regroup))
      | inl e ↦
          rw (push_offset, lt→ltb _ _ small)
            (rw e (elim (Option-cases (put_offsets num w.buckets full)) [
              | inl q ↦ rw q (
                  sym (
                    regroup
                    ∙ ap (λ o. o >>= f) (put_offsets-append num w.buckets full rest)
                    ∙ ap (λ o. (o >>= λ b'. put_offsets num b' rest) >>= f) q))
              | inr (b, q) ↦ rw q (
                  next (record w { stack = []; buckets = b }) (omega arith) refl
                  ∙ sym (
                      regroup
                      ∙ ap (λ o. o >>= f) (put_offsets-append num w.buckets full rest)
                      ∙ ap (λ o. (o >>= λ b'. put_offsets num b' rest) >>= f) q))
            ]))
    ]

>>=-assoc :
    {A B C : Type 0} (o : Option A) (g : A → Option B) (h : B → Option C)
    → ((o >>= g) >>= h) ≡ (o >>= λ x. g x >>= h)
>>=-assoc none g h = refl
>>=-assoc (some x) g h = refl

push_offsets_lem :
    {X : Type 0} (num : ℕ) (k : Worker → Option X) (f : Buckets → Option X) (is rest : List ℕ)
    (w : Worker)
    → length w.stack < offset_stack_size
    → ((w' : Worker)
        → length w'.stack < offset_stack_size
        → w'.offsets ≡ w.offsets
        → Puts num k f rest w')
    → Puts num (λ w. push_offsets num w is >>= k) f (kept is ++ rest) w
unfolding push_offsets kept
push_offsets_lem num k f [] rest w small next = next w small refl
push_offsets_lem num k f (i ∷ is) rest w small next = elim (Bool-cases (ltb i max_increments)) [
  | inr e ↦ rw (push_offsets, e) (push_offsets_lem num k f is rest w small next)
  | inl e ↦
      rw (push_offsets, e)
        (>>=-assoc (push_offset num w i) (λ w'. push_offsets num w' is) k
          ∙ push_offset_lem num (λ w'. push_offsets num w' is >>= k) f i (kept is ++ rest) w small
              (λ w' small' same.
                push_offsets_lem num k f is rest w' small'
                  (λ w'' small'' same'. next w'' small'' (same' ∙ same))))
]

module _ (t : Tables) where
  abbrev pub prime_at : ℕ → ℕ
  prime_at i = get_or t.primes i 0

  abbrev pub indexes_at : ℕ → List ℕ
  indexes_at i = indexes_of t (prime_at i) (get_or t.inverts i 0)

  -- The hits of the once-only primes among `n` primes from number `i` on.
  unfoldable pub once_only : ℕ → ℕ → List ℕ
  once_only zero i = []
  once_only (suc n) i =
      (if leb max_increments (prime_at i) then kept (indexes_at i) else []) ++ once_only n (suc i)

  -- The offsets, with the rows of the other primes.
  unfoldable pub stored : ℕ → ℕ → List (List ℕ) → List (List ℕ)
  stored zero i offsets = offsets
  stored (suc n) i offsets =
      stored n (suc i)
        (if leb max_increments (prime_at i) then offsets else set offsets i (indexes_at i))

  -- The tables reach as far as the loop, and the offsets for the primes that are not once-only.
  pub record Reaches (n i rows : ℕ) : Type 0 where
    pub in_primes : i + n ≤ length t.primes
    pub in_inverts : i + n ≤ length t.inverts
    pub in_offsets : (j : ℕ) → j < i + n → prime_at j < max_increments → j < rows

  finish_lem :
      (num : ℕ) (w : Worker)
      → finish num w ≡ (put_offsets num w.buckets (w.stack ++ []) >>= λ b. some (w.offsets, b))
  unfolding finish put_offsets
  finish_lem num w = elim (Bool-cases (ltb 0 (length w.stack))) [
    | inl e ↦ rw (finish, e) (rw (append-nil w.stack) refl)
    | inr e ↦ rw (finish, e) (rw (ap (λ l. l ++ []) (empty w.stack (ltb→ge _ _ e))) refl)
  ]
    where
      empty : (xs : List ℕ) → length xs ≤ 0 → xs ≡ []
      empty [] h = refl
      empty (x ∷ xs) h = absurd (omega (arith, h))

  pub update_primes_lem :
      (num n i rows : ℕ) (w : Worker)
      → Reaches n i rows
      → length w.offsets ≡ rows
      → length w.stack < offset_stack_size
      → (update_primes num t n i w >>= finish num) ≡ (
          put_offsets num w.buckets (w.stack ++ once_only n i) >>= λ b.
          some (stored n i w.offsets, b))
  unfolding update_primes update_prime once_only stored
  update_primes_lem num zero i rows w r len small = finish_lem num w
  update_primes_lem num (suc n) i rows w r len small =
      let p_in : get_elem? t.primes i ≡ some (prime_at i) =
        get_elem?-get_or t.primes i 0 (omega (arith, r.in_primes)) in
      let i_in : get_elem? t.inverts i ≡ some (get_or t.inverts i 0) =
        get_elem?-get_or t.inverts i 0 (omega (arith, r.in_inverts)) in
      let r' : Reaches n (suc i) rows = record {
        in_primes = omega (arith, r.in_primes);
        in_inverts = omega (arith, r.in_inverts);
        in_offsets = λ j h. r.in_offsets j (omega (arith, h));
      } in
      elim (Bool-cases (leb max_increments (prime_at i))) [
        | inl e ↦
            rw (update_primes, update_prime, p_in)
              (rw i_in (
                rw e (
                  >>=-assoc (push_offsets num w (indexes_at i))
                    (λ w'. update_primes num t n (suc i) w') (finish num)
                  ∙ push_offsets_lem num (λ w'. update_primes num t n (suc i) w' >>= finish num)
                      (λ b. some (stored n (suc i) w.offsets, b)) (indexes_at i)
                      (once_only n (suc i)) w small
                      (λ w' small' same.
                        update_primes_lem num n (suc i) rows w' r' (ap length same ∙ len) small'
                        ∙ ap
                            (λ o.
                              put_offsets num w'.buckets (w'.stack ++ once_only n (suc i)) >>= λ b.
                              some (stored n (suc i) o, b))
                            same))))
        | inr e ↦
            let o_in : get_elem? w.offsets i ≡ some (get_or w.offsets i []) =
              get_elem?-get_or w.offsets i []
                (omega (arith, len, r.in_offsets i (omega arith) (leb→gt _ _ e))) in
            rw (update_primes, update_prime, p_in)
              (rw i_in (
                rw e (
                  rw o_in (
                    update_primes_lem num n (suc i) rows
                      (record w { offsets = set w.offsets i (indexes_at i) }) r'
                      (length-set w.offsets i (indexes_at i) ∙ len) small))))
      ]
