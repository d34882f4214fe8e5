-- ===== src/Riecoin/Shares.antt =====
-- The verifier submits the candidates that are shares, and only these.
use fastrie.Base.{
  ℕ, ◌+◌, ◌-◌, ◌*◌, ◌%◌, ◌^◌, ◌<◌, ◌≡◌, refl, sym, ap, subst, ◌∙◌, Bool, true, some, List, [], ◌∷◌,
  ◌++◌, length, length-append, map, append-nil, append_assoc, All, Bool-cases, inl, inr, leb, ◌==◌,
  ◌&&◌, le_value, if◌then◌else◌, arith,
}
use native.Mathlib.Nat.{mul-add, mul_assoc, add_assoc}
use fastrie.Riecoin.Sieve.{sieve_size, ◌>>=◌}
use fastrie.Riecoin.Mpz.{Mpz}
use fastrie.Riecoin.Limbs.{offset_bytes_lem}
use fastrie.Riecoin.Verify.{
  Verified, next_members, count_chain, count_chains, submit, fermat, count_primes, candidate,
  check_index, check_indexes,
}

-- The Fermat test to the base 2.
unfoldable pub passes : ℕ → Bool
passes n = (2 ^ (n - 1) % n) == 1

unfoldable pub passing : List ℕ → ℕ
passing [] = 0
passing (n ∷ ns) = (if passes n then 1 else 0) + passing ns

-- A share: the first number of the sextuplet passes, and three more do.
unfoldable pub is_share : ℕ → Bool
is_share n =
    passes n && leb 4 (passing (n ∷ (n + 4) ∷ (n + 6) ∷ (n + 10) ∷ (n + 12) ∷ (n + 16) ∷ []))

-- The offset of an index of the sieve from the target.
abbrev pub offset_of : ℕ → ℕ → ℕ → ℕ → ℕ
offset_of z_primorial z_remainder loop index =
    z_remainder + z_primorial * (loop * sieve_size + index)

-- The offsets of the shares among the indexes, in 256 bits.
unfoldable pub shares : ℕ → ℕ → ℕ → ℕ → List ℕ → List ℕ
shares z_primorial z_remainder z_target loop [] = []
shares z_primorial z_remainder z_target loop (i ∷ is) =
    if is_share (z_target + offset_of z_primorial z_remainder loop i)
    then offset_of z_primorial z_remainder loop i % 2 ^ 256
      ∷ shares z_primorial z_remainder z_target loop is
    else shares z_primorial z_remainder z_target loop is

unfoldable running : ℕ → List ℕ → List ℕ
running z [] = []
running z (o ∷ os) = (z + o) ∷ running (z + o) os

map-append : (xs ys : List (List ℕ)) → map le_value (xs ++ ys) ≡ map le_value xs ++ map le_value ys
map-append [] ys = refl
map-append (x ∷ xs) ys = ap (λ l. le_value x ∷ l) (map-append xs ys)

All-append : (P : List ℕ → Type 0) (xs ys : List (List ℕ)) → All P xs → All P ys → All P (xs ++ ys)
All-append P [] ys a b = b
All-append P (x ∷ xs) ys a b = (a.0, All-append P xs ys a.1 b)

module _ (g : Mpz) where
  fermat_lem : (z : ℕ) → 0 < z → fermat g z ≡ passes z
  unfolding fermat passes
  fermat_lem z pos =
      ap (λ r. r == 1)
        (g.powm_lem 2 (g.sub_ui z 1) z pos
          ∙ ap (λ e. 2 ^ e % z) (g.sub_ui_lem z 1 (omega (arith, pos))))

  count_primes_lem :
      (os : List ℕ) (z n : ℕ) → 0 < z → count_primes g os z n ≡ n + passing (running z os)
  unfolding count_primes passing running
  count_primes_lem [] z n pos = omega arith
  count_primes_lem (o ∷ os) z n pos =
      rw (count_primes, g.add_ui_lem z o, fermat_lem (z + o) (omega (arith, pos)))
        (count_primes_lem os (z + o) _ (omega (arith, pos)) ∙ elim (Bool-cases (passes (z + o))) [
          | inl e ↦ rw e (omega arith)
          | inr e ↦ rw e (omega arith)
        ])

  members_lem :
      (z : ℕ)
      → 0 < z
      → passes z ≡ true
      → count_primes g next_members z 1
        ≡ passing (z ∷ (z + 4) ∷ (z + 6) ∷ (z + 10) ∷ (z + 12) ∷ (z + 16) ∷ [])
  unfolding passing running
  members_lem z pos e =
      count_primes_lem next_members z 1 pos ∙ rw e (ap (λ ns. 1 + passing ns) sums)
    where
      sums : running z next_members ≡ (z + 4) ∷ (z + 6) ∷ (z + 10) ∷ (z + 12) ∷ (z + 16) ∷ []
      sums = rw (add_assoc z 4 2, add_assoc z 6 4, add_assoc z 10 2, add_assoc z 12 4) refl

  module _ (z_primorial z_remainder z_target : ℕ) where
    candidate_lem :
        (loop index : ℕ)
        → candidate g z_primorial z_remainder z_target loop index
          ≡ z_target + offset_of z_primorial z_remainder loop index
    unfolding candidate
    candidate_lem loop index =
        rw
          (
            candidate,
            g.mul_ui_lem z_primorial loop,
            g.mul_ui_lem (z_primorial * loop) sieve_size,
            g.mul_ui_lem z_primorial index,
            g.add_lem (z_primorial * loop * sieve_size) (z_primorial * index),
            g.add_lem (z_primorial * loop * sieve_size + z_primorial * index) z_remainder,
            g.add_lem (z_primorial * loop * sieve_size + z_primorial * index + z_remainder)
                z_target,
          )
          (omega (
            arith,
            mul-add z_primorial (loop * sieve_size) index,
            mul_assoc z_primorial loop sieve_size,
          ))

    -- What the loop did: `new` is what it submitted, and `values` their numbers.
    abbrev Did : Verified → Verified → List (List ℕ) → List ℕ → Type 0
    Did v v' new values =
        (v'.submitted ≡ v.submitted ++ new)
        × All (λ b. length b ≡ 32) new
        × (map le_value new ≡ values)
        × (v'.total_share_count ≡ (v.total_share_count + length new) % 2 ^ 32)
        × (v'.total4_chain_count ≡ (v.total4_chain_count + length new) % 2 ^ 32)

    nothing :
        (v v' : Verified)
        → v.total_share_count < 2 ^ 32
        → v.total4_chain_count < 2 ^ 32
        → v'.submitted ≡ v.submitted
        → v'.total_share_count ≡ v.total_share_count
        → v'.total4_chain_count ≡ v.total4_chain_count
        → Did v v' [] []
    nothing v v' hs h4 a b c =
        (a ∙ sym (append-nil v.submitted), tt, refl, omega (arith, hs, b), omega (arith, h4, c))

    check_index_lem :
        (loop index : ℕ) (v : Verified)
        → 0 < z_target
        → v.total_share_count < 2 ^ 32
        → v.total4_chain_count < 2 ^ 32
        → (v' : Verified) × (new : List (List ℕ)) × (check_index g z_primorial z_remainder z_target
              loop index v
            ≡ some v')
          × Did v v' new (shares z_primorial z_remainder z_target loop (index ∷ []))
    unfolding check_index shares is_share count_chains count_chain submit
    check_index_lem loop index v pos hs h4 = elim (Bool-cases (passes z)) [
      | inr e ↦ (
        v,
        [],
        rw (check_index, candidate_lem loop index, test, e) refl,
        rw e (nothing v v hs h4 refl refl refl),
      )
      | inl e ↦
          let count = members_lem z positive e in
          elim (Bool-cases (leb 4 (passing tuple))) [
            | inr f ↦ (
              count_chains (passing tuple) v,
              [],
              rw (check_index, candidate_lem loop index, test, e, count, f) refl,
              rw (e, f) (nothing v v hs h4 refl refl refl),
            )
            | inl f ↦
                let (b, written, long, value) = offset_bytes_lem g offset in
                (
                  submit b (count_chains (passing tuple) v),
                  b ∷ [],
                  rw (check_index, candidate_lem loop index, test, e, count, f, difference, written)
                      refl,
                  rw (e, f) (refl, (long, tt), ap (λ n. n ∷ []) value, refl, refl),
                )
          ]
    ]
      where
        offset : ℕ
        offset = offset_of z_primorial z_remainder loop index

        z : ℕ
        z = z_target + offset

        tuple : List ℕ
        tuple = z ∷ (z + 4) ∷ (z + 6) ∷ (z + 10) ∷ (z + 12) ∷ (z + 16) ∷ []

        positive : 0 < z
        positive = omega (arith, pos)

        test : fermat g z ≡ passes z
        test = fermat_lem z positive

        difference : g.sub z z_target ≡ offset
        difference = g.sub_lem z z_target (omega arith) ∙ omega arith

    shares-cons :
        (loop i : ℕ) (is : List ℕ)
        → shares z_primorial z_remainder z_target loop (i ∷ [])
            ++ shares z_primorial z_remainder z_target loop is
          ≡ shares z_primorial z_remainder z_target loop (i ∷ is)
    unfolding shares
    shares-cons loop i is =
        elim (Bool-cases (is_share (z_target + offset_of z_primorial z_remainder loop i))) [
          | inl e ↦ rw e refl
          | inr e ↦ rw e refl
        ]

    Did-trans :
        (v w u : Verified) (news bs : List (List ℕ)) (xs ys : List ℕ)
        → Did v w news xs
        → Did w u bs ys
        → Did v u (news ++ bs) (xs ++ ys)
    Did-trans v w u news bs xs ys (a, b, c, d, e) (a', b', c', d', e') = (
      a' ∙ ap (λ l. l ++ bs) a ∙ append_assoc v.submitted news bs,
      All-append _ news bs b b',
      map-append news bs ∙ ap (λ l. l ++ map le_value bs) c ∙ ap (λ l. xs ++ l) c',
      omega (arith, d, d', length-append news bs),
      omega (arith, e, e', length-append news bs),
    )

    -- For a target above 0, counters below 2 ^ 32 and GMP as its manual has it, a job of the verifier ends, no
    -- write leaves `nOffset`, and what is submitted is exactly the shares among the job's candidates, in their
    -- order: the candidates whose first number and three or more of the other five pass the Fermat test. Each
    -- is submitted as 32 bytes whose number is the offset from the target in 256 bits, and both the counter of
    -- shares and that of chains of four go up by one for each.
    pub check_indexes_lem :
        (loop : ℕ) (indexes : List ℕ) (v : Verified)
        → 0 < z_target
        → v.total_share_count < 2 ^ 32
        → v.total4_chain_count < 2 ^ 32
        → (v' : Verified) × (new : List (List ℕ)) × (check_indexes g z_primorial z_remainder
              z_target loop indexes v
            ≡ some v')
          × (v'.submitted ≡ v.submitted ++ new)
          × All (λ b. length b ≡ 32) new
          × (map le_value new ≡ shares z_primorial z_remainder z_target loop indexes)
          × (v'.total_share_count ≡ (v.total_share_count + length new) % 2 ^ 32)
          × (v'.total4_chain_count ≡ (v.total4_chain_count + length new) % 2 ^ 32)
    unfolding check_indexes shares
    check_indexes_lem loop [] v pos hs h4 =
        let (a, b, c, d, e) = nothing v v hs h4 refl refl refl in (v, [], refl, a, b, c, d, e)
    check_indexes_lem loop (i ∷ is) v pos hs h4 =
        let (w, news, one, did) = check_index_lem loop i v pos hs h4 in
        let (u, bs, rest, a', b', c', d', e') =
          check_indexes_lem loop is w pos (omega (arith, did.3)) (omega (arith, did.4)) in
        let (a, b, c, d, e) =
          subst (Did v u (news ++ bs)) (shares-cons loop i is)
            (Did-trans v w u news bs _ _ did (a', b', c', d', e')) in
        (
          u,
          news ++ bs,
          ap (λ o. o >>= check_indexes g z_primorial z_remainder z_target loop is) one ∙ rest,
          a,
          b,
          c,
          d,
          e,
        )
