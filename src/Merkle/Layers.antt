-- ===== src/Merkle/Layers.antt =====
-- One layer of the tree in the memory of the program.
use fastrie.Base.{
  ℕ, zero, suc, ◌+◌, ◌-◌, ◌*◌, ◌/◌, ◌%◌, ◌≤◌, ◌<◌, ◌≡◌, refl, ◌∙◌, sym, ap, true, false, some, List,
  [], ◌∷◌, ◌++◌, ◌&&◌, length, get_elem?, ltb, lt→ltb, ◌==◌, if-true, if-false, Bool-cases, ==_iff,
  inl, inr, length-append, append_assoc, append-nil, arith,
}
use native.Mathlib.Nat.{add-zero}
use fastrie.Merkle.Tree.{Hash, digest, Tree, push, duplicate_last, hash_pairs, even_out}
use fastrie.Merkle.Spec.{level, pad}

get_elem?-append :
    (front rest : List Hash) (i : ℕ)
    → get_elem? (front ++ rest) (length front + i) ≡ get_elem? rest i
get_elem?-append [] rest i = ap (λ n. get_elem? rest n) (omega arith)
get_elem?-append (x ∷ xs) rest i =
    ap (λ n. get_elem? (x ∷ (xs ++ rest)) n) shift ∙ get_elem?-append xs rest i
  where
    shift : length (x ∷ xs) + i ≡ suc (length xs + i)
    shift = omega arith

pub get_elem?-behind :
    (front rest : List Hash) (h : Hash) → get_elem? (front ++ (h ∷ rest)) (length front) ≡ some h
get_elem?-behind front rest h =
    ap (λ i. get_elem? (front ++ (h ∷ rest)) i) (sym (add-zero (length front)))
    ∙ get_elem?-append front (h ∷ rest) 0

abbrev pub tree : List Hash → ℕ → Tree
tree hashes i = record { hashes = hashes; read_index = i }

tree_path : {g h : List Hash} {i j : ℕ} → g ≡ h → i ≡ j → tree g i ≡ tree h j
tree_path p q = λ k. tree (p k) (q k)

module _ (sha256 : List ℕ → Hash) (mode room : ℕ) where
  push_lem :
      (hashes : List Hash) (i : ℕ) (h : Hash)
      → length hashes < room
      → push sha256 mode room (tree hashes i) h ≡ some (tree (hashes ++ (h ∷ [])) i)
  unfolding push
  push_lem hashes i h lt = if-true _ _ (lt→ltb (length hashes) room lt)

  -- One round: the next two hashes are read, and the hash of them is written behind the last one.
  one_round :
      (rounds : ℕ) (front tail : List Hash) (a b : Hash)
      → length front + 2 + length tail < room
      → hash_pairs sha256 mode room (suc rounds) (tree (front ++ (a ∷ b ∷ tail)) (length front))
        ≡ hash_pairs sha256 mode room rounds (
            tree
              ((front ++ (a ∷ b ∷ [])) ++ (tail ++ (digest sha256 mode (a ++ b) ∷ [])))
              (length (front ++ (a ∷ b ∷ []))))
  unfolding hash_pairs
  one_round rounds front tail a b h =
      rw
        (
          get_elem?-behind front (b ∷ tail) a,
          get_elem?-append front (a ∷ b ∷ tail) 1,
          push_lem (front ++ (a ∷ b ∷ tail)) (length front) (digest sha256 mode (a ++ b))
              (omega (arith, length-append front (a ∷ b ∷ tail))),
          hash_pairs,
        )
        (ap (λ t. hash_pairs sha256 mode room rounds t)
          (tree_path regroup (sym (length-append front (a ∷ b ∷ [])))))
    where
      last : List Hash
      last = digest sha256 mode (a ++ b) ∷ []

      regroup : (front ++ (a ∷ b ∷ tail)) ++ last ≡ (front ++ (a ∷ b ∷ [])) ++ (tail ++ last)
      regroup =
          append_assoc front (a ∷ b ∷ tail) last
          ∙ sym (append_assoc front (a ∷ b ∷ []) (tail ++ last))

  -- The first half of a layer: the hashes of the pairs go behind what is written.
  pub hash_pairs-level :
      (hs front out : List Hash)
      → length front + length (pad hs) + length out + length (level sha256 mode hs) ≤ room
      → hash_pairs sha256 mode room
          (length (level sha256 mode hs))
          (tree (front ++ (pad hs ++ out)) (length front))
        ≡ some
            (tree ((front ++ pad hs) ++ (out ++ level sha256 mode hs)) (length (front ++ pad hs)))
  unfolding level pad
  hash_pairs-level [] front out h =
      unfold hash_pairs in
      ap some (
        tree_path
          (sym
            (ap (λ l. l ++ (out ++ [])) (append-nil front) ∙ ap (λ l. front ++ l) (append-nil out)))
          (sym (ap length (append-nil front))))
  hash_pairs-level (a ∷ []) front out h =
      one_round 0 front out a a (omega arith) ∙ unfold hash_pairs in refl
  hash_pairs-level (a ∷ b ∷ hs) front out h =
      one_round (length (level sha256 mode hs)) front (pad hs ++ out) a b
        (omega (arith, length-append (pad hs) out))
      ∙ ap
          (λ l.
            hash_pairs sha256 mode room (length (level sha256 mode hs))
              (tree (front' ++ l) (length front')))
          (append_assoc (pad hs) out last)
      ∙ hash_pairs-level hs front' (out ++ last)
          (omega (arith, length-append front (a ∷ b ∷ []), length-append out last))
      ∙ ap some (tree_path regroup (ap length (append_assoc front (a ∷ b ∷ []) (pad hs))))
    where
      front' : List Hash
      front' = front ++ (a ∷ b ∷ [])

      last : List Hash
      last = digest sha256 mode (a ++ b) ∷ []

      regroup :
          (front' ++ pad hs) ++ ((out ++ last) ++ level sha256 mode hs)
          ≡ (front ++ (a ∷ b ∷ pad hs)) ++ (out ++ (last ++ level sha256 mode hs))
      regroup =
          ap (λ l. l ++ ((out ++ last) ++ level sha256 mode hs))
            (append_assoc front (a ∷ b ∷ []) (pad hs))
          ∙ ap (λ l. (front ++ (a ∷ b ∷ pad hs)) ++ l)
              (append_assoc out last (level sha256 mode hs))

-- How a level lies in memory: an odd one of more than one hash with its last hash twice.
unfoldable pub laid : List Hash → List Hash
laid [] = []
laid (h ∷ []) = h ∷ []
laid (a ∷ b ∷ hs) = pad (a ∷ b ∷ hs)

pad_even : (m : ℕ) (hs : List Hash) → length hs ≡ 2 * m → pad hs ≡ hs
unfolding pad
pad_even m [] e = refl
pad_even m (a ∷ []) e = absurd (omega arith)
pad_even zero (a ∷ b ∷ hs) e = absurd (omega arith)
pad_even (suc m) (a ∷ b ∷ hs) e = ap (λ l. a ∷ b ∷ l) (pad_even m hs (omega arith))

pad_odd :
    (m : ℕ) (hs : List Hash)
    → length hs ≡ 2 * m + 1
    → (z : Hash) × (get_elem? hs (2 * m) ≡ some z) × (pad hs ≡ hs ++ (z ∷ []))
unfolding pad
pad_odd m [] e = absurd (omega arith)
pad_odd zero (a ∷ []) e = (a, refl, refl)
pad_odd (suc m) (a ∷ []) e = absurd (omega arith)
pad_odd zero (a ∷ b ∷ hs) e = absurd (omega arith)
pad_odd (suc m) (a ∷ b ∷ hs) e =
    let (z, g, p) = pad_odd m hs (omega arith) in
    (z, ap (λ i. get_elem? (a ∷ b ∷ hs) i) double ∙ g, ap (λ l. a ∷ b ∷ l) p)
  where
    double : 2 * suc m ≡ suc (suc (2 * m))
    double = omega arith

pub length-pad : (hs : List Hash) → length (pad hs) ≡ length hs + length hs % 2
unfolding pad
length-pad [] = refl
length-pad (a ∷ []) = refl
length-pad (a ∷ b ∷ hs) = omega (arith, length-pad hs)

pub length-laid : (hs : List Hash) → length (laid hs) ≤ length hs + length hs % 2
unfolding laid
length-laid [] = omega arith
length-laid (h ∷ []) = omega arith
length-laid (a ∷ b ∷ hs) = omega (arith, length-pad (a ∷ b ∷ hs))

pub length-level :
    (sha256 : List ℕ → Hash) (mode : ℕ) (hs : List Hash)
    → length (level sha256 mode hs) ≡ (length hs + 1) / 2
unfolding level
length-level sha256 mode [] = refl
length-level sha256 mode (a ∷ []) = refl
length-level sha256 mode (a ∷ b ∷ hs) = omega (arith, length-level sha256 mode hs)

module _ (sha256 : List ℕ → Hash) (mode room : ℕ) where
  -- The second half of a layer: the new level is laid out.
  pub even_out_lem :
      (hs front : List Hash) (i : ℕ)
      → length front + length hs < room
      → even_out sha256 mode room (length hs) (tree (front ++ hs) i)
        ≡ some (tree (front ++ laid hs) i)
  unfolding even_out laid duplicate_last pad
  even_out_lem [] front i h = refl
  even_out_lem (a ∷ []) front i h = refl
  even_out_lem (a ∷ b ∷ r) front i h = elim (Bool-cases (length hs % 2 == 1)) [
    | inl odd ↦
        let (z, g, p) = pad_odd (length hs / 2) hs (odd_length odd) in
        if-true _ _ (test_odd odd)
        ∙ rw (at_last z (odd_length odd) g, duplicate_last)
            (push_lem sha256 mode room (front ++ hs) i z (omega (arith, length-append front hs))
              ∙ ap some
                  (tree_path (append_assoc front hs (z ∷ []) ∙ ap (λ l. front ++ l) (sym p)) refl))
    | inr even ↦
        if-false _ _ (test_even even)
        ∙ ap some (
            tree_path (ap (λ l. front ++ l) (sym (pad_even (length hs / 2) hs (even_length even))))
              refl)
  ]
    where
      hs : List Hash
      hs = a ∷ b ∷ r

      test_odd : (length hs % 2 == 1) ≡ true → (length hs % 2 == 1 && ltb 1 (length hs)) ≡ true
      test_odd e = ground arith

      test_even : (length hs % 2 == 1) ≡ false → (length hs % 2 == 1 && ltb 1 (length hs)) ≡ false
      test_even e = ground arith

      odd_length : (length hs % 2 == 1) ≡ true → length hs ≡ 2 * (length hs / 2) + 1
      odd_length e = omega (arith, (==_iff _ _).0 e)

      even_length : (length hs % 2 == 1) ≡ false → length hs ≡ 2 * (length hs / 2)
      even_length e = ground arith

      at_last :
          (z : Hash)
          → length hs ≡ 2 * (length hs / 2) + 1
          → get_elem? hs (2 * (length hs / 2)) ≡ some z
          → get_elem? (front ++ hs) (length (front ++ hs) - 1) ≡ some z
      at_last z e g =
          ap (λ n. get_elem? (front ++ hs) n) position
          ∙ get_elem?-append front hs (2 * (length hs / 2))
          ∙ g
        where
          position : length (front ++ hs) - 1 ≡ length front + 2 * (length hs / 2)
          position = omega (arith, e, length-append front hs)
