-- ===== src/Merkle/Root.antt =====
-- The whole loop against the tree, and how many levels it has room for.
use fastrie.Base.{
  ℕ, zero, suc, ◌+◌, ◌*◌, ◌/◌, ◌%◌, ◌^◌, ◌≤◌, ◌<◌, ◌≡◌, ◌⊎◌, inl, inr, refl, ◌∙◌, sym, ap, false,
  Option, none, some, List, [], ◌∷◌, ◌++◌, length, ◌==◌, length-append, append-nil, arith,
}
use native.Mathlib.Nat.{pow-suc, one-le-pow}
use fastrie.Merkle.Tree.{
  Hash, digest, Outcome, root, untouched, capacity, hash_pairs, even_out, layers, build_tree,
  calculate_merkle_root,
}
use fastrie.Merkle.Spec.{level, merkle_within, merkle_root, pad}
use fastrie.Merkle.Layers.{
  get_elem?-behind, length-laid, tree, laid, length-pad, length-level, hash_pairs-level,
  even_out_lem,
}

abbrev pub outcome : Option Hash → Outcome
outcome none = untouched
outcome (some h) = root h

module _ (sha256 : List ℕ → Hash) (mode room : ℕ) where
  -- One turn of the outer loop at a level of two hashes or more.
  one_layer :
      (k size : ℕ) (a b : Hash) (r front : List Hash)
      → let hs = a ∷ b ∷ r in
        (size + 1) / 2 ≡ (length hs + 1) / 2
        → 2 ≤ size
        → length front + length (pad hs) + length (level sha256 mode hs) < room
        → layers sha256 mode room (suc k) size (tree (front ++ pad hs) (length front))
          ≡ layers sha256 mode room k
              ((length hs + 1) / 2)
              (tree ((front ++ pad hs) ++ laid (level sha256 mode hs)) (length (front ++ pad hs)))
  unfolding layers
  one_layer k size a b r front e two h =
      rw (not_zero, not_one, rounds, pairs, rounds, evened, rounds)
        (ap
          (λ n.
            layers sha256 mode room k n
              (tree ((front ++ pad hs) ++ laid up) (length (front ++ pad hs))))
          (length-level sha256 mode hs))
    where
      hs : List Hash
      hs = a ∷ b ∷ r

      up : List Hash
      up = level sha256 mode hs

      not_zero : (size == 0) ≡ false
      not_zero = ground arith

      not_one : (size == 1) ≡ false
      not_one = ground arith

      rounds : (size + 1) / 2 ≡ length up
      rounds = e ∙ sym (length-level sha256 mode hs)

      pairs :
          hash_pairs sha256 mode room (length up) (tree (front ++ pad hs) (length front))
          ≡ some (tree ((front ++ pad hs) ++ up) (length (front ++ pad hs)))
      pairs =
          ap (λ l. hash_pairs sha256 mode room (length up) (tree (front ++ l) (length front)))
            (sym (append-nil (pad hs)))
          ∙ hash_pairs-level sha256 mode room hs front [] (omega arith)

      evened :
          even_out sha256 mode room
            (length up)
            (tree ((front ++ pad hs) ++ up) (length (front ++ pad hs)))
          ≡ some (tree ((front ++ pad hs) ++ laid up) (length (front ++ pad hs)))
      evened =
          even_out_lem sha256 mode room up (front ++ pad hs) (length (front ++ pad hs))
            (omega (arith, length-append front (pad hs)))

  -- The loop with `k + 1` turns left finds the hash that at most `k` levels lead to, if there is one,
  -- and otherwise ends with nothing written. It never leaves the memory.
  layers-merkle_within :
      (k size : ℕ) (h : Hash) (hs front : List Hash)
      → (size + 1) / 2 ≡ (length (h ∷ hs) + 1) / 2
      → length (h ∷ hs) ≤ size
      → size ≤ length (h ∷ hs) + 1
      → (size ≡ 1) ⊎ (2 ≤ length (h ∷ hs))
      → length front + length (laid (h ∷ hs)) + length (h ∷ hs) + 2 * k + 2 ≤ room
      → layers sha256 mode room (suc k) size (tree (front ++ laid (h ∷ hs)) (length front))
        ≡ outcome (merkle_within sha256 mode k (h ∷ hs))
  unfolding merkle_within laid level
  layers-merkle_within k size h [] front e lo hi (inl one) room_ok =
      ap (λ n. layers sha256 mode room (suc k) n (tree (front ++ (h ∷ [])) (length front))) one
      ∙ unfold layers in rw (get_elem?-behind front [] h) refl
  layers-merkle_within k size h [] front e lo hi (inr two) room_ok = absurd (omega arith)
  layers-merkle_within zero size h (g ∷ hs) front e lo hi c room_ok =
      one_layer 0 size h g hs front e (omega arith)
        (omega (arith, length-pad (h ∷ g ∷ hs), length-level sha256 mode (h ∷ g ∷ hs)))
      ∙ unfold layers in refl
  layers-merkle_within (suc k) size h (g ∷ hs) front e lo hi c room_ok =
      let l = h ∷ g ∷ hs in
      let up = level sha256 mode l in
      one_layer (suc k) size h g hs front e (omega arith)
        (omega (arith, length-pad l, length-level sha256 mode l))
      ∙ layers-merkle_within k ((length l + 1) / 2) (digest sha256 mode (h ++ g))
          (level sha256 mode hs) (front ++ pad l) (omega (arith, length-level sha256 mode l))
          (omega (arith, length-level sha256 mode l)) (omega (arith, length-level sha256 mode l))
          (next_size hs)
          (omega (
            arith,
            length-append front (pad l),
            length-pad l,
            length-laid up,
            length-level sha256 mode l,
          ))
    where
      next_size :
          (hs : List Hash)
          → ((suc (suc (length hs)) + 1) / 2 ≡ 1) ⊎ (2 ≤ suc (length (level sha256 mode hs)))
      next_size [] = inl refl
      next_size (x ∷ xs) = inr (omega (arith, length-level sha256 mode (x ∷ xs)))

capacity_lem : (n : ℕ) → n < 2 ^ 25 → capacity n ≡ 2 * n + 130
unfolding capacity
capacity_lem n h = omega arith

module _ (sha256 : List ℕ → Hash) (mode : ℕ) where
  -- Two bounds that both leave enough levels give the same hash.
  merkle_within_eq :
      (k m : ℕ) (hs : List Hash)
      → length hs ≤ 2 ^ k
      → length hs ≤ 2 ^ m
      → merkle_within sha256 mode k hs ≡ merkle_within sha256 mode m hs
  unfolding merkle_within level
  merkle_within_eq k m [] h₁ h₂ = refl
  merkle_within_eq k m (a ∷ []) h₁ h₂ = refl
  merkle_within_eq zero m (a ∷ b ∷ hs) h₁ h₂ = absurd (omega arith)
  merkle_within_eq (suc k) zero (a ∷ b ∷ hs) h₁ h₂ = absurd (omega arith)
  merkle_within_eq (suc k) (suc m) (a ∷ b ∷ hs) h₁ h₂ =
      merkle_within_eq k m (level sha256 mode (a ∷ b ∷ hs))
        (omega (arith, length-level sha256 mode (a ∷ b ∷ hs), pow-suc 2 k))
        (omega (arith, length-level sha256 mode (a ∷ b ∷ hs), pow-suc 2 m))

  -- A bound that is large enough gives a hash, and one that is too small gives none.
  merkle_within-some :
      (k : ℕ) (hs : List Hash)
      → 1 ≤ length hs
      → length hs ≤ 2 ^ k
      → (r : Hash) × (merkle_within sha256 mode k hs ≡ some r)
  unfolding merkle_within level
  merkle_within-some k [] h₁ h₂ = absurd (omega arith)
  merkle_within-some k (a ∷ []) h₁ h₂ = (a, refl)
  merkle_within-some zero (a ∷ b ∷ hs) h₁ h₂ = absurd (omega arith)
  merkle_within-some (suc k) (a ∷ b ∷ hs) h₁ h₂ =
      merkle_within-some k (level sha256 mode (a ∷ b ∷ hs)) (omega arith)
        (omega (arith, length-level sha256 mode (a ∷ b ∷ hs), pow-suc 2 k))

  merkle_within-none :
      (k : ℕ) (hs : List Hash) → 2 ^ k < length hs → merkle_within sha256 mode k hs ≡ none
  unfolding merkle_within level
  merkle_within-none k [] h = absurd (omega arith)
  merkle_within-none k (a ∷ []) h = absurd (omega (arith, one-le-pow k 2))
  merkle_within-none zero (a ∷ b ∷ hs) h = refl
  merkle_within-none (suc k) (a ∷ b ∷ hs) h =
      merkle_within-none k (level sha256 mode (a ∷ b ∷ hs))
        (omega (arith, length-level sha256 mode (a ∷ b ∷ hs), pow-suc 2 k))

  le-two_pow : (n : ℕ) → n ≤ 2 ^ n
  le-two_pow zero = omega arith
  le-two_pow (suc n) = omega (arith, le-two_pow n, pow-suc 2 n, one-le-pow n 2)

  -- Ten layers are nine levels. The memory is enough for any number of hashes whose memory `malloc`
  -- is asked for without a wrap.
  calculate-merkle_within :
      (h : Hash) (hs : List Hash)
      → length (h ∷ hs) < 2 ^ 25
      → calculate_merkle_root sha256 mode (h ∷ hs) ≡ outcome (merkle_within sha256 mode 9 (h ∷ hs))
  unfolding calculate_merkle_root build_tree merkle_within
  calculate-merkle_within h [] small = unfold merkle_within in refl
  calculate-merkle_within h (g ∷ hs) small =
      let l = h ∷ g ∷ hs in
      rw
        (
          even_out_lem sha256 mode room l [] 0 (omega (arith, capacity_lem (length l) small)),
          build_tree,
        )
        (layers-merkle_within sha256 mode room 9 (length l + length l % 2) h (g ∷ hs) []
          (omega arith) (omega arith) (omega arith) (inr (omega arith))
          (omega (arith, capacity_lem (length l) small, length-laid l)))
    where
      room : ℕ
      room = capacity (length (h ∷ g ∷ hs))

  -- From one to 512 hashes the program writes the root of Bitcoin's Merkle tree over them, and never
  -- leaves its memory.
  pub merkle_root_lem :
      (hs : List Hash)
      → 1 ≤ length hs
      → length hs ≤ 512
      → (r : Hash) × (merkle_root sha256 mode hs ≡ some r)
        × (calculate_merkle_root sha256 mode hs ≡ root r)
  unfolding merkle_root
  merkle_root_lem [] lo hi = absurd (omega arith)
  merkle_root_lem (h ∷ hs) lo hi =
      let (r, e) = merkle_within-some 9 (h ∷ hs) lo hi in
      (
        r,
        merkle_within_eq (length (h ∷ hs)) 9 (h ∷ hs) (le-two_pow (length (h ∷ hs))) hi ∙ e,
        calculate-merkle_within h hs (omega arith) ∙ ap outcome e,
      )

  -- Over more than 512 hashes there is a root all the same, but the program ends its loop over ten
  -- layers before it gets there, and leaves `merkleRoot` as it was.
  pub merkle_root_too_many :
      (hs : List Hash)
      → 512 < length hs
      → length hs < 2 ^ 25
      → (r : Hash) × (merkle_root sha256 mode hs ≡ some r)
        × (calculate_merkle_root sha256 mode hs ≡ untouched)
  unfolding merkle_root
  merkle_root_too_many [] lo hi = absurd (omega arith)
  merkle_root_too_many (h ∷ hs) lo hi =
      let (r, e) =
        merkle_within-some (length (h ∷ hs)) (h ∷ hs) (omega arith)
          (le-two_pow (length (h ∷ hs))) in
      (r, e, calculate-merkle_within h hs hi ∙ ap outcome (merkle_within-none 9 (h ∷ hs) lo))
