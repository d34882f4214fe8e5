-- ===== src/Merkle/Spec.antt =====
-- Bitcoin's Merkle tree over a list of hashes: each level hashes the pairs of the one below, the last
-- hash of an odd level with itself, down to a single hash.
use fastrie.Base.{ℕ, zero, suc, Option, none, some, List, [], ◌∷◌, ◌++◌, length}
use fastrie.Merkle.Tree.{Hash, digest}

module _ (sha256 : List ℕ → Hash) (mode : ℕ) where
  unfoldable pub level : List Hash → List Hash
  level [] = []
  level (a ∷ []) = digest sha256 mode (a ++ a) ∷ []
  level (a ∷ b ∷ hs) = digest sha256 mode (a ++ b) ∷ level hs

  -- The single hash that at most `k` levels lead to.
  unfoldable pub merkle_within : ℕ → List Hash → Option Hash
  merkle_within k [] = none
  merkle_within k (h ∷ []) = some h
  merkle_within zero (h ∷ g ∷ hs) = none
  merkle_within (suc k) (h ∷ g ∷ hs) = merkle_within k (level (h ∷ g ∷ hs))

  -- With a level for every hash, the bound does not matter.
  unfoldable pub merkle_root : List Hash → Option Hash
  merkle_root hs = merkle_within (length hs) hs

-- An odd level with its last hash twice.
unfoldable pub pad : List Hash → List Hash
pad [] = []
pad (a ∷ []) = a ∷ a ∷ []
pad (a ∷ b ∷ hs) = a ∷ b ∷ pad hs
