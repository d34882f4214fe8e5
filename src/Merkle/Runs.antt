-- ===== src/Merkle/Runs.antt =====
-- Merkle trees with a concrete function in the place of sha256.
use fastrie.Base.{ℕ, ◌≡◌, refl, some, List, [], ◌∷◌, take, replicate, length-replicate, arith}
use fastrie.Merkle.Tree.{
  Hash, root, untouched, calculate_merkle_root, build_tree, even_out, duplicate_last, push,
  capacity, layers, hash_pairs, digest,
}
use fastrie.Merkle.Spec.{merkle_root}
use fastrie.Merkle.Root.{merkle_root_lem, merkle_root_too_many}

abbrev first_three : List ℕ → Hash
first_three bs = take 3 bs

abbrev three : List Hash
three = (1 ∷ []) ∷ (2 ∷ []) ∷ (3 ∷ []) ∷ []

three_run : calculate_merkle_root first_three 0 three ≡ root (1 ∷ 2 ∷ 3 ∷ [])
unfolding calculate_merkle_root build_tree even_out duplicate_last push capacity layers hash_pairs
    digest
three_run = refl

merkle_root_lem_example :
    (r : Hash) × (merkle_root first_three 0 three ≡ some r)
    × (calculate_merkle_root first_three 0 three ≡ root r)
merkle_root_lem_example = merkle_root_lem first_three 0 three (omega arith) (omega arith)

abbrev many : List Hash
many = replicate 600 (1 ∷ [])

merkle_root_too_many_example :
    (r : Hash) × (merkle_root first_three 0 many ≡ some r)
    × (calculate_merkle_root first_three 0 many ≡ untouched)
merkle_root_too_many_example =
    merkle_root_too_many first_three 0 many
      (omega (arith, length-replicate {A = Hash} 600 (1 ∷ [])))
      (omega (arith, length-replicate {A = Hash} 600 (1 ∷ [])))
