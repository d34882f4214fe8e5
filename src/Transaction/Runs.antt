-- ===== src/Transaction/Runs.antt =====
-- A transaction with concrete functions in the place of sha256 and malloc.
use fastrie.Base.{
  ℕ, ◌≡◌, refl, Option, some, List, [], ◌∷◌, ◌++◌, take, replicate, length-replicate, false, arith,
}
use fastrie.Stream.{MemoryStream}
use fastrie.Stream.WriteData.{Allocates}
use fastrie.Merkle.{Hash, digest}
use fastrie.Transaction.Defs.{add_var_int, generate_tx_hash}
use fastrie.Transaction.TxHash.{
  EndsWith, compact_bytes, read_compact, generate_tx_hash_lem, add_var_int_lem,
}

abbrev memory : ℕ → Option (List ℕ)
memory n = some (replicate n 0)

memory-Allocates : Allocates memory
memory-Allocates n = (replicate n 0, refl, length-replicate {A = ℕ} n 0)

abbrev first_two : List ℕ → Hash
first_two bs = take 2 bs

generate_tx_hash_lem_example :
    generate_tx_hash first_two memory (9 ∷ 9 ∷ []) (1 ∷ []) (3 ∷ 4 ∷ []) 0
    ≡ some (digest first_two 0 ((1 ∷ []) ++ ((9 ∷ 9 ∷ []) ++ (3 ∷ 4 ∷ []))))
generate_tx_hash_lem_example =
    generate_tx_hash_lem first_two memory (9 ∷ 9 ∷ []) (1 ∷ []) (3 ∷ 4 ∷ []) 0 memory-Allocates
      (omega arith)

abbrev one_byte : MemoryStream
one_byte = record {
  size_limit = 32;
  buffer = 1 ∷ 0 ∷ [];
  buffer_position = 1;
  buffer_size = 1;
  buffer_limit = 2;
  disallow_write = false;
  do_not_free_memory = false;
}

add_var_int_lem_example :
    ((s' : MemoryStream) × (add_var_int memory one_byte 70000 ≡ some s')
      × EndsWith s' ((1 ∷ []) ++ compact_bytes 70000))
    × (read_compact (compact_bytes 70000 ++ (5 ∷ [])) ≡ some (70000, 5 ∷ []))
add_var_int_lem_example =
    add_var_int_lem memory one_byte (1 ∷ []) (5 ∷ []) 70000 memory-Allocates
      (
        (0 ∷ [], (refl, refl, refl, refl)),
        record { limited = omega arith; small = omega arith; writable = refl },
      )
      (omega arith) (omega arith)
