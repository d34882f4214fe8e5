-- ===== src/Stream/Runs.antt =====
-- A memory stream of a few bytes.
use fastrie.Base.{ℕ, refl, Option, some, List, [], ◌∷◌, replicate, length-replicate, false, arith}
use fastrie.Stream.Memory.{MemoryStream}
use fastrie.Stream.WriteData.{Allocates, Writes, write_data_lem}

abbrev heap : ℕ → Option (List ℕ)
heap n = some (replicate n 0)

heap-Allocates : Allocates heap
heap-Allocates n = (replicate n 0, refl, length-replicate {A = ℕ} n 0)

-- Three bytes, the position behind the first, room for one more.
abbrev three_bytes : MemoryStream
three_bytes = record {
  size_limit = 100;
  buffer = 1 ∷ 2 ∷ 3 ∷ 0 ∷ [];
  buffer_position = 1;
  buffer_size = 3;
  buffer_limit = 4;
  disallow_write = false;
  do_not_free_memory = false;
}

write_data_lem_example : Writes heap three_bytes (1 ∷ []) (2 ∷ 3 ∷ []) (7 ∷ 8 ∷ 9 ∷ 10 ∷ 11 ∷ [])
write_data_lem_example =
    write_data_lem heap three_bytes (1 ∷ []) (2 ∷ 3 ∷ []) (0 ∷ []) (7 ∷ 8 ∷ 9 ∷ 10 ∷ 11 ∷ [])
      heap-Allocates (refl, refl, refl, refl)
      (record { limited = omega arith; small = omega arith; writable = refl }) (omega arith)
      (omega arith)
