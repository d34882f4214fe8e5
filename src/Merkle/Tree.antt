-- ===== src/Merkle/Tree.antt =====
-- `bitclient_calculateMerkleRoot`. `sha256` stands for sha256_init, _update and _final of sha2.cpp over
-- one block of data. A hash is a list of 32 bytes, and `hashData` a list of hashes, since every access
-- to it is at a multiple of 32.
use fastrie.Base.{
  ℕ, zero, suc, ◌+◌, ◌-◌, ◌*◌, ◌/◌, ◌%◌, ◌^◌, true, false, Option, none, some, List, [], ◌∷◌, ◌++◌,
  ◌&&◌, length, get_elem?, replicate, ltb, ◌==◌, if◌then◌else◌,
}

abbrev pub Hash : Type 0
Hash = List ℕ

-- `TX_MODE_DOUBLE_SHA256` is 0.
unfoldable pub digest : (List ℕ → Hash) → ℕ → List ℕ → Hash
digest sha256 mode bs = if mode == 0 then sha256 (sha256 bs) else sha256 bs

-- The hashes written to `hashData` so far, and `hashReadIndex`; `hashCount` is their number.
pub record Tree : Type 0 where
  pub hashes : List Hash
  pub read_index : ℕ

-- What the function does to `merkleRoot`. `fault` is an access outside `hashData`, or to a part of it
-- that was never written.
pub data Outcome : Type 0 where
  root : Hash → Outcome
  untouched fault : Outcome

-- The number of hashes for which `malloc(32*(n+1)*2+32*128)` has room.
unfoldable pub capacity : ℕ → ℕ
capacity n = (32 * (n + 1) * 2 + 32 * 128) % 2 ^ 32 / 32

module _ (sha256 : List ℕ → Hash) (mode room : ℕ) where
  -- Writes at `hashData+(hashCount*32)`, and `hashCount++`.
  unfoldable pub push : Tree → Hash → Option Tree
  push t h =
      if ltb (length t.hashes) room then some (record t { hashes = t.hashes ++ (h ∷ []) }) else none

  -- `memcpy(hashData+(hashCount*32), hashData+((hashCount-1)*32), 32); hashCount++;`
  unfoldable pub duplicate_last : Tree → Option Tree
  duplicate_last t = elim (get_elem? t.hashes (length t.hashes - 1)) [
    | none ↦ none
    | some h ↦ push t h
  ]

  -- The inner loop, `rounds` times.
  unfoldable pub hash_pairs : ℕ → Tree → Option Tree
  hash_pairs zero t = some t
  hash_pairs (suc rounds) t = elim (get_elem? t.hashes t.read_index) [
    | none ↦ none
    | some a ↦ elim (get_elem? t.hashes (t.read_index + 1)) [
      | none ↦ none
      | some b ↦ elim (push t (digest sha256 mode (a ++ b))) [
        | none ↦ none
        | some t' ↦ hash_pairs rounds (record t' { read_index = t'.read_index + 2 })
      ]
    ]
  ]

  -- `if( size&1 && size > 1 )` duplicate the last hash.
  unfoldable pub even_out : ℕ → Tree → Option Tree
  even_out size t = if size % 2 == 1 && ltb 1 size then duplicate_last t else some t

  -- The loop over the layers: the rounds left, and `layerSize[f]`. The inner loop makes one round for
  -- every two hashes, and one for an odd one.
  unfoldable pub layers : ℕ → ℕ → Tree → Outcome
  layers zero size t = untouched
  layers (suc k) size t = if size == 0 then untouched else elim (size == 1) [
    | true ↦ elim (get_elem? t.hashes t.read_index) [ none ↦ fault | some h ↦ root h ]
    | false ↦ elim (hash_pairs ((size + 1) / 2) t) [
      | none ↦ fault
      | some t' ↦ elim (even_out ((size + 1) / 2) t') [
        | none ↦ fault
        | some t'' ↦ layers k ((size + 1) / 2) t''
      ]
    ]
  ]

  -- The first layer is the given hashes. Its size counts the duplicate, unlike those of the others.
  unfoldable pub build_tree : List Hash → Outcome
  build_tree tx_hashes =
      elim (even_out (length tx_hashes) (record { hashes = tx_hashes; read_index = 0 })) [
        | none ↦ fault
        | some t ↦ layers 10 (length tx_hashes + length tx_hashes % 2) t
      ]

-- The list is the `numberOfTxHashes` hashes of `txHashes`.
unfoldable pub calculate_merkle_root : (List ℕ → Hash) → ℕ → List Hash → Outcome
calculate_merkle_root sha256 mode [] = root (replicate 32 0)
calculate_merkle_root sha256 mode (h ∷ []) = root h
calculate_merkle_root sha256 mode (h ∷ g ∷ hs) =
    build_tree sha256 mode (capacity (length (h ∷ g ∷ hs))) (h ∷ g ∷ hs)
