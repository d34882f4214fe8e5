-- ===== src/Client/Base58.antt =====
-- xptClient.cpp, `xptClient_decodeBase58` and `xptClient_addDeveloperFeeEntry`. `none` is an access
-- outside one of the arrays of 32 words.
use fastrie.Base.{
  ℕ, zero, suc, ◌+◌, ◌-◌, ◌*◌, ◌/◌, ◌%◌, ◌^◌, Bool, true, false, Option, none, some, List, [], ◌∷◌,
  ◌++◌, length, get_elem?, set, take, drop, replicate, le_value, ltb, leb, ◌==◌, ◌&&◌,
  if◌then◌else◌,
}
use fastrie.Client.State.{Client}

-- The words in use, the lowest first, of an array of 32.
pub record Words : Type 0 where
  pub words : List ℕ
  pub size : ℕ

infixl 5 ◌>>=◌
abbrev ◌>>=◌ : {A B : Type 0} → Option A → (A → Option B) → Option B
◌>>=◌ o f = elim o [ none ↦ none | some a ↦ f a ]

-- `base58Decode`; 255 stands for -1.
abbrev base58_decode : List ℕ
base58_decode =
    replicate 48 255
    ++ (255 ∷ 0 ∷ 1 ∷ 2 ∷ 3 ∷ 4 ∷ 5 ∷ 6 ∷ 7 ∷ 8 ∷ [])
    ++ replicate 7 255
    ++ (9 ∷ 10 ∷ 11 ∷ 12 ∷ 13 ∷ 14 ∷ 15 ∷ 16 ∷ 255 ∷ 17 ∷ 18 ∷ 19 ∷ 20 ∷ 21 ∷ 255 ∷ [])
    ++ (22 ∷ 23 ∷ 24 ∷ 25 ∷ 26 ∷ 27 ∷ 28 ∷ 29 ∷ 30 ∷ 31 ∷ 32 ∷ [])
    ++ replicate 6 255
    ++ (33 ∷ 34 ∷ 35 ∷ 36 ∷ 37 ∷ 38 ∷ 39 ∷ 40 ∷ 41 ∷ 42 ∷ 43 ∷ 255 ∷ [])
    ++ (44 ∷ 45 ∷ 46 ∷ 47 ∷ 48 ∷ 49 ∷ 50 ∷ 51 ∷ 52 ∷ 53 ∷ 54 ∷ 55 ∷ 56 ∷ 57 ∷ [])
    ++ replicate 5 255

-- `baseArray[i] = v;`
unfoldable pub put_word : List ℕ → ℕ → ℕ → Option (List ℕ)
put_word words i v = if ltb i (length words) then some (set words i v) else none

-- The carry loop from index `i` on, over at most `n` words: the words, and the carry that is left.
unfoldable pub propagate : ℕ → ℕ → ℕ → List ℕ → Option (List ℕ × ℕ)
unfolding put_word
propagate zero i carry words = some (words, carry)
propagate (suc n) i carry words = do
  w ← get_elem? words i
  words' ← put_word words i ((carry + w) % 2 ^ 32)
  elim ((carry + w) / 2 ^ 32 == 0) [
    | true ↦ some (words', 0)
    | false ↦ propagate n (suc i) ((carry + w) / 2 ^ 32) words'
  ]

-- `if( carry ) { baseArray[baseArraySize] = carry; baseArraySize++; }`
unfoldable pub extend_words : ℕ → Words → Option Words
unfolding put_word
extend_words carry n = if carry == 0 then some n else (do
  words ← put_word n.words n.size (carry % 2 ^ 32)
  some (record { words = words; size = n.size + 1 }))

-- Word `b` times 58, with its carry.
unfoldable pub multiply_word : ℕ → Words → Option Words
unfolding put_word propagate extend_words
multiply_word b n = do
  w ← get_elem? n.words b
  words ← put_word n.words b (w * 58 % 2 ^ 32)
  elim (w * 58 / 2 ^ 32 == 0) [
    | true ↦ some (record n { words = words })
    | false ↦ (do
      (words', carry) ← propagate (n.size - (b + 1)) (b + 1) (w * 58 / 2 ^ 32) words
      extend_words carry (record n { words = words' }))
  ]

-- The loop over the words, the highest first; `b` are left.
unfoldable pub multiply_words : ℕ → Words → Option Words
unfolding multiply_word
multiply_words zero n = some n
multiply_words (suc b) n = do n' ← multiply_word b n; multiply_words b n'

-- The loop that finds the size of the output.
unfoldable pub track_size : ℕ → Words → Option Words
unfolding multiply_words
track_size zero n = some n
track_size (suc i) n = do n' ← multiply_words n.size n; track_size i n'

unfoldable pub output_length : Words → Option ℕ
output_length n = do
  last ← get_elem? n.words (n.size - 1)
  some (
      if leb (2 ^ 24) last
      then n.size * 4
      else if leb (2 ^ 16) last
      then n.size * 4 - 1
      else if leb (2 ^ 8) last
      then n.size * 4 - 2
      else n.size * 4 - 3)

-- `add base58 digit to baseArray with carry`: unlike `propagate` it does nothing for a carry of 0.
unfoldable pub add_digit : ℕ → Words → Option Words
unfolding propagate extend_words
add_digit digit n = if digit == 0 then some n else (do
  (words, carry) ← propagate n.size 0 digit n.words
  extend_words carry (record n { words = words }))

-- The loop over the characters. The inner `none` is `return false`.
unfoldable pub convert : List ℕ → Words → Option (Option Words)
unfolding multiply_words add_digit
convert [] n = some (some n)
convert (c ∷ cs) n = elim (get_elem? base58_decode c) [
  | none ↦ some none
  | some digit ↦ elim (digit == 255) [
    | true ↦ some none
    | false ↦ (do n₁ ← multiply_words n.size n; n₂ ← add_digit digit n₁; convert cs n₂)
  ]
]

-- Byte `i` of the number, the lowest first.
unfoldable pub output_bytes : ℕ → ℕ → List ℕ → Option (List ℕ)
output_bytes zero i words = some []
output_bytes (suc n) i words = do
  w ← get_elem? words (i / 4)
  rest ← output_bytes n (suc i) words
  some (rest ++ (w / 2 ^ (8 * (i % 4)) % 256 ∷ []))

-- The output bytes, or `some none` for `return false`.
unfoldable pub decode_base58 : List ℕ → Option (Option (List ℕ))
unfolding track_size output_length convert output_bytes
decode_base58 input =
    if length input == 0 then some none else if ltb 200 (length input) then some none else (do
      track ← track_size (length input - 1) (record { words = 57 ∷ replicate 31 0; size = 1 })
      n ← output_length track
      converted ← convert input (record { words = replicate 32 0; size = track.size })
      elim converted [
        | none ↦ some none
        | some value ↦ (do bytes ← output_bytes n 0 value.words; some (some bytes))
      ])

-- `validate checksum`
unfoldable pub checksum_ok : (List ℕ → List ℕ) → List ℕ → Bool
checksum_ok sha256 raw =
    le_value (take 4 (drop 21 raw)) == le_value (take 4 (sha256 (sha256 (take 21 raw))))

-- What is done with the decoded address.
unfoldable pub accept_address : (List ℕ → List ℕ) → List ℕ → ℕ → Client → Client
unfolding checksum_ok
accept_address sha256 raw integer_fee c =
    if length raw == 25 && checksum_ok sha256 raw
    then if leb 8 (length c.developer_fee_entry) then c else record c {
      developer_fee_entry =
          c.developer_fee_entry
          ++ (record { dev_fee = integer_fee; pub_key_hash = take 20 (drop 1 raw) } ∷ []);
    }
    else c

-- `integer_fee` is a uint16; `isMaxCoinAddress` is not looked at.
unfoldable add_developer_fee_entry : (List ℕ → List ℕ) → List ℕ → ℕ → Client → Option Client
unfolding decode_base58 accept_address
add_developer_fee_entry sha256 wallet_address integer_fee c = elim (decode_base58 wallet_address) [
  | none ↦ none
  | some none ↦ some c
  | some (some raw) ↦ some (accept_address sha256 raw integer_fee c)
]
