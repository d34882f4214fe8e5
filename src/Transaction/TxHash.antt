-- ===== src/Transaction/TxHash.antt =====
-- What is hashed, and what a variable-length integer looks like.
use fastrie.Base.{
  take-append_length, drop-append_length, ℕ, ◌+◌, ◌%◌, ◌^◌, ◌≤◌, ◌<◌, ◌≡◌, refl, ◌∙◌, sym, ap,
  subst, Bool, true, false, Option, none, some, List, [], ◌∷◌, ◌++◌, drop, ltb, leb, if◌then◌else◌,
  le_bytes, drop-nil, leb→le, if-true, if-false, take, load, load-append, sub32, add32, min, ◌==◌,
  le_value, le_value-le_bytes, length, length-append, length-le_bytes, append_assoc, arith,
}
use fastrie.Stream.{
  MemoryStream, write_data, write_u8, write_u16, write_u32, set_seek, read_data, map_stream,
}
use fastrie.Stream.WriteData.{IsSplit, Allocates, IsBounded, write_data_lem}
use fastrie.Merkle.{Hash, digest}
use fastrie.Transaction.Defs.{stream_of, transaction_stream, add_var_int, generate_tx_hash}

-- A stream that holds exactly `bs`, with the position at its end.
abbrev pub EndsWith : MemoryStream → List ℕ → Type 0
EndsWith s bs = ((spare : List ℕ) × IsSplit s bs [] spare) × IsBounded s

module _ (malloc : ℕ → Option (List ℕ)) (al : Allocates malloc) where
  append-EndsWith :
      (s : MemoryStream) (front bs : List ℕ)
      → EndsWith s front
      → length bs < 2 ^ 31
      → length front + length bs ≤ s.size_limit
      → (s' : MemoryStream) × (stream_of (write_data malloc s bs) ≡ some s')
        × EndsWith s' (front ++ bs)
        × (s'.size_limit ≡ s.size_limit)
  unfolding stream_of
  append-EndsWith s front bs ((spare, p), b) hn room =
      let (s', spare', e, p', b', l) = write_data_lem malloc s front [] spare bs al p b hn room in
      (s', rw e refl, ((spare', rw drop-nil at p'), b'), l)

-- Reading the whole contents from the start.
read-all :
    (t : MemoryStream) (bs spare : List ℕ)
    → t.buffer ≡ bs ++ spare
    → t.buffer_position ≡ 0
    → t.buffer_size ≡ length bs
    → length bs < 2 ^ 32
    → (t' : MemoryStream) × (read_data t t.buffer_size ≡ some (t', bs))
unfolding read_data
read-all t bs spare eb ep es h = (
  record t { buffer_position = add32 t.buffer_position (length bs) },
  rw (loaded, count, read_data) refl,
)
  where
    count : min t.buffer_size (sub32 t.buffer_size t.buffer_position) ≡ length bs
    count = omega (arith, ep, es)

    loaded :
        load t.buffer t.buffer_position (min t.buffer_size (sub32 t.buffer_size t.buffer_position))
        ≡ some bs
    loaded =
        ap (λ n. load t.buffer t.buffer_position n) count
        ∙ rw (eb, ep) (load-append [] bs spare 0 (length bs) refl refl)

-- What `streamEx_map` returns of it.
map_stream_lem :
    (s : MemoryStream) (bs : List ℕ)
    → EndsWith s bs
    → (s' : MemoryStream) × (map_stream s ≡ some (s', bs))
unfolding map_stream
map_stream_lem s [] ((spare, (eb, ep, es, el)), b) = (_, if-true _ _ empty)
  where
    empty : (s.buffer_size == 0) ≡ true
    empty = rw es refl
map_stream_lem s (x ∷ xs) ((spare, (eb, ep, es, el)), b) =
    let (t', e) =
      read-all (set_seek s 0 false) (x ∷ xs) spare eb start size
        (omega (arith, el, b.limited, b.small)) in
    (t', if-false _ _ full ∙ e)
  where
    size : s.buffer_size ≡ length (x ∷ xs)
    size = omega (arith, es)

    full : (s.buffer_size == 0) ≡ false
    full = rw size (ground arith)

    start : (if ltb s.buffer_size 0 then s.buffer_size else 0) ≡ 0
    start = ground arith

fresh-EndsWith : (block : List ℕ) → length block ≡ 1024 → EndsWith (transaction_stream block) []
unfolding transaction_stream
fresh-EndsWith block e = (
  (block, (refl, refl, refl, omega (arith, e))),
  record { limited = omega arith; small = omega arith; writable = refl },
)

-- The hash of the coinbase transaction is that of its two given parts with the extra nonce between
-- them, for an allocator that does not fail and a transaction of at most 32768 bytes.
pub generate_tx_hash_lem :
    (sha256 : List ℕ → Hash) (malloc : ℕ → Option (List ℕ)) (nonce part1 part2 : List ℕ) (mode : ℕ)
    → Allocates malloc
    → length part1 + length nonce + length part2 ≤ 32768
    → generate_tx_hash sha256 malloc nonce part1 part2 mode
      ≡ some (digest sha256 mode (part1 ++ (nonce ++ part2)))
unfolding generate_tx_hash transaction_stream
generate_tx_hash_lem sha256 malloc nonce part1 part2 mode al h =
    let (block, got, wide) = al 1024 in
    let (s1, e1, p1, l1) =
      append-EndsWith malloc al (transaction_stream block) [] part1 (fresh-EndsWith block wide)
        (omega arith) (omega arith) in
    let (s2, e2, p2, l2) =
      append-EndsWith malloc al s1 part1 nonce p1 (omega arith) (omega (arith, l1)) in
    let (s3, e3, p3, l3) =
      append-EndsWith malloc al s2 (part1 ++ nonce) part2 p2 (omega arith)
        (omega (arith, l1, l2, length-append part1 nonce)) in
    let (s4, e4) = map_stream_lem s3 ((part1 ++ nonce) ++ part2) p3 in
    rw (got, e1, e2, e3, e4, append_assoc part1 nonce part2) refl

-- Bitcoin's variable-length integers: a value below 253 is its own byte, the marks 253, 254 and 255
-- stand before 2, 4 and 8 bytes.
unfoldable pub compact_bytes : ℕ → List ℕ
compact_bytes v =
    if leb v 252
    then v ∷ []
    else if leb v 65535
    then 253 ∷ le_bytes 2 v
    else if leb v 4294967295
    then 254 ∷ le_bytes 4 v
    else 255 ∷ le_bytes 8 v

-- And how they are read.
unfoldable pub read_compact : List ℕ → Option (ℕ × List ℕ)
read_compact [] = none
read_compact (m ∷ bs) =
    if leb m 252
    then some (m, bs)
    else if m == 253
    then some (le_value (take 2 bs), drop 2 bs)
    else if m == 254
    then some (le_value (take 4 bs), drop 4 bs)
    else some (le_value (take 8 bs), drop 8 bs)

one_byte : (v : ℕ) → v < 256 → le_bytes 1 v ≡ v ∷ []
unfolding le_bytes
one_byte v h = ap (λ n. n ∷ []) (omega arith)

module _ (malloc : ℕ → Option (List ℕ)) (al : Allocates malloc) where
  -- A mark and the bytes behind it.
  marked-EndsWith :
      (s : MemoryStream) (front : List ℕ) (mark k v : ℕ)
      → EndsWith s front
      → length front + 9 ≤ s.size_limit
      → k ≤ 8
      → mark < 256
      → (s₁ s₂ : MemoryStream) × (stream_of (write_data malloc s (le_bytes 1 mark)) ≡ some s₁)
        × (stream_of (write_data malloc s₁ (le_bytes k v)) ≡ some s₂)
        × EndsWith s₂ (front ++ (mark ∷ le_bytes k v))
  marked-EndsWith s front mark k v p room hk hm =
      let (s1, e1, p1, l1) =
        append-EndsWith malloc al s front (le_bytes 1 mark) p
          (omega (arith, length-le_bytes 1 mark)) (omega (arith, length-le_bytes 1 mark)) in
      let (s2, e2, p2, l2) =
        append-EndsWith malloc al s1 (front ++ le_bytes 1 mark) (le_bytes k v) p1
          (omega (arith, length-le_bytes k v))
          (omega (
            arith,
            l1,
            length-append front (le_bytes 1 mark),
            length-le_bytes 1 mark,
            length-le_bytes k v,
          )) in
      (
        s1,
        s2,
        e1,
        e2,
        subst (λ l. EndsWith s2 l)
            (append_assoc front (le_bytes 1 mark) (le_bytes k v)
              ∙ ap (λ l. front ++ (l ++ le_bytes k v)) (one_byte mark hm))
            p2,
      )

  -- The outcome `o` of appending `bs` to `front`.
  abbrev Appends : List ℕ → List ℕ → Option MemoryStream → Type 0
  Appends front bs o = (s' : MemoryStream) × (o ≡ some s') × EndsWith s' (front ++ bs)

  if-Appends :
      (front bs bs' : List ℕ) (o o' : Option MemoryStream) (b : Bool)
      → (b ≡ true → Appends front bs o)
      → (b ≡ false → Appends front bs' o')
      → Appends front (if b then bs else bs') (if b then o else o')
  if-Appends front bs bs' o o' true h h' = h refl
  if-Appends front bs bs' o o' false h h' = h' refl

  add_var_int-Appends :
      (s : MemoryStream) (front : List ℕ) (v : ℕ)
      → EndsWith s front
      → length front + 9 ≤ s.size_limit
      → v < 2 ^ 64
      → Appends front (compact_bytes v) (add_var_int malloc s v)
  unfolding add_var_int compact_bytes write_u8 write_u16 write_u32
  add_var_int-Appends s front v p room hv =
      if-Appends front _ _ _ _ (leb v 252)
        (λ e.
          let h : v % 2 ^ 8 ≡ v = omega (arith, leb→le v 252 e) in
          let (s1, e1, p1, l1) =
            append-EndsWith malloc al s front (le_bytes 1 (v % 2 ^ 8)) p
              (omega (arith, length-le_bytes 1 (v % 2 ^ 8)))
              (omega (arith, length-le_bytes 1 (v % 2 ^ 8))) in
          (
            s1,
            e1,
            subst (λ l. EndsWith s1 (front ++ l))
                (one_byte (v % 2 ^ 8) (omega arith) ∙ ap (λ n. n ∷ []) h) p1,
          ))
        (λ e.
          if-Appends front _ _ _ _ (leb v 65535)
            (λ e'.
              let h : v % 2 ^ 16 ≡ v = omega (arith, leb→le v 65535 e') in
              let (s1, s2, e1, e2, p2) =
                marked-EndsWith s front 253 2 (v % 2 ^ 16) p room (omega arith) (omega arith) in
              (s2, rw (e1, e2) refl, subst (λ n. EndsWith s2 (front ++ (253 ∷ le_bytes 2 n))) h p2))
            (λ e'.
              if-Appends front _ _ _ _ (leb v 4294967295)
                (λ e''.
                  let h : v % 2 ^ 32 ≡ v = omega (arith, leb→le v 4294967295 e'') in
                  let (s1, s2, e1, e2, p2) =
                    marked-EndsWith s front 254 4 (v % 2 ^ 32) p room (omega arith) (omega arith) in
                  (
                    s2,
                    rw (e1, e2) refl,
                    subst (λ n. EndsWith s2 (front ++ (254 ∷ le_bytes 4 n))) h p2,
                  ))
                (λ e''.
                  let (s1, s2, e1, e2, p2) =
                    marked-EndsWith s front 255 8 v p room (omega arith) (omega arith) in
                  (s2, rw (e1, e2) refl, p2))))

le_bytes-round :
    (k v : ℕ) (rest : List ℕ)
    → v < 256 ^ k
    → (le_value (take k (le_bytes k v ++ rest)) ≡ v) × (drop k (le_bytes k v ++ rest) ≡ rest)
le_bytes-round k v rest h = (
  ap (λ n. le_value (take n (le_bytes k v ++ rest))) (sym (length-le_bytes k v))
      ∙ ap le_value (take-append_length (le_bytes k v) rest)
      ∙ le_value-le_bytes k v h,
  ap (λ n. drop n (le_bytes k v ++ rest)) (sym (length-le_bytes k v))
      ∙ drop-append_length (le_bytes k v) rest,
)

if-list :
    (b : Bool) (bs bs' rest : List ℕ) (r : Option (ℕ × List ℕ))
    → (b ≡ true → read_compact (bs ++ rest) ≡ r)
    → (b ≡ false → read_compact (bs' ++ rest) ≡ r)
    → read_compact ((if b then bs else bs') ++ rest) ≡ r
if-list true bs bs' rest r h h' = h refl
if-list false bs bs' rest r h h' = h' refl

read_compact-compact_bytes :
    (v : ℕ) (rest : List ℕ) → v < 2 ^ 64 → read_compact (compact_bytes v ++ rest) ≡ some (v, rest)
unfolding compact_bytes read_compact
read_compact-compact_bytes v rest hv =
    if-list (leb v 252) _ _ rest _ (λ e. if-true _ _ e)
      (λ e.
        if-list (leb v 65535) _ _ rest _
          (λ e'. pair (le_bytes-round 2 v rest (omega (arith, leb→le v 65535 e'))))
          (λ e'.
            if-list (leb v 4294967295) _ _ rest _
              (λ e''. pair (le_bytes-round 4 v rest (omega (arith, leb→le v 4294967295 e''))))
              (λ e''. pair (le_bytes-round 8 v rest (omega arith)))))
  where
    pair :
        {bs : List ℕ} {n : ℕ}
        → (n ≡ v) × (bs ≡ rest)
        → ◌≡◌ {A = Option (ℕ × List ℕ)} (some (n, bs)) (some (v, rest))
    pair {bs} {n} (e, e') = rw (e, e') refl

-- `bitclient_addVarIntFromStream` writes Bitcoin's variable-length integer: for every 64-bit value, an
-- allocator that does not fail and room for nine bytes, the stream is extended by the bytes of
-- `compact_bytes`, and reading those, whatever follows them, gives the value back.
pub add_var_int_lem :
    (malloc : ℕ → Option (List ℕ)) (s : MemoryStream) (front rest : List ℕ) (v : ℕ)
    → Allocates malloc
    → EndsWith s front
    → length front + 9 ≤ s.size_limit
    → v < 2 ^ 64
    → ((s' : MemoryStream) × (add_var_int malloc s v ≡ some s')
        × EndsWith s' (front ++ compact_bytes v))
      × (read_compact (compact_bytes v ++ rest) ≡ some (v, rest))
add_var_int_lem malloc s front rest v al p room hv =
    (add_var_int-Appends malloc al s front v p room hv, read_compact-compact_bytes v rest hv)
