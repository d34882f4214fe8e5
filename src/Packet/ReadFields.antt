-- ===== src/Packet/ReadFields.antt =====
-- What the readers take from the buffer: the field whose bytes stand at the read position.
use fastrie.Base.{
  ℕ, ◌+◌, ◌-◌, ◌*◌, ◌^◌, ◌≤◌, ◌<◌, ◌≡◌, refl, ◌∙◌, sym, ap, Bool, true, false, none, some, List, [],
  ◌∷◌, ◌++◌, length, length-append, append_assoc, append-nil, All, le_bytes, length-le_bytes,
  le_value-le_bytes, arith, add32, ltb, leb, le→leb, inl, inr, Bool-cases, load-append, ge→ltb,
  gt→leb, ◌||◌, ◌==◌,
}
use fastrie.Packet.Buffer.{◌>>=◌, when_else}
use fastrie.Packet.Reads.{
  fail, take_bytes, read_le, read_float, read_u64, read_u32, read_u16, read_u8, read_data,
  read_characters, read_rest, read_string,
}
use fastrie.Packet.Writes.{prefix_width}
use fastrie.Packet.Fields.{
  Field, u8, u16, u32, u64, float, bytes, text, encode, encode_all, read_field, read_all,
  IsReadableField, between, between-append,
}

module _ (limit size : ℕ) where
  -- The next `n` bytes belong to the packet, and no index wraps.
  pub record Holds (front : List ℕ) (n : ℕ) : Type 0 where
    pub fits : length front + n ≤ size
    pub small : size < 2 ^ 31

  take_bytes-between :
      (front bs rest : List ℕ) (e : Bool) (n : ℕ)
      → n ≡ length bs
      → Holds front n
      → take_bytes n (between front (bs ++ rest) limit size e)
        ≡ some (bs, between (front ++ bs) rest limit size false)
  unfolding take_bytes
  take_bytes-between front bs rest e n en r =
      rw (load-append front bs rest (length front) n refl en, take_bytes)
        (ap (λ s. some (bs, s))
          (between-append front bs rest limit size (add32 (length front) n) false (omega arith)))

  held_test : (front : List ℕ) (n : ℕ) → Holds front n → ltb size (add32 (length front) n) ≡ false
  held_test front n r = ge→ltb size (add32 (length front) n) (omega arith)

  pub read_le-between :
      (width v : ℕ) (front rest : List ℕ) (e : Bool)
      → v < 256 ^ width
      → Holds front (length (le_bytes width v))
      → read_le width (between front (le_bytes width v ++ rest) limit size e)
        ≡ some (v, between (front ++ le_bytes width v) rest limit size false)
  unfolding read_le
  read_le-between width v front rest e h r =
      let r' : Holds front width = rw (length-le_bytes width v) at r in
      rw
        (
          held_test front width r',
          take_bytes-between front (le_bytes width v) rest e width (sym (length-le_bytes width v))
              r',
          ◌>>=◌,
          le_value-le_bytes width v h,
        )
        refl

  pub read_data-between :
      (bs front rest : List ℕ) (e : Bool)
      → length bs < 1024 * 1024 * 16
      → Holds front (length bs)
      → read_data (length bs) (between front (bs ++ rest) limit size e)
        ≡ some (some bs, between (front ++ bs) rest limit size false)
  unfolding read_data
  read_data-between bs front rest e h r =
      rw
        (
          gt→leb (1024 * 1024 * 16) (length bs) h,
          held_test front (length bs) r,
          take_bytes-between front bs rest e (length bs) refl r,
          ◌>>=◌,
        )
        refl

  read_characters-between :
      (max : ℕ) (t front rest : List ℕ)
      → length t < max
      → Holds front (length t)
      → read_characters max (length t) (between front (t ++ rest) limit size false)
        ≡ some (some t, between (front ++ t) rest limit size false)
  unfolding read_characters
  read_characters-between max t front rest h r =
      rw
        (
          gt→leb max (length t) h,
          held_test front (length t) r,
          take_bytes-between front t rest false (length t) refl r,
          ◌>>=◌,
        )
        refl

  -- The length prefix, in one byte or two.
  prefix-between :
      (max n : ℕ) (front rest : List ℕ) (e : Bool)
      → n ≤ max
      → max ≤ 0xffff
      → Holds front (length (le_bytes (prefix_width max) n))
      → when_else
          (leb max 0xff)
          read_u8
          read_u16
          (between front (le_bytes (prefix_width max) n ++ rest) limit size e)
        ≡ some (n, between (front ++ le_bytes (prefix_width max) n) rest limit size false)
  unfolding prefix_width read_u8 read_u16
  prefix-between max n front rest e h hm r = elim (Bool-cases (leb max 0xff)) [
    | inl t ↦ rw t (read_le-between 1 n front rest e (ground arith) (rw t at r))
    | inr t ↦ rw t (read_le-between 2 n front rest e (omega arith) (rw t at r))
  ]

  regroup :
      (front a b rest : List ℕ)
      → between front ((a ++ b) ++ rest) limit size false
        ≡ between front (a ++ (b ++ rest)) limit size false
  regroup front a b rest = ap (λ l. between front l limit size false) (append_assoc a b rest)

  Holds-first : (front a b : List ℕ) → Holds front (length (a ++ b)) → Holds front (length a)
  Holds-first front a b r = omega (arith, length-append a b)

  Holds-second :
      (front a b : List ℕ) → Holds front (length (a ++ b)) → Holds (front ++ a) (length b)
  Holds-second front a b r = omega (arith, length-append a b, length-append front a)

  read_string-between :
      (max : ℕ) (t front rest : List ℕ) (e : Bool)
      → length t + 1 < max
      → max ≤ 0xffff
      → Holds front (length (le_bytes (prefix_width (max - 1)) (length t) ++ t))
      → read_string max
          (between front ((le_bytes (prefix_width (max - 1)) (length t) ++ t) ++ rest) limit size e)
        ≡ some (
          some t,
          between
              (front ++ (le_bytes (prefix_width (max - 1)) (length t) ++ t))
              rest
              limit
              size
              false,
        )
  unfolding read_string read_rest
  read_string-between max t front rest e h hm r =
      ap (λ l. read_string max (between front l limit size e)) (append_assoc head t rest)
      ∙ rw
          (
            valid,
            prefix-between (max - 1) (length t) front (t ++ rest) e (omega arith) (omega arith)
                (Holds-first front head t r),
            ◌>>=◌,
          )
          (read_characters-between (max - 1) t (front ++ head) rest (omega arith)
              (Holds-second front head t r)
            ∙ ap (λ l. some (some t, between l rest limit size false)) (append_assoc front head t))
    where
      head : List ℕ
      head = le_bytes (prefix_width (max - 1)) (length t)

      valid : (max == 0 || ltb 0xffff max) ≡ false
      valid = ground arith

  -- A text of the full length, which a writer takes, is refused behind its prefix.
  pub read_string_full :
      (max : ℕ) (t front rest : List ℕ) (e : Bool)
      → length t + 1 ≡ max
      → max ≤ 0xffff
      → Holds front (length (encode (text t max)))
      → read_string max (between front (encode (text t max) ++ rest) limit size e)
        ≡ some (
          none,
          fail (
              between
                (front ++ le_bytes (prefix_width (max - 1)) (length t))
                (t ++ rest)
                limit
                size
                false),
        )
  unfolding read_string read_rest read_characters encode
  read_string_full max t front rest e h hm r =
      ap (λ l. read_string max (between front l limit size e)) (append_assoc head t rest)
      ∙ rw
          (
            valid,
            prefix-between (max - 1) (length t) front (t ++ rest) e (omega arith) (omega arith)
                (Holds-first front head t r),
            ◌>>=◌,
            full,
          )
          refl
    where
      head : List ℕ
      head = le_bytes (prefix_width (max - 1)) (length t)

      valid : (max == 0 || ltb 0xffff max) ≡ false
      valid = ground arith

      full : leb (max - 1) (length t) ≡ true
      full = le→leb (max - 1) (length t) (omega arith)

  -- Each reader takes back the field that a writer wrote, and clears the error flag.
  read_field-between :
      (f : Field) (front rest : List ℕ) (e : Bool)
      → IsReadableField f
      → Holds front (length (encode f))
      → read_field f (between front (encode f ++ rest) limit size e)
        ≡ some (f, between (front ++ encode f) rest limit size false)
  unfolding read_field encode read_u8 read_u16 read_u32 read_u64 read_float
  read_field-between (u8 v) front rest e w r = rw (read_le-between 1 v front rest e w r, ◌>>=◌) refl
  read_field-between (u16 v) front rest e w r =
      rw (read_le-between 2 v front rest e w r, ◌>>=◌) refl
  read_field-between (u32 v) front rest e w r =
      rw (read_le-between 4 v front rest e w r, ◌>>=◌) refl
  read_field-between (u64 v) front rest e w r =
      rw (read_le-between 8 v front rest e w r, ◌>>=◌) refl
  read_field-between (float v) front rest e w r =
      rw (read_le-between 4 v front rest e w r, ◌>>=◌) refl
  read_field-between (bytes bs) front rest e w r =
      rw (read_data-between bs front rest e w r, ◌>>=◌) refl
  read_field-between (text t max) front rest e (w, h) r =
      rw (read_string-between max t front rest e w h r, ◌>>=◌) refl

  -- A sequence of reads takes back the fields in order, up to their last byte.
  pub read_all-between :
      (fs : List Field) (front rest : List ℕ)
      → All IsReadableField fs
      → Holds front (length (encode_all fs))
      → read_all fs (between front (encode_all fs ++ rest) limit size false)
        ≡ some (fs, between (front ++ encode_all fs) rest limit size false)
  unfolding read_all encode_all
  read_all-between [] front rest w r =
      ap (λ l. some ([], between l rest limit size false)) (sym (append-nil front))
  read_all-between (f ∷ fs) front rest (wf, ws) r =
      rw
        (
          append_assoc (encode f) (encode_all fs) rest,
          read_field-between f front (encode_all fs ++ rest) false wf
              (Holds-first front (encode f) (encode_all fs) r),
          ◌>>=◌,
          read_all-between fs (front ++ encode f) rest ws
              (Holds-second front (encode f) (encode_all fs) r),
        )
        (ap (λ l. some (f ∷ fs, between l rest limit size false))
          (append_assoc front (encode f) (encode_all fs)))
