-- ===== src/Packet/WriteFields.antt =====
-- What the writers put into the buffer: the bytes of the field, behind those that stand there.
use fastrie.Base.{
  ℕ, ◌+◌, ◌-◌, ◌*◌, ◌^◌, ◌≤◌, ◌<◌, ◌≡◌, refl, ◌∙◌, sym, ap, Bool, false, some, List, [], ◌∷◌, ◌++◌,
  length, length-append, append_assoc, append-nil, All, drop, length-drop, le_bytes,
  length-le_bytes, arith, add32, ltb, store-append, ge→ltb, gt→leb, drop-drop, ◌||◌, ◌==◌,
}
use fastrie.Packet.Buffer.{◌>>◌}
use fastrie.Packet.Writes.{
  put_bytes, succeed, write_le, write_float, write_u64, write_u32, write_u16, write_u8, write_data,
  write_string, write_characters, prefix_width,
}
use fastrie.Packet.Fields.{
  Field, u8, u16, u32, u64, float, bytes, text, encode, encode_all, write_field, write_all,
  IsWritable, between, between-append,
}

module _ (limit size : ℕ) where
  -- There is room for `n` bytes behind `front`, and no index wraps.
  pub record HasRoom (front rest : List ℕ) (n : ℕ) : Type 0 where
    pub fits : length front + n ≤ limit
    pub allocated : limit ≤ length front + length rest
    pub small : limit < 2 ^ 31

  put_bytes-between :
      (front rest bs : List ℕ) (e : Bool)
      → HasRoom front rest (length bs)
      → put_bytes bs (between front rest limit size e)
        ≡ some (tt, between (front ++ bs) (drop (length bs) rest) limit size e)
  unfolding put_bytes
  put_bytes-between front rest bs e r =
      rw (store-append front rest bs (length front) refl (omega arith), put_bytes)
        (ap (λ s. some (tt, s))
          (between-append front bs (drop (length bs) rest) limit size
            (add32 (length front) (length bs)) e (omega arith)))

  room_test :
      (front rest : List ℕ) (n : ℕ)
      → HasRoom front rest n
      → ltb limit (add32 (length front) n) ≡ false
  room_test front rest n r = ge→ltb limit (add32 (length front) n) (omega arith)

  put_succeed :
      (front rest bs : List ℕ) (e : Bool)
      → HasRoom front rest (length bs)
      → (put_bytes bs >> succeed) (between front rest limit size e)
        ≡ some (tt, between (front ++ bs) (drop (length bs) rest) limit size false)
  unfolding succeed
  put_succeed front rest bs e r = rw (put_bytes-between front rest bs e r, ◌>>◌) refl

  write_le-between :
      (width v : ℕ) (front rest : List ℕ) (e : Bool)
      → HasRoom front rest (length (le_bytes width v))
      → write_le width v (between front rest limit size e)
        ≡ some (
          tt,
          between
              (front ++ le_bytes width v)
              (drop (length (le_bytes width v)) rest)
              limit
              size
              false,
        )
  unfolding write_le
  write_le-between width v front rest e r =
      rw (room_test front rest width (rw (length-le_bytes width v) at r))
        (put_succeed front rest (le_bytes width v) e r)

  write_data-between :
      (bs front rest : List ℕ) (e : Bool)
      → length bs < 1024 * 1024 * 16
      → HasRoom front rest (length bs)
      → write_data bs (between front rest limit size e)
        ≡ some (tt, between (front ++ bs) (drop (length bs) rest) limit size false)
  unfolding write_data
  write_data-between bs front rest e h r =
      rw (gt→leb (1024 * 1024 * 16) (length bs) h, room_test front rest (length bs) r)
        (put_succeed front rest bs e r)

  -- A second write goes behind the first.
  write_two :
      (front a b rest : List ℕ)
      → between ((front ++ a) ++ b) (drop (length b) (drop (length a) rest)) limit size false
        ≡ between (front ++ (a ++ b)) (drop (length (a ++ b)) rest) limit size false
  write_two front a b rest =
      ap (λ l. between l (drop (length b) (drop (length a) rest)) limit size false)
        (append_assoc front a b)
      ∙ ap (λ l. between (front ++ (a ++ b)) l limit size false)
          (drop-drop (length a) (length b) rest ∙ ap (λ n. drop n rest) (sym (length-append a b)))

  room_first :
      (front rest a b : List ℕ)
      → HasRoom front rest (length (a ++ b))
      → HasRoom front rest (length a)
  room_first front rest a b r = omega (arith, length-append a b)

  room_second :
      (front rest a b : List ℕ)
      → HasRoom front rest (length (a ++ b))
      → HasRoom (front ++ a) (drop (length a) rest) (length b)
  room_second front rest a b r = record {
    fits = omega (arith, length-append a b, length-append front a);
    allocated =
        omega (arith, length-append front a, length-drop (length a) rest, length-append a b);
    small = r.small;
  }

  write_characters-between :
      (max : ℕ) (t front rest : List ℕ) (e : Bool)
      → length t ≤ max
      → max ≤ 0xffff
      → HasRoom front rest (length (le_bytes (prefix_width max) (length t) ++ t))
      → write_characters max t (between front rest limit size e)
        ≡ some (
          tt,
          between
              (front ++ (le_bytes (prefix_width max) (length t) ++ t))
              (drop (length (le_bytes (prefix_width max) (length t) ++ t)) rest)
              limit
              size
              false,
        )
  unfolding write_characters
  write_characters-between max t front rest e h hm r =
      rw
        (
          ge→ltb max (length t) h,
          room_test front rest (length t + prefix_width max) (omega (arith, total)),
          put_bytes-between front rest head e (room_first front rest head t r),
          ◌>>◌,
        )
        (put_succeed (front ++ head) (drop (length head) rest) t e (room_second front rest head t r)
          ∙ ap (λ s. some (tt, s)) (write_two front head t rest))
    where
      head : List ℕ
      head = le_bytes (prefix_width max) (length t)

      total : length (head ++ t) ≡ length t + prefix_width max
      total = omega (arith, length-append head t, length-le_bytes (prefix_width max) (length t))

  nothing_written :
      (front rest : List ℕ)
      → between front rest limit size false ≡ between (front ++ []) rest limit size false
  nothing_written front rest = ap (λ l. between l rest limit size false) (sym (append-nil front))

  -- Each writer appends the bytes of its field, and clears the error flag.
  pub write_field-between :
      (f : Field) (front rest : List ℕ) (e : Bool)
      → IsWritable f
      → HasRoom front rest (length (encode f))
      → write_field f (between front rest limit size e)
        ≡ some (tt, between (front ++ encode f) (drop (length (encode f)) rest) limit size false)
  unfolding write_field encode write_u8 write_u16 write_u32 write_u64 write_float write_string
  write_field-between (u8 v) front rest e w r = write_le-between 1 v front rest e r
  write_field-between (u16 v) front rest e w r = write_le-between 2 v front rest e r
  write_field-between (u32 v) front rest e w r = write_le-between 4 v front rest e r
  write_field-between (u64 v) front rest e w r = write_le-between 8 v front rest e r
  write_field-between (float v) front rest e w r = write_le-between 4 v front rest e r
  write_field-between (bytes bs) front rest e w r = write_data-between bs front rest e w r
  write_field-between (text t max) front rest e (w, h) r =
      rw test (write_characters-between (max - 1) t front rest e (omega arith) (omega arith) r)
    where
      test : (max == 0 || ltb 0xffff max) ≡ false
      test = ground arith

  -- A sequence of writes appends the bytes of its fields in order. Its flag is that of the last.
  pub write_all-between :
      (fs : List Field) (front rest : List ℕ)
      → All IsWritable fs
      → HasRoom front rest (length (encode_all fs))
      → write_all fs (between front rest limit size false)
        ≡ some (
          tt,
          between (front ++ encode_all fs) (drop (length (encode_all fs)) rest) limit size false,
        )
  unfolding write_all encode_all
  write_all-between [] front rest w r = ap (λ s. some (tt, s)) (nothing_written front rest)
  write_all-between (f ∷ fs) front rest (wf, ws) r =
      rw
        (
          write_field-between f front rest false wf
              (room_first front rest (encode f) (encode_all fs) r),
          ◌>>◌,
        )
        (write_all-between fs (front ++ encode f) (drop (length (encode f)) rest) ws
            (room_second front rest (encode f) (encode_all fs) r)
          ∙ ap (λ s. some (tt, s)) (write_two front (encode f) (encode_all fs) rest))
