-- ===== src/Packet/WriteSafety.antt =====
-- Building never leaves the memory of the buffer, also where a field does not fit.
use fastrie.Base.{
  ℕ, ◌+◌, ◌-◌, ◌*◌, ◌^◌, ◌≤◌, ◌<◌, ◌≡◌, refl, ◌∙◌, Bool, true, false, Option, some, List, [], ◌∷◌,
  leb, ltb, ◌==◌, ◌||◌, length, store_inside, le_bytes, length-le_bytes, add32, ltb→ge, leb→gt,
  arith, if◌then◌else◌,
}
use fastrie.Packet.Buffer.{PacketBuffer, Session, M, ◌>>◌}
use fastrie.Packet.Reads.{fail}
use fastrie.Packet.Writes.{
  put_bytes, succeed, write_le, write_float, write_u64, write_u32, write_u16, write_u8, write_data,
  write_characters, write_string, prefix_width,
}
use fastrie.Packet.Fields.{Field, u8, u16, u32, u64, float, bytes, text, write_field, write_all}

-- The limit is the size of the block, at most 2 GB, and the position is within it.
pub record IsBuildable (pb : PacketBuffer) : Type 0 where
  pub in_block : pb.buffer_limit ≤ length pb.buffer
  pub in_limit : pb.parser_index ≤ pb.buffer_limit
  pub small : pb.buffer_limit ≤ 2 ^ 31

-- A run from `s` ends without a fault in a buffer of the same limit, no shorter and not moved back.
abbrev pub Builds : Session → Option (Unit {0} × Session) → Type 0
Builds s r =
    (s' : Session) × (r ≡ some (tt, s'))
    × IsBuildable s'.pb
    × (s'.buffer_limit ≡ s.buffer_limit)
    × (s.parser_index ≤ s'.parser_index)

abbrev KeepsBuildable : M (Unit {0}) → Type 0
KeepsBuildable m = (s : Session) → IsBuildable s.pb → Builds s (m s)

if-Builds :
    (b : Bool) (s : Session) (x y : Option (Unit {0} × Session))
    → (b ≡ true → Builds s x)
    → (b ≡ false → Builds s y)
    → Builds s (if b then x else y)
if-Builds true s x y hx hy = hx refl
if-Builds false s x y hx hy = hy refl

fail-Builds : (s : Session) → IsBuildable s.pb → Builds s (some (tt, fail s))
unfolding fail
fail-Builds s v = (record s { error = true }, refl, v, refl, omega arith)

put_bytes-Builds :
    (bs : List ℕ) (s : Session)
    → IsBuildable s.pb
    → s.parser_index + length bs ≤ s.buffer_limit
    → Builds s (put_bytes bs s)
unfolding put_bytes
put_bytes-Builds bs s v h =
    let (buffer, e, same) = store_inside s.buffer s.parser_index bs (omega arith) in
    (
      record s {
        pb = record (s.pb) { buffer = buffer; parser_index = add32 s.parser_index (length bs) };
      },
      rw (e, put_bytes) refl,
      omega (arith, same),
      refl,
      omega arith,
    )

>>-Builds :
    (m k : M (Unit {0})) (s : Session)
    → Builds s (m s)
    → ((s' : Session) → m s ≡ some (tt, s') → IsBuildable s'.pb → Builds s' (k s'))
    → Builds s ((m >> k) s)
>>-Builds m k s (s₁, e₁, v₁, l₁, p₁) hk =
    let (s₂, e₂, v₂, l₂, p₂) = hk s₁ e₁ v₁ in (s₂, rw (e₁, ◌>>◌) e₂, v₂, l₂ ∙ l₁, omega arith)

succeed-Builds : (s : Session) → IsBuildable s.pb → Builds s (succeed s)
unfolding succeed
succeed-Builds s v = (record s { error = false }, refl, v, refl, omega arith)

fits :
    (n : ℕ) (p : PacketBuffer)
    → IsBuildable p
    → n < 2 ^ 31
    → ltb p.buffer_limit (add32 p.parser_index n) ≡ false
    → p.parser_index + n ≤ p.buffer_limit
fits n p v h e = omega (arith, ltb→ge p.buffer_limit (add32 p.parser_index n) e)

put_succeed-Builds :
    (bs : List ℕ) (s : Session)
    → IsBuildable s.pb
    → s.parser_index + length bs ≤ s.buffer_limit
    → Builds s ((put_bytes bs >> succeed) s)
put_succeed-Builds bs s v h =
    >>-Builds (put_bytes bs) succeed s (put_bytes-Builds bs s v h) (λ s' _ v'. succeed-Builds s' v')

write_le-KeepsBuildable : (width v : ℕ) → width < 2 ^ 31 → KeepsBuildable (write_le width v)
unfolding write_le
write_le-KeepsBuildable width v h s w =
    if-Builds (ltb s.buffer_limit (add32 s.parser_index width)) s _ _ (λ _. fail-Builds s w)
      λ e.
        put_succeed-Builds (le_bytes width v) s w
          (omega (arith, length-le_bytes width v, fits width s.pb w h e))

write_data-KeepsBuildable : (bs : List ℕ) → KeepsBuildable (write_data bs)
unfolding write_data
write_data-KeepsBuildable bs s w =
    if-Builds (leb (1024 * 1024 * 16) (length bs)) s _ _ (λ _. (s, refl, w, refl, omega arith))
      λ e.
        if-Builds (ltb s.buffer_limit (add32 s.parser_index (length bs))) s _ _
          (λ _. fail-Builds s w)
          λ e'.
            put_succeed-Builds bs s w
              (fits (length bs) s.pb w (omega (arith, leb→gt (1024 * 1024 * 16) (length bs) e)) e')

put_bytes-moves :
    (bs : List ℕ) (s s' : Session)
    → put_bytes bs s ≡ some (tt, s')
    → (s'.parser_index ≡ add32 s.parser_index (length bs)) × (s'.buffer_limit ≡ s.buffer_limit)
unfolding put_bytes
put_bytes-moves bs s s' e = ground arith

prefix_width-le : (max : ℕ) → prefix_width max ≤ 2
unfolding prefix_width
prefix_width-le max = ground arith

write_characters-KeepsBuildable :
    (max : ℕ) (t : List ℕ) → max < 2 ^ 16 → KeepsBuildable (write_characters max t)
unfolding write_characters
write_characters-KeepsBuildable max t h s w =
    if-Builds (ltb max (length t)) s _ _ (λ _. fail-Builds s w)
      λ e.
        if-Builds (ltb s.buffer_limit (add32 s.parser_index (length t + prefix_width max))) s _ _
          (λ _. fail-Builds s w)
          λ e'.
            let small : length t + prefix_width max < 2 ^ 31 =
              omega (arith, ltb→ge max (length t) e, prefix_width-le max) in
            let room = fits (length t + prefix_width max) s.pb w small e' in
            let head = le_bytes (prefix_width max) (length t) in
            let wide = length-le_bytes (prefix_width max) (length t) in
            >>-Builds (put_bytes head) (put_bytes t >> succeed) s
              (put_bytes-Builds head s w (omega (arith, room, wide)))
              λ s' moved w'.
                put_succeed-Builds t s' w'
                  (omega (arith, room, wide, put_bytes-moves head s s' moved, w.small, w.in_limit))

write_string-KeepsBuildable : (t : List ℕ) (max : ℕ) → KeepsBuildable (write_string t max)
unfolding write_string
write_string-KeepsBuildable t max s w =
    if-Builds (max == 0 || ltb 0xffff max) s _ _ (λ _. fail-Builds s w)
      λ e. write_characters-KeepsBuildable (max - 1) t (ground arith) s w

write_field-KeepsBuildable : (f : Field) → KeepsBuildable (write_field f)
unfolding write_field write_u8 write_u16 write_u32 write_u64 write_float
write_field-KeepsBuildable (u8 v) = write_le-KeepsBuildable 1 v (omega arith)
write_field-KeepsBuildable (u16 v) = write_le-KeepsBuildable 2 v (omega arith)
write_field-KeepsBuildable (u32 v) = write_le-KeepsBuildable 4 v (omega arith)
write_field-KeepsBuildable (u64 v) = write_le-KeepsBuildable 8 v (omega arith)
write_field-KeepsBuildable (float v) = write_le-KeepsBuildable 4 v (omega arith)
write_field-KeepsBuildable (bytes bs) = write_data-KeepsBuildable bs
write_field-KeepsBuildable (text t max) = write_string-KeepsBuildable t max

write_all-KeepsBuildable : (fs : List Field) → KeepsBuildable (write_all fs)
unfolding write_all
write_all-KeepsBuildable [] s w = (s, refl, w, refl, omega arith)
write_all-KeepsBuildable (f ∷ fs) s w =
    >>-Builds (write_field f) (write_all fs) s (write_field-KeepsBuildable f s w)
      (λ s' _ w'. write_all-KeepsBuildable fs s' w')

-- Whatever fields a sender writes to a buffer whose limit is at most the size of its block and 2 GB,
-- whether they fit or not: no access leaves the block, the position stays within the limit and does not
-- go back, and the limit stays.
pub write_all_lem : (fs : List Field) (s : Session) → IsBuildable s.pb → Builds s (write_all fs s)
write_all_lem fs s w = write_all-KeepsBuildable fs s w
