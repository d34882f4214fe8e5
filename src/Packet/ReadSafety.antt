-- ===== src/Packet/ReadSafety.antt =====
-- Parsing never leaves the memory of the packet: the invariant that every reader keeps, and what it
-- leaves alone. The rules for `do` blocks carry this over to the packet handlers.
use fastrie.Base.{
  ℕ, ◌+◌, ◌^◌, ◌≤◌, ◌<◌, ◌≡◌, refl, ◌∙◌, Bool, true, false, Option, none, some, List, [], ◌∷◌, leb,
  ltb, add32, ◌==◌, ltb→ge, leb→gt, ◌-◌, ◌||◌, length, if◌then◌else◌, le_value, ◌*◌, load_inside,
  arith,
}
use fastrie.Packet.Buffer.{PacketBuffer, Session, M, ◌>>=◌, ◌>>◌, return, when_else}
use fastrie.Packet.Reads.{
  fail, fail_read, take_bytes, read_le, read_float, read_u64, read_u32, read_u16, read_u8,
  read_data, read_characters, read_rest, read_string,
}

-- A received packet of at most 2 GB that lies in its block, read up to `parser_index`.
pub record IsReadable (pb : PacketBuffer) : Type 0 where
  pub in_block : pb.buffer_size ≤ length pb.buffer
  pub in_packet : pb.parser_index ≤ pb.buffer_size
  pub small : pb.buffer_size ≤ 2 ^ 31

-- The packet stays, and the read position does not go back.
pub record Advances (p q : PacketBuffer) : Type 0 where
  pub same_buffer : q.buffer ≡ p.buffer
  pub same_size : q.buffer_size ≡ p.buffer_size
  pub same_limit : q.buffer_limit ≡ p.buffer_limit
  forward : p.parser_index ≤ q.parser_index

-- A run from `s` ends, without a fault, in a session that is readable and advanced.
abbrev pub Runs : {A : Type 0} → Session → Option (A × Session) → Type 0
Runs {A} s r =
    (a : A) × (s' : Session) × (r ≡ some (a, s')) × IsReadable s'.pb × Advances s.pb s'.pb

-- A parser that runs so from every readable session.
abbrev pub IsSafe : {A : Type 0} → M A → Type 0
IsSafe m = (s : Session) → IsReadable s.pb → Runs s (m s)

Advances-refl : (p : PacketBuffer) → Advances p p
Advances-refl p = record {
  same_buffer = refl;
  same_size = refl;
  same_limit = refl;
  forward = omega arith;
}

Advances-trans : {p q r : PacketBuffer} → Advances p q → Advances q r → Advances p r
Advances-trans a b = record {
  same_buffer = b.same_buffer ∙ a.same_buffer;
  same_size = b.same_size ∙ a.same_size;
  same_limit = b.same_limit ∙ a.same_limit;
  forward = omega arith;
}

return-IsSafe : {A : Type 0} (a : A) → IsSafe (return a)
return-IsSafe a s v = (a, s, refl, v, Advances-refl s.pb)

>>=-IsSafe :
    {A B : Type 0} (m : M A) (f : A → M B) → IsSafe m → ((a : A) → IsSafe (f a)) → IsSafe (m >>= f)
>>=-IsSafe m f hm hf s v =
    let (a, s₁, e, v₁, ad₁) = hm s v in
    let (b, s₂, e₂, v₂, ad₂) = hf a s₁ v₁ in (b, s₂, rw (e, ◌>>=◌) e₂, v₂, Advances-trans ad₁ ad₂)

when_else-IsSafe :
    {A : Type 0} (b : Bool) (m k : M A) → IsSafe m → IsSafe k → IsSafe (when_else b m k)
when_else-IsSafe true m k hm hk = hm
when_else-IsSafe false m k hm hk = hk

-- Both branches of a test run.
if-Runs :
    {A : Type 0} (b : Bool) (s : Session) (x y : Option (A × Session))
    → (b ≡ true → Runs s x)
    → (b ≡ false → Runs s y)
    → Runs s (if b then x else y)
if-Runs true s x y hx hy = hx refl
if-Runs false s x y hx hy = hy refl

fail-Runs : {A : Type 0} (a : A) (s : Session) → IsReadable s.pb → Runs s (some (a, fail s))
unfolding fail
fail-Runs a s v = (a, record s { error = true }, refl, v, Advances-refl s.pb)

fail_read-Runs :
    {A : Type 0} (a : A) (s : Session) → IsReadable s.pb → Runs s (some (a, fail_read s))
unfolding fail_read
fail_read-Runs a s v = (a, _, refl, omega arith, ground arith)

take_bytes-Runs :
    (width : ℕ) (s : Session)
    → IsReadable s.pb
    → s.parser_index + width ≤ s.buffer_size
    → Runs s (take_bytes width s)
unfolding take_bytes
take_bytes-Runs width s v h =
    let (bs, e, _) = load_inside s.buffer s.parser_index width (omega arith) in
    (
      bs,
      record s { pb = record (s.pb) { parser_index = add32 s.parser_index width }; error = false },
      rw (e, take_bytes) refl,
      omega arith,
      ground arith,
    )

-- The width test passed: the bytes lie in the packet.
width_fits :
    (width : ℕ) (p : PacketBuffer)
    → IsReadable p
    → width < 2 ^ 31
    → ltb p.buffer_size (add32 p.parser_index width) ≡ false
    → p.parser_index + width ≤ p.buffer_size
width_fits width p v hw e = omega (arith, ltb→ge p.buffer_size (add32 p.parser_index width) e)

-- The second half of each reader: the test, and the bytes.
checked_take-Runs :
    {A : Type 0} (width : ℕ) (a : A) (s failed : Session) (f : List ℕ → M A)
    → IsReadable s.pb
    → width < 2 ^ 31
    → Runs s (some (a, failed))
    → ((bs : List ℕ) → IsSafe (f bs))
    → Runs s (
        if ltb s.buffer_size (add32 s.parser_index width)
        then some (a, failed)
        else (take_bytes width >>= f) s)
checked_take-Runs width a s failed f v hw hfail hf =
    if-Runs (ltb s.buffer_size (add32 s.parser_index width)) s _ _ (λ _. hfail)
      λ e.
        let (bs, s₁, e₁, v₁, ad₁) = take_bytes-Runs width s v (width_fits width s.pb v hw e) in
        let (b, s₂, e₂, v₂, ad₂) = hf bs s₁ v₁ in
        (b, s₂, rw (e₁, ◌>>=◌) e₂, v₂, Advances-trans ad₁ ad₂)

read_le-IsSafe : (width : ℕ) → width < 2 ^ 31 → IsSafe (read_le width)
unfolding read_le
read_le-IsSafe width hw s v =
    checked_take-Runs width 0 s (fail_read s) _ v hw (fail_read-Runs 0 s v)
      (λ bs. return-IsSafe (le_value bs))

pub read_float-IsSafe : IsSafe read_float
unfolding read_float
read_float-IsSafe = read_le-IsSafe 4 (omega arith)

pub read_u64-IsSafe : IsSafe read_u64
unfolding read_u64
read_u64-IsSafe = read_le-IsSafe 8 (omega arith)

pub read_u32-IsSafe : IsSafe read_u32
unfolding read_u32
read_u32-IsSafe = read_le-IsSafe 4 (omega arith)

read_u16-IsSafe : IsSafe read_u16
unfolding read_u16
read_u16-IsSafe = read_le-IsSafe 2 (omega arith)

pub read_u8-IsSafe : IsSafe read_u8
unfolding read_u8
read_u8-IsSafe = read_le-IsSafe 1 (omega arith)

read_data-IsSafe : (len : ℕ) → IsSafe (read_data len)
unfolding read_data
read_data-IsSafe len s v =
    if-Runs (leb (1024 * 1024 * 16) len) s _ _ (λ _. return-IsSafe none s v)
      λ e.
        checked_take-Runs len none s (fail_read s) _ v
          (omega (arith, leb→gt (1024 * 1024 * 16) len e)) (fail_read-Runs none s v)
          (λ bs. return-IsSafe (some bs))

read_characters-IsSafe : (max len : ℕ) → max < 2 ^ 31 → IsSafe (read_characters max len)
unfolding read_characters
read_characters-IsSafe max len h s v =
    if-Runs (leb max len) s _ _ (λ _. fail-Runs none s v)
      λ e.
        checked_take-Runs len none s (fail s) _ v (omega (arith, leb→gt max len e))
          (fail-Runs none s v) (λ bs. return-IsSafe (some bs))

read_rest-IsSafe : (max len : ℕ) → max < 2 ^ 31 → IsSafe (read_rest max len)
unfolding read_rest
read_rest-IsSafe max len h s v =
    if-Runs s.error s _ _ (λ _. return-IsSafe none s v) (λ _. read_characters-IsSafe max len h s v)

pub read_string-IsSafe : (max : ℕ) → IsSafe (read_string max)
unfolding read_string
read_string-IsSafe max s v =
    if-Runs (max == 0 || ltb 0xffff max) s _ _ (λ _. fail-Runs none s v)
      λ e.
        >>=-IsSafe (when_else (leb (max - 1) 0xff) read_u8 read_u16) _
          (when_else-IsSafe (leb (max - 1) 0xff) read_u8 read_u16 read_u8-IsSafe read_u16-IsSafe)
          (λ len. read_rest-IsSafe (max - 1) len (ground arith)) s v

-- The calls that a packet handler can make, in any order; their results are dropped here.
pub data ReadCall : Type 0 where
  float u64 u32 u16 u8 : ReadCall
  bytes text : ℕ → ReadCall

unfoldable pub read_call : ReadCall → M (Unit {0})
read_call float = do _ ← read_float; return tt
read_call u64 = do _ ← read_u64; return tt
read_call u32 = do _ ← read_u32; return tt
read_call u16 = do _ ← read_u16; return tt
read_call u8 = do _ ← read_u8; return tt
read_call (bytes len) = do _ ← read_data len; return tt
read_call (text max) = do _ ← read_string max; return tt

unfoldable pub read_calls : List ReadCall → M (Unit {0})
read_calls [] = return tt
read_calls (c ∷ cs) = do read_call c; read_calls cs

read_call-IsSafe : (c : ReadCall) → IsSafe (read_call c)
unfolding read_call
read_call-IsSafe float = >>=-IsSafe read_float _ read_float-IsSafe (λ _. return-IsSafe tt)
read_call-IsSafe u64 = >>=-IsSafe read_u64 _ read_u64-IsSafe (λ _. return-IsSafe tt)
read_call-IsSafe u32 = >>=-IsSafe read_u32 _ read_u32-IsSafe (λ _. return-IsSafe tt)
read_call-IsSafe u16 = >>=-IsSafe read_u16 _ read_u16-IsSafe (λ _. return-IsSafe tt)
read_call-IsSafe u8 = >>=-IsSafe read_u8 _ read_u8-IsSafe (λ _. return-IsSafe tt)
read_call-IsSafe (bytes len) =
    >>=-IsSafe (read_data len) _ (read_data-IsSafe len) (λ _. return-IsSafe tt)
read_call-IsSafe (text max) =
    >>=-IsSafe (read_string max) _ (read_string-IsSafe max) (λ _. return-IsSafe tt)

>>-IsSafe : {B : Type 0} (m : M (Unit {0})) (k : M B) → IsSafe m → IsSafe k → IsSafe (m >> k)
>>-IsSafe m k hm hk s v =
    let (a, s₁, e, v₁, ad₁) = hm s v in
    let (b, s₂, e₂, v₂, ad₂) = hk s₁ v₁ in (b, s₂, rw (e, ◌>>◌) e₂, v₂, Advances-trans ad₁ ad₂)

read_calls-IsSafe : (cs : List ReadCall) → IsSafe (read_calls cs)
unfolding read_calls
read_calls-IsSafe [] = return-IsSafe tt
read_calls-IsSafe (c ∷ cs) =
    >>-IsSafe (read_call c) (read_calls cs) (read_call-IsSafe c) (read_calls-IsSafe cs)

-- Whatever calls a handler makes on a received packet that lies in its block and has at most 2 GB, in
-- whatever order and whether or not it looks at the error flag: no access leaves the block, the read
-- position stays within the packet and does not go back, and the packet's bytes, size and limit stay.
pub read_calls_lem : (cs : List ReadCall) (s : Session) → IsReadable s.pb → Runs s (read_calls cs s)
read_calls_lem cs s v = read_calls-IsSafe cs s v
