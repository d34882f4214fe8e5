-- ===== src/Packet/Fields.antt =====
-- A packet as the sequence of typed fields that its sender writes and its receiver reads, with the
-- bytes that stand for it. It is the specification of the readers and writers.
use fastrie.Base.{
  ℕ, ◌+◌, ◌-◌, ◌*◌, ◌^◌, ◌≤◌, ◌<◌, ◌≡◌, ◌∙◌, sym, Bool, Option, none, some, List, [], ◌∷◌, ◌++◌,
  length, length-append, append_assoc, le_bytes,
}
use fastrie.Packet.Buffer.{Session, M, ◌>>=◌, ◌>>◌, return}
use fastrie.Packet.Reads.{read_float, read_u64, read_u32, read_u16, read_u8, read_data, read_string}
use fastrie.Packet.Writes.{
  write_float, write_u64, write_u32, write_u16, write_u8, write_data, write_string, prefix_width,
}

-- `text` has the maximum length that both sides give, the final zero included.
pub data Field : Type 0 where
  u8 u16 u32 u64 float : ℕ → Field
  bytes : List ℕ → Field
  text : List ℕ → ℕ → Field

unfoldable pub encode : Field → List ℕ
encode (u8 v) = le_bytes 1 v
encode (u16 v) = le_bytes 2 v
encode (u32 v) = le_bytes 4 v
encode (u64 v) = le_bytes 8 v
encode (float v) = le_bytes 4 v
encode (bytes bs) = bs
encode (text t max) = le_bytes (prefix_width (max - 1)) (length t) ++ t

unfoldable pub encode_all : List Field → List ℕ
encode_all [] = []
encode_all (f ∷ fs) = encode f ++ encode_all fs

unfoldable pub write_field : Field → M (Unit {0})
write_field (u8 v) = write_u8 v
write_field (u16 v) = write_u16 v
write_field (u32 v) = write_u32 v
write_field (u64 v) = write_u64 v
write_field (float v) = write_float v
write_field (bytes bs) = write_data bs
write_field (text t max) = write_string t max

unfoldable pub write_all : List Field → M (Unit {0})
write_all [] = return tt
write_all (f ∷ fs) = do write_field f; write_all fs

abbrev or_empty : Option (List ℕ) → List ℕ
or_empty none = []
or_empty (some bs) = bs

-- Reads a field of the same shape.
unfoldable pub read_field : Field → M Field
read_field (u8 _) = do v ← read_u8; return (u8 v)
read_field (u16 _) = do v ← read_u16; return (u16 v)
read_field (u32 _) = do v ← read_u32; return (u32 v)
read_field (u64 _) = do v ← read_u64; return (u64 v)
read_field (float _) = do v ← read_float; return (float v)
read_field (bytes bs) = do r ← read_data (length bs); return (bytes (or_empty r))
read_field (text t max) = do r ← read_string max; return (text (or_empty r) max)

unfoldable pub read_all : List Field → M (List Field)
read_all [] = return []
read_all (f ∷ fs) = do g ← read_field f; gs ← read_all fs; return (g ∷ gs)

-- What a writer takes without an error, room aside.
abbrev pub IsWritable : Field → Type 0
IsWritable (bytes bs) = length bs < 1024 * 1024 * 16
IsWritable (text t max) = (length t < max) × (max ≤ 0xffff)
IsWritable _ = Unit {0}

-- What comes back from a reader. A text one character shorter than a writer takes.
abbrev pub IsReadableField : Field → Type 0
IsReadableField (u8 v) = v < 2 ^ 8
IsReadableField (u16 v) = v < 2 ^ 16
IsReadableField (u32 v) = v < 2 ^ 32
IsReadableField (u64 v) = v < 2 ^ 64
IsReadableField (float v) = v < 2 ^ 32
IsReadableField (bytes bs) = length bs < 1024 * 1024 * 16
IsReadableField (text t max) = (length t + 1 < max) × (max ≤ 0xffff)

-- A session whose position stands between `front` and `rest`.
abbrev pub between : List ℕ → List ℕ → ℕ → ℕ → Bool → Session
between front rest limit size error = record {
  pb = record {
    buffer = front ++ rest;
    parser_index = length front;
    buffer_limit = limit;
    buffer_size = size;
  };
  error = error;
}

-- The same session with `bs` moved from behind the position to the front.
pub between-append :
    (front bs rest : List ℕ) (limit size i : ℕ) (error : Bool)
    → i ≡ length front + length bs
    → ◌≡◌ {A = Session}
        (record {
          pb = record {
            buffer = front ++ (bs ++ rest);
            parser_index = i;
            buffer_limit = limit;
            buffer_size = size;
          };
          error = error;
        })
        (between (front ++ bs) rest limit size error)
between-append front bs rest limit size i error e = λ k. record {
  pb = record {
    buffer = sym (append_assoc front bs rest) k;
    parser_index = (e ∙ sym (length-append front bs)) k;
    buffer_limit = limit;
    buffer_size = size;
  };
  error = error;
}
