-- ===== src/Client/Framing.antt =====
-- Packets arrive whole, however the connection cuts them into pieces.
use fastrie.Base.{
  ltb→lt, ltb→ge, take_all, if-false, if-true, drop-drop, ℕ, zero, suc, ◌+◌, ◌-◌, ◌*◌, ◌^◌, ◌≤◌,
  ◌<◌, ◌≡◌, refl, ◌∙◌, sym, ap, Bool, true, false, Option, none, some, List, [], ◌∷◌, ◌++◌, drop,
  length, length-append, append_assoc, append-nil, length-drop, store, store-append, load,
  load-append, le_value, le_bytes, length-le_bytes, le_value-le_bytes, add32, ltb, leb, ◌==◌, ◌&&◌,
  All, arith, Bool-cases, inl, inr, gt→leb, le→leb,
}
use fastrie.Packet.{PacketBuffer, change_size_limit}
use fastrie.Packet.Header.{header_opcode, header_size}
use fastrie.Client.State.{Client}
use fastrie.Client.Process.{
  Surroundings, packet_full_size, deliver, handle_full_packet, enlarged, handle_header, after_recv,
  receive,
}

-- Calls of `process` whose `recv` delivers the pieces in turn, as long as the result is true.
unfoldable pub receive_all : Surroundings → List (List ℕ) → Client → Option (Bool × Client)
receive_all w [] c = some (true, c)
receive_all w (bs ∷ bss) c = elim (receive w bs c) [
  | none ↦ none
  | some (false, c') ↦ some (false, c')
  | some (true, c') ↦ receive_all w bss c'
]

abbrev pub concat : List (List ℕ) → List ℕ
concat [] = []
concat (bs ∷ bss) = bs ++ concat bss

-- A client that has received `front` of the packet; `rest` is what else its block holds.
abbrev partial : Client → List ℕ → List ℕ → Client
partial c front rest = record c {
  recv_buffer = record (c.recv_buffer) { buffer = front ++ rest };
  recv_index = length front;
}

-- What is done with the outcome of the call before the pieces `bss`.
abbrev continue : Surroundings → List (List ℕ) → Option (Bool × Client) → Option (Bool × Client)
continue w bss none = none
continue w bss (some (false, c)) = some (false, c)
continue w bss (some (true, c)) = receive_all w bss c

receive-partial :
    (w : Surroundings) (c : Client) (front rest bs : List ℕ)
    → length bs ≤ length rest
    → length front + length rest < 2 ^ 32
    → receive w bs (partial c front rest)
      ≡ after_recv w (4 + c.recv_size) (partial c (front ++ bs) (drop (length bs) rest))
unfolding receive packet_full_size
receive-partial w c front rest bs h small =
    rw (stored, receive) (ap (λ i. after_recv w (4 + c.recv_size) (moved i)) index)
  where
    moved : ℕ → Client
    moved i = record c {
      recv_buffer = record (c.recv_buffer) { buffer = (front ++ bs) ++ drop (length bs) rest };
      recv_index = i;
    }

    stored : store (front ++ rest) (length front) bs ≡ some ((front ++ bs) ++ drop (length bs) rest)
    stored =
        store-append front rest bs (length front) refl h
        ∙ ap some (sym (append_assoc front bs (drop (length bs) rest)))

    index : add32 (length front) (length bs) ≡ length (front ++ bs)
    index = omega (arith, length-append front bs)

-- Before the packet, or its header, is whole nothing happens.
handle_full-waits :
    (w : Surroundings) (c : Client)
    → leb (add32 c.recv_size 4) c.recv_index ≡ false
    → handle_full_packet w c ≡ some (true, c)
unfolding handle_full_packet
handle_full-waits w c e = rw (e, handle_full_packet) refl

after_recv-waits :
    (w : Surroundings) (c : Client) (n : ℕ)
    → c.recv_size ≡ n
    → n < 2 ^ 31
    → c.recv_index < 4 + n
    → after_recv w (4 + n) c ≡ some (true, c)
unfolding after_recv
after_recv-waits w c n e hn h =
    if-false _ _ not_header ∙ handle_full-waits w c (gt→leb _ _ (omega (arith, e)))
  where
    not_header : (c.recv_index == 4 + n && 4 + n == 4) ≡ false
    not_header = ground arith

drop-drop_append :
    (xs ys rest : List ℕ) → drop (length ys) (drop (length xs) rest) ≡ drop (length (xs ++ ys)) rest
drop-drop_append xs ys rest =
    drop-drop (length xs) (length ys) rest ∙ ap (λ n. drop n rest) (sym (length-append xs ys))

-- The pieces of one phase, the header or the data: all but the last only add their bytes.
phase_lem :
    (w : Surroundings) (c : Client) (front rest : List ℕ) (cs more : List (List ℕ))
    → All (λ bs. 1 ≤ length bs) cs
    → c.recv_size < 2 ^ 31
    → length front + length rest < 2 ^ 32
    → length (concat cs) ≤ length rest
    → length front < 4 + c.recv_size
    → length front + length (concat cs) ≡ 4 + c.recv_size
    → receive_all w (cs ++ more) (partial c front rest)
      ≡ continue w more (
          after_recv w
            (4 + c.recv_size)
            (partial c (front ++ concat cs) (drop (length (concat cs)) rest)))
unfolding receive_all
phase_lem w c front rest [] more ne hs small fit lt e = absurd (omega arith)
phase_lem w c front rest (bs ∷ []) more ne hs small fit lt e = ap (continue w more) (
    receive-partial w c front rest bs (omega (arith, length-append bs [])) small
    ∙ ap (λ l. after_recv w (4 + c.recv_size) (partial c (front ++ l) (drop (length l) rest)))
        (sym (append-nil bs)))
phase_lem w c front rest (bs ∷ bs' ∷ cs) more (n1, (n2, ns)) hs small fit lt e =
    rw (step, receive_all)
      (phase_lem w c (front ++ bs) (drop (length bs) rest) (bs' ∷ cs) more (n2, ns) hs
        (omega (arith, split, fit, length-append front bs, length-drop (length bs) rest))
        (omega (arith, split, length-drop (length bs) rest))
        (omega (arith, split, later, length-append front bs))
        (omega (arith, split, e, length-append front bs)))
    ∙ ap (continue w more) (ap (after_recv w (4 + c.recv_size)) same)
  where
    tail : List ℕ
    tail = concat (bs' ∷ cs)

    split : length (bs ++ tail) ≡ length bs + length tail
    split = length-append bs tail

    later : 1 ≤ length tail
    later = omega (arith, length-append bs' (concat cs))

    step :
        receive w bs (partial c front rest)
        ≡ some (true, partial c (front ++ bs) (drop (length bs) rest))
    step =
        receive-partial w c front rest bs (omega (arith, split)) small
        ∙ after_recv-waits w (partial c (front ++ bs) (drop (length bs) rest)) c.recv_size refl hs
            (omega (arith, split, later, e, length-append front bs))

    same :
        partial c ((front ++ bs) ++ tail) (drop (length tail) (drop (length bs) rest))
        ≡ partial c (front ++ (bs ++ tail)) (drop (length (bs ++ tail)) rest)
    same = λ i. partial c (append_assoc front bs tail i) (drop-drop_append bs tail rest i)

-- A client between two packets, whose receive buffer has the size that its limit says.
pub record IsIdle (c : Client) : Type 0 where
  pub no_bytes : c.recv_index ≡ 0
  pub no_size : c.recv_size ≡ 0
  pub allocated : length c.recv_buffer.buffer ≡ c.recv_buffer.buffer_limit
  pub room : 4 ≤ c.recv_buffer.buffer_limit
  pub small : c.recv_buffer.buffer_limit < 2 ^ 31

-- The client at the moment at which a packet is handled.
abbrev with_packet : Client → ℕ → ℕ → PacketBuffer → Client
with_packet c opcode n pb = record c {
  recv_buffer = pb;
  recv_size = n;
  recv_index = 4 + n;
  opcode = opcode;
}

-- The client behind the header.
abbrev announced : Surroundings → Client → ℕ → ℕ → List ℕ → List ℕ → Client
announced w c opcode n header rest = record (partial c header rest) {
  recv_size = n;
  opcode = opcode;
  recv_buffer = enlarged w (partial c header rest).recv_buffer (4 + n);
}

handle_full-delivers :
    (w : Surroundings) (c : Client)
    → leb (add32 c.recv_size 4) c.recv_index ≡ true
    → handle_full_packet w c
      ≡ deliver w
          (record c { recv_buffer = record (c.recv_buffer) { buffer_size = add32 c.recv_size 4 } })
unfolding handle_full_packet
handle_full-delivers w c e = rw (e, handle_full_packet) refl

-- The header, taken apart.
handle_header_lem :
    (w : Surroundings) (c : Client) (v opcode n : ℕ)
    → header_opcode v ≡ opcode
    → header_size v ≡ n
    → n < 1024 * 1024 * 2 - 4
    → handle_header w v c
      ≡ handle_full_packet w (record c {
        recv_size = n;
        opcode = opcode;
        recv_buffer = enlarged w c.recv_buffer (4 + n);
      })
unfolding handle_header
handle_header_lem w c v opcode n eo en hn = if-false _ _ below ∙ (λ i.
    handle_full_packet w (record c {
      recv_size = en i;
      opcode = eo i;
      recv_buffer = enlarged w c.recv_buffer (four i);
    }))
  where
    below : leb (1024 * 1024 * 2 - 4) (header_size v) ≡ false
    below = gt→leb _ _ (omega (arith, en))

    four : add32 (header_size v) 4 ≡ 4 + n
    four = omega (arith, en)

header_lem :
    (w : Surroundings) (c : Client) (opcode n : ℕ) (header rest : List ℕ)
    → header ≡ le_bytes 4 (opcode + n * 256)
    → opcode < 256
    → n < 1024 * 1024 * 2 - 4
    → after_recv w 4 (partial c header rest)
      ≡ handle_full_packet w (announced w c opcode n header rest)
unfolding after_recv header_opcode header_size
header_lem w c opcode n header rest e ho hn =
    if-true _ _ complete
    ∙ rw (loaded, after_recv)
        (handle_header_lem w (partial c header rest) (le_value header) opcode n
          (omega (arith, word)) (omega (arith, word)) hn)
  where
    four : length header ≡ 4
    four = ap length e ∙ length-le_bytes 4 (opcode + n * 256)

    complete : (length header == 4 && 4 == 4) ≡ true
    complete = rw four refl

    loaded : load (header ++ rest) 0 4 ≡ some header
    loaded = load-append [] header rest 0 4 refl (sym four)

    word : le_value header ≡ opcode + n * 256
    word = ap le_value e ∙ le_value-le_bytes 4 (opcode + n * 256) (omega arith)

-- The enlarged block keeps its bytes, and has room for the packet.
enlarged_lem :
    (w : Surroundings) (c : Client) (header rest : List ℕ) (n : ℕ)
    → ((k : ℕ) → length (w.fresh k) ≡ k)
    → length (header ++ rest) ≡ c.recv_buffer.buffer_limit
    → c.recv_buffer.buffer_limit < 2 ^ 31
    → n < 2 ^ 31
    → (rest' : List ℕ) × ((enlarged w (partial c header rest).recv_buffer n).buffer
        ≡ header ++ rest')
      × (n ≤ length (header ++ rest'))
      × (length (header ++ rest') < 2 ^ 31)
unfolding enlarged change_size_limit
enlarged_lem w c header rest n hw el small hn =
    elim (Bool-cases (ltb c.recv_buffer.buffer_limit n)) [
      | inr e ↦ (
        rest,
        ap (λ (pb : PacketBuffer). pb.buffer) (if-false _ _ e),
        omega (arith, ltb→ge _ _ e),
        omega arith,
      )
      | inl e ↦
          let more : List ℕ = w.fresh (n - c.recv_buffer.buffer_limit) in
          let lt : c.recv_buffer.buffer_limit < n = ltb→lt _ _ e in
          let size : length (header ++ (rest ++ more)) ≡ n = omega (
            arith,
            el,
            hw (n - c.recv_buffer.buffer_limit),
            length-append header rest,
            length-append header (rest ++ more),
            length-append rest more,
          ) in
          (
            rest ++ more,
            ap (λ (pb : PacketBuffer). pb.buffer) (if-true _ _ e)
                ∙ ap (λ l. l ++ more) (take_all n (header ++ rest) (omega arith))
                ∙ append_assoc header rest more,
            omega arith,
            omega arith,
          )
    ]

continue-nil : (w : Surroundings) (o : Option (Bool × Client)) → continue w [] o ≡ o
unfolding receive_all
continue-nil w none = refl
continue-nil w (some (false, c)) = refl
continue-nil w (some (true, c)) = refl

-- The outcome of a packet's arrival: it is handled, once, and stands in the receive buffer.
abbrev pub Handles : Surroundings → Client → ℕ → ℕ → List ℕ → Option (Bool × Client) → Type 0
Handles w c opcode n packet o =
    (pb : PacketBuffer) × (rest : List ℕ) × (o ≡ deliver w (with_packet c opcode n pb))
    × (pb.buffer ≡ packet ++ rest)
    × (pb.buffer_size ≡ 4 + n)

-- A client whose packet is complete.
complete-Handles :
    (w : Surroundings) (c c' : Client) (opcode n : ℕ) (packet rest : List ℕ)
    → c' ≡ with_packet c opcode n c'.recv_buffer
    → c'.recv_buffer.buffer ≡ packet ++ rest
    → n < 2 ^ 31
    → Handles w c opcode n packet (handle_full_packet w c')
complete-Handles w c c' opcode n packet rest e eb hn = (
  record (c'.recv_buffer) { buffer_size = 4 + n },
  rest,
  handle_full-delivers w c' full ∙ (λ i.
      deliver w (record (e i) { recv_buffer = record (c'.recv_buffer) { buffer_size = total i } })),
  eb,
  refl,
)
  where
    size : c'.recv_size ≡ n
    size = ap (λ (d : Client). d.recv_size) e

    index : c'.recv_index ≡ 4 + n
    index = ap (λ (d : Client). d.recv_index) e

    total : add32 c'.recv_size 4 ≡ 4 + n
    total = omega (arith, size)

    full : leb (add32 c'.recv_size 4) c'.recv_index ≡ true
    full = le→leb _ _ (omega (arith, size, index))

after_recv-data :
    (w : Surroundings) (c : Client) (n : ℕ) → 4 < n → after_recv w n c ≡ handle_full_packet w c
unfolding after_recv
after_recv-data w c n h = if-false _ _ not_header
  where
    not_header : (c.recv_index == n && n == 4) ≡ false
    not_header = ground arith

no_pieces : (ps : List (List ℕ)) → All (λ bs. 1 ≤ length bs) ps → length (concat ps) ≡ 0 → ps ≡ []
no_pieces [] ne e = refl
no_pieces (bs ∷ ps) (n1, ns) e = absurd (omega (arith, length-append bs (concat ps)))

-- The data, behind the header.
data_lem :
    (w : Surroundings) (c : Client) (opcode n : ℕ) (header rest : List ℕ) (ps : List (List ℕ))
    → ((k : ℕ) → length (w.fresh k) ≡ k)
    → length header ≡ 4
    → length (header ++ rest) ≡ c.recv_buffer.buffer_limit
    → c.recv_buffer.buffer_limit < 2 ^ 31
    → All (λ bs. 1 ≤ length bs) ps
    → length (concat ps) ≡ n
    → n < 1024 * 1024 * 2 - 4
    → Handles w c opcode n
        (header ++ concat ps)
        (continue w ps (handle_full_packet w (announced w c opcode n header rest)))
data_lem w c opcode zero header rest ps hw four el small ne e hn =
    let (rest', eb, big, sm) = enlarged_lem w c header rest 4 hw el small (omega arith) in
    let (pb, tail, done, eb', es) =
      complete-Handles w c (announced w c opcode 0 header rest) opcode 0 header rest'
        (λ i. record (announced w c opcode 0 header rest) { recv_index = four i }) eb
        (omega arith) in
    let none_left = no_pieces ps ne e in
    (
      pb,
      tail,
      ap (λ qs. continue w qs (handle_full_packet w (announced w c opcode 0 header rest))) none_left
          ∙ continue-nil w _
          ∙ done,
      eb'
          ∙ ap (λ l. l ++ tail)
              (sym (append-nil header) ∙ ap (λ qs. header ++ concat qs) (sym none_left)),
      es,
    )
data_lem w c opcode (suc m) header rest ps hw four el small ne e hn =
    let (rest', eb, big, sm) = enlarged_lem w c header rest (4 + suc m) hw el small (omega arith) in
    let c' : Client = announced w c opcode (suc m) header rest in
    let rest'' : List ℕ = drop (length (concat ps)) rest' in
    let last : Client = partial c' (header ++ concat ps) rest'' in
    let index : length (header ++ concat ps) ≡ 4 + suc m =
      omega (arith, length-append header (concat ps)) in
    let (pb, tail, done, eb', es) =
      complete-Handles w c last opcode (suc m) (header ++ concat ps) rest''
        (λ i. record last { recv_index = index i }) refl (omega arith) in
    (
      pb,
      tail,
      ap (continue w ps) (handle_full-waits w c' (gt→leb _ _ (omega arith)))
          ∙ ap (receive_all w ps)
              (λ i. record c' { recv_buffer = record (c'.recv_buffer) { buffer = eb i } })
          ∙ ap (λ qs. receive_all w qs (partial c' header rest')) (sym (append-nil ps))
          ∙ phase_lem w c' header rest' ps [] ne (omega arith)
              (omega (arith, length-append header rest'))
              (omega (arith, length-append header rest')) (omega arith) (omega arith)
          ∙ continue-nil w _
          ∙ after_recv-data w last (4 + suc m) (omega arith)
          ∙ done,
      eb',
      es,
    )

-- However the connection cuts a packet into pieces, the calls of `xptClient_process` that receive them
-- handle that packet, once: a client between two packets, whose receive buffer is as large as its
-- limit says, receives the header (the opcode and the size of the data, below 2 MB less 4 bytes) in
-- nonempty pieces and then the data in nonempty pieces, as `recv` delivers them. No byte is stored
-- outside the block, which is enlarged where it must be; all calls before the last return true, and
-- the last hands on the packet, whole, with its opcode and size, all else in the client as it was.
pub framing_lem :
    (w : Surroundings) (c : Client) (opcode n : ℕ) (hs ps : List (List ℕ))
    → ((k : ℕ) → length (w.fresh k) ≡ k)
    → IsIdle c
    → opcode < 256
    → n < 1024 * 1024 * 2 - 4
    → All (λ bs. 1 ≤ length bs) hs
    → All (λ bs. 1 ≤ length bs) ps
    → concat hs ≡ le_bytes 4 (opcode + n * 256)
    → length (concat ps) ≡ n
    → Handles w c opcode n (concat hs ++ concat ps) (receive_all w (hs ++ ps) c)
framing_lem w c opcode n hs ps hw idle ho hn nh np eh ep =
    let four : length (concat hs) ≡ 4 = ap length eh ∙ length-le_bytes 4 (opcode + n * 256) in
    let rest : List ℕ = drop (length (concat hs)) c.recv_buffer.buffer in
    let whole : length (concat hs ++ rest) ≡ c.recv_buffer.buffer_limit = omega (
      arith,
      length-append (concat hs) rest,
      length-drop (length (concat hs)) c.recv_buffer.buffer,
      idle.allocated,
      idle.room,
    ) in
    let (pb, tail, done, eb, es) =
      data_lem w c opcode n (concat hs) rest ps hw four whole idle.small np ep hn in
    (
      pb,
      tail,
      ap (receive_all w (hs ++ ps)) (λ i. record c { recv_index = idle.no_bytes i })
          ∙ phase_lem w c [] c.recv_buffer.buffer hs ps nh (omega (arith, idle.no_size))
              (omega (arith, idle.allocated, idle.small)) (omega (arith, idle.allocated, idle.room))
              (omega arith) (omega (arith, idle.no_size))
          ∙ ap (continue w ps) (
              ap (λ k. after_recv w (4 + k) (partial c (concat hs) rest)) idle.no_size
              ∙ header_lem w c opcode n (concat hs) rest eh ho hn)
          ∙ done,
      eb,
      es,
    )
