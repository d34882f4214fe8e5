-- ===== src/Client/Work.antt =====
-- The work packet, from its bytes to the work that the miner is given.
use fastrie.Base.{
  ℕ, suc, ◌+◌, ◌*◌, ◌%◌, ◌^◌, ◌≤◌, ◌<◌, ◌≡◌, refl, ◌∙◌, sym, ap, Bool, true, false, some, List, [],
  ◌∷◌, ◌++◌, drop, drop-drop, length, length-append, length-drop, append_assoc, append-nil, All,
  arith, store, store-append, le_bytes, sub32, if◌then◌else◌, ◌==◌,
}
use fastrie.Packet.{PacketBuffer, begin_read_packet, M, read_u32, read_u16, read_data}
use fastrie.Packet.Fields.{between}
use fastrie.Packet.ReadFields.{Holds, read_le-between, read_data-between}
use fastrie.Target.{target_from_compact}
use fastrie.Client.State.{Client, BlockWorkInfo, ◌>>=◌, ◌>>◌, reading, copy_to}
use fastrie.Client.Handlers.{
  process_packet_block_data1, read_tx_hashes, accessed, algorithm_riecoin,
}
use fastrie.Client.Framing.{concat}

-- The data of a work packet.
pub record WorkPacket : Type 0 where
  pub version : ℕ
  pub height : ℕ
  pub n_bits : ℕ
  pub target_compact : ℕ
  pub target_share_compact : ℕ
  pub n_time : ℕ
  pub prev_block_hash : List ℕ
  pub merkle_root : List ℕ
  pub part1 : List ℕ
  pub part2 : List ℕ
  pub tx_hashes : List (List ℕ)

-- The number of hashes.
abbrev pub count : List (List ℕ) → ℕ
count [] = 0
count (h ∷ hs) = suc (count hs)

-- Its bytes, in three parts, with `rest` behind them.
abbrev hash_bytes : WorkPacket → List ℕ → List ℕ
hash_bytes p rest = le_bytes 2 (count p.tx_hashes) ++ (concat p.tx_hashes ++ rest)

abbrev coin_base_bytes : WorkPacket → List ℕ → List ℕ
coin_base_bytes p rest =
    le_bytes 2 (length p.part1)
    ++ (p.part1 ++ (le_bytes 2 (length p.part2) ++ (p.part2 ++ hash_bytes p rest)))

abbrev pub work_bytes : WorkPacket → List ℕ → List ℕ
work_bytes p rest =
    le_bytes 4 p.version
    ++ (le_bytes 4 p.height
        ++ (le_bytes 4 p.n_bits
            ++ (le_bytes 4 p.target_compact
                ++ (le_bytes 4 p.target_share_compact
                    ++ (le_bytes 4 p.n_time
                        ++ (p.prev_block_hash ++ (p.merkle_root ++ coin_base_bytes p rest)))))))

module _ (limit size : ℕ) where
  -- A client whose next bytes to read are `rest`, in a packet of `size` bytes.
  abbrev at : Client → List ℕ → List ℕ → Client
  at c front rest = record c { recv_buffer = (between front rest limit size false).pb }

  -- A reader that takes the bytes `bs` for the value `a`.
  abbrev Takes : {A : Type 0} → M A → A → List ℕ → Type 0
  Takes m a bs =
      (front rest : List ℕ) (e : Bool)
      → Holds limit size front (length bs)
      → m (between front (bs ++ rest) limit size e)
        ≡ some (a, between (front ++ bs) rest limit size false)

  u32-Takes : (v : ℕ) → v < 2 ^ 32 → Takes read_u32 v (le_bytes 4 v)
  unfolding read_u32
  u32-Takes v h front rest e = read_le-between limit size 4 v front rest e (omega arith)

  u16-Takes : (v : ℕ) → v < 2 ^ 16 → Takes read_u16 v (le_bytes 2 v)
  unfolding read_u16
  u16-Takes v h front rest e = read_le-between limit size 2 v front rest e (omega arith)

  data-Takes : (bs : List ℕ) → length bs < 2 ^ 16 → Takes (read_data (length bs)) (some bs) bs
  data-Takes bs h front rest e = read_data-between limit size bs front rest e (omega arith)

  hash-Takes : (bs : List ℕ) → length bs ≡ 32 → Takes (read_data 32) (some bs) bs
  hash-Takes bs e front rest err r =
      ap (λ n. read_data n (between front (bs ++ rest) limit size err)) (sym e)
      ∙ read_data-between limit size bs front rest err (omega (arith, e)) r

-- What `store` at the front of an array gives.
abbrev over : List ℕ → List ℕ → List ℕ
over bs array = bs ++ drop (length bs) array

copy_to-front :
    (array bs : List ℕ)
    → length bs ≤ length array
    → copy_to array 0 (some bs) ≡ some (over bs array)
unfolding copy_to
copy_to-front array bs h = store-append [] array bs 0 refl h

module _ (limit size : ℕ) where
  read_tx_hashes_lem :
      (hs : List (List ℕ)) (i : ℕ) (c : Client) (front rest done old : List ℕ) (e : Bool)
      → All (λ h. length h ≡ 32) hs
      → length done ≡ 32 * i
      → length (concat hs) ≤ length old
      → Holds limit size front (length (concat hs))
      → read_tx_hashes (count hs) i (done ++ old) e (at limit size c front (concat hs ++ rest))
        ≡ some (
          done ++ (concat hs ++ drop (length (concat hs)) old),
          at limit size c (front ++ concat hs) rest,
        )
  unfolding read_tx_hashes copy_to
  read_tx_hashes_lem [] i c front rest done old e v ed fit r =
      ap (λ l. some (done ++ old, at limit size c l rest)) (sym (append-nil front))
  read_tx_hashes_lem (h ∷ hs) i c front rest done old e (eh, v) ed fit r =
      rw (regrouped, ◌>>=◌, reading, taken, stored, accessed)
        (read_tx_hashes_lem hs (suc i) c (front ++ h) rest (done ++ h) (drop (length h) old) false v
            (omega (arith, eh, length-append done h))
            (omega (arith, split, length-drop (length h) old))
            (omega (arith, split, length-append front h))
          ∙ (λ k. some (same k, at limit size c (append_assoc front h (concat hs) k) rest)))
    where
      split : length (h ++ concat hs) ≡ length h + length (concat hs)
      split = length-append h (concat hs)

      regrouped : (h ++ concat hs) ++ rest ≡ h ++ (concat hs ++ rest)
      regrouped = append_assoc h (concat hs) rest

      taken :
          read_data 32 (between front (h ++ (concat hs ++ rest)) limit size e)
          ≡ some (some h, between (front ++ h) (concat hs ++ rest) limit size false)
      taken =
          ap (λ n. read_data n (between front (h ++ (concat hs ++ rest)) limit size e)) (sym eh)
          ∙ read_data-between limit size h front (concat hs ++ rest) e (omega (arith, eh))
              (omega (arith, split))

      stored : copy_to (done ++ old) (32 * i) (some h) ≡ some ((done ++ h) ++ drop (length h) old)
      stored =
          ap (λ n. store (done ++ old) n h) (sym ed)
          ∙ store-append done old h (length done) refl (omega (arith, split))
          ∙ ap some (sym (append_assoc done h (drop (length h) old)))

      same :
          (done ++ h) ++ (concat hs ++ drop (length (concat hs)) (drop (length h) old))
          ≡ done ++ ((h ++ concat hs) ++ drop (length (h ++ concat hs)) old)
      same =
          append_assoc done h _
          ∙ ap (λ l. done ++ l) (sym (append_assoc h (concat hs) _))
          ∙ ap (λ l. done ++ ((h ++ concat hs) ++ l))
              (drop-drop (length h) (length (concat hs)) old ∙ ap (λ n. drop n old) (sym split))

-- What the miner can hold, as the source's arrays and integers have it.
pub record IsWork (p : WorkPacket) : Type 0 where
  pub version : p.version < 2 ^ 32
  pub height : p.height < 2 ^ 32
  pub n_bits : p.n_bits < 2 ^ 32
  pub target_compact : p.target_compact < 2 ^ 32
  pub target_share_compact : p.target_share_compact < 2 ^ 32
  pub n_time : p.n_time < 2 ^ 32
  pub prev_block_hash : length p.prev_block_hash ≡ 32
  pub merkle_root : length p.merkle_root ≡ 32
  pub part1 : length p.part1 ≤ 1024
  pub part2 : length p.part2 ≤ 1024
  pub hashes : count p.tx_hashes ≤ 4096
  pub hash : All (λ h. length h ≡ 32) p.tx_hashes

pub record HasArrays (i : BlockWorkInfo) : Type 0 where
  pub prev_block_hash : length i.prev_block_hash ≡ 32
  pub merkle_root : length i.merkle_root ≡ 32
  pub part1 : length i.coin_base1 ≡ 1024
  pub part2 : length i.coin_base2 ≡ 1024
  pub hashes : length i.tx_hashes ≡ 32 * 4096

-- The work that a packet stands for, over the arrays of `old`.
abbrev pub work_info : ℕ → ℕ → WorkPacket → BlockWorkInfo → BlockWorkInfo
work_info now algorithm p old = record {
  height = p.height;
  version = p.version;
  n_time = p.n_time;
  n_bits = p.n_bits;
  merkle_root = over p.merkle_root old.merkle_root;
  prev_block_hash = over p.prev_block_hash old.prev_block_hash;
  time_bias = sub32 p.n_time (now % 2 ^ 32);
  target =
      if algorithm == algorithm_riecoin then old.target else target_from_compact p.target_compact;
  target_share =
      if algorithm == algorithm_riecoin
      then old.target_share
      else target_from_compact p.target_share_compact;
  target_compact = p.target_compact;
  target_share_compact = p.target_share_compact;
  coin_base1_size = length p.part1;
  coin_base1 = over p.part1 old.coin_base1;
  coin_base2_size = length p.part2;
  coin_base2 = over p.part2 old.coin_base2;
  tx_hash_count = count p.tx_hashes;
  tx_hashes = over (concat p.tx_hashes) old.tx_hashes;
  time_work = now % 2 ^ 32;
}

pub length-concat :
    (hs : List (List ℕ)) → All (λ h. length h ≡ 32) hs → length (concat hs) ≡ 32 * count hs
length-concat [] v = refl
length-concat (h ∷ hs) (e, v) = omega (arith, e, length-append h (concat hs), length-concat hs v)

halves :
    (limit size : ℕ) (front a b : List ℕ)
    → Holds limit size front (length (a ++ b))
    → Holds limit size front (length a) × Holds limit size (front ++ a) (length b)
halves limit size front a b r = (
  omega (arith, r.fits, r.small, length-append a b),
  omega (arith, r.fits, r.small, length-append a b, length-append front a),
)

-- A work packet is taken over whole: where the client's receive buffer holds a packet with the bytes
-- of the work, whose coinbase parts have at most 1024 bytes and which has at most 4096 transaction
-- hashes, no read leaves the packet and no copy leaves its array, and the client's work is that of the
-- packet, every field and every hash, from the first slot on, with the targets computed for coins other than Riecoin.
pub block_data1_lem :
    (now limit size : ℕ) (c : Client) (p : WorkPacket) (header rest : List ℕ)
    → IsWork p
    → HasArrays c.block_work_info
    → length header ≡ 4
    → c.recv_buffer ≡ (record {
      buffer = header ++ work_bytes p rest;
      parser_index = c.recv_buffer.parser_index;
      buffer_limit = limit;
      buffer_size = size;
    })
    → 4 + length (work_bytes p []) ≤ size
    → size < 2 ^ 31
    → (pb : PacketBuffer) × (process_packet_block_data1 now c
        ≡ some (
          true,
          record c {
            recv_buffer = pb;
            block_work_info = work_info now c.algorithm p c.block_work_info;
            has_work_data = true;
          },
        ))
unfolding process_packet_block_data1 begin_read_packet
block_data1_lem now limit size c p header rest v arrays four eb fit small =
    let f0 : List ℕ = header in
    let h0 : Holds limit size f0 (length (work_bytes p [])) = record {
      fits = omega (arith, four);
      small = small;
    } in
    let (a1, h1) =
      halves limit size f0 (le_bytes 4 p.version)
        (le_bytes 4 p.height
          ++ (le_bytes 4 p.n_bits
              ++ (le_bytes 4 p.target_compact
                  ++ (le_bytes 4 p.target_share_compact
                      ++ (le_bytes 4 p.n_time
                          ++ (p.prev_block_hash ++ (p.merkle_root ++ (coin_base_bytes p []))))))))
        h0 in
    let f1 : List ℕ = f0 ++ le_bytes 4 p.version in
    let (a2, h2) =
      halves limit size f1 (le_bytes 4 p.height)
        (le_bytes 4 p.n_bits
          ++ (le_bytes 4 p.target_compact
              ++ (le_bytes 4 p.target_share_compact
                  ++ (le_bytes 4 p.n_time
                      ++ (p.prev_block_hash ++ (p.merkle_root ++ (coin_base_bytes p [])))))))
        h1 in
    let f2 : List ℕ = f1 ++ le_bytes 4 p.height in
    let (a3, h3) =
      halves limit size f2 (le_bytes 4 p.n_bits)
        (le_bytes 4 p.target_compact
          ++ (le_bytes 4 p.target_share_compact
              ++ (le_bytes 4 p.n_time
                  ++ (p.prev_block_hash ++ (p.merkle_root ++ (coin_base_bytes p []))))))
        h2 in
    let f3 : List ℕ = f2 ++ le_bytes 4 p.n_bits in
    let (a4, h4) =
      halves limit size f3 (le_bytes 4 p.target_compact)
        (le_bytes 4 p.target_share_compact
          ++ (le_bytes 4 p.n_time
              ++ (p.prev_block_hash ++ (p.merkle_root ++ (coin_base_bytes p [])))))
        h3 in
    let f4 : List ℕ = f3 ++ le_bytes 4 p.target_compact in
    let (a5, h5) =
      halves limit size f4 (le_bytes 4 p.target_share_compact)
        (le_bytes 4 p.n_time ++ (p.prev_block_hash ++ (p.merkle_root ++ (coin_base_bytes p []))))
        h4 in
    let f5 : List ℕ = f4 ++ le_bytes 4 p.target_share_compact in
    let (a6, h6) =
      halves limit size f5 (le_bytes 4 p.n_time)
        (p.prev_block_hash ++ (p.merkle_root ++ (coin_base_bytes p []))) h5 in
    let f6 : List ℕ = f5 ++ le_bytes 4 p.n_time in
    let (a7, h7) =
      halves limit size f6 p.prev_block_hash (p.merkle_root ++ (coin_base_bytes p [])) h6 in
    let f7 : List ℕ = f6 ++ p.prev_block_hash in
    let (a8, h8) = halves limit size f7 p.merkle_root (coin_base_bytes p []) h7 in
    let f8 : List ℕ = f7 ++ p.merkle_root in
    let (a9, h9) =
      halves limit size f8 (le_bytes 2 (length p.part1))
        (p.part1 ++ (le_bytes 2 (length p.part2) ++ (p.part2 ++ (hash_bytes p [])))) h8 in
    let f9 : List ℕ = f8 ++ le_bytes 2 (length p.part1) in
    let (a10, h10) =
      halves limit size f9 p.part1 (le_bytes 2 (length p.part2) ++ (p.part2 ++ (hash_bytes p [])))
        h9 in
    let f10 : List ℕ = f9 ++ p.part1 in
    let (a11, h11) =
      halves limit size f10 (le_bytes 2 (length p.part2)) (p.part2 ++ (hash_bytes p [])) h10 in
    let f11 : List ℕ = f10 ++ le_bytes 2 (length p.part2) in
    let (a12, h12) = halves limit size f11 p.part2 (hash_bytes p []) h11 in
    let f12 : List ℕ = f11 ++ p.part2 in
    let (a13, h13) =
      halves limit size f12 (le_bytes 2 (count p.tx_hashes)) (concat p.tx_hashes ++ []) h12 in
    let f13 : List ℕ = f12 ++ le_bytes 2 (count p.tx_hashes) in
    let (a14, h14) = halves limit size f13 (concat p.tx_hashes) [] h13 in
    let old = c.block_work_info in
    let hashes =
      read_tx_hashes_lem limit size p.tx_hashes 0 c f13 rest [] old.tx_hashes false v.hash refl
        (omega (arith, length-concat p.tx_hashes v.hash, v.hashes, arrays.hashes)) a14 in
    (
      (at limit size c (f13 ++ concat p.tx_hashes) rest).recv_buffer,
      rw
          (
            begun,
            process_packet_block_data1,
            ◌>>◌,
            ◌>>=◌,
            reading,
            u32-Takes limit size p.version v.version f0
                (le_bytes 4 p.height
                  ++ (le_bytes 4 p.n_bits
                      ++ (le_bytes 4 p.target_compact
                          ++ (le_bytes 4 p.target_share_compact
                              ++ (le_bytes 4 p.n_time
                                  ++ (p.prev_block_hash
                                      ++ (p.merkle_root ++ (coin_base_bytes p rest))))))))
                false a1,
            u32-Takes limit size p.height v.height f1
                (le_bytes 4 p.n_bits
                  ++ (le_bytes 4 p.target_compact
                      ++ (le_bytes 4 p.target_share_compact
                          ++ (le_bytes 4 p.n_time
                              ++ (p.prev_block_hash
                                  ++ (p.merkle_root ++ (coin_base_bytes p rest)))))))
                false a2,
            u32-Takes limit size p.n_bits v.n_bits f2
                (le_bytes 4 p.target_compact
                  ++ (le_bytes 4 p.target_share_compact
                      ++ (le_bytes 4 p.n_time
                          ++ (p.prev_block_hash ++ (p.merkle_root ++ (coin_base_bytes p rest))))))
                false a3,
            u32-Takes limit size p.target_compact v.target_compact f3
                (le_bytes 4 p.target_share_compact
                  ++ (le_bytes 4 p.n_time
                      ++ (p.prev_block_hash ++ (p.merkle_root ++ (coin_base_bytes p rest)))))
                false a4,
            u32-Takes limit size p.target_share_compact v.target_share_compact f4
                (le_bytes 4 p.n_time
                  ++ (p.prev_block_hash ++ (p.merkle_root ++ (coin_base_bytes p rest))))
                false a5,
            u32-Takes limit size p.n_time v.n_time f5
                (p.prev_block_hash ++ (p.merkle_root ++ (coin_base_bytes p rest))) false a6,
            hash-Takes limit size p.prev_block_hash v.prev_block_hash f6
                (p.merkle_root ++ (coin_base_bytes p rest)) false a7,
            hash-Takes limit size p.merkle_root v.merkle_root f7 (coin_base_bytes p rest) false a8,
            u16-Takes limit size (length p.part1) (omega (arith, v.part1)) f8
                (p.part1 ++ (le_bytes 2 (length p.part2) ++ (p.part2 ++ (hash_bytes p rest)))) false
                a9,
            data-Takes limit size p.part1 (omega (arith, v.part1)) f9
                (le_bytes 2 (length p.part2) ++ (p.part2 ++ (hash_bytes p rest))) false a10,
            u16-Takes limit size (length p.part2) (omega (arith, v.part2)) f10
                (p.part2 ++ (hash_bytes p rest)) false a11,
            data-Takes limit size p.part2 (omega (arith, v.part2)) f11 (hash_bytes p rest) false
                a12,
            u16-Takes limit size (count p.tx_hashes) (omega (arith, v.hashes)) f12
                (concat p.tx_hashes ++ rest) false a13,
            accessed,
            copy_to-front c.block_work_info.prev_block_hash p.prev_block_hash
                (omega (arith, v.prev_block_hash, arrays.prev_block_hash)),
            copy_to-front c.block_work_info.merkle_root p.merkle_root
                (omega (arith, v.merkle_root, arrays.merkle_root)),
            copy_to-front c.block_work_info.coin_base1 p.part1
                (omega (arith, v.part1, arrays.part1)),
            copy_to-front c.block_work_info.coin_base2 p.part2
                (omega (arith, v.part2, arrays.part2)),
            hashes,
          )
          refl,
    )
  where
    begun :
        begin_read_packet c.recv_buffer ≡ (between header (work_bytes p rest) limit size false).pb
    begun = ap begin_read_packet eb ∙ (λ i. record {
      buffer = header ++ work_bytes p rest;
      parser_index = sym four i;
      buffer_limit = limit;
      buffer_size = size;
    })
