-- ===== src/Client/Sends.antt =====
-- What the client sends: whole packets, one per share and in the order of the queue.
use fastrie.Base.{
  ℕ, ◌+◌, ◌*◌, ◌≤◌, ◌<◌, ◌≡◌, refl, ◌∙◌, sym, ap, Bool, true, false, Option, none, some, List, [],
  ◌∷◌, ◌++◌, take, drop, length, length-append, length-drop, length-take, append_assoc, append-nil,
  take-append_length, length-le_bytes, le_bytes, store_inside, ◌%◌, ◌==◌, if◌then◌else◌, All, arith,
}
use fastrie.Packet.{PacketBuffer, begin_write_packet}
use fastrie.Packet.WriteSafety.{write_all_lem}
use fastrie.Packet.Fields.{Field, encode_all, encode, IsWritable}
use fastrie.Packet.RoundTrip.{build_lem, CanBuild, packet_bytes, finished}
use fastrie.SimpleList.Contents.{contents}
use fastrie.Client.State.{Client, ShareToSubmit, SocketCall, send, C, ◌>>◌, choose, modify}
use fastrie.Client.Handlers.{algorithm_riecoin}
use fastrie.Client.Sending.{send_packet, share_fields, common_fields, begin_packet, send_share}
use fastrie.Client.Process.{Surroundings, send_shares, submit_shares}

-- A send buffer as `xptClient_create` makes it.
pub record IsSendable (pb : PacketBuffer) : Type 0 where
  pub limit : pb.buffer_limit ≡ 256 * 1024
  pub allocated : pb.buffer_limit ≤ length pb.buffer

-- The fields of a packet that the senders build.
pub record IsSmall (fs : List Field) : Type 0 where
  pub short : length (encode_all fs) ≤ 1024
  pub writable : All IsWritable fs

unfoldable pub sent : ℕ → List (List ℕ) → List SocketCall
sent socket [] = []
sent socket (p ∷ ps) = send socket p ∷ sent socket ps

-- A run from `c` sends the packets `ps` in this order and changes nothing else but the contents of the
-- send buffer.
abbrev pub Sends : Client → List (List ℕ) → Option (Unit {0} × Client) → Type 0
Sends c ps o =
    (pb : PacketBuffer) × (o
      ≡ some (
        tt,
        record c { send_buffer = pb; socket_calls = c.socket_calls ++ sent c.client_socket ps },
      ))
    × IsSendable pb

finished-length :
    (opcode : ℕ) (fs : List Field) (pb : PacketBuffer)
    → 4 + length (encode_all fs) ≤ length pb.buffer
    → length pb.buffer ≤ length (finished opcode fs pb).buffer
finished-length opcode fs pb h = omega (
  arith,
  length-append (packet_bytes opcode fs) (drop (length (encode_all fs)) (drop 4 pb.buffer)),
  length-append (le_bytes 4 (opcode + length (encode_all fs) * 256)) (encode_all fs),
  length-le_bytes 4 (opcode + length (encode_all fs) * 256),
  length-drop (length (encode_all fs)) (drop 4 pb.buffer),
  length-drop 4 pb.buffer,
)

-- What `send` is given of the finished packet.
finished-bytes :
    (opcode : ℕ) (fs : List Field) (pb : PacketBuffer)
    → take (finished opcode fs pb).parser_index (finished opcode fs pb).buffer
      ≡ packet_bytes opcode fs
finished-bytes opcode fs pb =
    ap (λ n. take n (finished opcode fs pb).buffer) position
    ∙ take-append_length (packet_bytes opcode fs) (drop (length (encode_all fs)) (drop 4 pb.buffer))
  where
    position : 4 + length (encode_all fs) ≡ length (packet_bytes opcode fs)
    position = omega (
      arith,
      length-append (le_bytes 4 (opcode + length (encode_all fs) * 256)) (encode_all fs),
      length-le_bytes 4 (opcode + length (encode_all fs) * 256),
    )

pub send_packet_lem :
    (opcode : ℕ) (fs : List Field) (c : Client)
    → opcode < 256
    → IsSmall fs
    → IsSendable c.send_buffer
    → Sends c (packet_bytes opcode fs ∷ []) (send_packet opcode fs c)
unfolding send_packet sent
send_packet_lem opcode fs c ho small v = (
  finished opcode fs c.send_buffer,
  rw (build_lem opcode fs c.send_buffer able, send_packet)
      (ap
        (λ (bs : List ℕ). some (
          tt,
          record c {
            send_buffer = finished opcode fs c.send_buffer;
            socket_calls = c.socket_calls ++ (send c.client_socket bs ∷ []);
          },
        ))
        (finished-bytes opcode fs c.send_buffer)),
  record {
    limit = v.limit;
    allocated = omega (
      arith,
      v.allocated,
      v.limit,
      small.short,
      finished-length opcode fs c.send_buffer (omega (arith, v.allocated, v.limit, small.short)),
    );
  },
)
  where
    able : CanBuild opcode fs c.send_buffer
    able = record {
      opcode_byte = ho;
      data_small = omega (arith, small.short);
      room = omega (arith, small.short, v.limit);
      allocated = v.allocated;
      limit_small = omega (arith, v.limit);
      writable = small.writable;
    }

pub run->> :
    {B : Type 0}
    → (m : C (Unit {0})) (k : C B) (c c' : Client) → m c ≡ some (tt, c')
    → (m >> k) c ≡ k c'
run->> m k c c' e = rw (e, ◌>>◌) refl

-- One run behind another.
sent-append :
    (socket : ℕ) (ps qs : List (List ℕ)) → sent socket (ps ++ qs) ≡ sent socket ps ++ sent socket qs
unfolding sent
sent-append socket [] qs = refl
sent-append socket (p ∷ ps) qs = ap (λ l. send socket p ∷ l) (sent-append socket ps qs)

Sends-trans :
    (c : Client) (m k : C (Unit {0})) (ps qs : List (List ℕ))
    → Sends c ps (m c)
    → ((pb : PacketBuffer)
        → IsSendable pb
        → Sends
            (record c {
              send_buffer = pb;
              socket_calls = c.socket_calls ++ sent c.client_socket ps;
            })
            qs
            (k (record c {
              send_buffer = pb;
              socket_calls = c.socket_calls ++ sent c.client_socket ps;
            })))
    → Sends c (ps ++ qs) ((m >> k) c)
Sends-trans c m k ps qs (pb, e, v) hk =
    let (pb', e', v') = hk pb v in
    (
      pb',
      rw (e, ◌>>◌)
          (e'
            ∙ ap
                (λ (l : List SocketCall).
                  some (tt, record c { send_buffer = pb'; socket_calls = l }))
                (append_assoc c.socket_calls (sent c.client_socket ps) (sent c.client_socket qs)
                  ∙ ap (λ l. c.socket_calls ++ l) (sym (sent-append c.client_socket ps qs)))),
      v',
    )

-- A share as `xptMiner_submitShare` makes it.
pub record IsShare (s : ShareToSubmit) : Type 0 where
  pub merkle_root : length s.merkle_root ≡ 32
  pub prev_block_hash : length s.prev_block_hash ≡ 32
  pub riecoin_n_offset : length s.riecoin_n_offset ≡ 32
  pub merkle_root_original : length s.merkle_root_original ≡ 32
  pub user_extra_nonce : s.user_extra_nonce_length ≤ 16

abbrev pub sizes : List Field → ℕ
sizes [] = 0
sizes (f ∷ fs) = length (encode f) + sizes fs

pub length-encode_all : (fs : List Field) → length (encode_all fs) ≡ sizes fs
unfolding encode_all
length-encode_all [] = refl
length-encode_all (f ∷ fs) =
    length-append (encode f) (encode_all fs)
    ∙ ap (λ n. length (encode f) + n) (length-encode_all fs)

share_fields-IsSmall : (s : ShareToSubmit) → IsShare s → IsSmall (share_fields s)
unfolding share_fields encode
share_fields-IsSmall s v = record {
  short = omega (
    arith,
    length-encode_all (share_fields s),
    length-le_bytes 4 s.version,
    length-le_bytes 4 s.n_time,
    length-le_bytes 4 s.nonce,
    length-le_bytes 4 s.n_bits,
    length-le_bytes 1 s.user_extra_nonce_length,
    length-le_bytes 4 0,
    nonce,
  );
  writable = (
    omega (arith, v.merkle_root),
    (
      omega (arith, v.prev_block_hash),
      (
        tt,
        (
          tt,
          (
            tt,
            (
              tt,
              (
                omega (arith, v.riecoin_n_offset),
                (omega (arith, v.merkle_root_original), (tt, (omega (arith, nonce), (tt, tt)))),
              ),
            ),
          ),
        ),
      ),
    ),
  );
}
  where
    nonce : length (take s.user_extra_nonce_length s.user_extra_nonce_data) ≤ 16
    nonce =
        omega
          (arith, length-take s.user_extra_nonce_length s.user_extra_nonce_data, v.user_extra_nonce)

-- What is sent of a share: one packet, or nothing if it is for another algorithm.
unfoldable pub share_packet : ShareToSubmit → List (List ℕ)
share_packet s =
    if s.algorithm == algorithm_riecoin then packet_bytes 4 (share_fields s) ∷ [] else []

-- And of the shares that the pointers lead to.
unfoldable pub share_packets : (ℕ → Option ShareToSubmit) → List ℕ → List (List ℕ)
share_packets heap [] = []
share_packets heap (p ∷ ps) = elim (heap p) [
  | none ↦ share_packets heap ps
  | some s ↦ share_packet s ++ share_packets heap ps
]

-- Every pointer leads to a share.
abbrev AllShares : (ℕ → Option ShareToSubmit) → List ℕ → Type 0
AllShares heap ps = All (λ p. (s : ShareToSubmit) × (heap p ≡ some s) × IsShare s) ps

Sends-none : (c : Client) → IsSendable c.send_buffer → Sends c [] (some (tt, c))
unfolding sent
Sends-none c v = (
  c.send_buffer,
  ap (λ (l : List SocketCall). some (tt, record c { socket_calls = l }))
      (sym (append-nil c.socket_calls)),
  v,
)

-- A packet that is begun changes the contents of the send buffer only, whatever its fields.
begin_packet_lem :
    (opcode : ℕ) (fs : List Field) (c : Client)
    → IsSendable c.send_buffer
    → Sends c [] (begin_packet opcode fs c)
unfolding begin_packet begin_write_packet sent
begin_packet_lem opcode fs c v =
    let (buffer, e, same) =
      store_inside c.send_buffer.buffer 0 (le_bytes 4 (opcode % 256))
        (omega (arith, length-le_bytes 4 (opcode % 256), v.allocated, v.limit)) in
    let (s, e', w, kept, moved) =
      write_all_lem fs
        (record {
          pb = record (c.send_buffer) { buffer = buffer; parser_index = 4 };
          error = false;
        })
        (record {
          in_block = omega (arith, same, v.allocated);
          in_limit = omega (arith, v.limit);
          small = omega (arith, v.limit);
        }) in
    (
      s.pb,
      rw (begin_packet, begin_write_packet, e)
          (rw e' (
            ap
              (λ (l : List SocketCall).
                some (tt, record c { send_buffer = s.pb; socket_calls = l }))
              (sym (append-nil c.socket_calls)))),
      record { limit = kept ∙ v.limit; allocated = w.in_block },
    )

choose-Sends :
    (b : Bool) (c : Client) (ps qs : List (List ℕ)) (m k : C (Unit {0}))
    → Sends c ps (m c)
    → Sends c qs (k c)
    → Sends c (if b then ps else qs) (choose b m k c)
choose-Sends true c ps qs m k h h' = h
choose-Sends false c ps qs m k h h' = h'

send_share_lem :
    (s : ShareToSubmit) (c : Client)
    → IsShare s
    → IsSendable c.send_buffer
    → Sends c (share_packet s) (send_share s c)
unfolding send_share share_packet
send_share_lem s c vs v =
    choose-Sends (s.algorithm == algorithm_riecoin) c _ [] (send_packet 4 (share_fields s))
      (begin_packet 4 (common_fields s))
      (send_packet_lem 4 (share_fields s) c (omega arith) (share_fields-IsSmall s vs) v)
      (begin_packet_lem 4 (common_fields s) c v)

send_shares_lem :
    (w : Surroundings) (ps : List ℕ) (c : Client)
    → AllShares w.heap ps
    → IsSendable c.send_buffer
    → Sends c (share_packets w.heap ps) (send_shares w ps c)
unfolding send_shares share_packets
send_shares_lem w [] c vs v = Sends-none c v
send_shares_lem w (p ∷ ps) c ((s, e, vs), vss) v =
    rw (e, share_packets, send_shares)
      (Sends-trans c (send_share s) (send_shares w ps) (share_packet s) (share_packets w.heap ps)
        (send_share_lem s c vs v) (λ pb vb. send_shares_lem w ps _ vss vb))

-- `xptClient_process` submits the queued shares: where every pointer of the queue leads to a share, one
-- whole packet per Riecoin share is handed to the socket, in the order of the queue, and none for
-- shares of other algorithms; no byte is written outside the send buffer, the queue is empty
-- afterwards, and nothing else in the client changes.
pub submit_shares_lem :
    (w : Surroundings) (c : Client)
    → AllShares w.heap (contents c.share_submit_queue)
    → IsSendable c.send_buffer
    → (c' : Client) × (submit_shares w c ≡ some (tt, c'))
      × (contents c'.share_submit_queue ≡ [])
      × (c' ≡ record c {
        send_buffer = c'.send_buffer;
        socket_calls =
            c.socket_calls
            ++ sent c.client_socket (share_packets w.heap (contents c.share_submit_queue));
        share_submit_queue = record (c.share_submit_queue) { object_count = 0 };
      })
unfolding submit_shares
submit_shares_lem w c vs v =
    let (pb, e, v') = send_shares_lem w (contents c.share_submit_queue) c vs v in
    (
      record c {
        send_buffer = pb;
        socket_calls =
            c.socket_calls
            ++ sent c.client_socket (share_packets w.heap (contents c.share_submit_queue));
        share_submit_queue = record (c.share_submit_queue) { object_count = 0 };
      },
      run->> (send_shares w (contents c.share_submit_queue))
          (modify (λ d. record d {
            share_submit_queue = record (d.share_submit_queue) { object_count = 0 };
          }))
          c _ e,
      refl,
      refl,
    )
