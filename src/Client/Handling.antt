-- ===== src/Client/Handling.antt =====
-- The handlers of the other packets, and what `process` does with them.
use fastrie.Base.{
  ℕ, ◌+◌, ◌-◌, ◌/◌, ◌%◌, ◌^◌, ◌≤◌, ◌≡◌, ◌≢◌, refl, ◌∙◌, subst, sym, Bool, true, false, Option, some,
  ◌==◌, if◌then◌else◌, add32, ==_iff,
}
use fastrie.Packet.{M, read_float, read_u64, read_u32, read_u8, read_string, begin_read_packet}
use fastrie.Packet.ReadSafety.{
  IsReadable, IsSafe, read_float-IsSafe, read_u64-IsSafe, read_u32-IsSafe, read_u8-IsSafe,
  read_string-IsSafe,
}
use fastrie.Client.State.{Client, C, ◌>>=◌, ◌>>◌, return, choose, modify, reading, begin_reading}
use fastrie.Client.Handlers.{
  process_packet_auth_response, process_packet_share_ack, process_packet_message,
  process_packet_ping, logged_in,
}
use fastrie.Client.Process.{Surroundings, process_packet}

-- Between `c` and `c'` only what the handlers may change has changed: the receive buffer keeps its
-- bytes, size and limit, and the reception, the work, the connection and what is sent stay.
pub record Keeps (c c' : Client) : Type 0 where
  pub same_bytes : c'.recv_buffer.buffer ≡ c.recv_buffer.buffer
  pub same_size : c'.recv_buffer.buffer_size ≡ c.recv_buffer.buffer_size
  pub same_limit : c'.recv_buffer.buffer_limit ≡ c.recv_buffer.buffer_limit
  same_recv : (c'.recv_size ≡ c.recv_size) × (c'.recv_index ≡ c.recv_index)
  same_work : c'.block_work_info ≡ c.block_work_info
  same_socket : (c'.client_socket ≡ c.client_socket) × (c'.socket_calls ≡ c.socket_calls)
  same_queue : c'.share_submit_queue ≡ c.share_submit_queue

-- A run from `c` ends without a fault.
abbrev pub Completes : {A : Type 0} → Client → Option (A × Client) → Type 0
Completes {A} c o =
    (a : A) × (c' : Client) × (o ≡ some (a, c')) × IsReadable c'.recv_buffer × Keeps c c'

abbrev IsHarmless : {A : Type 0} → C A → Type 0
IsHarmless m = (c : Client) → IsReadable c.recv_buffer → Completes c (m c)

Keeps-refl : (c : Client) → Keeps c c
Keeps-refl c = record {
  same_bytes = refl;
  same_size = refl;
  same_limit = refl;
  same_recv = (refl, refl);
  same_work = refl;
  same_socket = (refl, refl);
  same_queue = refl;
}

Keeps-trans : {c d e : Client} → Keeps c d → Keeps d e → Keeps c e
Keeps-trans k l = record {
  same_bytes = l.same_bytes ∙ k.same_bytes;
  same_size = l.same_size ∙ k.same_size;
  same_limit = l.same_limit ∙ k.same_limit;
  same_recv = (l.same_recv.0 ∙ k.same_recv.0, l.same_recv.1 ∙ k.same_recv.1);
  same_work = l.same_work ∙ k.same_work;
  same_socket = (l.same_socket.0 ∙ k.same_socket.0, l.same_socket.1 ∙ k.same_socket.1);
  same_queue = l.same_queue ∙ k.same_queue;
}

return-IsHarmless : {A : Type 0} (a : A) → IsHarmless (return a)
return-IsHarmless a c v = (a, c, refl, v, Keeps-refl c)

>>=-IsHarmless :
    {A B : Type 0} (m : C A) (f : A → C B)
    → IsHarmless m
    → ((a : A) → IsHarmless (f a))
    → IsHarmless (m >>= f)
>>=-IsHarmless m f hm hf c v =
    let (a, c₁, e, v₁, k₁) = hm c v in
    let (b, c₂, e₂, v₂, k₂) = hf a c₁ v₁ in (b, c₂, rw (e, ◌>>=◌) e₂, v₂, Keeps-trans k₁ k₂)

>>-IsHarmless :
    {A B : Type 0} (m : C A) (k : C B) → IsHarmless m → IsHarmless k → IsHarmless (m >> k)
>>-IsHarmless m k hm hk c v =
    let (a, c₁, e, v₁, k₁) = hm c v in
    let (b, c₂, e₂, v₂, k₂) = hk c₁ v₁ in (b, c₂, rw (e, ◌>>◌) e₂, v₂, Keeps-trans k₁ k₂)

choose-IsHarmless :
    {A : Type 0} (b : Bool) (m k : C A) → IsHarmless m → IsHarmless k → IsHarmless (choose b m k)
choose-IsHarmless true m k hm hk = hm
choose-IsHarmless false m k hm hk = hk

reading-IsHarmless : {A : Type 0} (m : M A) (error : Bool) → IsSafe m → IsHarmless (reading m error)
reading-IsHarmless m error h c v =
    let (a, s, e, v', ad) = h (record { pb = c.recv_buffer; error = error }) v in
    (
      (a, s.error),
      record c { recv_buffer = s.pb },
      rw (reading, e) refl,
      v',
      record {
        same_bytes = ad.same_buffer;
        same_size = ad.same_size;
        same_limit = ad.same_limit;
        same_recv = (refl, refl);
        same_work = refl;
        same_socket = (refl, refl);
        same_queue = refl;
      },
    )

-- A packet with its four bytes of header.
begin-Completes :
    {B : Type 0} (k : C B) (c : Client)
    → IsReadable c.recv_buffer
    → 4 ≤ c.recv_buffer.buffer_size
    → IsHarmless k
    → Completes c ((begin_reading >> k) c)
unfolding begin_read_packet
begin-Completes k c v four hk =
    let (b, c', e, v', kp) =
      hk (record c { recv_buffer = begin_read_packet c.recv_buffer })
        (record { in_block = v.in_block; in_packet = four; small = v.small }) in
    (
      b,
      c',
      e,
      v',
      record {
        same_bytes = kp.same_bytes;
        same_size = kp.same_size;
        same_limit = kp.same_limit;
        same_recv = kp.same_recv;
        same_work = kp.same_work;
        same_socket = kp.same_socket;
        same_queue = kp.same_queue;
      },
    )

-- A change of the fields that the handlers own.
modify-IsHarmless :
    (f : Client → Client)
    → ((c : Client) → ((f c).recv_buffer ≡ c.recv_buffer) × Keeps c (f c))
    → IsHarmless (modify f)
modify-IsHarmless f h c v =
    let (e, k) = h c in (tt, f c, refl, subst (λ pb. IsReadable pb) (sym e) v, k)

login-IsHarmless :
    (state due : ℕ)
    → IsHarmless (modify (λ c. record c { client_state = state; time_send_ping = due }))
login-IsHarmless state due =
    modify-IsHarmless (λ c. record c { client_state = state; time_send_ping = due })
      λ c. (
        refl,
        record {
          same_bytes = refl;
          same_size = refl;
          same_limit = refl;
          same_recv = (refl, refl);
          same_work = refl;
          same_socket = (refl, refl);
          same_queue = refl;
        },
      )

algorithm-IsHarmless :
    (algorithm : ℕ) → IsHarmless (modify (λ c. record c { algorithm = algorithm }))
algorithm-IsHarmless algorithm =
    modify-IsHarmless (λ c. record c { algorithm = algorithm })
      λ c. (
        refl,
        record {
          same_bytes = refl;
          same_size = refl;
          same_limit = refl;
          same_recv = (refl, refl);
          same_work = refl;
          same_socket = (refl, refl);
          same_queue = refl;
        },
      )

rejected-IsHarmless :
    (f : ℕ → ℕ)
    → IsHarmless
        (modify (λ c. record c { total_rejected_share_count = f c.total_rejected_share_count }))
rejected-IsHarmless f =
    modify-IsHarmless
      (λ c. record c { total_rejected_share_count = f c.total_rejected_share_count })
      λ c. (
        refl,
        record {
          same_bytes = refl;
          same_size = refl;
          same_limit = refl;
          same_recv = (refl, refl);
          same_work = refl;
          same_socket = (refl, refl);
          same_queue = refl;
        },
      )

ping-IsHarmless :
    (f g : ℕ → ℕ)
    → IsHarmless (modify (λ c. record c { ping_sum = f c.ping_sum; ping_count = g c.ping_count }))
ping-IsHarmless f g =
    modify-IsHarmless (λ c. record c { ping_sum = f c.ping_sum; ping_count = g c.ping_count })
      λ c. (
        refl,
        record {
          same_bytes = refl;
          same_size = refl;
          same_limit = refl;
          same_recv = (refl, refl);
          same_work = refl;
          same_socket = (refl, refl);
          same_queue = refl;
        },
      )

auth_response-Completes :
    (now : ℕ) (c : Client)
    → IsReadable c.recv_buffer
    → 4 ≤ c.recv_buffer.buffer_size
    → Completes c (process_packet_auth_response now c)
unfolding process_packet_auth_response
auth_response-Completes now c v four = begin-Completes _ c v four (
    >>=-IsHarmless (reading read_u32 false) _ (reading-IsHarmless read_u32 false read_u32-IsSafe)
      λ (code, error). choose-IsHarmless error _ _ (return-IsHarmless false) (
        >>=-IsHarmless (reading (read_string 512) error) _
          (reading-IsHarmless (read_string 512) error (read_string-IsSafe 512))
          λ (_, error'). choose-IsHarmless error' _ _ (return-IsHarmless false) (
            choose-IsHarmless (code == 0) _ _
              (>>-IsHarmless _ _ (login-IsHarmless logged_in ((now + 60) % 2 ^ 32)) (
                >>=-IsHarmless (reading read_u8 error') _
                  (reading-IsHarmless read_u8 error' read_u8-IsSafe)
                  λ (algorithm, _).
                    >>-IsHarmless _ _ (algorithm-IsHarmless algorithm) (return-IsHarmless true)))
              (return-IsHarmless false))))

share_ack-Completes :
    (c : Client)
    → IsReadable c.recv_buffer
    → 4 ≤ c.recv_buffer.buffer_size
    → Completes c (process_packet_share_ack c)
unfolding process_packet_share_ack
share_ack-Completes c v four = begin-Completes _ c v four (
    >>=-IsHarmless (reading read_u32 false) _ (reading-IsHarmless read_u32 false read_u32-IsSafe)
      λ (code, error). choose-IsHarmless error _ _ (return-IsHarmless false) (
        >>=-IsHarmless (reading (read_string 512) error) _
          (reading-IsHarmless (read_string 512) error (read_string-IsSafe 512))
          λ (_, error₁).
            >>=-IsHarmless (reading read_float error₁) _
              (reading-IsHarmless read_float error₁ read_float-IsSafe)
              λ (_, error₂). choose-IsHarmless error₂ _ _ (return-IsHarmless false) (
                choose-IsHarmless (code == 0) _ _ (return-IsHarmless true) (
                  >>-IsHarmless _ _ (rejected-IsHarmless (λ n. add32 n 1))
                    (return-IsHarmless true)))))

message-Completes :
    (c : Client)
    → IsReadable c.recv_buffer
    → 4 ≤ c.recv_buffer.buffer_size
    → Completes c (process_packet_message c)
unfolding process_packet_message
message-Completes c v four = begin-Completes _ c v four (
    >>=-IsHarmless (reading read_u8 false) _ (reading-IsHarmless read_u8 false read_u8-IsSafe)
      λ (_, error). choose-IsHarmless error _ _ (return-IsHarmless false) (
        >>=-IsHarmless (reading (read_string 1024) error) _
          (reading-IsHarmless (read_string 1024) error (read_string-IsSafe 1024))
          λ (_, error').
            choose-IsHarmless error' _ _ (return-IsHarmless false) (return-IsHarmless true)))

ping-Completes :
    (timestamp_now : ℕ) (c : Client)
    → IsReadable c.recv_buffer
    → 4 ≤ c.recv_buffer.buffer_size
    → Completes c (process_packet_ping timestamp_now c)
unfolding process_packet_ping
ping-Completes timestamp_now c v four = begin-Completes _ c v four (
    >>=-IsHarmless (reading read_u64 false) _ (reading-IsHarmless read_u64 false read_u64-IsSafe)
      λ (timestamp, error). choose-IsHarmless error _ _ (return-IsHarmless false) (
        >>-IsHarmless _ _
          (ping-IsHarmless
            (λ n. (n + (timestamp_now + 2 ^ 64 - timestamp) % 2 ^ 64 / 100000) % 2 ^ 64)
            (λ n. add32 n 1))
          (return-IsHarmless true)))

if-Completes :
    {A : Type 0} (b : Bool) (c : Client) (x y : Option (A × Client))
    → (b ≡ true → Completes c x)
    → (b ≡ false → Completes c y)
    → Completes c (if b then x else y)
if-Completes true c x y hx hy = hx refl
if-Completes false c x y hx hy = hy refl

-- A received packet with any opcode but that of work data, whatever its bytes: its handler returns, and
-- reads nothing outside the packet; the receive buffer keeps its bytes, size and limit, and the
-- reception, the work, the connection and the share queue stay as they were.
pub process_packet_lem :
    (w : Surroundings) (c : Client)
    → IsReadable c.recv_buffer
    → 4 ≤ c.recv_buffer.buffer_size
    → c.opcode ≢ 3
    → Completes c (process_packet w c)
unfolding process_packet
process_packet_lem w c v four other =
    if-Completes (c.opcode == 2) c _ _ (λ _. auth_response-Completes w.now c v four)
      λ _.
        if-Completes (c.opcode == 3) c _ _ (λ e. absurd (other ((==_iff c.opcode 3).0 e)))
          λ _.
            if-Completes (c.opcode == 5) c _ _ (λ _. share_ack-Completes c v four)
              λ _.
                if-Completes (c.opcode == 7) c _ _ (λ _. message-Completes c v four)
                  λ _.
                    if-Completes (c.opcode == 8) c _ _
                      (λ _. ping-Completes w.high_res_time c v four) λ _. return-IsHarmless true c v
