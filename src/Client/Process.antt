-- ===== src/Client/Process.antt =====
-- `xptClient_process`: shares, pings and the reception of packets, one call at a time.
use fastrie.Base.{
  ℕ, ◌+◌, ◌-◌, ◌*◌, ◌%◌, ◌^◌, Bool, true, false, Option, none, some, List, [], ◌∷◌, ◌++◌, take,
  length, store, load, le_value, add32, sub32, ltb, leb, ◌==◌, ◌&&◌, if◌then◌else◌, not,
}
use fastrie.Packet.{PacketBuffer, change_size_limit}
use fastrie.Packet.Header.{header_opcode, header_size}
use fastrie.Client.State.{Client, ShareToSubmit, close_socket, C, ◌>>◌, return, choose, modify}
use fastrie.Client.Handlers.{
  process_packet_auth_response, process_packet_block_data1, process_packet_share_ack,
  process_packet_message, process_packet_ping,
}
use fastrie.Client.Sending.{send_share, send_ping}

-- What one call learns from its surroundings: `time(NULL)`, `getTimeHighRes()`, what the share pointers
-- lead to, and the memory of `n` bytes that `realloc` adds.
pub record Surroundings : Type 0 where
  pub now : ℕ
  pub high_res_time : ℕ
  pub heap : ℕ → Option ShareToSubmit
  pub fresh : ℕ → List ℕ

-- The outcome of `recv`: 0 or a real error, no data yet (`EAGAIN`), or at least one byte.
pub data Recv : Type 0 where
  lost waiting : Recv
  got : ℕ → List ℕ → Recv

unfoldable pub process_packet : Surroundings → C Bool
process_packet w c =
    if c.opcode == 2
    then process_packet_auth_response w.now c
    else if c.opcode == 3
    then process_packet_block_data1 w.now c
    else if c.opcode == 5
    then process_packet_share_ack c
    else if c.opcode == 7
    then process_packet_message c
    else if c.opcode == 8
    then process_packet_ping w.high_res_time c
    else some (true, c)

-- `free` is not modelled.
unfoldable pub send_shares : Surroundings → List ℕ → C (Unit {0})
unfolding send_share
send_shares w [] = return tt
send_shares w (p ∷ ps) = elim (w.heap p) [
  | none ↦ (λ _. none)
  | some share ↦ (do send_share share; send_shares w ps)
]

unfoldable pub submit_shares : Surroundings → C (Unit {0})
unfolding send_shares
submit_shares w c =
    (do
      send_shares w (take c.share_submit_queue.object_count c.share_submit_queue.objects)
      modify (λ c. record c {
        share_submit_queue = record (c.share_submit_queue) { object_count = 0 };
      }))
      c

unfoldable ping_when_due : Surroundings → C (Unit {0})
unfolding send_ping
ping_when_due w c =
    choose (not (c.time_send_ping == 0) && leb c.time_send_ping (w.now % 2 ^ 32))
      (do
        send_ping w.high_res_time
        modify (λ c. record c { time_send_ping = add32 (w.now % 2 ^ 32) 120 }))
      (return tt) c

unfoldable pub packet_full_size : Client → ℕ
packet_full_size c = 4 + c.recv_size

unfoldable bytes_to_receive : Client → ℕ
unfolding packet_full_size
bytes_to_receive c = sub32 (packet_full_size c) c.recv_index

abbrev forget_packet : Client → Client
forget_packet c = record c { recv_index = 0; recv_size = 0; opcode = 0 }

abbrev hang_up : Client → Client
hang_up c = record (forget_packet c) {
  client_socket = if c.client_socket == 0 then c.client_socket else 0;
  socket_calls =
      (if c.client_socket == 0
        then c.socket_calls
        else c.socket_calls ++ (close_socket c.client_socket ∷ []));
  disconnected = true;
}

-- `process packet`
unfoldable pub deliver : Surroundings → C Bool
unfolding process_packet
deliver w c = elim (process_packet w c) [
  | none ↦ none
  | some (false, c') ↦ some (false, hang_up c')
  | some (true, c') ↦ some (true, forget_packet c')
]

-- `have we received the full packet?`
unfoldable pub handle_full_packet : Surroundings → C Bool
unfolding deliver
handle_full_packet w c = elim (leb (add32 c.recv_size 4) c.recv_index) [
  | false ↦ some (true, c)
  | true ↦
      deliver w
        (record c { recv_buffer = record (c.recv_buffer) { buffer_size = add32 c.recv_size 4 } })
]

unfoldable pub enlarged : Surroundings → PacketBuffer → ℕ → PacketBuffer
unfolding change_size_limit
enlarged w pb n =
    if ltb pb.buffer_limit n then change_size_limit pb n (w.fresh (n - pb.buffer_limit)) else pb

-- `process header`, with the four bytes of the header.
unfoldable pub handle_header : Surroundings → ℕ → C Bool
unfolding header_opcode header_size enlarged handle_full_packet
handle_header w header c =
    if leb (1024 * 1024 * 2 - 4) (header_size header)
    then some (false, c)
    else handle_full_packet w (record c {
      recv_size = header_size header;
      opcode = header_opcode header;
      recv_buffer = enlarged w c.recv_buffer (add32 (header_size header) 4);
    })

-- What follows a `recv` that stored bytes; `full_size` is from before it.
unfoldable pub after_recv : Surroundings → ℕ → C Bool
unfolding handle_header handle_full_packet
after_recv w full_size c =
    if c.recv_index == full_size && full_size == 4
    then elim (load c.recv_buffer.buffer 0 4) [
      | none ↦ none
      | some header ↦ handle_header w (le_value header) c
    ]
    else handle_full_packet w c

-- `recv` delivers the bytes `b ∷ bs`.
unfoldable pub receive : Surroundings → List ℕ → C Bool
unfolding packet_full_size after_recv
receive w bs c = elim (store c.recv_buffer.buffer c.recv_index bs) [
  | none ↦ none
  | some buffer ↦ after_recv w (packet_full_size c) (record c {
    recv_buffer = record (c.recv_buffer) { buffer = buffer };
    recv_index = add32 c.recv_index (length bs);
  })
]

-- `xptClient` is not NULL here. `recv` is what `recv(..., bytes_to_receive c, 0)` does.
unfoldable pub process : Surroundings → Recv → C Bool
unfolding submit_shares ping_when_due receive
process w recv = do
  submit_shares w
  ping_when_due w
  elim recv [
    | lost ↦ (λ c. some (false, record c { disconnected = true }))
    | waiting ↦ return true
    | got b bs ↦ receive w (b ∷ bs)
  ]
