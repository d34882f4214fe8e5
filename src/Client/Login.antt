-- ===== src/Client/Login.antt =====
-- Connecting sends the whole worker login.
use fastrie.Base.{
  ℕ, ◌+◌, ◌-◌, ◌*◌, ◌≤◌, ◌<◌, ◌≡◌, ◌≢◌, ◌⊎◌, inl, inr, refl, ◌∙◌, Bool, true, false, some, List, [],
  ◌∷◌, ◌++◌, take, length, length-append, length-take, length-le_bytes, le_bytes, ◌==◌, All, arith,
}
use fastrie.Packet.{PacketBuffer, prefix_width}
use fastrie.Packet.Fields.{text, encode, IsWritable}
use fastrie.Packet.RoundTrip.{packet_bytes}
use fastrie.Client.State.{Client, DevFeeEntry, no_work}
use fastrie.Client.Sending.{dev_fee_fields, login_fields, send_worker_login, connect}
use fastrie.Client.Sends.{
  IsSendable, IsSmall, sent, send_packet_lem, run->>, sizes, length-encode_all,
}

-- The entries that `xptClient_addDeveloperFeeEntry` adds.
abbrev pub AreEntries : List DevFeeEntry → Type 0
AreEntries ds = (length ds ≤ 8) × All (λ d. length d.pub_key_hash ≡ 20) ds

dev_fee_fields-IsWritable :
    (ds : List DevFeeEntry)
    → All (λ d. length d.pub_key_hash ≡ 20) ds
    → All IsWritable (dev_fee_fields ds)
unfolding dev_fee_fields
dev_fee_fields-IsWritable [] v = tt
dev_fee_fields-IsWritable (d ∷ ds) (e, v) = (tt, (omega (arith, e), dev_fee_fields-IsWritable ds v))

dev_fee_fields-size :
    (ds : List DevFeeEntry)
    → All (λ d. length d.pub_key_hash ≡ 20) ds
    → sizes (dev_fee_fields ds) ≡ 22 * length ds
unfolding dev_fee_fields encode
dev_fee_fields-size [] v = refl
dev_fee_fields-size (d ∷ ds) (e, v) =
    omega (arith, e, dev_fee_fields-size ds v, length-le_bytes 2 d.dev_fee)

-- A text takes at most two bytes more than it has characters.
text-size : (t : List ℕ) (max : ℕ) → length (encode (text t max)) ≤ 2 + length t
unfolding encode prefix_width
text-size t max = omega (
  arith,
  length-append (le_bytes (prefix_width (max - 1)) (length t)) t,
  length-le_bytes (prefix_width (max - 1)) (length t),
  width,
)
  where
    width : prefix_width (max - 1) ≤ 2
    width = ground arith

login_fields-IsSmall :
    (miner_version : List ℕ) (c : Client)
    → length miner_version < 45
    → length c.username < 128
    → length c.password < 128
    → AreEntries c.developer_fee_entry
    → IsSmall (login_fields miner_version c)
unfolding login_fields encode
login_fields-IsSmall miner_version c hv hu hp (few, es) = record {
  short = omega (
    arith,
    length-encode_all (login_fields miner_version c),
    length-le_bytes 4 6,
    text-size c.username 128,
    text-size c.password 128,
    text-size miner_version 45,
    length-le_bytes 1 (length c.developer_fee_entry),
    dev_fee_fields-size c.developer_fee_entry es,
  );
  writable = (
    tt,
    (
      (omega arith, omega arith),
      (
        (omega arith, omega arith),
        ((omega arith, omega arith), (tt, dev_fee_fields-IsWritable c.developer_fee_entry es)),
      ),
    ),
  );
}

-- The client once the socket is open, before the login is sent.
abbrev opened : Client → ℕ → List ℕ → List ℕ → Client
opened c socket auth_user auth_pass = record c {
  client_socket = socket;
  username = take 127 auth_user;
  password = take 127 auth_pass;
  block_work_info = no_work;
}

choose-true : {A : Type 0} → (b : Bool) (x y : A) → b ≡ true → (elim b [ true ↦ x | false ↦ y ]) ≡ x
choose-true b x y e = rw e refl

choose-false :
    {A : Type 0} → (b : Bool) (x y : A) → b ≡ false → (elim b [ true ↦ x | false ↦ y ]) ≡ y
choose-false b x y e = rw e refl

choose-same :
    {A : Type 0} → (b : Bool) (x y z : A) → x ≡ z → y ≡ z → (elim b [ true ↦ x | false ↦ y ]) ≡ z
choose-same true x y z hx hy = hx
choose-same false x y z hx hy = hy

≢_false : (n : ℕ) → n ≢ 0 → (n == 0) ≡ false
≢_false n h = ground arith

-- A client that is connected, and one whose socket is 0, stay as they are.
connect_refused :
    (miner_version : List ℕ) (socket : ℕ) (auth_user auth_pass : List ℕ) (c : Client)
    → (c.disconnected ≡ false) ⊎ (socket ≡ 0)
    → connect miner_version socket auth_user auth_pass c ≡ some (false, c)
unfolding connect
connect_refused miner_version socket auth_user auth_pass c (inl off) =
    choose-false c.disconnected _ _ off
connect_refused miner_version socket auth_user auth_pass c (inr zero) =
    choose-same c.disconnected _ _ _ (choose-true (socket == 0) _ _ (rw zero refl)) refl

-- Connecting a disconnected client with a socket other than 0, SOCKET_ERROR included, succeeds whatever the
-- length of the login data: for a miner version of less than 45 characters and well-formed fee entries, in a send buffer as
-- it is created, the socket is handed one whole login packet, with the names cut to 127 characters, no
-- byte is written outside the send buffer, old work is dropped, and the client is marked as connected.
pub connect_lem :
    (miner_version : List ℕ) (socket : ℕ) (auth_user auth_pass : List ℕ) (c : Client)
    → length miner_version < 45
    → AreEntries c.developer_fee_entry
    → IsSendable c.send_buffer
    → c.disconnected ≡ true
    → socket ≢ 0
    → (pb : PacketBuffer) × (connect miner_version socket auth_user auth_pass c
        ≡ some (
          true,
          record (opened c socket auth_user auth_pass) {
            send_buffer = pb;
            socket_calls =
                c.socket_calls
                ++ sent socket (
                    packet_bytes 1
                      (login_fields miner_version (opened c socket auth_user auth_pass))
                    ∷ []);
            disconnected = false;
          },
        ))
      × IsSendable pb
unfolding connect send_worker_login
connect_lem miner_version socket auth_user auth_pass c hv es v on nonzero =
    let (pb, e, v') =
      send_packet_lem 1 (login_fields miner_version new) new (omega arith)
        (login_fields-IsSmall miner_version new hv short_user short_pass es) v in
    (
      pb,
      choose-true c.disconnected _ _ on
          ∙ choose-false (socket == 0) _ _ (≢_false socket nonzero)
          ∙ run->> (send_worker_login miner_version)
              (λ d. some (true, record d { disconnected = false })) new _ e,
      v',
    )
  where
    new : Client
    new = opened c socket auth_user auth_pass

    short_user : length (take 127 auth_user) < 128
    short_user = omega (arith, length-take 127 auth_user)

    short_pass : length (take 127 auth_pass) < 128
    short_pass = omega (arith, length-take 127 auth_pass)
