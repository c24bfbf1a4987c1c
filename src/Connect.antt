-- ===== src/Connect.antt =====
-- How an entry connects to an exit (tuna.go): `wrapUDPConn`, `UpdateServerConn` and
-- `CreateServerConn`. What the network, the chain and the wallet answer are arguments.
pub mod Server
pub mod Chosen
use mathlib.Core.Option
use tuna.Common.Int.{ℤ, pos, negsuc, ltb_ℤ}
use tuna.Common.Dict.{Dict, lookup}
use tuna.Net.{itoa}
use tuna.Wire.{ServiceMetadata, ConnectionMetadata}
use tuna.Conn.{KeyOps, Host, Exchange, Channel, Wrapped, wrap_conn}
use tuna.Udp.{CipherOps, UdpConn, add_codec}
use tuna.Payment.{parse_price}
use tuna.Common.{
  ℕ, zero, suc, ◌+◌, ◌-◌, ◌*◌, ◌/◌, ◌%◌, ◌^◌, ◌≤◌, ◌<◌, ◌≡◌, refl, sym, ap, ◌∙◌, subst, ◌≢◌, ◌↔◌,
  ◌⊎◌, inl, inr, Bool, true, false, not, ◌&&◌, ◌||◌, Option, none, some, List, [], ◌∷◌, ◌++◌,
  append_assoc, append-nil, arith, ltb, leb, ◌==◌, if◌then◌else◌, ltb→lt, lt→ltb, leb→le, le→leb,
  ==_iff, tests, Bool-cases, Option-cases, if_ind, option_ind, ◌>>=◌, >>=-eq-some, length,
  get_elem?, take, drop, length-append, length-take-le, length-take, take-append-drop,
  take-length-append, drop-length-append, get_elem?-some, get_elem?-none, All, All-append, All-take,
  Any, Text, codes, is_empty, text_eq, to_lower, text_eq_iff, text_eq_refl, is_empty→nil,
}

pub record TcpConn : Type 0 where
  pub channel : Channel
  pub is_closed : Bool

-- The fields of `Common` that a connection is made of. `notified` counts the calls of
-- `OnConnect.receive`. The metadata is set before a connection is made.
pub record Client : Type 0 where
  pub host : Host
  pub service_udp : List ℕ
  pub reverse_metadata : Option (List ℕ × List ℕ)
  pub metadata : ServiceMetadata
  pub remote_nkn_address : Text
  pub payment_receiver : Text
  pub prices : ℤ × ℤ
  pub tcp_conn : Option TcpConn
  pub udp_conn : Option UdpConn
  pub connected : Bool
  pub notified : ℕ

-- What an attempt to connect meets: whether the dials succeed, the handshake, whether the i-th copy of
-- the UDP metadata can be written, and the text that `net.ParseIP` and `UDPAddr.String` make of an IP
-- and a port, which for a host name has no IP.
pub record Attempt : Type 0 where
  pub tcp_ok : Bool
  pub exchange : Exchange
  pub udp_ok : Bool
  pub udp_write_ok : ℕ → Bool
  pub addr_string : Text → ℕ → Text

abbrev pub new_udp_conn : UdpConn
new_udp_conn = record { encoders = []; decoders = []; is_closed = false }

-- the codec for the exit, with the key of the handshake
unfoldable pub add_exit_codec : CipherOps → Host → Text → Text → UdpConn → Option UdpConn
add_exit_codec ops h addr key_id conn = do
  key ← lookup key_id h.encrypt_keys
  add_codec ops addr key h.encryption_algo true conn

-- what `wrapUDPConn` is called with: a `*net.UDPConn`, or a connection with codecs
pub data UdpSocket : Type 0 where
  plain_socket : UdpSocket
  encrypted_socket : UdpConn → UdpSocket

pub data WrappedUdp : Type 0 where
  wrapped_udp : UdpConn → WrappedUdp
  udp_error udp_panic : WrappedUdp

-- the type assertion: a server has a connection with codecs already, and a client a plain one, or it is a
-- panic
unfoldable pub assert_socket : Bool → UdpSocket → Option UdpConn
assert_socket true plain_socket = none
assert_socket true (encrypted_socket u) = some u
assert_socket false plain_socket = some new_udp_conn
assert_socket false (encrypted_socket u) = none

unfoldable pub or_udp_error : Option UdpConn → WrappedUdp
or_udp_error none = udp_error
or_udp_error (some u) = wrapped_udp u

-- `wrapUDPConn`
unfoldable pub wrap_udp_conn :
    CipherOps → (ℕ → Bool) → Host → UdpSocket → Text → Text → Text → WrappedUdp
unfolding add_exit_codec assert_socket or_udp_error
wrap_udp_conn ops write_ok h conn addr remote_public_key conn_nonce =
    elim (assert_socket h.is_server conn) [
      | none ↦ udp_panic
      | some enc_conn ↦
          if is_empty remote_public_key
          then wrapped_udp enc_conn
          else if not (write_ok 0 && write_ok 1 && write_ok 2)
          then udp_error
          else or_udp_error (add_exit_codec ops h addr (remote_public_key ++ conn_nonce) enc_conn)
    ]

unfoldable pub has_udp : Client → Bool
has_udp c =
    not (is_empty c.service_udp)
    || elim c.reverse_metadata [ none ↦ false | some (tcp, udp) ↦ not (is_empty udp) ]

-- the text of the exit's UDP address
unfoldable pub udp_addr : Attempt → Client → Text
udp_addr a c = a.addr_string c.metadata.ip c.metadata.udp_port

-- how an attempt to connect ends: without an error, with one, or with a panic
pub data Reached : Type 0 where
  reached not_reached panicked : Reached

unfoldable pub close_tcp : Client → Client
close_tcp c = record c {
  tcp_conn = Option.map (λ (t : TcpConn). record t { is_closed = true }) c.tcp_conn;
}

unfoldable pub close_udp : Client → Client
close_udp c = record c {
  udp_conn = Option.map (λ (u : UdpConn). record u { is_closed = true }) c.udp_conn;
}

-- `SetConnected` and `OnConnect.receive`
unfoldable pub set_connected : Client → Client
set_connected c = record c { connected = true; notified = c.notified + 1 }

-- the part of `UpdateServerConn` that is about UDP
unfoldable pub update_udp :
    CipherOps → Attempt → Text → ConnectionMetadata → Client → Client × Reached
unfolding close_udp udp_addr wrap_udp_conn set_connected
update_udp ops a remote_public_key remote c =
    if not a.udp_ok
    then (close_udp c, not_reached)
    else elim (wrap_udp_conn ops a.udp_write_ok c.host plain_socket (udp_addr a c) remote_public_key
        remote.nonce) [
          | udp_panic ↦ (close_udp c, panicked)
          | udp_error ↦ (close_udp c, not_reached)
          | wrapped_udp u ↦ (set_connected (record c { udp_conn = some u }), reached)
        ]

-- what follows the handshake
unfoldable pub after_handshake : CipherOps → Attempt → Text → Wrapped → Client → Client × Reached
unfolding update_udp has_udp set_connected
after_handshake ops a remote_public_key w c =
    let c' = record c { tcp_conn = some (record { channel = w.channel; is_closed = false }) } in
    if has_udp c
    then update_udp ops a remote_public_key w.remote c'
    else (set_connected c', reached)

-- the result of the handshake
unfoldable pub on_handshake :
    CipherOps → Attempt → Text → Host × Option Wrapped → Client → Client × Reached
unfolding after_handshake
on_handshake ops a remote_public_key (h, none) c = (record c { host = h }, not_reached)
on_handshake ops a remote_public_key (h, some w) c =
    after_handshake ops a remote_public_key w (record c { host = h })

-- `UpdateServerConn`: the client afterwards, and how it ends
unfoldable pub update_server_conn : KeyOps → CipherOps → Attempt → Text → Client → Client × Reached
unfolding on_handshake close_tcp
update_server_conn keys ops a remote_public_key c =
    if a.tcp_ok
    then on_handshake ops a remote_public_key (wrap_conn keys a.exchange remote_public_key c.host)
        (close_tcp c)
    else (close_tcp c, not_reached)

-- A node that may be connected to, with what the chain and the address say of it: the metadata of its
-- latest subscription, unless a node was preset or the subscription or its metadata cannot be read;
-- its public key; its wallet address.
pub record Candidate : Type 0 where
  pub address : Text
  pub metadata : ServiceMetadata
  pub latest : Option ServiceMetadata
  pub public_key : Option Text
  pub wallet_addr : Option Text
  pub attempt : Attempt

-- What `CreateServerConn` uses besides: `StringToFixed64`, `VerifyWalletAddress`, the balance limit
-- and the price limit.
pub record ConnectEnv : Type 0 where
  pub to_fixed64 : Text → Option ℤ
  pub verify_wallet : Text → Bool
  pub min_balance : ℤ
  pub max_price : Text

unfoldable pub candidate_metadata : Candidate → ServiceMetadata
candidate_metadata n = elim n.latest [ none ↦ n.metadata | some latest ↦ latest ]

-- `SetPaymentReceiver`
unfoldable pub set_payment_receiver : ConnectEnv → Text → Client → Option Client
set_payment_receiver env receiver c =
    if is_empty receiver || env.verify_wallet receiver
    then some (record c { payment_receiver = receiver })
    else none

-- who is paid
unfoldable pub receiver_of : Candidate → ServiceMetadata → Option Text
receiver_of n metadata =
    if is_empty metadata.beneficiary_addr then n.wallet_addr else some metadata.beneficiary_addr

unfoldable pub reverse_ports : Option (List ℕ × List ℕ) → ServiceMetadata → ServiceMetadata
reverse_ports none metadata = metadata
reverse_ports (some (tcp, udp)) metadata = record metadata { service_tcp = tcp; service_udp = udp }

-- the address, the prices and the ports of a candidate
unfoldable pub take_over : Candidate → ℤ × ℤ → Client → Client
unfolding reverse_ports
take_over n prices c = record c {
  remote_nkn_address = n.address;
  prices = prices;
  metadata = reverse_ports c.reverse_metadata c.metadata;
}

-- a candidate whose receiver is set, up to its connection
unfoldable pub connect_candidate :
    KeyOps → CipherOps → Candidate → ℤ × ℤ → Client → Client × Reached
unfolding take_over
connect_candidate keys ops n prices c =
    let c' = take_over n prices c in
    elim n.public_key [
      | none ↦ (c', not_reached)
      | some remote_public_key ↦ update_server_conn keys ops n.attempt remote_public_key c'
    ]

-- a candidate whose price can be read
unfoldable pub pay_candidate :
    KeyOps → CipherOps → ConnectEnv → Candidate → ℤ × ℤ → Client → Client × Reached
unfolding connect_candidate receiver_of
pay_candidate keys ops env n prices c = elim (receiver_of n c.metadata) [
  | none ↦ (c, not_reached)
  | some receiver ↦ elim (set_payment_receiver env receiver c) [
    | none ↦ (c, not_reached)
    | some c' ↦ connect_candidate keys ops n prices c'
  ]
]

-- the body of the loop over the candidates: the client, and how the attempt ends
unfoldable pub try_candidate :
    KeyOps → CipherOps → ConnectEnv → Candidate → Client → Client × Reached
unfolding pay_candidate candidate_metadata
try_candidate keys ops env n c =
    let metadata = candidate_metadata n in
    let c' = record c { metadata = metadata } in
    elim (parse_price env.to_fixed64 metadata.price) [
      | none ↦ (c', not_reached)
      | some prices ↦ pay_candidate keys ops env n prices c'
    ]

-- the loop over the candidates
unfoldable pub try_candidates :
    KeyOps → CipherOps → ConnectEnv → List Candidate → Client → Client × Reached
try_candidates keys ops env [] c = (c, not_reached)
try_candidates keys ops env (n ∷ ns) c =
    let tried = try_candidate keys ops env n c in
    let rest = try_candidates keys ops env ns tried.0 in
    elim (tried.1) [
      | reached ↦ (tried.0, reached)
      | panicked ↦ (tried.0, panicked)
      | not_reached ↦ rest
    ]

-- how `CreateServerConn` returns; `searching` stands for a loop that goes on
pub data Created : Type 0 where
  created closed_error price_error insufficient_balance searching create_panics : Created

-- what a round of its loop meets: whether the client is closed, `BalanceByAddress`, the candidates
pub record Search : Type 0 where
  pub is_closed : Bool
  pub balance : Option ℤ
  pub candidates : Option (List Candidate)

-- the check of the balance
unfoldable pub check_balance : ConnectEnv → Option ℤ → Option Created
check_balance env balance =
    if not (ltb_ℤ (pos 0) env.min_balance)
    then none
    else elim (parse_price env.to_fixed64 env.max_price) [
      | none ↦ some price_error
      | some (p, q) ↦ if not (ltb_ℤ (pos 0) p || ltb_ℤ (pos 0) q) then none else elim balance [
        | none ↦ none
        | some b ↦ if ltb_ℤ b env.min_balance then some insufficient_balance else none
      ]
    ]

-- the candidates of a round, unless `GetTopPerformanceNodes` fails
unfoldable pub try_round : KeyOps → CipherOps → ConnectEnv → Search → Client → Client × Reached
try_round keys ops env s c = elim s.candidates [
  | none ↦ (c, not_reached)
  | some ns ↦ try_candidates keys ops env ns c
]

-- the loop of `CreateServerConn`
unfoldable pub search_loop :
    KeyOps → CipherOps → ConnectEnv → List Search → Client → Client × Created
unfolding check_balance try_round
search_loop keys ops env [] c = (c, searching)
search_loop keys ops env (s ∷ ss) c =
    let c' = record c { payment_receiver = [] } in
    let tried = try_round keys ops env s c' in
    let rest = search_loop keys ops env ss tried.0 in
    if s.is_closed then (c, closed_error) else elim (check_balance env s.balance) [
      | some error ↦ (c', error)
      | none ↦ elim (tried.1) [
        | reached ↦ (tried.0, created)
        | panicked ↦ (tried.0, create_panics)
        | not_reached ↦ rest
      ]
    ]

-- `CreateServerConn`
unfoldable pub create_server_conn :
    KeyOps → CipherOps → ConnectEnv → Bool → List Search → Client → Client × Created
create_server_conn keys ops env force ss c =
    if not c.host.is_server && (not c.connected || force)
    then search_loop keys ops env ss c
    else (c, created)
