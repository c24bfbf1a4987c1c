-- ===== src/Tunnel.antt =====
-- How an exit finds the service of a stream or of a UDP packet (exit.go), and how an entry sends UDP
-- packets and delivers the answers (entry.go). The tables of `cache.Cache` are maps here; that an
-- entry of one expires is the event of its removal.
pub mod Streams
pub mod Packets
use tuna.Common.Dict.{Dict, lookup, insert, remove}
use tuna.Net.{itoa}
use tuna.Wire.{StreamMetadata, port_to_conn_id, conn_id_to_port, prefix_len}
use tuna.Common.{
  ℕ, zero, suc, ◌+◌, ◌-◌, ◌*◌, ◌/◌, ◌%◌, ◌^◌, ◌≤◌, ◌<◌, ◌≡◌, refl, sym, ap, ◌∙◌, subst, ◌≢◌, ◌↔◌,
  ◌⊎◌, inl, inr, Bool, true, false, not, ◌&&◌, ◌||◌, Option, none, some, List, [], ◌∷◌, ◌++◌,
  append_assoc, append-nil, arith, ltb, leb, ◌==◌, if◌then◌else◌, ltb→lt, lt→ltb, leb→le, le→leb,
  ==_iff, tests, Bool-cases, Option-cases, if_ind, option_ind, ◌>>=◌, >>=-eq-some, length,
  get_elem?, take, drop, length-append, length-take-le, take-length-append, drop-length-append,
  get_elem?-some, get_elem?-none, All, All-append, All-take, Any, Text, codes, is_empty, text_eq,
  to_lower, text_eq_iff, text_eq_refl, is_empty→nil,
}

pub record Service : Type 0 where
  pub name : Text
  pub tcp : List ℕ
  pub udp : List ℕ

pub data Protocol : Type 0 where
  tcp4 udp4 : Protocol

-- where the exit dials to: the service's place, the protocol and the port
pub record Target : Type 0 where
  pub service_id : ℕ
  pub protocol : Protocol
  pub port : ℕ

get_service_id_from : ℕ → List Service → Text → Option ℕ
get_service_id_from i [] service_name = none
get_service_id_from i (s ∷ services) service_name =
    let rest = get_service_id_from (i + 1) services service_name in
    if text_eq s.name service_name then some (i % 256) else rest

-- `getServiceID`
unfoldable pub get_service_id : List Service → Text → Option ℕ
unfolding get_service_id_from
get_service_id services service_name = get_service_id_from 0 services service_name

-- `getService`
unfoldable pub get_service : List Service → ℕ → Option Service
get_service services service_id =
    if leb (length services) service_id then none else get_elem? services service_id

-- the protocol and the port of a stream; an index of a slice in its range is always there
unfoldable pub choose_port : Service → ℕ → Option (Protocol × ℕ)
choose_port service port_id =
    let tcp_ports_count = length service.tcp in
    if ltb port_id tcp_ports_count
    then (do port ← get_elem? service.tcp port_id; some (tcp4, port))
    else if ltb (port_id - tcp_ports_count) (length service.udp)
    then (do port ← get_elem? service.udp (port_id - tcp_ports_count); some (udp4, port))
    else none

-- the part of `handleSession` that finds what a stream wants; errors are `none`
unfoldable pub stream_target : List Service → StreamMetadata → Option Target
stream_target services m = do
  service ← get_service services (m.service_id % 256)
  (protocol, port) ← choose_port service m.port_id
  some (record { service_id = m.service_id % 256; protocol = protocol; port = port })

-- what `openServiceStream` writes for the i-th TCP port of the entry; the place becomes a byte
unfoldable pub service_stream : ℕ → ℕ → StreamMetadata
service_stream service_id i = record {
  service_id = service_id;
  port_id = i % 256;
  is_payment = false;
}

-- A connection of the exit to a local UDP port, with the prefix of the answers.
pub record ServiceConn : Type 0 where
  pub port : ℕ
  pub prefix : Text

-- `serviceConn` of an exit, and whether it is closed
pub record ExitUdp : Type 0 where
  pub services : List Service
  pub conns : Dict ServiceConn
  pub is_closed : Bool

service_conn : ℕ → Text → ServiceConn
service_conn port prefix = record { port = port; prefix = prefix }

add_service_conn : ExitUdp → Text → ServiceConn → Bool → Option (ServiceConn × ExitUdp)
add_service_conn x conn_key conn dial_ok =
    if dial_ok then some (conn, record x { conns = insert conn_key conn x.conns }) else none

-- a connection that is not in the table; `dial_ok` tells whether `net.DialUDP` succeeds
new_service_conn : ExitUdp → Text → Text → ℕ → ℕ → Bool → Option (ServiceConn × ExitUdp)
unfolding service_conn add_service_conn
new_service_conn x conn_key conn_id service_id port_id dial_ok = do
  service ← get_service x.services service_id
  port ← get_elem? service.udp port_id
  add_service_conn x conn_key (service_conn port (conn_id ++ service_id ∷ port_id ∷ [])) dial_ok

found_or_new :
    ExitUdp → Text → Text → ℕ → ℕ → Bool → Option ServiceConn → Option (ServiceConn × ExitUdp)
unfolding new_service_conn
found_or_new x conn_key conn_id service_id port_id dial_ok (some conn) = some (conn, x)
found_or_new x conn_key conn_id service_id port_id dial_ok none =
    new_service_conn x conn_key conn_id service_id port_id dial_ok

-- `getServiceConn`
unfoldable pub get_service_conn : ExitUdp → ℕ → Text → ℕ → ℕ → Bool → Option (ServiceConn × ExitUdp)
unfolding found_or_new
get_service_conn x conn_port conn_id service_id port_id dial_ok =
    found_or_new x (itoa conn_port) conn_id service_id port_id dial_ok
      (lookup (itoa conn_port) x.conns)

-- What a turn of `readUDP` makes of a packet: the connection and the payload that it gets, if any.
unfoldable pub exit_packet : Bool → Text → ExitUdp → Option (ServiceConn × Text) × ExitUdp
exit_packet dial_ok (a ∷ b ∷ service_id ∷ port_id ∷ payload) x =
    elim (get_service_conn x (a + 2 ^ 8 * b) (a ∷ b ∷ []) service_id port_id dial_ok) [
      | none ↦ (none, x)
      | some (conn, x') ↦ (some (conn, payload), x')
    ]
exit_packet dial_ok _ x = (none, record x { is_closed = true })

-- the packet with an answer of the service, from the goroutine of `getServiceConn`
unfoldable pub exit_answer : ServiceConn → Text → Text
exit_answer conn answer = conn.prefix ++ answer

pub record UdpAddr : Type 0 where
  pub ip : Text
  pub port : ℕ

-- The UDP side of an entry: the ports that it listens on, by their identifiers, and `clientAddr`.
pub record EntryUdp : Type 0 where
  pub service_id : ℕ
  pub port_ids : List ℕ
  pub client_addr : Dict UdpAddr
  pub is_closed : Bool

-- A packet from a local client: it is noted under its port, and sent on with a prefix.
unfoldable pub entry_packet : ℕ → UdpAddr → Text → EntryUdp → Text × EntryUdp
entry_packet port_id addr payload e = (
  port_to_conn_id (addr.port % 2 ^ 16) ++ e.service_id % 256 ∷ port_id ∷ payload,
  record e { client_addr = insert (itoa addr.port) addr e.client_addr },
)

unfoldable pub listens : List ℕ → ℕ → Bool
listens [] port_id = false
listens (p ∷ ports) port_id = p == port_id || listens ports port_id

-- where an answer goes: out of a listening port, to an address
pub record Delivery : Type 0 where
  pub port_id : ℕ
  pub addr : UdpAddr
  pub payload : Text

-- A packet from the exit.
unfoldable pub entry_answer : Text → EntryUdp → Option Delivery × EntryUdp
unfolding listens
entry_answer (a ∷ b ∷ service_id ∷ port_id ∷ payload) e =
    if listens e.port_ids port_id
    then (
      (do
        addr ← lookup (itoa (a + 2 ^ 8 * b)) e.client_addr
        some (record { port_id = port_id; addr = addr; payload = payload })),
      e,
    )
    else (none, e)
entry_answer _ e = (none, record e { is_closed = true })
