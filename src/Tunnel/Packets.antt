-- ===== src/Tunnel/Packets.antt =====
-- The way of a UDP packet from a client of the entry to a service of the exit, and of the answer back.
use tuna.Common.Dict.{lookup, insert, lookup-insert}
use tuna.Net.{itoa}
use tuna.Wire.{port_to_conn_id}
use tuna.Tunnel.{
  Service, ServiceConn, ExitUdp, EntryUdp, UdpAddr, get_service, get_service_conn, found_or_new,
  new_service_conn, add_service_conn, service_conn, exit_packet, exit_answer, entry_packet,
  entry_answer, listens,
}
use tuna.Tunnel.Streams.{get_service-get_elem?}
use tuna.Common.{
  ℕ, ◌+◌, ◌*◌, ◌/◌, ◌%◌, ◌^◌, ◌<◌, ◌≡◌, refl, sym, ap, subst, Bool, true, Option, none, some, [],
  ◌∷◌, ◌++◌, arith, option_ind, >>=-eq-some, get_elem?, Text, text_eq_refl,
}

-- the number that two bytes stand for
two_bytes : (n : ℕ) → n < 2 ^ 16 → n % 2 ^ 16 % 256 + 2 ^ 8 * (n % 2 ^ 16 / 2 ^ 8 % 256) ≡ n
two_bytes n h = omega arith

-- the connection that is made for a client and a port
abbrev conn_for : ℕ → UdpAddr → ℕ → ℕ → ServiceConn
conn_for port addr service_id port_id =
    service_conn port (port_to_conn_id (addr.port % 2 ^ 16) ++ service_id % 256 ∷ port_id ∷ [])

-- A new connection goes to the declared port.
get_service_conn-new :
    (x : ExitUdp) (s : Service) (n service_id port_id port : ℕ) (conn_id : Text)
    → lookup (itoa n) x.conns ≡ none
    → get_service x.services service_id ≡ some s
    → get_elem? s.udp port_id ≡ some port
    → get_service_conn x n conn_id service_id port_id true
      ≡ some (
        service_conn port (conn_id ++ service_id ∷ port_id ∷ []),
        record x {
          conns =
              insert (itoa n) (service_conn port (conn_id ++ service_id ∷ port_id ∷ [])) x.conns;
        },
      )
unfolding get_service_conn found_or_new new_service_conn add_service_conn
get_service_conn-new x s n service_id port_id port conn_id absent hs hp =
    rw (get_service_conn, absent, hs, hp) refl

exit_packet-conn :
    (x x' : ExitUdp) (a b service_id port_id : ℕ) (dial_ok : Bool) (payload : Text)
    (conn : ServiceConn)
    → get_service_conn x (a + 2 ^ 8 * b) (a ∷ b ∷ []) service_id port_id dial_ok ≡ some (conn, x')
    → exit_packet dial_ok (a ∷ b ∷ service_id ∷ port_id ∷ payload) x ≡ (some (conn, payload), x')
unfolding exit_packet
exit_packet-conn x x' a b service_id port_id dial_ok payload conn h = rw (exit_packet, h) refl

exit_packet-new :
    (e : EntryUdp) (x : ExitUdp) (s : Service) (port_id port : ℕ) (addr : UdpAddr) (payload : Text)
    → addr.port < 2 ^ 16
    → e.service_id < 256
    → get_elem? x.services e.service_id ≡ some s
    → get_elem? s.udp port_id ≡ some port
    → lookup (itoa addr.port) x.conns ≡ none
    → (exit_packet true (entry_packet port_id addr payload e).0 x).0
      ≡ some (conn_for port addr e.service_id port_id, payload)
unfolding entry_packet port_to_conn_id
exit_packet-new e x s port_id port addr payload small byte hs hp absent =
    let low = addr.port % 2 ^ 16 % 256 in
    let high = addr.port % 2 ^ 16 / 2 ^ 8 % 256 in
    let conn = conn_for port addr e.service_id port_id in
    let same : e.service_id % 256 ≡ e.service_id = omega arith in
    let hs' =
      subst (λ i. get_service x.services i ≡ some s) (sym same)
        (get_service-get_elem? x.services e.service_id s hs) in
    let hn = subst (λ n. lookup (itoa n) x.conns ≡ none) (sym (two_bytes addr.port small)) absent in
    ap (λ (r : Option (ServiceConn × Text) × ExitUdp). r.0)
      (exit_packet-conn x (record x { conns = insert (itoa (low + 2 ^ 8 * high)) conn x.conns }) low
        high (e.service_id % 256) port_id true payload conn
        (get_service_conn-new x s (low + 2 ^ 8 * high) (e.service_id % 256) port_id port
          (low ∷ high ∷ []) hn hs' hp))

entry_answer-conn_for :
    (e : EntryUdp) (port_id port : ℕ) (addr : UdpAddr) (payload answer : Text)
    → addr.port < 2 ^ 16
    → listens e.port_ids port_id ≡ true
    → (entry_answer
        (exit_answer (conn_for port addr e.service_id port_id) answer)
        (entry_packet port_id addr payload e).1).0
      ≡ some (record { port_id = port_id; addr = addr; payload = answer })
unfolding entry_answer exit_answer entry_packet service_conn port_to_conn_id
entry_answer-conn_for e port_id port addr payload answer small listening =
    rw
      (
        two_bytes addr.port small,
        listening,
        lookup-insert (itoa addr.port) (itoa addr.port) addr e.client_addr,
        text_eq_refl (itoa addr.port),
      )
      refl

-- Let the exit dial with success, the service be one of its first 256 and declare the UDP port, and
-- the entry listen on that port. A packet of a client whose port number has no connection at the
-- exit yet reaches the declared port, and every answer on the connection that is made for it, once
-- it comes back to the entry, is delivered to that client, out of the port that the client sent to.
pub packet_round_trip :
    (e : EntryUdp) (x : ExitUdp) (s : Service) (port_id port : ℕ) (addr : UdpAddr)
    (payload answer : Text)
    → addr.port < 2 ^ 16
    → e.service_id < 256
    → listens e.port_ids port_id ≡ true
    → get_elem? x.services e.service_id ≡ some s
    → get_elem? s.udp port_id ≡ some port
    → lookup (itoa addr.port) x.conns ≡ none
    → (conn : ServiceConn) × ((exit_packet true (entry_packet port_id addr payload e).0 x).0
        ≡ some (conn, payload))
      × (conn.port ≡ port)
      × ((entry_answer (exit_answer conn answer) (entry_packet port_id addr payload e).1).0
          ≡ some (record { port_id = port_id; addr = addr; payload = answer }))
unfolding service_conn
packet_round_trip e x s port_id port addr payload answer small byte listening hs hp absent = (
  conn_for port addr e.service_id port_id,
  exit_packet-new e x s port_id port addr payload small byte hs hp absent,
  refl,
  entry_answer-conn_for e port_id port addr payload answer small listening,
)

exit_packet-found :
    (x x' : ExitUdp) (a b service_id port_id : ℕ) (dial_ok : Bool) (payload : Text)
    (conn : ServiceConn)
    → exit_packet dial_ok (a ∷ b ∷ service_id ∷ port_id ∷ payload) x ≡ (some (conn, payload), x')
    → get_service_conn x (a + 2 ^ 8 * b) (a ∷ b ∷ []) service_id port_id dial_ok ≡ some (conn, x')
unfolding exit_packet
exit_packet-found x x' a b service_id port_id dial_ok payload conn h =
    option_ind
      (λ (r : Option (ServiceConn × Text) × ExitUdp).
        r ≡ (some (conn, payload), x')
        → get_service_conn x (a + 2 ^ 8 * b) (a ∷ b ∷ []) service_id port_id dial_ok
          ≡ some (conn, x'))
      (get_service_conn x (a + 2 ^ 8 * b) (a ∷ b ∷ []) service_id port_id dial_ok)
      (λ _ e. absurd (ground (arith, ap (λ (r : Option (ServiceConn × Text) × ExitUdp). r.0) e)))
      (λ k found e. ground arith) h

found_or_new-kept :
    (x x' : ExitUdp) (key conn_id : Text) (service_id port_id : ℕ) (dial_ok : Bool)
    (known : Option ServiceConn) (conn : ServiceConn)
    → lookup key x.conns ≡ known
    → found_or_new x key conn_id service_id port_id dial_ok known ≡ some (conn, x')
    → lookup key x'.conns ≡ some conn
unfolding found_or_new new_service_conn add_service_conn
found_or_new-kept x x' key conn_id service_id port_id dial_ok (some c) conn present h = ground arith
found_or_new-kept x x' key conn_id service_id port_id dial_ok none conn absent h =
    let (s, hs, h1) = >>=-eq-some (get_service x.services service_id) _ h in
    let (port, hp, h2) = >>=-eq-some (get_elem? s.udp port_id) _ h1 in
    let c = service_conn port (conn_id ++ service_id ∷ port_id ∷ []) in
    ground (arith, lookup-insert key key c x.conns, text_eq_refl key)

kept :
    (x x' : ExitUdp) (n service_id port_id : ℕ) (conn_id : Text) (dial_ok : Bool)
    (conn : ServiceConn)
    → get_service_conn x n conn_id service_id port_id dial_ok ≡ some (conn, x')
    → lookup (itoa n) x'.conns ≡ some conn
unfolding get_service_conn
kept x x' n service_id port_id conn_id dial_ok conn h =
    found_or_new-kept x x' (itoa n) conn_id service_id port_id dial_ok (lookup (itoa n) x.conns)
      conn refl h

get_service_conn-kept :
    (x : ExitUdp) (n service_id port_id : ℕ) (conn_id : Text) (dial_ok : Bool) (conn : ServiceConn)
    → lookup (itoa n) x.conns ≡ some conn
    → get_service_conn x n conn_id service_id port_id dial_ok ≡ some (conn, x)
unfolding get_service_conn found_or_new
get_service_conn-kept x n service_id port_id conn_id dial_ok conn h = rw (get_service_conn, h) refl

-- Once a packet has a connection, every later packet with the same two bytes of identifier goes to
-- that connection, even when it names another service or another port.
exit_packet-same_conn :
    (x x' : ExitUdp) (a b service_id port_id service_id' port_id' : ℕ) (dial_ok dial_ok' : Bool)
    (payload payload' : Text) (conn : ServiceConn)
    → exit_packet dial_ok (a ∷ b ∷ service_id ∷ port_id ∷ payload) x ≡ (some (conn, payload), x')
    → exit_packet dial_ok' (a ∷ b ∷ service_id' ∷ port_id' ∷ payload') x'
      ≡ (some (conn, payload'), x')
exit_packet-same_conn x x' a b service_id port_id service_id' port_id' dial_ok dial_ok' payload
      payload' conn h =
    exit_packet-conn x' x' a b service_id' port_id' dial_ok' payload' conn (
      get_service_conn-kept x' (a + 2 ^ 8 * b) service_id' port_id' (a ∷ b ∷ []) dial_ok' conn (
        kept x x' (a + 2 ^ 8 * b) service_id port_id (a ∷ b ∷ []) dial_ok conn
          (exit_packet-found x x' a b service_id port_id dial_ok payload conn h)))
