-- ===== src/Tests/Connections.antt =====
-- A handshake, streams and packets between a concrete entry and a concrete exit.
use tuna.Common.Dict.{lookup}
use tuna.Wire.{ConnectionMetadata, encryption_aes_gcm}
use tuna.Conn.{KeyOps, Host, Exchange, encrypted, Wrapped, sent_metadata, wrap_conn}
use tuna.Conn.Handshake.{wrap_conn-same_channel, wrap_conn-IsInitiator, IsHost, IsInitiator}
use tuna.Tunnel.{
  Service, tcp4, udp4, ServiceConn, ExitUdp, EntryUdp, UdpAddr, stream_target, service_stream,
  get_service, get_service_conn, choose_port, exit_packet, exit_answer, entry_packet, entry_answer,
  listens,
}
use tuna.Tunnel.Streams.{stream_target-service_stream, stream_target-IsDeclared, IsDeclared}
use tuna.Tunnel.Packets.{packet_round_trip}
use tuna.Common.{
  ℕ, ◌+◌, ◌≡◌, refl, ap, Bool, true, false, Option, none, some, [], ◌∷◌, arith, Text, codes,
  text_eq,
}

unfoldable pub head_of : Text → ℕ
head_of [] = 0
head_of (a ∷ s) = a

unfoldable pub add_head : Text → Text → Text
add_head a b = (head_of a + head_of b) ∷ []

add_head-sym : (a b : Text) → add_head a b ≡ add_head b a
unfolding add_head
add_head-sym a b = ap (λ (n : ℕ). n ∷ []) (omega arith)

pub add_head-curve :
    (a b c d : Text) → some a ≡ some c → some b ≡ some d → add_head a d ≡ add_head b c
add_head-curve a b c d hc hd = ground (arith, add_head-sym a b)

-- A toy group: secrets are their own public keys, and a shared key is the sum of their first bytes.
abbrev pub toy_keys : KeyOps
toy_keys = record {
  public_of = λ s. s;
  to_curve = λ p. some p;
  precompute = add_head;
  sum256 = λ b. b;
  precompute_sym = add_head-curve;
}

abbrev pub host_with : Text → Bool → Host
host_with key is_server = record {
  secret = key;
  public_key = key;
  encryption_algo = encryption_aes_gcm;
  is_server = is_server;
  shared_keys = [];
  encrypt_keys = [];
  ready = [];
}

abbrev pub client_key : Text
client_key =
    5 ∷ 0 ∷ 0 ∷ 0 ∷ 0 ∷ 0 ∷ 0 ∷ 0 ∷ 0 ∷ 0 ∷ 0 ∷ 0 ∷ 0 ∷ 0 ∷ 0 ∷ 0 ∷ 0 ∷ 0 ∷ 0 ∷ 0 ∷ 0 ∷ 0 ∷ 0 ∷ 0
    ∷ 0 ∷ 0 ∷ 0 ∷ 0 ∷ 0 ∷ 0 ∷ 0 ∷ 0 ∷ []

abbrev pub client : Host
client = host_with client_key false

abbrev pub server : Host
server = host_with (6 ∷ []) true

abbrev pub at_client : Exchange
at_client = record {
  nonce = 1 ∷ [];
  deadline_ok = true;
  write_ok = true;
  read = some (sent_metadata server [] none (2 ∷ []));
  stream_ok = λ g. true;
}

abbrev at_server : Exchange
at_server = record {
  nonce = 2 ∷ [];
  deadline_ok = true;
  write_ok = true;
  read = some (sent_metadata client (6 ∷ []) none (1 ∷ []));
  stream_ok = λ g. true;
}

abbrev client_run : Host × Option Wrapped
client_run = wrap_conn toy_keys at_client (6 ∷ []) client

abbrev server_run : Host × Option Wrapped
server_run = wrap_conn toy_keys at_server [] server

abbrev wrapped_with : ConnectionMetadata → Wrapped
wrapped_with m = record { channel = encrypted encryption_aes_gcm (2 ∷ 11 ∷ []) true; remote = m }

client_run-wraps :
    client_run ≡ (client_run.0, some (wrapped_with (sent_metadata server [] none (2 ∷ []))))
unfolding wrap_conn sent_metadata lookup text_eq add_head head_of
client_run-wraps = refl

server_run-wraps : server_run ≡ (
  server_run.0,
  some (wrapped_with (record (sent_metadata client (6 ∷ []) none (1 ∷ [])) { nonce = 2 ∷ [] })),
)
unfolding wrap_conn sent_metadata lookup text_eq add_head head_of
server_run-wraps = refl

no_keys : (key : Text) (is_server : Bool) → IsHost toy_keys (host_with key is_server)
unfolding lookup
no_keys key is_server = (refl, λ peer k e. absurd (ground (arith, e)))

wrap_conn-same_channel_example :
    (wrapped_with (sent_metadata server [] none (2 ∷ []))).channel
    ≡ (wrapped_with
        (record (sent_metadata client (6 ∷ []) none (1 ∷ [])) { nonce = 2 ∷ [] })).channel
wrap_conn-same_channel_example =
    wrap_conn-same_channel toy_keys client server client_run.0 server_run.0 at_client at_server none
      none (wrapped_with (sent_metadata server [] none (2 ∷ [])))
      (wrapped_with (record (sent_metadata client (6 ∷ []) none (1 ∷ [])) { nonce = 2 ∷ [] }))
      (no_keys client_key false) (no_keys (6 ∷ []) true) (λ e. cc) refl refl client_run-wraps
      server_run-wraps

wrap_conn-IsInitiator_example :
    IsInitiator toy_keys (wrapped_with (sent_metadata server [] none (2 ∷ []))).channel
    × IsInitiator toy_keys
        (wrapped_with
          (record (sent_metadata client (6 ∷ []) none (1 ∷ [])) { nonce = 2 ∷ [] })).channel
wrap_conn-IsInitiator_example =
    wrap_conn-IsInitiator toy_keys client server client_run.0 server_run.0 at_client at_server none
      none (wrapped_with (sent_metadata server [] none (2 ∷ [])))
      (wrapped_with (record (sent_metadata client (6 ∷ []) none (1 ∷ [])) { nonce = 2 ∷ [] }))
      (no_keys client_key false) (no_keys (6 ∷ []) true) (λ e. cc) refl refl client_run-wraps
      server_run-wraps

abbrev web : Service
web = record { name = codes "web"; tcp = 80 ∷ 443 ∷ []; udp = 53 ∷ [] }

stream_target-service_stream_example :
    stream_target (web ∷ []) (service_stream 0 1)
    ≡ some (record { service_id = 0; protocol = tcp4; port = 443 })
stream_target-service_stream_example =
    stream_target-service_stream (web ∷ []) 0 web 1 443 (omega arith) (omega arith) refl refl

stream_target-dns :
    stream_target (web ∷ []) (service_stream 0 2)
    ≡ some (record { service_id = 0; protocol = udp4; port = 53 })
unfolding stream_target service_stream get_service choose_port
stream_target-dns = refl

stream_target-IsDeclared_example :
    IsDeclared (web ∷ []) (record { service_id = 0; protocol = udp4; port = 53 })
stream_target-IsDeclared_example =
    stream_target-IsDeclared (web ∷ []) (service_stream 0 2)
      (record { service_id = 0; protocol = udp4; port = 53 }) stream_target-dns

abbrev resolver : UdpAddr
resolver = record { ip = codes "127.0.0.1"; port = 5353 }

abbrev entry_udp : EntryUdp
entry_udp = record { service_id = 0; port_ids = 0 ∷ []; client_addr = []; is_closed = false }

abbrev exit_udp : ExitUdp
exit_udp = record { services = web ∷ []; conns = []; is_closed = false }

entry_udp-listens : listens entry_udp.port_ids 0 ≡ true
unfolding listens
entry_udp-listens = refl

packet_round_trip_example :
    (conn : ServiceConn) × ((exit_packet true
        (entry_packet 0 resolver (codes "query") entry_udp).0
        exit_udp).0
      ≡ some (conn, codes "query"))
    × (conn.port ≡ 53)
    × ((entry_answer
          (exit_answer conn (codes "answer"))
          (entry_packet 0 resolver (codes "query") entry_udp).1).0
        ≡ some (record { port_id = 0; addr = resolver; payload = codes "answer" }))
unfolding lookup
packet_round_trip_example =
    packet_round_trip entry_udp exit_udp web 0 53 resolver (codes "query") (codes "answer")
      (omega arith) (omega arith) entry_udp-listens refl refl refl

abbrev first_packet : Option (ServiceConn × Text) × ExitUdp
first_packet = exit_packet true (1 ∷ 2 ∷ 0 ∷ 0 ∷ codes "one") exit_udp

first_packet-conn :
    first_packet
    ≡ (some (record { port = 53; prefix = 1 ∷ 2 ∷ 0 ∷ 0 ∷ [] }, codes "one"), first_packet.1)
unfolding exit_packet get_service_conn get_service lookup
first_packet-conn = refl
