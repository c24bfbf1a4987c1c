-- ===== src/Tunnel/Streams.antt =====
-- What a stream reaches: the ports that the services declare, and no others.
use tuna.Wire.{StreamMetadata}
use tuna.Tunnel.{
  Service, Protocol, tcp4, udp4, Target, get_service, choose_port, stream_target, service_stream,
}
use tuna.Common.{
  ℕ, ◌+◌, ◌-◌, ◌%◌, ◌<◌, ◌≡◌, subst, inl, inr, some, List, arith, leb, leb→le, Bool-cases,
  >>=-eq-some, length, get_elem?, get_elem?-none,
}

-- the ports of a service by protocol
abbrev pub ports_of : Service → Protocol → List ℕ
ports_of s tcp4 = s.tcp
ports_of s udp4 = s.udp

-- the place of a port of the service, the TCP ports first
abbrev pub port_id_of : Service → Protocol → ℕ → ℕ
port_id_of s tcp4 i = i
port_id_of s udp4 i = length s.tcp + i

pub get_service-get_elem? :
    (services : List Service) (i : ℕ) (s : Service)
    → get_elem? services i ≡ some s
    → get_service services i ≡ some s
unfolding get_service
get_service-get_elem? services i s h = elim (Bool-cases (leb (length services) i)) [
  | inl e ↦ absurd (ground (arith, get_elem?-none services i (leb→le (length services) i e)))
  | inr e ↦ rw e h
]

choose_port-declared :
    (s : Service) (protocol : Protocol) (i port : ℕ)
    → get_elem? (ports_of s protocol) i ≡ some port
    → choose_port s (port_id_of s protocol i) ≡ some (protocol, port)
unfolding choose_port
choose_port-declared s tcp4 i port h = ground (arith, get_elem?-none s.tcp i)
choose_port-declared s udp4 i port h = ground (arith, get_elem?-none s.udp i)

-- Each of the first 256 TCP ports of each of the first 256 services is reached by the stream that an
-- entry opens for its place among the TCP ports of the service.
pub stream_target-service_stream :
    (services : List Service) (service_id : ℕ) (s : Service) (i port : ℕ)
    → service_id < 256
    → i < 256
    → get_elem? services service_id ≡ some s
    → get_elem? s.tcp i ≡ some port
    → stream_target services (service_stream service_id i)
      ≡ some (record { service_id = service_id; protocol = tcp4; port = port })
unfolding stream_target service_stream
stream_target-service_stream services service_id s i port small near hs hp =
    ground
      (arith, get_service-get_elem? services service_id s hs, choose_port-declared s tcp4 i port hp)

-- a port is declared for a protocol
abbrev pub IsDeclared : List Service → Target → Type 0
IsDeclared services t =
    (s : Service) × (get_elem? services t.service_id ≡ some s)
    × ((i : ℕ) × (get_elem? (ports_of s t.protocol) i ≡ some t.port))

get_service-some :
    (services : List Service) (i : ℕ) (s : Service)
    → get_service services i ≡ some s
    → get_elem? services i ≡ some s
unfolding get_service
get_service-some services i s h = ground arith

choose_port-some :
    (s : Service) (port_id : ℕ) (protocol : Protocol) (port : ℕ)
    → choose_port s port_id ≡ some (protocol, port)
    → (i : ℕ) × (get_elem? (ports_of s protocol) i ≡ some port)
unfolding choose_port
choose_port-some s port_id tcp4 port h = (port_id, ground arith)
choose_port-some s port_id udp4 port h = (port_id - length s.tcp, ground arith)

-- Whatever a stream asks for, the exit dials no port but one that the service declares for that
-- protocol.
pub stream_target-IsDeclared :
    (services : List Service) (m : StreamMetadata) (t : Target)
    → stream_target services m ≡ some t
    → IsDeclared services t
unfolding stream_target
stream_target-IsDeclared services m t h =
    let (s, found, h1) = >>=-eq-some (get_service services (m.service_id % 256)) _ h in
    let ((protocol, port), chosen, h2) = >>=-eq-some (choose_port s m.port_id) _ h1 in
    subst (IsDeclared services) (ground (arith, h2)) (
      s,
      get_service-some services (m.service_id % 256) s found,
      choose_port-some s m.port_id protocol port chosen,
    )
