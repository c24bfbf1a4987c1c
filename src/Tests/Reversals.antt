-- ===== src/Tests/Reversals.antt =====
-- A reverse entry with one exit, and one with a packet of metadata that no connection follows.
use tuna.Common.Dict.{lookup, insert}
use tuna.Wire.{ConnectionMetadata}
use tuna.Udp.{packet, read_from_udp, add_codec}
use tuna.Reverse.{
  reading, Hub, conn_key, is_ready, HubEvent, udp, tcp_ready, udp_wait, hub_step, hub_run, on_udp,
  on_read, on_metadata, on_data, register, find_entry, join, close_udp_ready, count_reverse, resume,
}
use tuna.Reverse.Routes.{IsRouted}
use tuna.Reverse.Reader.{hub_run-IsRouted}
use tuna.Reverse.Stalled.{hub_run_stalls}
use tuna.Tests.Datagrams.{toy_ciphers, drop_first, hello}
use tuna.Common.{
  ℕ, ◌≡◌, refl, ◌⊎◌, inl, inr, false, Option, some, List, [], ◌∷◌, arith, Text, codes, text_eq,
}

abbrev empty_hub : Hub
empty_hub = record {
  conn = record { encoders = []; decoders = []; is_closed = false };
  enc_keys = [];
  tcp_entries = [];
  udp_entries = [];
  tcp_is_ready = [];
  udp_is_ready = [];
  addr_to_key = [];
  key_to_addr = [];
  counted = [];
  delivered = [];
  reader = reading;
}

read_hello : Text → Option ConnectionMetadata
read_hello b = some hello

-- the metadata comes before the connection, and then a packet for service 2
abbrev events : List HubEvent
events =
    udp (some (codes "exit", 0 ∷ 0 ∷ 0 ∷ 0 ∷ 1 ∷ []))
    ∷ tcp_ready (codes "keynonce") (codes "secret") 7
    ∷ udp_wait (codes "keynonce")
    ∷ udp (some (codes "exit", 9 ∷ 0 ∷ 1 ∷ 2 ∷ 3 ∷ []))
    ∷ []

-- The packet is delivered, but the channel that the answers wait for is not closed.
events-delivered :
    ((hub_run toy_ciphers read_hello events empty_hub).delivered ≡ (7, 0 ∷ 1 ∷ 2 ∷ 3 ∷ []) ∷ [])
    × ((hub_run toy_ciphers read_hello events empty_hub).counted
        ≡ (codes "keynonce", (2, 4) ∷ []) ∷ [])
    × ((hub_run toy_ciphers read_hello events empty_hub).udp_is_ready
        ≡ (codes "keynonce", false) ∷ [])
unfolding hub_run hub_step on_udp on_read on_metadata on_data register find_entry join
    close_udp_ready count_reverse resume is_ready conn_key read_hello read_from_udp add_codec lookup
    insert text_eq drop_first
events-delivered = (refl, refl, refl)

abbrev Announced : Text → Text → ℕ → Type 0
Announced k key te = (key ≡ codes "secret") × (te ≡ 7)

-- the two packets of the run
abbrev Arrived : Option (Text × Text) → Type 0
Arrived x =
    (x ≡ some (codes "exit", 0 ∷ 0 ∷ 0 ∷ 0 ∷ 1 ∷ []))
    ⊎ (x ≡ some (codes "exit", 9 ∷ 0 ∷ 1 ∷ 2 ∷ 3 ∷ []))

empty-IsRouted : IsRouted toy_ciphers read_hello Arrived Announced empty_hub
unfolding lookup
empty-IsRouted = record {
  stored = λ k key te e. absurd (ground (arith, e));
  routed = λ a te c e. absurd (ground (arith, e));
  fresh = λ a e. refl;
  waits = λ a m e. absurd (ground (arith, e));
  own = tt;
}

hub_run-IsRouted_example :
    IsRouted toy_ciphers read_hello Arrived Announced
      (hub_run toy_ciphers read_hello events empty_hub)
hub_run-IsRouted_example =
    hub_run-IsRouted toy_ciphers read_hello Arrived Announced events empty_hub
      (inl refl, ((refl, refl), (tt, (inr refl, tt)))) empty-IsRouted

-- connections of other exits, and their packets
abbrev others : List HubEvent
others =
    tcp_ready (codes "other") (codes "secret") 8
    ∷ udp (some (codes "other exit", 0 ∷ 0 ∷ 0 ∷ 0 ∷ 1 ∷ []))
    ∷ udp (some (codes "other exit", 9 ∷ 0 ∷ 1 ∷ 2 ∷ 3 ∷ []))
    ∷ []

plain_read :
    read_from_udp toy_ciphers (some (codes "stranger", 0 ∷ 0 ∷ 0 ∷ 0 ∷ 1 ∷ [])) empty_hub.conn
    ≡ packet (codes "stranger") (0 ∷ 0 ∷ 0 ∷ 0 ∷ 1 ∷ []) false
unfolding read_from_udp lookup
plain_read = refl

unready : is_ready (conn_key hello) [] ≡ false
unfolding is_ready lookup
unready = refl

not_hello : text_eq (conn_key hello) (codes "other") ≡ false
unfolding conn_key text_eq
not_hello = refl

hub_run_stalls_example :
    (hub_run toy_ciphers read_hello
      (udp (some (codes "stranger", 0 ∷ 0 ∷ 0 ∷ 0 ∷ 1 ∷ [])) ∷ others)
      empty_hub).delivered
    ≡ []
unfolding read_hello
hub_run_stalls_example =
    hub_run_stalls toy_ciphers read_hello (codes "stranger") (1 ∷ []) hello others empty_hub refl
      plain_read (omega arith) refl refl unready (not_hello, (tt, (tt, tt)))
