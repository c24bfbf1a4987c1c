-- ===== src/Tests/Connecting.antt =====
-- A client that looks for an exit and connects to it.
use tuna.Common.Int.{ℤ, pos}
use tuna.Common.Dict.{lookup, insert}
use tuna.Net.{split, trim, itoa}
use tuna.Wire.{ServiceMetadata, encryption_aes_gcm}
use tuna.Conn.{sent_metadata, wrap_conn}
use tuna.Udp.{add_codec}
use tuna.Payment.{parse_price}
use tuna.Connect.{
  Reached, reached, assert_socket, or_udp_error, Client, Attempt, update_server_conn, Candidate,
  ConnectEnv, candidate_metadata, Search, create_server_conn, Created, created, search_loop,
  try_round, try_candidates, try_candidate, pay_candidate, connect_candidate, set_payment_receiver,
  receiver_of, reverse_ports, take_over, check_balance, on_handshake, after_handshake, update_udp,
  has_udp, udp_addr, close_tcp, close_udp, set_connected, wrap_udp_conn, add_exit_codec,
}
use tuna.Connect.Server.{IsConnected, update_server_conn-IsConnected}
use tuna.Connect.Chosen.{IsOffered, create_server_conn-IsChosen}
use tuna.Tests.Connections.{toy_keys, client, at_client, head_of, add_head}
use tuna.Tests.Datagrams.{toy_ciphers}
use tuna.Common.{
  ◌-◌, ◌≡◌, refl, Bool, true, false, Option, none, some, List, [], ◌∷◌, ◌++◌, Any, Text, codes,
  text_eq,
}

-- a number of one digit
price_of : Text → Option ℤ
price_of [] = none
price_of (d ∷ ds) = some (pos (d - b'0'))

abbrev env : ConnectEnv
env = record {
  to_fixed64 = price_of;
  verify_wallet = λ a. text_eq a (codes "wallet");
  min_balance = pos 5;
  max_price = codes "1";
}

abbrev attempt : Bool → Attempt
attempt tcp_ok = record {
  tcp_ok = tcp_ok;
  exchange = at_client;
  udp_ok = true;
  udp_write_ok = λ i. true;
  addr_string = λ ip port. ip ++ b':' ∷ itoa port;
}

abbrev metadata_of : Text → ServiceMetadata
metadata_of price = record {
  ip = codes "10.0.0.1";
  tcp_port = 30020;
  udp_port = 30021;
  service_id = 0;
  service_tcp = 80 ∷ [];
  service_udp = 53 ∷ [];
  price = price;
  beneficiary_addr = [];
}

-- The metadata of the latest subscription has a price of 9, though the node was chosen at 1.
abbrev candidate : Bool → Candidate
candidate tcp_ok = record {
  address = codes "exit";
  metadata = metadata_of (codes "1");
  latest = some (metadata_of (codes "9"));
  public_key = some (6 ∷ []);
  wallet_addr = some (codes "wallet");
  attempt = attempt tcp_ok;
}

abbrev start : Client
start = record {
  host = client;
  service_udp = 53 ∷ [];
  reverse_metadata = none;
  metadata = metadata_of [];
  remote_nkn_address = [];
  payment_receiver = [];
  prices = (pos 0, pos 0);
  tcp_conn = none;
  udp_conn = none;
  connected = false;
  notified = 0;
}

-- no candidate at first, and then one that cannot be dialled before one that can
abbrev searches : List Search
searches =
    record { is_closed = false; balance = none; candidates = none }
    ∷ record {
      is_closed = false;
      balance = some (pos 7);
      candidates = some (candidate false ∷ candidate true ∷ []);
    }
    ∷ []

abbrev result : Client × Created
result = create_server_conn toy_keys toy_ciphers env false searches start

-- The price that is adopted is above the limit.
result-created :
    (result.1 ≡ created)
    × (result.0.prices ≡ (pos 9, pos 9))
    × (result.0.payment_receiver ≡ codes "wallet")
    × (result.0.notified ≡ 1)
unfolding create_server_conn search_loop try_round try_candidates try_candidate pay_candidate
    connect_candidate update_server_conn on_handshake after_handshake update_udp has_udp udp_addr
    close_tcp close_udp set_connected wrap_udp_conn assert_socket or_udp_error add_exit_codec
    set_payment_receiver receiver_of reverse_ports take_over check_balance candidate_metadata
    parse_price price_of wrap_conn sent_metadata lookup insert text_eq add_head head_of add_codec
    split trim
result-created = (refl, refl, refl, refl)

create_server_conn-IsChosen_example : Any (IsOffered toy_keys toy_ciphers env result.0) searches
create_server_conn-IsChosen_example =
    create_server_conn-IsChosen toy_keys toy_ciphers env false searches start refl refl
      result-created.0

abbrev linked : Client × Reached
linked = update_server_conn toy_keys toy_ciphers (attempt true) (6 ∷ []) start

linked-ok : linked.1 ≡ reached
unfolding update_server_conn on_handshake after_handshake update_udp has_udp udp_addr close_tcp
    close_udp set_connected wrap_udp_conn assert_socket or_udp_error add_exit_codec wrap_conn
    sent_metadata lookup insert text_eq add_head head_of add_codec
linked-ok = refl

update_server_conn-IsConnected_example :
    (key : Text) × IsConnected (attempt true) encryption_aes_gcm start key linked.0
update_server_conn-IsConnected_example =
    update_server_conn-IsConnected toy_keys toy_ciphers (attempt true) (6 ∷ []) start (λ e. cc)
      linked-ok
