-- ===== src/Reverse.antt =====
-- The UDP side of an entry in reverse mode (`StartReverse` of entry.go): one reader for all exits, which
-- waits for the TCP connection of an exit that sends its metadata, and the goroutine that waits for the
-- UDP address of an exit. A connection's own goroutine is the two events `tcp_ready` and `udp_wait`,
-- and its deferred clean-up the event `tcp_gone`.
pub mod Routes
pub mod Reader
pub mod Stalled
use tuna.Common.Dict.{Dict, lookup, insert, remove}
use tuna.Wire.{ConnectionMetadata, prefix_len}
use tuna.Udp.{
  CipherOps, UdpConn, ReadResult, closed_pipe, read_error, packet, add_codec, read_from_udp,
}
use tuna.Common.{
  ℕ, zero, suc, ◌+◌, ◌-◌, ◌*◌, ◌/◌, ◌%◌, ◌^◌, ◌≤◌, ◌<◌, ◌≡◌, refl, sym, ap, ◌∙◌, subst, ◌≢◌, ◌↔◌,
  ◌⊎◌, inl, inr, Bool, true, false, not, ◌&&◌, ◌||◌, Option, none, some, List, [], ◌∷◌, ◌++◌,
  append_assoc, append-nil, arith, ltb, leb, ◌==◌, if◌then◌else◌, ltb→lt, lt→ltb, leb→le, le→leb,
  ==_iff, tests, Bool-cases, Option-cases, if_ind, option_ind, ◌>>=◌, >>=-eq-some, length,
  get_elem?, take, drop, length-append, length-take-le, length-take, take-append-drop,
  take-length-append, drop-length-append, get_elem?-some, get_elem?-none, All, All-append, All-take,
  Any, Text, codes, is_empty, text_eq, to_lower, text_eq_iff, text_eq_refl, is_empty→nil,
}

-- where the reader stands: it reads, it waits for the connection of the sender of some metadata, it has
-- returned, or it has panicked
pub data ReaderAt : Type 0 where
  reading returned panicked : ReaderAt
  waiting : Text → ConnectionMetadata → ReaderAt

-- The maps of `StartReverse`, entries being numbers. `tcp_is_ready` has the keys whose channel is
-- closed; `udp_is_ready` those that have a channel, and whether it is closed. `counted` has the
-- additions to `reverseBytesEntryToExit` since it was made, as services and bytes.
pub record Hub : Type 0 where
  pub conn : UdpConn
  pub enc_keys : Dict Text
  pub tcp_entries : Dict ℕ
  pub udp_entries : Dict ℕ
  pub tcp_is_ready : Dict Bool
  pub udp_is_ready : Dict Bool
  pub addr_to_key : Dict Text
  pub key_to_addr : Dict Text
  pub counted : Dict (List (ℕ × ℕ))
  pub delivered : List (ℕ × Text)
  pub reader : ReaderAt

-- the key of a connection
unfoldable pub conn_key : ConnectionMetadata → Text
conn_key m = m.public_key ++ m.nonce

-- `closeChan` on the channel of a key, if there is one
unfoldable pub close_udp_ready : Text → Dict Bool → Dict Bool
close_udp_ready k ready = elim (lookup k ready) [ none ↦ ready | some c ↦ insert k true ready ]

-- a client whose connection is there
unfoldable pub join : Text → Text → ℕ → UdpConn → Hub → Hub
unfolding close_udp_ready
join addr k te conn h = record h {
  conn = conn;
  counted = insert k [] h.counted;
  udp_entries = insert addr te h.udp_entries;
  addr_to_key = insert addr k h.addr_to_key;
  key_to_addr = insert k addr h.key_to_addr;
  udp_is_ready = close_udp_ready k h.udp_is_ready;
  reader = reading;
}

-- the entry of a client that has its codec
unfoldable pub find_entry : Text → Text → UdpConn → Hub → Hub
unfolding join
find_entry addr k conn h = elim (lookup k h.tcp_entries) [
  | none ↦ record h { conn = conn; reader = reading }
  | some te ↦ join addr k te conn h
]

-- what follows the wait for the connection; an error of `AddCodec` ends the reader
unfoldable pub register : CipherOps → Text → ConnectionMetadata → Hub → Hub
unfolding find_entry conn_key
register ops addr m h = elim (lookup (conn_key m) h.enc_keys) [
  | none ↦ record h { reader = reading }
  | some key ↦ elim (add_codec ops addr key m.encryption_algo false h.conn) [
    | none ↦ record h { reader = returned }
    | some conn ↦ find_entry addr (conn_key m) conn h
  ]
]

unfoldable pub is_ready : Text → Dict Bool → Bool
is_ready k ready = elim (lookup k ready) [ none ↦ false | some c ↦ c ]

-- metadata of a client
unfoldable pub on_metadata : CipherOps → Text → Bool → ConnectionMetadata → Hub → Hub
unfolding register is_ready
on_metadata ops addr is_encrypted m h =
    if m.is_ping || is_encrypted
    then h
    else if is_ready (conn_key m) h.tcp_is_ready
    then register ops addr m h
    else record h { reader = waiting addr m }

-- `reverseBytesEntryToExit[k][b[2]]`
unfoldable pub count_reverse : Text → Text → Hub → Hub
count_reverse k (a ∷ b ∷ service ∷ rest) h = elim (lookup k h.counted) [
  | none ↦ record h { reader = panicked }
  | some c ↦ record h { counted = insert k (c ++ (service, 3 + length rest) ∷ []) h.counted }
]
count_reverse k _ h = record h { reader = panicked }

-- a packet for an entry
unfoldable pub on_data : Text → Text → Hub → Hub
unfolding count_reverse
on_data addr payload h = elim (lookup addr h.udp_entries) [
  | none ↦ h
  | some te ↦ if is_empty payload then h else elim (lookup addr h.addr_to_key) [
    | none ↦ h
    | some k ↦ count_reverse k payload (record h { delivered = h.delivered ++ (te, payload) ∷ [] })
  ]
]

-- what the reader makes of a result; `parse` is `parseUDPConnMetadata`
unfoldable pub on_read : CipherOps → (Text → Option ConnectionMetadata) → ReadResult → Hub → Hub
unfolding on_metadata on_data
on_read ops parse closed_pipe h = h
on_read ops parse read_error h = h
on_read ops parse (packet addr payload is_encrypted) h =
    if text_eq (take prefix_len payload) (0 ∷ 0 ∷ 0 ∷ 0 ∷ []) && ltb prefix_len (length payload)
    then elim (parse (drop prefix_len payload)) [
      | none ↦ h
      | some m ↦ on_metadata ops addr is_encrypted m h
    ]
    else if not is_encrypted
    then h
    else on_data addr payload h

-- the reader goes on if it waits for the connection of this key
unfoldable pub resume : CipherOps → Text → ReaderAt → Hub → Hub
resume ops k (waiting addr m) h = if text_eq (conn_key m) k then register ops addr m h else h
resume ops k _ h = h

pub data HubEvent : Type 0 where
  -- a packet, or an error of the socket
  udp : Option (Text × Text) → HubEvent
  -- `tcpEntrys.Store`, `encKeys.Store` and the close of the channel in `tcpReady`: the key of the
  -- connection, its encryption key, its entry
  tcp_ready : Text → Text → ℕ → HubEvent
  -- `udpReady.Store`
  udp_wait : Text → HubEvent
  -- `tcpEntrys.Delete` and `encKeys.Delete`
  tcp_gone : Text → HubEvent

-- a packet, which stays in the socket unless the reader reads
unfoldable pub on_udp :
    CipherOps → (Text → Option ConnectionMetadata) → Option (Text × Text) → ReaderAt → Hub → Hub
unfolding on_read
on_udp ops parse input reading h = on_read ops parse (read_from_udp ops input h.conn) h
on_udp ops parse input _ h = h

unfoldable pub hub_step : CipherOps → (Text → Option ConnectionMetadata) → HubEvent → Hub → Hub
unfolding on_udp resume
hub_step ops parse (udp input) h = on_udp ops parse input h.reader h
hub_step ops parse (tcp_ready k key te) h = resume ops k h.reader (record h {
  tcp_entries = insert k te h.tcp_entries;
  enc_keys = insert k key h.enc_keys;
  tcp_is_ready = insert k true h.tcp_is_ready;
})
hub_step ops parse (udp_wait k) h = record h { udp_is_ready = insert k false h.udp_is_ready }
hub_step ops parse (tcp_gone k) h = record h {
  tcp_entries = remove k h.tcp_entries;
  enc_keys = remove k h.enc_keys;
}

unfoldable pub hub_run : CipherOps → (Text → Option ConnectionMetadata) → List HubEvent → Hub → Hub
hub_run ops parse [] h = h
hub_run ops parse (e ∷ es) h = hub_run ops parse es (hub_step ops parse e h)
