-- ===== src/Udp.antt =====
-- The encrypted UDP connection (udp.go) and the reader of `startUDPReaderWriter` (tuna.go). The
-- ciphers are the interface `CipherOps`. That the reader waits for a handshake to be finished is that
-- a packet with metadata is an input of the step only after that.
pub mod Keyed
pub mod Packet
use tuna.Common.Dict.{Dict, lookup, insert}
use tuna.Wire.{ConnectionMetadata, EncryptionAlgo, encryption_other, prefix_len}
use tuna.Common.{
  ℕ, zero, suc, ◌+◌, ◌-◌, ◌*◌, ◌/◌, ◌%◌, ◌^◌, ◌≤◌, ◌<◌, ◌≡◌, refl, sym, ap, ◌∙◌, subst, ◌≢◌, ◌↔◌,
  ◌⊎◌, inl, inr, Bool, true, false, not, ◌&&◌, ◌||◌, Option, none, some, List, [], ◌∷◌, ◌++◌,
  append_assoc, append-nil, arith, ltb, leb, ◌==◌, if◌then◌else◌, ltb→lt, lt→ltb, leb→le, le→leb,
  ==_iff, tests, Bool-cases, Option-cases, if_ind, option_ind, ◌>>=◌, >>=-eq-some, length,
  get_elem?, take, drop, length-append, length-take-le, take-length-append, drop-length-append,
  get_elem?-some, get_elem?-none, All, All-append, All-take, Any, Text, codes, is_empty, text_eq,
  to_lower, text_eq_iff, text_eq_refl, is_empty→nil,
}

-- the encoder or the decoder for an address
pub record Codec : Type 0 where
  pub algo : EncryptionAlgo
  pub key : Text
  pub initiator : Bool

pub record CipherOps : Type 0 where
  -- whether `NewEncoder` and `NewDecoder` succeed
  pub new_ok : Codec → Bool
  -- `Encode`, with its random nonce, and `Decode`
  pub encode : Codec → Text → Text → Option Text
  pub decode : Codec → Text → Option Text

pub record UdpConn : Type 0 where
  pub encoders : Dict Codec
  pub decoders : Dict Codec
  pub is_closed : Bool

pub is_supported : EncryptionAlgo → Bool
is_supported (encryption_other n) = false
is_supported _ = true

codec_of : EncryptionAlgo → Text → Bool → Codec
codec_of algo key initiator = record { algo = algo; key = key; initiator = initiator }

-- `AddCodec`
unfoldable pub add_codec :
    CipherOps → Text → Text → EncryptionAlgo → Bool → UdpConn → Option UdpConn
unfolding is_supported codec_of
add_codec ops addr key algo initiator conn =
    if is_supported algo && ops.new_ok (codec_of algo key initiator)
    then some (record conn {
      encoders = insert addr (codec_of algo key initiator) conn.encoders;
      decoders = insert addr (codec_of algo key initiator) conn.decoders;
    })
    else none

pub data ReadResult : Type 0 where
  closed_pipe read_error : ReadResult
  -- the sender, the bytes, and whether they were encrypted
  packet : Text → Text → Bool → ReadResult

decoded : CipherOps → Text → Text → Option Codec → ReadResult
decoded ops addr bytes none = packet addr bytes false
decoded ops addr bytes (some codec) = elim (ops.decode codec bytes) [
  | none ↦ read_error
  | some plain ↦ packet addr plain true
]

-- `ReadFromUDPEncrypted`; the socket gives a sender and bytes, or an error
unfoldable pub read_from_udp : CipherOps → Option (Text × Text) → UdpConn → ReadResult
unfolding decoded
read_from_udp ops none conn = if conn.is_closed then closed_pipe else read_error
read_from_udp ops (some (addr, bytes)) conn =
    if conn.is_closed then closed_pipe else decoded ops addr bytes (lookup addr conn.decoders)

-- `WriteMsgUDPEncrypted`: the bytes that are sent, and whether they are encrypted
unfoldable pub write_msg_udp :
    CipherOps → Text → Bool → Text → Text → UdpConn → Option (Text × Bool)
write_msg_udp ops nonce sent_ok addr b conn =
    if conn.is_closed then none else elim (lookup addr conn.encoders) [
      | none ↦ if sent_ok then some (b, false) else none
      | some codec ↦ elim (ops.encode codec nonce b) [
        | none ↦ none
        | some ciphertext ↦ if sent_ok then some (ciphertext, true) else none
      ]
    ]

-- an addition to a counter: to the one of the reader, or to that of a service of a client
pub data Count : Type 0 where
  total : ℕ → Count
  per_service : Text → ℕ → ℕ → Count

-- What the reader reads of its `Common`: the keys of finished handshakes, the connection keys that
-- have counters, whether this is a server, and whether `in` is a counter (`out` is one with it).
pub record ReaderEnv : Type 0 where
  pub encrypt_keys : Dict Text
  pub counters : Dict Bool
  pub is_server : Bool
  pub has_counter : Bool
  -- `parseUDPConnMetadata`
  pub parse : Text → Option ConnectionMetadata

pub record Reader : Type 0 where
  pub conn : UdpConn
  pub addr_to_key : Dict Text
  -- what has been sent to `udpReadChan`, and the additions to counters, in order
  pub delivered : List Text
  pub counted : List Count

add_count : Count → Reader → Reader
add_count c r = record r { counted = r.counted ++ c ∷ [] }

-- `reverseBytesEntryToExit[k][b[2]]`, which panics on a short packet and on a key without counters
count_service : ReaderEnv → Text → Text → Reader → Option Reader
unfolding add_count
count_service env key (a ∷ b ∷ service ∷ rest) r = elim (lookup key env.counters) [
  | none ↦ none
  | some c ↦ some (add_count (per_service key service (3 + length rest)) r)
]
count_service env key _ r = none

count_packet : ReaderEnv → Text → Text → Reader → Option Reader
unfolding count_service
count_packet env addr payload r =
    if env.has_counter
    then some (add_count (total (length payload)) r)
    else elim (lookup addr r.addr_to_key) [
      | none ↦ some r
      | some key ↦ count_service env key payload r
    ]

set_codec : ReaderEnv → Text → Text → Option UdpConn → Reader → Reader
set_codec env addr key none r = r
set_codec env addr key (some conn) r = record r {
  conn = conn;
  addr_to_key = if env.has_counter then r.addr_to_key else insert addr key r.addr_to_key;
}

-- the metadata of a client, who gets a codec under the key of its handshake
register : CipherOps → ReaderEnv → Text → Bool → ConnectionMetadata → Reader → Reader
unfolding set_codec
register ops env addr is_encrypted m r =
    if m.is_ping || is_encrypted
    then r
    else elim (lookup (m.public_key ++ m.nonce) env.encrypt_keys) [
      | none ↦ r
      | some key ↦
          set_codec env addr (m.public_key ++ m.nonce)
            (add_codec ops addr key m.encryption_algo false r.conn) r
    ]

pub is_metadata : ReaderEnv → Text → Bool
is_metadata env payload =
    text_eq (take prefix_len payload) (0 ∷ 0 ∷ 0 ∷ 0 ∷ [])
    && env.is_server
    && ltb prefix_len (length payload)

-- what the reader makes of a packet
receive : CipherOps → ReaderEnv → Text → Text → Bool → Reader → Option Reader
unfolding is_metadata
receive ops env addr payload is_encrypted r =
    if is_metadata env payload
    then elim (env.parse (drop prefix_len payload)) [
      | none ↦ some r
      | some m ↦ some (register ops env addr is_encrypted m r)
    ]
    else if not is_encrypted || is_empty payload
    then some r
    else count_packet env addr payload (record r { delivered = r.delivered ++ payload ∷ [] })

on_result : CipherOps → ReaderEnv → ReadResult → Reader → Option Reader
on_result ops env closed_pipe r = some r
on_result ops env read_error r = some r
on_result ops env (packet addr payload is_encrypted) r = receive ops env addr payload is_encrypted r

-- One turn of the reader of `startUDPReaderWriter`; `none` is a panic.
unfoldable pub read_step : CipherOps → ReaderEnv → Option (Text × Text) → Reader → Option Reader
unfolding on_result receive register count_packet count_service
read_step ops env input r = on_result ops env (read_from_udp ops input r.conn) r

unfoldable pub read_run :
    CipherOps → ReaderEnv → List (Option (Text × Text)) → Reader → Option Reader
read_run ops env [] r = some r
read_run ops env (input ∷ inputs) r = do r' ← read_step ops env input r; read_run ops env inputs r'
