-- ===== src/Conn.antt =====
-- Connections between an entry and an exit: `wrapConn`, `getOrComputeSharedKey` (tuna.go),
-- `computeEncryptKey` and `encryptConn` (encryption.go). Cryptography is the interface `KeyOps`.
pub mod Keys
pub mod Handshake
pub mod Stored
use tuna.Common.Dict.{Dict, lookup, insert}
use tuna.Wire.{
  ConnectionMetadata, EncryptionAlgo, encryption_none, encryption_xsalsa20_poly1305,
  encryption_aes_gcm, encryption_other,
}
use tuna.Common.{
  ℕ, zero, suc, ◌+◌, ◌-◌, ◌*◌, ◌/◌, ◌%◌, ◌^◌, ◌≤◌, ◌<◌, ◌≡◌, refl, sym, ap, ◌∙◌, subst, ◌≢◌, ◌↔◌,
  ◌⊎◌, inl, inr, Bool, true, false, not, ◌&&◌, ◌||◌, Option, none, some, List, [], ◌∷◌, ◌++◌,
  append_assoc, append-nil, arith, ltb, leb, ◌==◌, if◌then◌else◌, ltb→lt, lt→ltb, leb→le, le→leb,
  ==_iff, tests, Bool-cases, Option-cases, if_ind, option_ind, ◌>>=◌, >>=-eq-some, length,
  get_elem?, take, drop, length-append, length-take-le, take-length-append, drop-length-append,
  get_elem?-some, get_elem?-none, All, All-append, All-take, Any, Text, codes, is_empty, text_eq,
  to_lower, text_eq_iff, text_eq_refl, is_empty→nil,
}

pub record KeyOps : Type 0 where
  -- the public key of a wallet, by its curve25519 secret
  pub public_of : Text → Text
  -- `PublicKeyToCurve25519PublicKey`
  pub to_curve : Text → Option Text
  -- `box.Precompute`
  pub precompute : Text → Text → Text
  -- `sha256.Sum256`
  pub sum256 : Text → Text
  -- Diffie-Hellman: two hosts compute the same shared key
  pub precompute_sym :
      (a b c d : Text)
      → to_curve (public_of a) ≡ some c
      → to_curve (public_of b) ≡ some d
      → precompute a d ≡ precompute b c

-- What `wrapConn` uses of its `Common`. `ready` tells which channels of `connReadyChan` hold a token.
pub record Host : Type 0 where
  pub secret : Text
  pub public_key : Text
  pub encryption_algo : EncryptionAlgo
  pub is_server : Bool
  pub shared_keys : Dict Text
  pub encrypt_keys : Dict Text
  pub ready : Dict Bool

-- What a call of `wrapConn` meets: the random nonce, whether the deadline can be set and the metadata
-- written, what `readConnMetadata` returns, and for which algorithms the stream can be made.
pub record Exchange : Type 0 where
  pub nonce : Text
  pub deadline_ok : Bool
  pub write_ok : Bool
  pub read : Option ConnectionMetadata
  pub stream_ok : EncryptionAlgo → Bool

-- a connection as it is, or `NewEncryptedStream` over it with a key and the flag `Initiator`
pub data Channel : Type 0 where
  plain : Channel
  encrypted : EncryptionAlgo → Text → Bool → Channel

pub record Wrapped : Type 0 where
  pub channel : Channel
  pub remote : ConnectionMetadata

abbrev pub encrypt_key_size : ℕ
encrypt_key_size = 32

abbrev pub public_key_size : ℕ
public_key_size = 32

pub zeros : ℕ → Text
zeros zero = []
zeros (suc n) = 0 ∷ zeros n

abbrev pub is_none_algo : EncryptionAlgo → Bool
is_none_algo encryption_none = true
is_none_algo encryption_xsalsa20_poly1305 = false
is_none_algo encryption_aes_gcm = false
is_none_algo (encryption_other n) = false

-- the algorithms that `encryptConn` knows
is_known : EncryptionAlgo → Bool
is_known (encryption_other n) = false
is_known _ = true

abbrev pub empty_metadata : ConnectionMetadata
empty_metadata = record {
  encryption_algo = encryption_none;
  public_key = [];
  nonce = [];
  is_measurement = false;
  measurement_bytes_downlink = 0;
  is_ping = false;
}

or_empty : Option ConnectionMetadata → ConnectionMetadata
or_empty none = empty_metadata
or_empty (some m) = m

-- `computeEncryptKey`
pub compute_encrypt_key : KeyOps → Text → Text → Text
compute_encrypt_key ops conn_nonce shared_key = ops.sum256 (conn_nonce ++ shared_key)

-- `encryptConn`
pub encrypt_conn : (EncryptionAlgo → Bool) → Text → EncryptionAlgo → Bool → Option Channel
unfolding is_known
encrypt_conn stream_ok key algo initiator =
    if is_none_algo algo
    then some plain
    else if is_known algo && stream_ok algo
    then some (encrypted algo key initiator)
    else none

-- from the cached key on
cached_or_computed : KeyOps → Text → Host → Option Text → Option (Text × Host)
cached_or_computed ops remote_public_key h (some shared_key) = some (shared_key, h)
cached_or_computed ops remote_public_key h none = do
  curve ← ops.to_curve remote_public_key
  some (
    ops.precompute h.secret curve,
    record h {
      shared_keys = insert remote_public_key (ops.precompute h.secret curve) h.shared_keys;
    },
  )

-- `getOrComputeSharedKey`
get_or_compute_shared_key : KeyOps → Text → Host → Option (Text × Host)
unfolding cached_or_computed
get_or_compute_shared_key ops remote_public_key h =
    cached_or_computed ops remote_public_key h (lookup remote_public_key h.shared_keys)

-- the key of the connection
pub derive_key : KeyOps → EncryptionAlgo → Text → Text → Host → Option (Text × Host)
unfolding zeros compute_encrypt_key
derive_key ops algo remote_public_key conn_nonce h =
    if is_none_algo algo then some (zeros encrypt_key_size, h) else (do
      (shared_key, h') ← get_or_compute_shared_key ops remote_public_key h
      some (compute_encrypt_key ops conn_nonce shared_key, h'))

-- the key is stored, and on a server the token is put into its channel
store_key : Text → Text → Host → Host
store_key k key h = record h {
  encrypt_keys = insert k key h.encrypt_keys;
  ready = if h.is_server then insert k true h.ready else h.ready;
}

-- The metadata that `wrapConn` writes. The side that knows the other's key names the algorithm, the
-- other side the nonce.
unfoldable pub sent_metadata : Host → Text → Option ConnectionMetadata → Text → ConnectionMetadata
unfolding or_empty
sent_metadata h remote_public_key local nonce =
    if not (is_empty remote_public_key)
    then record (or_empty local) { encryption_algo = h.encryption_algo; public_key = h.public_key }
    else record (or_empty local) { nonce = nonce; public_key = h.public_key }

-- what the two sides agree on: the algorithm, the other's key, the nonce; and its metadata
pub record Agreed : Type 0 where
  pub algo : EncryptionAlgo
  pub peer : Text
  pub conn_nonce : Text
  pub remote : ConnectionMetadata

-- the side that knows the other's key
negotiate_known : Host → Text → ConnectionMetadata → Option Agreed
negotiate_known h remote_public_key remote =
    if text_eq remote.public_key remote_public_key
    then some (record {
      algo = h.encryption_algo;
      peer = remote_public_key;
      conn_nonce = remote.nonce;
      remote = remote;
    })
    else none

-- the other side
negotiate_new : Text → ConnectionMetadata → Option Agreed
negotiate_new nonce remote =
    if length remote.public_key == public_key_size
    then some (record {
      algo = remote.encryption_algo;
      peer = remote.public_key;
      conn_nonce = nonce;
      remote = record remote { nonce = nonce };
    })
    else none

pub negotiate : Exchange → Host → Text → Option Agreed
unfolding negotiate_known negotiate_new
negotiate ex h remote_public_key =
    if ex.deadline_ok && ex.write_ok
    then (do
      remote ← ex.read
      if not (is_empty remote_public_key)
          then negotiate_known h remote_public_key remote
          else negotiate_new ex.nonce remote)
    else none

-- From the key on. `remotePublicKey` has been set on both sides here, so both are initiators.
pub wrap_agreed : KeyOps → Exchange → Host → Agreed → Host × Option Wrapped
unfolding derive_key encrypt_conn store_key
wrap_agreed ops ex h a = elim (derive_key ops a.algo a.peer a.conn_nonce h) [
  | none ↦ (h, none)
  | some (key, h') ↦ (
    store_key (a.peer ++ a.conn_nonce) key h',
    (do
      channel ← encrypt_conn ex.stream_ok key a.algo (not (is_empty a.peer))
      some (record { channel = channel; remote = a.remote })),
  )
]

-- `wrapConn`: the host afterwards, and the connection with the other's metadata, or an error
unfoldable pub wrap_conn : KeyOps → Exchange → Text → Host → Host × Option Wrapped
unfolding negotiate wrap_agreed get_or_compute_shared_key
wrap_conn ops ex remote_public_key h = elim (negotiate ex h remote_public_key) [
  | none ↦ (h, none)
  | some a ↦ wrap_agreed ops ex h a
]
