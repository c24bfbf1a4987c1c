-- ===== src/Wire.antt =====
-- Messages between entries and exits (util.go, pb/tuna.proto, tuna.go): length-prefixed bytes,
-- metadata, connection identifiers. Protocol buffers and base64 are the parameters `Proto` and
-- `Base64`; a reader is the bytes that it still delivers before it fails.
pub mod RoundTrip
use tuna.Common.{
  ℕ, zero, suc, ◌+◌, ◌-◌, ◌*◌, ◌/◌, ◌%◌, ◌^◌, ◌≤◌, ◌<◌, ◌≡◌, refl, sym, ap, ◌∙◌, subst, ◌≢◌, ◌↔◌,
  ◌⊎◌, inl, inr, Bool, true, false, not, ◌&&◌, ◌||◌, Option, none, some, List, [], ◌∷◌, ◌++◌,
  append_assoc, append-nil, arith, ltb, leb, ◌==◌, if◌then◌else◌, ltb→lt, lt→ltb, leb→le, le→leb,
  ==_iff, tests, Bool-cases, Option-cases, if_ind, option_ind, ◌>>=◌, >>=-eq-some, length,
  get_elem?, take, drop, length-append, length-take-le, take-length-append, drop-length-append,
  get_elem?-some, get_elem?-none, All, All-append, All-take, Any, Text, codes, is_empty, text_eq,
  to_lower, text_eq_iff, text_eq_refl, is_empty→nil,
}

abbrev pub max_conn_metadata_size : ℕ
max_conn_metadata_size = 1024

abbrev pub max_stream_metadata_size : ℕ
max_stream_metadata_size = 1024

abbrev pub max_service_metadata_size : ℕ
max_service_metadata_size = 4096

abbrev pub prefix_len : ℕ
prefix_len = 4

pub data EncryptionAlgo : Type 0 where
  encryption_none encryption_xsalsa20_poly1305 encryption_aes_gcm : EncryptionAlgo
  -- proto3 keeps other values of the enumeration
  encryption_other : ℕ → EncryptionAlgo

pub record ConnectionMetadata : Type 0 where
  pub encryption_algo : EncryptionAlgo
  pub public_key : Text
  pub nonce : Text
  pub is_measurement : Bool
  pub measurement_bytes_downlink : ℕ
  pub is_ping : Bool

pub record ServiceMetadata : Type 0 where
  pub ip : Text
  pub tcp_port : ℕ
  pub udp_port : ℕ
  pub service_id : ℕ
  pub service_tcp : List ℕ
  pub service_udp : List ℕ
  pub price : Text
  pub beneficiary_addr : Text

pub record StreamMetadata : Type 0 where
  pub service_id : ℕ
  pub port_id : ℕ
  pub is_payment : Bool

-- `proto.Marshal` and `proto.Unmarshal` at one message type
pub record Proto (M : Type 0) : Type 0 where
  pub marshal : M → Option Text
  pub unmarshal : Text → Option M
  -- what is marshalled is read back
  pub unmarshal-marshal : (m : M) (b : Text) → marshal m ≡ some b → unmarshal b ≡ some m

-- `base64.StdEncoding`
pub record Base64 : Type 0 where
  pub encode : Text → Text
  pub decode : Text → Option Text
  pub decode-encode : (b : Text) → decode (encode b) ≡ some b

-- `io.ReadFull` of `n` bytes: those, and what is left
unfoldable pub read_full : ℕ → Text → Option (Text × Text)
read_full n input = if ltb (length input) n then none else some (take n input, drop n input)

-- `binary.LittleEndian.PutUint32`, `Uint32`
unfoldable pub put_uint32 : ℕ → Text
put_uint32 n = n % 256 ∷ n / 2 ^ 8 % 256 ∷ n / 2 ^ 16 % 256 ∷ n / 2 ^ 24 % 256 ∷ []

unfoldable pub uint32_of : Text → ℕ
uint32_of (a ∷ b ∷ c ∷ d ∷ _) = a + 2 ^ 8 * b + 2 ^ 16 * c + 2 ^ 24 * d
uint32_of _ = 0

unfoldable pub read_sized : ℕ → ℕ → Text → Option (Text × Text)
read_sized max_msg_size msg_size input =
    if ltb max_msg_size msg_size then none else read_full msg_size input

-- `ReadVarBytes`: the message, and what the reader delivers after it
unfoldable pub read_var_bytes : ℕ → Text → Option (Text × Text)
read_var_bytes max_msg_size input = do
  (b, rest) ← read_full 4 input
  read_sized max_msg_size (uint32_of b) rest

-- `WriteVarBytes`: whether it succeeds, and what has been written, by whether the two writes succeed
unfoldable pub write_var_bytes : Bool → Bool → Text → Bool × Text
write_var_bytes len_ok body_ok b =
    let len_buf = put_uint32 (length b % 2 ^ 32) in
    if not len_ok
    then (false, [])
    else if not body_ok
    then (false, len_buf)
    else (true, len_buf ++ b)

module _ {M : Type 0} (proto : Proto M) where
  open proto use {marshal, unmarshal}

  -- `readConnMetadata` and `readStreamMetadata`, by their size limit
  unfoldable pub read_metadata : ℕ → Text → Option (M × Text)
  read_metadata limit input = do
    (b, rest) ← read_var_bytes limit input
    m ← unmarshal b
    some (m, rest)

  -- `writeConnMetadata` and `writeStreamMetadata`, over writes that succeed
  unfoldable pub write_metadata : M → Option Text
  write_metadata m = do b ← marshal m; some (write_var_bytes true true b).1

  -- the payload of `writeUDPConnMetadata`
  unfoldable pub udp_metadata_packet : M → Option Text
  udp_metadata_packet m = do b ← marshal m; some (0 ∷ 0 ∷ 0 ∷ 0 ∷ b)

module _ (proto : Proto ServiceMetadata) (base64 : Base64) where
  -- `CreateRawMetadata`; a failure to marshal ends the program
  unfoldable pub create_raw_metadata :
      ℕ → List ℕ → List ℕ → Text → ℕ → ℕ → Text → Text → Option Text
  create_raw_metadata service_id service_tcp service_udp ip tcp_port udp_port price
        beneficiary_addr =
      do
        b ← proto.marshal (record {
          ip = ip;
          tcp_port = tcp_port;
          udp_port = udp_port;
          service_id = service_id;
          service_tcp = service_tcp;
          service_udp = service_udp;
          price = price;
          beneficiary_addr = beneficiary_addr;
        })
        some (base64.encode b)

  -- `ReadMetadata`
  unfoldable pub read_service_metadata : Text → Option ServiceMetadata
  read_service_metadata s = do b ← base64.decode s; proto.unmarshal b

-- `PortToConnID`
unfoldable pub port_to_conn_id : ℕ → Text
port_to_conn_id port = port % 256 ∷ port / 2 ^ 8 % 256 ∷ []

-- `ConnIDToPort`; a shorter slice panics
unfoldable pub conn_id_to_port : Text → Option ℕ
conn_id_to_port (a ∷ b ∷ _) = some (a + 2 ^ 8 * b)
conn_id_to_port _ = none

-- `encryptionAlgoMap` and `ParseEncryptionAlgo`; `trim` is `strings.TrimSpace`
unfoldable pub parse_encryption_algo : (Text → Text) → Text → Option EncryptionAlgo
unfolding to_lower text_eq
parse_encryption_algo trim s =
    let name = to_lower (trim s) in
    if text_eq name (codes "none")
    then some encryption_none
    else if text_eq name (codes "xsalsa20-poly1305")
    then some encryption_xsalsa20_poly1305
    else if text_eq name (codes "aes-gcm")
    then some encryption_aes_gcm
    else none
