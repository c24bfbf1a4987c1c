-- ===== src/Tests/Datagrams.antt =====
-- The UDP reader of a server on concrete packets. A codec drops the first byte of a packet.
use tuna.Common.Dict.{lookup, insert}
use tuna.Wire.{ConnectionMetadata, encryption_aes_gcm}
use tuna.Udp.{
  Count, Codec, CipherOps, ReaderEnv, Reader, add_codec, read_from_udp, read_step, read_run,
}
use tuna.Udp.Keyed.{Among, read_run-IsKeyed, IsKeyed}
use tuna.Common.{
  ◌≡◌, refl, true, false, Option, none, some, List, [], ◌∷◌, ◌++◌, Text, codes, text_eq,
}

unfoldable pub drop_first : Text → Option Text
drop_first [] = none
drop_first (a ∷ s) = some s

abbrev pub toy_ciphers : CipherOps
toy_ciphers = record {
  new_ok = λ c. true;
  encode = λ c nonce b. some (nonce ++ b);
  decode = λ c b. drop_first b;
}

abbrev pub hello : ConnectionMetadata
hello = record {
  encryption_algo = encryption_aes_gcm;
  public_key = codes "key";
  nonce = codes "nonce";
  is_measurement = false;
  measurement_bytes_downlink = 0;
  is_ping = false;
}

abbrev env : ReaderEnv
env = record {
  encrypt_keys = (codes "keynonce", codes "secret") ∷ [];
  counters = (codes "keynonce", true) ∷ [];
  is_server = true;
  has_counter = false;
  parse = λ b. some hello;
}

abbrev quiet : Reader
quiet = record {
  conn = record { encoders = []; decoders = []; is_closed = false };
  addr_to_key = [];
  delivered = [];
  counted = [];
}

-- metadata, an encrypted packet, and a packet from a stranger
abbrev inputs : List (Option (Text × Text))
inputs =
    some (codes "client", 0 ∷ 0 ∷ 0 ∷ 0 ∷ 1 ∷ [])
    ∷ some (codes "client", 9 ∷ 1 ∷ 2 ∷ 3 ∷ 4 ∷ [])
    ∷ some (codes "stranger", 5 ∷ 6 ∷ 7 ∷ 8 ∷ [])
    ∷ []

abbrev codec : Codec
codec = record { algo = encryption_aes_gcm; key = codes "secret"; initiator = false }

abbrev served : Reader
served = record {
  conn = record {
    encoders = (codes "client", codec) ∷ [];
    decoders = (codes "client", codec) ∷ [];
    is_closed = false;
  };
  addr_to_key = (codes "client", codes "keynonce") ∷ [];
  delivered = (1 ∷ 2 ∷ 3 ∷ 4 ∷ []) ∷ [];
  counted = Count.per_service (codes "keynonce") 3 4 ∷ [];
}

inputs-served : read_run toy_ciphers env inputs quiet ≡ some served
unfolding read_run read_step read_from_udp lookup text_eq add_codec insert drop_first
inputs-served = refl

read_run-IsKeyed_example : IsKeyed toy_ciphers env (Among inputs) served
read_run-IsKeyed_example =
    read_run-IsKeyed toy_ciphers env inputs quiet served refl refl inputs-served
