-- ===== src/Tests/Messages.antt =====
-- Messages on concrete bytes. A message type is marshalled by a function that is written here.
use mathlib.Core.Option
use tuna.Wire.{
  Proto, Base64, ServiceMetadata, read_var_bytes, write_var_bytes, read_metadata, write_metadata,
  create_raw_metadata, read_service_metadata, conn_id_to_port, port_to_conn_id, read_full,
  read_sized, put_uint32, uint32_of,
}
use tuna.Wire.RoundTrip.{length-read_var_bytes, read_metadata-write_metadata, conn_id_round_trip}
use tuna.Common.{
  ℕ, ◌≤◌, ◌≡◌, refl, Option, none, some, [], ◌∷◌, ◌++◌, arith, length, take, drop,
  take-length-append, drop-length-append, Text, codes,
}

read_two : read_var_bytes 8 (2 ∷ 0 ∷ 0 ∷ 0 ∷ 7 ∷ 8 ∷ 9 ∷ []) ≡ some (7 ∷ 8 ∷ [], 9 ∷ [])
unfolding read_var_bytes read_full read_sized uint32_of
read_two = refl

length-read_var_bytes_example : length {A = ℕ} (7 ∷ 8 ∷ []) ≤ 8
length-read_var_bytes_example =
    length-read_var_bytes 8 (2 ∷ 0 ∷ 0 ∷ 0 ∷ 7 ∷ 8 ∷ 9 ∷ []) (7 ∷ 8 ∷ []) (9 ∷ []) read_two

-- a byte as a message
abbrev byte_proto : Proto ℕ
byte_proto = record {
  marshal = λ n. some (n ∷ []);
  unmarshal = elim [ [] ↦ none | n ∷ b ↦ some n ];
  unmarshal-marshal = λ m b h. ground arith;
}

read_metadata-write_metadata_example :
    read_metadata byte_proto 1 ((1 ∷ 0 ∷ 0 ∷ 0 ∷ 9 ∷ []) ++ codes "rest") ≡ some (9, codes "rest")
unfolding write_metadata write_var_bytes put_uint32
read_metadata-write_metadata_example =
    read_metadata-write_metadata byte_proto 1 9 (9 ∷ []) (codes "rest") (1 ∷ 0 ∷ 0 ∷ 0 ∷ 9 ∷ [])
      refl (omega arith) (omega arith) refl

abbrev sample : ServiceMetadata
sample = record {
  ip = codes "10.0.0.1";
  tcp_port = 30020;
  udp_port = 30021;
  service_id = 1;
  service_tcp = 80 ∷ [];
  service_udp = [];
  price = codes "0.01";
  beneficiary_addr = [];
}

-- a list before a rest, behind its length
put : Text → Text → Text
put l rest = length l ∷ l ++ rest

get : Text → Text × Text
get [] = ([], [])
get (n ∷ s) = (take n s, drop n s)

get-put : (l rest : Text) → get (put l rest) ≡ (l, rest)
unfolding get put
get-put l rest = rw (take-length-append l rest, drop-length-append l rest)

put_service : ServiceMetadata → Text
put_service m =
    m.tcp_port
    ∷ m.udp_port
    ∷ m.service_id
    ∷ put m.ip (put m.service_tcp (put m.service_udp (put m.price (put m.beneficiary_addr []))))

get_service : Text → Option ServiceMetadata
get_service (tcp ∷ udp ∷ service ∷ s) =
    let (ip, s1) = get s in
    let (service_tcp, s2) = get s1 in
    let (service_udp, s3) = get s2 in
    let (price, s4) = get s3 in
    let (beneficiary_addr, s5) = get s4 in
    some (record {
      ip = ip;
      tcp_port = tcp;
      udp_port = udp;
      service_id = service;
      service_tcp = service_tcp;
      service_udp = service_udp;
      price = price;
      beneficiary_addr = beneficiary_addr;
    })
get_service _ = none

get-put_service : (m : ServiceMetadata) → get_service (put_service m) ≡ some m
unfolding get_service put_service
get-put_service m = rw (
  get-put m.ip (put m.service_tcp (put m.service_udp (put m.price (put m.beneficiary_addr [])))),
  get-put m.service_tcp (put m.service_udp (put m.price (put m.beneficiary_addr []))),
  get-put m.service_udp (put m.price (put m.beneficiary_addr [])),
  get-put m.price (put m.beneficiary_addr []),
  get-put m.beneficiary_addr [],
)

abbrev service_proto : Proto ServiceMetadata
service_proto = record {
  marshal = λ m. some (put_service m);
  unmarshal = get_service;
  unmarshal-marshal = λ m b h. ground (arith, get-put_service m);
}

abbrev plain64 : Base64
plain64 = record { encode = λ b. b; decode = λ b. some b; decode-encode = λ b. refl }

sample-read :
    (create_raw_metadata service_proto plain64 sample.service_id sample.service_tcp
        sample.service_udp sample.ip sample.tcp_port sample.udp_port sample.price
        sample.beneficiary_addr
      ≡ some (put_service sample))
    × (read_service_metadata service_proto plain64 (put_service sample) ≡ some sample)
unfolding create_raw_metadata read_service_metadata
sample-read = (refl, get-put_service sample)

conn_id_round_trip_example :
    (conn_id_to_port (port_to_conn_id 30020 ++ 7 ∷ []) ≡ some 30020)
    × (Option.map port_to_conn_id (conn_id_to_port (1 ∷ 2 ∷ 7 ∷ [])) ≡ some (1 ∷ 2 ∷ []))
conn_id_round_trip_example =
    conn_id_round_trip 30020 1 2 (7 ∷ []) (omega arith) (omega arith) (omega arith)
