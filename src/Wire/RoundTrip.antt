-- ===== src/Wire/RoundTrip.antt =====
-- What is written is read back, with the reader left just behind the message.
use mathlib.Core.Option
use tuna.Wire.{
  Proto, read_full, put_uint32, uint32_of, read_sized, read_var_bytes, write_var_bytes,
  read_metadata, write_metadata, port_to_conn_id, conn_id_to_port,
}
use tuna.Common.{
  ℕ, ◌%◌, ◌^◌, ◌≤◌, ◌<◌, ◌≡◌, refl, ap, ◌∙◌, true, false, none, some, [], ◌∷◌, ◌++◌, append_assoc,
  arith, ltb, lt→ltb, >>=-eq-some, length, length-append, length-take-le, take-length-append,
  drop-length-append, Text,
}

abbrev pub IsByte : ℕ → Type 0
IsByte c = c < 256

read_full-append : (a b : Text) → read_full (length a) (a ++ b) ≡ some (a, b)
unfolding read_full
read_full-append a b =
    let enough : ltb (length (a ++ b)) (length a) ≡ false = ground (arith, length-append a b) in
    rw (enough, take-length-append, drop-length-append)

read_header : (n : ℕ) (r : Text) → read_full 4 (put_uint32 n ++ r) ≡ some (put_uint32 n, r)
unfolding put_uint32
read_header n r = read_full-append (put_uint32 n) r

uint32_of-header : (n : ℕ) → n < 2 ^ 32 → uint32_of (put_uint32 n) ≡ n
unfolding uint32_of put_uint32
uint32_of-header n h = omega arith

write_var_bytes_lem :
    (b : Text) → (write_var_bytes true true b).1 ≡ put_uint32 (length b % 2 ^ 32) ++ b
unfolding write_var_bytes
write_var_bytes_lem b = refl

-- the reader in front of a header that was written
read_written :
    (limit : ℕ) (b rest : Text)
    → length b < 2 ^ 32
    → read_var_bytes limit ((write_var_bytes true true b).1 ++ rest)
      ≡ read_sized limit (length b) (b ++ rest)
unfolding read_var_bytes
read_written limit b rest small =
    let n : ℕ = length b % 2 ^ 32 in
    let same : n ≡ length b = omega arith in
    rw (
      write_var_bytes_lem b,
      append_assoc (put_uint32 n) b rest,
      read_var_bytes,
      read_header n (b ++ rest),
      uint32_of-header n (omega arith),
      same,
    )

-- A message that fits the reader's limit is read back whole, and the bytes behind it are left.
read_var_bytes-write_var_bytes :
    (limit : ℕ) (b rest : Text)
    → length b ≤ limit
    → limit < 2 ^ 32
    → read_var_bytes limit ((write_var_bytes true true b).1 ++ rest) ≡ some (b, rest)
read_var_bytes-write_var_bytes limit b rest h small =
    let fits : ltb limit (length b) ≡ false = ground arith in
    read_written limit b rest (omega arith)
    ∙ unfold read_sized in rw (fits, read_full-append b rest)

-- A message that is longer than the limit and shorter than 2 ^ 32 is refused.
read_var_bytes_refuses :
    (limit : ℕ) (b rest : Text)
    → limit < length b
    → length b < 2 ^ 32
    → read_var_bytes limit ((write_var_bytes true true b).1 ++ rest) ≡ none
read_var_bytes_refuses limit b rest h small =
    read_written limit b rest small ∙ unfold read_sized in rw (lt→ltb limit (length b) h)

length-read_full : (n : ℕ) (input b rest : Text) → read_full n input ≡ some (b, rest) → length b ≤ n
unfolding read_full
length-read_full n input b rest h = ground (arith, length-take-le n input)

length-read_sized :
    (limit n : ℕ) (input b rest : Text)
    → read_sized limit n input ≡ some (b, rest)
    → length b ≤ limit
unfolding read_sized
length-read_sized limit n input b rest h = ground (arith, length-read_full n input b rest)

-- Whatever arrives, no message longer than the limit is returned.
pub length-read_var_bytes :
    (limit : ℕ) (input b rest : Text)
    → read_var_bytes limit input ≡ some (b, rest)
    → length b ≤ limit
unfolding read_var_bytes
length-read_var_bytes limit input b rest h =
    let ((header, r), _, sized) = >>=-eq-some (read_full 4 input) _ h in
    length-read_sized limit (uint32_of header) r b rest sized

-- Metadata that marshals to no more than the limit is read back as it was written.
pub read_metadata-write_metadata :
    {M : Type 0} (proto : Proto M) (limit : ℕ) (m : M) (b rest written : Text)
    → proto.marshal m ≡ some b
    → length b ≤ limit
    → limit < 2 ^ 32
    → write_metadata proto m ≡ some written
    → read_metadata proto limit (written ++ rest) ≡ some (m, rest)
read_metadata-write_metadata proto limit m b rest written hb fits small h =
    let w : written ≡ (write_var_bytes true true b).1 =
      unfold write_metadata in ground (arith, hb, h) in
    unfold read_metadata in
    rw (w, read_var_bytes-write_var_bytes limit b rest fits small, proto.unmarshal-marshal m b hb)

-- A port survives the way into a connection identifier and back, whatever follows in the packet, and
-- so does an identifier of two bytes.
pub conn_id_round_trip :
    (port a b : ℕ) (rest : Text)
    → port < 2 ^ 16
    → IsByte a
    → IsByte b
    → (conn_id_to_port (port_to_conn_id port ++ rest) ≡ some port)
      × (Option.map port_to_conn_id (conn_id_to_port (a ∷ b ∷ rest)) ≡ some (a ∷ b ∷ []))
unfolding port_to_conn_id conn_id_to_port
conn_id_round_trip port a b rest hp ha hb = (ap some (omega arith), ground arith)
