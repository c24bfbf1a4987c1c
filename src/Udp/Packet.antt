-- ===== src/Udp/Packet.antt =====
-- What `ReadFromUDPEncrypted` says of the codec of the sender.
use tuna.Common.Dict.{lookup}
use tuna.Udp.{
  Codec, CipherOps, UdpConn, ReadResult, closed_pipe, read_error, packet, decoded, read_from_udp,
}
use tuna.Common.{◌≡◌, refl, true, false, Option, none, some, if_ind, option_ind, Text}

-- A plain packet is one that was seen, from an address without a codec; an encrypted one is what one that
-- was seen decodes to, by the codec of its address.
abbrev pub IsFrom : (Option (Text × Text) → Type 0) → CipherOps → UdpConn → ReadResult → Type 0
IsFrom Seen ops conn closed_pipe = Unit
IsFrom Seen ops conn read_error = Unit
IsFrom Seen ops conn (packet addr payload true) =
    (c : Codec) × (bytes : Text) × Seen (some (addr, bytes))
    × (lookup addr conn.decoders ≡ some c)
    × (ops.decode c bytes ≡ some payload)
IsFrom Seen ops conn (packet addr payload false) =
    Seen (some (addr, payload)) × (lookup addr conn.decoders ≡ none)

module _ (Seen : Option (Text × Text) → Type 0) (ops : CipherOps) where
  decoded-IsFrom :
      (conn : UdpConn) (addr bytes : Text) (codec : Option Codec)
      → Seen (some (addr, bytes))
      → lookup addr conn.decoders ≡ codec
      → IsFrom Seen ops conn (decoded ops addr bytes codec)
  unfolding decoded
  decoded-IsFrom conn addr bytes none seen e = (seen, e)
  decoded-IsFrom conn addr bytes (some c) seen e =
      option_ind (IsFrom Seen ops conn) (ops.decode c bytes) (λ _. tt)
        (λ plain d. (c, bytes, seen, e, d))

  pub read_from_udp-IsFrom :
      (input : Option (Text × Text)) (conn : UdpConn)
      → Seen input
      → IsFrom Seen ops conn (read_from_udp ops input conn)
  unfolding read_from_udp
  read_from_udp-IsFrom none conn seen =
      if_ind (IsFrom Seen ops conn) conn.is_closed (λ _. tt) (λ _. tt)
  read_from_udp-IsFrom (some (addr, bytes)) conn seen =
      if_ind (IsFrom Seen ops conn) conn.is_closed (λ _. tt)
        (λ _. decoded-IsFrom conn addr bytes (lookup addr conn.decoders) seen refl)
