-- ===== src/Udp/Keyed.antt =====
-- What the reader of `startUDPReaderWriter` delivers.
use tuna.Common.Dict.{Dict, lookup, insert}
use tuna.Wire.{ConnectionMetadata, EncryptionAlgo, prefix_len}
use tuna.Udp.{
  Codec, CipherOps, UdpConn, add_codec, codec_of, ReadResult, closed_pipe, read_error, packet,
  decoded, is_supported, total, read_from_udp, ReaderEnv, Reader, per_service, add_count,
  count_service, count_packet, set_codec, register, is_metadata, receive, on_result, read_step,
  read_run,
}
use tuna.Common.{
  ◌+◌, ◌≡◌, refl, sym, subst, inl, inr, Bool, true, false, not, ◌&&◌, ◌||◌, Option, none, some,
  List, [], ◌∷◌, ◌++◌, arith, Bool-cases, if_ind, option_ind, >>=-eq-some, length, drop, All,
  All-append, Any, Text, is_empty, text_eq, text_eq_iff,
}

module _ (ops : CipherOps) (env : ReaderEnv) (Seen : Option (Text × Text) → Type 0) where
  -- An address was granted a codec: some packet that was seen from it is metadata, which names a finished
  -- handshake with the codec's key, and the codec's algorithm, which may be none.
  abbrev pub IsGranted : Text → Codec → Type 0
  IsGranted addr c =
      (bytes : Text) × (m : ConnectionMetadata) × Seen (some (addr, bytes))
      × (is_metadata env bytes ≡ true)
      × (env.parse (drop prefix_len bytes) ≡ some m)
      × (lookup (m.public_key ++ m.nonce) env.encrypt_keys ≡ some c.key)
      × (c.algo ≡ m.encryption_algo)

  -- a payload is what a packet that was seen decodes to, with a codec that its sender was granted
  abbrev pub IsDecoded : Text → Type 0
  IsDecoded payload =
      (addr : Text) × (bytes : Text) × (c : Codec) × Seen (some (addr, bytes))
      × IsGranted addr c
      × (ops.decode c bytes ≡ some payload)

  abbrev pub AreGranted : Dict Codec → Type 0
  AreGranted = All (λ (e : Text × Codec). IsGranted (e.0) (e.1))

  -- every codec was granted to its address, and everything delivered is decoded with such a codec
  abbrev pub IsKeyed : Reader → Type 0
  IsKeyed r = AreGranted r.conn.decoders × All IsDecoded r.delivered

  same_addr : (a addr : Text) (c : Codec) → text_eq a addr ≡ true → IsGranted a c → IsGranted addr c
  same_addr a addr c t h = subst (λ x. IsGranted x c) ((text_eq_iff a addr).0 t) h

  insert-AreGranted :
      (addr : Text) (c : Codec) (m : Dict Codec)
      → IsGranted addr c
      → AreGranted m
      → AreGranted (insert addr c m)
  unfolding insert
  insert-AreGranted addr c [] k h = (k, tt)
  insert-AreGranted addr c ((a, d) ∷ m) k (hd, hm) =
      if_ind AreGranted (text_eq a addr) (λ _. (k, hm)) (λ _. (hd, insert-AreGranted addr c m k hm))

  lookup-IsGranted :
      (addr : Text) (c : Codec) (m : Dict Codec)
      → lookup addr m ≡ some c
      → AreGranted m
      → IsGranted addr c
  unfolding lookup
  lookup-IsGranted addr c [] e h = absurd (ground (arith, e))
  lookup-IsGranted addr c ((a, d) ∷ m) e (hd, hm) = elim (Bool-cases (text_eq a addr)) [
    | inl t ↦
        let same : d ≡ c = ground (arith, rw t at e) in
        subst (IsGranted addr) same (same_addr a addr d t hd)
    | inr t ↦ lookup-IsGranted addr c m (rw t at e) hm
  ]

  -- what the reader may make of a packet that was seen
  abbrev IsRead : Text → Text → Bool → Type 0
  IsRead addr payload is_encrypted =
      (is_encrypted ≡ true → IsDecoded payload)
      × (is_encrypted ≡ false → Seen (some (addr, payload)))

  abbrev IsReadResult : ReadResult → Type 0
  IsReadResult closed_pipe = Unit
  IsReadResult read_error = Unit
  IsReadResult (packet addr payload is_encrypted) = IsRead addr payload is_encrypted

  decoded-IsReadResult :
      (addr bytes : Text) (codec : Option Codec)
      → Seen (some (addr, bytes))
      → ((c : Codec) → codec ≡ some c → IsGranted addr c)
      → IsReadResult (decoded ops addr bytes codec)
  unfolding decoded
  decoded-IsReadResult addr bytes none seen granted = (λ e. absurd (ground (arith, e)), λ _. seen)
  decoded-IsReadResult addr bytes (some c) seen granted =
      option_ind IsReadResult (ops.decode c bytes) (λ _. tt)
        λ plain d. (λ _. (addr, bytes, c, seen, granted c refl, d), λ e. absurd (ground (arith, e)))

  read_from_udp-IsReadResult :
      (input : Option (Text × Text)) (conn : UdpConn)
      → Seen input
      → AreGranted conn.decoders
      → IsReadResult (read_from_udp ops input conn)
  unfolding read_from_udp
  read_from_udp-IsReadResult none conn seen h =
      if_ind IsReadResult conn.is_closed (λ _. tt) (λ _. tt)
  read_from_udp-IsReadResult (some (addr, bytes)) conn seen h =
      if_ind IsReadResult conn.is_closed (λ _. tt)
        λ _.
          decoded-IsReadResult addr bytes (lookup addr conn.decoders) seen
            (λ c found. lookup-IsGranted addr c conn.decoders found h)

  set_codec-IsKeyed :
      (addr key k : Text) (algo : EncryptionAlgo) (r : Reader)
      → IsGranted addr (codec_of algo key false)
      → IsKeyed r
      → IsKeyed (set_codec env addr k (add_codec ops addr key algo false r.conn) r)
  unfolding set_codec add_codec codec_of
  set_codec-IsKeyed addr key k algo r granted (hd, hp) =
      elim (Bool-cases (is_supported algo && ops.new_ok (codec_of algo key false))) [
        | inl t ↦
            rw (IsKeyed, set_codec, add_codec, t)
              (insert-AreGranted addr (codec_of algo key false) r.conn.decoders granted hd, hp)
        | inr t ↦ rw (IsKeyed, set_codec, add_codec, t) (hd, hp)
      ]

  register-IsKeyed :
      (addr bytes : Text) (is_encrypted : Bool) (m : ConnectionMetadata) (r : Reader)
      → (is_encrypted ≡ false → Seen (some (addr, bytes)))
      → is_metadata env bytes ≡ true
      → env.parse (drop prefix_len bytes) ≡ some m
      → IsKeyed r
      → IsKeyed (register ops env addr is_encrypted m r)
  unfolding register codec_of
  register-IsKeyed addr bytes is_encrypted m r seen is_meta parsed h =
      if_ind IsKeyed (m.is_ping || is_encrypted) (λ _. h)
        λ bare.
          option_ind IsKeyed (lookup (m.public_key ++ m.nonce) env.encrypt_keys) (λ _. h)
            λ key found.
              set_codec-IsKeyed addr key (m.public_key ++ m.nonce) m.encryption_algo r
                (bytes, m, seen (ground (arith, bare)), is_meta, parsed, found, refl) h

  -- a result keeps the invariant
  abbrev Keeps : Option Reader → Type 0
  Keeps o = (r : Reader) → o ≡ some r → IsKeyed r

  some-Keeps : (r : Reader) → IsKeyed r → Keeps (some r)
  some-Keeps r h r' e = let same : r ≡ r' = ground (arith, e) in subst (IsKeyed) same h

  count_service-Keeps :
      (key payload : Text) (r : Reader) → IsKeyed r → Keeps (count_service env key payload r)
  unfolding count_service add_count
  count_service-Keeps key (a ∷ b ∷ s ∷ rest) r h r' e =
      option_ind Keeps (lookup key env.counters) (λ _ r'' e'. absurd (ground (arith, e')))
        (λ c _. some-Keeps (add_count (per_service key s (3 + length rest)) r) h) r' e
  count_service-Keeps key [] r h r' e = absurd (ground (arith, e))
  count_service-Keeps key (a ∷ []) r h r' e = absurd (ground (arith, e))
  count_service-Keeps key (a ∷ b ∷ []) r h r' e = absurd (ground (arith, e))

  count_packet-Keeps :
      (addr payload : Text) (r : Reader) → IsKeyed r → Keeps (count_packet env addr payload r)
  unfolding count_packet add_count
  count_packet-Keeps addr payload r h =
      if_ind Keeps env.has_counter (λ _. some-Keeps (add_count (total (length payload)) r) h)
        λ _.
          option_ind Keeps (lookup addr r.addr_to_key) (λ _. some-Keeps r h)
            λ key _. count_service-Keeps key payload r h

  receive-Keeps :
      (addr payload : Text) (is_encrypted : Bool) (r : Reader)
      → IsRead addr payload is_encrypted
      → IsKeyed r
      → Keeps (receive ops env addr payload is_encrypted r)
  unfolding receive
  receive-Keeps addr payload is_encrypted r (from, seen) h =
      if_ind Keeps (is_metadata env payload)
        (λ is_meta.
          option_ind Keeps (env.parse (drop prefix_len payload)) (λ _. some-Keeps r h)
            (λ m parsed.
              some-Keeps (register ops env addr is_encrypted m r)
                (register-IsKeyed addr payload is_encrypted m r seen is_meta parsed h)))
        λ _.
          if_ind Keeps (not is_encrypted || is_empty payload) (λ _. some-Keeps r h)
            λ e.
              count_packet-Keeps addr payload (record r { delivered = r.delivered ++ payload ∷ [] })
                (
                  h.0,
                  All-append IsDecoded r.delivered (payload ∷ []) h.1
                      (from (ground (arith, e)), tt),
                )

  on_result-Keeps :
      (result : ReadResult) (r : Reader)
      → IsReadResult result
      → IsKeyed r
      → Keeps (on_result ops env result r)
  unfolding on_result
  on_result-Keeps closed_pipe r read h = some-Keeps r h
  on_result-Keeps read_error r read h = some-Keeps r h
  on_result-Keeps (packet addr payload is_encrypted) r read h =
      receive-Keeps addr payload is_encrypted r read h

  read_run-Seen :
      (inputs : List (Option (Text × Text))) (r r' : Reader)
      → All Seen inputs
      → IsKeyed r
      → read_run ops env inputs r ≡ some r'
      → IsKeyed r'
  unfolding read_run read_step
  read_run-Seen [] r r' seen h e = some-Keeps r h r' e
  read_run-Seen (input ∷ inputs) r r' (now, later) h e =
      let (next, stepped, rest) = >>=-eq-some (read_step ops env input r) _ e in
      read_run-Seen inputs next r' later
        (on_result-Keeps (read_from_udp ops input r.conn) r
          (read_from_udp-IsReadResult input r.conn now h.0) h next stepped)
        rest

-- one of the inputs
abbrev pub Among : List (Option (Text × Text)) → Option (Text × Text) → Type 0
Among inputs x = Any (λ i. i ≡ x) inputs

All-Among :
    (inputs : List (Option (Text × Text))) (P : Option (Text × Text) → Type 0)
    → ((x : Option (Text × Text)) → Among inputs x → P x)
    → All P inputs
All-Among [] P h = tt
All-Among (x ∷ xs) P h = (h x (inl refl), All-Among xs P (λ y m. h y (inr m)))

-- From a reader with no codec that has delivered nothing, whatever arrives from whomever: each payload
-- that is delivered is what one of the packets that arrived decodes to, with a codec that has the key of
-- a finished handshake, which metadata that arrived from the same sender names. So nothing is delivered
-- from a sender that sends no such metadata. The algorithm is the one that the metadata names, which
-- may be none.
pub read_run-IsKeyed :
    (ops : CipherOps) (env : ReaderEnv) (inputs : List (Option (Text × Text))) (r r' : Reader)
    → r.conn.decoders ≡ []
    → r.delivered ≡ []
    → read_run ops env inputs r ≡ some r'
    → IsKeyed ops env (Among inputs) r'
read_run-IsKeyed ops env inputs r r' no_codec nothing e =
    read_run-Seen ops env (Among inputs) inputs r r' (All-Among inputs (Among inputs) (λ x m. m))
      (
        subst (AreGranted ops env (Among inputs)) (sym no_codec) tt,
        subst (All (IsDecoded ops env (Among inputs))) (sym nothing) tt,
      )
      e
