-- ===== src/Reverse/Reader.antt =====
-- What the UDP reader of a reverse entry delivers, and when it stops.
use tuna.Common.Dict.{lookup, lookup-insert-some, lookup-remove-some}
use tuna.Wire.{ConnectionMetadata, prefix_len}
use tuna.Udp.{Codec, CipherOps, ReadResult, closed_pipe, read_error, packet, read_from_udp}
use tuna.Udp.Packet.{IsFrom, read_from_udp-IsFrom}
use tuna.Reverse.Routes.{
  IsOwn, IsRouted, differ, reader-IsRouted, register-IsRouted, on_metadata-IsRouted,
}
use tuna.Reverse.{
  ReaderAt, reading, returned, panicked, waiting, Hub, conn_key, count_reverse, on_data, on_read,
  resume, HubEvent, udp, tcp_ready, udp_wait, tcp_gone, on_udp, hub_step, hub_run,
}
use tuna.Common.{
  ℕ, ◌≡◌, refl, subst, inl, inr, Bool, true, false, ◌&&◌, Option, some, List, [], ◌∷◌, ◌++◌, arith,
  ltb, if_ind, option_ind, length, take, drop, All, All-append, Text, is_empty, text_eq,
}

module _ (ops : CipherOps) (parse : Text → Option ConnectionMetadata)
    (Seen : Option (Text × Text) → Type 0) (Joined : Text → Text → ℕ → Type 0) where
  panicked-IsRouted :
      (h : Hub)
      → IsRouted ops parse Seen Joined h
      → IsRouted ops parse Seen Joined (record h { reader = panicked })
  panicked-IsRouted h r =
      reader-IsRouted ops parse Seen Joined panicked h r (λ a m e. absurd (ground (arith, e)))

  count_reverse-IsRouted :
      (k payload : Text) (h : Hub)
      → IsRouted ops parse Seen Joined h
      → IsRouted ops parse Seen Joined (count_reverse k payload h)
  unfolding count_reverse
  count_reverse-IsRouted k [] h r = panicked-IsRouted h r
  count_reverse-IsRouted k (a ∷ []) h r = panicked-IsRouted h r
  count_reverse-IsRouted k (a ∷ b ∷ []) h r = panicked-IsRouted h r
  count_reverse-IsRouted k (a ∷ b ∷ service ∷ rest) h r =
      option_ind (IsRouted ops parse Seen Joined) (lookup k h.counted) (λ _. panicked-IsRouted h r)
        λ c _. record {
          stored = r.stored;
          routed = r.routed;
          fresh = r.fresh;
          waits = r.waits;
          own = r.own;
        }

  deliver-IsRouted :
      (te : ℕ) (payload : Text) (h : Hub)
      → IsRouted ops parse Seen Joined h
      → IsOwn ops parse Seen Joined (te, payload)
      → IsRouted ops parse Seen Joined (record h { delivered = h.delivered ++ (te, payload) ∷ [] })
  deliver-IsRouted te payload h r mine = record {
    stored = r.stored;
    routed = r.routed;
    fresh = r.fresh;
    waits = r.waits;
    own =
        All-append (IsOwn ops parse Seen Joined) h.delivered ((te, payload) ∷ []) r.own (mine, tt);
  }

  on_data-IsRouted :
      (addr payload : Text) (h : Hub)
      → IsRouted ops parse Seen Joined h
      → (c : Codec) × (bytes : Text) × Seen (some (addr, bytes))
        × (lookup addr h.conn.decoders ≡ some c)
        × (ops.decode c bytes ≡ some payload)
      → IsRouted ops parse Seen Joined (on_data addr payload h)
  unfolding on_data
  on_data-IsRouted addr payload h r (c, bytes, seen, codec, plain) =
      option_ind (IsRouted ops parse Seen Joined) (lookup addr h.udp_entries) (λ _. r)
        λ te found.
          let mine = r.routed addr te c found codec in
          if_ind (IsRouted ops parse Seen Joined) (is_empty payload) (λ _. r)
            λ _.
              option_ind (IsRouted ops parse Seen Joined) (lookup addr h.addr_to_key) (λ _. r)
                λ k' _.
                  count_reverse-IsRouted k' payload
                    (record h { delivered = h.delivered ++ (te, payload) ∷ [] })
                    (deliver-IsRouted te payload h r (addr, bytes, c, seen, mine, plain))

  on_packet-IsRouted :
      (addr payload : Text) (is_encrypted : Bool) (h : Hub)
      → IsRouted ops parse Seen Joined h
      → IsFrom Seen ops h.conn (packet addr payload is_encrypted)
      → IsRouted ops parse Seen Joined (on_read ops parse (packet addr payload is_encrypted) h)
  unfolding on_read
  on_packet-IsRouted addr payload true h r from =
      if_ind (IsRouted ops parse Seen Joined)
        (text_eq (take prefix_len payload) (0 ∷ 0 ∷ 0 ∷ 0 ∷ []) && ltb prefix_len (length payload))
        (λ _.
          option_ind (IsRouted ops parse Seen Joined) (parse (drop prefix_len payload)) (λ _. r)
            (λ m _.
              on_metadata-IsRouted ops parse Seen Joined addr true m h r
                (λ e. absurd (ground (arith, e)))))
        (λ _. on_data-IsRouted addr payload h r from)
  on_packet-IsRouted addr payload false h r from =
      if_ind (IsRouted ops parse Seen Joined)
        (text_eq (take prefix_len payload) (0 ∷ 0 ∷ 0 ∷ 0 ∷ []) && ltb prefix_len (length payload))
        (λ _.
          option_ind (IsRouted ops parse Seen Joined) (parse (drop prefix_len payload)) (λ _. r)
            (λ m parsed.
              on_metadata-IsRouted ops parse Seen Joined addr false m h r
                (λ _. (from.1, (payload, from.0, parsed)))))
        (λ _. r)

  on_read-IsRouted :
      (result : ReadResult) (h : Hub)
      → IsRouted ops parse Seen Joined h
      → IsFrom Seen ops h.conn result
      → IsRouted ops parse Seen Joined (on_read ops parse result h)
  unfolding on_read
  on_read-IsRouted closed_pipe h r from = r
  on_read-IsRouted read_error h r from = r
  on_read-IsRouted (packet addr payload is_encrypted) h r from =
      on_packet-IsRouted addr payload is_encrypted h r from

  on_udp-IsRouted :
      (input : Option (Text × Text)) (x : ReaderAt) (h : Hub)
      → Seen input
      → IsRouted ops parse Seen Joined h
      → IsRouted ops parse Seen Joined (on_udp ops parse input x h)
  unfolding on_udp
  on_udp-IsRouted input reading h seen r =
      on_read-IsRouted (read_from_udp ops input h.conn) h r
        (read_from_udp-IsFrom Seen ops input h.conn seen)
  on_udp-IsRouted input returned h seen r = r
  on_udp-IsRouted input panicked h seen r = r
  on_udp-IsRouted input (waiting addr m) h seen r = r

  resume-IsRouted :
      (k : Text) (x : ReaderAt) (h : Hub)
      → IsRouted ops parse Seen Joined h
      → h.reader ≡ x
      → IsRouted ops parse Seen Joined (resume ops k x h)
  unfolding resume
  resume-IsRouted k reading h r e = r
  resume-IsRouted k returned h r e = r
  resume-IsRouted k panicked h r e = r
  resume-IsRouted k (waiting addr m) h r e =
      if_ind (IsRouted ops parse Seen Joined) (text_eq (conn_key m) k)
        (λ _.
          register-IsRouted ops parse Seen Joined addr m h r (r.waits addr m e).0
            (r.waits addr m e).1)
        (λ _. r)

  -- what an event says is so
  abbrev pub IsJoin : HubEvent → Type 0
  IsJoin (tcp_ready k key te) = Joined k key te
  IsJoin (udp input) = Seen input
  IsJoin (udp_wait k) = Unit
  IsJoin (tcp_gone k) = Unit

  hub_step-IsRouted :
      (e : HubEvent) (h : Hub)
      → IsJoin e
      → IsRouted ops parse Seen Joined h
      → IsRouted ops parse Seen Joined (hub_step ops parse e h)
  unfolding hub_step
  hub_step-IsRouted (udp input) h j r = on_udp-IsRouted input h.reader h j r
  hub_step-IsRouted (udp_wait k) h j r = record {
    stored = r.stored;
    routed = r.routed;
    fresh = r.fresh;
    waits = r.waits;
    own = r.own;
  }
  hub_step-IsRouted (tcp_gone k) h j r = record {
    stored = λ k' key te et ek.
        r.stored k' key te (lookup-remove-some k k' te h.tcp_entries et)
          (lookup-remove-some k k' key h.enc_keys ek);
    routed = r.routed;
    fresh = r.fresh;
    waits = r.waits;
    own = r.own;
  }
  hub_step-IsRouted (tcp_ready k key te) h j r =
      resume-IsRouted k h.reader _
        (record {
          stored = λ k' key' te' et ek. elim (lookup-insert-some k k' te te' h.tcp_entries et) [
            | inl (here, same) ↦ elim (lookup-insert-some k k' key key' h.enc_keys ek) [
              | inl (_, same_key) ↦
                  subst (λ x. Joined x key' te') here
                    (subst (λ x. Joined k x te') same_key (subst (Joined k key) same j))
              | inr (ne, _) ↦ absurd (differ k k' ne here)
            ]
            | inr (ne, old) ↦ elim (lookup-insert-some k k' key key' h.enc_keys ek) [
              | inl (here, _) ↦ absurd (differ k k' ne here)
              | inr (_, old_key) ↦ r.stored k' key' te' old old_key
            ]
          ];
          routed = r.routed;
          fresh = r.fresh;
          waits = r.waits;
          own = r.own;
        })
        refl

  -- For any relation `Joined` of a connection's key, its encryption key and an entry that holds of every
  -- connection that is made, and any predicate `Seen` that holds of every packet that arrives with its
  -- sender: from a hub that is routed by them, over any run of packets, connections and their ends,
  -- each packet that an entry gets is what a packet that arrived decodes to, by a codec with the
  -- encryption key of a connection of that entry, which metadata from the same sender names. The
  -- algorithm of the codec is that of the metadata, which may be none.
  pub hub_run-IsRouted :
      (es : List HubEvent) (h : Hub)
      → All IsJoin es
      → IsRouted ops parse Seen Joined h
      → IsRouted ops parse Seen Joined (hub_run ops parse es h)
  unfolding hub_run
  hub_run-IsRouted [] h js r = r
  hub_run-IsRouted (e ∷ es) h (j, js) r =
      hub_run-IsRouted es (hub_step ops parse e h) js (hub_step-IsRouted e h j r)
