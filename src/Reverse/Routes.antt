-- ===== src/Reverse/Routes.antt =====
-- The routes of a reverse entry: which connection the packets of an address belong to.
use mathlib.Core.Option.{some-injective}
use tuna.Common.Dict.{
  Dict, lookup, insert, lookup-insert-some, lookup-insert-none, lookup-insert_other,
}
use tuna.Wire.{ConnectionMetadata, EncryptionAlgo, prefix_len}
use tuna.Udp.{Codec, CipherOps, UdpConn, is_supported, add_codec}
use tuna.Reverse.{
  ReaderAt, reading, returned, waiting, Hub, conn_key, join, find_entry, register, is_ready,
  on_metadata,
}
use tuna.Common.{
  ℕ, ◌≡◌, refl, sym, ap, ◌∙◌, subst, ◌⊎◌, inl, inr, Bool, false, ◌&&◌, ◌||◌, Option, none, some,
  arith, if_ind, option_ind, drop, All, Text, text_eq, text_eq_iff,
}

pub differ : (a b : Text) → text_eq a b ≡ false → a ≡ b → ⊥
differ a b ne same = let t = (text_eq_iff a b).1 same in cc

module _ (ops : CipherOps) (parse : Text → Option ConnectionMetadata)
    (Seen : Option (Text × Text) → Type 0) (Joined : Text → Text → ℕ → Type 0) where
  -- a packet that was seen from an address is this metadata
  abbrev pub IsAsked : Text → ConnectionMetadata → Type 0
  IsAsked addr m =
      (bytes : Text) × Seen (some (addr, bytes)) × (parse (drop prefix_len bytes) ≡ some m)

  -- metadata from the address names a connection of the entry, and the codec has the connection's key, and
  -- the algorithm of the metadata, which may be none
  abbrev pub IsMine : Text → ℕ → Codec → Type 0
  IsMine addr te c =
      (m : ConnectionMetadata) × IsAsked addr m
      × Joined (conn_key m) c.key te
      × (c.algo ≡ m.encryption_algo)

  -- the packet of an entry is what a packet that was seen decodes to, by a codec that its sender has for a
  -- connection of the entry
  abbrev pub IsOwn : ℕ × Text → Type 0
  IsOwn (te, payload) =
      (addr : Text) × (bytes : Text) × (c : Codec) × Seen (some (addr, bytes))
      × IsMine addr te c
      × (ops.decode c bytes ≡ some payload)

  -- What is stored is of a connection, an address has an entry only with a codec, whose key is that of a
  -- connection of the entry, and whoever is waited for has no codec yet.
  pub record IsRouted (h : Hub) : Type 0 where
    pub stored :
        (k key : Text) (te : ℕ)
        → lookup k h.tcp_entries ≡ some te
        → lookup k h.enc_keys ≡ some key
        → Joined k key te
    pub routed :
        (addr : Text) (te : ℕ) (c : Codec)
        → lookup addr h.udp_entries ≡ some te
        → lookup addr h.conn.decoders ≡ some c
        → IsMine addr te c
    pub fresh :
        (addr : Text) → lookup addr h.conn.decoders ≡ none → lookup addr h.udp_entries ≡ none
    pub waits :
        (addr : Text) (m : ConnectionMetadata)
        → h.reader ≡ waiting addr m
        → (lookup addr h.conn.decoders ≡ none) × IsAsked addr m
    pub own : All IsOwn h.delivered

  -- a connection with one more codec
  HasNew : Text → Text → EncryptionAlgo → UdpConn → UdpConn → Type 0
  HasNew addr key algo u u' =
      (c : Codec) × (c.key ≡ key) × (c.algo ≡ algo) × (u'.decoders ≡ insert addr c u.decoders)

  add_codec-HasNew :
      (addr key : Text) (algo : EncryptionAlgo) (u u' : UdpConn)
      → add_codec ops addr key algo false u ≡ some u'
      → HasNew addr key algo u u'
  unfolding add_codec HasNew
  add_codec-HasNew addr key algo u u' e =
      if_ind (λ (o : Option UdpConn). o ≡ some u' → HasNew addr key algo u u')
        (is_supported algo && ops.new_ok (record { algo = algo; key = key; initiator = false }))
        (λ _ e'. (
          record { algo = algo; key = key; initiator = false },
          refl,
          refl,
          ap (λ (x : UdpConn). x.decoders) (sym (some-injective _ _ e')),
        ))
        (λ _ e'. absurd (ground (arith, e'))) e

  -- the address had no codec, and gets one
  new_decoder :
      (addr a key : Text) (algo : EncryptionAlgo) (u u' : UdpConn) (d : Codec)
      → HasNew addr key algo u u'
      → lookup a u'.decoders ≡ some d
      → ((addr ≡ a) × (key ≡ d.key) × (d.algo ≡ algo))
        ⊎ ((text_eq addr a ≡ false) × (lookup a u.decoders ≡ some d))
  unfolding HasNew
  new_decoder addr a key algo u u' d (c, same, same_algo, new) e =
      elim (lookup-insert-some addr a c d u.decoders
        (ap (λ (m : Dict Codec). lookup a m) (sym new) ∙ e)) [
          | inl (here, made) ↦ inl (
            here,
            sym same ∙ ap (λ (x : Codec). x.key) made,
            ap (λ (x : Codec). x.algo) (sym made) ∙ same_algo,
          )
          | inr old ↦ inr old
        ]

  no_decoder :
      (addr a key : Text) (algo : EncryptionAlgo) (u u' : UdpConn)
      → HasNew addr key algo u u'
      → lookup a u'.decoders ≡ none
      → (text_eq addr a ≡ false) × (lookup a u.decoders ≡ none)
  unfolding HasNew
  no_decoder addr a key algo u u' (c, _, _, new) e =
      lookup-insert-none addr a c u.decoders (ap (λ (m : Dict Codec). lookup a m) (sym new) ∙ e)

  join-IsRouted :
      (addr key : Text) (m : ConnectionMetadata) (te : ℕ) (u : UdpConn) (h : Hub)
      → IsRouted h
      → IsAsked addr m
      → lookup (conn_key m) h.enc_keys ≡ some key
      → HasNew addr key m.encryption_algo h.conn u
      → lookup (conn_key m) h.tcp_entries ≡ some te
      → IsRouted (join addr (conn_key m) te u h)
  unfolding join
  join-IsRouted addr key m te u h r asked known new entry = record {
    stored = r.stored;
    routed = λ a t d eu ed. elim (lookup-insert-some addr a te t h.udp_entries eu) [
      | inl (here, same) ↦ elim (new_decoder addr a key m.encryption_algo h.conn u d new ed) [
        | inl (_, same_key, same_algo) ↦ (
          m,
          subst (λ x. IsAsked x m) here asked,
          subst (Joined (conn_key m) d.key) same (
              subst (λ x. Joined (conn_key m) x te) same_key
                (r.stored (conn_key m) key te entry known)),
          same_algo,
        )
        | inr (ne, _) ↦ absurd (differ addr a ne here)
      ]
      | inr (ne, old) ↦ elim (new_decoder addr a key m.encryption_algo h.conn u d new ed) [
        | inl (here, _, _) ↦ absurd (differ addr a ne here)
        | inr (_, old_codec) ↦ r.routed a t d old old_codec
      ]
    ];
    fresh = λ a e.
        let (ne, old) = no_decoder addr a key m.encryption_algo h.conn u new e in
        lookup-insert_other addr a te h.udp_entries ne ∙ r.fresh a old;
    waits = λ a m' e. absurd (ground (arith, e));
    own = r.own;
  }

  find_entry-IsRouted :
      (addr key : Text) (m : ConnectionMetadata) (u : UdpConn) (h : Hub)
      → IsRouted h
      → IsAsked addr m
      → lookup addr h.conn.decoders ≡ none
      → lookup (conn_key m) h.enc_keys ≡ some key
      → HasNew addr key m.encryption_algo h.conn u
      → IsRouted (find_entry addr (conn_key m) u h)
  unfolding find_entry
  find_entry-IsRouted addr key m u h r asked free known new =
      option_ind IsRouted (lookup (conn_key m) h.tcp_entries)
        (λ _. record {
          stored = r.stored;
          routed = λ a t d eu ed.
              elim (new_decoder addr a key m.encryption_algo h.conn u d new ed) [
                | inl (here, _, _) ↦ absurd (
                    let c : none ≡ some t =
                      sym (r.fresh addr free) ∙ ap (λ x. lookup x h.udp_entries) here ∙ eu in
                    cc)
                | inr (_, old) ↦ r.routed a t d eu old
              ];
          fresh = λ a e. r.fresh a (no_decoder addr a key m.encryption_algo h.conn u new e).1;
          waits = λ a m' e. absurd (ground (arith, e));
          own = r.own;
        })
        (λ te entry. join-IsRouted addr key m te u h r asked known new entry)

  -- only where the reader stands changes
  pub reader-IsRouted :
      (x : ReaderAt) (h : Hub)
      → IsRouted h
      → ((addr : Text) (m : ConnectionMetadata)
          → x ≡ waiting addr m
          → (lookup addr h.conn.decoders ≡ none) × IsAsked addr m)
      → IsRouted (record h { reader = x })
  reader-IsRouted x h r w = record {
    stored = r.stored;
    routed = r.routed;
    fresh = r.fresh;
    waits = w;
    own = r.own;
  }

  pub register-IsRouted :
      (addr : Text) (m : ConnectionMetadata) (h : Hub)
      → IsRouted h
      → lookup addr h.conn.decoders ≡ none
      → IsAsked addr m
      → IsRouted (register ops addr m h)
  unfolding register
  register-IsRouted addr m h r free asked =
      option_ind IsRouted (lookup (conn_key m) h.enc_keys)
        (λ _. reader-IsRouted reading h r (λ a m' e. absurd (ground (arith, e))))
        λ key known.
          option_ind IsRouted (add_codec ops addr key m.encryption_algo false h.conn)
            (λ _. reader-IsRouted returned h r (λ a m' e. absurd (ground (arith, e))))
            λ u made.
              find_entry-IsRouted addr key m u h r asked free known
                (add_codec-HasNew addr key m.encryption_algo h.conn u made)

  pub on_metadata-IsRouted :
      (addr : Text) (is_encrypted : Bool) (m : ConnectionMetadata) (h : Hub)
      → IsRouted h
      → (is_encrypted ≡ false → (lookup addr h.conn.decoders ≡ none) × IsAsked addr m)
      → IsRouted (on_metadata ops addr is_encrypted m h)
  unfolding on_metadata
  on_metadata-IsRouted addr is_encrypted m h r asks =
      if_ind IsRouted (m.is_ping || is_encrypted) (λ _. r)
        λ plain.
          let (free, asked) = asks (ground (arith, plain)) in
          if_ind IsRouted (is_ready (conn_key m) h.tcp_is_ready)
            (λ _. register-IsRouted addr m h r free asked)
            (λ _. reader-IsRouted (waiting addr m) h r λ a m' e.
              let here : addr ≡ a = ground (arith, e) in
              let same : m ≡ m' = ground (arith, e) in
              subst (λ x. (lookup x h.conn.decoders ≡ none) × IsAsked x m') here
                (free, subst (IsAsked addr) same asked))
