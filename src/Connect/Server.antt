-- ===== src/Connect/Server.antt =====
-- What a client is connected to after `UpdateServerConn`.
use mathlib.Core.Option.{some-injective}
use tuna.Common.Dict.{lookup, lookup-insert}
use tuna.Wire.{ConnectionMetadata, EncryptionAlgo}
use tuna.Conn.{KeyOps, Host, plain, encrypted, Wrapped, wrap_conn, is_none_algo}
use tuna.Conn.Stored.{IsStored, wrap_conn-IsStored}
use tuna.Udp.{Codec, CipherOps, UdpConn, is_supported, add_codec}
use tuna.Connect.{
  plain_socket, WrappedUdp, wrapped_udp, udp_error, udp_panic, assert_socket, or_udp_error, Reached,
  reached, Client, Attempt, add_exit_codec, wrap_udp_conn, has_udp, udp_addr, close_tcp, close_udp,
  set_connected, update_udp, after_handshake, on_handshake, update_server_conn,
}
use tuna.Common.{
  ◌+◌, ◌≡◌, refl, sym, ap, ◌∙◌, subst, ◌≢◌, ◌⊎◌, inl, inr, Bool, true, false, not, ◌&&◌, Option,
  none, some, [], ◌++◌, arith, if◌then◌else◌, if_ind, option_ind, >>=-eq-some, Text, is_empty,
  text_eq_refl, is_empty→nil,
}

-- A result without an error satisfies a predicate.
abbrev pub WhenOk : (Client → Type 0) → Client × Reached → Type 0
WhenOk P (c, r) = r ≡ reached → P c

pub WrappedUdp-cases :
    (x : WrappedUdp) → ((u : UdpConn) × (x ≡ wrapped_udp u)) ⊎ ((x ≡ udp_error) ⊎ (x ≡ udp_panic))
WrappedUdp-cases (wrapped_udp u) = inl (u, refl)
WrappedUdp-cases udp_error = inr (inl refl)
WrappedUdp-cases udp_panic = inr (inr refl)

-- the codec of the exit
abbrev pub exit_codec : EncryptionAlgo → Text → Codec
exit_codec algo key = record { algo = algo; key = key; initiator = true }

-- a UDP connection that is open, with this codec for an address
abbrev pub HasCodec : Text → Codec → Option UdpConn → Type 0
HasCodec addr codec none = ⊥
HasCodec addr codec (some u) =
    (u.is_closed ≡ false)
    × (lookup addr u.encoders ≡ some codec)
    × (lookup addr u.decoders ≡ some codec)

-- an open TCP connection under a key, and a UDP connection under the same key where one is needed
abbrev pub IsConnected : Attempt → EncryptionAlgo → Client → Text → Client → Type 0
IsConnected a algo c key c' =
    (c'.connected ≡ true)
    × (c'.notified ≡ c.notified + 1)
    × (c'.tcp_conn
        ≡ some (record {
          channel = if is_none_algo algo then plain else encrypted algo key true;
          is_closed = false;
        }))
    × (has_udp c ≡ true → HasCodec (udp_addr a c) (exit_codec algo key) c'.udp_conn)

-- what an attempt to connect leaves as it was
abbrev pub IsSameExit : Client → Client → Type 0
IsSameExit c c' =
    (c'.metadata ≡ c.metadata)
    × (c'.remote_nkn_address ≡ c.remote_nkn_address)
    × (c'.payment_receiver ≡ c.payment_receiver)
    × (c'.prices ≡ c.prices)
    × (c'.reverse_metadata ≡ c.reverse_metadata)

add_codec-HasCodec :
    (ops : CipherOps) (addr key : Text) (algo : EncryptionAlgo) (u u' : UdpConn)
    → u.is_closed ≡ false
    → add_codec ops addr key algo true u ≡ some u'
    → HasCodec addr (exit_codec algo key) (some u')
unfolding add_codec
add_codec-HasCodec ops addr key algo u u' alive h =
    if_ind (λ (o : Option UdpConn). o ≡ some u' → HasCodec addr (exit_codec algo key) (some u'))
      (is_supported algo && ops.new_ok (exit_codec algo key))
      (λ _ e.
        subst (λ x. HasCodec addr (exit_codec algo key) (some x)) (some-injective _ _ e)
          (
            alive,
            lookup-insert addr addr (exit_codec algo key) u.encoders ∙ rw (text_eq_refl addr) refl,
            lookup-insert addr addr (exit_codec algo key) u.decoders ∙ rw (text_eq_refl addr) refl,
          ))
      (λ _ e. absurd (ground (arith, e))) h

module _ (keys : KeyOps) (ops : CipherOps) (a : Attempt) (peer : Text) where
  or_udp_error-some :
      (o : Option UdpConn) (u : UdpConn) → or_udp_error o ≡ wrapped_udp u → o ≡ some u
  unfolding or_udp_error
  or_udp_error-some none u e = absurd (ground (arith, e))
  or_udp_error-some (some v) u e = ap (λ (x : UdpConn). some x) (ground (arith, e))

  assert_socket-open :
      (is_server : Bool) (u : UdpConn)
      → assert_socket is_server plain_socket ≡ some u
      → u.is_closed ≡ false
  unfolding assert_socket
  assert_socket-open true u e = absurd (ground (arith, e))
  assert_socket-open false u e = ap (λ (x : UdpConn). x.is_closed) (sym (some-injective _ _ e))

  wrap_udp_conn-HasCodec :
      (h : Host) (addr nonce key : Text) (u : UdpConn)
      → peer ≢ []
      → lookup (peer ++ nonce) h.encrypt_keys ≡ some key
      → wrap_udp_conn ops a.udp_write_ok h plain_socket addr peer nonce ≡ wrapped_udp u
      → HasCodec addr (exit_codec h.encryption_algo key) (some u)
  unfolding wrap_udp_conn add_exit_codec
  wrap_udp_conn-HasCodec h addr nonce key u ne stored e =
      option_ind (λ (x : WrappedUdp). x ≡ wrapped_udp u → IsDone)
        (assert_socket h.is_server plain_socket) (λ _ e'. absurd (ground (arith, e')))
        (λ base asserted.
          if_ind (λ (x : WrappedUdp). x ≡ wrapped_udp u → IsDone) (is_empty peer)
            (λ nil _. absurd (ne (is_empty→nil peer nil)))
            λ _.
              if_ind (λ (x : WrappedUdp). x ≡ wrapped_udp u → IsDone)
                (not (a.udp_write_ok 0 && a.udp_write_ok 1 && a.udp_write_ok 2))
                (λ _ e'. absurd (ground (arith, e')))
                λ _ e'.
                  let (k, found, added) =
                    >>=-eq-some (lookup (peer ++ nonce) h.encrypt_keys) _
                      (or_udp_error-some _ u e') in
                  let same : k ≡ key = some-injective _ _ (sym found ∙ stored) in
                  subst (λ x. HasCodec addr (exit_codec h.encryption_algo x) (some u)) same
                    (add_codec-HasCodec ops addr k h.encryption_algo base u
                      (assert_socket-open h.is_server base asserted) added))
        e
    where
      IsDone : Type 0
      IsDone = HasCodec addr (exit_codec h.encryption_algo key) (some u)

  -- what is left of `IsConnected` when the TCP connection is there
  abbrev IsJoined : Client → Text → Client → Type 0
  IsJoined c key c' =
      (c'.connected ≡ true)
      × (c'.notified ≡ c.notified + 1)
      × (c'.tcp_conn ≡ c.tcp_conn)
      × (has_udp c ≡ true
          → HasCodec (udp_addr a c) (exit_codec c.host.encryption_algo key) c'.udp_conn)

  update_udp-IsJoined :
      (c : Client) (remote : ConnectionMetadata) (key : Text)
      → peer ≢ []
      → lookup (peer ++ remote.nonce) c.host.encrypt_keys ≡ some key
      → WhenOk (IsJoined c key) (update_udp ops a peer remote c)
  unfolding update_udp set_connected
  update_udp-IsJoined c remote key ne stored =
      if_ind (WhenOk (IsJoined c key)) (not a.udp_ok) (λ _ e. absurd (ground (arith, e)))
        λ _.
          elim (WrappedUdp-cases (
            wrap_udp_conn ops a.udp_write_ok c.host plain_socket (udp_addr a c) peer
              remote.nonce)) [
                | inl (u, made) ↦ rw made λ _. (
                  refl,
                  refl,
                  refl,
                  λ _.
                      wrap_udp_conn-HasCodec c.host (udp_addr a c) remote.nonce key u ne stored
                        made,
                )
                | inr (inl made) ↦ rw made (λ e. absurd (ground (arith, e)))
                | inr (inr made) ↦ rw made (λ e. absurd (ground (arith, e)))
              ]

  abbrev with_tcp : Wrapped → Client → Client
  with_tcp w c = record c { tcp_conn = some (record { channel = w.channel; is_closed = false }) }

  after_handshake-IsJoined :
      (c : Client) (w : Wrapped) (key : Text)
      → peer ≢ []
      → lookup (peer ++ w.remote.nonce) c.host.encrypt_keys ≡ some key
      → WhenOk (IsJoined (with_tcp w c) key) (after_handshake ops a peer w c)
  unfolding after_handshake set_connected has_udp
  after_handshake-IsJoined c w key ne stored =
      if_ind (WhenOk (IsJoined (with_tcp w c) key)) (has_udp c)
        (λ _. update_udp-IsJoined (with_tcp w c) w.remote key ne stored)
        (λ none_used _. (refl, refl, refl, λ used. absurd (ground (arith, none_used, used))))

  on_handshake-IsConnected :
      (c : Client) (r : Host × Option Wrapped)
      → peer ≢ []
      → ((w : Wrapped)
          → r.1 ≡ some w
          → IsStored keys c.host r.0 (peer ++ w.remote.nonce) true c.host.encryption_algo w.channel)
      → WhenOk
          (λ c'. (key : Text) × IsConnected a c.host.encryption_algo c key c')
          (on_handshake ops a peer r c)
  unfolding on_handshake has_udp udp_addr
  on_handshake-IsConnected c (h, none) ne stored e = absurd (ground (arith, e))
  on_handshake-IsConnected c (h, some w) ne stored e =
      let (key, found, channel, algo) = stored w refl in
      let (connected, notified, tcp, udp) =
        after_handshake-IsJoined (record c { host = h }) w key ne found e in
      (
        key,
        (
          connected,
          notified,
          tcp ∙ ap (λ x. some (record { channel = x; is_closed = false })) channel,
          λ used.
              subst
                (λ x.
                  HasCodec (udp_addr a c) (exit_codec x key)
                    (on_handshake ops a peer (h, some w) c).0.udp_conn)
                algo (udp used),
        ),
      )

  -- When a client that knows the public key of an exit connects to it without an error: it counts as
  -- connected, and is told so once; its TCP connection is open, with the client's algorithm; and if the
  -- service or the reverse service has UDP ports, its UDP connection is open, and encrypts and decrypts
  -- the packets of the address that `net` makes of the metadata's IP and UDP port, with the same
  -- algorithm and key.
  pub update_server_conn-IsConnected :
      (c : Client)
      → peer ≢ []
      → (update_server_conn keys ops a peer c).1 ≡ reached
      → (key : Text) × IsConnected a c.host.encryption_algo c key
          (update_server_conn keys ops a peer c).0
  unfolding update_server_conn close_tcp
  update_server_conn-IsConnected c ne =
      if_ind (WhenOk (λ c'. (key : Text) × IsConnected a c.host.encryption_algo c key c')) a.tcp_ok
        (λ _.
          on_handshake-IsConnected (close_tcp c) (wrap_conn keys a.exchange peer c.host) ne λ w e.
            wrap_conn-IsStored keys a.exchange peer c.host (wrap_conn keys a.exchange peer c.host).0
              w ne (ap (λ o. ((wrap_conn keys a.exchange peer c.host).0, o)) e))
        (λ _ e. absurd (ground (arith, e)))

  update_udp-IsSameExit :
      (remote : ConnectionMetadata) (c : Client) → IsSameExit c (update_udp ops a peer remote c).0
  unfolding update_udp close_udp set_connected
  update_udp-IsSameExit remote c =
      if_ind (λ (r : Client × Reached). IsSameExit c (r.0)) (not a.udp_ok)
        (λ _. (refl, refl, refl, refl, refl))
        λ _.
          elim (WrappedUdp-cases (
            wrap_udp_conn ops a.udp_write_ok c.host plain_socket (udp_addr a c) peer
              remote.nonce)) [
                | inl (u, made) ↦ rw made (refl, refl, refl, refl, refl)
                | inr (inl made) ↦ rw made (refl, refl, refl, refl, refl)
                | inr (inr made) ↦ rw made (refl, refl, refl, refl, refl)
              ]

  on_handshake-IsSameExit :
      (r : Host × Option Wrapped) (c : Client) → IsSameExit c (on_handshake ops a peer r c).0
  unfolding on_handshake after_handshake set_connected
  on_handshake-IsSameExit (h, none) c = (refl, refl, refl, refl, refl)
  on_handshake-IsSameExit (h, some w) c =
      if_ind (λ (x : Client × Reached). IsSameExit c x.0) (has_udp c)
        (λ _. update_udp-IsSameExit w.remote (with_tcp w (record c { host = h })))
        (λ _. (refl, refl, refl, refl, refl))

  pub update_server_conn-IsSameExit :
      (c : Client) → IsSameExit c (update_server_conn keys ops a peer c).0
  unfolding update_server_conn close_tcp
  update_server_conn-IsSameExit c =
      if_ind (λ (x : Client × Reached). IsSameExit c x.0) a.tcp_ok
        (λ _. on_handshake-IsSameExit (wrap_conn keys a.exchange peer c.host) (close_tcp c))
        (λ _. (refl, refl, refl, refl, refl))
