-- ===== src/Conn/Handshake.antt =====
-- What the two ends of `wrapConn` agree on.
use tuna.Wire.{ConnectionMetadata, EncryptionAlgo}
use tuna.Conn.{
  KeyOps, Host, Exchange, Channel, plain, encrypted, Wrapped, Agreed, public_key_size, is_none_algo,
  encrypt_conn, derive_key, sent_metadata, negotiate, negotiate_known, negotiate_new, wrap_agreed,
  wrap_conn,
}
use tuna.Conn.Keys.{IsKey, IsCacheRight, derive_key-IsKey, same_key}
use tuna.Common.{
  ◌≡◌, refl, sym, ap, ◌∙◌, subst, ◌≢◌, Bool, true, not, Option, some, [], arith, if◌then◌else◌,
  ==_iff, if_ind, option_ind, >>=-eq-some, length, Text, is_empty, is_empty→nil,
}

module _ (ops : KeyOps) where
  -- A wrapped connection has the agreed algorithm, under a key that the agreement determines.
  abbrev HasChannel : Host → Agreed → Wrapped → Type 0
  HasChannel h a w =
      (key : Text) × IsKey ops h.secret a.algo a.peer a.conn_nonce key
      × (w.channel
          ≡ (if is_none_algo a.algo then plain else encrypted a.algo key (not (is_empty a.peer))))

  pub encrypt_conn-channel :
      (stream_ok : EncryptionAlgo → Bool) (key : Text) (algo : EncryptionAlgo) (initiator : Bool)
      (c : Channel)
      → encrypt_conn stream_ok key algo initiator ≡ some c
      → c ≡ (if is_none_algo algo then plain else encrypted algo key initiator)
  unfolding encrypt_conn
  encrypt_conn-channel stream_ok key algo initiator c e = ground arith

  pub wrapped-channel :
      (c : Channel) (remote : ConnectionMetadata) (w : Wrapped)
      → some (record { channel = c; remote = remote }) ≡ some w
      → w.channel ≡ c
  wrapped-channel c remote w e = ground arith

  wrap_agreed-HasChannel :
      (ex : Exchange) (h h' : Host) (a : Agreed) (w : Wrapped)
      → IsCacheRight ops h
      → wrap_agreed ops ex h a ≡ (h', some w)
      → HasChannel h a w
  unfolding wrap_agreed
  wrap_agreed-HasChannel ex h h' a w right e =
      option_ind (λ (r : Host × Option Wrapped). r.1 ≡ some w → HasChannel h a w)
        (derive_key ops a.algo a.peer a.conn_nonce h) (λ _ e'. cc)
        (λ d derived e'.
          let (c, made, e'') =
            >>=-eq-some (encrypt_conn ex.stream_ok d.0 a.algo (not (is_empty a.peer))) _ e' in
          (
            d.0,
            derive_key-IsKey ops h d.1 a.algo a.peer a.conn_nonce d.0 right derived,
            wrapped-channel c a.remote w e''
                ∙ encrypt_conn-channel ex.stream_ok d.0 a.algo (not (is_empty a.peer)) c made,
          ))
        (ap (λ (r : Host × Option Wrapped). r.1) e)

  pub wrap_conn-agreed :
      (ex : Exchange) (peer : Text) (h h' : Host) (w : Wrapped)
      → wrap_conn ops ex peer h ≡ (h', some w)
      → (a : Agreed) × (negotiate ex h peer ≡ some a) × (wrap_agreed ops ex h a ≡ (h', some w))
  unfolding wrap_conn
  wrap_conn-agreed ex peer h h' w e =
      option_ind
        (λ (r : Host × Option Wrapped).
          r ≡ (h', some w)
          → (a : Agreed) × (negotiate ex h peer ≡ some a) × (wrap_agreed ops ex h a ≡ (h', some w)))
        (negotiate ex h peer)
        (λ _ e'. absurd (ground (arith, ap (λ (r : Host × Option Wrapped). r.1) e')))
        (λ a n e'. (a, n, e')) e

  negotiate-known :
      (ex : Exchange) (h : Host) (peer : Text) (remote : ConnectionMetadata) (a : Agreed)
      → peer ≢ []
      → ex.read ≡ some remote
      → negotiate ex h peer ≡ some a
      → (a.algo ≡ h.encryption_algo) × (a.peer ≡ peer) × (a.conn_nonce ≡ remote.nonce)
  unfolding negotiate negotiate_known
  negotiate-known ex h peer remote a ne r e = ground (arith, is_empty→nil peer)

  negotiate-new :
      (ex : Exchange) (h : Host) (remote : ConnectionMetadata) (a : Agreed)
      → ex.read ≡ some remote
      → negotiate ex h [] ≡ some a
      → (a.algo ≡ remote.encryption_algo)
        × (a.peer ≡ remote.public_key)
        × (a.conn_nonce ≡ ex.nonce)
        × (length a.peer ≡ public_key_size)
  unfolding negotiate negotiate_new
  negotiate-new ex h remote a r e =
      ground (arith, ==_iff (length remote.public_key) public_key_size)

  -- `Initiator` is set on an encrypted connection
  abbrev pub IsInitiator : Channel → Type 0
  IsInitiator plain = Unit
  IsInitiator (encrypted algo key initiator) = initiator ≡ true

  wrapped-IsInitiator :
      (w : Wrapped) (algo : EncryptionAlgo) (key : Text)
      → w.channel ≡ (if is_none_algo algo then plain else encrypted algo key true)
      → IsInitiator w.channel
  wrapped-IsInitiator w algo key e =
      subst IsInitiator (sym e) (if_ind IsInitiator (is_none_algo algo) (λ _. tt) (λ _. refl))

  -- a pair of hosts, each with the key of its secret
  abbrev pub IsHost : Host → Type 0
  IsHost h = (h.public_key ≡ ops.public_of h.secret) × IsCacheRight ops h

  -- what an end has agreed to: the client's algorithm, the other's key, the server's nonce
  abbrev AgreedOn : EncryptionAlgo → Text → Text → Agreed → Type 0
  AgreedOn algo peer nonce a = (a.algo ≡ algo) × (a.peer ≡ peer) × (a.conn_nonce ≡ nonce)

  channel-at :
      (h : Host) (a : Agreed) (w : Wrapped) (algo : EncryptionAlgo) (peer nonce : Text)
      → AgreedOn algo peer nonce a
      → HasChannel h a w
      → (key : Text) × IsKey ops h.secret algo peer nonce key
        × (w.channel
            ≡ (if is_none_algo algo then plain else encrypted algo key (not (is_empty peer))))
  channel-at h a w algo peer nonce (ea, ep, en) has =
      subst
        (λ g.
          (key : Text) × IsKey ops h.secret g peer nonce key
          × (w.channel ≡ (if is_none_algo g then plain else encrypted g key (not (is_empty peer)))))
        ea
        (subst
          (λ p.
            (key : Text) × IsKey ops h.secret a.algo p nonce key
            × (w.channel
                ≡ (if is_none_algo a.algo then plain else encrypted a.algo key (not (is_empty p)))))
          ep
          (subst
            (λ n.
              (key : Text) × IsKey ops h.secret a.algo a.peer n key
              × (w.channel ≡ (
                  if is_none_algo a.algo
                  then plain
                  else encrypted a.algo key (not (is_empty a.peer)))))
            en has))

  module _ (client server client' server' : Host) (at_client at_server : Exchange)
      (local : Option ConnectionMetadata) (local' : Option ConnectionMetadata) (w w' : Wrapped)
      (client_known : IsHost client) (server_known : IsHost server) (named : server.public_key ≢ [])
      (client_reads : at_client.read ≡ some (sent_metadata server [] local' at_server.nonce))
      (server_reads : at_server.read
        ≡ some (sent_metadata client server.public_key local at_client.nonce))
      (client_wraps : wrap_conn ops at_client server.public_key client ≡ (client', some w))
      (server_wraps : wrap_conn ops at_server [] server ≡ (server', some w')) where
    client-channel :
        (key : Text) × IsKey ops client.secret client.encryption_algo server.public_key
          at_server.nonce key
        × (w.channel ≡ (
            if is_none_algo client.encryption_algo
            then plain
            else encrypted client.encryption_algo key true))
    unfolding sent_metadata
    client-channel =
        let (a, n, wrapped) =
          wrap_conn-agreed at_client server.public_key client client' w client_wraps in
        let agreed =
          negotiate-known at_client client server.public_key
            (sent_metadata server [] local' at_server.nonce) a named client_reads n in
        let (key, is_key, e) =
          channel-at client a w client.encryption_algo server.public_key at_server.nonce agreed
            (wrap_agreed-HasChannel at_client client client' a w client_known.1 wrapped) in
        (key, is_key, ground (arith, is_empty→nil server.public_key))

    server-channel :
        (key : Text) × IsKey ops server.secret client.encryption_algo client.public_key
          at_server.nonce key
        × (w'.channel ≡ (
            if is_none_algo client.encryption_algo
            then plain
            else encrypted client.encryption_algo key true))
    unfolding sent_metadata
    server-channel =
        let (a, n, wrapped) = wrap_conn-agreed at_server [] server server' w' server_wraps in
        let (ea, ep, en, size) =
          negotiate-new at_server server
            (sent_metadata client server.public_key local at_client.nonce) a server_reads n in
        let (key, is_key, e) =
          channel-at server a w' client.encryption_algo client.public_key at_server.nonce
            (ground (arith, is_empty→nil server.public_key))
            (wrap_agreed-HasChannel at_server server server' a w' server_known.1 wrapped) in
        (
          key,
          is_key,
          ground (arith, is_empty→nil server.public_key, is_empty→nil client.public_key),
        )

    -- Let two hosts have the public keys of their secrets and right shared keys in their caches.
    -- When both finish the handshake, the client knowing the key of the server, and each having
    -- read what the other wrote, they have the same connection: with the algorithm of the client,
    -- under one key, or in the clear.
    pub wrap_conn-same_channel : w.channel ≡ w'.channel
    wrap_conn-same_channel =
        let (key, is_key, e) = client-channel in
        let (key', is_key', e') = server-channel in
        let same =
          same_key ops client.secret server.secret client.encryption_algo at_server.nonce key key'
            (subst (λ p. IsKey ops client.secret client.encryption_algo p at_server.nonce key)
              server_known.0 is_key)
            (subst (λ p. IsKey ops server.secret client.encryption_algo p at_server.nonce key')
              client_known.0 is_key') in
        ground arith

    -- When both such hosts finish such a handshake and the connection is encrypted, both ends are
    -- its initiator.
    pub wrap_conn-IsInitiator : IsInitiator w.channel × IsInitiator w'.channel
    wrap_conn-IsInitiator =
        let (key, is_key, e) = client-channel in
        let (key', is_key', e') = server-channel in
        (
          wrapped-IsInitiator w client.encryption_algo key e,
          wrapped-IsInitiator w' client.encryption_algo key' e',
        )
