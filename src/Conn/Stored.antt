-- ===== src/Conn/Stored.antt =====
-- The key that `wrapConn` stores for the UDP connection is that of its TCP connection.
use tuna.Common.Dict.{lookup, lookup-insert}
use tuna.Wire.{ConnectionMetadata, EncryptionAlgo}
use tuna.Conn.{
  KeyOps, Host, Exchange, Channel, plain, encrypted, Wrapped, Agreed, is_none_algo, encrypt_conn,
  derive_key, get_or_compute_shared_key, cached_or_computed, store_key, negotiate, negotiate_known,
  wrap_agreed, wrap_conn,
}
use tuna.Conn.Handshake.{wrap_conn-agreed, encrypt_conn-channel, wrapped-channel}
use tuna.Common.{
  ◌≡◌, refl, sym, ap, ◌∙◌, subst, ◌≢◌, Bool, true, not, Option, some, [], ◌++◌, arith,
  if◌then◌else◌, option_ind, >>=-eq-some, Text, is_empty, text_eq_refl, is_empty→nil,
}

module _ (ops : KeyOps) where
  -- the key of a channel is stored under an identifier, and the algorithm is as before
  abbrev pub IsStored : Host → Host → Text → Bool → EncryptionAlgo → Channel → Type 0
  IsStored h h' key_id initiator algo channel =
      (key : Text) × (lookup key_id h'.encrypt_keys ≡ some key)
      × (channel ≡ (if is_none_algo algo then plain else encrypted algo key initiator))
      × (h'.encryption_algo ≡ h.encryption_algo)

  derive_key-algo :
      (algo : EncryptionAlgo) (peer nonce key : Text) (h h' : Host)
      → derive_key ops algo peer nonce h ≡ some (key, h')
      → h'.encryption_algo ≡ h.encryption_algo
  unfolding derive_key get_or_compute_shared_key cached_or_computed
  derive_key-algo algo peer nonce key h h' e = ground (arith, e)

  wrap_agreed-IsStored :
      (ex : Exchange) (h h' : Host) (a : Agreed) (w : Wrapped)
      → wrap_agreed ops ex h a ≡ (h', some w)
      → IsStored h h' (a.peer ++ a.conn_nonce) (not (is_empty a.peer)) a.algo w.channel
        × (w.remote ≡ a.remote)
  unfolding wrap_agreed store_key
  wrap_agreed-IsStored ex h h' a w e =
      option_ind
        (λ (r : Host × Option Wrapped).
          r ≡ (h', some w)
          → IsStored h h' key_id (not (is_empty a.peer)) a.algo w.channel × (w.remote ≡ a.remote))
        (derive_key ops a.algo a.peer a.conn_nonce h)
        (λ _ e'. absurd (ground (arith, ap (λ (r : Host × Option Wrapped). r.1) e')))
        (λ d derived e'.
          let hosts : store_key key_id d.0 d.1 ≡ h' = ap (λ (r : Host × Option Wrapped). r.0) e' in
          let (c, made, e'') =
            >>=-eq-some (encrypt_conn ex.stream_ok d.0 a.algo (not (is_empty a.peer))) _
              (ap (λ (r : Host × Option Wrapped). r.1) e') in
          (
            (
              d.0,
              subst (λ x. lookup key_id x.encrypt_keys ≡ some d.0) hosts
                  (lookup-insert key_id key_id d.0 d.1.encrypt_keys
                    ∙ rw (text_eq_refl key_id) refl),
              wrapped-channel ops c a.remote w e''
                  ∙ encrypt_conn-channel ops ex.stream_ok d.0 a.algo (not (is_empty a.peer)) c made,
              subst (λ x. x.encryption_algo ≡ h.encryption_algo) hosts
                  (derive_key-algo a.algo a.peer a.conn_nonce d.0 h d.1 derived),
            ),
            ground (arith, e''),
          ))
        e
    where
      key_id : Text
      key_id = a.peer ++ a.conn_nonce

  negotiate-IsKnown :
      (ex : Exchange) (h : Host) (peer : Text) (a : Agreed)
      → peer ≢ []
      → negotiate ex h peer ≡ some a
      → (a.algo ≡ h.encryption_algo) × (a.peer ≡ peer) × (a.conn_nonce ≡ a.remote.nonce)
  unfolding negotiate negotiate_known
  negotiate-IsKnown ex h peer a ne e = ground (arith, is_empty→nil peer)

  -- On the side that knows the other's key: when the handshake succeeds, the key of the channel is the
  -- one that is stored under the other's public key and the nonce of its metadata, and the channel has
  -- the algorithm of the host.
  pub wrap_conn-IsStored :
      (ex : Exchange) (peer : Text) (h h' : Host) (w : Wrapped)
      → peer ≢ []
      → wrap_conn ops ex peer h ≡ (h', some w)
      → IsStored h h' (peer ++ w.remote.nonce) true h.encryption_algo w.channel
  wrap_conn-IsStored ex peer h h' w ne e =
      let (a, n, agreed) = wrap_conn-agreed ops ex peer h h' w e in
      let (algo, known, nonce) = negotiate-IsKnown ex h peer a ne n in
      let (stored, remote) = wrap_agreed-IsStored ex h h' a w agreed in
      let same_id : a.peer ++ a.conn_nonce ≡ peer ++ w.remote.nonce =
        ap (λ (l : Text). l ++ a.conn_nonce) known
        ∙ ap (λ (l : Text). peer ++ l)
            (nonce ∙ ap (λ (r : ConnectionMetadata). r.nonce) (sym remote)) in
      let initiator : not (is_empty a.peer) ≡ true =
        ap (λ (l : Text). not (is_empty l)) known ∙ ground (arith, is_empty→nil peer) in
      subst (λ k. IsStored h h' k true h.encryption_algo w.channel) same_id
        (subst (λ i. IsStored h h' (a.peer ++ a.conn_nonce) i h.encryption_algo w.channel) initiator
          (subst (λ x. IsStored h h' (a.peer ++ a.conn_nonce) (not (is_empty a.peer)) x w.channel)
            algo stored))
