-- ===== src/Conn/Keys.antt =====
-- The key of a connection: two hosts compute the same one.
use tuna.Common.Dict.{lookup}
use tuna.Wire.{EncryptionAlgo}
use tuna.Conn.{
  KeyOps, Host, encrypt_key_size, zeros, is_none_algo, compute_encrypt_key, cached_or_computed,
  get_or_compute_shared_key, derive_key,
}
use tuna.Common.{
  ◌≡◌, refl, sym, ap, ◌∙◌, subst, ◌⊎◌, inl, inr, true, false, Option, none, some, arith, Bool-cases,
  >>=-eq-some, Text,
}

module _ (ops : KeyOps) where
  -- a shared key with a peer is the one of Diffie-Hellman
  abbrev pub IsShared : Text → Text → Text → Type 0
  IsShared secret peer key =
      (curve : Text) × (ops.to_curve peer ≡ some curve) × (key ≡ ops.precompute secret curve)

  -- every cached shared key is right
  abbrev pub IsCacheRight : Host → Type 0
  IsCacheRight h =
      (peer key : Text)
      → lookup peer h.shared_keys ≡ some key
      → (curve : Text) × (ops.to_curve peer ≡ some curve) × (key ≡ ops.precompute h.secret curve)

  -- the key of a connection, from a host's secret
  abbrev pub IsKey : Text → EncryptionAlgo → Text → Text → Text → Type 0
  IsKey secret algo peer conn_nonce key =
      ((is_none_algo algo ≡ true) × (key ≡ zeros encrypt_key_size))
      ⊎ ((is_none_algo algo ≡ false)
          × ((shared : Text) × IsShared secret peer shared
              × (key ≡ compute_encrypt_key ops conn_nonce shared)))

  cached_or_computed-IsShared :
      (h h' : Host) (peer key : Text) (cached : Option Text)
      → IsCacheRight h
      → lookup peer h.shared_keys ≡ cached
      → cached_or_computed ops peer h cached ≡ some (key, h')
      → IsShared h.secret peer key
  unfolding cached_or_computed
  cached_or_computed-IsShared h h' peer key (some found) right present e =
      subst (λ k. IsShared h.secret peer k) (ground (arith, e)) (right peer found present)
  cached_or_computed-IsShared h h' peer key none right absent e =
      let (curve, converted, e') = >>=-eq-some (ops.to_curve peer) _ e in
      (curve, converted, ground (arith, e'))

  get_or_compute_shared_key-IsShared :
      (h h' : Host) (peer key : Text)
      → IsCacheRight h
      → get_or_compute_shared_key ops peer h ≡ some (key, h')
      → IsShared h.secret peer key
  unfolding get_or_compute_shared_key
  get_or_compute_shared_key-IsShared h h' peer key right e =
      cached_or_computed-IsShared h h' peer key (lookup peer h.shared_keys) right refl e

  pub derive_key-IsKey :
      (h h' : Host) (algo : EncryptionAlgo) (peer conn_nonce key : Text)
      → IsCacheRight h
      → derive_key ops algo peer conn_nonce h ≡ some (key, h')
      → IsKey h.secret algo peer conn_nonce key
  unfolding derive_key
  derive_key-IsKey h h' algo peer conn_nonce key right e = elim (Bool-cases (is_none_algo algo)) [
    | inl n ↦ inl (n, ground (arith, rw n at e))
    | inr n ↦
        let ((shared, h''), got, e') =
          >>=-eq-some (get_or_compute_shared_key ops peer h) _ (rw n at e) in
        inr (
          n,
          (
            shared,
            get_or_compute_shared_key-IsShared h h'' peer shared right got,
            ground (arith, e'),
          ),
        )
  ]

  -- Both ends have the same key.
  pub same_key :
      (a b : Text) (algo : EncryptionAlgo) (conn_nonce key key' : Text)
      → IsKey a algo (ops.public_of b) conn_nonce key
      → IsKey b algo (ops.public_of a) conn_nonce key'
      → key ≡ key'
  same_key a b algo conn_nonce key key' (inl (_, e)) (inl (_, e')) = e ∙ sym e'
  same_key a b algo conn_nonce key key' (inl (n, _)) (inr (n', _)) = cc
  same_key a b algo conn_nonce key key' (inr (n, _)) (inl (n', _)) = cc
  same_key a b algo conn_nonce key key' (inr (_, (s, (c, hc, es), e)))
        (inr (_, (s', (d, hd, es'), e'))) =
      e
      ∙ ap (compute_encrypt_key ops conn_nonce) (es ∙ ops.precompute_sym a b d c hd hc ∙ sym es')
      ∙ sym e'
