-- ===== src/Connect/Chosen.antt =====
-- What `CreateServerConn` has connected to: the prices, the receiver and the address of one candidate.
use mathlib.Core.Option.{some-injective}
use tuna.Common.Int.{ℤ, pos, ltb_ℤ}
use tuna.Conn.{KeyOps}
use tuna.Udp.{CipherOps}
use tuna.Payment.{parse_price}
use tuna.Connect.{
  Reached, reached, not_reached, panicked, Client, update_server_conn, Candidate, ConnectEnv,
  candidate_metadata, set_payment_receiver, receiver_of, reverse_ports, take_over,
  connect_candidate, pay_candidate, try_candidate, try_candidates, try_round, Created, created,
  Search, check_balance, search_loop, create_server_conn,
}
use tuna.Connect.Server.{WhenOk, IsSameExit, update_server_conn-IsSameExit}
use tuna.Common.{
  ◌≡◌, refl, sym, ap, ◌∙◌, ◌≢◌, inl, inr, Bool, true, false, not, ◌&&◌, ◌||◌, Option, some, List,
  [], ◌∷◌, arith, if_ind, option_ind, Any, Text, is_empty,
}

reached_ind {ℓ} :
    {A : Type 0} (P : A → Type ℓ) (x : Reached) {a b c : A}
    → (x ≡ reached → P a)
    → (x ≡ panicked → P b)
    → (x ≡ not_reached → P c)
    → P (elim x [ reached ↦ a | panicked ↦ b | not_reached ↦ c ])
reached_ind P reached ha hb hc = ha refl
reached_ind P panicked ha hb hc = hb refl
reached_ind P not_reached ha hb hc = hc refl

module _ (keys : KeyOps) (ops : CipherOps) (env : ConnectEnv) where
  -- The client came from a connection without error to the candidate's public key.
  abbrev pub IsLinked : Candidate → Client → Type 0
  IsLinked n c' =
      (peer : Text) × (before : Client) × (n.public_key ≡ some peer)
      × (update_server_conn keys ops n.attempt peer before ≡ (c', reached))

  -- all that the client pays by and connects with is of one candidate
  abbrev pub IsChosen : Client → Candidate → Type 0
  IsChosen c' n =
      (parse_price env.to_fixed64 (candidate_metadata n).price ≡ some c'.prices)
      × (receiver_of n (candidate_metadata n) ≡ some c'.payment_receiver)
      × (c'.remote_nkn_address ≡ n.address)
      × (c'.metadata ≡ reverse_ports c'.reverse_metadata (candidate_metadata n))
      × IsLinked n c'

  connect_candidate-IsLinked :
      (n : Candidate) (prices : ℤ × ℤ) (c : Client)
      → WhenOk
          (λ c'. IsSameExit (take_over n prices c) c' × IsLinked n c')
          (connect_candidate keys ops n prices c)
  unfolding connect_candidate
  connect_candidate-IsLinked n prices c =
      option_ind (WhenOk (λ c'. IsSameExit (take_over n prices c) c' × IsLinked n c')) n.public_key
        (λ _ e. absurd (ground (arith, e)))
        λ peer known ok. (
          update_server_conn-IsSameExit keys ops n.attempt peer (take_over n prices c),
          (
            peer,
            take_over n prices c,
            known,
            ap
                (λ (b : Reached).
                  ((update_server_conn keys ops n.attempt peer (take_over n prices c)).0, b))
                ok,
          ),
        )

  set_payment_receiver-some :
      (receiver : Text) (c c' : Client)
      → set_payment_receiver env receiver c ≡ some c'
      → record c { payment_receiver = receiver } ≡ c'
  unfolding set_payment_receiver
  set_payment_receiver-some receiver c c' e =
      if_ind (λ (o : Option Client). o ≡ some c' → record c { payment_receiver = receiver } ≡ c')
        (is_empty receiver || env.verify_wallet receiver) (λ _ e'. some-injective _ _ e')
        (λ _ e'. absurd (ground (arith, e'))) e

  connect_candidate-IsChosen :
      (n : Candidate) (prices : ℤ × ℤ) (receiver : Text) (c : Client)
      → parse_price env.to_fixed64 (candidate_metadata n).price ≡ some prices
      → receiver_of n (candidate_metadata n) ≡ some receiver
      → c.payment_receiver ≡ receiver
      → c.metadata ≡ candidate_metadata n
      → WhenOk (λ c'. IsChosen c' n) (connect_candidate keys ops n prices c)
  unfolding take_over
  connect_candidate-IsChosen n prices receiver c parsed paid set meta ok =
      let ((same_meta, address, same_receiver, same_prices, reverse), linked) =
        connect_candidate-IsLinked n prices c ok in
      (
        parsed ∙ ap (λ (p : ℤ × ℤ). some p) (sym same_prices),
        paid ∙ ap (λ (r : Text). some r) (sym (same_receiver ∙ set)),
        address,
        same_meta
            ∙ ap (λ r. reverse_ports r c.metadata) (sym reverse)
            ∙ ap (λ m. reverse_ports (connect_candidate keys ops n prices c).0.reverse_metadata m)
                meta,
        linked,
      )

  pay_candidate-IsChosen :
      (n : Candidate) (prices : ℤ × ℤ) (c : Client)
      → parse_price env.to_fixed64 (candidate_metadata n).price ≡ some prices
      → c.metadata ≡ candidate_metadata n
      → WhenOk (λ c'. IsChosen c' n) (pay_candidate keys ops env n prices c)
  unfolding pay_candidate
  pay_candidate-IsChosen n prices c parsed meta =
      option_ind (WhenOk (λ c'. IsChosen c' n)) (receiver_of n c.metadata)
        (λ _ e. absurd (ground (arith, e)))
        λ receiver paid.
          option_ind (WhenOk (λ c'. IsChosen c' n)) (set_payment_receiver env receiver c)
            (λ _ e. absurd (ground (arith, e)))
            λ c' e.
              let same = set_payment_receiver-some receiver c c' e in
              connect_candidate-IsChosen n prices receiver c' parsed
                (ap (receiver_of n) (sym meta) ∙ paid)
                (ap (λ (x : Client). x.payment_receiver) (sym same))
                (ap (λ (x : Client). x.metadata) (sym same) ∙ meta)

  try_candidate-IsChosen :
      (n : Candidate) (c : Client) → WhenOk (λ c'. IsChosen c' n) (try_candidate keys ops env n c)
  unfolding try_candidate
  try_candidate-IsChosen n c =
      option_ind (WhenOk (λ c'. IsChosen c' n))
        (parse_price env.to_fixed64 (candidate_metadata n).price)
        (λ _ e. absurd (ground (arith, e)))
        λ prices parsed.
          pay_candidate-IsChosen n prices (record c { metadata = candidate_metadata n }) parsed refl

  try_candidates-IsChosen :
      (ns : List Candidate) (c : Client)
      → WhenOk (λ c'. Any (IsChosen c') ns) (try_candidates keys ops env ns c)
  unfolding try_candidates
  try_candidates-IsChosen [] c = λ e. absurd (ground (arith, e))
  try_candidates-IsChosen (n ∷ ns) c =
      reached_ind (WhenOk (λ c'. Any (IsChosen c') (n ∷ ns))) (try_candidate keys ops env n c).1
        (λ ok _. inl (try_candidate-IsChosen n c ok)) (λ _ e. absurd (ground (arith, e)))
        (λ _ e. inr (try_candidates-IsChosen ns (try_candidate keys ops env n c).0 e))

  -- one of the candidates of a round
  abbrev pub IsOffered : Client → Search → Type 0
  IsOffered c' s = (ns : List Candidate) × (s.candidates ≡ some ns) × Any (IsChosen c') ns

  -- the loop returned without an error
  abbrev pub WhenCreated : (Client → Type 0) → Client × Created → Type 0
  WhenCreated P (c, result) = result ≡ created → P c

  check_balance-failed : (balance : Option ℤ) → check_balance env balance ≢ some created
  unfolding check_balance
  check_balance-failed balance =
      if_ind (λ (o : Option Created). o ≢ some created) (not (ltb_ℤ (pos 0) env.min_balance))
        (λ _ e. cc)
        λ _.
          option_ind (λ (o : Option Created). o ≢ some created)
            (parse_price env.to_fixed64 env.max_price) (λ _ e. cc)
            λ p _.
              if_ind (λ (o : Option Created). o ≢ some created)
                (not (ltb_ℤ (pos 0) p.0 || ltb_ℤ (pos 0) p.1)) (λ _ e. cc)
                λ _.
                  option_ind (λ (o : Option Created). o ≢ some created) balance (λ _ e. cc)
                    λ b _.
                      if_ind (λ (o : Option Created). o ≢ some created) (ltb_ℤ b env.min_balance)
                        (λ _ e. cc) (λ _ e. cc)

  try_round-IsOffered :
      (s : Search) (c : Client) → WhenOk (λ c'. IsOffered c' s) (try_round keys ops env s c)
  unfolding try_round
  try_round-IsOffered s c =
      option_ind (WhenOk (λ c'. IsOffered c' s)) s.candidates (λ _ e. absurd (ground (arith, e)))
        (λ ns found ok. (ns, found, try_candidates-IsChosen ns c ok))

  search_loop-IsOffered :
      (ss : List Search) (c : Client)
      → WhenCreated (λ c'. Any (IsOffered c') ss) (search_loop keys ops env ss c)
  unfolding search_loop
  search_loop-IsOffered [] c = λ e. absurd (ground (arith, e))
  search_loop-IsOffered (s ∷ ss) c =
      if_ind (WhenCreated (λ c'. Any (IsOffered c') (s ∷ ss))) s.is_closed
        (λ _ e. absurd (ground (arith, e)))
        λ _.
          option_ind (WhenCreated (λ c'. Any (IsOffered c') (s ∷ ss))) (check_balance env s.balance)
            (λ _.
              reached_ind (WhenCreated (λ c'. Any (IsOffered c') (s ∷ ss)))
                (try_round keys ops env s fresh).1 (λ ok _. inl (try_round-IsOffered s fresh ok))
                (λ _ e. absurd (ground (arith, e)))
                (λ _ e. inr (search_loop-IsOffered ss (try_round keys ops env s fresh).0 e)))
            λ error e e'.
              absurd (check_balance-failed s.balance (e ∙ ap (λ (x : Created). some x) e'))
    where
      fresh : Client
      fresh = record c { payment_receiver = [] }

  -- When `CreateServerConn` makes a connection and returns without an error: it has connected, without
  -- an error, to the public key of one of the candidates of one of its rounds; and the metadata, the
  -- prices, the receiver of the payments and the address are all of that candidate: the metadata of its
  -- latest subscription, if there is one that can be read, the prices of that metadata, and its
  -- beneficiary, or the wallet of its address if it names none.
  pub create_server_conn-IsChosen :
      (force : Bool) (ss : List Search) (c : Client)
      → c.host.is_server ≡ false
      → (not c.connected || force) ≡ true
      → (create_server_conn keys ops env force ss c).1 ≡ created
      → Any (IsOffered (create_server_conn keys ops env force ss c).0) ss
  unfolding create_server_conn
  create_server_conn-IsChosen force ss c client needed =
      if_ind (WhenCreated (λ c'. Any (IsOffered c') ss))
        (not c.host.is_server && (not c.connected || force)) (λ _. search_loop-IsOffered ss c)
        (λ kept. absurd (ground (arith, kept, client, needed)))
