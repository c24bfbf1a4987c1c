-- ===== src/Nodes/Filtered.antt =====
-- Which subscribers `filterSubscribers` keeps.
use mathlib.Core.Option
use tuna.Common.Dict.{Dict, lookup}
use tuna.Common.Int.{ℤ, ◌≤ℤ◌}
use tuna.Net.{Net}
use tuna.Payment.{parse_price}
use tuna.Filter.{is_allow}
use tuna.Geo.Provider.{allow_ip}
use tuna.Nodes.{
  new_node, Node, FilterEnv, avoid_log, too_expensive, consider, prepend, filter_loop,
  filter_subscribers,
}
use tuna.Common.{
  ◌≡◌, refl, ap, subst, inl, inr, true, false, not, Option, none, some, List, [], ◌∷◌, arith,
  if_ind, option_ind, >>=-eq-some, All, Any, Text,
}

cheap_enough :
    (prices max_prices : ℤ × ℤ)
    → too_expensive prices max_prices ≡ false
    → (prices.0 ≤ℤ max_prices.0) × (prices.1 ≤ℤ max_prices.1)
unfolding too_expensive
cheap_enough (p, q) (mp, mq) h = ground arith

not_expensive :
    (prices max_prices : ℤ × ℤ)
    → (prices.0 ≤ℤ max_prices.0) × (prices.1 ≤ℤ max_prices.1)
    → too_expensive prices max_prices ≡ false
unfolding too_expensive
not_expensive (p, q) (mp, mq) h = ground arith

module _ (net : Net) {F : Type 0} where
  -- What a kept node has passed: its metadata is what was published for its address, both its
  -- prices are within the limits, and the two filters let it through.
  pub record IsAcceptable (env : FilterEnv net F) (max_prices : ℤ × ℤ) (raw : Dict Text)
      (n : Node F) : Type 0 where
    pub published : n.metadata_raw ≡ Option.get_or (lookup n.address raw) []
    pub readable : env.read_metadata n.metadata_raw ≡ some n.metadata
    pub prices : ℤ × ℤ
    pub priced : parse_price env.to_fixed64 n.metadata.price ≡ some prices
    pub cheap : (prices.0 ≤ℤ max_prices.0) × (prices.1 ≤ℤ max_prices.1)
    pub nkn_allowed :
        is_allow env.nkn_filter (some (record { address = n.address; metadata = [] })) ≡ true
    pub ip_allowed : allow_ip net env.ip_filter env.providers n.metadata.ip ≡ some true

  -- a node that comes out of the loop's body is acceptable
  abbrev Screened :
      FilterEnv net F → ℤ × ℤ → Dict Text → Option (Option (Node F) × List Text) → Type 0
  Screened env max_prices raw r =
      (n : Node F) (log : List Text) → r ≡ some (some n, log) → IsAcceptable env max_prices raw n

  consider-Screened :
      (env : FilterEnv net F) (max_prices : ℤ × ℤ) (raw : Dict Text) (s : Text)
      → Screened env max_prices raw (consider net env max_prices raw s)
  unfolding consider new_node
  consider-Screened env max_prices raw s =
      let text : Text = Option.get_or (lookup s raw) [] in
      let P = Screened env max_prices raw in
      option_ind P (env.read_metadata text) (λ _ n log h. cc)
        λ metadata readable.
          option_ind P (parse_price env.to_fixed64 metadata.price) (λ _ n log h. cc)
            λ prices priced.
              if_ind P (too_expensive prices max_prices) (λ _ n log h. cc)
                λ cheap.
                  if_ind P
                    (not (is_allow env.nkn_filter (some (record { address = s; metadata = [] }))))
                    (λ _ n log h. cc)
                    λ nkn.
                      option_ind P (allow_ip net env.ip_filter env.providers metadata.ip)
                        (λ _ n log h. cc)
                        λ res ip.
                          if_ind P (not res) (λ _ n log h. cc)
                            λ yes_ip n log h.
                              let e : new_node net env s text metadata ≡ n = ground (arith, h) in
                              subst (IsAcceptable env max_prices raw) e (record {
                                published = refl;
                                readable = readable;
                                prices = prices;
                                priced = priced;
                                cheap = cheap_enough prices max_prices cheap;
                                nkn_allowed = ground (arith, nkn);
                                ip_allowed = ground (arith, ip, yes_ip);
                              })

  filter_loop-IsAcceptable :
      (env : FilterEnv net F) (max_prices : ℤ × ℤ) (raw : Dict Text) (all_subscribers : List Text)
      (nodes : List (Node F)) (log : List Text)
      → filter_loop net env max_prices raw all_subscribers ≡ some (nodes, log)
      → All (IsAcceptable env max_prices raw) nodes
  unfolding filter_loop
  filter_loop-IsAcceptable env max_prices raw [] nodes log h =
      let e : [] ≡ nodes = ground (arith, h) in subst (All (IsAcceptable env max_prices raw)) e tt
  filter_loop-IsAcceptable env max_prices raw (s ∷ rest) nodes log h =
      let ((node, log'), considered, h') = >>=-eq-some (consider net env max_prices raw s) _ h in
      let ((nodes', logs), looped, h'') =
        >>=-eq-some (filter_loop net env max_prices raw rest) _ h' in
      let e : prepend node nodes' ≡ nodes = ground (arith, h'') in
      subst (All (IsAcceptable env max_prices raw)) e (
        prepended node log' considered nodes'
          (filter_loop-IsAcceptable env max_prices raw rest nodes' logs looped))
    where
      prepended :
          (o : Option (Node F)) (l : List Text)
          → consider net env max_prices raw s ≡ some (o, l)
          → (ns : List (Node F)) → All (IsAcceptable env max_prices raw) ns
          → All (IsAcceptable env max_prices raw) (prepend o ns)
      prepended none l c ns hs = unfold prepend in hs
      prepended (some n) l c ns hs =
          unfold prepend in (consider-Screened env max_prices raw s n l c, hs)

  -- Every node that `filterSubscribers` keeps carries the metadata that was published for its
  -- address, asks no more than the maximal price in either direction, and is allowed by the NKN
  -- address filter and by the IP filter.
  pub filter_subscribers-IsAcceptable :
      (env : FilterEnv net F) (all_subscribers : List Text) (raw : Dict Text) (max_prices : ℤ × ℤ)
      (nodes : List (Node F)) (log : List Text)
      → parse_price env.to_fixed64 env.max_price ≡ some max_prices
      → filter_subscribers net env all_subscribers raw ≡ some (nodes, log)
      → All (IsAcceptable env max_prices raw) nodes
  unfolding filter_subscribers
  filter_subscribers-IsAcceptable env all_subscribers raw max_prices nodes log hm h =
      filter_loop-IsAcceptable env max_prices raw all_subscribers nodes log (rw hm at h)

  -- An acceptable subscriber passes the body of the loop.
  consider_complete :
      (env : FilterEnv net F) (max_prices : ℤ × ℤ) (raw : Dict Text) (n : Node F)
      → IsAcceptable env max_prices raw n
      → consider net env max_prices raw n.address
        ≡ some (
          some (new_node net env n.address n.metadata_raw n.metadata),
          avoid_log net env.avoid n.metadata.ip,
        )
  unfolding consider
  consider_complete env max_prices raw n a =
      let readable : env.read_metadata (Option.get_or (lookup n.address raw) []) ≡ some n.metadata =
        subst (λ (t : Text). env.read_metadata t ≡ some n.metadata) a.published a.readable in
      ground (
        arith,
        readable,
        a.published,
        a.priced,
        not_expensive a.prices max_prices a.cheap,
        a.nkn_allowed,
        a.ip_allowed,
      )

  filter_loop_complete :
      (env : FilterEnv net F) (max_prices : ℤ × ℤ) (raw : Dict Text) (all_subscribers : List Text)
      (nodes : List (Node F)) (log : List Text) (n : Node F)
      → filter_loop net env max_prices raw all_subscribers ≡ some (nodes, log)
      → IsAcceptable env max_prices raw n
      → Any (λ s. s ≡ n.address) all_subscribers
      → Any (λ k. k.address ≡ n.address) nodes
  unfolding filter_loop
  filter_loop_complete env max_prices raw [] nodes log n h a m = absurd m
  filter_loop_complete env max_prices raw (s ∷ rest) nodes log n h a m =
      let ((node, log'), considered, h') = >>=-eq-some (consider net env max_prices raw s) _ h in
      let ((nodes', logs), looped, h'') =
        >>=-eq-some (filter_loop net env max_prices raw rest) _ h' in
      let e : prepend node nodes' ≡ nodes = ground (arith, h'') in
      subst (Any (λ k. k.address ≡ n.address)) e (
        found node log' nodes' considered
          (filter_loop_complete env max_prices raw rest nodes' logs n looped a) m)
    where
      found :
          (o : Option (Node F)) (l : List Text) (ns : List (Node F))
          → consider net env max_prices raw s ≡ some (o, l)
          → (Any (λ t. t ≡ n.address) rest → Any (λ k. k.address ≡ n.address) ns)
          → Any (λ t. t ≡ n.address) (s ∷ rest)
          → Any (λ k. k.address ≡ n.address) (prepend o ns)
      found none l ns c later (inl here) =
          let c' = consider_complete env max_prices raw n a in
          absurd (ground (arith, here, c, c', ap (consider net env max_prices raw) here))
      found (some k) l ns c later (inl here) =
          let c' = consider_complete env max_prices raw n a in
          unfold prepend new_node in
          inl (ground (arith, here, c, c', ap (consider net env max_prices raw) here))
      found none l ns c later (inr there) = unfold prepend in later there
      found (some k) l ns c later (inr there) = unfold prepend in inr (later there)

  -- No acceptable subscriber is lost: each of the given addresses that is acceptable has a node.
  pub filter_subscribers_complete :
      (env : FilterEnv net F) (all_subscribers : List Text) (raw : Dict Text) (max_prices : ℤ × ℤ)
      (nodes : List (Node F)) (log : List Text) (n : Node F)
      → parse_price env.to_fixed64 env.max_price ≡ some max_prices
      → filter_subscribers net env all_subscribers raw ≡ some (nodes, log)
      → IsAcceptable env max_prices raw n
      → Any (λ s. s ≡ n.address) all_subscribers
      → Any (λ k. k.address ≡ n.address) nodes
  unfolding filter_subscribers
  filter_subscribers_complete env all_subscribers raw max_prices nodes log n hm h a m =
      filter_loop_complete env max_prices raw all_subscribers nodes log n (rw hm at h) a m
