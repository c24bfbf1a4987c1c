-- ===== src/Nodes/Avoided.antt =====
-- The avoided subnets have no part in which nodes `filterSubscribers` keeps.
use tuna.Common.Dict.{Dict}
use tuna.Common.Int.{ℤ}
use tuna.Net.{Net}
use tuna.Payment.{parse_price}
use tuna.Nodes.{Node, FilterEnv, new_node, consider, prepend, filter_loop, filter_subscribers}
use tuna.Common.{◌≡◌, refl, inl, inr, Option, none, some, List, [], ◌∷◌, arith, Option-cases, Text}

-- the first part of a result, without the log
abbrev pub without_log : {A : Type 0} → Option (A × List Text) → Option A
without_log none = none
without_log (some (a, log)) = some a

module _ (net : Net) {F : Type 0} where
  abbrev pub with_avoid : FilterEnv net F → List net.IPNet → FilterEnv net F
  with_avoid env avoid = record env { avoid = avoid }

  consider-avoid :
      (env : FilterEnv net F) (max_prices : ℤ × ℤ) (raw : Dict Text) (s : Text)
      (avoid : List net.IPNet)
      → without_log (consider net (with_avoid env avoid) max_prices raw s)
        ≡ without_log (consider net env max_prices raw s)
  unfolding consider new_node
  consider-avoid env max_prices raw s avoid = ground arith

  loop_body :
      Option (Option (Node F) × List Text)
      → Option (List (Node F) × List Text)
      → Option (List (Node F))
  loop_body none _ = none
  loop_body (some _) none = none
  loop_body (some (node, _)) (some (nodes, _)) = some (prepend node nodes)

  filter_loop-avoid :
      (env : FilterEnv net F) (max_prices : ℤ × ℤ) (raw : Dict Text) (avoid : List net.IPNet)
      (ss : List Text)
      → without_log (filter_loop net (with_avoid env avoid) max_prices raw ss)
        ≡ without_log (filter_loop net env max_prices raw ss)
  unfolding filter_loop
  filter_loop-avoid env max_prices raw avoid [] = refl
  filter_loop-avoid env max_prices raw avoid (s ∷ ss) = ground (
    arith,
    consider-avoid env max_prices raw s avoid,
    filter_loop-avoid env max_prices raw avoid ss,
  )

  -- Whatever subnets are to be avoided, `filterSubscribers` keeps the same nodes: an avoided subnet
  -- is logged, and its nodes stay.
  pub filter_subscribers-avoid :
      (env : FilterEnv net F) (all_subscribers : List Text) (raw : Dict Text)
      (avoid : List net.IPNet)
      → without_log (filter_subscribers net (with_avoid env avoid) all_subscribers raw)
        ≡ without_log (filter_subscribers net env all_subscribers raw)
  unfolding filter_subscribers
  filter_subscribers-avoid env all_subscribers raw avoid =
      elim (Option-cases (parse_price env.to_fixed64 env.max_price)) [
        | inl e ↦ rw e
        | inr (m, e) ↦ rw e (filter_loop-avoid env m raw avoid all_subscribers)
      ]
