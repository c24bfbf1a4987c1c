-- ===== src/Tests/Stores.antt =====
-- Favorite nodes and avoided subnets on concrete maps. Bandwidths are natural numbers.
use tuna.Common.Dict.{Dict, lookup}
use tuna.Common.Int.{pos}
use tuna.Net.Ipv4.{ipv4, parse_network, show_network}
use tuna.Storage.{
  FloatOps, FavoriteNode, AvoidNode, add_favorite_node, min_bandwidth_loop, max_favorite_length,
}
use tuna.Storage.Favorite.{add_favorite_node-bounded, add_favorite_node_grows, Distinct}
use tuna.Storage.Avoid.{clear_avoid_expired, AvoidNodes, add_avoid_node, subnet_key, stamp_avoid}
use tuna.Storage.Avoid.Laws.{
  lookup-clear_avoid_expired, alive, lookup-add_avoid_node, group, DistinctGroups,
}
use tuna.Common.{
  ℕ, ◌+◌, ◌^◌, ◌≤◌, ◌≡◌, refl, inl, ◌&&◌, some, [], ◌∷◌, arith, ltb, ◌==◌, if◌then◌else◌, length,
  Text, codes, text_eq,
}

abbrev numbers : FloatOps
numbers = record { Float = ℕ; zero_f = 0; lt = ltb; eq = λ a b. a == b }

abbrev node_of : ℕ → ℕ → FavoriteNode ℕ
node_of bandwidth expiry = record {
  ip = codes "10.0.0.1";
  address = codes "exit";
  metadata = [];
  delay = 0;
  min_bandwidth = bandwidth;
  max_bandwidth = bandwidth;
  expires_at = pos expiry;
}

-- eight nodes that expire at one time
abbrev eight : ℕ → Dict (FavoriteNode ℕ)
eight expiry =
    (codes "a", node_of 1 expiry)
    ∷ (codes "b", node_of 2 expiry)
    ∷ (codes "c", node_of 3 expiry)
    ∷ (codes "d", node_of 4 expiry)
    ∷ (codes "e", node_of 5 expiry)
    ∷ (codes "f", node_of 6 expiry)
    ∷ (codes "g", node_of 7 expiry)
    ∷ (codes "h", node_of 8 expiry)
    ∷ []

add_favorite_node-bounded_example :
    length (add_favorite_node numbers (pos 0) (codes "z") (node_of 9 200) (eight 100)).1
    ≤ max_favorite_length
add_favorite_node-bounded_example =
    add_favorite_node-bounded numbers (pos 0) (codes "z") (node_of 9 200) (eight 100) (omega arith)
      λ e. inl refl

add_favorite_node_grows_example :
    length (add_favorite_node numbers (pos 0) (codes "z") (node_of 9 (2 ^ 31)) (eight (2 ^ 31))).1
    ≡ max_favorite_length + 1
unfolding lookup text_eq min_bandwidth_loop
add_favorite_node_grows_example =
    add_favorite_node_grows numbers (pos 0) (codes "z") (node_of 9 (2 ^ 31)) (eight (2 ^ 31)) refl
      (refl, (refl, (refl, (refl, (refl, (refl, (refl, (refl, tt)))))))) refl refl refl

abbrev two_nodes : Dict (FavoriteNode ℕ)
two_nodes = (codes "a", node_of 1 10) ∷ (codes "b", node_of 2 30) ∷ []

two_nodes-Distinct : Distinct two_nodes
unfolding lookup text_eq
two_nodes-Distinct = (refl, (refl, tt))

abbrev host : Text → ℕ → AvoidNode
host ip expiry = record { ip = ip; mask_size = pos 16; address = []; expires_at = pos expiry }

abbrev avoided : Dict AvoidNodes
avoided =
    (
      codes "10.1.0.0/16",
      (codes "10.1.0.1", host (codes "10.1.0.1") 10)
          ∷ (codes "10.1.0.2", host (codes "10.1.0.2") 30)
          ∷ [],
    )
    ∷ []

same_subnet :
    subnet_key ipv4 (codes "10.1.2.3") (stamp_avoid (pos 5) (host (codes "10.1.2.3") 0)).mask_size
    ≡ some (codes "10.1.0.0/16")
unfolding subnet_key stamp_avoid parse_network show_network
same_subnet = refl

lookup-add_avoid_node_example :
    lookup (codes "10.1.2.3") (
      group
        (codes "10.1.0.0/16")
        (add_avoid_node ipv4 (pos 5) (codes "10.1.2.3") (host (codes "10.1.2.3") 0) avoided))
    ≡ (if text_eq (codes "10.1.0.0/16") (codes "10.1.0.0/16")
          && text_eq (codes "10.1.2.3") (codes "10.1.2.3")
        then some (stamp_avoid (pos 5) (host (codes "10.1.2.3") 0))
        else lookup (codes "10.1.2.3") (group (codes "10.1.0.0/16") avoided))
lookup-add_avoid_node_example =
    lookup-add_avoid_node ipv4 (pos 5) (host (codes "10.1.2.3") 0) avoided (codes "10.1.0.0/16")
      (codes "10.1.0.0/16") (codes "10.1.2.3") same_subnet

avoided-Distinct : Distinct avoided × DistinctGroups avoided
unfolding lookup text_eq
avoided-Distinct = ((refl, tt), ((refl, (refl, tt)), tt))

lookup-clear_avoid_expired_example :
    lookup (codes "10.1.0.1") (group (codes "10.1.0.0/16") (clear_avoid_expired (pos 20) avoided))
    ≡ alive (pos 20) (lookup (codes "10.1.0.1") (group (codes "10.1.0.0/16") avoided))
lookup-clear_avoid_expired_example =
    lookup-clear_avoid_expired (pos 20) avoided (codes "10.1.0.0/16") (codes "10.1.0.1")
      avoided-Distinct.0 avoided-Distinct.1
