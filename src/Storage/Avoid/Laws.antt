-- ===== src/Storage/Avoid/Laws.antt =====
-- A subnet is avoided once more than three of its nodes are recorded, and expiry undoes that.
use mathlib.Core.Option
use tuna.Common.Dict.{Dict, lookup, insert, lookup-insert}
use tuna.Common.Int.{ℤ, ltb_ℤ}
use tuna.Net.{Net}
use tuna.Storage.{AvoidNode}
use tuna.Storage.Favorite.{Distinct}
use tuna.Storage.Avoid.{
  AvoidNodes, stamp_avoid, subnet_key, store_avoid, add_avoid_node, clear_group,
  clear_avoid_expired,
}
use tuna.Common.{
  ◌≡◌, refl, ap, inl, inr, ◌&&◌, Option, none, some, [], ◌∷◌, arith, if◌then◌else◌, Bool-cases,
  Text, is_empty, text_eq, text_eq_iff, is_empty→nil,
}

-- the group of a subnet, empty if there is none
abbrev pub group : Text → Dict AvoidNodes → AvoidNodes
group subnet m = Option.get_or (lookup subnet m) []

stamp-ip : (now : ℤ) (val : AvoidNode) → (stamp_avoid now val).ip ≡ val.ip
unfolding stamp_avoid
stamp-ip now val = refl

lookup-nil : (ip : Text) → lookup {V = AvoidNode} ip [] ≡ none
unfolding lookup
lookup-nil ip = refl

-- a map with one entry
lookup-one :
    (k ip : Text) (v : AvoidNode)
    → lookup ip ((k, v) ∷ []) ≡ (if text_eq k ip then some v else none)
unfolding lookup
lookup-one k ip v = refl

lookup-store_avoid :
    (subnet key : Text) (val : AvoidNode) (m : Dict AvoidNodes) (other ip : Text)
    → val.ip ≡ key
    → lookup ip (group other (store_avoid subnet key val m))
      ≡ (if text_eq subnet other && text_eq key ip then some val else lookup ip (group other m))
unfolding store_avoid
lookup-store_avoid subnet key val m other ip own = ground (
  arith,
  lookup-insert subnet other ((val.ip, val) ∷ []) m,
  lookup-one val.ip ip val,
  lookup-insert subnet other (insert key val (Option.get_or (lookup subnet m) [])) m,
  lookup-insert key ip val (Option.get_or (lookup subnet m) []),
  text_eq_iff subnet other,
  lookup-nil ip,
)

-- Recording a node under its own address puts it, with its defaults filled in, into the group of
-- its subnet, and leaves the other nodes of that group and every other group as they were.
pub lookup-add_avoid_node :
    (net : Net) (now : ℤ) (val : AvoidNode) (m : Dict AvoidNodes) (subnet other ip : Text)
    → subnet_key net val.ip (stamp_avoid now val).mask_size ≡ some subnet
    → lookup ip (group other (add_avoid_node net now val.ip val m)) ≡ (
        if text_eq subnet other && text_eq val.ip ip
        then some (stamp_avoid now val)
        else lookup ip (group other m))
unfolding add_avoid_node
lookup-add_avoid_node net now val m subnet other ip h =
    rw (h, add_avoid_node)
      (lookup-store_avoid subnet val.ip (stamp_avoid now val) m other ip (stamp-ip now val))

-- what is left of a node when the expired are dropped
abbrev pub alive : ℤ → Option AvoidNode → Option AvoidNode
alive now none = none
alive now (some v) = if ltb_ℤ v.expires_at now then none else some v

clear_group-none :
    (now : ℤ) (g : AvoidNodes) (ip : Text)
    → lookup ip g ≡ none
    → lookup ip (clear_group now g) ≡ none
unfolding clear_group lookup
clear_group-none now [] ip h = refl
clear_group-none now ((k, v) ∷ g) ip h = ground (arith, clear_group-none now g ip)

lookup-clear_group :
    (now : ℤ) (g : AvoidNodes) (ip : Text)
    → Distinct g
    → lookup ip (clear_group now g) ≡ alive now (lookup ip g)
unfolding clear_group lookup
lookup-clear_group now [] ip d = refl
lookup-clear_group now ((k, v) ∷ g) ip (new, d) =
    ground (arith, lookup-clear_group now g ip d, clear_group-none now g k new, text_eq_iff k ip)

-- every group is a map
abbrev pub DistinctGroups : Dict AvoidNodes → Type 0
DistinctGroups [] = Unit
DistinctGroups ((k, g) ∷ m) = Distinct g × DistinctGroups m

clear_avoid-none :
    (now : ℤ) (m : Dict AvoidNodes) (subnet : Text)
    → lookup subnet m ≡ none
    → lookup subnet (clear_avoid_expired now m) ≡ none
unfolding clear_avoid_expired lookup
clear_avoid-none now [] subnet h = refl
clear_avoid-none now ((k, g) ∷ m) subnet h = ground (arith, clear_avoid-none now m subnet)

-- Expiry drops exactly the nodes that have expired, in every group.
pub lookup-clear_avoid_expired :
    (now : ℤ) (m : Dict AvoidNodes) (subnet ip : Text)
    → Distinct m
    → DistinctGroups m
    → lookup ip (group subnet (clear_avoid_expired now m)) ≡ alive now (lookup ip (group subnet m))
unfolding clear_avoid_expired lookup
lookup-clear_avoid_expired now [] subnet ip d dg = refl
lookup-clear_avoid_expired now ((k, g) ∷ m) subnet ip (new, d) (dk, dg) =
    elim (Bool-cases (is_empty (clear_group now g))) [
      | inl e ↦ ground (
        arith,
        e,
        ap (λ (c : AvoidNodes). lookup ip c) (is_empty→nil (clear_group now g) e),
        text_eq_iff k subnet,
        clear_avoid-none now m k new,
        lookup-clear_group now g ip dk,
        lookup-clear_avoid_expired now m subnet ip d dg,
      )
      | inr e ↦ ground (
        arith,
        e,
        lookup-clear_group now g ip dk,
        lookup-clear_avoid_expired now m subnet ip d dg,
      )
    ]
