-- ===== src/Storage/Avoid.antt =====
-- Avoided nodes grouped by subnet: `AddAvoidNode`, `GetAvoidCIDR`, `ClearAvoidExpired`
-- (storage/measure.go). The text "key/mask" is parsed by `net.ParseCIDR`.
pub mod Laws
use mathlib.Core.Option
use tuna.Common.Dict
use tuna.Common.Dict.{Dict, lookup, insert, remove}
use tuna.Common.Int.{ℤ, pos, negsuc, add64, ltb_ℤ, eqb_ℤ}
use tuna.Net.{Net, itoa}
use tuna.Storage.{AvoidNode, avoid_expired, mask_size, avoid_cidr_min_ip}
use tuna.Common.{
  ℕ, zero, suc, ◌+◌, ◌-◌, ◌*◌, ◌/◌, ◌%◌, ◌^◌, ◌≤◌, ◌<◌, ◌≡◌, refl, sym, ap, ◌∙◌, subst, ◌≢◌, ◌↔◌,
  ◌⊎◌, inl, inr, Bool, true, false, not, ◌&&◌, ◌||◌, Option, none, some, List, [], ◌∷◌, ◌++◌,
  append_assoc, append-nil, arith, ltb, leb, ◌==◌, if◌then◌else◌, ltb→lt, lt→ltb, leb→le, le→leb,
  ==_iff, tests, Bool-cases, Option-cases, length, get_elem?, take, drop, length-append,
  length-take-le, take-length-append, drop-length-append, get_elem?-some, get_elem?-none, All,
  All-append, All-take, Any, Text, codes, is_empty, text_eq, to_lower, text_eq_iff, text_eq_refl,
}

abbrev pub AvoidNodes : Type 0
AvoidNodes = Dict AvoidNode

-- `fmt.Sprintf("%d", n)`
unfoldable pub show_int : ℤ → Text
unfolding itoa
show_int (pos n) = itoa n
show_int (negsuc n) = b'-' ∷ itoa (suc n)

-- the two defaults of `AddAvoidNode`
unfoldable pub stamp_avoid : ℤ → AvoidNode → AvoidNode
stamp_avoid now val = record val {
  expires_at = if eqb_ℤ val.expires_at (pos 0) then add64 now avoid_expired else val.expires_at;
  mask_size = if eqb_ℤ val.mask_size (pos 0) then pos mask_size else val.mask_size;
}

-- the end of `AddAvoidNode`: a new group is keyed by the address of its node
store_avoid : Text → Text → AvoidNode → Dict AvoidNodes → Dict AvoidNodes
store_avoid subnet key val m = elim (lookup subnet m) [
  | some group ↦ insert subnet (insert key val group) m
  | none ↦ insert subnet ((val.ip, val) ∷ []) m
]

module _ (net : Net) where
  open net use {IPNet, parse_cidr, show_net}

  -- `subnet.String()` for the subnet of an address; an error is `none`
  unfoldable pub subnet_key : Text → ℤ → Option Text
  unfolding show_int
  subnet_key key mask = Option.map show_net (parse_cidr (key ++ b'/' ∷ show_int mask))

  -- `MeasureStorage.AddAvoidNode`
  unfoldable pub add_avoid_node : ℤ → Text → AvoidNode → Dict AvoidNodes → Dict AvoidNodes
  unfolding store_avoid subnet_key stamp_avoid
  add_avoid_node now key val m =
      let val' = stamp_avoid now val in
      elim (subnet_key key val'.mask_size) [
        | none ↦ m
        | some subnet ↦ store_avoid subnet key val' m
      ]

  -- `MeasureStorage.GetAvoidCIDR`
  unfoldable pub get_avoid_cidr : Dict AvoidNodes → List IPNet
  get_avoid_cidr [] = []
  get_avoid_cidr ((k, v) ∷ m) =
      let rest = get_avoid_cidr m in
      if ltb avoid_cidr_min_ip (length v)
      then elim (parse_cidr k) [ none ↦ rest | some subnet ↦ subnet ∷ rest ]
      else rest

-- the inner loop of `ClearAvoidExpired`: entries may be deleted while a map is ranged over
clear_group : ℤ → AvoidNodes → AvoidNodes
clear_group now [] = []
clear_group now ((k, v) ∷ group) =
    let rest = clear_group now group in if ltb_ℤ v.expires_at now then rest else (k, v) ∷ rest

-- `MeasureStorage.ClearAvoidExpired`, less the save at its end
unfoldable pub clear_avoid_expired : ℤ → Dict AvoidNodes → Dict AvoidNodes
unfolding clear_group
clear_avoid_expired now [] = []
clear_avoid_expired now ((k, group) ∷ m) =
    let rest = clear_avoid_expired now m in
    if is_empty (clear_group now group) then rest else (k, clear_group now group) ∷ rest
