-- ===== src/Geo.antt =====
-- Locations and the IP filter (geo/geo.go). Networks are those of an interface `Net`; a nil pointer
-- is `none`. `Match` writes into its receiver, and is called on the loops' copies of the entries.
pub mod Maxmind
pub mod Provider
pub mod Spec
use tuna.Net.{Net}
use tuna.Common.{
  ℕ, zero, suc, ◌+◌, ◌-◌, ◌*◌, ◌/◌, ◌%◌, ◌^◌, ◌≤◌, ◌<◌, ◌≡◌, refl, sym, ap, ◌∙◌, subst, ◌≢◌, ◌↔◌,
  ◌⊎◌, inl, inr, Bool, true, false, not, ◌&&◌, ◌||◌, Option, none, some, List, [], ◌∷◌, ◌++◌,
  append_assoc, append-nil, arith, ltb, leb, ◌==◌, if◌then◌else◌, ltb→lt, lt→ltb, leb→le, le→leb,
  ==_iff, tests, Bool-cases, Option-cases, if_ind, option_ind, ◌>>=◌, >>=-eq-some, length,
  get_elem?, take, drop, length-append, length-take-le, take-length-append, drop-length-append,
  get_elem?-some, get_elem?-none, All, All-append, All-take, Any, Text, codes, is_empty, text_eq,
  to_lower, text_eq_iff, text_eq_refl, is_empty→nil,
}

-- the regular expression `/\d{1,2}`: a slash with a digit behind it, somewhere
unfoldable pub has_mask : Text → Bool
has_mask [] = false
has_mask (c ∷ []) = false
has_mask (c ∷ d ∷ s) = (c == b'/' && leb b'0' d && leb d b'9') || has_mask (d ∷ s)

module _ (net : Net) where
  open net use {IPNet, parse_ip, parse_cidr, contains}

  pub record Location : Type 0 where
    pub ip : Text
    pub country_code : Text
    pub country : Text
    pub city : Text
    pub cidr : Option IPNet

  abbrev pub empty_location : Location
  empty_location = record { ip = []; country_code = []; country = []; city = []; cidr = none }

  is_nil : Option IPNet → Bool
  is_nil none = true
  is_nil (some n) = false

  -- `Location.Empty` of a location that is not nil
  unfoldable pub location_empty : Location → Bool
  unfolding is_nil
  location_empty l =
      is_empty l.ip
      && is_empty l.country_code
      && is_empty l.country
      && is_empty l.city
      && is_nil l.cidr

  -- the network of an entry with an IP, and the entry as `Match` leaves it
  resolve_cidr : Location → Option IPNet × Location
  resolve_cidr l = elim l.cidr [
    | some subnet ↦ (some subnet, l)
    | none ↦
        let ip' = if has_mask l.ip then l.ip else l.ip ++ codes "/32" in
        elim (parse_cidr ip') [
          | none ↦ (none, record l { ip = ip' })
          | some subnet ↦ (some subnet, record l { ip = ip'; cidr = some subnet })
        ]
  ]

  match_cidr : Option IPNet × Location → Location → Bool × Location
  match_cidr (none, l) location = (false, l)
  match_cidr (some subnet, l) location = (contains subnet (parse_ip location.ip), l)

  -- `Location.Match`: the answer, and the receiver afterwards
  unfoldable pub match_location : Location → Location → Bool × Location
  unfolding resolve_cidr match_cidr
  match_location l location =
      if not (is_empty l.ip) then match_cidr (resolve_cidr l) location else (
        not (is_empty l.country_code)
            && text_eq (to_lower location.country_code) (to_lower l.country_code),
        l,
      )

  pub record IpFilter : Type 0 where
    pub allow : List Location
    pub disallow : List Location

  only_empty : List Location → Bool
  only_empty [] = true
  only_empty (l ∷ ls) = let rest = only_empty ls in if not (location_empty l) then false else rest

  -- `IPFilter.Empty`
  unfoldable pub filter_empty : Option IpFilter → Bool
  unfolding only_empty
  filter_empty none = true
  filter_empty (some f) = if not (only_empty f.allow) then false else only_empty f.disallow

  any_named : List Location → Bool
  any_named [] = false
  any_named (l ∷ ls) =
      (not (is_empty l.country_code) || not (is_empty l.country) || not (is_empty l.city))
      || any_named ls

  -- `IPFilter.NeedGeoInfo`
  unfoldable pub need_geo_info : Option IpFilter → Bool
  unfolding any_named
  need_geo_info none = false
  need_geo_info (some f) =
      if filter_empty (some f)
      then false
      else if any_named f.allow
      then true
      else any_named f.disallow

  has_match : List Location → Location → Bool
  has_match [] loc = false
  has_match (l ∷ ls) loc =
      let rest = has_match ls loc in if (match_location l loc).0 then true else rest

  allow_loop : List Location → Location → Bool → Bool
  allow_loop [] loc empty = empty
  allow_loop (l ∷ ls) loc empty =
      let (matched, l') = match_location l loc in
      let rest = allow_loop ls loc (if not (location_empty l') then false else empty) in
      if matched then true else rest

  -- `IPFilter.AllowLocation`
  unfoldable pub allow_location : IpFilter → Location → Bool
  unfolding has_match allow_loop
  allow_location f loc =
      if location_empty loc
      then true
      else if has_match f.disallow loc
      then false
      else allow_loop f.allow loc true
