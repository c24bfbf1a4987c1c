-- ===== src/Geo/Provider.antt =====
-- Location providers (geo/geo.go, geo/ip2c.go, geo/aws.go, geo/gcp.go).
use mathlib.Core.Option
use tuna.Net.{Net, split}
use tuna.Common.Dict.{Dict, lookup}
use tuna.Geo.{
  Location, empty_location, location_empty, IpFilter, filter_empty, need_geo_info, allow_location,
}
use tuna.Common.{
  ℕ, zero, suc, ◌+◌, Bool, true, false, not, ◌&&◌, Option, none, some, List, [], ◌∷◌, ◌==◌,
  if◌then◌else◌, ◌>>=◌, Text, codes, is_empty, text_eq,
}

-- the pointer and the error that `GetLocation` returns
pub record Answer (L : Type 0) : Type 0 where
  pub location : Option L
  pub failed : Bool

-- `parseIP2C`: an empty body gives a nil location and no error
unfoldable pub parse_ip2c : (net : Net) → Text → Text → Answer (Location net)
unfolding split text_eq
parse_ip2c net ip [] = record { location = none; failed = false }
parse_ip2c net ip (c ∷ body) =
    if not (c == b'1')
    then record { location = none; failed = true }
    else elim (split b';' (c ∷ body)) [
      | a ∷ code ∷ b ∷ d ∷ [] ↦ record {
        location =
            some (record { ip = ip; country_code = code; country = []; city = []; cidr = none });
        failed = false;
      }
      | _ ↦ record { location = none; failed = true }
    ]

-- the retries of `getLocationFromIP2C`: the first response, from attempt `i` on
first_response : ℕ → ℕ → (ℕ → Option (Option Text)) → Option (Option Text)
first_response zero i get = none
first_response (suc n) i get = elim (get i) [
  | none ↦ first_response n (i + 1) get
  | some r ↦ some r
]

abbrev geo_ip_retry : ℕ
geo_ip_retry = 3

-- an error of the parser becomes the empty location
soften : (net : Net) → Answer (Location net) → Answer (Location net)
soften net a =
    if a.failed then record { location = some (empty_location net); failed = true } else a

-- `IP2CProvider.GetLocation`. `get` answers each attempt: an error, or a response whose body can be
-- read or not.
unfoldable pub ip2c_get_location :
    (net : Net) → (ℕ → Option (Option Text)) → Text → Answer (Location net)
unfolding first_response soften parse_ip2c
ip2c_get_location net get ip = elim (first_response geo_ip_retry 0 get) [
  | none ↦ record { location = some (empty_location net); failed = true }
  | some none ↦ record { location = some (empty_location net); failed = true }
  | some (some body) ↦ soften net (parse_ip2c net ip body)
]

-- An entry of a cloud provider's list: its parsed prefix and its region or scope.
pub record CloudPrefix (N : Type 0) : Type 0 where
  pub region : Text
  pub subnet : Option N

-- the loops of `parseAWS` and `parseGCP`, with the table from regions to countries
cloud_loop :
    (net : Net) → Dict Text → Text → Option net.IP → List (CloudPrefix net.IPNet) → Location net
cloud_loop net mapping ip parsed [] = empty_location net
cloud_loop net mapping ip parsed (p ∷ ps) =
    let rest = cloud_loop net mapping ip parsed ps in
    elim p.subnet [
      | none ↦ rest
      | some subnet ↦
          if net.contains subnet parsed
          then elim (lookup p.region mapping) [
            | none ↦ rest
            | some code ↦ record (empty_location net) { country_code = code; ip = ip }
          ]
          else rest
    ]

-- `parseAWS`, `parseGCP`
unfoldable pub parse_cloud :
    (net : Net) → Dict Text → Text → List (CloudPrefix net.IPNet) → Location net
unfolding cloud_loop
parse_cloud net mapping ip prefixes = cloud_loop net mapping ip (net.parse_ip ip) prefixes

pub record GeoProvider (L : Type 0) : Type 0 where
  pub ready : Bool
  pub get_location : Text → Answer L

-- The providers that are asked before one answers with more than the empty location. `none` is a
-- panic: `getLocationFromProvider` dereferences the pointer, and it may be nil.
unfoldable pub locate :
    (net : Net) → List (GeoProvider (Location net)) → Text → Option (Location net)
locate net [] ip = some (record (empty_location net) { country_code = codes "UNKNOWN"; ip = ip })
locate net (p ∷ ps) ip =
    let rest = locate net ps ip in
    if p.ready
    then (do loc ← (p.get_location ip).location; if location_empty net loc then rest else some loc)
    else rest

-- `IPFilter.AllowIP`; a nil filter and an empty one allow everything
unfoldable pub allow_ip :
    (net : Net) → Option (IpFilter net) → List (GeoProvider (Location net)) → Text → Option Bool
unfolding locate
allow_ip net none providers ip = some true
allow_ip net (some f) providers ip =
    if filter_empty net (some f)
    then some true
    else if need_geo_info net (some f)
    then (do loc ← locate net providers ip; some (allow_location net f loc))
    else some (allow_location net f (record (empty_location net) { ip = ip }))

-- A cloud provider's state: its list, once it is loaded, and `ready`.
pub record CloudProvider (N : Type 0) : Type 0 where
  pub info : Option (List (CloudPrefix N))
  pub ready : Bool

-- What `MaybeUpdateContext` meets: the answers of the two calls of `NeedUpdate`, whether the steps
-- before reading succeed, what `ReadJSON` leaves in `p.Info` and whether it succeeds.
pub record UpdateRun (N : Type 0) : Type 0 where
  pub need_first : Bool
  pub need_second : Bool
  pub temp_file : Bool
  pub download : Bool
  pub copy : Bool
  pub read_info : Option (List (Text × CloudPrefix N))
  pub read_json : Bool

pub data Updated (N : Type 0) : Type 0 where
  updated failed_update : CloudProvider N → Updated N
  -- the list is nil after a read that succeeded
  update_panics : Updated N

-- the loop that parses the prefixes; an empty one is skipped, and one that cannot be parsed too
parse_prefixes : (net : Net) → List (Text × CloudPrefix net.IPNet) → List (CloudPrefix net.IPNet)
parse_prefixes net [] = []
parse_prefixes net ((prefix, p) ∷ ps) =
    (if is_empty prefix then p else elim (net.parse_cidr prefix) [
      | none ↦ p
      | some subnet ↦ record p { subnet = some subnet }
    ])
    ∷ parse_prefixes net ps

drop_texts : {A : Type 0} → List (Text × A) → List A
drop_texts [] = []
drop_texts ((t, a) ∷ rest) = a ∷ drop_texts rest

read_update : (net : Net) → UpdateRun net.IPNet → CloudProvider net.IPNet → Updated net.IPNet
unfolding parse_prefixes drop_texts
read_update net r p =
    if not r.read_json
    then failed_update (record p { info = Option.map drop_texts r.read_info })
    else elim r.read_info [
      | none ↦ update_panics
      | some prefixes ↦ updated (record { info = some (parse_prefixes net prefixes); ready = true })
    ]

is_loaded : {A : Type 0} → Option A → Bool
is_loaded none = false
is_loaded (some a) = true

-- `AWSProvider.MaybeUpdateContext`, `GCPProvider.MaybeUpdateContext`
unfoldable pub maybe_update :
    (net : Net) → UpdateRun net.IPNet → CloudProvider net.IPNet → Updated net.IPNet
unfolding is_loaded read_update
maybe_update net r p =
    if not r.need_first && is_loaded p.info
    then updated p
    else if r.need_second && not (r.temp_file && r.download && r.copy)
    then failed_update p
    else read_update net r p
