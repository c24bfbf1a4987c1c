-- ===== src/Tests/Filters.antt =====
-- The NKN filter and the IP filter on concrete clients and locations.
use tuna.Filter.{match_client, NknClient, NknFilter, is_allow, client_empty, filter_empty}
use tuna.Filter.Spec.{Allowed, is_allow-Allowed}
use tuna.Net.Ipv4.{ipv4, parse_quad, parse_network, in_network}
use tuna.Geo as Geo
use tuna.Geo.{
  match_location, has_mask, Location, IpFilter, empty_location, location_empty, allow_location,
  need_geo_info,
}
use tuna.Geo.Provider.{GeoProvider, parse_ip2c}
use tuna.Geo.Spec as GeoSpec
use tuna.Geo.Spec.{allow_location-Allowed}
use tuna.Common.{◌≡◌, refl, ◌↔◌, true, false, some, [], ◌∷◌, codes, text_eq, to_lower}

abbrev alice : NknClient
alice = record { address = codes "alice"; metadata = [] }

abbrev bob : NknClient
bob = record { address = codes "bob"; metadata = [] }

abbrev only_alice : NknFilter
only_alice = record { allow = alice ∷ []; disallow = bob ∷ [] }

abbrev blank_filter : NknFilter
blank_filter = record { allow = record { address = []; metadata = [] } ∷ []; disallow = [] }

is_allow-alice : is_allow (some only_alice) (some alice) ≡ true
unfolding is_allow client_empty match_client text_eq
is_allow-alice = refl

is_allow-bob : is_allow (some only_alice) (some bob) ≡ false
unfolding is_allow client_empty match_client text_eq
is_allow-bob = refl

is_allow-Allowed_example :
    (is_allow (some only_alice) (some alice) ≡ true) ↔ Allowed only_alice alice
is_allow-Allowed_example = is_allow-Allowed only_alice alice cc

blank_filter-empty : filter_empty (some blank_filter) ≡ true
unfolding filter_empty client_empty text_eq
blank_filter-empty = refl

abbrev private_network : Location ipv4
private_network = record (empty_location ipv4) { ip = codes "10.1.0.0/16" }

abbrev in_germany : Location ipv4
in_germany = record (empty_location ipv4) { country_code = codes "DE" }

abbrev geo_filter : IpFilter ipv4
geo_filter = record { allow = in_germany ∷ []; disallow = private_network ∷ [] }

abbrev german_host : Location ipv4
german_host = record (empty_location ipv4) { ip = codes "10.2.0.1"; country_code = codes "de" }

german_host_allowed : allow_location ipv4 geo_filter german_host ≡ true
unfolding allow_location location_empty match_location has_mask parse_quad parse_network in_network
    text_eq to_lower
german_host_allowed = refl

german_host_not_empty : location_empty ipv4 german_host ≡ false
unfolding location_empty
german_host_not_empty = refl

allow_location-Allowed_example :
    (allow_location ipv4 geo_filter german_host ≡ true)
    ↔ GeoSpec.Allowed ipv4 geo_filter german_host
allow_location-Allowed_example =
    allow_location-Allowed ipv4 geo_filter german_host german_host_not_empty

abbrev silent_provider : GeoProvider (Location ipv4)
silent_provider = record { ready = true; get_location = λ ip. parse_ip2c ipv4 ip [] }

geo_filter_needs : need_geo_info ipv4 (some geo_filter) ≡ true
unfolding need_geo_info location_empty Geo.filter_empty
geo_filter_needs = refl
