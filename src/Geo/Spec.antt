-- ===== src/Geo/Spec.antt =====
-- What `AllowLocation` and `AllowIP` decide, said without loops.
use tuna.Net.{Net}
use tuna.Geo.{
  Location, location_empty, match_location, match_cidr, resolve_cidr, IpFilter, need_geo_info,
  allow_location, has_match, allow_loop, has_mask,
}
use tuna.Geo.Provider.{GeoProvider, locate, allow_ip, parse_ip2c}
use tuna.Common.{
  ◌≡◌, refl, ◌≢◌, ◌↔◌, ◌⊎◌, inl, inr, Bool, true, false, not, ◌&&◌, Option, none, some, List, [],
  ◌∷◌, ◌++◌, arith, if◌then◌else◌, Bool-cases, All, Any, Text, codes, is_empty, text_eq, to_lower,
  text_eq_iff, is_empty→nil,
}

module _ (net : Net) where
  -- The network that an entry stands for: the one it has parsed before, or its text, where a bare
  -- address is a network of one.
  abbrev pub network_of : Location net → Option net.IPNet
  network_of l = elim l.cidr [
    | some subnet ↦ some subnet
    | none ↦ net.parse_cidr (if has_mask l.ip then l.ip else l.ip ++ codes "/32")
  ]

  -- An entry with an IP matches the addresses of its network, and one without an IP the locations
  -- with its country code, in any case.
  abbrev pub Matches : Location net → Location net → Type 0
  Matches loc l =
      ((l.ip ≢ [])
        × ((n : net.IPNet) × (network_of l ≡ some n)
            × (net.contains n (net.parse_ip loc.ip) ≡ true)))
      ⊎ ((l.ip ≡ [])
          × (l.country_code ≢ [])
          × (to_lower loc.country_code ≡ to_lower l.country_code))

  abbrev pub IsBlank : Location net → Type 0
  IsBlank l =
      (l.ip ≡ []) × (l.country_code ≡ []) × (l.country ≡ []) × (l.city ≡ []) × (l.cidr ≡ none)

  abbrev in_network : Option net.IPNet → Location net → Bool
  in_network none loc = false
  in_network (some n) loc = net.contains n (net.parse_ip loc.ip)

  match_cidr-in_network :
      (r : Option net.IPNet × Location net) (loc : Location net)
      → (match_cidr net r loc).0 ≡ in_network r.0 loc
  unfolding match_cidr
  match_cidr-in_network (none, l) loc = refl
  match_cidr-in_network (some n, l) loc = refl

  resolve-network : (l : Location net) → (resolve_cidr net l).0 ≡ network_of l
  unfolding resolve_cidr
  resolve-network l = ground arith

  -- the answer of `Match`, without the receiver
  matches : Location net → Location net → Bool
  matches l loc =
      if not (is_empty l.ip)
      then in_network (network_of l) loc
      else not (is_empty l.country_code)
        && text_eq (to_lower loc.country_code) (to_lower l.country_code)

  match-matches : (l loc : Location net) → (match_location net l loc).0 ≡ matches l loc
  unfolding match_location matches
  match-matches l loc =
      ground (arith, match_cidr-in_network (resolve_cidr net l) loc, resolve-network l)

  in_network-some :
      (o : Option net.IPNet) (loc : Location net)
      → in_network o loc ≡ true
      → (n : net.IPNet) × (o ≡ some n) × (net.contains n (net.parse_ip loc.ip) ≡ true)
  in_network-some none loc h = cc
  in_network-some (some n) loc h = (n, refl, h)

  match→Matches : (l loc : Location net) → (match_location net l loc).0 ≡ true → Matches loc l
  unfolding matches
  match→Matches l loc h = elim (Bool-cases (is_empty l.ip)) [
    | inr e ↦
        let m : in_network (network_of l) loc ≡ true = ground (arith, match-matches l loc) in
        inl (ground arith, in_network-some (network_of l) loc m)
    | inl e ↦
        let m = match-matches l loc in
        inr (
          is_empty→nil l.ip e,
          ground (arith, m),
          (text_eq_iff (to_lower loc.country_code) (to_lower l.country_code)).0 (ground (arith, m)),
        )
  ]

  Matches→match : (l loc : Location net) → Matches loc l → (match_location net l loc).0 ≡ true
  unfolding matches
  Matches→match l loc (inl (ip, (n, found, inside))) = ground (arith, match-matches l loc)
  Matches→match l loc (inr (ip, code, same)) = ground (
    arith,
    match-matches l loc,
    text_eq_iff (to_lower loc.country_code) (to_lower l.country_code),
  )

  empty→IsBlank : (l : Location net) → location_empty net l ≡ true → IsBlank l
  unfolding location_empty
  empty→IsBlank l h = ground arith

  IsBlank→empty : (l : Location net) → IsBlank l → location_empty net l ≡ true
  unfolding location_empty
  IsBlank→empty l h = ground arith

  -- Matching an entry does not change whether it is blank.
  match-empty :
      (l loc : Location net)
      → location_empty net (match_location net l loc).1 ≡ location_empty net l
  unfolding match_location location_empty
  match-empty l loc = ground arith

  has_match→Any :
      (ls : List (Location net)) (loc : Location net)
      → has_match net ls loc ≡ true
      → Any (Matches loc) ls
  unfolding has_match
  has_match→Any [] loc h = cc
  has_match→Any (l ∷ ls) loc h = elim (Bool-cases (match_location net l loc).0) [
    | inl e ↦ inl (match→Matches l loc e)
    | inr e ↦ inr (has_match→Any ls loc (rw e at h))
  ]

  Any→has_match :
      (ls : List (Location net)) (loc : Location net)
      → Any (Matches loc) ls
      → has_match net ls loc ≡ true
  unfolding has_match
  Any→has_match [] loc h = absurd h
  Any→has_match (l ∷ ls) loc (inl m) = rw (Matches→match l loc m)
  Any→has_match (l ∷ ls) loc (inr m) = ground (arith, Any→has_match ls loc m)

  loop→Any :
      (ls : List (Location net)) (loc : Location net) (e : Bool)
      → allow_loop net ls loc e ≡ true
      → Any (Matches loc) ls ⊎ ((e ≡ true) × All IsBlank ls)
  unfolding allow_loop
  loop→Any [] loc e h = inr (h, tt)
  loop→Any (l ∷ ls) loc e h = elim (Bool-cases (match_location net l loc).0) [
    | inl m ↦ inl (inl (match→Matches l loc m))
    | inr m ↦ elim (Bool-cases (location_empty net l)) [
      | inl b ↦ elim (loop→Any ls loc e (ground (arith, h, m, b, match-empty l loc))) [
        | inl found ↦ inl (inr found)
        | inr (p, blank) ↦ inr (p, (empty→IsBlank l b, blank))
      ]
      | inr b ↦ elim (loop→Any ls loc false (ground (arith, h, m, b, match-empty l loc))) [
        | inl found ↦ inl (inr found)
        | inr (p, blank) ↦ cc
      ]
    ]
  ]

  Any→loop :
      (ls : List (Location net)) (loc : Location net) (e : Bool)
      → Any (Matches loc) ls
      → allow_loop net ls loc e ≡ true
  unfolding allow_loop
  Any→loop [] loc e h = absurd h
  Any→loop (l ∷ ls) loc e (inl m) = rw (Matches→match l loc m)
  Any→loop (l ∷ ls) loc e (inr m) = ground (arith, Any→loop ls loc e m, Any→loop ls loc false m)

  blank→loop :
      (ls : List (Location net)) (loc : Location net)
      → All IsBlank ls
      → allow_loop net ls loc true ≡ true
  unfolding allow_loop
  blank→loop [] loc h = refl
  blank→loop (l ∷ ls) loc (b, bs) =
      ground (arith, match-empty l loc, IsBlank→empty l b, blank→loop ls loc bs)

  abbrev pub Allowed : IpFilter net → Location net → Type 0
  Allowed f loc =
      (¬ Any (Matches loc) f.disallow) × (Any (Matches loc) f.allow ⊎ All IsBlank f.allow)

  allow→Allowed :
      (f : IpFilter net) (loc : Location net)
      → location_empty net loc ≡ false
      → allow_location net f loc ≡ true
      → Allowed f loc
  unfolding allow_location
  allow→Allowed f loc ne h = elim (Bool-cases (has_match net f.disallow loc)) [
    | inl d ↦ cc (rw (ne, d) at h)
    | inr d ↦ (
      λ a. cc (Any→has_match f.disallow loc a),
      elim (loop→Any f.allow loc true (rw (ne, d) at h)) [
        | inl found ↦ inl found
        | inr (_, blank) ↦ inr blank
      ],
    )
  ]

  Allowed→allow :
      (f : IpFilter net) (loc : Location net) → Allowed f loc → allow_location net f loc ≡ true
  unfolding allow_location
  Allowed→allow f loc (free, listed) = elim (Bool-cases (has_match net f.disallow loc)) [
    | inl d ↦ absurd (free (has_match→Any f.disallow loc d))
    | inr d ↦ elim listed [
      | inl found ↦ ground (arith, d, Any→loop f.allow loc true found)
      | inr blank ↦ ground (arith, d, blank→loop f.allow loc blank)
    ]
  ]

  -- A location that is not empty is allowed exactly when no entry of the disallow list matches it,
  -- and an entry of the allow list does or every entry of the allow list is blank.
  pub allow_location-Allowed :
      (f : IpFilter net) (loc : Location net)
      → location_empty net loc ≡ false
      → (allow_location net f loc ≡ true) ↔ Allowed f loc
  allow_location-Allowed f loc ne = (allow→Allowed f loc ne, Allowed→allow f loc)

  -- the providers before the first one that is ready are passed over
  abbrev pub NoneReady : List (GeoProvider (Location net)) → Type 0
  NoneReady = All (λ p. p.ready ≡ false)

  locate-skip :
      (ps qs : List (GeoProvider (Location net))) (ip : Text)
      → NoneReady ps
      → locate net (ps ++ qs) ip ≡ locate net qs ip
  unfolding locate
  locate-skip [] qs ip h = refl
  locate-skip (p ∷ ps) qs ip (r, h) = rw r (locate-skip ps qs ip h)

  locate-nil :
      (p : GeoProvider (Location net)) (qs : List (GeoProvider (Location net))) (ip : Text)
      → p.ready ≡ true
      → p.get_location ip ≡ parse_ip2c net ip []
      → locate net (p ∷ qs) ip ≡ none
  unfolding locate parse_ip2c
  locate-nil p qs ip ready nil = rw (ready, nil)

  -- When the first provider that is ready answers with no location and no error, as `parseIP2C` does
  -- for an empty body, a filter that needs a location ends in a panic.
  allow_ip_panics :
      (f : IpFilter net) (ps qs : List (GeoProvider (Location net)))
      (p : GeoProvider (Location net)) (ip : Text)
      → NoneReady ps
      → p.ready ≡ true
      → p.get_location ip ≡ parse_ip2c net ip []
      → need_geo_info net (some f) ≡ true
      → allow_ip net (some f) (ps ++ p ∷ qs) ip ≡ none
  unfolding allow_ip need_geo_info
  allow_ip_panics f ps qs p ip skip ready nil need =
      ground (arith, locate-skip ps (p ∷ qs) ip skip, locate-nil p qs ip ready nil)
