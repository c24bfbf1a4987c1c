-- ===== src/Filter.antt =====
-- The NKN address filter of a service (filter/nkn_filter.go). A nil pointer is `none`.
pub mod Spec
use tuna.Common.{
  ℕ, zero, suc, ◌+◌, ◌-◌, ◌*◌, ◌/◌, ◌%◌, ◌^◌, ◌≤◌, ◌<◌, ◌≡◌, refl, sym, ap, ◌∙◌, subst, ◌≢◌, ◌↔◌,
  ◌⊎◌, inl, inr, Bool, true, false, not, ◌&&◌, ◌||◌, Option, none, some, List, [], ◌∷◌, ◌++◌,
  append_assoc, append-nil, arith, ltb, leb, ◌==◌, if◌then◌else◌, ltb→lt, lt→ltb, leb→le, le→leb,
  ==_iff, tests, Bool-cases, Option-cases, length, get_elem?, take, drop, length-append,
  length-take-le, take-length-append, drop-length-append, get_elem?-some, get_elem?-none, All,
  All-append, All-take, Any, Text, codes, is_empty, text_eq, to_lower, text_eq_iff, text_eq_refl,
}

pub record NknClient : Type 0 where
  pub address : Text
  pub metadata : Text

-- `NknClient.Empty`
unfoldable pub client_empty : Option NknClient → Bool
unfolding text_eq
client_empty none = true
client_empty (some c) = text_eq c.address [] && text_eq c.metadata []

-- `NknClient.Match`
unfoldable pub match_client : NknClient → NknClient → Bool
match_client c nkn_client =
    if not (is_empty c.address)
    then (if text_eq nkn_client.address c.address then true else false)
    else false

pub record NknFilter : Type 0 where
  pub allow : List NknClient
  pub disallow : List NknClient

-- the loops of `NknFilter.Empty`
only_empty : List NknClient → Bool
only_empty [] = true
only_empty (c ∷ cs) =
    let rest = only_empty cs in if not (client_empty (some c)) then false else rest

-- `NknFilter.Empty`
unfoldable pub filter_empty : Option NknFilter → Bool
unfolding only_empty
filter_empty none = true
filter_empty (some f) = if not (only_empty f.allow) then false else only_empty f.disallow

-- the loop over `f.Disallow`: whether an entry matches
has_match : List NknClient → NknClient → Bool
has_match [] c = false
has_match (d ∷ ds) c = let rest = has_match ds c in if match_client d c then true else rest

-- the loop over `f.Allow`; `empty` is the loop's variable
allow_loop : List NknClient → NknClient → Bool → Bool
allow_loop [] c empty = empty
allow_loop (a ∷ as') c empty =
    let rest = allow_loop as' c (if not (client_empty (some a)) then false else empty) in
    if match_client a c then true else rest

-- `NknFilter.IsAllow`
unfoldable pub is_allow : Option NknFilter → Option NknClient → Bool
unfolding has_match allow_loop
is_allow none c = true
is_allow (some f) none = true
is_allow (some f) (some c) =
    if client_empty (some c)
    then true
    else if has_match f.disallow c
    then false
    else allow_loop f.allow c true
