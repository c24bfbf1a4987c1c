-- ===== src/Net.antt =====
-- What the program uses of the standard library's `net`, `strconv` and `strings`. Addresses are an
-- interface, since the code never looks inside one; `Net/Ipv4.antt` is its instance for dotted quads.
pub mod Ipv4
use tuna.Common.{
  ℕ, zero, suc, ◌+◌, ◌-◌, ◌*◌, ◌/◌, ◌%◌, ◌^◌, ◌≤◌, ◌<◌, ◌≡◌, refl, sym, ap, ◌∙◌, subst, ◌≢◌, ◌↔◌,
  ◌⊎◌, inl, inr, Bool, true, false, not, ◌&&◌, ◌||◌, Option, none, some, List, [], ◌∷◌, ◌++◌,
  append_assoc, append-nil, arith, ltb, leb, ◌==◌, if◌then◌else◌, ltb→lt, lt→ltb, leb→le, le→leb,
  ==_iff, tests, Bool-cases, Option-cases, length, get_elem?, take, drop, length-append,
  length-take-le, take-length-append, drop-length-append, get_elem?-some, get_elem?-none, All,
  All-append, All-take, Any, Text, codes, is_empty, text_eq, to_lower, text_eq_iff, text_eq_refl,
}

pub record Net : Type 1 where
  pub IP : Type 0
  pub IPNet : Type 0
  -- `net.ParseIP`; nil is `none`
  pub parse_ip : Text → Option IP
  -- the network that `net.ParseCIDR` returns; an error is `none`
  pub parse_cidr : Text → Option IPNet
  -- `IPNet.Contains`
  pub contains : IPNet → Option IP → Bool
  -- `IPNet.String`
  pub show_net : IPNet → Text

digits : ℕ → ℕ → Text → Text
digits zero n out = out
digits (suc fuel) n out =
    let rest = digits fuel (n / 10) ((48 + n % 10) ∷ out) in if n == 0 then out else rest

-- `strconv.Itoa` on a non-negative number
unfoldable pub itoa : ℕ → Text
unfolding digits
itoa n = if n == 0 then codes "0" else digits n n []

split_loop : ℕ → Text → Text → List Text
split_loop sep [] cur = cur ∷ []
split_loop sep (c ∷ s) cur = elim (c == sep) [
  | true ↦ cur ∷ split_loop sep s []
  | false ↦ split_loop sep s (cur ++ c ∷ [])
]

-- `strings.Split(s, sep)` for a separator of one byte
unfoldable pub split : ℕ → Text → List Text
unfolding split_loop
split sep s = split_loop sep s []

trim_left : ℕ → Text → Text
trim_left cut [] = []
trim_left cut (c ∷ s) = let rest = trim_left cut s in if c == cut then rest else c ∷ s

trim_right : ℕ → Text → Text
trim_right cut [] = []
trim_right cut (c ∷ s) =
    let rest = trim_right cut s in if is_empty rest && c == cut then [] else c ∷ rest

-- `strings.Trim(s, cut)` for a cutset of one byte
unfoldable pub trim : ℕ → Text → Text
unfolding trim_left trim_right
trim cut s = trim_right cut (trim_left cut s)

-- a text without a byte is one part
split_loop-one :
    (sep : ℕ) (s cur : Text) → All (λ c. c ≢ sep) s → split_loop sep s cur ≡ (cur ++ s) ∷ []
unfolding split_loop
split_loop-one sep [] cur h = rw append-nil
split_loop-one sep (c ∷ s) cur (hc, hs) =
    ground (arith, split_loop-one sep s (cur ++ c ∷ []) hs, append_assoc cur (c ∷ []) s)

pub split-one : (sep : ℕ) (s : Text) → All (λ c. c ≢ sep) s → split sep s ≡ s ∷ []
unfolding split
split-one sep s h = split_loop-one sep s [] h

split_loop-append :
    (sep : ℕ) (s t cur : Text)
    → All (λ c. c ≢ sep) s
    → split_loop sep (s ++ sep ∷ t) cur ≡ (cur ++ s) ∷ split_loop sep t []
unfolding split_loop
split_loop-append sep [] t cur h = ground (arith, append-nil cur)
split_loop-append sep (c ∷ s) t cur (hc, hs) =
    ground (arith, split_loop-append sep s t (cur ++ c ∷ []) hs, append_assoc cur (c ∷ []) s)

-- The first part ends at the first separator.
pub split-append :
    (sep : ℕ) (s t : Text) → All (λ c. c ≢ sep) s → split sep (s ++ sep ∷ t) ≡ s ∷ split sep t
unfolding split
split-append sep s t h = split_loop-append sep s t [] h
