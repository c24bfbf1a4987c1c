-- ===== src/Net/Ipv4.antt =====
-- `net.Net` for dotted quads: `ParseIP`, `ParseCIDR`, `Contains` and `String` on IPv4 texts.
use mathlib.Core.Option
use tuna.Net.{Net, split, itoa}
use tuna.Common.{
  ℕ, ◌+◌, ◌-◌, ◌*◌, ◌/◌, ◌%◌, ◌^◌, ◌≡◌, refl, Bool, false, ◌&&◌, Option, none, some, List, [], ◌∷◌,
  ◌++◌, leb, ◌==◌, if◌then◌else◌, Text, codes,
}

-- a decimal number without a leading zero, at most `limit`
decimal : ℕ → ℕ → Text → Option ℕ
decimal limit n [] = some n
decimal limit n (c ∷ s) =
    let rest = decimal limit (n * 10 + (c - 48)) s in
    if leb 48 c && leb c 57 && leb (n * 10 + (c - 48)) limit then rest else none

number : ℕ → Text → Option ℕ
unfolding decimal
number limit [] = none
number limit (c ∷ []) = decimal limit 0 (c ∷ [])
number limit (c ∷ d ∷ s) = if c == 48 then none else decimal limit 0 (c ∷ d ∷ s)

quad : List (Option ℕ) → Option ℕ
quad (some a ∷ some b ∷ some c ∷ some d ∷ []) = some (((a * 256 + b) * 256 + c) * 256 + d)
quad _ = none

octets : List Text → List (Option ℕ)
unfolding number
octets [] = []
octets (t ∷ ts) = number 255 t ∷ octets ts

unfoldable pub parse_quad : Text → Option ℕ
unfolding octets quad split
parse_quad s = quad (octets (split b'.' s))

network : Option ℕ → Option ℕ → Option (ℕ × ℕ)
network (some a) (some n) = some (a / 2 ^ (32 - n) * 2 ^ (32 - n), n)
network _ _ = none

cidr_parts : List Text → Option (ℕ × ℕ)
unfolding network parse_quad number
cidr_parts (a ∷ n ∷ []) = network (parse_quad a) (number 32 n)
cidr_parts _ = none

unfoldable pub parse_network : Text → Option (ℕ × ℕ)
unfolding cidr_parts split
parse_network s = cidr_parts (split b'/' s)

unfoldable pub in_network : ℕ × ℕ → Option ℕ → Bool
in_network n none = false
in_network (base, n) (some a) = a / 2 ^ (32 - n) == base / 2 ^ (32 - n)

unfoldable pub show_network : ℕ × ℕ → Text
unfolding itoa
show_network (base, n) =
    itoa (base / 2 ^ 24)
    ++ b'.' ∷ itoa (base / 2 ^ 16 % 256)
    ++ b'.' ∷ itoa (base / 2 ^ 8 % 256)
    ++ b'.' ∷ itoa (base % 256)
    ++ b'/' ∷ itoa n

abbrev pub ipv4 : Net
ipv4 = record {
  IP = ℕ;
  IPNet = ℕ × ℕ;
  parse_ip = parse_quad;
  parse_cidr = parse_network;
  contains = in_network;
  show_net = show_network;
}

parse_quad-example : parse_quad (codes "10.1.2.3") ≡ some 167838211
unfolding parse_quad
parse_quad-example = refl

parse_network-example :
    Option.map show_network (parse_network (codes "10.1.2.3/16")) ≡ some (codes "10.1.0.0/16")
unfolding parse_network show_network
parse_network-example = refl
