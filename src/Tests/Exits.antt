-- ===== src/Tests/Exits.antt =====
-- The cost of a session at an exit with two services.
use tuna.Common.Int.{ℤ, pos}
use tuna.Common.Dict.{Dict, lookup}
use tuna.Net.{split, trim}
use tuna.Tunnel.{Service, get_service}
use tuna.Payment.{parse_price}
use tuna.Payment.Cost.{Counters, entry_loop}
use tuna.Payment.Exit.{service_prices, exit_total_cost, exit_total_cost-entry_loop}
use tuna.Common.{◌-◌, ◌≡◌, refl, Option, none, some, List, [], ◌∷◌, arith, Text, codes, text_eq}

-- a number of one digit
price_of : Text → Option ℤ
price_of [] = none
price_of (d ∷ ds) = some (pos (d - b'0'))

abbrev services : List Service
services =
    record { name = codes "http"; tcp = 80 ∷ []; udp = [] }
    ∷ record { name = codes "dns"; tcp = []; udp = 53 ∷ [] }
    ∷ []

-- the first service has no price
abbrev price_texts : Dict Text
price_texts = (codes "dns", codes "3,5") ∷ []

abbrev counters : Counters
counters = (0, 0) ∷ (1048576, 2097152) ∷ []

dns_prices : service_prices price_of services price_texts 1 ≡ some (pos 3, pos 5)
unfolding service_prices get_service parse_price price_of lookup text_eq split trim
dns_prices = refl

exit_total_cost-entry_loop_example :
    exit_total_cost price_of services price_texts counters
    ≡ entry_loop (pos 3, pos 5) counters (pos 0, pos 0)
exit_total_cost-entry_loop_example =
    exit_total_cost-entry_loop price_of services price_texts (pos 3, pos 5) counters
      (λ busy. absurd (ground (arith, busy)), (λ _. dns_prices, tt))
