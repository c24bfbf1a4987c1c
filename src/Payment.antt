-- ===== src/Payment.antt =====
-- Prices and the cost of traffic (util.go, tuna.go, entry.go, exit.go). `common.StringToFixed64` of
-- the nkn package is the parameter `to_fixed64`; an error is `none`.
pub mod Price
pub mod Cost
pub mod Exit
pub mod Client
pub mod Server
use tuna.Common.Int.{ℤ, pos, negsuc, add64, mul64, quot64, signed64}
use tuna.Net.{split, trim}
use tuna.Common.{
  ℕ, zero, suc, ◌+◌, ◌-◌, ◌*◌, ◌/◌, ◌%◌, ◌^◌, ◌≤◌, ◌<◌, ◌≡◌, refl, sym, ap, ◌∙◌, subst, ◌≢◌, ◌↔◌,
  ◌⊎◌, inl, inr, Bool, true, false, not, ◌&&◌, ◌||◌, Option, none, some, List, [], ◌∷◌, ◌++◌,
  append_assoc, append-nil, arith, ltb, leb, ◌==◌, if◌then◌else◌, ltb→lt, lt→ltb, leb→le, le→leb,
  ==_iff, tests, Bool-cases, Option-cases, length, get_elem?, take, drop, length-append,
  length-take-le, take-length-append, drop-length-append, get_elem?-some, get_elem?-none, All,
  All-append, All-take, Any, Text, codes, is_empty, text_eq, to_lower, text_eq_iff, text_eq_refl,
  is_empty→nil,
}

abbrev pub traffic_unit : ℕ
traffic_unit = 1024 * 1024

-- in units of traffic
abbrev pub traffic_payment_threshold : ℕ
traffic_payment_threshold = 32

abbrev pub max_traffic_unpaid : ℕ
max_traffic_unpaid = 1

-- `defaultNanoPayUpdateInterval`, in milliseconds, the unit of time of these modules
abbrev pub nano_pay_update_interval : ℕ
nano_pay_update_interval = 60 * 1000

-- both prices of `ParsePrice` from the parts of the text
price_parts : (Text → Option ℤ) → List Text → Option (ℤ × ℤ)
price_parts to_fixed64 [] = none
price_parts to_fixed64 (a ∷ []) = elim (to_fixed64 (trim b' ' a)) [
  | none ↦ none
  | some p ↦ some (p, p)
]
price_parts to_fixed64 (a ∷ b ∷ rest) = elim (to_fixed64 (trim b' ' a)) [
  | none ↦ none
  | some p ↦ elim (to_fixed64 (trim b' ' b)) [ none ↦ none | some q ↦ some (p, q) ]
]

-- `ParsePrice`: the entry-to-exit price and the exit-to-entry price
unfoldable pub parse_price : (Text → Option ℤ) → Text → Option (ℤ × ℤ)
unfolding price_parts
parse_price to_fixed64 s = price_parts to_fixed64 (split b',' s)

-- `entryToExitPrice*entryToExit/TrafficUnit + exitToEntryPrice*exitToEntry/TrafficUnit`
unfoldable pub traffic_cost : ℤ × ℤ → ℤ → ℤ → ℤ
traffic_cost (entry_to_exit_price, exit_to_entry_price) entry_to_exit exit_to_entry =
    add64 (quot64 (mul64 entry_to_exit_price entry_to_exit) (pos traffic_unit))
      (quot64 (mul64 exit_to_entry_price exit_to_entry) (pos traffic_unit))

-- the exact cost, over the naturals
abbrev pub exact_cost : ℕ → ℕ → ℕ → ℕ → ℕ
exact_cost p q e x = p * e / traffic_unit + q * x / traffic_unit
