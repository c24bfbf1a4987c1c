-- ===== src/Payment/Exit.antt =====
-- The cost of a session at an exit: `getTotalCost` of `TunaExit.handleSession` (exit.go), in which each
-- service has its own price.
use mathlib.Core.Option
use tuna.Common.Int.{ℤ, pos, add64, signed64, eqb_ℤ}
use tuna.Common.Dict.{Dict, lookup}
use tuna.Tunnel.{Service, get_service}
use tuna.Payment.{traffic_cost, parse_price}
use tuna.Payment.Cost.{Counters, entry_item, entry_loop}
use tuna.Common.{
  ℕ, ◌+◌, ◌%◌, ◌≡◌, refl, ap, ◌∙◌, inl, inr, Bool, false, ◌&&◌, Option, none, some, List, [], ◌∷◌,
  if◌then◌else◌, Bool-cases, ◌>>=◌, Text,
}

-- The prices of the i-th service. A service that the configuration does not name has an empty price.
unfoldable pub service_prices : (Text → Option ℤ) → List Service → Dict Text → ℕ → Option (ℤ × ℤ)
service_prices to_fixed64 services price_texts i = do
  service ← get_service services (i % 256)
  parse_price to_fixed64 (Option.get_or (lookup service.name price_texts) [])

abbrev is_idle : ℕ → ℕ → Bool
is_idle e x = eqb_ℤ (signed64 e) (pos 0) && eqb_ℤ (signed64 x) (pos 0)

-- the body of the loop: an idle service is skipped, and one without prices too
unfoldable pub exit_item : Option (ℤ × ℤ) → ℕ → ℕ → ℤ × ℤ → ℤ × ℤ
exit_item prices e x (cost, total_bytes) =
    if is_idle e x then (cost, total_bytes) else elim prices [
      | none ↦ (cost, total_bytes)
      | some p ↦ (
        add64 cost (traffic_cost p (signed64 e) (signed64 x)),
        add64 total_bytes (add64 (signed64 e) (signed64 x)),
      )
    ]

-- the loop, from the i-th service on
unfoldable pub exit_loop : (ℕ → Option (ℤ × ℤ)) → ℕ → Counters → ℤ × ℤ → ℤ × ℤ
exit_loop prices i [] total = total
exit_loop prices i ((e, x) ∷ rest) total =
    exit_loop prices (i + 1) rest (exit_item (prices i) e x total)

-- the exit's `getTotalCost`
unfoldable pub exit_total_cost : (Text → Option ℤ) → List Service → Dict Text → Counters → ℤ × ℤ
exit_total_cost to_fixed64 services price_texts counters =
    exit_loop (service_prices to_fixed64 services price_texts) 0 counters (pos 0, pos 0)

-- From the i-th service on, each service with traffic has these prices.
abbrev pub IsPriced : (ℕ → Option (ℤ × ℤ)) → ℤ × ℤ → ℕ → Counters → Type 0
IsPriced prices p i [] = Unit
IsPriced prices p i ((e, x) ∷ rest) =
    (is_idle e x ≡ false → prices i ≡ some p) × IsPriced prices p (i + 1) rest

exit_item-entry :
    (prices : Option (ℤ × ℤ)) (p : ℤ × ℤ) (e x : ℕ) (total : ℤ × ℤ)
    → (is_idle e x ≡ false → prices ≡ some p)
    → exit_item prices e x total ≡ entry_item p e x total
unfolding exit_item entry_item
exit_item-entry prices p e x (cost, total_bytes) h = elim (Bool-cases (is_idle e x)) [
  | inl idle ↦ rw idle refl
  | inr busy ↦ rw (busy, h busy) refl
]

exit_loop-entry :
    (prices : ℕ → Option (ℤ × ℤ)) (p : ℤ × ℤ) (i : ℕ) (counters : Counters) (total : ℤ × ℤ)
    → IsPriced prices p i counters
    → exit_loop prices i counters total ≡ entry_loop p counters total
unfolding exit_loop entry_loop
exit_loop-entry prices p i [] total h = refl
exit_loop-entry prices p i ((e, x) ∷ rest) total (h, hs) =
    exit_loop-entry prices p (i + 1) rest (exit_item (prices i) e x total) hs
    ∙ ap (entry_loop p rest) (exit_item-entry (prices i) p e x total h)

-- Where every service with traffic can be found and has the prices of the entry, the exit asks for
-- what the entry's own loop over its counters asks for, and counts the same bytes, whatever overflows.
pub exit_total_cost-entry_loop :
    (to_fixed64 : Text → Option ℤ) (services : List Service) (price_texts : Dict Text) (p : ℤ × ℤ)
    (counters : Counters)
    → IsPriced (service_prices to_fixed64 services price_texts) p 0 counters
    → exit_total_cost to_fixed64 services price_texts counters
      ≡ entry_loop p counters (pos 0, pos 0)
unfolding exit_total_cost
exit_total_cost-entry_loop to_fixed64 services price_texts p counters h =
    exit_loop-entry (service_prices to_fixed64 services price_texts) p 0 counters (pos 0, pos 0) h
