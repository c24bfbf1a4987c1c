-- ===== src/Payment/Price.antt =====
-- What `ParsePrice` reads from one price and from two.
use tuna.Common.Int.{ℤ}
use tuna.Net.{trim, split-one, split-append}
use tuna.Payment.{parse_price}
use tuna.Common.{◌≡◌, ◌≢◌, Option, none, some, ◌∷◌, ◌++◌, arith, All, Text}

abbrev pub NoComma : Text → Type 0
NoComma = All (λ c. c ≢ b',')

abbrev pub both : Option ℤ → Option ℤ → Option (ℤ × ℤ)
both (some p) (some q) = some (p, q)
both _ _ = none

-- One price stands for both directions; of two, separated by a comma, the first is for
-- entry-to-exit and the second for exit-to-entry, blanks around them dropped; and one that cannot
-- be read makes the whole text an error.
parse_price_forms :
    (to_fixed64 : Text → Option ℤ) (a b : Text)
    → NoComma a
    → NoComma b
    → (parse_price to_fixed64 a ≡ both (to_fixed64 (trim b' ' a)) (to_fixed64 (trim b' ' a)))
      × (parse_price to_fixed64 (a ++ b',' ∷ b)
          ≡ both (to_fixed64 (trim b' ' a)) (to_fixed64 (trim b' ' b)))
unfolding parse_price
parse_price_forms to_fixed64 a b ha hb = (
  rw (split-one b',' a ha) (ground arith),
  rw (split-append b',' a b ha, split-one b',' b hb) (ground arith),
)
