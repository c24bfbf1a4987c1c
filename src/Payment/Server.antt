-- ===== src/Payment/Server.antt =====
-- The paid side: `checkPayment`, `checkNanoPayClaim`, `handlePaymentStream` and `nanoPayClaim`
-- (tuna.go). Their goroutines share the variables of one session, so the model is a step function
-- over one `Session`, and an interleaving of the goroutines is a list of events. The NanoPay claimer
-- and the arithmetic on `float64` are parameters.
pub mod Claim
pub mod Cutoff
use tuna.Common.Int.{ℤ, pos, negsuc, sub64, mul64, quot64, ltb_ℤ, leb_ℤ, eqb_ℤ, ◌≤ℤ◌}
use tuna.Payment.{traffic_unit, traffic_payment_threshold, nano_pay_update_interval}
use tuna.Payment.Client.{retry}
use tuna.Common.{
  ℕ, zero, suc, ◌+◌, ◌-◌, ◌*◌, ◌/◌, ◌%◌, ◌^◌, ◌≤◌, ◌<◌, ◌≡◌, refl, sym, ap, ◌∙◌, subst, ◌≢◌, ◌↔◌,
  ◌⊎◌, inl, inr, Bool, true, false, not, ◌&&◌, ◌||◌, Option, none, some, List, [], ◌∷◌, ◌++◌,
  append_assoc, append-nil, arith, ltb, leb, ◌==◌, if◌then◌else◌, ltb→lt, lt→ltb, leb→le, le→leb,
  ==_iff, tests, Bool-cases, Option-cases, if_ind, option_ind, length, get_elem?, take, drop,
  length-append, length-take-le, take-length-append, drop-length-append, get_elem?-some,
  get_elem?-none, All, All-append, All-take, Any, Text, codes, is_empty, text_eq, to_lower,
  text_eq_iff, text_eq_refl, is_empty→nil,
}

-- Where `checkPayment` is: in its inner loop, in the sleep of `maxNanoPayDelay` with the totals that
-- ended that loop, or returned.
pub data Checker : Type 0 where
  waiting : Checker
  sleeping : ℤ → ℤ → Checker
  returned : Checker

pub record Session : Type 0 where
  pub checker : Checker
  pub last_payment_time : ℕ
  pub last_payment_amount : ℤ
  pub bytes_paid : ℤ
  pub is_closed : Bool

pub record FloatPart : Type 0 where
  -- `common.Fixed64(minTrafficCoverage*float64(totalCost))`
  pub coverage : ℤ → ℤ
  -- `common.Fixed64(maxTrafficUnpaid*TrafficUnit*float64(totalCost)/float64(totalBytes))`
  pub allowance : ℤ → ℤ → ℤ
  -- Nine tenths of a cost that is not negative are not more than it.
  pub coverage-le : (c : ℤ) → pos 0 ≤ℤ c → coverage c ≤ℤ c

-- the tests that end the inner loop of `checkPayment`
payment_due : ℕ → ℤ → ℤ → Session → Bool
payment_due now total_cost total_bytes s =
    not (leb_ℤ total_cost s.last_payment_amount)
    && (ltb nano_pay_update_interval (now - s.last_payment_time)
        || ltb_ℤ (pos (traffic_payment_threshold * traffic_unit)) (sub64 total_bytes s.bytes_paid))

-- one turn of the inner loop, with the delayed totals
check_wait : ℕ → ℤ → ℤ → Session → Session
unfolding payment_due
check_wait now total_cost total_bytes s =
    if s.is_closed
    then record s { checker = returned }
    else if payment_due now total_cost total_bytes s
    then record s { checker = sleeping total_cost total_bytes }
    else s

-- the test after the sleep
underpaid : FloatPart → ℤ → ℤ → Session → Bool
underpaid ops total_cost total_bytes s =
    ltb_ℤ s.last_payment_amount (ops.coverage total_cost)
    && ltb_ℤ (ops.allowance total_cost total_bytes) (sub64 total_cost s.last_payment_amount)

check_verdict : FloatPart → Checker → Session → Session
unfolding underpaid
check_verdict ops (sleeping total_cost total_bytes) s =
    if underpaid ops total_cost total_bytes s
    then record s { checker = returned; is_closed = true }
    else record s { checker = waiting }
check_verdict ops waiting s = s
check_verdict ops returned s = s

-- `nanoPayClaim`: the amount claimed, or an error. `unmarshal` tells whether the bytes are a
-- transaction with a body.
unfoldable pub nano_pay_claim : (Text → Bool) → (Text → Option ℤ) → Text → Option ℤ
nano_pay_claim unmarshal claim tx_bytes =
    if is_empty tx_bytes then none else if unmarshal tx_bytes then claim tx_bytes else none

-- What a turn of `handlePaymentStream` meets.
pub record Payment : Type 0 where
  pub tx : Text
  pub unmarshal : Text → Bool
  -- the claimer's answer at each attempt
  pub claim : ℕ → Text → Option ℤ
  pub npc_amount : ℤ
  pub total_cost : ℤ
  pub total_bytes : ℤ
  pub now : ℕ

-- One turn of `handlePaymentStream` on a payment that was read. A read error, and a failed claim
-- once the claimer is closed, end the stream and leave the session as it is.
unfoldable pub handle_payment : Payment → Session → Session
unfolding retry nano_pay_claim
handle_payment m s =
    if eqb_ℤ m.total_cost (pos 0)
    then s
    else elim (retry 3 0 (λ i. nano_pay_claim m.unmarshal (m.claim i) m.tx)) [
      | none ↦ s
      | some amount ↦ record s {
        last_payment_amount = amount;
        last_payment_time = m.now;
        bytes_paid = mul64 m.total_bytes (quot64 m.npc_amount m.total_cost);
      }
    ]

pub data Event : Type 0 where
  -- `checkPayment` wakes in its inner loop at a time, with the delayed cost and bytes
  wake : ℕ → ℤ → ℤ → Event
  -- its sleep before the verdict is over
  verdict : Event
  -- a payment arrives
  payment : Payment → Event
  -- `checkNanoPayClaim` gets an error, and the claimer is closed or not
  claim_error : Bool → Event
  -- `handleSession` or `StartReverse` leaves its loop
  hang_up : Event

-- The checker's steps happen only where the checker is.
wake_step : ℕ → ℤ → ℤ → Checker → Session → Session
unfolding check_wait
wake_step now total_cost total_bytes waiting s = check_wait now total_cost total_bytes s
wake_step now total_cost total_bytes _ s = s

unfoldable pub step : FloatPart → Event → Session → Session
unfolding wake_step check_verdict handle_payment
step ops (wake now total_cost total_bytes) s = wake_step now total_cost total_bytes s.checker s
step ops verdict s = check_verdict ops s.checker s
step ops (payment m) s = handle_payment m s
step ops (claim_error npc_closed) s = if npc_closed then record s { is_closed = true } else s
step ops hang_up s = record s { is_closed = true }

unfoldable pub run : FloatPart → List Event → Session → Session
unfolding step
run ops [] s = s
run ops (e ∷ es) s = run ops es (step ops e s)
