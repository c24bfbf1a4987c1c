-- ===== src/Payment/Client.antt =====
-- The paying side: `startPayment` and `sendNanoPay` (tuna.go). One turn of the outer loop is `round`,
-- and what the environment does meanwhile is a `Turn`. The NanoPay client and the fee arithmetic on
-- `float64` are parameters.
pub mod Covered
pub mod Fee
use tuna.Common.Int.{ℤ, pos, negsuc, signed64, u64_mod, ltb_ℤ, leb_ℤ, eqb_ℤ}
use tuna.Payment.{traffic_cost, traffic_unit, traffic_payment_threshold, nano_pay_update_interval}
use tuna.Common.{
  ℕ, zero, suc, ◌+◌, ◌-◌, ◌*◌, ◌/◌, ◌%◌, ◌^◌, ◌≤◌, ◌<◌, ◌≡◌, refl, sym, ap, ◌∙◌, subst, ◌≢◌, ◌↔◌,
  ◌⊎◌, inl, inr, Bool, true, false, not, ◌&&◌, ◌||◌, Option, none, some, List, [], ◌∷◌, ◌++◌,
  append_assoc, append-nil, arith, ltb, leb, ◌==◌, if◌then◌else◌, ltb→lt, lt→ltb, leb→le, le→leb,
  ==_iff, tests, Bool-cases, Option-cases, length, get_elem?, take, drop, length-append,
  length-take-le, take-length-append, drop-length-append, get_elem?-some, get_elem?-none, All,
  All-append, All-take, Any, Text, codes, is_empty, text_eq, to_lower, text_eq_iff, text_eq_refl,
  is_empty→nil,
}

-- The variables of the loop; `recipient` is that of `np`, and `payments` the amounts sent so far.
pub record PayState : Type 0 where
  pub entry_to_exit_paid : ℕ
  pub exit_to_entry_paid : ℕ
  pub last_cost : ℤ
  pub last_payment_time : ℕ
  pub recipient : Option Text
  pub nano_pay_fee : Text
  pub payments : List ℤ

pub record Turn : Type 0 where
  -- the counters when the wait tests them, and when the cost is computed
  pub entry_to_exit_seen : ℕ
  pub exit_to_entry_seen : ℕ
  pub entry_to_exit_used : ℕ
  pub exit_to_entry_used : ℕ
  pub now : ℕ
  pub is_closed : Bool
  -- `getPaymentStreamRecipient`: the recipient, or an error
  pub stream : Option Text
  -- whether `NewNanoPay` succeeds
  pub new_nano_pay : Bool
  -- the attempts of `IncrementAmount`: the bytes of a transaction, or an error
  pub increment : ℕ → Option Text
  pub marshal_ok : Bool
  pub write_ok : Bool

pub record FeeOps : Type 0 where
  -- `common.Fixed64(float64(cost) * nanoPayFeePercentage)`
  pub scale : ℤ → ℤ
  -- `common.StringToFixed64(minNanoPayFee)`
  pub min_fee : Option ℤ
  -- `Fixed64.String`
  pub show_fixed : ℤ → Text

pub data Outcome : Type 0 where
  stopped next : PayState → Outcome

abbrev pub state_of : Outcome → PayState
state_of (stopped s) = s
state_of (next s) = s

-- `for i := 0; i < n; i++ { r, err = f(i); if err == nil { break } }`
unfoldable pub retry {ℓ} : {A : Type ℓ} → ℕ → ℕ → (ℕ → Option A) → Option A
retry zero i f = none
retry (suc n) i f = elim (f i) [ none ↦ retry n (i + 1) f | some a ↦ some a ]

-- `sendNanoPay`
unfoldable pub send_nano_pay : Turn → Bool
unfolding retry
send_nano_pay t = elim (retry 3 0 t.increment) [
  | none ↦ false
  | some tx ↦ not (is_empty tx) && t.marshal_ok && t.write_ok
]

-- the tests that end the inner loop
due : Turn → PayState → Bool
due t s =
    ltb (traffic_payment_threshold * traffic_unit) (
      ((t.entry_to_exit_seen + t.exit_to_entry_seen) % u64_mod
        + u64_mod
        - (s.entry_to_exit_paid + s.exit_to_entry_paid) % u64_mod)
      % u64_mod)
    || ltb nano_pay_update_interval (t.now - s.last_payment_time)

-- `common.Fixed64(used - paid)` on `uint64`
unpaid : ℕ → ℕ → ℤ
unpaid used paid = signed64 ((used + u64_mod - paid) % u64_mod)

round_cost : ℤ × ℤ → Turn → PayState → ℤ
unfolding unpaid
round_cost prices t s =
    traffic_cost prices (unpaid t.entry_to_exit_used s.entry_to_exit_paid)
      (unpaid t.exit_to_entry_used s.exit_to_entry_paid)

-- the last part of a turn: send, and note what is paid
settle : Turn → ℤ → PayState → Outcome
settle t cost s =
    if send_nano_pay t
    then next (record s {
      entry_to_exit_paid = t.entry_to_exit_used;
      exit_to_entry_paid = t.exit_to_entry_used;
      last_cost = cost;
      last_payment_time = t.now;
      payments = s.payments ++ cost ∷ [];
    })
    else stopped s

-- the fee is computed when none is set, and the variable keeps it
set_fee : FeeOps → ℤ → PayState → Option PayState
set_fee ops cost s =
    if is_empty s.nano_pay_fee
    then elim ops.min_fee [
      | none ↦ none
      | some least ↦ some (record s {
        nano_pay_fee =
            ops.show_fixed (if ltb_ℤ (ops.scale cost) least then least else ops.scale cost);
      })
    ]
    else some s

same_recipient : Option Text → Text → Bool
same_recipient none receiver = false
same_recipient (some r) receiver = text_eq r receiver

pay_fee : FeeOps → Turn → ℤ → PayState → Outcome
unfolding set_fee
pay_fee ops t cost s = elim (set_fee ops cost s) [ none ↦ stopped s | some s' ↦ settle t cost s' ]

-- from the payment stream on
pay_to : FeeOps → Turn → ℤ → Text → PayState → Outcome
unfolding same_recipient
pay_to ops t cost receiver s =
    if is_empty receiver
    then next s
    else if same_recipient s.recipient receiver
    then pay_fee ops t cost s
    else if t.new_nano_pay
    then pay_fee ops t cost (record s { recipient = some receiver })
    else next (record s { recipient = none })

pub round : FeeOps → ℤ × ℤ → Turn → PayState → Outcome
unfolding due round_cost
round ops prices t s =
    if t.is_closed
    then stopped s
    else if not (due t s)
    then next s
    else (let cost = round_cost prices t s in
        if eqb_ℤ cost s.last_cost || leb_ℤ cost (pos 0)
        then next s
        else elim t.stream [ none ↦ next s | some receiver ↦ pay_to ops t cost receiver s ])

-- the loop, over the turns of its environment
unfoldable pub run : FeeOps → ℤ × ℤ → List Turn → PayState → PayState
run ops prices [] s = s
run ops prices (t ∷ ts) s = elim (round ops prices t s) [
  | stopped s' ↦ s'
  | next s' ↦ run ops prices ts s'
]
