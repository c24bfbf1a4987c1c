-- ===== src/Payment/Client/Fee.antt =====
-- The fee of a payment: the loop keeps the first one that it computes.
use tuna.Common.Int.{ℤ, pos, leb_ℤ, eqb_ℤ}
use tuna.Payment.Client.{
  PayState, Turn, FeeOps, Outcome, stopped, next, state_of, round_cost, settle, set_fee, pay_fee,
  pay_to, round, run, send_nano_pay, same_recipient, due,
}
use tuna.Common.{
  ◌≡◌, refl, sym, ◌∙◌, ◌≢◌, inl, inr, not, ◌||◌, some, List, [], ◌∷◌, arith, Bool-cases, if_ind,
  option_ind, Text, is_empty, is_empty→nil,
}

abbrev SameFee : PayState → Outcome → Type 0
SameFee s o = (state_of o).nano_pay_fee ≡ s.nano_pay_fee

module _ (ops : FeeOps) (t : Turn) (cost : ℤ) where
  settle-SameFee : (s : PayState) → SameFee s (settle t cost s)
  unfolding settle
  settle-SameFee s = if_ind (SameFee s) (send_nano_pay t) (λ _. refl) (λ _. refl)

  pay_fee-SameFee : (s : PayState) → s.nano_pay_fee ≢ [] → SameFee s (pay_fee ops t cost s)
  unfolding pay_fee set_fee
  pay_fee-SameFee s h = elim (Bool-cases (is_empty s.nano_pay_fee)) [
    | inl e ↦ absurd (h (is_empty→nil s.nano_pay_fee e))
    | inr e ↦ ground (arith, e, settle-SameFee s)
  ]

  pay_to-SameFee :
      (receiver : Text) (s : PayState)
      → s.nano_pay_fee ≢ []
      → SameFee s (pay_to ops t cost receiver s)
  unfolding pay_to
  pay_to-SameFee receiver s h =
      if_ind (SameFee s) (is_empty receiver) (λ _. refl)
        λ _.
          if_ind (SameFee s) (same_recipient s.recipient receiver) (λ _. pay_fee-SameFee s h)
            λ _.
              if_ind (SameFee s) t.new_nano_pay
                (λ _. pay_fee-SameFee (record s { recipient = some receiver }) h) (λ _. refl)

round-SameFee :
    (ops : FeeOps) (prices : ℤ × ℤ) (t : Turn) (s : PayState)
    → s.nano_pay_fee ≢ []
    → SameFee s (round ops prices t s)
unfolding round
round-SameFee ops prices t s h =
    if_ind (SameFee s) t.is_closed (λ _. refl)
      λ _.
        if_ind (SameFee s) (not (due t s)) (λ _. refl)
          λ _.
            if_ind (SameFee s)
              (eqb_ℤ (round_cost prices t s) s.last_cost || leb_ℤ (round_cost prices t s) (pos 0))
              (λ _. refl)
              λ _.
                option_ind (SameFee s) t.stream (λ _. refl)
                  λ receiver _. pay_to-SameFee ops t (round_cost prices t s) receiver s h

module _ (ops : FeeOps) (prices : ℤ × ℤ) where
  resume :
      (fee : Text) (ts : List Turn) (o : Outcome)
      → (state_of o).nano_pay_fee ≡ fee
      → ((s : PayState) → s.nano_pay_fee ≡ fee → (run ops prices ts s).nano_pay_fee ≡ fee)
      → ◌≡◌ {A = Text}
          (elim o as (λ _. PayState) [ stopped s ↦ s | next s ↦ run ops prices ts s ]).nano_pay_fee
          fee
  resume fee ts (stopped s) h go = h
  resume fee ts (next s) h go = go s h

  -- A fee that is set, by the configuration or by the first payment, is used for every later
  -- payment, whatever their costs are.
  run-nano_pay_fee :
      (ts : List Turn) (s : PayState) (fee : Text)
      → fee ≢ []
      → s.nano_pay_fee ≡ fee
      → (run ops prices ts s).nano_pay_fee ≡ fee
  unfolding run
  run-nano_pay_fee [] s fee ne h = h
  run-nano_pay_fee (t ∷ ts) s fee ne h =
      resume fee ts (round ops prices t s) (round-SameFee ops prices t s (λ e. ne (sym h ∙ e)) ∙ h)
        (λ s' h'. run-nano_pay_fee ts s' fee ne h')
