-- ===== src/Payment/Client/Covered.antt =====
-- The client never sends more than the bytes that it counts as paid are worth.
use native.Mathlib.Nat.{mul-add}
use tuna.Common.Int.{ℤ, pos, signed64, leb_ℤ, eqb_ℤ, pos_part}
use tuna.Payment.{exact_cost, traffic_unit}
use tuna.Payment.Cost.{Fits, traffic_cost-exact}
use tuna.Payment.Client.{
  PayState, Turn, FeeOps, Outcome, stopped, next, state_of, unpaid, round_cost, settle,
  send_nano_pay, same_recipient, due, set_fee, pay_fee, pay_to, round, run,
}
use tuna.Common.{
  ℕ, ◌+◌, ◌-◌, ◌*◌, ◌^◌, ◌≤◌, ◌<◌, ◌≡◌, refl, sym, ap, ◌∙◌, ◌⊎◌, inl, inr, false, not, ◌||◌, some,
  List, [], ◌∷◌, ◌++◌, arith, if_ind, option_ind, Text, is_empty,
}

abbrev pub total : List ℤ → ℕ
total [] = 0
total (c ∷ cs) = pos_part c + total cs

total-append : (cs ds : List ℤ) → total (cs ++ ds) ≡ total cs + total ds
total-append [] ds = omega arith
total-append (c ∷ cs) ds = omega (arith, total-append cs ds)

-- a turn that sends nothing leaves what is paid as it is
abbrev Same : PayState → PayState → Type 0
Same s s' =
    (s'.entry_to_exit_paid ≡ s.entry_to_exit_paid)
    × (s'.exit_to_entry_paid ≡ s.exit_to_entry_paid)
    × (s'.payments ≡ s.payments)

-- a turn that pays appends its cost and notes its counters as paid
abbrev Paid : Turn → ℤ → PayState → PayState → Type 0
Paid t cost s s' =
    (s'.entry_to_exit_paid ≡ t.entry_to_exit_used)
    × (s'.exit_to_entry_paid ≡ t.exit_to_entry_used)
    × (s'.payments ≡ s.payments ++ cost ∷ [])

abbrev Effect : Turn → ℤ → PayState → Outcome → Type 0
Effect t cost s o = Same s (state_of o) ⊎ Paid t cost s (state_of o)

module _ (ops : FeeOps) (t : Turn) (cost : ℤ) where
  settle-Effect : (s : PayState) → Effect t cost s (settle t cost s)
  unfolding settle
  settle-Effect s =
      if_ind (Effect t cost s) (send_nano_pay t) (λ _. inr (refl, refl, refl))
        (λ _. inl (refl, refl, refl))

  set_fee-Same : (s : PayState) {s' : PayState} → set_fee ops cost s ≡ some s' → Same s s'
  unfolding set_fee
  set_fee-Same s h = ground arith

  pay_fee-Effect : (s : PayState) → Effect t cost s (pay_fee ops t cost s)
  unfolding pay_fee
  pay_fee-Effect s =
      option_ind (Effect t cost s) (set_fee ops cost s) (λ _. inl (refl, refl, refl))
        λ s' e. ground (arith, set_fee-Same s e, settle-Effect s')

  pay_to-Effect : (receiver : Text) (s : PayState) → Effect t cost s (pay_to ops t cost receiver s)
  unfolding pay_to
  pay_to-Effect receiver s =
      if_ind (Effect t cost s) (is_empty receiver) (λ _. inl (refl, refl, refl))
        λ _.
          if_ind (Effect t cost s) (same_recipient s.recipient receiver) (λ _. pay_fee-Effect s)
            λ _.
              if_ind (Effect t cost s) t.new_nano_pay
                (λ _. pay_fee-Effect (record s { recipient = some receiver }))
                (λ _. inl (refl, refl, refl))

-- what one turn does: nothing, or an effect with a positive cost
abbrev Turned : ℤ × ℤ → Turn → PayState → Outcome → Type 0
Turned prices t s o =
    Same s (state_of o)
    ⊎ (Effect t (round_cost prices t s) s o × (leb_ℤ (round_cost prices t s) (pos 0) ≡ false))

round-Turned :
    (ops : FeeOps) (prices : ℤ × ℤ) (t : Turn) (s : PayState)
    → Turned prices t s (round ops prices t s)
unfolding round
round-Turned ops prices t s =
    let P = Turned prices t s in
    if_ind P t.is_closed (λ _. inl (refl, refl, refl))
      λ _.
        if_ind P (not (due t s)) (λ _. inl (refl, refl, refl))
          λ _.
            if_ind P
              (eqb_ℤ (round_cost prices t s) s.last_cost || leb_ℤ (round_cost prices t s) (pos 0))
              (λ _. inl (refl, refl, refl))
              λ positive.
                option_ind P t.stream (λ _. inl (refl, refl, refl))
                  λ receiver _. inr (
                    pay_to-Effect ops t (round_cost prices t s) receiver s,
                    ground (arith, positive),
                  )

-- the counters that a turn reads: not below what is paid, and small enough for `int64`
abbrev Reads : ℕ → ℕ → Turn → PayState → Type 0
Reads p q t s =
    (s.entry_to_exit_paid ≤ t.entry_to_exit_used)
    × (s.exit_to_entry_paid ≤ t.exit_to_entry_used)
    × (t.entry_to_exit_used < 2 ^ 63)
    × (t.exit_to_entry_used < 2 ^ 63)
    × Fits p q (t.entry_to_exit_used - s.entry_to_exit_paid)
        (t.exit_to_entry_used - s.exit_to_entry_paid)

unpaid-exact :
    (used paid : ℕ) → paid ≤ used → used < 2 ^ 63 → unpaid used paid ≡ signed64 (used - paid)
unfolding unpaid
unpaid-exact used paid h k = ap signed64 (omega arith)

round_cost-exact :
    (p q : ℕ) (t : Turn) (s : PayState)
    → Reads p q t s
    → round_cost (pos p, pos q) t s
      ≡ pos (
          exact_cost p q
            (t.entry_to_exit_used - s.entry_to_exit_paid)
            (t.exit_to_entry_used - s.exit_to_entry_paid))
unfolding round_cost
round_cost-exact p q t s (e, x, ne, nx, fits) =
    rw (unpaid-exact _ _ e ne, unpaid-exact _ _ x nx) (traffic_cost-exact p q _ _ fits)

-- What has been sent is worth no more than the bytes noted as paid, at the agreed prices.
abbrev pub IsCovered : ℕ → ℕ → PayState → Type 0
IsCovered p q s =
    traffic_unit * total s.payments ≤ p * s.entry_to_exit_paid + q * s.exit_to_entry_paid

mul_split : (p a e : ℕ) → a ≤ e → p * (e - a) + p * a ≡ p * e
mul_split p a e h =
    let r : (e - a) + a ≡ e = omega arith in sym (mul-add p (e - a) a) ∙ ap (λ (n : ℕ). p * n) r

mul_mono : (p a e : ℕ) → a ≤ e → p * a ≤ p * e
mul_mono p a e h = grind arith

pay_worth :
    (p q a b e x t : ℕ)
    → a ≤ e
    → b ≤ x
    → traffic_unit * t ≤ p * a + q * b
    → traffic_unit * (t + (exact_cost p q (e - a) (x - b) + 0)) ≤ p * e + q * x
pay_worth p q a b e x t ha hb h = omega (arith, mul_split p a e ha, mul_split q b x hb)

-- Where the counters are, and what is sent, after a turn.
round-IsCovered :
    (ops : FeeOps) (p q : ℕ) (t : Turn) (s : PayState)
    → Reads p q t s
    → IsCovered p q s
    → IsCovered p q (state_of (round ops (pos p, pos q) t s))
      × ((state_of (round ops (pos p, pos q) t s)).entry_to_exit_paid ≤ t.entry_to_exit_used)
      × ((state_of (round ops (pos p, pos q) t s)).exit_to_entry_paid ≤ t.exit_to_entry_used)
round-IsCovered ops p q t s reads h = elim (round-Turned ops (pos p, pos q) t s) [
  | inl same ↦ ground (arith, same)
  | inr (inl same, positive) ↦ ground (arith, same)
  | inr (inr (e, x, sent), positive) ↦ (
    rw (e, x, sent, total-append, round_cost-exact p q t s reads)
        (pay_worth p q s.entry_to_exit_paid s.exit_to_entry_paid t.entry_to_exit_used
          t.exit_to_entry_used (total s.payments) reads.0 reads.1 h),
    omega arith,
    omega arith,
  )
]

-- Counters that never go back and that stay small enough for the products.
abbrev pub Grows : ℕ → ℕ → ℕ → ℕ → List Turn → Type 0
Grows p q e x [] = Unit
Grows p q e x (t ∷ ts) =
    (e ≤ t.entry_to_exit_used)
    × (x ≤ t.exit_to_entry_used)
    × Fits p q t.entry_to_exit_used t.exit_to_entry_used
    × Grows p q t.entry_to_exit_used t.exit_to_entry_used ts

module _ (ops : FeeOps) (p q : ℕ) where
  resume :
      (e x : ℕ) (ts : List Turn) (o : Outcome)
      → ((s : PayState)
          → s.entry_to_exit_paid ≤ e
          → s.exit_to_entry_paid ≤ x
          → IsCovered p q s
          → IsCovered p q (run ops (pos p, pos q) ts s))
      → IsCovered p q (state_of o)
        × ((state_of o).entry_to_exit_paid ≤ e)
        × ((state_of o).exit_to_entry_paid ≤ x)
      → IsCovered p q (elim o [ stopped s ↦ s | next s ↦ run ops (pos p, pos q) ts s ])
  resume e x ts (stopped s) go (h, he, hx) = h
  resume e x ts (next s) go (h, he, hx) = go s he hx h

  grown-Reads :
      (e x : ℕ) (t : Turn) (ts : List Turn) (s : PayState)
      → s.entry_to_exit_paid ≤ e
      → s.exit_to_entry_paid ≤ x
      → Grows p q e x (t ∷ ts)
      → Reads p q t s
  grown-Reads e x t ts s he hx (ge, gx, (sum, pe, qx), _) = omega (
    arith,
    mul_mono p (t.entry_to_exit_used - s.entry_to_exit_paid) t.entry_to_exit_used (omega arith),
    mul_mono q (t.exit_to_entry_used - s.exit_to_entry_paid) t.exit_to_entry_used (omega arith),
  )

  run-IsCovered_from :
      (e x : ℕ) (ts : List Turn) (s : PayState)
      → s.entry_to_exit_paid ≤ e
      → s.exit_to_entry_paid ≤ x
      → Grows p q e x ts
      → IsCovered p q s
      → IsCovered p q (run ops (pos p, pos q) ts s)
  unfolding run
  run-IsCovered_from e x [] s he hx g h = h
  run-IsCovered_from e x (t ∷ ts) s he hx g h =
      resume t.entry_to_exit_used t.exit_to_entry_used ts (round ops (pos p, pos q) t s)
        (λ s' he' hx' h'.
          run-IsCovered_from t.entry_to_exit_used t.exit_to_entry_used ts s' he' hx' g.3 h')
        (round-IsCovered ops p q t s (grown-Reads e x t ts s he hx g) h)

-- From a state in which nothing is sent, over any turns whose counters never fall and whose
-- products stay below 2 ^ 63, the sum of all payments, in units of traffic, is at most the price of
-- the bytes that are noted as paid: rounding and failed turns never cost the client more.
pub run-IsCovered :
    (ops : FeeOps) (p q : ℕ) (ts : List Turn) (s : PayState)
    → s.payments ≡ []
    → Grows p q s.entry_to_exit_paid s.exit_to_entry_paid ts
    → IsCovered p q (run ops (pos p, pos q) ts s)
run-IsCovered ops p q ts s none_sent g =
    run-IsCovered_from ops p q s.entry_to_exit_paid s.exit_to_entry_paid ts s (omega arith)
      (omega arith) g (rw none_sent (omega arith))
