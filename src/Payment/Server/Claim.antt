-- ===== src/Payment/Server/Claim.antt =====
-- What a payment changes in the session.
use tuna.Common.Int.{ℤ, pos, mul64, quot64, eqb_ℤ}
use tuna.Payment.Client.{retry}
use tuna.Payment.Server.{
  Checker, waiting, sleeping, returned, FloatPart, Event, wake, verdict, payment, claim_error,
  hang_up, wake_step, check_verdict, step, run, Session, Payment, nano_pay_claim, handle_payment,
}
use tuna.Common.{ℕ, ◌<◌, ◌≡◌, refl, ap, ◌∙◌, List, [], ◌∷◌, arith, if_ind, option_ind, All}

mul64_zero : (b : ℤ) → mul64 b (pos 0) ≡ pos 0
unfolding mul64
mul64_zero b = ground arith

quot64_below : (a c : ℕ) → a < c → quot64 (pos a) (pos c) ≡ pos 0
unfolding quot64
quot64_below a c h = ap pos (grind arith)

-- The claimer holds less than the total cost: the usual case, since traffic goes on meanwhile.
abbrev pub IsPart : Event → Type 0
IsPart (payment m) =
    (claimed : ℕ) × (cost : ℕ) × (m.npc_amount ≡ pos claimed)
    × (m.total_cost ≡ pos cost)
    × (claimed < cost)
IsPart _ = Unit

NothingPaid : Session → Type 0
NothingPaid s = s.bytes_paid ≡ pos 0

payment-NothingPaid :
    (m : Payment) (s : Session)
    → IsPart (payment m)
    → NothingPaid s
    → NothingPaid (handle_payment m s)
unfolding handle_payment NothingPaid
payment-NothingPaid m s (claimed, cost, hc, ht, lt) h =
    if_ind (λ (r : Session). r.bytes_paid ≡ pos 0) (eqb_ℤ m.total_cost (pos 0)) (λ _. h)
      λ _.
        option_ind (λ (r : Session). r.bytes_paid ≡ pos 0)
          (retry 3 0 (λ i. nano_pay_claim m.unmarshal (m.claim i) m.tx)) (λ _. h)
          λ amount _. rw (hc, ht, quot64_below claimed cost lt) (mul64_zero m.total_bytes)

wake-bytes_paid :
    (now : ℕ) (c b : ℤ) (k : Checker) (s : Session)
    → (wake_step now c b k s).bytes_paid ≡ s.bytes_paid
unfolding wake_step
wake-bytes_paid now c b waiting s = ground arith
wake-bytes_paid now c b (sleeping c' b') s = refl
wake-bytes_paid now c b returned s = refl

verdict-bytes_paid :
    (ops : FloatPart) (k : Checker) (s : Session)
    → (check_verdict ops k s).bytes_paid ≡ s.bytes_paid
unfolding check_verdict
verdict-bytes_paid ops (sleeping c b) s = ground arith
verdict-bytes_paid ops waiting s = refl
verdict-bytes_paid ops returned s = refl

step-NothingPaid :
    (ops : FloatPart) (e : Event) (s : Session)
    → IsPart e
    → NothingPaid s
    → NothingPaid (step ops e s)
unfolding step NothingPaid
step-NothingPaid ops (wake now c b) s p h = wake-bytes_paid now c b s.checker s ∙ h
step-NothingPaid ops verdict s p h = verdict-bytes_paid ops s.checker s ∙ h
step-NothingPaid ops (payment m) s p h = payment-NothingPaid m s p h
step-NothingPaid ops (claim_error n) s p h = ground arith
step-NothingPaid ops hang_up s p h = h

-- In a session where at each payment the claimer holds less than the total cost, no byte ever counts
-- as paid, however much was claimed.
run-bytes_paid_zero :
    (ops : FloatPart) (es : List Event) (s : Session)
    → s.bytes_paid ≡ pos 0
    → All IsPart es
    → (run ops es s).bytes_paid ≡ pos 0
unfolding run
run-bytes_paid_zero ops [] s h p = h
run-bytes_paid_zero ops (e ∷ es) s h (p, ps) =
    run-bytes_paid_zero ops es (step ops e s) (unfold NothingPaid in step-NothingPaid ops e s p h)
      ps
