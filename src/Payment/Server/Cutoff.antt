-- ===== src/Payment/Server/Cutoff.antt =====
-- When the checker must not close a session.
use tuna.Common.Int.{ℤ, pos, ◌≤ℤ◌}
use tuna.Payment.Server.{
  Checker, waiting, sleeping, returned, Session, FloatPart, Payment, handle_payment, Event, wake,
  verdict, payment, claim_error, hang_up, check_verdict, wake_step, step, run,
}
use tuna.Common.{ℕ, ◌≡◌, refl, ◌∙◌, false, List, [], ◌∷◌, arith}

handle_payment-is_closed :
    (m : Payment) (s : Session) → (handle_payment m s).is_closed ≡ s.is_closed
unfolding handle_payment
handle_payment-is_closed m s = ground arith

wake-is_closed :
    (now : ℕ) (c b : ℤ) (k : Checker) (s : Session)
    → (wake_step now c b k s).is_closed ≡ s.is_closed
unfolding wake_step
wake-is_closed now c b waiting s = ground arith
wake-is_closed now c b (sleeping c' b') s = refl
wake-is_closed now c b returned s = refl

-- What a run must bring so that the checker has no reason to close: when a verdict falls, the cost
-- that it looks at has been claimed; the claimer stays open; and the session is not left.
abbrev pub PaysUpAt : Checker → Session → Type 0
PaysUpAt (sleeping c b) s = (pos 0 ≤ℤ c) × (c ≤ℤ s.last_payment_amount)
PaysUpAt _ s = Unit

abbrev pub PaysUp : FloatPart → List Event → Session → Type 0
PaysUp ops [] s = Unit
PaysUp ops (verdict ∷ es) s = PaysUpAt s.checker s × PaysUp ops es (step ops verdict s)
PaysUp ops (claim_error n ∷ es) s = (n ≡ false) × PaysUp ops es (step ops (claim_error n) s)
PaysUp ops (hang_up ∷ es) s = ⊥
PaysUp ops (wake now c b ∷ es) s = PaysUp ops es (step ops (wake now c b) s)
PaysUp ops (payment m ∷ es) s = PaysUp ops es (step ops (payment m) s)

verdict-open :
    (ops : FloatPart) (k : Checker) (s : Session)
    → PaysUpAt k s
    → s.is_closed ≡ false
    → (check_verdict ops k s).is_closed ≡ false
unfolding check_verdict
verdict-open ops (sleeping c b) s (nonneg, paid) h = ground (arith, ops.coverage-le c nonneg)
verdict-open ops waiting s p h = h
verdict-open ops returned s p h = h

-- A client who has paid for the traffic that a verdict looks at is never cut off.
pub run-open :
    (ops : FloatPart) (es : List Event) (s : Session)
    → s.is_closed ≡ false
    → PaysUp ops es s
    → (run ops es s).is_closed ≡ false
unfolding run
run-open ops [] s h p = h
run-open ops (verdict ∷ es) s h (p, ps) =
    run-open ops es (step ops verdict s) (unfold step in verdict-open ops s.checker s p h) ps
run-open ops (claim_error n ∷ es) s h (p, ps) =
    run-open ops es (step ops (claim_error n) s) (unfold step in ground arith) ps
run-open ops (hang_up ∷ es) s h p = absurd p
run-open ops (wake now c b ∷ es) s h p =
    run-open ops es (step ops (wake now c b) s)
      (unfold step in wake-is_closed now c b s.checker s ∙ h) p
run-open ops (payment m ∷ es) s h p =
    run-open ops es (step ops (payment m) s) (unfold step in handle_payment-is_closed m s ∙ h) p
