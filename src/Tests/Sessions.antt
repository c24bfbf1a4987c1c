-- ===== src/Tests/Sessions.antt =====
-- An entry whose first session dies.
use tuna.Session.{
  EntryState, Dialer, create_session, open_payment_stream, get_session, get_payment_stream,
  open_service_stream, EntryStep, pay, open_stream, die, entry_step, entry_run,
}
use tuna.Session.Runs.{IsPaired, entry_run-IsPaired}
use tuna.Common.{ℕ, ◌≡◌, refl, true, false, none, some, List, [], ◌∷◌, arith}

abbrev idle : EntryState
idle = record { session = none; payment_stream = none; made = [] }

-- the first connection is dead, and a forced one works
abbrev dial_as : ℕ → ℕ → Dialer
dial_as id payment force = record {
  conn_ok = force;
  smux_client = some id;
  stream = some payment;
  write_ok = true;
}

abbrev steps : List EntryStep
steps = open_stream (dial_as 1 10) true true 0 0 ∷ die ∷ pay (dial_as 2 20) ∷ []

steps-redial : entry_run false steps idle ≡ record {
  session = some (record { id = 2; is_closed = false });
  payment_stream = some 20;
  made = (2, 20) ∷ (1, 10) ∷ [];
}
unfolding entry_run entry_step get_payment_stream open_service_stream get_session create_session
    open_payment_stream
steps-redial = refl

entry_run-IsPaired_example : IsPaired (entry_run false steps idle)
entry_run-IsPaired_example = entry_run-IsPaired false steps idle (λ l e. absurd (ground (arith, e)))

abbrev live : EntryState
live = record {
  session = some (record { id = 1; is_closed = false });
  payment_stream = some 10;
  made = (1, 10) ∷ [];
}

abbrev calm_steps : List EntryStep
calm_steps = open_stream (dial_as 2 20) true false 0 0 ∷ pay (dial_as 3 30) ∷ []
