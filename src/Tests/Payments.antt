-- ===== src/Tests/Payments.antt =====
-- Prices, costs and payment sessions on concrete numbers.
use tuna.Common.Int.{ℤ, pos, signed64}
use tuna.Net.{trim, split}
use tuna.Payment.{parse_price, traffic_cost, exact_cost}
use tuna.Payment.Cost.{
  entry_total_cost, traffic_cost-exact, entry_total_cost-exact, sum_cost, sum_bytes,
}
use tuna.Payment.Client as Client
use tuna.Payment.Client.{PayState, Turn, FeeOps}
use tuna.Payment.Client.Covered.{run-IsCovered, IsCovered}
use tuna.Payment.Server as Server
use tuna.Payment.Server.{Session, FloatPart, Payment, Event, Checker}
use tuna.Payment.Server.Cutoff.{run-open}
use tuna.Common.{
  ℕ, ◌+◌, ◌-◌, ◌*◌, ◌^◌, ◌≡◌, refl, true, false, ◌&&◌, Option, none, some, List, [], ◌∷◌, arith,
  leb, ◌==◌, if◌then◌else◌, Text, codes,
}

-- a decimal number without a fraction, as `Fixed64` with eight places
number : ℕ → Text → ℤ
number n [] = pos (n * 10 ^ 8)
number n (c ∷ s) = number (n * 10 + (c - 48)) s

unfoldable fixed64 : Text → Option ℤ
unfolding number
fixed64 [] = none
fixed64 (c ∷ s) = if leb 48 c && leb c 57 then some (number 0 (c ∷ s)) else none

parse_price_two : parse_price fixed64 (codes "1, 2") ≡ some (pos (10 ^ 8), pos (2 * 10 ^ 8))
unfolding parse_price fixed64 split trim
parse_price_two = refl

abbrev mib : ℕ
mib = 1024 * 1024

traffic_cost-exact_example :
    traffic_cost (pos 3, pos 5) (signed64 (2 * mib)) (signed64 mib)
    ≡ pos (exact_cost 3 5 (2 * mib) mib)
traffic_cost-exact_example =
    traffic_cost-exact 3 5 (2 * mib) mib (omega arith, omega arith, omega arith)

entry_total_cost-exact_example :
    entry_total_cost (pos 3, pos 5) ((mib, 0) ∷ (0, mib) ∷ []) (2 * mib) 0 ≡ (
      pos (sum_cost 3 5 ((mib, 0) ∷ (0, mib) ∷ []) + exact_cost 3 5 (2 * mib) 0),
      pos (sum_bytes ((mib, 0) ∷ (0, mib) ∷ []) + (2 * mib + 0)),
    )
entry_total_cost-exact_example =
    entry_total_cost-exact 3 5 ((mib, 0) ∷ (0, mib) ∷ []) (2 * mib) 0
      ((omega arith, omega arith, omega arith), ((omega arith, omega arith, omega arith), tt))
      (omega arith, omega arith, omega arith) (omega arith) (omega arith)

abbrev fee_ops : FeeOps
fee_ops = record { scale = λ c. c; min_fee = some (pos 1); show_fixed = λ c. codes "1" }

abbrev fresh : PayState
fresh = record {
  entry_to_exit_paid = 0;
  exit_to_entry_paid = 0;
  last_cost = pos 0;
  last_payment_time = 0;
  recipient = none;
  nano_pay_fee = [];
  payments = [];
}

abbrev turn_at : ℕ → ℕ → Turn
turn_at used now = record {
  entry_to_exit_seen = used;
  exit_to_entry_seen = 0;
  entry_to_exit_used = used;
  exit_to_entry_used = 0;
  now = now;
  is_closed = false;
  stream = some (codes "recipient");
  new_nano_pay = true;
  increment = λ i. some (i ∷ []);
  marshal_ok = true;
  write_ok = true;
}

abbrev turns : List Turn
turns = turn_at (40 * mib) 10 ∷ turn_at (80 * mib) 20 ∷ []

run-IsCovered_example : IsCovered 7 0 (Client.run fee_ops (pos 7, pos 0) turns fresh)
run-IsCovered_example = run-IsCovered fee_ops 7 0 turns fresh refl (
  omega arith,
  omega arith,
  (omega arith, omega arith, omega arith),
  (omega arith, omega arith, (omega arith, omega arith, omega arith), tt),
)

abbrev half_part : FloatPart
half_part = record { coverage = λ c. pos 0; allowance = λ c b. pos 5; coverage-le = λ c h. h }

abbrev all_part : FloatPart
all_part = record { coverage = λ c. c; allowance = λ c b. pos 5; coverage-le = λ c h. omega arith }

abbrev asleep : Session
asleep = record {
  checker = Checker.sleeping (pos 100) (pos 1000);
  last_payment_time = 0;
  last_payment_amount = pos 10;
  bytes_paid = pos 0;
  is_closed = false;
}

abbrev first_payment : Payment
first_payment = record {
  tx = 1 ∷ [];
  unmarshal = λ b. true;
  claim = λ i b. if i == 0 then none else some (pos 60);
  npc_amount = pos 60;
  total_cost = pos 100;
  total_bytes = pos (40 * mib);
  now = 5;
}

abbrev some_events : List Event
some_events = Event.payment first_payment ∷ Event.verdict ∷ []

run_claims : (Server.run half_part some_events asleep).last_payment_amount ≡ pos 60
unfolding Server.run Server.step Server.handle_payment Server.nano_pay_claim
run_claims = refl

abbrev paid_up : Session
paid_up = record asleep { last_payment_amount = pos 100 }

run-open_example : (Server.run all_part (Event.verdict ∷ []) paid_up).is_closed ≡ false
run-open_example =
    run-open all_part (Event.verdict ∷ []) paid_up refl ((omega arith, omega arith), tt)
