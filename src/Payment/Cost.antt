-- ===== src/Payment/Cost.antt =====
-- The cost of a session: `getTotalCost` of `TunaEntry.StartReverse` (entry.go).
use tuna.Common.Int.{ℤ, pos, add64, quot64, signed64, signed64_small, eqb_ℤ, add64-pos, mul64-pos}
use tuna.Payment.{traffic_cost, exact_cost, traffic_unit}
use tuna.Common.{
  ℕ, ◌+◌, ◌*◌, ◌/◌, ◌^◌, ◌<◌, ◌≡◌, refl, ◌∙◌, inl, inr, ◌&&◌, List, [], ◌∷◌, arith, if◌then◌else◌,
  Bool-cases, All,
}

-- the counters of one service, both directions
abbrev pub Counters : Type 0
Counters = List (ℕ × ℕ)

-- the body of the entry's loop, at one service: idle ones are skipped
unfoldable pub entry_item : ℤ × ℤ → ℕ → ℕ → ℤ × ℤ → ℤ × ℤ
entry_item prices e x (cost, total_bytes) =
    if eqb_ℤ (signed64 e) (pos 0) && eqb_ℤ (signed64 x) (pos 0) then (cost, total_bytes) else (
      add64 cost (traffic_cost prices (signed64 e) (signed64 x)),
      add64 total_bytes (add64 (signed64 e) (signed64 x)),
    )

-- the loop of the entry's `getTotalCost`, over a client's counters
unfoldable pub entry_loop : ℤ × ℤ → Counters → ℤ × ℤ → ℤ × ℤ
unfolding entry_item
entry_loop prices [] total = total
entry_loop prices ((e, x) ∷ rest) total = entry_loop prices rest (entry_item prices e x total)

-- the entry's `getTotalCost`: UDP counters by the loop, then the two TCP counters
unfoldable pub entry_total_cost : ℤ × ℤ → Counters → ℕ → ℕ → ℤ × ℤ
unfolding entry_loop
entry_total_cost prices counters tcp_e tcp_x =
    let (cost, total_bytes) = entry_loop prices counters (pos 0, pos 0) in
    (
      add64 cost (traffic_cost prices (signed64 tcp_e) (signed64 tcp_x)),
      add64 total_bytes (add64 (signed64 tcp_e) (signed64 tcp_x)),
    )

-- the counters below 2 ^ 63, the products and the running sums too
abbrev pub Fits : ℕ → ℕ → ℕ → ℕ → Type 0
Fits p q e x = (e + x < 2 ^ 63) × (p * e < 2 ^ 63) × (q * x < 2 ^ 63)

abbrev pub sum_cost : ℕ → ℕ → Counters → ℕ
sum_cost p q [] = 0
sum_cost p q ((e, x) ∷ rest) = exact_cost p q e x + sum_cost p q rest

abbrev pub sum_bytes : Counters → ℕ
sum_bytes [] = 0
sum_bytes ((e, x) ∷ rest) = e + x + sum_bytes rest

quot64-pos : (a : ℕ) → quot64 (pos a) (pos traffic_unit) ≡ pos (a / traffic_unit)
unfolding quot64
quot64-pos a = refl

-- Where nothing overflows, the cost of the traffic of one service is the exact one.
pub traffic_cost-exact :
    (p q e x : ℕ)
    → Fits p q e x
    → traffic_cost (pos p, pos q) (signed64 e) (signed64 x) ≡ pos (exact_cost p q e x)
unfolding traffic_cost
traffic_cost-exact p q e x (small, pe, qx) =
    rw
      (
        signed64_small e (omega arith),
        signed64_small x (omega arith),
        mul64-pos p e pe,
        mul64-pos q x qx,
        quot64-pos (p * e),
        quot64-pos (q * x),
      )
      (add64-pos (p * e / traffic_unit) (q * x / traffic_unit) (omega arith))

accumulate :
    (c k b e x : ℕ)
    → c + k < 2 ^ 63
    → b + (e + x) < 2 ^ 63
    → ◌≡◌ {A = ℤ × ℤ}
        (add64 (pos c) (pos k), add64 (pos b) (add64 (signed64 e) (signed64 x)))
        (pos (c + k), pos (b + (e + x)))
accumulate c k b e x hc hb = rw (
  add64-pos c k hc,
  signed64_small e (omega arith),
  signed64_small x (omega arith),
  add64-pos e x (omega arith),
  add64-pos b (e + x) hb,
)

mul_zero : (n : ℕ) → n * 0 ≡ 0
mul_zero n = omega arith

entry_item-exact :
    (p q e x c b : ℕ)
    → Fits p q e x
    → c + exact_cost p q e x < 2 ^ 63
    → b + (e + x) < 2 ^ 63
    → entry_item (pos p, pos q) e x (pos c, pos b)
      ≡ (pos (c + exact_cost p q e x), pos (b + (e + x)))
unfolding entry_item
entry_item-exact p q e x c b fits hc hb =
    elim (Bool-cases (eqb_ℤ (signed64 e) (pos 0) && eqb_ℤ (signed64 x) (pos 0))) [
      | inl idle ↦
          let e0 : e ≡ 0 = ground (arith, idle) in
          let x0 : x ≡ 0 = ground (arith, idle) in
          rw (idle, e0, x0) (ground (arith, mul_zero p, mul_zero q))
      | inr busy ↦
          rw (busy, traffic_cost-exact p q e x fits) (accumulate c (exact_cost p q e x) b e x hc hb)
    ]

entry_loop-exact :
    (p q : ℕ) (counters : Counters) (c b : ℕ)
    → All (λ k. Fits p q k.0 k.1) counters
    → c + sum_cost p q counters < 2 ^ 63
    → b + sum_bytes counters < 2 ^ 63
    → entry_loop (pos p, pos q) counters (pos c, pos b)
      ≡ (pos (c + sum_cost p q counters), pos (b + sum_bytes counters))
unfolding entry_loop
entry_loop-exact p q [] c b fits hc hb = ground arith
entry_loop-exact p q ((e, x) ∷ rest) c b (f, fits) hc hb =
    rw (entry_item-exact p q e x c b f (omega arith) (omega arith)) (
      entry_loop-exact p q rest (c + exact_cost p q e x) (b + (e + x)) fits (omega arith)
        (omega arith)
      ∙ ground arith)

-- Where no product and no sum reaches 2 ^ 63, the entry asks for the exact cost of all bytes of all
-- services and of its TCP traffic, each direction at its price and rounded down, and counts all bytes.
pub entry_total_cost-exact :
    (p q : ℕ) (counters : Counters) (e x : ℕ)
    → All (λ k. Fits p q k.0 k.1) counters
    → Fits p q e x
    → sum_cost p q counters + exact_cost p q e x < 2 ^ 63
    → sum_bytes counters + (e + x) < 2 ^ 63
    → entry_total_cost (pos p, pos q) counters e x
      ≡ (pos (sum_cost p q counters + exact_cost p q e x), pos (sum_bytes counters + (e + x)))
unfolding entry_total_cost
entry_total_cost-exact p q counters e x fits f hc hb =
    rw
      (
        entry_loop-exact p q counters 0 0 fits (omega arith) (omega arith),
        traffic_cost-exact p q e x f,
      )
      (accumulate (0 + sum_cost p q counters) (exact_cost p q e x) (0 + sum_bytes counters) e x
          (omega arith) (omega arith)
        ∙ ground arith)
