-- ===== src/Publish/Renewal.antt =====
-- When `UpdateMetadata` subscribes again.
use tuna.Common.Int.{◌≤ℤ◌}
use tuna.Publish.{SubscribeData, Subscription, Publication, Round}
use tuna.Common.{ℕ, ◌+◌, ◌≤◌, ◌≡◌, false, some, List, [], ◌∷◌}

-- a random factor never lengthens a wait
abbrev pub IsShortening : (ℕ → ℕ) → Type 0
IsShortening f = (d : ℕ) → f d ≤ d

-- The chain has a subscription with the current metadata, for at least three blocks more.
abbrev pub IsLive : Publication → Round → ℕ → Type 0
IsLive p r blocks =
    (sub : Subscription) × (height : ℕ) × (r.get_subscription ≡ some sub)
    × (sub.meta ≡ p.metadata_raw)
    × (r.get_height ≡ some height)
    × (height + blocks ≡ sub.expires_at)
    × (3 ≤ blocks)

-- A round in which the exit is not closed, random factors shorten waits, and a subscription that is
-- live has no more than so many blocks left.
abbrev pub IsSteady : Publication → ℕ → Round → Type 0
IsSteady p limit r =
    (r.closed_first ≡ false)
    × (r.closed_next ≡ false)
    × IsShortening r.shorten
    × ((blocks : ℕ) → IsLive p r blocks → blocks ≤ limit)

-- The first request comes between two times, and each later one after the one before it, by at most
-- `gap`. All are of the service's metadata, for no more than the fee.
abbrev pub IsSpaced : Publication → ℕ → ℕ → ℕ → List (ℕ × SubscribeData) → Type 0
IsSpaced p gap low high [] = Unit
IsSpaced p gap low high ((t, d) ∷ requests) =
    (low ≤ t)
    × (t ≤ high)
    × (d.meta ≡ p.metadata_raw)
    × (d.config.fee ≤ℤ p.subscription_fee)
    × IsSpaced p gap t (t + gap) requests
