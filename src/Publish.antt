-- ===== src/Publish.antt =====
-- The publication of an exit's metadata: the subscription queue with its worker (subqueue.go) and the
-- rounds of `UpdateMetadata` (tuna.go). The chain, the client and the random factor are arguments.
pub mod Queue
pub mod Renewal
use tuna.Common.Int.{ℤ, pos, negsuc, sub_ℕ, ltb_ℤ, ◌≤ℤ◌, pos_part, neg_part}
use tuna.Common.{
  ℕ, zero, suc, ◌+◌, ◌-◌, ◌*◌, ◌/◌, ◌%◌, ◌^◌, ◌≤◌, ◌<◌, ◌≡◌, refl, sym, ap, ◌∙◌, subst, ◌≢◌, ◌↔◌,
  ◌⊎◌, inl, inr, Bool, true, false, not, ◌&&◌, ◌||◌, Option, none, some, List, [], ◌∷◌, ◌++◌,
  append_assoc, append-nil, arith, ltb, leb, ◌==◌, if◌then◌else◌, ltb→lt, lt→ltb, leb→le, le→leb,
  ==_iff, tests, Bool-cases, Option-cases, if_ind, option_ind, ◌>>=◌, >>=-eq-some, length,
  get_elem?, take, drop, length-append, length-take-le, length-take, take-append-drop,
  take-length-append, drop-length-append, get_elem?-some, get_elem?-none, All, All-append, All-take,
  Any, Text, codes, is_empty, text_eq, to_lower, text_eq_iff, text_eq_refl, is_empty→nil,
}

abbrev pub sub_queue_len : ℕ
sub_queue_len = 1024

abbrev pub max_retry : ℕ
max_retry = 3

-- `nkn.TransactionConfig`: the fee, and the nonce once it is fixed
pub record TransactionConfig : Type 0 where
  pub fee : ℤ
  pub nonce : Option ℕ

pub record SubscribeData : Type 0 where
  pub identifier : Text
  pub topic : Text
  pub duration : ℕ
  pub meta : Text
  pub config : TransactionConfig
  pub replace_tx_pool : Bool

-- `addToSubscribeQueue`: the channel afterwards, which discards a request when it is full
unfoldable pub add_to_subscribe_queue : SubscribeData → List SubscribeData → List SubscribeData
add_to_subscribe_queue sub_data sub_queue =
    if ltb (length sub_queue) sub_queue_len then sub_queue ++ sub_data ∷ [] else sub_queue

-- What the client answers at an attempt: `GetNonce`, and whether `Subscribe` succeeds.
pub record SubscribeClient : Type 0 where
  pub get_nonce : ℕ → Option ℕ
  pub subscribe : ℕ → SubscribeData → Bool

-- the subscriptions that the worker sent, and whether the last one succeeded
pub record Attempts : Type 0 where
  pub sent : List SubscribeData
  pub success : Bool

unfoldable pub with_nonce : SubscribeData → ℕ → SubscribeData
with_nonce d nonce = record d { config = record d.config { nonce = some nonce } }

-- the request of an attempt, unless the nonce is missing
unfoldable pub prepare : SubscribeClient → ℕ → SubscribeData → Option SubscribeData
unfolding with_nonce
prepare client i d =
    if d.replace_tx_pool then (do nonce ← client.get_nonce i; some (with_nonce d nonce)) else some d

-- The attempts of the worker for a request, from the i-th on. The nonce stays in the request.
unfoldable pub attempt : ℕ → SubscribeClient → ℕ → SubscribeData → Attempts
attempt zero client i d = record { sent = []; success = false }
attempt (suc left) client i d = elim (prepare client i d) [
  | none ↦ attempt left client (i + 1) d
  | some d' ↦ elim (client.subscribe i d') [
    | true ↦ record { sent = d' ∷ []; success = true }
    | false ↦
        let rest = attempt left client (i + 1) d' in
        record { sent = d' ∷ rest.sent; success = rest.success }
  ]
]

-- what the worker does with a request
unfoldable pub handle_subscription : SubscribeClient → SubscribeData → Attempts
handle_subscription client d = attempt max_retry client 0 d

-- What `GetSubscription` returns. Heights are not negative.
pub record Subscription : Type 0 where
  pub meta : Text
  pub expires_at : ℕ

-- The constants of a service's publication: `config.ConsensusDuration` and `maxCheckSubscribeInterval`
-- in nanoseconds, and what `StringToFixed64` returns for the fee.
pub record Publication : Type 0 where
  pub topic : Text
  pub metadata_raw : Text
  pub subscription_duration : ℕ
  pub subscription_fee : ℤ
  pub replace_tx_pool : Bool
  pub consensus_duration : ℕ
  pub max_check_subscribe_interval : ℕ

-- `subInterval`
unfoldable pub sub_interval : Publication → ℕ
sub_interval p =
    if ltb 3 p.subscription_duration
    then (p.subscription_duration - 3) * p.consensus_duration
    else p.consensus_duration

-- What a round of `UpdateMetadata` meets: the answers of the chain, the random factor
-- `(1 - rand.Float64()*subscribeDurationRandomFactor)` at the two waits, and whether the exit is closed
-- during one of them.
pub record Round : Type 0 where
  pub get_subscription : Option Subscription
  pub get_height : Option ℕ
  pub balance : Option ℤ
  pub shorten : ℕ → ℕ
  pub shorten_next : ℕ → ℕ
  pub closed_first : Bool
  pub closed_next : Bool

-- the wait for the end of a subscription whose metadata is up to date
unfoldable pub expiry_wait : Publication → (ℕ → ℕ) → ℕ → ℕ → ℕ
expiry_wait p shorten expires_at height =
    if ltb_ℤ (sub_ℕ expires_at height) (pos 3)
    then 0
    else shorten ((expires_at - height) * p.consensus_duration)

-- the first `nextSub` of a round
unfoldable pub first_wait : Publication → Round → ℕ
unfolding expiry_wait
first_wait p r = elim r.get_subscription [
  | none ↦ 0
  | some sub ↦
      if is_empty sub.meta && sub.expires_at == 0
      then 0
      else if not (text_eq sub.meta p.metadata_raw)
      then 0
      else elim r.get_height [
        | none ↦ 0
        | some height ↦ expiry_wait p r.shorten sub.expires_at height
      ]
]

unfoldable pub cap_fee : ℤ → Option ℤ → ℤ
cap_fee fee none = fee
cap_fee fee (some balance) = if ltb_ℤ balance fee then balance else fee

-- the fee of a subscription
unfoldable pub sub_fee : ℤ → Option ℤ → ℤ
unfolding cap_fee
sub_fee fee balance = if ltb_ℤ (pos 0) fee then cap_fee fee balance else fee

-- the request that `UpdateMetadata` puts into the queue
unfoldable pub publish_request : Publication → Round → SubscribeData
unfolding sub_fee
publish_request p r = record {
  identifier = [];
  topic = p.topic;
  duration = p.subscription_duration;
  meta = p.metadata_raw;
  config = record { fee = sub_fee p.subscription_fee r.balance; nonce = none };
  replace_tx_pool = p.replace_tx_pool;
}

-- the wait after a request
unfoldable pub next_wait : Publication → Round → ℕ
next_wait p r =
    let interval = r.shorten_next (sub_interval p) in
    if ltb p.max_check_subscribe_interval interval then p.max_check_subscribe_interval else interval

-- `UpdateMetadata` over some rounds: the requests with their times, from a time on
unfoldable pub update_metadata : Publication → ℕ → List Round → List (ℕ × SubscribeData)
unfolding first_wait
update_metadata p now [] = []
update_metadata p now (r ∷ rs) =
    let at_time = now + first_wait p r in
    let rest = update_metadata p (at_time + next_wait p r) rs in
    if r.closed_first
    then []
    else (at_time, publish_request p r) ∷ (if r.closed_next then [] else rest)
