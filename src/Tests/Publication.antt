-- ===== src/Tests/Publication.antt =====
-- The publication of a service on concrete answers of the chain.
use tuna.Common.Int.{pos}
use tuna.Publish.{
  SubscribeData, SubscribeClient, attempt, prepare, with_nonce, handle_subscription,
  add_to_subscribe_queue, max_retry, Publication, Round, first_wait, next_wait, sub_interval,
  publish_request, update_metadata, expiry_wait,
}
use tuna.Publish.Queue.{Accepts, handle_subscription-Accepts}
use tuna.Common.{
  ℕ, ◌+◌, ◌-◌, ◌/◌, ◌≤◌, ◌<◌, ◌≡◌, refl, ◌↔◌, true, false, none, some, List, [], ◌∷◌, ◌==◌,
  if◌then◌else◌, length, Text, codes, text_eq,
}

abbrev data_of : Text → SubscribeData
data_of topic = record {
  identifier = [];
  topic = topic;
  duration = 100;
  meta = codes "meta";
  config = record { fee = pos 10; nonce = none };
  replace_tx_pool = true;
}

-- the first nonce is refused, the second does not come, and the third is taken
abbrev third : SubscribeClient
third = record { get_nonce = λ i. if i == 1 then none else some (i + 5); subscribe = λ i d. i == 2 }

third_time : handle_subscription third (data_of (codes "a")) ≡ record {
  sent = with_nonce (data_of (codes "a")) 5 ∷ with_nonce (data_of (codes "a")) 7 ∷ [];
  success = true;
}
unfolding handle_subscription attempt prepare with_nonce
third_time = refl

handle_subscription-Accepts_example :
    (length (handle_subscription third (data_of (codes "a"))).sent ≤ max_retry)
    × (((handle_subscription third (data_of (codes "a"))).success ≡ true)
        ↔ ((i : ℕ) × (i < max_retry) × Accepts third (data_of (codes "a")) i))
handle_subscription-Accepts_example = handle_subscription-Accepts third (data_of (codes "a"))

queue_has_room :
    add_to_subscribe_queue (data_of (codes "b")) (data_of (codes "a") ∷ [])
    ≡ data_of (codes "a") ∷ data_of (codes "b") ∷ []
unfolding add_to_subscribe_queue
queue_has_room = refl

abbrev service : Publication
service = record {
  topic = codes "tuna_v1.http";
  metadata_raw = codes "new";
  subscription_duration = 100;
  subscription_fee = pos 50;
  replace_tx_pool = false;
  consensus_duration = 20;
  max_check_subscribe_interval = 3600;
}

abbrev round_of : Text → Round
round_of meta = record {
  get_subscription = some (record { meta = meta; expires_at = 110 });
  get_height = some 100;
  balance = some (pos 30);
  shorten = λ d. d - d / 20;
  shorten_next = λ d. d;
  closed_first = false;
  closed_next = false;
}

-- outdated metadata is replaced at once, and the subscription is renewed before it ends
abbrev rounds : List Round
rounds = round_of (codes "old") ∷ round_of (codes "new") ∷ []

rounds-requested :
    update_metadata service 0 rounds
    ≡ (0, publish_request service (round_of (codes "old")))
      ∷ (1940 + 190, publish_request service (round_of (codes "new")))
      ∷ []
unfolding update_metadata first_wait next_wait sub_interval expiry_wait text_eq
rounds-requested = refl
