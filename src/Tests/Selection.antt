-- ===== src/Tests/Selection.antt =====
-- The choice of nodes on a concrete directory: two exits, one of them too expensive.
use tuna.Common.Dict.{Dict, lookup, insert}
use tuna.Common.Int.{ℤ, pos}
use tuna.Net.{split, trim}
use tuna.Net.Ipv4.{ipv4}
use tuna.Wire.{ServiceMetadata}
use tuna.Payment.{parse_price}
use tuna.Filter.{is_allow}
use tuna.Geo.Provider.{allow_ip}
use tuna.Storage.{FloatOps}
use tuna.Nodes.{
  Node, FilterEnv, filter_subscribers, filter_loop, consider, avoid_log, measure_delay, IsWeakOrder,
  less_bandwidth, less_delay,
}
use tuna.Nodes.Filtered.{IsAcceptable, filter_subscribers-IsAcceptable, filter_subscribers_complete}
use tuna.Nodes.Avoided.{filter_subscribers-avoid, without_log, with_avoid}
use tuna.Nodes.Top.{measure_delay-fastest}
use tuna.Nodes.Subscribers.{
  all_prefix, Directory, nkn_filter_context, nkn_filter_context-Covered, Covered,
}
use tuna.Nodes.Bandwidth.{
  JobEnd, JobEvent, Measuring, measure_bandwidth, succeeded, measure_bandwidth-succeeded,
}
use tuna.Tests.InsertionSort.{insertion_sort}
use tuna.Common.{
  ℕ, ◌-◌, ◌*◌, ◌/◌, ◌^◌, ◌≤◌, ◌≡◌, refl, ◌↔◌, ◌⊎◌, inl, inr, true, false, ◌&&◌, Option, none, some,
  List, [], ◌∷◌, ◌++◌, arith, ltb, leb, ◌==◌, if◌then◌else◌, length, All, Any, Text, codes,
  is_empty, text_eq,
}

abbrev exit_metadata : Text → ServiceMetadata
exit_metadata price = record {
  ip = codes "10.1.2.3";
  tcp_port = 30020;
  udp_port = 30021;
  service_id = 0;
  service_tcp = 80 ∷ [];
  service_udp = [];
  price = price;
  beneficiary_addr = [];
}

-- prices of one digit
unfoldable one_digit : Text → Option ℤ
one_digit (c ∷ []) = if leb 48 c && leb c 57 then some (pos (c - 48)) else none
one_digit _ = none

-- metadata is published as its price
abbrev env : FilterEnv ipv4 ℕ
env = record {
  zero_f = 0;
  to_fixed64 = one_digit;
  read_metadata = λ s. if is_empty s then none else some (exit_metadata s);
  max_price = codes "3";
  nkn_filter = none;
  ip_filter = none;
  providers = [];
  avoid = [];
}

abbrev subscribers : List Text
subscribers = codes "cheap" ∷ codes "dear" ∷ []

abbrev published : Dict Text
published = (codes "cheap", codes "2") ∷ (codes "dear", codes "4") ∷ []

abbrev cheap_node : Node ℕ
cheap_node = record {
  delay = 0;
  bandwidth = 0;
  metadata = exit_metadata (codes "2");
  address = codes "cheap";
  metadata_raw = codes "2";
}

max_price-parsed : parse_price one_digit (codes "3") ≡ some (pos 3, pos 3)
unfolding parse_price one_digit split trim
max_price-parsed = refl

cheap_only : filter_subscribers ipv4 env subscribers published ≡ some (cheap_node ∷ [], [])
unfolding filter_subscribers filter_loop consider parse_price one_digit split trim lookup text_eq
    is_allow allow_ip avoid_log
cheap_only = refl

filter_subscribers-IsAcceptable_example :
    All (IsAcceptable ipv4 env (pos 3, pos 3) published) (cheap_node ∷ [])
filter_subscribers-IsAcceptable_example =
    filter_subscribers-IsAcceptable ipv4 env subscribers published (pos 3, pos 3) (cheap_node ∷ [])
      [] max_price-parsed cheap_only

filter_subscribers_complete_example : Any (λ k. k.address ≡ codes "cheap") (cheap_node ∷ [])
filter_subscribers_complete_example =
    filter_subscribers_complete ipv4 env subscribers published (pos 3, pos 3) (cheap_node ∷ []) []
      cheap_node max_price-parsed cheap_only filter_subscribers-IsAcceptable_example.0 (inl refl)

filter_subscribers-avoid_example :
    without_log
      (filter_subscribers ipv4 (with_avoid ipv4 env ((10 * 2 ^ 24, 8) ∷ [])) subscribers published)
    ≡ without_log (filter_subscribers ipv4 env subscribers published)
filter_subscribers-avoid_example =
    filter_subscribers-avoid ipv4 env subscribers published ((10 * 2 ^ 24, 8) ∷ [])

abbrev numbers : FloatOps
numbers = record { Float = ℕ; zero_f = 0; lt = ltb; eq = λ a b. a == b }

numbers-IsWeakOrder : IsWeakOrder ltb
numbers-IsWeakOrder = record { asym = λ a b h. ground arith; cotrans = λ a b c h. ground arith }

abbrev far_node : Node ℕ
far_node = record cheap_node { address = codes "far" }

abbrev dial : Node ℕ → Option ℕ
dial n = some (if text_eq n.address (codes "far") then 9 else 4)

cheap_dial : dial cheap_node ≡ some 4
unfolding text_eq
cheap_dial = refl

measure_delay-fastest_example :
    (length (
        measure_delay numbers
          (insertion_sort (Node ℕ))
          dial
          (λ l. l)
          1
          (far_node ∷ cheap_node ∷ []))
      ≤ 1)
    × (Any
          (λ m. m ≡ record cheap_node { delay = 4 })
          (measure_delay numbers
            (insertion_sort (Node ℕ))
            dial
            (λ l. l)
            1
            (far_node ∷ cheap_node ∷ []))
        ⊎ All
            (λ m. less_delay numbers (record cheap_node { delay = 4 }) m ≡ false)
            (measure_delay numbers
              (insertion_sort (Node ℕ))
              dial
              (λ l. l)
              1
              (far_node ∷ cheap_node ∷ [])))
measure_delay-fastest_example =
    measure_delay-fastest numbers (insertion_sort (Node ℕ)) dial (λ l. l) 1
      (far_node ∷ cheap_node ∷ []) cheap_node 4 numbers-IsWeakOrder (λ P l h. h) cheap_dial
      (inr (inl refl))

abbrev directory : Directory
directory = record {
  get_subscription = λ s. none;
  first_batch = some 2;
  count = λ p. some 2;
  page = λ p. some published;
  shuffle = λ l. l;
  too_many = λ c i. false;
  batch_size = 10;
}

nkn_filter_context_both :
    nkn_filter_context {F = ℕ} directory none [] ≡ some (subscribers, published)
unfolding nkn_filter_context lookup text_eq all_prefix insert
nkn_filter_context_both = refl

nkn_filter_context-Covered_example : Covered (subscribers, published)
nkn_filter_context-Covered_example =
    nkn_filter_context-Covered {F = ℕ} directory none [] subscribers published
      nkn_filter_context_both

abbrev idle : Measuring ℕ
idle = record { avoid = some []; favorites = some []; results = []; is_done = false }

abbrev job_ends : List (JobEvent ℕ)
job_ends =
    JobEvent.job far_node JobEnd.measurement_failed (pos 1)
    ∷ JobEvent.job cheap_node (JobEnd.bandwidths 5 6) (pos 2)
    ∷ []

abbrev bandwidth_run : List (Node ℕ) × Measuring ℕ
bandwidth_run =
    measure_bandwidth ipv4 numbers (insertion_sort (Node ℕ)) (λ m. none) (λ b. b / 1024) 8 job_ends
      idle

measure_bandwidth-succeeded_example :
    ((P : Node ℕ → Type 0) → Any P bandwidth_run.0 ↔ Any P (succeeded ipv4 numbers job_ends))
    × ((x y : Node ℕ) (before after : List (Node ℕ))
        → bandwidth_run.0 ≡ before ++ x ∷ after
        → Any (λ z. z ≡ y) after
        → less_bandwidth numbers y x ≡ false)
    × (idle.is_done ≡ true → bandwidth_run.1.avoid ≡ idle.avoid)
measure_bandwidth-succeeded_example =
    measure_bandwidth-succeeded ipv4 numbers (insertion_sort (Node ℕ)) (λ m. none) (λ b. b / 1024) 8
      job_ends idle numbers-IsWeakOrder refl
