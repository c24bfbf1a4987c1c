-- ===== src/Nodes.antt =====
-- Choosing a node to connect to (tuna.go, types/node.go): subscribers, the filters, the measurements.
-- What the network answers is an argument. `float32` is the interface `FloatOps`, `sort.Sort` the
-- interface `Sorter`, since it leaves the order of equals open.
pub mod Filtered
pub mod Avoided
pub mod Top
pub mod Subscribers
pub mod Bandwidth
use mathlib.Core.Option
use tuna.Common.Dict.{Dict, lookup}
use tuna.Common.Int.{ℤ, ltb_ℤ}
use tuna.Net.{Net}
use tuna.Wire.{ServiceMetadata}
use tuna.Payment.{parse_price}
use tuna.Storage.{FloatOps}
use tuna.Filter.{NknClient, NknFilter, is_allow}
use tuna.Geo.{Location, IpFilter}
use tuna.Geo.Provider.{GeoProvider, allow_ip}
use tuna.Common.{
  ℕ, zero, suc, ◌+◌, ◌-◌, ◌*◌, ◌/◌, ◌%◌, ◌^◌, ◌≤◌, ◌<◌, ◌≡◌, refl, sym, ap, ◌∙◌, subst, ◌≢◌, ◌↔◌,
  ◌⊎◌, inl, inr, Bool, true, false, not, ◌&&◌, ◌||◌, Option, none, some, List, [], ◌∷◌, ◌++◌,
  append_assoc, append-nil, arith, ltb, leb, ◌==◌, if◌then◌else◌, ltb→lt, lt→ltb, leb→le, le→leb,
  ==_iff, tests, Bool-cases, Option-cases, if_ind, option_ind, ◌>>=◌, >>=-eq-some, length,
  get_elem?, take, drop, length-append, length-take-le, take-length-append, drop-length-append,
  get_elem?-some, get_elem?-none, All, All-append, All-take, Any, Text, codes, is_empty, text_eq,
  to_lower, text_eq_iff, text_eq_refl, is_empty→nil,
}

pub record Node (F : Type 0) : Type 0 where
  pub delay : F
  pub bandwidth : F
  pub metadata : ServiceMetadata
  pub address : Text
  pub metadata_raw : Text

-- `SortByDelay.Less` and `SortByBandwidth.Less`
abbrev pub less_delay : (ops : FloatOps) → Node ops.Float → Node ops.Float → Bool
less_delay ops a b = ops.lt a.delay b.delay

abbrev pub less_bandwidth : (ops : FloatOps) → Node ops.Float → Node ops.Float → Bool
less_bandwidth ops a b = ops.lt b.bandwidth a.bandwidth

-- What `filterSubscribers` reads of its `Common` and of the packages that it calls.
pub record FilterEnv (net : Net) (F : Type 0) : Type 0 where
  pub zero_f : F
  pub to_fixed64 : Text → Option ℤ
  -- `ReadMetadata`
  pub read_metadata : Text → Option ServiceMetadata
  pub max_price : Text
  pub nkn_filter : Option NknFilter
  pub ip_filter : Option (IpFilter net)
  pub providers : List (GeoProvider (Location net))
  -- `GetAvoidCIDR`, if there is a measurement store
  pub avoid : List net.IPNet

-- The inner loop over the avoided subnets: the lines that it logs. Its `continue` goes on with the
-- next subnet.
unfoldable pub avoid_log : (net : Net) → List net.IPNet → Text → List Text
avoid_log net [] ip = []
avoid_log net (n ∷ ns) ip =
    let rest = avoid_log net ns ip in
    if net.contains n (net.parse_ip ip) then net.show_net n ∷ rest else rest

-- whether a price is above its limit, in one direction or the other
too_expensive : ℤ × ℤ → ℤ × ℤ → Bool
too_expensive (p, q) (max_p, max_q) = ltb_ℤ max_p p || ltb_ℤ max_q q

prepend : {A : Type 0} → Option A → List A → List A
prepend none ns = ns
prepend (some n) ns = n ∷ ns

module _ (net : Net) {F : Type 0} where
  new_node : FilterEnv net F → Text → Text → ServiceMetadata → Node F
  new_node env subscriber raw metadata = record {
    delay = env.zero_f;
    bandwidth = env.zero_f;
    metadata = metadata;
    address = subscriber;
    metadata_raw = raw;
  }

  -- What the loop's body makes of a subscriber: a node, or nothing; and what it logs of avoided
  -- subnets. `none` is a panic.
  unfoldable pub consider :
      FilterEnv net F → ℤ × ℤ → Dict Text → Text → Option (Option (Node F) × List Text)
  unfolding too_expensive new_node
  consider env max_prices subscriber_raw subscriber =
      let raw = Option.get_or (lookup subscriber subscriber_raw) [] in
      elim (env.read_metadata raw) [
        | none ↦ some (none, [])
        | some metadata ↦ elim (parse_price env.to_fixed64 metadata.price) [
          | none ↦ some (none, [])
          | some prices ↦
              if too_expensive prices max_prices
              then some (none, [])
              else if not
                  (is_allow env.nkn_filter (some (record { address = subscriber; metadata = [] })))
              then some (none, [])
              else elim (allow_ip net env.ip_filter env.providers metadata.ip) [
                | none ↦ none
                | some res ↦
                    if not res
                    then some (none, [])
                    else some (
                      some (new_node env subscriber raw metadata),
                      avoid_log net env.avoid metadata.ip,
                    )
              ]
        ]
      ]

  unfoldable pub filter_loop :
      FilterEnv net F → ℤ × ℤ → Dict Text → List Text → Option (List (Node F) × List Text)
  unfolding prepend
  filter_loop env max_prices subscriber_raw [] = some ([], [])
  filter_loop env max_prices subscriber_raw (subscriber ∷ rest) = do
    (node, log) ← consider env max_prices subscriber_raw subscriber
    (nodes, logs) ← filter_loop env max_prices subscriber_raw rest
    some (prepend node nodes, log ++ logs)

  -- `filterSubscribers`: the nodes, and the log of avoided subnets. `none` ends the program.
  unfoldable pub filter_subscribers :
      FilterEnv net F → List Text → Dict Text → Option (List (Node F) × List Text)
  filter_subscribers env all_subscribers subscriber_raw = do
    max_prices ← parse_price env.to_fixed64 env.max_price
    filter_loop env max_prices subscriber_raw all_subscribers

-- a strict weak order, as `sort.Interface` asks for
pub record IsWeakOrder {A : Type 0} (less : A → A → Bool) : Type 0 where
  pub asym : (a b : A) → less a b ≡ true → less b a ≡ false
  pub cotrans : (a b c : A) → less a c ≡ true → (less a b ≡ true) ⊎ (less b c ≡ true)

pub weak_delay : (ops : FloatOps) → IsWeakOrder ops.lt → IsWeakOrder (less_delay ops)
weak_delay ops weak = record {
  asym = λ a b. weak.asym a.delay b.delay;
  cotrans = λ a b c. weak.cotrans a.delay b.delay c.delay;
}

swapped : {P Q : Type 0} → P ⊎ Q → Q ⊎ P
swapped (inl p) = inr p
swapped (inr q) = inl q

pub weak_bandwidth : (ops : FloatOps) → IsWeakOrder ops.lt → IsWeakOrder (less_bandwidth ops)
weak_bandwidth ops weak = record {
  asym = λ a b. weak.asym b.bandwidth a.bandwidth;
  cotrans = λ a b c h. swapped (weak.cotrans c.bandwidth b.bandwidth a.bandwidth h);
}

-- `sort.Sort` with a `Less`: the same elements, none before one that is less.
pub record Sorter (A : Type 0) : Type 1 where
  pub sort : (A → A → Bool) → List A → List A
  pub sort-Any : (less : A → A → Bool) (l : List A) (P : A → Type 0) → Any P (sort less l) ↔ Any P l
  pub length-sort : (less : A → A → Bool) (l : List A) → length (sort less l) ≡ length l
  pub sort-ordered :
      (less : A → A → Bool) (x y : A) (before after : List A) (l : List A)
      → IsWeakOrder less
      → sort less l ≡ before ++ x ∷ after
      → Any (λ z. z ≡ y) after
      → less y x ≡ false

-- `measureDelay`: what the dials take, an error being `none`, and the order in which the workers
-- append what they measured.
unfoldable pub measured : {F : Type 0} → (Node F → Option F) → List (Node F) → List (Node F)
measured dial [] = []
measured dial (n ∷ ns) =
    let rest = measured dial ns in
    elim (dial n) [ none ↦ rest | some d ↦ record n { delay = d } ∷ rest ]

unfoldable pub measure_delay :
    (ops : FloatOps)
    → Sorter (Node ops.Float)
    → (Node ops.Float → Option ops.Float)
    → (List (Node ops.Float) → List (Node ops.Float))
    → ℕ
    → List (Node ops.Float)
    → List (Node ops.Float)
measure_delay ops sorter dial arrival num_results nodes =
    take num_results (sorter.sort (less_delay ops) (arrival (measured dial nodes)))

abbrev pub measure_delay_top_delay_count : ℕ
measure_delay_top_delay_count = 32

-- `GetTopPerformanceNodes` from the filtered subscribers on; `measure_bandwidth` is the measurement
-- of `measureBandwidth`, and `sort_measured` the caller's `sortMeasuredNodes`, if there is one.
unfoldable pub top_nodes :
    (ops : FloatOps)
    → Option (Node ops.Float)
    → (ℕ → List (Node ops.Float) → List (Node ops.Float))
    → (List (Node ops.Float) → List (Node ops.Float))
    → (List (Node ops.Float) → List (Node ops.Float))
    → Bool
    → ℕ
    → List (Node ops.Float)
    → List (Node ops.Float)
top_nodes ops (some preset) delay_top bandwidth_top sort_measured measure_bandwidth n filter_subs =
    preset ∷ []
top_nodes ops none delay_top bandwidth_top sort_measured measure_bandwidth n [] = []
top_nodes ops none delay_top bandwidth_top sort_measured measure_bandwidth n (s ∷ []) =
    sort_measured (s ∷ [])
top_nodes ops none delay_top bandwidth_top sort_measured measure_bandwidth n (s ∷ s' ∷ subs) =
    let delay_measured = delay_top measure_delay_top_delay_count (s ∷ s' ∷ subs) in
    sort_measured
      (if measure_bandwidth then bandwidth_top delay_measured else take n delay_measured)
