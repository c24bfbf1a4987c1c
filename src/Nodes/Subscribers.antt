-- ===== src/Nodes/Subscribers.antt =====
-- `nknFilterContext` (tuna.go): the subscribers to choose from, with their metadata. The NKN client's
-- answers are arguments; an error is `none`.
use tuna.Common.Dict.{Dict, lookup, insert, lookup-insert}
use tuna.Filter.{NknClient, NknFilter}
use tuna.Storage.{FavoriteNode}
use tuna.Common.{
  ℕ, zero, suc, ◌+◌, ◌≡◌, refl, subst, inl, inr, Bool, not, ◌&&◌, Option, none, some, List, [], ◌∷◌,
  ◌++◌, arith, ltb, leb, ◌==◌, if◌then◌else◌, Bool-cases, if_ind, option_ind, ◌>>=◌, >>=-eq-some,
  length, All, All-append, Text, is_empty, text_eq, text_eq_refl,
}

abbrev pub max_rpc_requests : ℕ
max_rpc_requests = 8

-- What the client of the chain answers about the topic.
pub record Directory : Type 0 where
  -- `GetSubscriptionContext`, the metadata of an address
  pub get_subscription : Text → Option Text
  -- how many subscribers the first call of `GetSubscribersContext` brings
  pub first_batch : Option ℕ
  -- `GetSubscribersCountContext` for a prefix
  pub count : Text → Option ℕ
  -- `GetSubscribersContext` for a prefix, at the random offset
  pub page : Text → Option (Dict Text)
  -- the prefixes in the order that `rand.Shuffle` leaves
  pub shuffle : List Text → List Text
  -- whether the estimate of the remaining requests, from the subscribers so far and the index, is
  -- more than `maxRPCRequests`
  pub too_many : ℕ → ℕ → Bool
  pub batch_size : ℕ

-- the addresses and the map that the function returns
abbrev pub Found : Type 0
Found = List Text × Dict Text

-- the loop over the allow list
whitelist_loop : (Text → Option Text) → List NknClient → Found → Found
whitelist_loop get [] found = found
whitelist_loop get (f ∷ fs) (all, raw) =
    if not (is_empty f.metadata)
    then whitelist_loop get fs (all ++ f.address ∷ [], insert f.address f.metadata raw)
    else elim (get f.address) [
      | none ↦ whitelist_loop get fs (all, raw)
      | some meta ↦ whitelist_loop get fs (all ++ f.address ∷ [], insert f.address meta raw)
    ]

-- the loop over one page: a subscriber that is known keeps its metadata
merge_page : Dict Text → Dict Text → Dict Text
merge_page [] raw = raw
merge_page ((s, meta) ∷ rest) raw = elim (lookup s raw) [
  | none ↦ merge_page rest (insert s meta raw)
  | some known ↦ merge_page rest raw
]

fetch_page : Directory → Text → ℕ → Dict Text → Option (ℕ × Dict Text)
unfolding merge_page
fetch_page dir prefix count raw =
    if leb 1 count
    then (do subscribers ← dir.page prefix; some (count, merge_page subscribers raw))
    else some (count, raw)

-- one turn of the loop over the prefixes; `subscriberCount` is the size of the map
fetch_prefix : Directory → Text → Dict Text → Option (ℕ × Dict Text)
unfolding fetch_page
fetch_prefix dir prefix raw = do count ← dir.count prefix; fetch_page dir prefix count raw

-- the loop over the prefixes from index `i` on. When too many requests remain, the loop makes one
-- last turn, with the nil prefix.
prefix_loop : Directory → ℕ → List Text → Dict Text → Option (Dict Text)
unfolding fetch_prefix
prefix_loop dir i [] raw = some raw
prefix_loop dir i (prefix ∷ rest) raw = elim (fetch_prefix dir prefix raw) [
  | none ↦ none
  | some (count, raw') ↦
      let go_on = prefix_loop dir (i + 1) rest raw' in
      if leb 1 count && leb dir.batch_size (length raw')
      then some raw'
      else if ltb max_rpc_requests (1 + length rest) && dir.too_many (length raw') i
      then elim (fetch_prefix dir [] raw') [ none ↦ none | some (count', raw'') ↦ some raw'' ]
      else go_on
]

add_favorites : {F : Type 0} → List (FavoriteNode F) → Dict Text → Dict Text
add_favorites [] raw = raw
add_favorites (item ∷ items) raw = add_favorites items (insert item.address item.metadata raw)

keys : Dict Text → List Text
keys [] = []
keys ((k, v) ∷ m) = k ∷ keys m

one_byte : ℕ → List Text → List Text
one_byte zero out = out
one_byte (suc n) out = one_byte n ((n ∷ []) ∷ out)

unfoldable pub all_prefix : ℕ → ℕ → List Text
unfolding one_byte
all_prefix batch_size subscribers = if ltb subscribers batch_size then [] ∷ [] else one_byte 256 []

has_allowed : Option NknFilter → List NknClient
has_allowed none = []
has_allowed (some f) = f.allow

search_prefixes : Directory → ℕ → Option (Dict Text)
unfolding prefix_loop
search_prefixes dir subscribers =
    if subscribers == 0
    then none
    else prefix_loop dir 0 (dir.shuffle (all_prefix dir.batch_size subscribers)) []

-- the branch without an allow list
search_all : {F : Type 0} → Directory → List (FavoriteNode F) → Option Found
unfolding search_prefixes add_favorites keys
search_all dir favorites = do
  subscribers ← dir.first_batch
  raw ← search_prefixes dir subscribers
  some (keys (add_favorites favorites raw), add_favorites favorites raw)

-- the branch with one
search_allowed : Directory → List NknClient → Option Found
unfolding whitelist_loop
search_allowed dir allow =
    let found = whitelist_loop dir.get_subscription allow ([], []) in
    if is_empty found.0 then none else some found

-- `nknFilterContext`; `favorites` are those of the measurement store, if there is one
unfoldable pub nkn_filter_context :
    {F : Type 0} → Directory → Option NknFilter → List (FavoriteNode F) → Option Found
unfolding has_allowed search_all search_allowed
nkn_filter_context dir nkn_filter favorites =
    if is_empty (has_allowed nkn_filter)
    then search_all dir favorites
    else search_allowed dir (has_allowed nkn_filter)

-- every address has metadata
abbrev pub Covered : Found → Type 0
Covered (all, raw) = All (λ s. (meta : Text) × (lookup s raw ≡ some meta)) all

insert-Covered :
    (k v : Text) (raw : Dict Text) (all : List Text)
    → Covered (all, raw)
    → Covered (all, insert k v raw)
insert-Covered k v raw [] h = tt
insert-Covered k v raw (s ∷ all) ((meta, e), h) = elim (Bool-cases (text_eq k s)) [
  | inl t ↦ ((v, rw (lookup-insert k s v raw, t) refl), insert-Covered k v raw all h)
  | inr t ↦ ((meta, rw (lookup-insert k s v raw, t) e), insert-Covered k v raw all h)
]

add-Covered :
    (k v : Text) (raw : Dict Text) (all : List Text)
    → Covered (all, raw)
    → Covered (all ++ k ∷ [], insert k v raw)
add-Covered k v raw all h =
    All-append (λ s. (meta : Text) × (lookup s (insert k v raw) ≡ some meta)) all (k ∷ [])
      (insert-Covered k v raw all h) ((v, rw (lookup-insert k k v raw, text_eq_refl k) refl), tt)

whitelist_loop-Covered :
    (get : Text → Option Text) (fs : List NknClient) (all : List Text) (raw : Dict Text)
    → Covered (all, raw)
    → Covered (whitelist_loop get fs (all, raw))
unfolding whitelist_loop
whitelist_loop-Covered get [] all raw h = h
whitelist_loop-Covered get (f ∷ fs) all raw h =
    if_ind Covered (not (is_empty f.metadata))
      (λ _.
        whitelist_loop-Covered get fs (all ++ f.address ∷ []) (insert f.address f.metadata raw)
          (add-Covered f.address f.metadata raw all h))
      λ _.
        option_ind Covered (get f.address) (λ _. whitelist_loop-Covered get fs all raw h)
          λ meta _.
            whitelist_loop-Covered get fs (all ++ f.address ∷ []) (insert f.address meta raw)
              (add-Covered f.address meta raw all h)

cons-Covered :
    (k v : Text) (m : Dict Text) (all : List Text) → Covered (all, m) → Covered (all, (k, v) ∷ m)
unfolding lookup
cons-Covered k v m [] h = tt
cons-Covered k v m (s ∷ all) ((meta, e), h) = elim (Bool-cases (text_eq k s)) [
  | inl t ↦ ((v, rw t refl), cons-Covered k v m all h)
  | inr t ↦ ((meta, rw t e), cons-Covered k v m all h)
]

keys-Covered : (m : Dict Text) → Covered (keys m, m)
unfolding keys lookup
keys-Covered [] = tt
keys-Covered ((k, v) ∷ m) =
    ((v, rw (text_eq_refl k) refl), cons-Covered k v m (keys m) (keys-Covered m))

search_all-Covered :
    {F : Type 0} (dir : Directory) (favorites : List (FavoriteNode F)) (found : Found)
    → search_all dir favorites ≡ some found
    → Covered found
unfolding search_all
search_all-Covered dir favorites found h =
    let (subscribers, counted, h1) = >>=-eq-some dir.first_batch _ h in
    let (raw, searched, h2) = >>=-eq-some (search_prefixes dir subscribers) _ h1 in
    subst Covered (ground (arith, h2)) (keys-Covered (add_favorites favorites raw))

search_allowed-Covered :
    (dir : Directory) (allow : List NknClient) (found : Found)
    → search_allowed dir allow ≡ some found
    → Covered found
unfolding search_allowed
search_allowed-Covered dir allow found h =
    subst Covered (ground arith) (whitelist_loop-Covered dir.get_subscription allow [] [] tt)

-- Whether or not there is an allow list, every address that is returned has metadata in the map that
-- is returned with it.
pub nkn_filter_context-Covered :
    {F : Type 0} (dir : Directory) (nkn_filter : Option NknFilter)
    (favorites : List (FavoriteNode F)) (all : List Text) (raw : Dict Text)
    → nkn_filter_context dir nkn_filter favorites ≡ some (all, raw)
    → Covered (all, raw)
unfolding nkn_filter_context
nkn_filter_context-Covered dir nkn_filter favorites all raw h =
    elim (Bool-cases (is_empty (has_allowed nkn_filter))) [
      | inl e ↦ search_all-Covered dir favorites (all, raw) (rw e at h)
      | inr e ↦ search_allowed-Covered dir (has_allowed nkn_filter) (all, raw) (rw e at h)
    ]
