-- ===== src/Storage/Favorite.antt =====
-- `AddFavoriteNode` and `ClearFavoriteExpired` (storage/measure.go): the bound on the number of
-- favorites, what a replacement costs, and what is left after the expired ones are dropped.
use tuna.Common.Dict.{
  Dict, length-insert-le, length-remove-lt, lookup-remove, lookup, insert, remove,
}
use tuna.Common.Int.{ℤ, pos, ltb_ℤ}
use tuna.Storage.{
  FloatOps, FavoriteNode, max_favorite_length, add_favorite_node, min_bandwidth_loop,
  delete_key_loop, stamp_favorite, clear_favorite_expired, clear_favorite_loop,
}
use tuna.Common.{
  ◌+◌, ◌-◌, ◌^◌, ◌≤◌, ◌≡◌, refl, ◌∙◌, ◌⊎◌, inl, inr, Bool, true, false, ◌&&◌, ◌||◌, Option, none,
  some, [], ◌∷◌, arith, leb, if◌then◌else◌, tests, Bool-cases, length, Text, text_eq, text_eq_iff,
}

abbrev int32_max : ℤ
int32_max = pos (2 ^ 31 - 1)

-- some favorite expires before the last second of `math.MaxInt32`
abbrev pub SomeExpires : {F : Type 0} → ℤ → Dict (FavoriteNode F) → Type 0
SomeExpires limit [] = ⊥
SomeExpires limit ((k, v) ∷ m) = (ltb_ℤ v.expires_at limit ≡ true) ⊎ SomeExpires limit m

-- no favorite does
abbrev pub NoneExpires : {F : Type 0} → ℤ → Dict (FavoriteNode F) → Type 0
NoneExpires limit [] = Unit
NoneExpires limit ((k, v) ∷ m) = (ltb_ℤ v.expires_at limit ≡ false) × NoneExpires limit m

module _ {V : Type 0} where
  abbrev HasKey : Text → Dict V → Type 0
  HasKey k [] = ⊥
  HasKey k ((j, v) ∷ m) = (j ≡ k) ⊎ HasKey k m

  HasKey→lookup : (k : Text) (m : Dict V) → HasKey k m → (v : V) × (lookup k m ≡ some v)
  unfolding lookup
  HasKey→lookup k [] h = absurd h
  HasKey→lookup k ((j, v) ∷ m) (inl e) = (v, ground (arith, text_eq_iff j k))
  HasKey→lookup k ((j, v) ∷ m) (inr h) = elim (Bool-cases (text_eq j k)) [
    | inl e ↦ (v, rw e)
    | inr e ↦ let (w, found) = HasKey→lookup k m h in (w, rw e found)
  ]

  -- no two entries have the same key, as in every Go map
  abbrev pub Distinct : Dict V → Type 0
  Distinct [] = Unit
  Distinct ((k, v) ∷ m) = (lookup k m ≡ none) × Distinct m

  pub remove_absent : (k : Text) (m : Dict V) → lookup k m ≡ none → remove k m ≡ m
  unfolding lookup remove
  remove_absent k [] h = refl
  remove_absent k ((j, w) ∷ m) h = elim (Bool-cases (text_eq j k)) [
    | inl e ↦ cc (rw e at h)
    | inr e ↦ rw (e, remove_absent k m (rw e at h))
  ]

  length-insert_new :
      (k : Text) (v : V) (m : Dict V) → lookup k m ≡ none → length (insert k v m) ≡ length m + 1
  unfolding lookup insert
  length-insert_new k v [] h = omega arith
  length-insert_new k v ((j, w) ∷ m) h = ground (arith, length-insert_new k v m)

module _ {F : Type 0} where
  delete_key_loop-from :
      (m : Dict (FavoriteNode F)) (limit : ℤ) (key picked : Text)
      → delete_key_loop m limit key ≡ picked
      → (key ≡ picked) ⊎ HasKey picked m
  unfolding delete_key_loop
  delete_key_loop-from [] limit key picked p = inl p
  delete_key_loop-from ((k, v) ∷ m) limit key picked p =
      elim (Bool-cases (ltb_ℤ v.expires_at limit)) [
        | inl e ↦ inr (delete_key_loop-from m v.expires_at k picked (rw e at p))
        | inr e ↦ elim (delete_key_loop-from m limit key picked (rw e at p)) [
          | inl q ↦ inl q
          | inr q ↦ inr (inr q)
        ]
      ]

  -- The key that the loop picks is that of an entry, if an entry expires before the limit.
  delete_key_loop-HasKey :
      (m : Dict (FavoriteNode F)) (limit : ℤ) (key picked : Text)
      → SomeExpires limit m
      → delete_key_loop m limit key ≡ picked
      → HasKey picked m
  unfolding delete_key_loop
  delete_key_loop-HasKey [] limit key picked h p = absurd h
  delete_key_loop-HasKey ((k, v) ∷ m) limit key picked h p =
      elim (Bool-cases (ltb_ℤ v.expires_at limit)) [
        | inl e ↦ delete_key_loop-from m v.expires_at k picked (rw e at p)
        | inr e ↦ elim h [
          | inl q ↦ cc
          | inr q ↦ inr (delete_key_loop-HasKey m limit key picked q (rw e at p))
        ]
      ]

  -- Otherwise it stays what it was.
  delete_key_loop_none :
      (m : Dict (FavoriteNode F)) (limit : ℤ) (key : Text)
      → NoneExpires limit m
      → delete_key_loop m limit key ≡ key
  unfolding delete_key_loop
  delete_key_loop_none [] limit key h = refl
  delete_key_loop_none ((k, v) ∷ m) limit key (e, h) = rw e (delete_key_loop_none m limit key h)

stamp-min_bandwidth :
    {F : Type 0} (now : ℤ) (val : FavoriteNode F)
    → (stamp_favorite now val).min_bandwidth ≡ val.min_bandwidth
unfolding stamp_favorite
stamp-min_bandwidth now val = ground arith

module _ (ops : FloatOps) where
  open ops use {Float, zero_f, lt, eq}

  -- If the favorites are at most eight, and one of them expires before 2 ^ 31 - 1 when they are
  -- exactly eight, then after `AddFavoriteNode` they are at most eight.
  pub add_favorite_node-bounded :
      (now : ℤ) (key : Text) (val : FavoriteNode Float) (m : Dict (FavoriteNode Float))
      → length m ≤ max_favorite_length
      → (length m ≡ max_favorite_length → SomeExpires int32_max m)
      → length (add_favorite_node ops now key val m).1 ≤ max_favorite_length
  unfolding add_favorite_node
  add_favorite_node-bounded now key val m small expires =
      elim (Bool-cases (leb max_favorite_length (length m))) [
        | inl full ↦
            let some_expires = expires (omega tests) in
            let dk : Text = delete_key_loop m int32_max [] in
            let (v, found) =
              HasKey→lookup dk m (delete_key_loop-HasKey m int32_max [] dk some_expires refl) in
            ground (
              arith,
              small,
              length-remove-lt dk m v found,
              length-insert-le key (stamp_favorite now val) (remove dk m),
            )
        | inr room ↦ ground (arith, length-insert-le key (stamp_favorite now val) m)
      ]

  -- Where none of eight favorites expires before 2 ^ 31 - 1, a faster node under a new key is added
  -- and nothing is dropped: there are nine.
  pub add_favorite_node_grows :
      (now : ℤ) (key : Text) (val : FavoriteNode Float) (m : Dict (FavoriteNode Float))
      → length m ≡ max_favorite_length
      → NoneExpires int32_max m
      → lookup [] m ≡ none
      → lookup key m ≡ none
      → lt (min_bandwidth_loop ops m zero_f) val.min_bandwidth ≡ true
      → length (add_favorite_node ops now key val m).1 ≡ max_favorite_length + 1
  unfolding add_favorite_node
  add_favorite_node_grows now key val m full none_expires no_empty new faster =
      rw (delete_key_loop_none m int32_max [] none_expires, remove_absent [] m no_empty)
        (ground (
          arith,
          faster,
          stamp-min_bandwidth now val,
          length-insert_new key (stamp_favorite now val) m new,
        ))

-- the entries that are not kept out by `ClearFavoriteExpired` at the time `now`
abbrev pub unexpired : {F : Type 0} → ℤ → Option (FavoriteNode F) → Option (FavoriteNode F)
unexpired now none = none
unexpired now (some v) = if ltb_ℤ v.expires_at now then none else some v

module _ {F : Type 0} (now : ℤ) where
  -- some entry under the key has expired
  abbrev doomed : Text → Dict (FavoriteNode F) → Bool
  doomed k [] = false
  doomed k ((j, v) ∷ m) = (text_eq j k && ltb_ℤ v.expires_at now) || doomed k m

  -- The loop deletes the keys of the expired entries of the copy, and no other.
  lookup-clear_loop :
      (seen m : Dict (FavoriteNode F)) (k : Text)
      → lookup k (clear_favorite_loop now seen m) ≡ (if doomed k seen then none else lookup k m)
  unfolding clear_favorite_loop
  lookup-clear_loop [] m k = refl
  lookup-clear_loop ((j, v) ∷ seen) m k = elim (Bool-cases (ltb_ℤ v.expires_at now)) [
    | inl e ↦ ground (arith, e, lookup-clear_loop seen (remove j m) k, lookup-remove j k m)
    | inr e ↦ ground (arith, e, lookup-clear_loop seen m k)
  ]

  doomed-none : (m : Dict (FavoriteNode F)) (k : Text) → lookup k m ≡ none → doomed k m ≡ false
  unfolding lookup
  doomed-none [] k h = refl
  doomed-none ((j, v) ∷ m) k h = ground (arith, doomed-none m k)

  doomed-lookup :
      (m : Dict (FavoriteNode F)) (k : Text)
      → Distinct m
      → (if doomed k m then none else lookup k m) ≡ unexpired now (lookup k m)
  unfolding lookup
  doomed-lookup [] k d = refl
  doomed-lookup ((j, v) ∷ m) k (new, d) =
      ground (arith, doomed-none m k, doomed-lookup m k d, text_eq_iff j k)

  -- Of a map with distinct keys, what is left under a key is what was there and has not expired.
  pub lookup-clear_favorite_expired :
      (m : Dict (FavoriteNode F)) (k : Text)
      → Distinct m
      → lookup k (clear_favorite_expired now m) ≡ unexpired now (lookup k m)
  unfolding clear_favorite_expired
  lookup-clear_favorite_expired m k d = lookup-clear_loop m m k ∙ doomed-lookup m k d
