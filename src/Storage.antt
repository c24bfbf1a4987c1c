-- ===== src/Storage.antt =====
-- The measurement store: favorite nodes and avoided subnets (storage/storage.go,
-- storage/measure.go). A `Storage` is its map `data`, since its methods only lock it and read or
-- write one entry. `float32` is the parameter `FloatOps`: no code here computes with floats, it
-- only compares them.

pub mod Favorite
pub mod Avoid
pub mod File
use tuna.Common.Dict
use tuna.Common.Dict.{Dict}
use tuna.Common.Int.{ℤ, pos, negsuc, add64, ltb_ℤ, eqb_ℤ}
use tuna.Common.{
  ℕ, zero, suc, ◌+◌, ◌-◌, ◌*◌, ◌/◌, ◌%◌, ◌^◌, ◌≤◌, ◌<◌, ◌≡◌, refl, sym, ap, ◌∙◌, subst, ◌≢◌, ◌↔◌,
  ◌⊎◌, inl, inr, Bool, true, false, not, ◌&&◌, ◌||◌, Option, none, some, List, [], ◌∷◌, ◌++◌,
  append_assoc, append-nil, arith, ltb, leb, ◌==◌, if◌then◌else◌, ltb→lt, lt→ltb, leb→le, le→leb,
  ==_iff, tests, Bool-cases, Option-cases, length, get_elem?, take, drop, length-append,
  length-take-le, take-length-append, drop-length-append, get_elem?-some, get_elem?-none, All,
  All-append, All-take, Any, Text, codes, is_empty, text_eq, to_lower, text_eq_iff, text_eq_refl,
}

abbrev pub max_favorite_length : ℕ
max_favorite_length = 8

abbrev pub mask_size : ℕ
mask_size = 16

-- in seconds
abbrev pub favorite_expired : ℤ
favorite_expired = pos (365 * 24 * 3600)

abbrev pub avoid_expired : ℤ
avoid_expired = pos (7 * 24 * 3600)

abbrev pub avoid_cidr_min_ip : ℕ
avoid_cidr_min_ip = 3

-- `float32` with its comparisons
pub record FloatOps : Type 1 where
  pub Float : Type 0
  pub zero_f : Float
  pub lt : Float → Float → Bool
  pub eq : Float → Float → Bool

pub record FavoriteNode (F : Type 0) : Type 0 where
  pub ip : Text
  pub address : Text
  pub metadata : Text
  pub delay : F
  pub min_bandwidth : F
  pub max_bandwidth : F
  pub expires_at : ℤ

pub record AvoidNode : Type 0 where
  pub ip : Text
  pub mask_size : ℤ
  pub address : Text
  pub expires_at : ℤ

-- the second loop of `AddFavoriteNode`: the key of the first entry that expires earliest
delete_key_loop : {F : Type 0} → Dict (FavoriteNode F) → ℤ → Text → Text
delete_key_loop [] min_expire delete_key = delete_key
delete_key_loop ((k, item) ∷ rest) min_expire delete_key =
    delete_key_loop rest (if ltb_ℤ item.expires_at min_expire then item.expires_at else min_expire)
      (if ltb_ℤ item.expires_at min_expire then k else delete_key)

-- `val.ExpiresAt` set to its default
stamp_favorite : {F : Type 0} → ℤ → FavoriteNode F → FavoriteNode F
stamp_favorite now val =
    if eqb_ℤ val.expires_at (pos 0)
    then record val { expires_at = add64 now favorite_expired }
    else val

module _ (ops : FloatOps) where
  open ops use {Float, zero_f, lt, eq}

  -- the first loop of `AddFavoriteNode`: the least bandwidth, where 0 stands for none yet
  unfoldable pub min_bandwidth_loop : Dict (FavoriteNode Float) → Float → Float
  min_bandwidth_loop [] least = least
  min_bandwidth_loop ((k, item) ∷ rest) least =
      min_bandwidth_loop rest
        (if lt item.min_bandwidth least || eq least zero_f then item.min_bandwidth else least)

  -- `MeasureStorage.AddFavoriteNode`: whether the node was added, and the new map. `now` is
  -- `time.Now().Unix()`.
  unfoldable pub add_favorite_node :
      ℤ → Text → FavoriteNode Float → Dict (FavoriteNode Float) → Bool × Dict (FavoriteNode Float)
  unfolding min_bandwidth_loop delete_key_loop stamp_favorite
  add_favorite_node now key val favorites =
      let val' = stamp_favorite now val in
      if leb max_favorite_length (length favorites)
      then (if lt (min_bandwidth_loop favorites zero_f) val'.min_bandwidth
          then (
            true,
            Dict.insert key val'
                (Dict.remove (delete_key_loop favorites (pos (2 ^ 31 - 1)) []) favorites),
          )
          else (false, favorites))
      else (true, Dict.insert key val' favorites)

-- the loop of `ClearFavoriteExpired` over a copy of the map
clear_favorite_loop :
    {F : Type 0} → ℤ → Dict (FavoriteNode F) → Dict (FavoriteNode F) → Dict (FavoriteNode F)
clear_favorite_loop now [] favorites = favorites
clear_favorite_loop now ((k, v) ∷ rest) favorites =
    clear_favorite_loop now rest
      (if ltb_ℤ v.expires_at now then Dict.remove k favorites else favorites)

unfoldable pub clear_favorite_expired :
    {F : Type 0} → ℤ → Dict (FavoriteNode F) → Dict (FavoriteNode F)
unfolding clear_favorite_loop
clear_favorite_expired now favorites = clear_favorite_loop now favorites favorites
