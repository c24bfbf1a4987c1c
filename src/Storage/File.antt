-- ===== src/Storage/File.antt =====
-- The files of a measurement store (storage/measure.go, util/util.go): `Load` and the saves. JSON is the
-- interface `Json`, and what the file system does with a write is an argument.
pub mod Saved
use tuna.Common.Int.{ℤ}
use tuna.Common.Dict.{Dict, lookup}
use tuna.Storage.{FavoriteNode, clear_favorite_expired}
use tuna.Storage.Favorite.{Distinct}
use tuna.Storage.Avoid.{AvoidNodes, clear_avoid_expired}
use tuna.Common.{
  ℕ, zero, suc, ◌+◌, ◌-◌, ◌*◌, ◌/◌, ◌%◌, ◌^◌, ◌≤◌, ◌<◌, ◌≡◌, refl, sym, ap, ◌∙◌, subst, ◌≢◌, ◌↔◌,
  ◌⊎◌, inl, inr, Bool, true, false, not, ◌&&◌, ◌||◌, Option, none, some, List, [], ◌∷◌, ◌++◌,
  append_assoc, append-nil, arith, ltb, leb, ◌==◌, if◌then◌else◌, ltb→lt, lt→ltb, leb→le, le→leb,
  ==_iff, tests, Bool-cases, Option-cases, if_ind, option_ind, ◌>>=◌, >>=-eq-some, length,
  get_elem?, take, drop, length-append, length-take-le, length-take, take-append-drop,
  take-length-append, drop-length-append, get_elem?-some, get_elem?-none, All, All-append, All-take,
  Any, Text, codes, is_empty, text_eq, to_lower, text_eq_iff, text_eq_refl, is_empty→nil,
}

-- `json.MarshalIndent`, and `json.Unmarshal` into an empty map: what it leaves in the map, and whether
-- it succeeds. An encoded map is decoded to the same map.
pub record Json (V : Type 0) : Type 0 where
  pub encode : Dict V → Text
  pub decode : Text → Dict V × Bool
  pub decode-encode :
      (m : Dict V)
      → Distinct m
      → ((decode (encode m)).1 ≡ true)
        × Distinct (decode (encode m)).0
        × ((k : Text) → lookup k (decode (encode m)).0 ≡ lookup k m)

-- what becomes of a write: `os.Create` fails, or the write after it, or none
pub data Written : Type 0 where
  written not_created cut_short : Written

-- `WriteJSON` on a file, and whether it succeeds
unfoldable pub write_json : Written → Text → Option Text → Option Text × Bool
write_json written text file = (some text, true)
write_json not_created text file = (file, false)
write_json cut_short text file = (some [], false)

-- `ReadJSON` of a file that exists: what is in the map, and whether it succeeds
unfoldable pub read_json : {V : Type 0} → Json V → Text → Dict V × Bool
read_json json text = json.decode text

-- `loadFavoriteData` and the reading part of `loadAvoidData`: a file that cannot be read is written
-- anew. The map unless there is an error, and the file.
unfoldable pub load_data :
    {V : Type 0} → Json V → Written → Option Text → Option (Dict V) × Option Text
unfolding read_json
load_data json w none = (some [], none)
load_data json w (some text) =
    let (data_read, ok) = read_json json text in
    let (file, rewritten) = write_json w (json.encode data_read) (some text) in
    if ok
    then (some data_read, some text)
    else if rewritten
    then (some data_read, file)
    else (none, file)

-- the two files, and the two maps
pub record Store (F : Type 0) : Type 0 where
  pub favorite_file : Option Text
  pub avoid_file : Option Text
  pub favorite_nodes : Dict (FavoriteNode F)
  pub avoid_nodes : Dict AvoidNodes

-- what becomes of the writes that `Load` may make
pub record LoadWrites : Type 0 where
  pub rewrite_favorite : Written
  pub rewrite_avoid : Written
  pub save_favorite : Written
  pub save_avoid : Written

module _ {F : Type 0} where
  -- `SaveFavoriteNodes`, `SaveAvoidNodes`: the store, and whether there is no error
  unfoldable pub save_favorite_nodes : Json (FavoriteNode F) → Written → Store F → Store F × Bool
  save_favorite_nodes json w s =
      let (file, ok) = write_json w (json.encode s.favorite_nodes) s.favorite_file in
      (record s { favorite_file = file }, ok)

  unfoldable pub save_avoid_nodes : Json AvoidNodes → Written → Store F → Store F × Bool
  save_avoid_nodes json w s =
      let (file, ok) = write_json w (json.encode s.avoid_nodes) s.avoid_file in
      (record s { avoid_file = file }, ok)

  -- `ClearFavoriteExpired`, `ClearAvoidExpired`, with their saves
  unfoldable pub clear_favorite : Json (FavoriteNode F) → Written → ℤ → Store F → Store F × Bool
  clear_favorite json w now s =
      save_favorite_nodes json w
        (record s { favorite_nodes = clear_favorite_expired now s.favorite_nodes })

  unfoldable pub clear_avoid : Json AvoidNodes → Written → ℤ → Store F → Store F × Bool
  clear_avoid json w now s =
      save_avoid_nodes json w (record s { avoid_nodes = clear_avoid_expired now s.avoid_nodes })

  -- `Load` once both files are read
  unfoldable pub clear_loaded :
      Json (FavoriteNode F) → Json AvoidNodes → LoadWrites → ℤ → Store F → Store F × Bool
  unfolding clear_favorite clear_avoid
  clear_loaded favorites avoids w now s =
      let (s', ok) = clear_favorite favorites w.save_favorite now s in
      if ok then clear_avoid avoids w.save_avoid now s' else (s', false)

  -- `Load` once the favorites are read
  unfoldable pub load_avoid :
      Json (FavoriteNode F) → Json AvoidNodes → LoadWrites → ℤ → Store F → Store F × Bool
  unfolding clear_loaded
  load_avoid favorites avoids w now s =
      let (avoid_data, file) = load_data avoids w.rewrite_avoid s.avoid_file in
      elim avoid_data [
        | none ↦ (record s { avoid_file = file }, false)
        | some m ↦
            clear_loaded favorites avoids w now (record s { avoid_file = file; avoid_nodes = m })
      ]

  -- `Load`: the store, and whether there is no error
  unfoldable pub load :
      Json (FavoriteNode F) → Json AvoidNodes → LoadWrites → ℤ → Store F → Store F × Bool
  unfolding load_avoid load_data
  load favorites avoids w now s =
      let (favorite_data, file) = load_data favorites w.rewrite_favorite s.favorite_file in
      elim favorite_data [
        | none ↦ (record s { favorite_file = file }, false)
        | some m ↦
            load_avoid favorites avoids w now
              (record s { favorite_file = file; favorite_nodes = m })
      ]
