-- ===== src/Storage/File/Saved.antt =====
-- What is saved is loaded again, less what has expired.
use mathlib.Core.Option.{some-injective}
use tuna.Common.Int.{ℤ}
use tuna.Common.Dict.{Dict, lookup}
use tuna.Storage.{FavoriteNode, clear_favorite_expired}
use tuna.Storage.Favorite.{Distinct, unexpired, lookup-clear_favorite_expired}
use tuna.Storage.Avoid.{AvoidNodes}
use tuna.Storage.File.{
  Json, written, write_json, read_json, load_data, Store, LoadWrites, save_favorite_nodes,
  save_avoid_nodes, clear_favorite, clear_avoid, clear_loaded, load_avoid, load,
}
use tuna.Common.{
  ◌≡◌, refl, sym, ap, ◌∙◌, subst, ◌≢◌, inl, inr, Bool, true, Option, none, some, Bool-cases,
  option_ind, Text,
}

-- no write fails
abbrev pub all_written : LoadWrites
all_written = record {
  rewrite_favorite = written;
  rewrite_avoid = written;
  save_favorite = written;
  save_avoid = written;
}

module _ {F : Type 0} (favorites : Json (FavoriteNode F)) (avoids : Json AvoidNodes) where
  load_data-read :
      {V : Type 0} (json : Json V) (text : Text)
      → (load_data json written (some text)).0 ≡ some (json.decode text).0
  unfolding load_data write_json read_json
  load_data-read json text = elim (Bool-cases (json.decode text).1) [
    | inl e ↦ rw e refl
    | inr e ↦ rw e refl
  ]

  load_data-none :
      {V : Type 0} (json : Json V) (file : Option Text) → (load_data json written file).0 ≢ none
  unfolding load_data
  load_data-none json none e = cc
  load_data-none json (some text) e = let c = load_data-read json text in cc

  -- the favorites are those, less the expired ones, and so is their file
  IsLoaded : ℤ → Dict (FavoriteNode F) → Store F × Bool → Type 0
  IsLoaded now m (s, ok) =
      (ok ≡ true)
      × (s.favorite_nodes ≡ clear_favorite_expired now m)
      × (s.favorite_file ≡ some (favorites.encode (clear_favorite_expired now m)))

  load_avoid-IsLoaded :
      (now : ℤ) (s : Store F)
      → IsLoaded now s.favorite_nodes (load_avoid favorites avoids all_written now s)
  unfolding IsLoaded load_avoid clear_loaded clear_favorite clear_avoid save_favorite_nodes
      save_avoid_nodes write_json
  load_avoid-IsLoaded now s =
      option_ind (IsLoaded now s.favorite_nodes) (load_data avoids written s.avoid_file).0
        (λ e. absurd (load_data-none avoids s.avoid_file e)) (λ m _. (refl, refl, refl))

  load-IsLoaded :
      (now : ℤ) (text : Text) (s : Store F)
      → s.favorite_file ≡ some text
      → IsLoaded now (favorites.decode text).0 (load favorites avoids all_written now s)
  unfolding load
  load-IsLoaded now text s file =
      let here : (load_data favorites written s.favorite_file).0 ≡ some (favorites.decode text).0 =
        ap (λ (f : Option Text). (load_data favorites written f).0) file
        ∙ load_data-read favorites text in
      option_ind (IsLoaded now (favorites.decode text).0)
        (load_data favorites written s.favorite_file).0
        (λ e. absurd (load_data-none favorites s.favorite_file e))
        λ m e.
          subst (λ x. IsLoaded now x (load_avoid favorites avoids all_written now (with_read m)))
            (some-injective _ _ (sym e ∙ here)) (load_avoid-IsLoaded now (with_read m))
    where
      with_read : Dict (FavoriteNode F) → Store F
      with_read m = record s {
        favorite_file = (load_data favorites written s.favorite_file).1;
        favorite_nodes = m;
      }

  -- Favorites with distinct keys that are saved, and then loaded while no write fails, whatever the
  -- file of the avoided nodes holds: the load succeeds, under each key is the favorite that was saved
  -- unless it has expired, and the file has again what was loaded.
  pub load-save_favorite_nodes :
      (now : ℤ) (s : Store F)
      → Distinct s.favorite_nodes
      → ((load favorites avoids all_written now (save_favorite_nodes favorites written s).0).1
          ≡ true)
        × ((k : Text)
            → lookup k
                (load favorites avoids all_written now
                  (save_favorite_nodes favorites written s).0).0.favorite_nodes
              ≡ unexpired now (lookup k s.favorite_nodes))
        × ((load favorites avoids all_written now
              (save_favorite_nodes favorites written s).0).0.favorite_file
            ≡ some (
                favorites.encode
                  (load favorites avoids all_written now
                    (save_favorite_nodes favorites written s).0).0.favorite_nodes))
  unfolding IsLoaded save_favorite_nodes write_json
  load-save_favorite_nodes now s distinct =
      let (_, d, same) = favorites.decode-encode s.favorite_nodes distinct in
      let (ok, nodes, file) =
        load-IsLoaded now (favorites.encode s.favorite_nodes)
          (save_favorite_nodes favorites written s).0 refl in
      (
        ok,
        λ k.
            ap (λ (m : Dict (FavoriteNode F)). lookup k m) nodes
            ∙ lookup-clear_favorite_expired now
                (favorites.decode (favorites.encode s.favorite_nodes)).0 k d
            ∙ ap (unexpired now) (same k),
        file ∙ ap (λ (m : Dict (FavoriteNode F)). some (favorites.encode m)) (sym nodes),
      )
