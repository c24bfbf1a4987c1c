-- ===== src/Geo/Maxmind/Recovery.antt =====
-- The MaxMind provider gets a database again, and keeps it.
use tuna.Net.{Net}
use tuna.Geo.{Location}
use tuna.Geo.Provider.{Answer}
use tuna.Geo.Maxmind.Rounds.{
  IsServing, IsGood, IsQuiet, round-IsServing, round-empty, round-IsTried, round-missing,
}
use tuna.Geo.Maxmind.{
  Maxmind, new_maxmind, MaxmindRound, maybe_update_maxmind, update_rounds, maxmind_get_location,
}
use tuna.Common.{
  ℕ, ◌≡◌, refl, ◌∙◌, ◌⊎◌, inl, inr, Option, none, some, List, [], ◌∷◌, ◌++◌, All, Text,
}

module _ {D : Type 0} (open_db : Text → Option D) where
  -- the provider serves, or it has no database yet
  abbrev IsHealthy : Maxmind D → Type 0
  IsHealthy p = IsServing open_db p ⊎ (p.db ≡ none)

  -- a round that does not come to write its file, or whose download would succeed with a database
  abbrev pub IsHarmless : MaxmindRound → Type 0
  IsHarmless r = IsQuiet open_db r ⊎ IsGood open_db r

  round-IsHealthy :
      (r : MaxmindRound) (p : Maxmind D)
      → IsHarmless r
      → IsHealthy p
      → IsHealthy (maybe_update_maxmind open_db r p).0
  round-IsHealthy r p harmless (inl serving) = inl (round-IsServing open_db r p harmless serving)
  round-IsHealthy r p harmless (inr empty) = round-empty open_db r p harmless empty

  rounds-IsServing :
      (rs : List MaxmindRound) (p : Maxmind D)
      → All IsHarmless rs
      → IsServing open_db p
      → IsServing open_db (update_rounds open_db rs p)
  unfolding update_rounds
  rounds-IsServing [] p hs serving = serving
  rounds-IsServing (r ∷ rs) p (harmless, hs) serving =
      rounds-IsServing rs (maybe_update_maxmind open_db r p).0 hs
        (round-IsServing open_db r p harmless serving)

  two_rounds-IsServing :
      (first second : MaxmindRound) (p : Maxmind D)
      → IsGood open_db first
      → IsGood open_db second
      → IsHealthy p
      → IsServing open_db
          (maybe_update_maxmind open_db second (maybe_update_maxmind open_db first p).0).0
  two_rounds-IsServing first second p good good' (inl serving) =
      round-IsServing open_db second (maybe_update_maxmind open_db first p).0 (inr good')
        (round-IsServing open_db first p (inr good) serving)
  two_rounds-IsServing first second p good good' (inr empty) =
      elim (round-IsTried open_db first p good empty) [
        | inl serving ↦
            round-IsServing open_db second (maybe_update_maxmind open_db first p).0 (inr good')
              serving
        | inr ((ready, intact, db), missing) ↦
            round-missing open_db second (maybe_update_maxmind open_db first p).0 good' (db ∙ empty)
              missing
      ]

  rounds-recover :
      (before after : List MaxmindRound) (first second : MaxmindRound) (p : Maxmind D)
      → All IsHarmless before
      → All IsHarmless after
      → IsGood open_db first
      → IsGood open_db second
      → IsHealthy p
      → IsServing open_db (update_rounds open_db (before ++ first ∷ second ∷ after) p)
  unfolding update_rounds
  rounds-recover [] after first second p hb ha good good' healthy =
      rounds-IsServing after _ ha (two_rounds-IsServing first second p good good' healthy)
  rounds-recover (r ∷ rs) after first second p (h, hb) ha good good' healthy =
      rounds-recover rs after first second (maybe_update_maxmind open_db r p).0 hb ha good good'
        (round-IsHealthy r p h healthy)

  get_location-IsServing :
      (net : Net) (country : D → Option net.IP → Option Text) (ip : Text) (p : Maxmind D)
      → IsServing open_db p
      → (a : Answer (Location net)) × (maxmind_get_location net country ip p ≡ some a)
  unfolding maxmind_get_location
  get_location-IsServing net country ip p (ready, intact, d, bytes, db, read) =
      rw (db, intact) (_, refl)

  -- Whatever file a provider starts with, which may be one that does not open: when each of its rounds
  -- does not come to write the file, or would download and copy a body that opens as a database, and two
  -- rounds in a row are of the second kind, then the provider is ready at the end, its database was
  -- opened from some bytes and is intact, and a lookup does not panic.
  pub update_rounds-IsServing :
      (before after : List MaxmindRound) (first second : MaxmindRound)
      → (file : Option (Text × ℕ))
      → (net : Net) (country : D → Option net.IP → Option Text) (ip : Text) → All IsHarmless before
      → All IsHarmless after
      → IsGood open_db first
      → IsGood open_db second
      → IsServing open_db
          (update_rounds open_db (before ++ first ∷ second ∷ after) (new_maxmind file))
        × ((a : Answer (Location net)) × (maxmind_get_location net country ip
                (update_rounds open_db (before ++ first ∷ second ∷ after) (new_maxmind file))
              ≡ some a))
  unfolding new_maxmind
  update_rounds-IsServing before after first second file net country ip hb ha good good' =
      let serving =
        rounds-recover before after first second (new_maxmind file) hb ha good good' (inr refl) in
      (serving, get_location-IsServing net country ip _ serving)
