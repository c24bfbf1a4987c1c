-- ===== src/Tests/Databases.antt =====
-- A MaxMind provider whose file is fresh and no database.
use tuna.Net.Ipv4.{ipv4}
use tuna.Geo.{Location}
use tuna.Geo.Provider.{Answer}
use tuna.Geo.Maxmind.{
  write_file, new_maxmind, need_update, Copied, untouched, whole, cut, MaxmindRound, store_copy,
  download, read_database, take_database, open_after, is_open, maybe_update_maxmind, update_rounds,
  maxmind_get_location,
}
use tuna.Geo.Maxmind.Rounds.{IsServing, IsGood}
use tuna.Geo.Maxmind.Recovery.{update_rounds-IsServing}
use tuna.Common.{
  ℕ, ◌*◌, ◌≡◌, refl, inl, inr, true, Option, none, some, [], ◌∷◌, ◌==◌, if◌then◌else◌, Text, codes,
}

-- a database is a text that begins with `M` with the country behind it
open_text : Text → Option Text
open_text [] = none
open_text (c ∷ []) = none
open_text (c ∷ d ∷ code) = if c == b'M' then some (d ∷ code) else none

abbrev country : Text → Option ipv4.IP → Option Text
country code ip = some code

abbrev hour : ℕ
hour = 3600000000000

-- a round at a time, with a copy
abbrev round_at : ℕ → Copied → MaxmindRound
round_at now copy = record {
  first_now = now;
  second_now = now;
  temp_file = true;
  body = some (codes "MDE");
  copy = copy;
  written_at = now;
  can_open = true;
}

abbrev failing_write : MaxmindRound
failing_write = round_at (20000 * hour) (cut 1)

abbrev failing : MaxmindRound
failing = record (round_at (20000 * hour) untouched) { body = none }

abbrev second_round : MaxmindRound
second_round = round_at (10001 * hour) whole

abbrev third_round : MaxmindRound
third_round = round_at (10002 * hour) whole

-- a file that was cut off, and is fresh
abbrev broken_file : Option (Text × ℕ)
broken_file = some (codes "M", 10000 * hour)

-- the first round only removes the file, and the next downloads it again
second_round-removes :
    update_rounds open_text (second_round ∷ []) (new_maxmind broken_file) ≡ new_maxmind none
unfolding open_text update_rounds maybe_update_maxmind need_update download store_copy write_file
    open_after take_database read_database is_open new_maxmind
second_round-removes = refl

-- A later copy that is cut off writes over the file that the open database maps.
torn :
    maxmind_get_location ipv4 country (codes "1.2.3.4") (
      update_rounds open_text
        (second_round ∷ third_round ∷ failing_write ∷ [])
        (new_maxmind broken_file))
    ≡ none
unfolding open_text update_rounds maybe_update_maxmind need_update download store_copy write_file
    open_after take_database read_database is_open new_maxmind maxmind_get_location
torn = refl

whole-IsGood : (now : ℕ) → IsGood open_text (round_at now whole)
unfolding open_text
whole-IsGood now = (codes "DE", codes "MDE", refl, refl, refl, refl, refl)

update_rounds-IsServing_example :
    IsServing open_text (
      update_rounds open_text
        (failing ∷ second_round ∷ third_round ∷ failing ∷ [])
        (new_maxmind broken_file))
    × ((a : Answer (Location ipv4)) × (maxmind_get_location ipv4 country (codes "1.2.3.4") (
            update_rounds open_text
              (failing ∷ second_round ∷ third_round ∷ failing ∷ [])
              (new_maxmind broken_file))
          ≡ some a))
update_rounds-IsServing_example =
    update_rounds-IsServing open_text (failing ∷ []) (failing ∷ []) second_round third_round
      broken_file ipv4 country (codes "1.2.3.4") (inl (inr (inl refl)), tt)
      (inl (inr (inl refl)), tt) (whole-IsGood (10001 * hour)) (whole-IsGood (10002 * hour))
