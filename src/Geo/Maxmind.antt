-- ===== src/Geo/Maxmind.antt =====
-- The MaxMind provider (geo/geolite.go): a database file that is downloaded when it is missing or old,
-- and opened. The package that reads a database is a parameter: `open_db` opens the bytes of a file.
-- A file that is there has a modification time, and a removal succeeds.
pub mod Recovery
pub mod Rounds
use tuna.Net.{Net}
use tuna.Geo.{Location, empty_location}
use tuna.Geo.Provider.{Answer}
use tuna.Common.{
  ℕ, zero, suc, ◌+◌, ◌-◌, ◌*◌, ◌/◌, ◌%◌, ◌^◌, ◌≤◌, ◌<◌, ◌≡◌, refl, sym, ap, ◌∙◌, subst, ◌≢◌, ◌↔◌,
  ◌⊎◌, inl, inr, Bool, true, false, not, ◌&&◌, ◌||◌, Option, none, some, List, [], ◌∷◌, ◌++◌,
  append_assoc, append-nil, arith, ltb, leb, ◌==◌, if◌then◌else◌, ltb→lt, lt→ltb, leb→le, le→leb,
  ==_iff, tests, Bool-cases, Option-cases, if_ind, option_ind, ◌>>=◌, >>=-eq-some, length,
  get_elem?, take, drop, length-append, length-take-le, length-take, take-append-drop,
  take-length-append, drop-length-append, get_elem?-some, get_elem?-none, All, All-append, All-take,
  Any, Text, codes, is_empty, text_eq, to_lower, text_eq_iff, text_eq_refl, is_empty→nil,
}

-- The provider: the bytes and the modification time of its file, the database, and `ready`. The
-- database is of a type `D` of the package that reads it. It maps its file into memory: `maps_file` tells
-- whether that is the file that is there now, and `is_intact` whether nothing was written to it since.
pub record Maxmind (D : Type 0) : Type 0 where
  pub file : Option (Text × ℕ)
  pub db : Option D
  pub ready : Bool
  pub maps_file : Bool
  pub is_intact : Bool

-- `NewMaxMindProvider`, with the file that is there already
unfoldable pub new_maxmind : {D : Type 0} → Option (Text × ℕ) → Maxmind D
new_maxmind file = record {
  file = file;
  db = none;
  ready = false;
  maps_file = false;
  is_intact = true;
}

-- thirty days, in nanoseconds
abbrev max_mind_expired : ℕ
max_mind_expired = 30 * 24 * 3600 * 1000000000

-- `MaxMindProvider.NeedUpdate`: the time of a file that is missing is the zero time, and the duration
-- since then is longer than any expiry
unfoldable pub need_update : {D : Type 0} → ℕ → Maxmind D → Bool
need_update now p = elim p.file [
  | none ↦ true
  | some (bytes, mod_time) ↦ ltb max_mind_expired (now - mod_time)
]

-- How far `util.CopyFile` gets: it fails before it opens the file, it fails after some bytes, since
-- opening the file cut it to length zero, or it writes the whole file.
pub data Copied : Type 0 where
  untouched whole : Copied
  cut : ℕ → Copied

-- What a call of `MaybeUpdateContext` meets: the time at each call of `NeedUpdate`, whether there is a
-- temporary file, the body of the response if it arrives whole, the copy with its time, and whether the
-- file can be read.
pub record MaxmindRound : Type 0 where
  pub first_now : ℕ
  pub second_now : ℕ
  pub temp_file : Bool
  pub body : Option Text
  pub copy : Copied
  pub written_at : ℕ
  pub can_open : Bool

module _ {D : Type 0} (open_db : Text → Option D) where
  -- The file is written over, in place: a database that maps it is not intact afterwards.
  unfoldable pub write_file : Text → ℕ → Maxmind D → Maxmind D
  write_file bytes now p = record p {
    file = some (bytes, now);
    is_intact = p.is_intact && not p.maps_file;
  }

  -- the copy into the file, and whether it succeeds
  unfoldable pub store_copy : MaxmindRound → Text → Maxmind D → Maxmind D × Bool
  unfolding write_file
  store_copy r bytes p = elim r.copy [
    | untouched ↦ (p, false)
    | cut n ↦ (write_file (take n bytes) r.written_at p, false)
    | whole ↦ (write_file bytes r.written_at p, true)
  ]

  -- the download: the temporary file, the request with its body, the copy
  unfoldable pub download : MaxmindRound → Maxmind D → Maxmind D × Bool
  unfolding store_copy
  download r p =
      if r.temp_file
      then elim r.body [ none ↦ (p, false) | some bytes ↦ store_copy r bytes p ]
      else (p, false)

  -- `geoip2.Open` of the file
  unfoldable pub read_database : MaxmindRound → Maxmind D → Option D
  read_database r p = if r.can_open then (do file ← p.file; open_db (file.0)) else none

  -- a file that cannot be opened is removed
  unfoldable pub take_database : Maxmind D → Option D → Maxmind D × Bool
  take_database p none = (record p { file = none; maps_file = false }, false)
  take_database p (some d) =
      (record p { db = some d; ready = true; maps_file = true; is_intact = true }, true)

  -- what follows a download, which may have failed
  unfoldable pub open_after : MaxmindRound → Maxmind D × Bool → Maxmind D × Bool
  unfolding take_database read_database
  open_after r (p, done) = if done then take_database p (read_database r p) else (p, false)

  unfoldable pub is_open : Option D → Bool
  is_open none = false
  is_open (some d) = true

  -- `MaxMindProvider.MaybeUpdateContext`: the provider afterwards, and whether there is no error
  unfoldable pub maybe_update_maxmind : MaxmindRound → Maxmind D → Maxmind D × Bool
  unfolding is_open need_update download open_after
  maybe_update_maxmind r p =
      if not (need_update r.first_now p) && is_open p.db
      then (p, true)
      else if need_update r.second_now p
      then open_after r (download r p)
      else open_after r (p, true)

  -- The rounds of `StartUpdateDataFile` at this provider; an error is only logged.
  unfoldable pub update_rounds : List MaxmindRound → Maxmind D → Maxmind D
  unfolding maybe_update_maxmind
  update_rounds [] p = p
  update_rounds (r ∷ rs) p = update_rounds rs ((maybe_update_maxmind r p).0)

-- `MaxMindProvider.GetLocation`, where `country` is the lookup of the database. `none` is a panic: a
-- lookup in a database that is nil, or whose memory map was written over, where what it reads is open.
unfoldable pub maxmind_get_location :
    {D : Type 0} (net : Net)
    → (D → Option net.IP → Option Text)
    → Text
    → Maxmind D
    → Option (Answer (Location net))
maxmind_get_location net country ip p = do
  d ← p.db
  if not p.is_intact
      then none
      else some (elim (country d (net.parse_ip ip)) [
        | none ↦ record { location = some (empty_location net); failed = true }
        | some code ↦ record {
          location =
              some (record { ip = ip; country_code = code; country = []; city = []; cidr = none });
          failed = false;
        }
      ])
