-- ===== src/Geo/Maxmind/Rounds.antt =====
-- One round of the MaxMind provider's updates: what it keeps, and what it repairs.
use tuna.Geo.Maxmind.{
  write_file, untouched, Maxmind, need_update, whole, MaxmindRound, store_copy, download,
  read_database, take_database, open_after, is_open, maybe_update_maxmind,
}
use tuna.Common.{
  ℕ, ◌≡◌, refl, sym, ap, ◌∙◌, subst, ◌≢◌, ◌⊎◌, inl, inr, Bool, true, false, not, ◌&&◌, Option, none,
  some, arith, Option-cases, if_ind, option_ind, >>=-eq-some, Text,
}

module _ {D : Type 0} (open_db : Text → Option D) where
  -- the provider is ready, and has a database that was opened from some bytes, and is intact
  abbrev pub IsServing : Maxmind D → Type 0
  IsServing p =
      (p.ready ≡ true)
      × (p.is_intact ≡ true)
      × (d : D) × (bytes : Text) × (p.db ≡ some d)
      × (open_db bytes ≡ some d)

  -- the provider is not ready, and has no database
  abbrev pub IsWaiting : Maxmind D → Type 0
  IsWaiting p = (p.ready ≡ false) × (p.db ≡ none)

  -- a round whose download would succeed, with a body that is a database
  abbrev pub IsGood : MaxmindRound → Type 0
  IsGood r =
      (d : D) × (bytes : Text) × (open_db bytes ≡ some d)
      × (r.body ≡ some bytes)
      × (r.temp_file ≡ true)
      × (r.copy ≡ whole)
      × (r.can_open ≡ true)

  -- a round that does not come to write its file
  abbrev pub IsQuiet : MaxmindRound → Type 0
  IsQuiet r = (r.temp_file ≡ false) ⊎ ((r.body ≡ none) ⊎ (r.copy ≡ untouched))

  read_database-some :
      (r : MaxmindRound) (p : Maxmind D) (d : D)
      → read_database open_db r p ≡ some d
      → (bytes : Text) × (open_db bytes ≡ some d)
  unfolding read_database
  read_database-some r p d =
      if_ind (λ (o : Option D). o ≡ some d → (bytes : Text) × (open_db bytes ≡ some d)) r.can_open
        (λ _ opened.
          let (file, _, read) = >>=-eq-some p.file (λ file. open_db (file.0)) opened in
          (file.0, read))
        λ _ opened. absurd (ground (arith, opened))

  -- what a round may leave as it is
  abbrev pub Kept : Maxmind D → Maxmind D → Type 0
  Kept p q = (q.ready ≡ p.ready) × (q.is_intact ≡ p.is_intact) × (q.db ≡ p.db)

  -- after an attempt to open the file the provider serves, or the file is gone and the rest as it was
  abbrev pub IsTried : Maxmind D → Maxmind D → Type 0
  IsTried p q = IsServing q ⊎ (Kept p q × (q.file ≡ none))

  open_after-IsTried :
      (r : MaxmindRound) (p : Maxmind D) → IsTried p (open_after open_db r (p, true)).0
  unfolding open_after take_database
  open_after-IsTried r p = elim (Option-cases (read_database open_db r p)) [
    | inl failed ↦ rw failed (inr ((refl, refl, refl), refl))
    | inr (d, opened) ↦
        let (bytes, read) = read_database-some r p d opened in
        rw opened (inl (refl, refl, d, bytes, refl, read))
  ]

  is_open-db : (p : Maxmind D) → is_open open_db p.db ≡ true → p.db ≢ none
  unfolding is_open
  is_open-db p opened closed = absurd (ground (arith, ap (is_open open_db) closed, opened))

  -- the three ways of a round
  pub round-cases :
      (P : Maxmind D × Bool → Type 0) (r : MaxmindRound) (p : Maxmind D)
      → (p.db ≢ none → P (p, true))
      → (need_update r.second_now p ≡ true → P (open_after open_db r (download open_db r p)))
      → (need_update r.second_now p ≡ false → P (open_after open_db r (p, true)))
      → P (maybe_update_maxmind open_db r p)
  unfolding maybe_update_maxmind
  round-cases P r p loaded old fresh =
      if_ind P (not (need_update r.first_now p) && is_open open_db p.db)
        (λ kept. loaded (is_open-db p (ground (arith, kept))))
        λ _. if_ind P (need_update r.second_now p) old fresh

  open_after-download-IsGood :
      (r : MaxmindRound) (p : Maxmind D)
      → IsGood r
      → IsServing (open_after open_db r (download open_db r p)).0
  unfolding open_after download store_copy write_file take_database read_database
  open_after-download-IsGood r p (d, bytes, read, body, temp_file, copy, can_open) =
      rw (temp_file, body, copy, can_open, read) (refl, refl, d, bytes, refl, read)

  download-IsQuiet :
      (r : MaxmindRound) (p : Maxmind D) → IsQuiet r → download open_db r p ≡ (p, false)
  unfolding download store_copy
  download-IsQuiet r p (inl temp_file) = rw temp_file refl
  download-IsQuiet r p (inr (inl body)) =
      if_ind (λ (x : Maxmind D × Bool). x ≡ (p, false)) r.temp_file (λ _. rw body refl) (λ _. refl)
  download-IsQuiet r p (inr (inr copy)) =
      if_ind (λ (x : Maxmind D × Bool). x ≡ (p, false)) r.temp_file
        (λ _.
          option_ind (λ (x : Maxmind D × Bool). x ≡ (p, false)) r.body (λ _. refl)
            λ bytes _. rw copy refl)
        (λ _. refl)

  -- the state after a download that does not come to write
  open_after-IsQuiet :
      (r : MaxmindRound) (p : Maxmind D)
      → IsQuiet r
      → (open_after open_db r (download open_db r p)).0 ≡ p
  unfolding open_after
  open_after-IsQuiet r p quiet =
      ap (λ (x : Maxmind D × Bool). (open_after open_db r x).0) (download-IsQuiet r p quiet)

  IsServing-tried : (p q : Maxmind D) → IsServing p → IsTried p q → IsServing q
  IsServing-tried p q serving (inl serving') = serving'
  IsServing-tried p q (ready, intact, d, bytes, db, read) (inr ((ready', intact', db'), gone)) =
      (ready' ∙ ready, intact' ∙ intact, d, bytes, db' ∙ db, read)

  -- a round that does not write, or whose download is good, keeps a database that serves
  pub round-IsServing :
      (r : MaxmindRound) (p : Maxmind D)
      → IsQuiet r ⊎ IsGood r
      → IsServing p
      → IsServing (maybe_update_maxmind open_db r p).0
  round-IsServing r p harmless serving =
      round-cases (λ (x : Maxmind D × Bool). IsServing (x.0)) r p (λ _. serving)
        (λ _. elim harmless [
          | inl quiet ↦ subst IsServing (sym (open_after-IsQuiet r p quiet)) serving
          | inr good ↦ open_after-download-IsGood r p good
        ])
        λ _. IsServing-tried p (open_after open_db r (p, true)).0 serving (open_after-IsTried r p)

  -- without a database, such a round gets one or leaves none
  pub round-empty :
      (r : MaxmindRound) (p : Maxmind D)
      → IsQuiet r ⊎ IsGood r
      → p.db ≡ none
      → IsServing (maybe_update_maxmind open_db r p).0
        ⊎ ((maybe_update_maxmind open_db r p).0.db ≡ none)
  round-empty r p harmless empty =
      round-cases (λ (x : Maxmind D × Bool). IsServing (x.0) ⊎ (x.0.db ≡ none)) r p
        (λ loaded. absurd (loaded empty))
        (λ _. elim harmless [
          | inl quiet ↦ inr (ap (λ (x : Maxmind D). x.db) (open_after-IsQuiet r p quiet) ∙ empty)
          | inr good ↦ inl (open_after-download-IsGood r p good)
        ])
        λ _. elim (open_after-IsTried r p) [
          | inl serving ↦ inl serving
          | inr (kept, _) ↦ inr (kept.2 ∙ empty)
        ]

  pub round-IsTried :
      (r : MaxmindRound) (p : Maxmind D)
      → IsGood r
      → p.db ≡ none
      → IsTried p (maybe_update_maxmind open_db r p).0
  round-IsTried r p good empty =
      round-cases (λ (x : Maxmind D × Bool). IsTried p (x.0)) r p (λ loaded. absurd (loaded empty))
        (λ _. inl (open_after-download-IsGood r p good)) λ _. open_after-IsTried r p

  need_update-missing : (now : ℕ) (p : Maxmind D) → p.file ≡ none → need_update now p ≡ true
  unfolding need_update
  need_update-missing now p missing = rw missing refl

  pub round-missing :
      (r : MaxmindRound) (p : Maxmind D)
      → IsGood r
      → p.db ≡ none
      → p.file ≡ none
      → IsServing (maybe_update_maxmind open_db r p).0
  round-missing r p good empty missing =
      round-cases (λ (x : Maxmind D × Bool). IsServing (x.0)) r p (λ loaded. absurd (loaded empty))
        (λ _. open_after-download-IsGood r p good)
        λ fresh. absurd (ground (arith, fresh, need_update-missing r.second_now p missing))
