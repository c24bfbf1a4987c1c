-- ===== src/Session/Runs.antt =====
-- What holds of an entry's session over any run: its payment stream, and when it is dialled anew.
use tuna.Wire.{StreamMetadata}
use tuna.Session.{
  Link, EntryState, Dialer, is_live, create_twice, install, get_session, get_payment_stream,
  close_session, open_service_stream, EntryStep, pay, open_stream, die, entry_step, entry_run,
}
use tuna.Common.{
  ℕ, ◌≡◌, refl, ap, ◌∙◌, subst, inl, Bool, true, false, not, Option, some, List, [], ◌∷◌, arith,
  if_ind, option_ind, All, Any,
}

-- the payment stream is the one that was opened on the current session
abbrev pub IsPaired : EntryState → Type 0
IsPaired s =
    (l : Link)
    → s.session ≡ some l
    → (p : ℕ) × (s.payment_stream ≡ some p) × Any (λ m. m ≡ (l.id, p)) s.made

install-IsPaired : (m : ℕ × ℕ) (s : EntryState) → IsPaired (install m s)
unfolding install
install-IsPaired (id, payment) s l e =
    let same : id ≡ l.id = ground (arith, e) in
    (payment, refl, inl (ap (λ (i : ℕ). (i, payment)) same))

get_session-IsPaired :
    (reverse : Bool) (dial : Dialer) (s : EntryState)
    → IsPaired s
    → IsPaired (get_session reverse dial s).1
unfolding get_session
get_session-IsPaired reverse dial s h =
    if_ind (λ (r : Bool × EntryState). IsPaired r.1) (is_live s.session) (λ _. h)
      λ _.
        if_ind (λ (r : Bool × EntryState). IsPaired r.1) reverse (λ _. h)
          λ _.
            option_ind (λ (r : Bool × EntryState). IsPaired r.1) (create_twice dial) (λ _. h)
              λ m _. install-IsPaired m s

close_session-IsPaired : (s : EntryState) → IsPaired s → IsPaired (close_session s)
unfolding close_session
close_session-IsPaired s h =
    option_ind IsPaired s.session (λ _. h)
      λ l e l' e'.
        let same : l.id ≡ l'.id = ground (arith, e') in
        subst (λ (i : ℕ). (p : ℕ) × (s.payment_stream ≡ some p) × Any (λ m. m ≡ (i, p)) s.made) same
          (h l e)

open_service_stream-IsPaired :
    (reverse : Bool) (dial : Dialer) (open_ok write_ok : Bool) (service_id port_id : ℕ)
    (s : EntryState)
    → IsPaired s
    → IsPaired (open_service_stream reverse dial open_ok write_ok service_id port_id s).1
unfolding open_service_stream
open_service_stream-IsPaired reverse dial open_ok write_ok service_id port_id s h =
    if_ind (λ (r : Option StreamMetadata × EntryState). IsPaired r.1)
      (not (get_session reverse dial s).0) (λ _. get_session-IsPaired reverse dial s h)
      λ _.
        if_ind (λ (r : Option StreamMetadata × EntryState). IsPaired r.1) (not open_ok)
          (λ _.
            close_session-IsPaired (get_session reverse dial s).1
              (get_session-IsPaired reverse dial s h))
          (λ _. get_session-IsPaired reverse dial s h)

entry_step-IsPaired :
    (reverse : Bool) (e : EntryStep) (s : EntryState)
    → IsPaired s
    → IsPaired (entry_step reverse e s)
unfolding entry_step get_payment_stream
entry_step-IsPaired reverse (pay dial) s h = get_session-IsPaired reverse dial s h
entry_step-IsPaired reverse (open_stream dial open_ok write_ok service_id port_id) s h =
    open_service_stream-IsPaired reverse dial open_ok write_ok service_id port_id s h
entry_step-IsPaired reverse die s h = close_session-IsPaired s h

-- From an entry whose payment stream, if it has a session, was opened on that session: however
-- sessions die, fail to open streams and are made again, the payment stream is always the one that
-- was opened on the current session.
pub entry_run-IsPaired :
    (reverse : Bool) (es : List EntryStep) (s : EntryState)
    → IsPaired s
    → IsPaired (entry_run reverse es s)
unfolding entry_run
entry_run-IsPaired reverse [] s h = h
entry_run-IsPaired reverse (e ∷ es) s h =
    entry_run-IsPaired reverse es (entry_step reverse e s) (entry_step-IsPaired reverse e s h)

-- a step in which the session neither dies nor fails to open a stream
abbrev pub IsCalm : EntryStep → Type 0
IsCalm (pay dial) = Unit
IsCalm (open_stream dial open_ok write_ok service_id port_id) = open_ok ≡ true
IsCalm die = ⊥

entry_step_calm :
    (reverse : Bool) (e : EntryStep) (s : EntryState) (i : ℕ)
    → s.session ≡ some (record { id = i; is_closed = false })
    → IsCalm e
    → entry_step reverse e s ≡ s
unfolding entry_step get_payment_stream open_service_stream get_session is_live
entry_step_calm reverse (pay dial) s i live c = rw live refl
entry_step_calm reverse (open_stream dial open_ok write_ok service_id port_id) s i live c =
    rw (live, c) refl
entry_step_calm reverse die s i live c = absurd c

-- While a session lives, which neither dies nor fails to open a stream, it is used for every stream
-- and payment: nothing is dialled, whatever the dialer would answer.
entry_run_calm :
    (reverse : Bool) (es : List EntryStep) (s : EntryState) (i : ℕ)
    → s.session ≡ some (record { id = i; is_closed = false })
    → All IsCalm es
    → entry_run reverse es s ≡ s
unfolding entry_run
entry_run_calm reverse [] s i live c = refl
entry_run_calm reverse (e ∷ es) s i live (c, cs) =
    ap (entry_run reverse es) (entry_step_calm reverse e s i live c)
    ∙ entry_run_calm reverse es s i live cs
