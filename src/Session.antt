-- ===== src/Session.antt =====
-- The session of an entry to its exit (entry.go): `createSession`, `getSession`, `getPaymentStream`
-- and `openServiceStream`. What the network does is an argument of each step.
pub mod Runs
use tuna.Wire.{StreamMetadata}
use tuna.Tunnel.{service_stream}
use tuna.Common.{
  ℕ, zero, suc, ◌+◌, ◌-◌, ◌*◌, ◌/◌, ◌%◌, ◌^◌, ◌≤◌, ◌<◌, ◌≡◌, refl, sym, ap, ◌∙◌, subst, ◌≢◌, ◌↔◌,
  ◌⊎◌, inl, inr, Bool, true, false, not, ◌&&◌, ◌||◌, Option, none, some, List, [], ◌∷◌, ◌++◌,
  append_assoc, append-nil, arith, ltb, leb, ◌==◌, if◌then◌else◌, ltb→lt, lt→ltb, leb→le, le→leb,
  ==_iff, tests, Bool-cases, Option-cases, if_ind, option_ind, ◌>>=◌, >>=-eq-some, length,
  get_elem?, take, drop, length-append, length-take-le, take-length-append, drop-length-append,
  get_elem?-some, get_elem?-none, All, All-append, All-take, Any, Text, codes, is_empty, text_eq,
  to_lower, text_eq_iff, text_eq_refl, is_empty→nil,
}

-- a multiplexed session, by a number, and whether it is closed
pub record Link : Type 0 where
  pub id : ℕ
  pub is_closed : Bool

-- `session` and `paymentStream` of an entry, and the sessions made so far with their payment streams
pub record EntryState : Type 0 where
  pub session : Option Link
  pub payment_stream : Option ℕ
  pub made : List (ℕ × ℕ)

-- What an attempt to create a session meets: whether `GetServerTCPConn` gives a connection, what
-- `smux.Client` and `OpenStream` give, as numbers, and whether the stream's metadata can be written.
pub record Dialing : Type 0 where
  pub conn_ok : Bool
  pub smux_client : Option ℕ
  pub stream : Option ℕ
  pub write_ok : Bool

-- an attempt, by whether it is forced
abbrev pub Dialer : Type 0
Dialer = Bool → Dialing

-- `openPaymentStream`
unfoldable pub open_payment_stream : Dialing → Option ℕ
open_payment_stream d = do stream ← d.stream; if d.write_ok then some stream else none

-- `createSession`: a new session with its payment stream, or an error
unfoldable pub create_session : Dialer → Bool → Option (ℕ × ℕ)
unfolding open_payment_stream
create_session dial force =
    if (dial force).conn_ok
    then (do
      session ← (dial force).smux_client
      payment_stream ← open_payment_stream (dial force)
      some (session, payment_stream))
    else none

is_live : Option Link → Bool
is_live none = false
is_live (some l) = not l.is_closed

-- the first attempt does not force a new connection, and the second does
create_twice : Dialer → Option (ℕ × ℕ)
unfolding create_session
create_twice dial = elim (create_session dial false) [
  | none ↦ create_session dial true
  | some made ↦ some made
]

install : ℕ × ℕ → EntryState → EntryState
install (id, payment) s = record {
  session = some (record { id = id; is_closed = false });
  payment_stream = some payment;
  made = (id, payment) ∷ s.made;
}

-- `getSession`: whether it succeeds, and the entry afterwards
unfoldable pub get_session : Bool → Dialer → EntryState → Bool × EntryState
unfolding is_live create_twice install
get_session reverse dial s =
    if is_live s.session
    then (true, s)
    else if reverse
    then (false, s)
    else elim (create_twice dial) [ none ↦ (false, s) | some m ↦ (true, install m s) ]

-- `getPaymentStream`
unfoldable pub get_payment_stream : Bool → Dialer → EntryState → Option ℕ × EntryState
get_payment_stream reverse dial s =
    let (ok, s') = get_session reverse dial s in (if ok then s'.payment_stream else none, s')

close_session : EntryState → EntryState
close_session s = elim s.session [
  | none ↦ s
  | some l ↦ record s { session = some (record l { is_closed = true }) }
]

-- `openServiceStream`: the metadata that is written, and the entry afterwards. A session that opens
-- no stream is closed.
unfoldable pub open_service_stream :
    Bool → Dialer → Bool → Bool → ℕ → ℕ → EntryState → Option StreamMetadata × EntryState
unfolding close_session
open_service_stream reverse dial open_ok write_ok service_id port_id s =
    let (ok, s') = get_session reverse dial s in
    if not ok
    then (none, s')
    else if not open_ok
    then (none, close_session s')
    else (if write_ok then some (service_stream service_id port_id) else none, s')

pub data EntryStep : Type 0 where
  -- `getPaymentStream`, `openServiceStream`
  pay : Dialer → EntryStep
  open_stream : Dialer → Bool → Bool → ℕ → ℕ → EntryStep
  -- the session dies
  die : EntryStep

unfoldable pub entry_step : Bool → EntryStep → EntryState → EntryState
unfolding close_session
entry_step reverse (pay dial) s = (get_payment_stream reverse dial s).1
entry_step reverse (open_stream dial open_ok write_ok service_id port_id) s =
    (open_service_stream reverse dial open_ok write_ok service_id port_id s).1
entry_step reverse die s = close_session s

unfoldable pub entry_run : Bool → List EntryStep → EntryState → EntryState
entry_run reverse [] s = s
entry_run reverse (e ∷ es) s = entry_run reverse es (entry_step reverse e s)
