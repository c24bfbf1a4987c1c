-- ===== src/Closing.antt =====
-- How a tunnel ends: `TunaEntry.Close` (entry.go) and `TunaExit.Close` (exit.go) after they have waited
-- for the sessions, with the `OnConnect` channel that they close (util.go). Both hold their locks, so
-- each is one step. In Go to close a channel a second time, or to send on a closed one, is a panic,
-- which is `none`.
pub mod Once
use tuna.Common.{
  ℕ, zero, suc, ◌+◌, ◌-◌, ◌*◌, ◌/◌, ◌%◌, ◌^◌, ◌≤◌, ◌<◌, ◌≡◌, refl, sym, ap, ◌∙◌, subst, ◌≢◌, ◌↔◌,
  ◌⊎◌, inl, inr, Bool, true, false, not, ◌&&◌, ◌||◌, Option, none, some, List, [], ◌∷◌, ◌++◌,
  append_assoc, append-nil, arith, ltb, leb, ◌==◌, if◌then◌else◌, ltb→lt, lt→ltb, leb→le, le→leb,
  ==_iff, tests, Bool-cases, Option-cases, if_ind, option_ind, ◌>>=◌, >>=-eq-some, length,
  get_elem?, take, drop, length-append, length-take-le, length-take, take-append-drop,
  take-length-append, drop-length-append, get_elem?-some, get_elem?-none, All, All-append, All-take,
  Any, Text, codes, is_empty, text_eq, to_lower, text_eq_iff, text_eq_refl, is_empty→nil,
}

-- `OnConnect`: the elements of its channel and the channel's size, whether the channel is closed, the
-- flag, whether there is a callback, and how often it was called
pub record OnConnect : Type 0 where
  pub elements : ℕ
  pub size : ℕ
  pub chan_closed : Bool
  pub is_closed : Bool
  pub has_callback : Bool
  pub called : ℕ

-- `NewOnConnect`
unfoldable pub new_on_connect : ℕ → Bool → OnConnect
new_on_connect size has_callback = record {
  elements = 0;
  size = size;
  chan_closed = false;
  is_closed = false;
  has_callback = has_callback;
  called = 0;
}

-- a send that is dropped when the channel is full
unfoldable pub try_send : OnConnect → Option OnConnect
try_send c =
    if c.chan_closed
    then none
    else some (if ltb c.elements c.size then record c { elements = c.elements + 1 } else c)

-- `OnConnect.receive`
unfoldable pub receive : OnConnect → Option OnConnect
unfolding try_send
receive c =
    if c.is_closed
    then some c
    else if c.has_callback
    then some (record c { called = c.called + 1 })
    else try_send c

-- `OnConnect.close`
unfoldable pub close_on_connect : OnConnect → Option OnConnect
close_on_connect c =
    if c.chan_closed then none else some (record c { chan_closed = true; is_closed = true })

-- What an entry or an exit closes: `closeChan` and `udpCloseChan`; in `conns`, by whether they are
-- closed, the members of `tcpListeners` and `serviceConn` and the session of an entry, or `tcpListener`,
-- `udpConn`, `tcpConn` and the members of `serviceConn` of an exit; and `OnConnect`.
pub record Endpoint : Type 0 where
  pub is_closed : Bool
  pub close_chan_closed : Bool
  pub udp_close_chan_closed : Bool
  pub conns : List Bool
  pub on_connect : OnConnect

-- `Close` of a listener or a connection
unfoldable pub close_all : List Bool → List Bool
close_all [] = []
close_all (c ∷ cs) = true ∷ close_all cs

-- `close` on a channel
unfoldable pub close_chan : Bool → Option Bool
close_chan closed = if closed then none else some true

-- `TunaEntry.Close` and `TunaExit.Close`, from the lock on
unfoldable pub close_endpoint : Endpoint → Option Endpoint
unfolding close_chan close_all close_on_connect
close_endpoint e = if e.is_closed then some e else (do
  close_chan_closed ← close_chan e.close_chan_closed
  udp_close_chan_closed ← close_chan e.udp_close_chan_closed
  on_connect ← close_on_connect e.on_connect
  some (record {
    is_closed = true;
    close_chan_closed = close_chan_closed;
    udp_close_chan_closed = udp_close_chan_closed;
    conns = close_all e.conns;
    on_connect = on_connect;
  }))

pub data EndEvent : Type 0 where
  -- a call of `Close`, a connection that is made, and its notification
  close : EndEvent
  add_conn : EndEvent
  notify : EndEvent

-- the notification of an endpoint
unfoldable pub notify_endpoint : Endpoint → Option Endpoint
unfolding receive
notify_endpoint e = do
  on_connect ← receive e.on_connect
  some (record e { on_connect = on_connect })

-- a listener, connection or session is set, which no test of `isClosed` guards
unfoldable pub end_step : EndEvent → Endpoint → Option Endpoint
unfolding close_endpoint notify_endpoint
end_step close e = close_endpoint e
end_step add_conn e = some (record e { conns = e.conns ++ false ∷ [] })
end_step notify e = notify_endpoint e

unfoldable pub end_run : List EndEvent → Endpoint → Option Endpoint
end_run [] e = some e
end_run (x ∷ xs) e = do e' ← end_step x e; end_run xs e'
