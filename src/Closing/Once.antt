-- ===== src/Closing/Once.antt =====
-- However often an endpoint is closed, each channel is closed once.
use tuna.Closing.{
  OnConnect, try_send, receive, close_on_connect, Endpoint, close_chan, close_endpoint, EndEvent,
  close, add_conn, notify, notify_endpoint, end_step, end_run,
}
use tuna.Common.{
  ℕ, ◌+◌, ◌≤◌, ◌≡◌, refl, sym, ap, ◌∙◌, subst, Bool, true, false, Option, none, some, List, [], ◌∷◌,
  ◌++◌, append_assoc, append-nil, arith, ltb, if◌then◌else◌, ltb→lt, if_ind, ◌>>=◌, length, All,
}

-- every channel is open or closed as the endpoint is, and the notifications fit into their channel
abbrev pub IsSettled : Endpoint → Type 0
IsSettled e =
    (e.close_chan_closed ≡ e.is_closed)
    × (e.udp_close_chan_closed ≡ e.is_closed)
    × (e.on_connect.chan_closed ≡ e.is_closed)
    × (e.on_connect.is_closed ≡ e.is_closed)
    × (e.on_connect.elements ≤ e.on_connect.size)

-- a step that does not panic, after which `P` holds
abbrev pub Safe : (Endpoint → Type 0) → Option Endpoint → Type 0
Safe P none = ⊥
Safe P (some e) = P e

-- a closed endpoint stays as it is, but for connections that are set later
abbrev pub StaysClosed : Endpoint → Endpoint → Type 0
StaysClosed e e' =
    e.is_closed ≡ true → (more : List Bool) × (e' ≡ record e { conns = e.conns ++ more })

same-StaysClosed : (e e' : Endpoint) → (e.is_closed ≡ true → e' ≡ e) → StaysClosed e e'
same-StaysClosed e e' same shut =
    ([], same shut ∙ ap (λ (cs : List Bool). record e { conns = cs }) (sym (append-nil e.conns)))

trans-StaysClosed : (a b c : Endpoint) → StaysClosed a b → StaysClosed b c → StaysClosed a c
trans-StaysClosed a b c f g shut =
    let (more, e) = f shut in
    let (more', e') = g (ap (λ (x : Endpoint). x.is_closed) e ∙ shut) in
    (
      more ++ more',
      e'
          ∙ ap (λ (x : Endpoint). record x { conns = x.conns ++ more' }) e
          ∙ ap (λ (cs : List Bool). record a { conns = cs }) (append_assoc a.conns more more'),
    )

abbrev IsStep : Endpoint → Endpoint → Type 0
IsStep e e' = IsSettled e' × StaysClosed e e'

Safe-bind :
    {A : Type 0} (P : Endpoint → Type 0) (o : Option A) (f : A → Option Endpoint) (a : A)
    → o ≡ some a
    → Safe P (f a)
    → Safe P (o >>= f)
Safe-bind P o f a e h = subst (λ x. Safe P (x >>= f)) (sym e) h

close_chan-open : (closed : Bool) → closed ≡ false → close_chan closed ≡ some true
unfolding close_chan
close_chan-open closed e = rw e refl

close_on_connect-open :
    (c : OnConnect)
    → c.chan_closed ≡ false
    → close_on_connect c ≡ some (record c { chan_closed = true; is_closed = true })
unfolding close_on_connect
close_on_connect-open c e = if_false c.chan_closed _ _ e
  where
    if_false : {A : Type 0} (b : Bool) (x y : A) → b ≡ false → (if b then x else y) ≡ y
    if_false b x y h = rw h refl

close_endpoint-IsStep : (e : Endpoint) → IsSettled e → Safe (IsStep e) (close_endpoint e)
unfolding close_endpoint
close_endpoint-IsStep e h =
    if_ind (Safe (IsStep e)) e.is_closed (λ _. (h, same-StaysClosed e e (λ _. refl)))
      λ alive.
        Safe-bind (IsStep e) (close_chan e.close_chan_closed) _ true
          (close_chan-open e.close_chan_closed (h.0 ∙ alive))
          (Safe-bind (IsStep e) (close_chan e.udp_close_chan_closed) _ true
            (close_chan-open e.udp_close_chan_closed (h.1 ∙ alive))
            (Safe-bind (IsStep e) (close_on_connect e.on_connect) _
              (record e.on_connect { chan_closed = true; is_closed = true })
              (close_on_connect-open e.on_connect (h.2 ∙ alive))
              ((refl, refl, refl, refl, h.4), λ shut. absurd (ground (arith, alive, shut)))))

-- what a notification does to a channel that is open or closed as its flag says
abbrev IsReceived : OnConnect → Option OnConnect → Type 0
IsReceived c r =
    (c' : OnConnect) × (r ≡ some c')
    × (c'.chan_closed ≡ c.chan_closed)
    × (c'.is_closed ≡ c.is_closed)
    × (c'.elements ≤ c'.size)
    × (c.is_closed ≡ true → c' ≡ c)

receive-IsReceived :
    (c : OnConnect) → c.chan_closed ≡ c.is_closed → c.elements ≤ c.size → IsReceived c (receive c)
unfolding receive try_send
receive-IsReceived c same fits =
    if_ind (IsReceived c) c.is_closed (λ _. (c, refl, refl, refl, fits, λ _. refl))
      λ alive.
        if_ind (IsReceived c) c.has_callback
          (λ _. (
            record c { called = c.called + 1 },
            refl,
            refl,
            refl,
            fits,
            λ shut. absurd (ground (arith, alive, shut)),
          ))
          λ _.
            if_ind (IsReceived c) c.chan_closed (λ shut. absurd (ground (arith, alive, shut, same)))
              λ _. (
                if ltb c.elements c.size then record c { elements = c.elements + 1 } else c,
                refl,
                if_ind (λ (x : OnConnect). x.chan_closed ≡ c.chan_closed) (ltb c.elements c.size)
                    (λ _. refl) (λ _. refl),
                if_ind (λ (x : OnConnect). x.is_closed ≡ c.is_closed) (ltb c.elements c.size)
                    (λ _. refl) (λ _. refl),
                if_ind (λ (x : OnConnect). x.elements ≤ x.size) (ltb c.elements c.size)
                    (λ room. omega (arith, ltb→lt c.elements c.size room)) (λ _. fits),
                λ shut. absurd (ground (arith, alive, shut)),
              )

notify-IsStep : (e : Endpoint) → IsSettled e → Safe (IsStep e) (notify_endpoint e)
unfolding notify_endpoint
notify-IsStep e h =
    let (c, received, chan, flag, fits, same) =
      receive-IsReceived e.on_connect (h.2 ∙ sym h.3) h.4 in
    Safe-bind (IsStep e) (receive e.on_connect) _ c received (
      (h.0, h.1, chan ∙ h.2, flag ∙ h.3, fits),
      same-StaysClosed e (record e { on_connect = c })
          (λ shut. ap (λ x. record e { on_connect = x }) (same (h.3 ∙ shut))),
    )

add_conn-IsStep : (e : Endpoint) → IsSettled e → Safe (IsStep e) (end_step add_conn e)
unfolding end_step
add_conn-IsStep e h = (h, λ _. (false ∷ [], refl))

end_step-IsStep : (x : EndEvent) (e : Endpoint) → IsSettled e → Safe (IsStep e) (end_step x e)
unfolding end_step
end_step-IsStep close e h = close_endpoint-IsStep e h
end_step-IsStep notify e h = notify-IsStep e h
end_step-IsStep add_conn e h = add_conn-IsStep e h

Safe-cases :
    (P : Endpoint → Type 0) (o : Option Endpoint) → Safe P o → (e : Endpoint) × (o ≡ some e) × P e
Safe-cases P none h = absurd h
Safe-cases P (some e) h = (e, refl, h)

-- From an endpoint whose channels are open or closed as the endpoint is: over any run of calls of
-- `Close`, of connections that are set and of notifications, nothing panics, so no channel is closed
-- twice or sent on when closed; the channels stay open or closed as the endpoint is, and the
-- notifications fit into their channel. And an endpoint that was closed before the run is as it was, but
-- for connections that were set since, behind those that it had.
pub end_run-IsSettled :
    (xs : List EndEvent) (e : Endpoint)
    → IsSettled e
    → (e' : Endpoint) × (end_run xs e ≡ some e') × IsSettled e' × StaysClosed e e'
unfolding end_run
end_run-IsSettled [] e h = (e, refl, h, same-StaysClosed e e (λ _. refl))
end_run-IsSettled (x ∷ xs) e h =
    let (e', stepped, (settled, stays)) =
      Safe-cases (IsStep e) (end_step x e) (end_step-IsStep x e h) in
    let (e'', ran, settled', stays') = end_run-IsSettled xs e' settled in
    (
      e'',
      ap (λ (o : Option Endpoint). o >>= end_run xs) stepped ∙ ran,
      settled',
      trans-StaysClosed e e' e'' stays stays',
    )

-- all the connections of an endpoint are closed, but for some behind as many as it had
abbrev pub AreClosed : ℕ → Endpoint → Type 0
AreClosed had e =
    (old : List Bool) × (new : List Bool) × (e.conns ≡ old ++ new)
    × (length old ≡ had)
    × All (λ c. c ≡ true) old
