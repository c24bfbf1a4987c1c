-- ===== src/Reverse/Stalled.antt =====
-- The UDP reader of a reverse entry waits for the connection that some metadata names.
use mathlib.Core.Option.{some-injective}
use tuna.Wire.{ConnectionMetadata, prefix_len}
use tuna.Udp.{CipherOps, packet, read_from_udp}
use tuna.Reverse.{
  ReaderAt, reading, waiting, Hub, conn_key, is_ready, on_metadata, on_read, resume, HubEvent, udp,
  tcp_ready, udp_wait, tcp_gone, on_udp, hub_step, hub_run,
}
use tuna.Common.{
  ℕ, ◌<◌, ◌≡◌, refl, sym, ◌∙◌, subst, false, ◌&&◌, ◌||◌, Option, none, some, List, [], ◌∷◌, arith,
  ltb, if_ind, option_ind, length, take, All, Text, text_eq,
}

-- an event that is not a connection of this key
abbrev pub IsOther : Text → HubEvent → Type 0
IsOther k (tcp_ready k' key te) = text_eq k k' ≡ false
IsOther k (udp input) = Unit
IsOther k (udp_wait k') = Unit
IsOther k (tcp_gone k') = Unit

module _ (ops : CipherOps) (parse : Text → Option ConnectionMetadata) where
  -- the reader waits, and has delivered no more
  abbrev IsStuck : Text → ConnectionMetadata → List (ℕ × Text) → Hub → Type 0
  IsStuck addr m before h = (h.reader ≡ waiting addr m) × (h.delivered ≡ before)

  resume-IsStuck :
      (k : Text) (x : ReaderAt) (addr : Text) (m : ConnectionMetadata) (before : List (ℕ × Text))
      (h : Hub)
      → x ≡ waiting addr m
      → text_eq (conn_key m) k ≡ false
      → IsStuck addr m before h
      → IsStuck addr m before (resume ops k x h)
  unfolding resume
  resume-IsStuck k x addr m before h e other stuck =
      subst (λ y. IsStuck addr m before (resume ops k y h)) (sym e) (rw other stuck)

  hub_step-IsStuck :
      (e : HubEvent) (addr : Text) (m : ConnectionMetadata) (before : List (ℕ × Text)) (h : Hub)
      → IsOther (conn_key m) e
      → IsStuck addr m before h
      → IsStuck addr m before (hub_step ops parse e h)
  unfolding hub_step on_udp
  hub_step-IsStuck (udp input) addr m before h other (e, d) =
      subst (λ x. IsStuck addr m before (on_udp ops parse input x h)) (sym e) (e, d)
  hub_step-IsStuck (udp_wait k) addr m before h other (e, d) = (e, d)
  hub_step-IsStuck (tcp_gone k) addr m before h other (e, d) = (e, d)
  hub_step-IsStuck (tcp_ready k key te) addr m before h other (e, d) =
      resume-IsStuck k h.reader addr m before _ e other (e, d)

  hub_run-IsStuck :
      (es : List HubEvent) (addr : Text) (m : ConnectionMetadata) (before : List (ℕ × Text))
      (h : Hub)
      → All (IsOther (conn_key m)) es
      → IsStuck addr m before h
      → IsStuck addr m before (hub_run ops parse es h)
  unfolding hub_run
  hub_run-IsStuck [] addr m before h others stuck = stuck
  hub_run-IsStuck (e ∷ es) addr m before h (other, others) stuck =
      hub_run-IsStuck es addr m before (hub_step ops parse e h) others
        (hub_step-IsStuck e addr m before h other stuck)

  on_metadata-IsStuck :
      (addr : Text) (m : ConnectionMetadata) (h : Hub)
      → m.is_ping ≡ false
      → is_ready (conn_key m) h.tcp_is_ready ≡ false
      → IsStuck addr m h.delivered (on_metadata ops addr false m h)
  unfolding on_metadata
  on_metadata-IsStuck addr m h ping unready =
      if_ind (IsStuck addr m h.delivered) (m.is_ping || false)
        (λ pings. absurd (ground (arith, pings, ping)))
        λ _.
          if_ind (IsStuck addr m h.delivered) (is_ready (conn_key m) h.tcp_is_ready)
            (λ e. absurd (ground (arith, e, unready))) (λ _. (refl, refl))

  on_read-IsStuck :
      (addr bytes : Text) (m : ConnectionMetadata) (h : Hub)
      → 0 < length bytes
      → parse bytes ≡ some m
      → m.is_ping ≡ false
      → is_ready (conn_key m) h.tcp_is_ready ≡ false
      → IsStuck addr m h.delivered (on_read ops parse (packet addr (0 ∷ 0 ∷ 0 ∷ 0 ∷ bytes) false) h)
  unfolding on_read text_eq
  on_read-IsStuck addr bytes m h long parsed ping unready =
      if_ind (IsStuck addr m h.delivered)
        (text_eq (take prefix_len (0 ∷ 0 ∷ 0 ∷ 0 ∷ bytes)) (0 ∷ 0 ∷ 0 ∷ 0 ∷ [])
          && ltb prefix_len (length (0 ∷ 0 ∷ 0 ∷ 0 ∷ bytes)))
        (λ _.
          option_ind (IsStuck addr m h.delivered) (parse bytes)
            (λ e. absurd (let c : none ≡ some m = sym e ∙ parsed in cc))
            λ m' e.
              subst (λ x. IsStuck addr m h.delivered (on_metadata ops addr false x h))
                (some-injective _ _ (sym parsed ∙ e)) (on_metadata-IsStuck addr m h ping unready))
        (λ e. absurd (ground (arith, e)))

  metadata-IsStuck :
      (addr bytes : Text) (m : ConnectionMetadata) (h : Hub)
      → h.reader ≡ reading
      → read_from_udp ops (some (addr, 0 ∷ 0 ∷ 0 ∷ 0 ∷ bytes)) h.conn
        ≡ packet addr (0 ∷ 0 ∷ 0 ∷ 0 ∷ bytes) false
      → 0 < length bytes
      → parse bytes ≡ some m
      → m.is_ping ≡ false
      → is_ready (conn_key m) h.tcp_is_ready ≡ false
      → IsStuck addr m h.delivered (hub_step ops parse (udp (some (addr, 0 ∷ 0 ∷ 0 ∷ 0 ∷ bytes))) h)
  unfolding hub_step on_udp
  metadata-IsStuck addr bytes m h reads plain long parsed ping unready =
      subst
        (λ x.
          IsStuck addr m h.delivered (on_udp ops parse (some (addr, 0 ∷ 0 ∷ 0 ∷ 0 ∷ bytes)) x h))
        (sym reads)
        (subst (λ x. IsStuck addr m h.delivered (on_read ops parse x h)) (sym plain)
          (on_read-IsStuck addr bytes m h long parsed ping unready))

  -- One unencrypted packet of metadata, from any address without a codec, with a key that no
  -- connection has announced: after it, whatever packets and connections come, as long as none of them
  -- is a connection of that key, the reader delivers nothing more to any entry.
  pub hub_run_stalls :
      (addr bytes : Text) (m : ConnectionMetadata) (es : List HubEvent) (h : Hub)
      → h.reader ≡ reading
      → read_from_udp ops (some (addr, 0 ∷ 0 ∷ 0 ∷ 0 ∷ bytes)) h.conn
        ≡ packet addr (0 ∷ 0 ∷ 0 ∷ 0 ∷ bytes) false
      → 0 < length bytes
      → parse bytes ≡ some m
      → m.is_ping ≡ false
      → is_ready (conn_key m) h.tcp_is_ready ≡ false
      → All (IsOther (conn_key m)) es
      → (hub_run ops parse (udp (some (addr, 0 ∷ 0 ∷ 0 ∷ 0 ∷ bytes)) ∷ es) h).delivered
        ≡ h.delivered
  unfolding hub_run
  hub_run_stalls addr bytes m es h reads plain long parsed ping unready others =
      (hub_run-IsStuck es addr m h.delivered
        (hub_step ops parse (udp (some (addr, 0 ∷ 0 ∷ 0 ∷ 0 ∷ bytes))) h) others
        (metadata-IsStuck addr bytes m h reads plain long parsed ping unready)).1
