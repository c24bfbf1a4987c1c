-- ===== src/Bandwidth/Loops.antt =====
-- The loops of the bandwidth measurement end, and with the bytes that they were asked for.
use tuna.Bandwidth.{
  finished, failed, Mover, chunk, ClientLoop, client_read, client_loop, client_start, client_rates,
  Measurement, bandwidth_measurement_client, server_loop, bandwidth_measurement_server,
  read_buffer_size, write_buffer_size,
}
use tuna.Common.{
  ℕ, zero, suc, ◌+◌, ◌-◌, ◌≤◌, ◌<◌, ◌≡◌, refl, ap, subst, ◌⊎◌, inl, inr, Bool, true, false, none,
  some, arith, ltb, ◌==◌, ltb→lt, Bool-cases, Option-cases,
}

-- A call that moves bytes moves at least one, and no more than it was given room for.
abbrev pub IsProgressing : Mover → Type 0
IsProgressing move = (turn n m : ℕ) → 0 < n → move turn n ≡ some m → (0 < m) × (m ≤ n)

-- some call fails
abbrev pub CanFail : Mover → Type 0
CanFail move = (turn : ℕ) × (n : ℕ) × (move turn n ≡ none)

chunk_pos : (size want moved : ℕ) → 0 < size → moved < want → 0 < chunk size want moved
unfolding chunk
chunk_pos size want moved h k = ground arith

chunk_le : (size want moved : ℕ) → moved < want → moved + chunk size want moved ≤ want
unfolding chunk
chunk_le size want moved h = ground arith

-- What a number of reads have moved together: each was asked for the next chunk of what was wanted.
abbrev pub Moved : Mover → ℕ → ℕ → ℕ → Type 0
Moved read want zero total = total ≡ 0
Moved read want (suc reads) total =
    (before : ℕ) × (m : ℕ) × Moved read want reads before
    × (read reads (chunk read_buffer_size want before) ≡ some m)
    × (total ≡ before + m)

Moved-next :
    (read : Mover) (want turn total m : ℕ)
    → Moved read want turn total
    → read turn (chunk read_buffer_size want total) ≡ some m
    → Moved read want (turn + 1) (total + m)
Moved-next read want turn total m h e =
    subst (λ n. Moved read want n (total + m)) (succ_eq turn) (total, m, h, e, refl)
  where
    succ_eq : (n : ℕ) → suc n ≡ n + 1
    succ_eq n = omega arith

-- the next read fails, after others that have moved less than what was wanted
abbrev pub FailsAt : Mover → ℕ → Type 0
FailsAt read want =
    (reads : ℕ) × (total : ℕ) × Moved read want reads total
    × (total < want)
    × (read reads (chunk read_buffer_size want total) ≡ none)

-- What holds of the client's loop once a byte has been read, and before.
abbrev IsTimed : (ℕ → ℕ) → ClientLoop → Type 0
IsTimed clock s =
    (s.bytes_read ≡ 0 → s.turn ≡ 0)
    × (0 < s.bytes_read → s.time_to_first_byte ≡ clock 0)
    × (s.m ≤ s.bytes_read)

client_read-IsTimed :
    (clock : ℕ → ℕ) (s : ClientLoop) (m : ℕ)
    → 0 < m
    → IsTimed clock s
    → IsTimed clock (client_read clock s m)
unfolding client_read
client_read-IsTimed clock s m pos h = elim (Bool-cases (s.bytes_read == 0)) [
  | inl e ↦ (λ z. absurd (omega arith), λ _. rw e (ap clock (h.0 (ground arith))), omega arith)
  | inr e ↦ (λ z. absurd (omega arith), λ _. rw e (h.1 (ground arith)), omega arith)
]

client_loop_lem :
    (fuel : ℕ) (read : Mover) (clock : ℕ → ℕ) (want : ℕ) (s : ClientLoop)
    → IsProgressing read
    → s.bytes_read ≤ want
    → want ≤ fuel + s.bytes_read
    → IsTimed clock s
    → Moved read want s.turn s.bytes_read
    → ((client_loop fuel read clock want s ≡ failed) × FailsAt read want)
      ⊎ ((t : ClientLoop) × (client_loop fuel read clock want s ≡ finished t)
          × (t.bytes_read ≡ want)
          × IsTimed clock t
          × Moved read want t.turn t.bytes_read)
unfolding client_loop client_read
client_loop_lem zero read clock want s p le enough timed moved =
    inr (s, ground arith, omega arith, timed, moved)
client_loop_lem (suc fuel) read clock want s p le enough timed moved =
    elim (Bool-cases (ltb s.bytes_read want)) [
      | inr e ↦ inr (s, rw (client_loop, e) refl, ground arith, timed, moved)
      | inl e ↦
          let small : s.bytes_read < want = ltb→lt s.bytes_read want e in
          let n = chunk read_buffer_size want s.bytes_read in
          elim (Option-cases (read s.turn n)) [
            | inl f ↦ inl (rw (client_loop, e, f) refl, (s.turn, s.bytes_read, moved, small, f))
            | inr (m, f) ↦
                let (pos, fits) =
                  p s.turn n m (chunk_pos read_buffer_size want s.bytes_read (omega arith) small)
                    f in
                let room = chunk_le read_buffer_size want s.bytes_read small in
                rw (client_loop, e, f)
                  (client_loop_lem fuel read clock want (client_read clock s m) p (omega arith)
                    (omega arith) (client_read-IsTimed clock s m pos timed)
                    (Moved-next read want s.turn s.bytes_read m moved f))
          ]
    ]

-- a measurement by some reads, which together moved what was wanted, with its two times
abbrev pub IsMeasured : Mover → (ℕ → ℕ) → ℕ → Measurement → Type 0
IsMeasured read clock want r =
    (reads : ℕ) × Moved read want reads want
    × (r.bps ≡ record { bytes = want; nanoseconds = clock reads })
    × ((r.bps_read ≡ r.bps)
        ⊎ (r.bps_read ≡ record { bytes = want; nanoseconds = clock reads - clock 0 }))

client_rates-IsMeasured :
    (read : Mover) (clock : ℕ → ℕ) (want : ℕ) (s : ClientLoop)
    → s.bytes_read ≡ want
    → IsTimed clock s
    → Moved read want s.turn s.bytes_read
    → IsMeasured read clock want (client_rates clock want s)
unfolding client_rates
client_rates-IsMeasured read clock want s h timed moved =
    let all = subst (λ n. Moved read want s.turn n) h moved in
    elim (Bool-cases (ltb s.m s.bytes_read)) [
      | inl e ↦
          (s.turn, all, refl, inr (rw (e, timed.1 (omega (arith, ltb→lt s.m s.bytes_read e))) refl))
      | inr e ↦ (s.turn, all, refl, inl (rw e refl))
    ]

-- Over a connection whose reads fail, or return at least one byte and no more than asked for: the
-- client's measurement ends within as many rounds as it wants bytes. It fails only when the deadline
-- cannot be set, or a read fails that follows reads of fewer bytes than wanted. Otherwise its reads,
-- each of which was asked for the next chunk, together moved exactly the wanted number of bytes; and
-- both rates are of that number, over the time to the last read, or for `bpsRead` perhaps over the time
-- from the first read to the last.
pub bandwidth_measurement_client-ends :
    (deadline_ok : Bool) (read : Mover) (clock : ℕ → ℕ) (want : ℕ)
    → IsProgressing read
    → ((bandwidth_measurement_client want deadline_ok read clock want ≡ failed)
        × ((deadline_ok ≡ false) ⊎ FailsAt read want))
      ⊎ ((r : Measurement) × (bandwidth_measurement_client want deadline_ok read clock want
            ≡ finished r)
          × IsMeasured read clock want r)
unfolding bandwidth_measurement_client
bandwidth_measurement_client-ends false read clock want p = inl (refl, inl refl)
bandwidth_measurement_client-ends true read clock want p =
    elim (client_loop_lem want read clock want client_start p (omega arith) (omega arith)
      (λ _. refl, λ h. absurd (omega arith), omega arith) refl) [
        | inl (e, can) ↦ inl (rw e refl, inr can)
        | inr (t, e, all, timed, moved) ↦ inr (
          client_rates clock want t,
          rw e refl,
          client_rates-IsMeasured read clock want t all timed moved,
        )
      ]

server_loop_lem :
    (fuel : ℕ) (random_ok : ℕ → Bool) (write : Mover) (want turn written : ℕ)
    → IsProgressing write
    → written ≤ want
    → want ≤ fuel + written
    → ((server_loop fuel random_ok write want turn written ≡ failed)
        × (((t : ℕ) × (random_ok t ≡ false)) ⊎ CanFail write))
      ⊎ (server_loop fuel random_ok write want turn written ≡ finished want)
unfolding server_loop
server_loop_lem zero random_ok write want turn written p le enough =
    inr (let same : written ≡ want = omega arith in ground (arith, same))
server_loop_lem (suc fuel) random_ok write want turn written p le enough =
    elim (Bool-cases (ltb written want)) [
      | inr e ↦
          let same : written ≡ want = ground arith in
          inr (rw (server_loop, e) (ap (λ (n : ℕ). finished n) same))
      | inl e ↦
          let small : written < want = ltb→lt written want e in
          let n = chunk write_buffer_size want written in
          elim (Bool-cases (random_ok turn)) [
            | inr g ↦ inl (rw (server_loop, e, g) refl, inl (turn, g))
            | inl g ↦ elim (Option-cases (write turn n)) [
              | inl f ↦ inl (rw (server_loop, e, g, f) refl, inr (turn, n, f))
              | inr (m, f) ↦
                  let (pos, fits) =
                    p turn n m (chunk_pos write_buffer_size want written (omega arith) small) f in
                  let room = chunk_le write_buffer_size want written small in
                  rw (server_loop, e, g, f)
                    (server_loop_lem fuel random_ok write want (turn + 1) (written + m) p
                      (omega arith) (omega arith))
            ]
          ]
    ]

-- Over a connection whose writes fail, or take at least one byte and no more than they were given: the
-- server's measurement ends within as many rounds as it has bytes to write. It fails only when the
-- deadline cannot be set, no random bytes come or a write fails. Otherwise it has written exactly the
-- wanted number of bytes.
bandwidth_measurement_server-ends :
    (deadline_ok : Bool) (random_ok : ℕ → Bool) (write : Mover) (want : ℕ)
    → IsProgressing write
    → ((bandwidth_measurement_server want deadline_ok random_ok write want ≡ failed)
        × ((deadline_ok ≡ false) ⊎ ((t : ℕ) × (random_ok t ≡ false)) ⊎ CanFail write))
      ⊎ (bandwidth_measurement_server want deadline_ok random_ok write want ≡ finished want)
unfolding bandwidth_measurement_server
bandwidth_measurement_server-ends false random_ok write want p = inl (refl, inl refl)
bandwidth_measurement_server-ends true random_ok write want p =
    elim (server_loop_lem want random_ok write want 0 0 p (omega arith) (omega arith)) [
      | inl (e, can) ↦ inl (e, inr can)
      | inr e ↦ inr e
    ]
