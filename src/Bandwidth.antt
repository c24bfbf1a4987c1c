-- ===== src/Bandwidth.antt =====
-- The bandwidth measurement over a connection (util/measurement.go): the read loop of
-- `BandwidthMeasurementClientContext` and the write loop of `BandwidthMeasurementServerContext`. The
-- connection is an argument: what its n-th `Read` or `Write` of a number of bytes returns, in which a
-- deadline or the end of the context shows as a failure. `bytesDownlink` is not negative. A float of
-- bits per second is kept as the bytes and the nanoseconds that it is the quotient of.
pub mod Loops
use tuna.Common.{
  ℕ, zero, suc, ◌+◌, ◌-◌, ◌*◌, ◌/◌, ◌%◌, ◌^◌, ◌≤◌, ◌<◌, ◌≡◌, refl, sym, ap, ◌∙◌, subst, ◌≢◌, ◌↔◌,
  ◌⊎◌, inl, inr, Bool, true, false, not, ◌&&◌, ◌||◌, Option, none, some, List, [], ◌∷◌, ◌++◌,
  append_assoc, append-nil, arith, ltb, leb, ◌==◌, if◌then◌else◌, ltb→lt, lt→ltb, leb→le, le→leb,
  ==_iff, tests, Bool-cases, Option-cases, if_ind, option_ind, ◌>>=◌, >>=-eq-some, length,
  get_elem?, take, drop, length-append, length-take-le, take-length-append, drop-length-append,
  get_elem?-some, get_elem?-none, All, All-append, All-take, Any, Text, codes, is_empty, text_eq,
  to_lower, text_eq_iff, text_eq_refl, is_empty→nil,
}

-- how a loop ends; `out_of_fuel` stands for a loop that runs on
pub data Outcome (A : Type 0) : Type 0 where
  finished : A → Outcome A
  failed : Outcome A
  out_of_fuel : Outcome A

-- the bytes that a `Read` or a `Write` of so many bytes moves, by its turn, or its error
abbrev pub Mover : Type 0
Mover = ℕ → ℕ → Option ℕ

abbrev pub read_buffer_size : ℕ
read_buffer_size = 1024

abbrev pub write_buffer_size : ℕ
write_buffer_size = 1024

-- `n := bytesDownlink - bytesRead; if n > len(b) { n = len(b) }`
unfoldable pub chunk : ℕ → ℕ → ℕ → ℕ
chunk buffer_size bytes_downlink moved =
    if ltb buffer_size (bytes_downlink - moved) then buffer_size else bytes_downlink - moved

-- `bytesRead`, `m` and `timeToFirstByte`, and the number of reads
pub record ClientLoop : Type 0 where
  pub turn : ℕ
  pub bytes_read : ℕ
  pub m : ℕ
  pub time_to_first_byte : ℕ

-- one read of the client; `clock` is the time since the start after a read
unfoldable pub client_read : (ℕ → ℕ) → ClientLoop → ℕ → ClientLoop
client_read clock s m = record {
  turn = s.turn + 1;
  bytes_read = s.bytes_read + m;
  m = m;
  time_to_first_byte = if s.bytes_read == 0 then clock s.turn else s.time_to_first_byte;
}

-- the loop of the client
unfoldable pub client_loop : ℕ → Mover → (ℕ → ℕ) → ℕ → ClientLoop → Outcome ClientLoop
client_loop zero read clock bytes_downlink s =
    if ltb s.bytes_read bytes_downlink then out_of_fuel else finished s
client_loop (suc fuel) read clock bytes_downlink s = elim (ltb s.bytes_read bytes_downlink) [
  | false ↦ finished s
  | true ↦ elim (read s.turn (chunk read_buffer_size bytes_downlink s.bytes_read)) [
    | none ↦ failed
    | some m ↦ client_loop fuel read clock bytes_downlink (client_read clock s m)
  ]
]

pub record Rate : Type 0 where
  pub bytes : ℕ
  pub nanoseconds : ℕ

-- `bps` and `bpsRead`
pub record Measurement : Type 0 where
  pub bps : Rate
  pub bps_read : Rate

abbrev pub client_start : ClientLoop
client_start = record { turn = 0; bytes_read = 0; m = 0; time_to_first_byte = 0 }

-- what follows the loop; `clock` at the number of reads is the time since the start then
unfoldable pub client_rates : (ℕ → ℕ) → ℕ → ClientLoop → Measurement
client_rates clock bytes_downlink s =
    let time_to_last_byte = clock s.turn in
    let bps : Rate = record { bytes = bytes_downlink; nanoseconds = time_to_last_byte } in
    record {
      bps = bps;
      bps_read =
          if ltb s.m s.bytes_read
          then record {
            bytes = bytes_downlink;
            nanoseconds = time_to_last_byte - s.time_to_first_byte;
          }
          else bps;
    }

map_outcome : {A B : Type 0} → (A → B) → Outcome A → Outcome B
map_outcome f (finished a) = finished (f a)
map_outcome f failed = failed
map_outcome f out_of_fuel = out_of_fuel

-- `BandwidthMeasurementClientContext`
unfoldable pub bandwidth_measurement_client : ℕ → Bool → Mover → (ℕ → ℕ) → ℕ → Outcome Measurement
unfolding map_outcome
bandwidth_measurement_client fuel deadline_ok read clock bytes_downlink =
    if not deadline_ok
    then failed
    else map_outcome (client_rates clock bytes_downlink)
        (client_loop fuel read clock bytes_downlink client_start)

-- the loop of the server: the bytes written; `random_ok` tells by the turn whether `rand.Read` fills
-- the buffer
unfoldable pub server_loop : ℕ → (ℕ → Bool) → Mover → ℕ → ℕ → ℕ → Outcome ℕ
server_loop zero random_ok write bytes_downlink turn bytes_written =
    if ltb bytes_written bytes_downlink then out_of_fuel else finished bytes_written
server_loop (suc fuel) random_ok write bytes_downlink turn bytes_written =
    elim (ltb bytes_written bytes_downlink) [
      | false ↦ finished bytes_written
      | true ↦ elim (random_ok turn) [
        | false ↦ failed
        | true ↦ elim (write turn (chunk write_buffer_size bytes_downlink bytes_written)) [
          | none ↦ failed
          | some m ↦ server_loop fuel random_ok write bytes_downlink (turn + 1) (bytes_written + m)
        ]
      ]
    ]

-- `BandwidthMeasurementServerContext`
unfoldable pub bandwidth_measurement_server : ℕ → Bool → (ℕ → Bool) → Mover → ℕ → Outcome ℕ
bandwidth_measurement_server fuel deadline_ok random_ok write bytes_downlink =
    if not deadline_ok then failed else server_loop fuel random_ok write bytes_downlink 0 0
