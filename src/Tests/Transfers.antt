-- ===== src/Tests/Transfers.antt =====
-- A measurement, a copy and running pipes on concrete data.
use tuna.Bandwidth.{
  finished, failed, Mover, chunk, client_loop, client_rates, Measurement,
  bandwidth_measurement_client, server_loop, bandwidth_measurement_server, client_read,
}
use tuna.Bandwidth.Loops.{IsProgressing, FailsAt, IsMeasured, bandwidth_measurement_client-ends}
use tuna.Pipe.{
  more, eof, SrcRead, Writer, CopyState, short_write, copy_buffer, spawned, gone, PipeEvent, spawn,
  advance, pipe_step, pipe_run, for_ever, returned, WaitEvent, pipe_goes, wait_done, select_done,
  wait_sessions, release, take_released, time_out, wait_step, wait_run, add_written, after_write,
  next_round, next_phase, count_phase, advance_at,
}
use tuna.Pipe.Copy.{IsWriter, IsCopied, copy_buffer-IsCopied}
use tuna.Pipe.Running.{HasIdleMoment, idle, wait_sessions-IsIdle}
use tuna.Common.{
  ℕ, ◌+◌, ◌-◌, ◌*◌, ◌^◌, ◌≡◌, refl, ◌⊎◌, Bool, true, false, some, List, [], ◌∷◌, arith, ltb, ◌==◌,
  if◌then◌else◌, length, codes,
}

-- a connection that moves at most 700 bytes at a time
abbrev slow : Mover
slow turn n = some (if ltb 700 n then 700 else n)

slow-IsProgressing : IsProgressing slow
slow-IsProgressing turn n m pos h = (ground (arith, h), ground (arith, h))

-- a second to the first byte, and one more for each read
abbrev seconds : ℕ → ℕ
seconds n = (n + 1) * 1_000_000_000

slow_rates :
    bandwidth_measurement_client 1500 true slow seconds 1500
    ≡ finished (record {
      bps = record { bytes = 1500; nanoseconds = 4_000_000_000 };
      bps_read = record { bytes = 1500; nanoseconds = 3_000_000_000 };
    })
unfolding bandwidth_measurement_client client_loop client_rates client_read chunk
slow_rates = refl

bandwidth_measurement_client-ends_example :
    ((bandwidth_measurement_client 1500 true slow seconds 1500 ≡ failed)
      × ((true ≡ false) ⊎ FailsAt slow 1500))
    ⊎ ((r : Measurement) × (bandwidth_measurement_client 1500 true slow seconds 1500 ≡ finished r)
        × IsMeasured slow seconds 1500 r)
bandwidth_measurement_client-ends_example =
    bandwidth_measurement_client-ends true slow seconds 1500 slow-IsProgressing

abbrev no_random : ℕ → Bool
no_random turn = ltb turn 1

server_fails : bandwidth_measurement_server 1500 true no_random slow 1500 ≡ failed
unfolding bandwidth_measurement_server server_loop chunk
server_fails = refl

-- the first write takes all, and the second one byte
abbrev tiring : Writer
tiring turn b = (if turn == 0 then length b else if ltb 1 (length b) then 1 else length b, true)

tiring-IsWriter : IsWriter tiring
tiring-IsWriter turn b = ground arith

abbrev reads : List SrcRead
reads =
    record { data_read = codes "abc"; end = more }
    ∷ record { data_read = []; end = more }
    ∷ record { data_read = codes "de"; end = eof }
    ∷ []

abbrev fresh : CopyState
fresh = record { turn = 0; taken = []; written = some (2 ^ 64 - 2) }

reads-short :
    copy_buffer reads tiring fresh
    ≡ (record { turn = 2; taken = codes "abcd"; written = some 2 }, short_write)
unfolding copy_buffer after_write next_round add_written
reads-short = refl

copy_buffer-IsCopied_example : IsCopied (codes "abcde") fresh (copy_buffer reads tiring fresh)
copy_buffer-IsCopied_example = copy_buffer-IsCopied reads tiring fresh tiring-IsWriter (omega arith)

-- two pipes, of which the first one is over
abbrev events : List PipeEvent
events = spawn ∷ advance 0 ∷ spawn ∷ advance 1 ∷ advance 1 ∷ advance 1 ∷ advance 1 ∷ []

events-over :
    pipe_run events idle
    ≡ record { active_sessions = 0; wait_count = 0; pipes = spawned ∷ gone ∷ [] }
unfolding pipe_run pipe_step count_phase advance_at next_phase
events-over = refl

-- a pipe that has copied and closed its ends
abbrev one_copying : List PipeEvent
one_copying = spawn ∷ advance 0 ∷ advance 0 ∷ advance 0 ∷ []

-- the call waits until the pipe is over; another comes before the return
abbrev wait_events : List WaitEvent
wait_events =
    wait_done
    ∷ pipe_goes (advance 0)
    ∷ pipe_goes (advance 0)
    ∷ wait_done
    ∷ pipe_goes spawn
    ∷ pipe_goes (advance 0)
    ∷ select_done
    ∷ []

waited :
    (wait_run for_ever wait_events (wait_sessions for_ever (pipe_run one_copying idle))).waiter
    ≡ returned
unfolding pipe_run pipe_step count_phase advance_at next_phase wait_sessions wait_run wait_step
    release take_released time_out
waited = refl

wait_sessions-IsIdle_example :
    HasIdleMoment for_ever wait_events (wait_sessions for_ever (pipe_run one_copying idle))
wait_sessions-IsIdle_example =
    wait_sessions-IsIdle one_copying wait_events for_ever (λ h. cc) waited
