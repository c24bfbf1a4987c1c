-- ===== src/Pipe.antt =====
-- The forwarding of bytes between two connections (tuna.go): `copyBuffer`, and the count of the
-- running pipes that `pipe`, `GetNumActiveSessions` and `WaitSessions` share.
pub mod Copy
pub mod Running
use tuna.Common.{
  ℕ, zero, suc, ◌+◌, ◌-◌, ◌*◌, ◌/◌, ◌%◌, ◌^◌, ◌≤◌, ◌<◌, ◌≡◌, refl, sym, ap, ◌∙◌, subst, ◌≢◌, ◌↔◌,
  ◌⊎◌, inl, inr, Bool, true, false, not, ◌&&◌, ◌||◌, Option, none, some, List, [], ◌∷◌, ◌++◌,
  append_assoc, append-nil, arith, ltb, leb, ◌==◌, if◌then◌else◌, ltb→lt, lt→ltb, leb→le, le→leb,
  ==_iff, tests, Bool-cases, Option-cases, if_ind, option_ind, ◌>>=◌, >>=-eq-some, length,
  get_elem?, take, drop, length-append, length-take-le, take-length-append, drop-length-append,
  get_elem?-some, get_elem?-none, All, All-append, All-take, Any, Text, codes, is_empty, text_eq,
  to_lower, text_eq_iff, text_eq_refl, is_empty→nil,
}

-- what comes with the data of a `Read`: no error, `io.EOF` or another error
pub data ReadEnd : Type 0 where
  more eof read_error : ReadEnd

pub record SrcRead : Type 0 where
  pub data_read : Text
  pub end : ReadEnd

-- how many bytes the n-th `Write` takes, and whether it returns no error
abbrev pub Writer : Type 0
Writer = ℕ → Text → ℕ × Bool

-- The number of writes, what the destination has taken, and the counter at `written`, if there is one.
pub record CopyState : Type 0 where
  pub turn : ℕ
  pub taken : Text
  pub written : Option ℕ

-- how `copyBuffer` returns; `waiting` stands for a read that still blocks
pub data CopyResult : Type 0 where
  copied write_error short_write read_failed waiting : CopyResult

-- `atomic.AddUint64(written, uint64(nw))`, unless `written` is nil
unfoldable pub add_written : ℕ → Option ℕ → Option ℕ
add_written nw none = none
add_written nw (some w) = some ((w + nw) % 2 ^ 64)

unfoldable pub after_write : ℕ → Text → CopyState → CopyState
unfolding add_written
after_write nw data_read s = record {
  turn = s.turn + 1;
  taken = s.taken ++ take nw data_read;
  written = add_written nw s.written;
}

-- the end of a round: another round, or the return on the error of the read
unfoldable pub next_round : ReadEnd → CopyState → CopyState × CopyResult → CopyState × CopyResult
next_round more s rest = rest
next_round eof s rest = (s, copied)
next_round read_error s rest = (s, read_failed)

-- `copyBuffer`
unfoldable pub copy_buffer : List SrcRead → Writer → CopyState → CopyState × CopyResult
unfolding next_round after_write
copy_buffer [] write s = (s, waiting)
copy_buffer (r ∷ rs) write s =
    let (nw, ok) = write s.turn r.data_read in
    let s' = after_write nw r.data_read s in
    let rest_unwritten = copy_buffer rs write s in
    let rest_written = copy_buffer rs write s' in
    if is_empty r.data_read
    then next_round r.end s rest_unwritten
    else if not ok
    then (s', write_error)
    else if not (length r.data_read == nw)
    then (s', short_write)
    else next_round r.end s' rest_written

-- Where a call of `pipe` stands, in the order of its statements: started by `go`, in the wait group,
-- counted, both ends closed, no longer counted, out of the wait group.
pub data Phase : Type 0 where
  spawned joined copying closed uncounted gone : Phase

-- `activeSessions`, the count of `sessionsWaitGroup`, and the calls of `pipe` so far
pub record Sessions : Type 0 where
  pub active_sessions : ℕ
  pub wait_count : ℕ
  pub pipes : List Phase

unfoldable pub next_phase : Phase → Phase
next_phase spawned = joined
next_phase joined = copying
next_phase copying = closed
next_phase closed = uncounted
next_phase uncounted = gone
next_phase gone = gone

-- what the statement does to the two counts
unfoldable pub count_phase : Phase → Sessions → Sessions
count_phase spawned s = record s { wait_count = s.wait_count + 1 }
count_phase joined s = record s { active_sessions = s.active_sessions + 1 }
count_phase copying s = s
count_phase closed s = record s { active_sessions = s.active_sessions - 1 }
count_phase uncounted s = record s { wait_count = s.wait_count - 1 }
count_phase gone s = s

unfoldable pub advance_at : ℕ → List Phase → List Phase
unfolding next_phase
advance_at i [] = []
advance_at zero (p ∷ ps) = next_phase p ∷ ps
advance_at (suc i) (p ∷ ps) = p ∷ advance_at i ps

-- an event: a connection comes and its pipe is started, or a pipe goes on by a statement
pub data PipeEvent : Type 0 where
  spawn : PipeEvent
  advance : ℕ → PipeEvent

unfoldable pub pipe_step : PipeEvent → Sessions → Sessions
unfolding count_phase advance_at
pipe_step spawn s = record s { pipes = spawned ∷ s.pipes }
pipe_step (advance i) s = elim (get_elem? s.pipes i) [
  | none ↦ s
  | some p ↦ record (count_phase p s) { pipes = advance_at i s.pipes }
]

unfoldable pub pipe_run : List PipeEvent → Sessions → Sessions
pipe_run [] s = s
pipe_run (e ∷ es) s = pipe_run es (pipe_step e s)

-- how `SetLinger` sets `linger`
pub data Linger : Type 0 where
  at_once for_ever up_to_timeout : Linger

-- A call of `WaitSessions`: its goroutine waits and so does its `select`; the goroutine has closed
-- `waitChan`; it has returned; it has returned since the linger is over.
pub data Waiter : Type 0 where
  calling released returned lingered : Waiter

pub record Waiting : Type 0 where
  pub sessions : Sessions
  pub waiter : Waiter

-- an event: of a pipe; the goroutine's `Wait` returns and it closes `waitChan`; the `select` takes
-- `waitChan`; the `select` takes the timeout
pub data WaitEvent : Type 0 where
  pipe_goes : PipeEvent → WaitEvent
  wait_done select_done linger_over : WaitEvent

-- the call begins
unfoldable pub wait_sessions : Linger → Sessions → Waiting
wait_sessions at_once s = record { sessions = s; waiter = returned }
wait_sessions for_ever s = record { sessions = s; waiter = calling }
wait_sessions up_to_timeout s = record { sessions = s; waiter = calling }

unfoldable pub release : Bool → Waiter → Waiter
release true calling = released
release _ w = w

unfoldable pub take_released : Waiter → Waiter
take_released released = returned
take_released w = w

unfoldable pub time_out : Linger → Waiter → Waiter
time_out up_to_timeout calling = lingered
time_out up_to_timeout released = lingered
time_out _ w = w

-- `Wait` returns when the count of its group is zero
unfoldable pub wait_step : Linger → WaitEvent → Waiting → Waiting
unfolding release take_released time_out
wait_step linger (pipe_goes e) s = record s { sessions = pipe_step e s.sessions }
wait_step linger wait_done s = record s { waiter = release (s.sessions.wait_count == 0) s.waiter }
wait_step linger select_done s = record s { waiter = take_released s.waiter }
wait_step linger linger_over s = record s { waiter = time_out linger s.waiter }

unfoldable pub wait_run : Linger → List WaitEvent → Waiting → Waiting
wait_run linger [] s = s
wait_run linger (e ∷ es) s = wait_run linger es (wait_step linger e s)
