-- ===== src/Pipe/Running.antt =====
-- The counts that concurrent calls of `pipe` share, over any interleaving of their statements.
use tuna.Pipe.{
  Phase, spawned, joined, copying, closed, uncounted, gone, Sessions, next_phase, count_phase,
  advance_at, PipeEvent, spawn, advance, pipe_step, pipe_run, Linger, at_once, for_ever,
  up_to_timeout, Waiter, calling, returned, lingered, Waiting, WaitEvent, pipe_goes, wait_done,
  select_done, linger_over, wait_sessions, release, take_released, time_out, wait_step, wait_run,
}
use tuna.Common.{
  ℕ, zero, suc, ◌+◌, ◌≡◌, refl, sym, ap, ◌∙◌, subst, ◌≢◌, ◌⊎◌, inl, inr, Bool, true, false, some,
  List, [], ◌∷◌, ◌++◌, arith, ◌==◌, ==_iff, Bool-cases, option_ind, get_elem?, All,
}

-- 1 for a pipe that is counted in `activeSessions`
abbrev pub active_one : Phase → ℕ
active_one copying = 1
active_one closed = 1
active_one spawned = 0
active_one joined = 0
active_one uncounted = 0
active_one gone = 0

-- 1 for a pipe that `WaitSessions` waits for
abbrev pub waited_one : Phase → ℕ
waited_one joined = 1
waited_one copying = 1
waited_one closed = 1
waited_one uncounted = 1
waited_one spawned = 0
waited_one gone = 0

abbrev pub sum_of : (Phase → ℕ) → List Phase → ℕ
sum_of f [] = 0
sum_of f (p ∷ ps) = f p + sum_of f ps

-- both counts are those of the pipes
abbrev pub IsCounted : Sessions → Type 0
IsCounted s =
    (s.active_sessions ≡ sum_of active_one s.pipes) × (s.wait_count ≡ sum_of waited_one s.pipes)

sum_of-advance_at :
    (f : Phase → ℕ) (i : ℕ) (ps : List Phase) (p : Phase)
    → get_elem? ps i ≡ some p
    → sum_of f (advance_at i ps) + f p ≡ sum_of f ps + f (next_phase p)
unfolding advance_at
sum_of-advance_at f i [] p h = cc
sum_of-advance_at f zero (q ∷ ps) p h =
    let same : q ≡ p = ground (arith, h) in
    subst (λ r. f (next_phase q) + sum_of f ps + f r ≡ f q + sum_of f ps + f (next_phase r)) same
      (omega arith)
sum_of-advance_at f (suc i) (q ∷ ps) p h = omega (arith, sum_of-advance_at f i ps p h)

count_phase-IsCounted :
    (p : Phase) (s : Sessions) (ps : List Phase)
    → IsCounted s
    → sum_of active_one ps + active_one p ≡ sum_of active_one s.pipes + active_one (next_phase p)
    → sum_of waited_one ps + waited_one p ≡ sum_of waited_one s.pipes + waited_one (next_phase p)
    → IsCounted (record (count_phase p s) { pipes = ps })
unfolding next_phase count_phase
count_phase-IsCounted spawned s ps (a, w) x y = (omega arith, omega arith)
count_phase-IsCounted joined s ps (a, w) x y = (omega arith, omega arith)
count_phase-IsCounted copying s ps (a, w) x y = (omega arith, omega arith)
count_phase-IsCounted closed s ps (a, w) x y = (omega arith, omega arith)
count_phase-IsCounted uncounted s ps (a, w) x y = (omega arith, omega arith)
count_phase-IsCounted gone s ps (a, w) x y = (omega arith, omega arith)

pipe_step-IsCounted : (e : PipeEvent) (s : Sessions) → IsCounted s → IsCounted (pipe_step e s)
unfolding pipe_step
pipe_step-IsCounted spawn s (active, waited) = (omega arith, omega arith)
pipe_step-IsCounted (advance i) s (active, waited) =
    option_ind IsCounted (get_elem? s.pipes i) (λ _. (active, waited))
      λ p e.
        count_phase-IsCounted p s (advance_at i s.pipes) (active, waited)
          (sum_of-advance_at active_one i s.pipes p e) (sum_of-advance_at waited_one i s.pipes p e)

abbrev pub idle : Sessions
idle = record { active_sessions = 0; wait_count = 0; pipes = [] }

-- From counts that are those of the pipes: however the pipes are started and their statements
-- interleave, `activeSessions` is the number of pipes between their two counting statements, and the
-- wait group's count the number of those between their `Add` and their `Done`.
pipe_run-IsCounted : (es : List PipeEvent) (s : Sessions) → IsCounted s → IsCounted (pipe_run es s)
unfolding pipe_run
pipe_run-IsCounted [] s h = h
pipe_run-IsCounted (e ∷ es) s h = pipe_run-IsCounted es (pipe_step e s) (pipe_step-IsCounted e s h)

-- a pipe that has not begun, or is over
abbrev pub IsIdle : Phase → Type 0
IsIdle p = (p ≡ spawned) ⊎ (p ≡ gone)

waited_one-IsIdle : (p : Phase) → waited_one p ≡ 0 → IsIdle p
waited_one-IsIdle spawned h = inl refl
waited_one-IsIdle gone h = inr refl
waited_one-IsIdle joined h = absurd (omega arith)
waited_one-IsIdle copying h = absurd (omega arith)
waited_one-IsIdle closed h = absurd (omega arith)
waited_one-IsIdle uncounted h = absurd (omega arith)

All-IsIdle : (ps : List Phase) → sum_of waited_one ps ≡ 0 → All IsIdle ps
All-IsIdle [] h = tt
All-IsIdle (p ∷ ps) h = (waited_one-IsIdle p (omega arith), All-IsIdle ps (omega arith))

-- the run has a moment, which may be its beginning or its end, at which each pipe is over or has not begun
abbrev pub HasIdleMoment : Linger → List WaitEvent → Waiting → Type 0
HasIdleMoment linger es s =
    (before : List WaitEvent) × (after : List WaitEvent) × (es ≡ before ++ after)
    × All IsIdle (wait_run linger before s).sessions.pipes

abbrev in_state : Waiter → Sessions → Waiting
in_state w s = record { sessions = s; waiter = w }

later :
    (linger : Linger) (e : WaitEvent) (es : List WaitEvent) (s : Waiting)
    → HasIdleMoment linger es (wait_step linger e s)
    → HasIdleMoment linger (e ∷ es) s
unfolding wait_run
later linger e es s (before, after, split, all) =
    (e ∷ before, after, ap (λ (l : List WaitEvent). e ∷ l) split, all)

release-lingered : (b : Bool) → release b lingered ≡ lingered
unfolding release
release-lingered true = refl
release-lingered false = refl

wait_run-lingered :
    (linger : Linger) (es : List WaitEvent) (s : Sessions)
    → (wait_run linger es (in_state lingered s)).waiter ≡ lingered
unfolding wait_run wait_step release take_released time_out
wait_run-lingered linger [] s = refl
wait_run-lingered linger (pipe_goes e ∷ es) s = wait_run-lingered linger es (pipe_step e s)
wait_run-lingered linger (wait_done ∷ es) s =
    subst (λ w. (wait_run linger es (in_state w s)).waiter ≡ lingered)
      (sym (release-lingered (s.wait_count == 0))) (wait_run-lingered linger es s)
wait_run-lingered linger (select_done ∷ es) s = wait_run-lingered linger es s
wait_run-lingered at_once (linger_over ∷ es) s = wait_run-lingered at_once es s
wait_run-lingered for_ever (linger_over ∷ es) s = wait_run-lingered for_ever es s
wait_run-lingered up_to_timeout (linger_over ∷ es) s = wait_run-lingered up_to_timeout es s

calling-HasIdleMoment :
    (linger : Linger) (es : List WaitEvent) (s : Sessions)
    → IsCounted s
    → (wait_run linger es (in_state calling s)).waiter ≡ returned
    → HasIdleMoment linger es (in_state calling s)
unfolding wait_run wait_step release take_released time_out
calling-HasIdleMoment linger [] s h e = absurd (ground (arith, e))
calling-HasIdleMoment linger (pipe_goes x ∷ es) s h e =
    later linger (pipe_goes x) es (in_state calling s)
      (calling-HasIdleMoment linger es (pipe_step x s) (pipe_step-IsCounted x s h) e)
calling-HasIdleMoment linger (wait_done ∷ es) s h e = elim (Bool-cases (s.wait_count == 0)) [
  | inl none_left ↦
      ([], wait_done ∷ es, refl, All-IsIdle s.pipes (sym h.1 ∙ (==_iff s.wait_count 0).0 none_left))
  | inr some_left ↦
      let same : release (s.wait_count == 0) calling ≡ calling =
        ap (λ b. release b calling) some_left in
      later linger wait_done es (in_state calling s) (
        subst (λ w. HasIdleMoment linger es (in_state w s)) (sym same)
          (calling-HasIdleMoment linger es s h
            (subst (λ w. (wait_run linger es (in_state w s)).waiter ≡ returned) same e)))
]
calling-HasIdleMoment linger (select_done ∷ es) s h e =
    later linger select_done es (in_state calling s) (calling-HasIdleMoment linger es s h e)
calling-HasIdleMoment at_once (linger_over ∷ es) s h e =
    later at_once linger_over es (in_state calling s) (calling-HasIdleMoment at_once es s h e)
calling-HasIdleMoment for_ever (linger_over ∷ es) s h e =
    later for_ever linger_over es (in_state calling s) (calling-HasIdleMoment for_ever es s h e)
calling-HasIdleMoment up_to_timeout (linger_over ∷ es) s h e =
    let timed_out = wait_run-lingered up_to_timeout es s in
    absurd (ground (arith, sym timed_out ∙ e))

-- From no pipe at all, over any interleaving of the pipes' statements before a call of `WaitSessions`
-- and while it runs: when the call returns, with a linger that is not zero and not since the linger is
-- over, then at some moment since it began each pipe that had been started was over, or had not come
-- to its first statement. A pipe may begin between that moment and the return.
pub wait_sessions-IsIdle :
    (earlier : List PipeEvent) (es : List WaitEvent) (linger : Linger)
    → linger ≢ at_once
    → (wait_run linger es (wait_sessions linger (pipe_run earlier idle))).waiter ≡ returned
    → HasIdleMoment linger es (wait_sessions linger (pipe_run earlier idle))
unfolding wait_sessions
wait_sessions-IsIdle earlier es at_once ne h = absurd (ne refl)
wait_sessions-IsIdle earlier es for_ever ne h =
    calling-HasIdleMoment for_ever es (pipe_run earlier idle)
      (pipe_run-IsCounted earlier idle (refl, refl)) h
wait_sessions-IsIdle earlier es up_to_timeout ne h =
    calling-HasIdleMoment up_to_timeout es (pipe_run earlier idle)
      (pipe_run-IsCounted earlier idle (refl, refl)) h
