-- ===== src/WaylandSource/Readiness.antt =====
-- The steps of the thread and what it watches (src/wayland_source.rs, watch_with_poll).
use cocoa_way.Base.{
  ℕ, zero, suc, ◌≡◌, refl, subst, inl, inr, Bool, true, false, not, ◌&&◌, ◌||◌, Option, none, some,
  List, [], ◌∷◌, arith, Bool-cases, either_branch,
}
use cocoa_way.WaylandSource.{
  record_failure, Answer, interrupted, failed, answered, Retry, given_up, again, returned,
  retry_turn, take_failure,
}
use cocoa_way.WaylandSource.Watch.{
  Events, Polled, Phase, top, waking, ended, loaded, polling, polled, draining, drained, accepting,
  checking, deciding, Source, fail, begin_pass, snapshot, has_bad_source, after_poll, drain,
  after_drain, poll_turn, accept_turn, accept_step, check_writable, swap_armed, call_wake, Answers,
  thread_step,
}
use cocoa_way.WaylandSource.Steps.{
  start, Step, step_thread, step_interest, step_notify, step_rearm, step_stop, step_join, step_take,
  step, run,
}
use cocoa_way.WaylandSource.Owed.{IsHeeded, owed_after, owed_in}
use cocoa_way.WaylandSource.Heeded.{step-IsHeeded}
use cocoa_way.WaylandSource.Watching.{
  Watches, IsWatching, owed-ended, loaded-Watches, snapshot-Watches, set_output_interest-IsWatching,
  rearm-IsWatching, stop-IsWatching, join-IsWatching, notify-IsWatching,
}

fail-IsWatching : (message : ℕ) (s : Source) → IsWatching (fail message s)
unfolding IsWatching fail Watches
fail-IsWatching message s = elim (Bool-cases (record_failure s.status message).1) [
  | inl first ↦ rw first (tt, owed-ended s.armed s.is_woken)
  | inr later ↦ rw later (tt, owed-ended s.armed s.is_woken)
]

begin_pass-IsWatching :
    (s : Source) → (s.armed || s.is_woken || false) ≡ true → IsWatching (begin_pass s)
unfolding IsWatching begin_pass Watches
begin_pass-IsWatching s owed = elim (Bool-cases s.status.stopping) [
  | inl stopped ↦ rw stopped (tt, owed-ended s.armed s.is_woken)
  | inr going ↦ rw going (loaded-Watches s.armed (s.notice_due || s.has_notice) s.output, owed)
]

after_poll-IsWatching :
    (w : List ℕ) (p : Polled) (s : Source)
    → (s.armed || s.is_woken || false) ≡ true
    → IsWatching (after_poll w p s)
unfolding IsWatching after_poll Watches
after_poll-IsWatching w p s owed =
    either_branch IsWatching s.status.stopping (λ stopped. (tt, owed-ended s.armed s.is_woken))
      (λ going.
        either_branch IsWatching (has_bad_source p) (λ bad. fail-IsWatching 1 s)
          (λ good. (tt, owed)))

after_drain-IsWatching :
    (w : List ℕ) (p : Polled) (s : Source)
    → (s.armed || s.is_woken || false) ≡ true
    → IsWatching (after_drain w p s)
unfolding IsWatching after_drain Watches
after_drain-IsWatching w p s owed =
    either_branch IsWatching s.status.stopping (λ stopped. (tt, owed-ended s.armed s.is_woken))
      (λ going. elim (Bool-cases p.listener.is_set) [
        | inl new ↦ rw new (tt, owed)
        | inr old ↦ rw old (tt, owed)
      ])

poll_turn-IsWatching :
    (a : Bool) (w : List ℕ) (r : Retry Polled) (s : Source)
    → s.phase ≡ polling a w
    → IsWatching s
    → IsWatching (poll_turn w r s)
unfolding IsWatching poll_turn Watches
poll_turn-IsWatching a w given_up s e h = (tt, owed-ended s.armed s.is_woken)
poll_turn-IsWatching a w again s e h = h
poll_turn-IsWatching a w (returned interrupted) s e h = h
poll_turn-IsWatching a w (returned (failed message)) s e h = fail-IsWatching message s
poll_turn-IsWatching a w (returned (answered p)) s e h = (tt, rw e at h.1)

accept_turn-IsWatching :
    (l : ℕ) (w : List ℕ) (es : List Events) (r : Retry (Option ℕ)) (s : Source)
    → IsWatching s
    → (s.armed || s.is_woken || false) ≡ true
    → IsWatching (accept_turn l w es r s)
unfolding IsWatching accept_turn Watches
accept_turn-IsWatching l w es given_up s h owed = (tt, owed-ended s.armed s.is_woken)
accept_turn-IsWatching l w es again s h owed = h
accept_turn-IsWatching l w es (returned interrupted) s h owed = h
accept_turn-IsWatching l w es (returned (failed message)) s h owed = fail-IsWatching message s
accept_turn-IsWatching l w es (returned (answered none)) s h owed = (tt, owed)
accept_turn-IsWatching l w es (returned (answered (some id))) s h owed = (tt, owed)

accept_step-IsWatching :
    (l : ℕ) (w : List ℕ) (es : List Events) (a : Answer (Option ℕ)) (s : Source)
    → IsWatching s
    → (s.armed || s.is_woken || false) ≡ true
    → IsWatching (accept_step l w es a s)
unfolding IsWatching accept_step Watches
accept_step-IsWatching zero w es a s h owed = (tt, owed)
accept_step-IsWatching (suc l) w es a s h owed =
    accept_turn-IsWatching l w es (retry_turn s.status.stopping a) s h owed

swap_armed-IsWatching :
    (ready : Bool) (s : Source)
    → (s.armed || s.is_woken || false) ≡ true
    → IsWatching (swap_armed ready s)
unfolding IsWatching swap_armed Watches
swap_armed-IsWatching ready s owed = elim (Bool-cases (ready && not s.status.stopping)) [
  | inl going ↦ elim (Bool-cases s.armed) [
    | inl was ↦ rw (going, was) (tt, owed-ended false s.is_woken)
    | inr unset ↦ rw (going, unset) (tt, ground arith)
  ]
  | inr idle ↦ rw idle (tt, owed)
]

call_wake-IsWatching : (accepted : Bool) (s : Source) → IsWatching (call_wake accepted s)
unfolding IsWatching call_wake Watches
call_wake-IsWatching true s = (tt, ground arith)
call_wake-IsWatching false s = (tt, owed-ended s.armed s.is_woken)

thread_step-IsWatching :
    (p : Phase) (a : Answers) (s : Source)
    → s.phase ≡ p
    → IsWatching s
    → IsWatching (thread_step p a s)
unfolding thread_step IsWatching
thread_step-IsWatching top a s e h = begin_pass-IsWatching s (rw e at h.1)
thread_step-IsWatching (loaded armed) a s e h =
    unfold snapshot in
    (
      snapshot-Watches armed s.armed (s.notice_due || s.has_notice) s.output
          (subst (λ p. Watches p s.armed (s.notice_due || s.has_notice) s.output) e h.0),
      rw e at h.1,
    )
thread_step-IsWatching (polling armed w) a s e h =
    poll_turn-IsWatching armed w (retry_turn s.status.stopping a.poll) s e h
thread_step-IsWatching (polled w p) a s e h = after_poll-IsWatching w p s (rw e at h.1)
thread_step-IsWatching (draining w p) a s e h = unfold drain Watches in (tt, rw e at h.1)
thread_step-IsWatching (drained w p) a s e h = after_drain-IsWatching w p s (rw e at h.1)
thread_step-IsWatching (accepting l w es) a s e h =
    accept_step-IsWatching l w es a.accept s h (rw e at h.1)
thread_step-IsWatching (checking ready w es) a s e h =
    unfold check_writable Watches in (tt, rw e at h.1)
thread_step-IsWatching (deciding ready) a s e h = swap_armed-IsWatching ready s (rw e at h.1)
thread_step-IsWatching waking a s e h = call_wake-IsWatching a.wake s
thread_step-IsWatching ended a s e h = h

step-IsWatching : (w : Source × ℕ) (x : Step) → IsWatching w.0 → IsWatching (step w x).0
unfolding step
step-IsWatching w (step_thread a) h = thread_step-IsWatching w.0.phase a w.0 refl h
step-IsWatching w (step_interest removed blocked) h =
    set_output_interest-IsWatching removed blocked w.0 h
step-IsWatching w step_notify h = notify-IsWatching w.0 h
step-IsWatching w step_rearm h = rearm-IsWatching w.0 h
step-IsWatching w step_stop h = stop-IsWatching w.0 h
step-IsWatching w step_join h = join-IsWatching w.0.phase w.0 refl h
step-IsWatching w step_take h = unfold take_failure IsWatching in h

run-IsWatching : (w : Source × ℕ) (xs : List Step) → IsWatching w.0 → IsWatching (run w xs).0
unfolding run
run-IsWatching w [] h = h
run-IsWatching w (x ∷ xs) h = run-IsWatching (step w x) xs (step-IsWatching w x h)

run-IsHeeded :
    (w : Source × ℕ) (xs : List Step) (owed : Bool)
    → IsWatching w.0
    → IsHeeded owed w.0
    → IsHeeded (owed_in w xs owed) (run w xs).0
unfolding run
run-IsHeeded w [] owed h heeded = heeded
run-IsHeeded w (x ∷ xs) owed h heeded =
    run-IsHeeded (step w x) xs (owed_after w.0 x owed) (step-IsWatching w x h)
      (step-IsHeeded w x owed (unfold IsWatching in h.1) heeded)

-- In any order of the thread's atomic steps and the calls of the event loop: a thread that has read
-- `armed` set finds it set, and polls exactly the clients that are blocked and known unless a notice
-- ends its poll, or the call that sends one is still on; one that has read it unset has such a notice
-- if it is set by now. While `armed` is unset the event loop has accepted a wake since it set it last,
-- or the thread is about to call one, or it has ended. And no readiness is lost: if a poll has found
-- the display or the listener ready, or a client that is still blocked and known, then the event loop
-- has accepted a wake since its last rearm, or the thread goes on to the wake, or it has ended, or the
-- source is stopping. A rearm answers for what was found before, except for what the thread is still
-- on its way with.
pub run-start-IsWatching :
    (xs : List Step)
    → IsWatching (run (start, 0) xs).0
      × IsHeeded (owed_in (start, 0) xs false) (run (start, 0) xs).0
unfolding start IsWatching Watches IsHeeded
run-start-IsWatching xs =
    (run-IsWatching (start, 0) xs (tt, refl), run-IsHeeded (start, 0) xs false (tt, refl) refl)
