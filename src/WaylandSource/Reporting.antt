-- ===== src/WaylandSource/Reporting.antt =====
-- Failures in the steps of the thread and the calls of the event loop (src/wayland_source.rs).
use cocoa_way.Base.{
  ℕ, zero, suc, ◌≡◌, refl, sym, ap, subst, inl, inr, Bool, true, false, not, ◌&&◌, Option, none,
  some, List, [], ◌∷◌, if◌then◌else◌, arith, Bool-cases, either_branch,
}
use cocoa_way.WaylandSource.{
  Answer, interrupted, failed, answered, Retry, given_up, again, returned, retry_turn, take_failure,
}
use cocoa_way.WaylandSource.Watch.{
  Events, Polled, Phase, top, waking, ended, loaded, polling, polled, draining, drained, accepting,
  checking, deciding, Source, begin_pass, snapshot, has_bad_source, after_poll, drain, after_drain,
  poll_turn, accept_turn, accept_step, check_writable, swap_armed, Answers, thread_step,
}
use cocoa_way.WaylandSource.Steps.{
  start, notify, set_output_interest, rearm, stop, after_join, Step, step_thread, step_interest,
  step_notify, step_rearm, step_stop, step_join, step_take, step, run,
}
use cocoa_way.WaylandSource.Failures.{
  Reports, IsReporting, moved-Reports, stopped-Reports, fail-IsReporting, call_wake-IsReporting,
}

begin_pass-IsReporting :
    (taken : ℕ) (s : Source) → IsReporting (s, taken) → IsReporting (begin_pass s, taken)
unfolding IsReporting begin_pass
begin_pass-IsReporting taken s h =
    let passes = λ (b : Bool).
      IsReporting
        (if b then record s { phase = ended } else record s { phase = loaded s.armed }, taken) in
    elim (Bool-cases s.status.stopping) [
      | inl stopped ↦
          subst passes (sym stopped)
            (stopped-Reports s.status s.phase s.failure_wakes taken stopped h)
      | inr going ↦
          subst passes (sym going)
            (moved-Reports s.status s.phase (loaded s.armed) s.failure_wakes taken refl h)
    ]

after_poll-IsReporting :
    (w : List ℕ) (p : Polled) (taken : ℕ) (s : Source)
    → IsReporting (s, taken)
    → IsReporting (after_poll w p s, taken)
unfolding IsReporting after_poll
after_poll-IsReporting w p taken s h =
    either_branch (λ x. IsReporting (x, taken)) s.status.stopping
      (λ stopped. stopped-Reports s.status s.phase s.failure_wakes taken stopped h)
      (λ going.
        either_branch (λ x. IsReporting (x, taken)) (has_bad_source p)
          (λ bad. fail-IsReporting 1 taken s h)
          (λ good. moved-Reports s.status s.phase (draining w p) s.failure_wakes taken refl h))

after_drain-IsReporting :
    (w : List ℕ) (p : Polled) (taken : ℕ) (s : Source)
    → IsReporting (s, taken)
    → IsReporting (after_drain w p s, taken)
unfolding IsReporting after_drain
after_drain-IsReporting w p taken s h =
    either_branch (λ x. IsReporting (x, taken)) s.status.stopping
      (λ stopped. stopped-Reports s.status s.phase s.failure_wakes taken stopped h)
      (λ going. elim (Bool-cases p.listener.is_set) [
        | inl new ↦
            rw new (
              moved-Reports s.status s.phase (accepting _ w p.writable) s.failure_wakes taken refl
                h)
        | inr old ↦ rw old (
            moved-Reports s.status s.phase (checking p.display.is_set w p.writable) s.failure_wakes
              taken refl h)
      ])

abbrev is_given_up : {T : Type 0} → Retry T → Bool
is_given_up given_up = true
is_given_up again = false
is_given_up (returned a) = false

-- `retry_interrupted` gives up only after a stop.
given_up-stopping :
    {T : Type 0} (stopping : Bool) (a : Answer T)
    → retry_turn stopping a ≡ given_up
    → stopping ≡ true
unfolding retry_turn
given_up-stopping true a e = refl
given_up-stopping false interrupted e = ap is_given_up e
given_up-stopping false (failed message) e = ap is_given_up e
given_up-stopping false (answered value) e = ap is_given_up e

poll_turn-IsReporting :
    (w : List ℕ) (r : Retry Polled) (taken : ℕ) (s : Source)
    → (r ≡ given_up → s.status.stopping ≡ true)
    → IsReporting (s, taken)
    → IsReporting (poll_turn w r s, taken)
unfolding IsReporting poll_turn
poll_turn-IsReporting w given_up taken s stopped h =
    stopped-Reports s.status s.phase s.failure_wakes taken (stopped refl) h
poll_turn-IsReporting w again taken s stopped h = h
poll_turn-IsReporting w (returned interrupted) taken s stopped h = h
poll_turn-IsReporting w (returned (failed message)) taken s stopped h =
    fail-IsReporting message taken s h
poll_turn-IsReporting w (returned (answered p)) taken s stopped h =
    moved-Reports s.status s.phase (polled w p) s.failure_wakes taken refl h

accept_turn-IsReporting :
    (l : ℕ) (w : List ℕ) (es : List Events) (r : Retry (Option ℕ)) (taken : ℕ) (s : Source)
    → (r ≡ given_up → s.status.stopping ≡ true)
    → IsReporting (s, taken)
    → IsReporting (accept_turn l w es r s, taken)
unfolding IsReporting accept_turn
accept_turn-IsReporting l w es given_up taken s stopped h =
    stopped-Reports s.status s.phase s.failure_wakes taken (stopped refl) h
accept_turn-IsReporting l w es again taken s stopped h = h
accept_turn-IsReporting l w es (returned interrupted) taken s stopped h = h
accept_turn-IsReporting l w es (returned (failed message)) taken s stopped h =
    fail-IsReporting message taken s h
accept_turn-IsReporting l w es (returned (answered none)) taken s stopped h =
    moved-Reports s.status s.phase _ s.failure_wakes taken refl h
accept_turn-IsReporting l w es (returned (answered (some id))) taken s stopped h =
    moved-Reports s.status s.phase _ s.failure_wakes taken refl h

accept_step-IsReporting :
    (l : ℕ) (w : List ℕ) (es : List Events) (a : Answer (Option ℕ)) (taken : ℕ) (s : Source)
    → IsReporting (s, taken)
    → IsReporting (accept_step l w es a s, taken)
unfolding IsReporting accept_step
accept_step-IsReporting zero w es a taken s h =
    moved-Reports s.status s.phase (checking true w es) s.failure_wakes taken refl h
accept_step-IsReporting (suc l) w es a taken s h =
    accept_turn-IsReporting l w es (retry_turn s.status.stopping a) taken s
      (given_up-stopping s.status.stopping a) h

swap_armed-IsReporting :
    (ready : Bool) (taken : ℕ) (s : Source)
    → IsReporting (s, taken)
    → IsReporting (swap_armed ready s, taken)
unfolding IsReporting swap_armed
swap_armed-IsReporting ready taken s h = elim (Bool-cases (ready && not s.status.stopping)) [
  | inl going ↦ elim (Bool-cases s.armed) [
    | inl was ↦ rw (going, was) (moved-Reports s.status s.phase waking s.failure_wakes taken refl h)
    | inr unset ↦
        rw (going, unset) (moved-Reports s.status s.phase top s.failure_wakes taken refl h)
  ]
  | inr idle ↦ rw idle (moved-Reports s.status s.phase top s.failure_wakes taken refl h)
]

thread_step-IsReporting :
    (p : Phase) (a : Answers) (taken : ℕ) (s : Source)
    → IsReporting (s, taken)
    → IsReporting (thread_step p a s, taken)
unfolding thread_step
thread_step-IsReporting top a taken s h = begin_pass-IsReporting taken s h
thread_step-IsReporting (loaded armed) a taken s h =
    unfold snapshot IsReporting in
    moved-Reports s.status s.phase (polling armed _) s.failure_wakes taken refl h
thread_step-IsReporting (polling armed w) a taken s h =
    poll_turn-IsReporting w (retry_turn s.status.stopping a.poll) taken s
      (given_up-stopping s.status.stopping a.poll) h
thread_step-IsReporting (polled w p) a taken s h = after_poll-IsReporting w p taken s h
thread_step-IsReporting (draining w p) a taken s h =
    unfold drain IsReporting in
    moved-Reports s.status s.phase (drained w p) s.failure_wakes taken refl h
thread_step-IsReporting (drained w p) a taken s h = after_drain-IsReporting w p taken s h
thread_step-IsReporting (accepting l w es) a taken s h =
    accept_step-IsReporting l w es a.accept taken s h
thread_step-IsReporting (checking ready w es) a taken s h =
    unfold check_writable IsReporting in
    moved-Reports s.status s.phase (deciding _) s.failure_wakes taken refl h
thread_step-IsReporting (deciding ready) a taken s h = swap_armed-IsReporting ready taken s h
thread_step-IsReporting waking a taken s h = call_wake-IsReporting a.wake taken s h
thread_step-IsReporting ended a taken s h = h

-- The calls of the event loop that leave the thread where it is.
interest-IsReporting :
    (removed blocked : List ℕ) (taken : ℕ) (s : Source)
    → IsReporting (s, taken)
    → IsReporting (set_output_interest removed blocked s, taken)
unfolding IsReporting set_output_interest
interest-IsReporting removed blocked taken s h = h

notify-IsReporting :
    (taken : ℕ) (s : Source)
    → IsReporting (s, taken)
    → IsReporting (if s.notice_due then notify s else s, taken)
unfolding IsReporting notify
notify-IsReporting taken s h =
    either_branch (λ x. IsReporting (x, taken)) s.notice_due (λ due. h) (λ none_due. h)

rearm-IsReporting : (taken : ℕ) (s : Source) → IsReporting (s, taken) → IsReporting (rearm s, taken)
unfolding IsReporting rearm
rearm-IsReporting taken s h = h

stop-IsReporting : (taken : ℕ) (s : Source) → IsReporting (s, taken) → IsReporting (stop s, taken)
unfolding IsReporting Reports stop
stop-IsReporting taken s (same, few, over) = (same, few, ground arith)

join-IsReporting :
    (p : Phase) (taken : ℕ) (s : Source)
    → IsReporting (s, taken)
    → IsReporting (after_join p s, taken)
unfolding IsReporting after_join
join-IsReporting ended taken s h = h
join-IsReporting top taken s h = h
join-IsReporting waking taken s h = h
join-IsReporting (loaded a) taken s h = h
join-IsReporting (polling a w) taken s h = h
join-IsReporting (polled w p) taken s h = h
join-IsReporting (draining w p) taken s h = h
join-IsReporting (drained w p) taken s h = h
join-IsReporting (accepting l w es) taken s h = h
join-IsReporting (checking r w es) taken s h = h
join-IsReporting (deciding r) taken s h = h

step-IsReporting : (w : Source × ℕ) (x : Step) → IsReporting w → IsReporting (step w x)
unfolding step
step-IsReporting (s, taken) (step_thread a) h = thread_step-IsReporting s.phase a taken s h
step-IsReporting (s, taken) (step_interest removed blocked) h =
    interest-IsReporting removed blocked taken s h
step-IsReporting (s, taken) step_notify h = notify-IsReporting taken s h
step-IsReporting (s, taken) step_rearm h = rearm-IsReporting taken s h
step-IsReporting (s, taken) step_stop h = stop-IsReporting taken s h
step-IsReporting (s, taken) step_join h = join-IsReporting s.phase taken s h
step-IsReporting (s, taken) step_take h =
    unfold IsReporting Reports take_failure in (omega (arith, h.0), h.1, h.2)

run-IsReporting : (w : Source × ℕ) (xs : List Step) → IsReporting w → IsReporting (run w xs)
unfolding run
run-IsReporting w [] h = h
run-IsReporting w (x ∷ xs) h = run-IsReporting (step w x) xs (step-IsReporting w x h)

-- In any order of the thread's atomic steps and the calls of the event loop: the messages taken with
-- the one that is kept are as many as the failures recorded, one at most, the wakes for a failure are
-- no more, and a thread that has ended was asked to stop or has recorded a failure.
pub run-start-IsReporting : (xs : List Step) → IsReporting (run (start, 0) xs)
unfolding start IsReporting Reports
run-start-IsReporting xs = run-IsReporting (start, 0) xs (refl, omega arith, refl)
