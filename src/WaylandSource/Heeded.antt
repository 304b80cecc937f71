-- ===== src/WaylandSource/Heeded.antt =====
-- The readiness that is owed is heeded at every step (src/wayland_source.rs).
use cocoa_way.Base.{
  ℕ, zero, suc, ◌≡◌, refl, inl, inr, Bool, true, false, not, ◌&&◌, ◌||◌, Option, none, some, List,
  [], ◌∷◌, arith, any, Bool-cases, either_branch,
}
use cocoa_way.WaylandSource.{
  OutputInterest, record_failure, Answer, interrupted, failed, answered, retry_turn, take_failure,
}
use cocoa_way.WaylandSource.Watch.{
  Events, Polled, Phase, top, waking, ended, loaded, polling, polled, draining, drained, accepting,
  checking, deciding, Source, fail, begin_pass, snapshot, has_bad_source, after_poll, drain,
  after_drain, poll_turn, accept_turn, accept_step, any_writable, check_writable, swap_armed,
  call_wake, Answers, thread_step,
}
use cocoa_way.WaylandSource.Steps.{
  notify, set_output_interest, rearm, stop, after_join, Step, step_thread, step_interest,
  step_notify, step_rearm, step_stop, step_join, step_take, step,
}
use cocoa_way.WaylandSource.Watching.{is_done}
use cocoa_way.WaylandSource.Owed.{reports, reports_output, found, carries, owed_after, IsHeeded}

carried : (owed woken stopping : Bool) → (not owed || woken || true || stopping) ≡ true
carried owed woken stopping = ground arith

fail-IsHeeded : (message : ℕ) (owed : Bool) (s : Source) → IsHeeded owed (fail message s)
unfolding IsHeeded fail
fail-IsHeeded message owed s = elim (Bool-cases (record_failure s.status message).1) [
  | inl first ↦ rw first (carried owed s.is_woken (record_failure s.status message).0.stopping)
  | inr later ↦ rw later (carried owed s.is_woken s.status.stopping)
]

ended-IsHeeded : (owed : Bool) (s : Source) → IsHeeded owed (record s { phase = ended })
unfolding IsHeeded
ended-IsHeeded owed s = carried owed s.is_woken s.status.stopping

none_found : (owed : Bool) (s : Source) → IsHeeded owed s → IsHeeded (owed || false) s
unfolding IsHeeded
none_found owed s h = ground (arith, h)

any_writable_lem :
    (output : OutputInterest) (ids : List ℕ) (es : List Events)
    → any_writable output ids es ≡ reports_output output ids es
unfolding any_writable any
any_writable_lem output [] es = refl
any_writable_lem output (id ∷ ids) [] = refl
any_writable_lem output (id ∷ ids) (e ∷ es) =
    let rest = any_writable_lem output ids es in ground (arith, rest)

-- A step between two places of the thread, from what the place before says.
module _ (owed : Bool) (s : Source) where
  begin_pass-IsHeeded :
      (not owed || s.is_woken || false || s.status.stopping) ≡ true → IsHeeded owed (begin_pass s)
  unfolding begin_pass
  begin_pass-IsHeeded h =
      either_branch (IsHeeded owed) s.status.stopping (λ stopped. ended-IsHeeded owed s)
        (λ going. unfold IsHeeded in h)

  after_poll-IsHeeded :
      (w : List ℕ) (p : Polled)
      → (not owed || s.is_woken || (p.display.is_set || p.listener.is_set) || s.status.stopping)
        ≡ true
      → IsHeeded owed (after_poll w p s)
  unfolding after_poll
  after_poll-IsHeeded w p h =
      either_branch (IsHeeded owed) s.status.stopping (λ stopped. ended-IsHeeded owed s)
        (λ going.
          either_branch (IsHeeded owed) (has_bad_source p) (λ bad. fail-IsHeeded 1 owed s)
            (λ good. unfold IsHeeded in h))

  after_drain-IsHeeded :
      (w : List ℕ) (p : Polled)
      → (not owed || s.is_woken || (p.display.is_set || p.listener.is_set) || s.status.stopping)
        ≡ true
      → IsHeeded owed (after_drain w p s)
  unfolding after_drain
  after_drain-IsHeeded w p h =
      either_branch (IsHeeded owed) s.status.stopping (λ stopped. ended-IsHeeded owed s)
        (λ going. elim (Bool-cases p.listener.is_set) [
          | inl new ↦ rw new (unfold IsHeeded in carried owed s.is_woken s.status.stopping)
          | inr old ↦ rw old (unfold IsHeeded in ground arith)
        ])

  poll_turn-IsHeeded :
      (w : List ℕ) (stopping : Bool) (a : Answer Polled)
      → IsHeeded owed s
      → (not owed || s.is_woken || false || s.status.stopping) ≡ true
      → IsHeeded (owed || reports a) (poll_turn w (retry_turn stopping a) s)
  unfolding poll_turn retry_turn
  poll_turn-IsHeeded w true a h g = ended-IsHeeded (owed || reports a) s
  poll_turn-IsHeeded w false interrupted h g = none_found owed s h
  poll_turn-IsHeeded w false (failed message) h g = fail-IsHeeded message (owed || false) s
  poll_turn-IsHeeded w false (answered p) h g = unfold IsHeeded in ground arith

  accept_step-IsHeeded :
      (l : ℕ) (w : List ℕ) (es : List Events) (stopping : Bool) (a : Answer (Option ℕ))
      → IsHeeded owed s
      → IsHeeded owed (accept_turn l w es (retry_turn stopping a) s)
  unfolding accept_turn retry_turn
  accept_step-IsHeeded l w es true a h = ended-IsHeeded owed s
  accept_step-IsHeeded l w es false interrupted h = h
  accept_step-IsHeeded l w es false (failed message) h = fail-IsHeeded message owed s
  accept_step-IsHeeded l w es false (answered none) h =
      unfold IsHeeded in carried owed s.is_woken s.status.stopping
  accept_step-IsHeeded l w es false (answered (some id)) h =
      unfold IsHeeded in carried owed s.is_woken s.status.stopping

  swap_armed-IsHeeded :
      (ready : Bool)
      → (s.armed || s.is_woken || false) ≡ true
      → (not owed || s.is_woken || ready || s.status.stopping) ≡ true
      → IsHeeded owed (swap_armed ready s)
  unfolding swap_armed
  swap_armed-IsHeeded ready armed h =
      either_branch (IsHeeded owed) (ready && not s.status.stopping)
        (λ going. elim (Bool-cases s.armed) [
          | inl was ↦ rw was (unfold IsHeeded in carried owed s.is_woken s.status.stopping)
          | inr unset ↦ rw unset (unfold IsHeeded in ground arith)
        ])
        (λ idle. unfold IsHeeded in ground arith)

  call_wake-IsHeeded : (accepted : Bool) → IsHeeded owed (call_wake accepted s)
  unfolding call_wake IsHeeded
  call_wake-IsHeeded true = ground arith
  call_wake-IsHeeded false = ground arith

thread_step-IsHeeded :
    (p : Phase) (a : Answers) (owed : Bool) (s : Source)
    → s.phase ≡ p
    → (s.armed || s.is_woken || is_done p) ≡ true
    → IsHeeded owed s
    → IsHeeded (owed || found p a s.output) (thread_step p a s)
unfolding thread_step
thread_step-IsHeeded p a owed s e armed h = at p e armed (unfold IsHeeded in rw e at h)
  where
    at :
        (p : Phase)
        → s.phase ≡ p
        → (s.armed || s.is_woken || is_done p) ≡ true
        → (not owed || s.is_woken || carries p || s.status.stopping) ≡ true
        → IsHeeded (owed || found p a s.output) (thread_step p a s)
    at top e armed g = none_found owed _ (begin_pass-IsHeeded owed s g)
    at (loaded b) e armed g = none_found owed _ (unfold snapshot IsHeeded in g)
    at (polling b w) e armed g = poll_turn-IsHeeded owed s w s.status.stopping a.poll h g
    at (polled w p) e armed g = none_found owed _ (after_poll-IsHeeded owed s w p g)
    at (draining w p) e armed g = none_found owed _ (unfold drain IsHeeded in g)
    at (drained w p) e armed g = none_found owed _ (after_drain-IsHeeded owed s w p g)
    at (accepting zero w es) e armed g =
        unfold accept_step IsHeeded in carried (owed || false) s.is_woken s.status.stopping
    at (accepting (suc l) w es) e armed g =
        none_found owed _
          (unfold accept_step in accept_step-IsHeeded owed s l w es s.status.stopping a.accept h)
    at (checking ready w es) e armed g =
        let same = any_writable_lem s.output w es in
        unfold check_writable IsHeeded in ground (arith, same)
    at (deciding ready) e armed g = none_found owed _ (swap_armed-IsHeeded owed s ready armed g)
    at waking e armed g = none_found owed _ (call_wake-IsHeeded owed s a.wake)
    at ended e armed g = none_found owed s h

after_join-IsHeeded :
    (p : Phase) (owed : Bool) (s : Source) → IsHeeded owed s → IsHeeded owed (after_join p s)
unfolding after_join IsHeeded
after_join-IsHeeded ended owed s h = h
after_join-IsHeeded top owed s h = h
after_join-IsHeeded waking owed s h = h
after_join-IsHeeded (loaded a) owed s h = h
after_join-IsHeeded (polling a w) owed s h = h
after_join-IsHeeded (polled w p) owed s h = h
after_join-IsHeeded (draining w p) owed s h = h
after_join-IsHeeded (drained w p) owed s h = h
after_join-IsHeeded (accepting l w es) owed s h = h
after_join-IsHeeded (checking r w es) owed s h = h
after_join-IsHeeded (deciding r) owed s h = h

pub step-IsHeeded :
    (w : Source × ℕ) (x : Step) (owed : Bool)
    → (w.0.armed || w.0.is_woken || is_done w.0.phase) ≡ true
    → IsHeeded owed w.0
    → IsHeeded (owed_after w.0 x owed) (step w x).0
unfolding step
step-IsHeeded w (step_thread a) owed armed h =
    thread_step-IsHeeded w.0.phase a owed w.0 refl armed h
step-IsHeeded w (step_interest removed blocked) owed armed h =
    unfold set_output_interest IsHeeded in h
step-IsHeeded w step_notify owed armed h =
    either_branch (IsHeeded owed) w.0.notice_due (λ due. unfold notify IsHeeded in h)
      (λ none_due. h)
step-IsHeeded w step_rearm owed armed h = unfold rearm IsHeeded in ground arith
step-IsHeeded w step_stop owed armed h = unfold stop IsHeeded in ground arith
step-IsHeeded w step_join owed armed h = after_join-IsHeeded w.0.phase owed w.0 h
step-IsHeeded w step_take owed armed h = unfold take_failure IsHeeded in h
