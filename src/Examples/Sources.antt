-- ===== src/Examples/Sources.antt =====
-- Runs of the Wayland sources (src/wayland_source.rs).
use cocoa_way.Base.{◌≡◌, refl, true, false, none, some, List, [], ◌∷◌}
use cocoa_way.WaylandSource as sources
use cocoa_way.WaylandSource.{Answer, interrupted, failed, answered}
use cocoa_way.WaylandSource.Watch as watch
use cocoa_way.WaylandSource.Watch.{Events, Polled, Answers}
use cocoa_way.WaylandSource.Steps as steps
use cocoa_way.WaylandSource.Steps.{
  Step, step_thread, step_interest, step_notify, step_rearm, step_stop, step_join, step_take,
}
use cocoa_way.WaylandSource.Watching.{IsWatching}
use cocoa_way.WaylandSource.Owed.{IsHeeded, owed_in}
use cocoa_way.WaylandSource.Readiness.{run-start-IsWatching}
use cocoa_way.WaylandSource.Failures.{IsReporting}
use cocoa_way.WaylandSource.Reporting.{run-start-IsReporting}

abbrev silent : Events
silent = record { is_invalid = false; is_broken = false; is_set = false }

abbrev set : Events
set = record { is_invalid = false; is_broken = false; is_set = true }

-- A poll that finds the display and the listener ready, then an accept of the client 4.
abbrev ready : Step
ready = step_thread (record {
  poll = answered (record { control = silent; listener = set; display = set; writable = [] });
  accept = answered (some 4);
  wake = true;
})

abbrev drained : Step
drained = step_thread (record { poll = interrupted; accept = answered none; wake = true })

abbrev broken : Step
broken = step_thread (record { poll = failed 9; accept = failed 9; wake = true })

-- A pass that wakes the event loop, a rearm during the next poll, and the failure of a poll.
abbrev calls : List Step
calls =
    ready
    ∷ ready
    ∷ ready
    ∷ ready
    ∷ ready
    ∷ ready
    ∷ ready
    ∷ drained
    ∷ drained
    ∷ drained
    ∷ drained
    ∷ drained
    ∷ drained
    ∷ step_rearm
    ∷ step_notify
    ∷ step_interest [] (4 ∷ [])
    ∷ step_notify
    ∷ broken
    ∷ step_take
    ∷ step_take
    ∷ []

run-start-IsWatching_example :
    IsWatching (steps.run (steps.start, 0) calls).0
    × IsHeeded (owed_in (steps.start, 0) calls false) (steps.run (steps.start, 0) calls).0
run-start-IsWatching_example = run-start-IsWatching calls

run-start-IsReporting_example : IsReporting (steps.run (steps.start, 0) calls)
run-start-IsReporting_example = run-start-IsReporting calls

-- The one failure was taken, and the thread has ended with a wake for it.
calls-taken : (steps.run (steps.start, 0) calls).1 ≡ 1
unfolding steps.run steps.start steps.step watch.thread_step watch.begin_pass watch.snapshot
    watch.poll_turn watch.after_poll watch.drain watch.after_drain watch.accept_step
    watch.accept_turn watch.check_writable watch.any_writable watch.swap_armed watch.call_wake
    watch.fail watch.max_accepts_per_pass sources.record_failure sources.take_failure
    sources.retry_turn sources.writable_of sources.keep steps.set_output_interest steps.notify
    steps.rearm sources.apply_interest sources.set_eq sources.all_in
calls-taken = refl

calls-failure_wakes : (steps.run (steps.start, 0) calls).0.failure_wakes ≡ 1
unfolding steps.run steps.start steps.step watch.thread_step watch.begin_pass watch.snapshot
    watch.poll_turn watch.after_poll watch.drain watch.after_drain watch.accept_step
    watch.accept_turn watch.check_writable watch.any_writable watch.swap_armed watch.call_wake
    watch.fail watch.max_accepts_per_pass sources.record_failure sources.take_failure
    sources.retry_turn sources.writable_of sources.keep steps.set_output_interest steps.notify
    steps.rearm sources.apply_interest sources.set_eq sources.all_in
calls-failure_wakes = refl
