-- ===== src/WaylandSource/Owed.antt =====
-- The readiness that the thread of a Wayland source owes the event loop (src/wayland_source.rs).
use cocoa_way.Base.{
  ℕ, ◌≡◌, Bool, true, false, not, ◌&&◌, ◌||◌, List, [], ◌∷◌, any, if◌then◌else◌, set_contains,
}
use cocoa_way.WaylandSource.{OutputInterest, Answer, interrupted, failed, answered}
use cocoa_way.WaylandSource.Watch.{
  Events, Polled, Phase, top, waking, ended, loaded, polling, polled, draining, drained, accepting,
  checking, deciding, Source, Answers,
}
use cocoa_way.WaylandSource.Steps.{
  Step, step_thread, step_interest, step_notify, step_rearm, step_stop, step_join, step_take, step,
}

-- Whether a poll answers that the display or the listener is ready.
abbrev pub reports : Answer Polled → Bool
reports interrupted = false
reports (failed message) = false
reports (answered p) = p.display.is_set || p.listener.is_set

-- The clients of a snapshot that a poll answers for.
abbrev pub ready_clients : List ℕ → List Events → List ℕ
ready_clients [] events = []
ready_clients (id ∷ ids) [] = []
ready_clients (id ∷ ids) (e ∷ es) =
    let rest = ready_clients ids es in if e.is_set then id ∷ rest else rest

-- Whether some client that is ready is blocked and known.
abbrev pub reports_output : OutputInterest → List ℕ → List Events → Bool
reports_output output writable events =
    any (λ id. set_contains id output.blocked && set_contains id output.clients)
      (ready_clients writable events)

-- What a step of the thread finds ready.
abbrev pub found : Phase → Answers → OutputInterest → Bool
found (polling armed writable) a output = reports a.poll
found (checking ready writable events) a output = reports_output output writable events
found top a output = false
found waking a output = false
found ended a output = false
found (loaded armed) a output = false
found (polled writable p) a output = false
found (draining writable p) a output = false
found (drained writable p) a output = false
found (accepting left writable events) a output = false
found (deciding ready) a output = false

-- Whether the thread is on its way to a wake, or has ended.
abbrev pub carries : Phase → Bool
carries top = false
carries waking = true
carries ended = true
carries (loaded armed) = false
carries (polling armed writable) = false
carries (polled writable p) = p.display.is_set || p.listener.is_set
carries (draining writable p) = p.display.is_set || p.listener.is_set
carries (drained writable p) = p.display.is_set || p.listener.is_set
carries (accepting left writable events) = true
carries (checking ready writable events) = ready
carries (deciding ready) = ready

-- Whether readiness is owed after a step: it is found, and the event loop answers for what was found
-- before a rearm, unless the thread is still on its way with it. What is still ready the next poll
-- finds again.
abbrev pub owed_after : Source → Step → Bool → Bool
owed_after s (step_thread a) owed = owed || found s.phase a s.output
owed_after s step_rearm owed = owed && carries s.phase
owed_after s (step_interest removed blocked) owed = owed
owed_after s step_notify owed = owed
owed_after s step_stop owed = owed
owed_after s step_join owed = owed
owed_after s step_take owed = owed

abbrev pub owed_in : Source × ℕ → List Step → Bool → Bool
owed_in w [] owed = owed
owed_in w (x ∷ xs) owed = owed_in (step w x) xs (owed_after w.0 x owed)

-- What is owed the event loop is woken for since its last rearm, or the thread carries it to a wake,
-- or the source is stopping.
unfoldable pub IsHeeded : Bool → Source → Type 0
IsHeeded owed s = (not owed || s.is_woken || carries s.phase || s.status.stopping) ≡ true
