-- ===== src/WaylandSource/Watch.antt =====
-- The thread that watches the sources (src/wayland_source.rs, watch_with_poll) in its atomic steps.
use cocoa_way.Base.{
  ℕ, zero, suc, Bool, true, false, not, ◌&&◌, ◌||◌, Option, none, some, List, [], ◌∷◌,
  if◌then◌else◌, set_contains, set_insert,
}
use cocoa_way.WaylandSource.{
  OutputInterest, SourceStatus, record_failure, Answer, interrupted, failed, answered, Retry,
  given_up, again, returned, retry_turn, writable_of,
}

-- What the bits of `revents` say: POLLNVAL, POLLERR or POLLHUP, and any at all.
pub record Events : Type 0 where
  pub is_invalid : Bool
  pub is_broken : Bool
  pub is_set : Bool

-- The answer of a poll, in the order of its descriptors.
pub record Polled : Type 0 where
  pub control : Events
  pub listener : Events
  pub display : Events
  pub writable : List Events

-- Where the thread is: at the head of its loop, with `armed` read, in the poll, with its answer, before
-- the control socket is drained, after that, in the accepts that are left, before the test of the blocked
-- clients, before the swap, before the call of `wake`, and ended.
pub data Phase : Type 0 where
  top waking ended : Phase
  loaded : Bool → Phase
  polling : Bool → List ℕ → Phase
  polled draining drained : List ℕ → Polled → Phase
  accepting : ℕ → List ℕ → List Events → Phase
  checking : Bool → List ℕ → List Events → Phase
  deciding : Bool → Phase

-- `has_notice` is whether the control socket has a byte to read, `notice_due` whether the event loop is
-- in a call that has still to write one. `is_woken` is whether the event loop has
-- accepted a wake since it armed the source last; `failure_wakes` counts the wakes for a failure.
pub record Source : Type 0 where
  pub armed : Bool
  pub has_notice : Bool
  pub notice_due : Bool
  pub status : SourceStatus
  pub output : OutputInterest
  pub phase : Phase
  pub is_woken : Bool
  pub failure_wakes : ℕ

unfoldable pub max_accepts_per_pass : ℕ
max_accepts_per_pass = 32

abbrev pub any_invalid : List Events → Bool
any_invalid [] = false
any_invalid (e ∷ es) = e.is_invalid || any_invalid es

-- `fail`: the wake is called whatever it answers. The loop ends in each place that calls it.
unfoldable pub fail : ℕ → Source → Source
fail message s =
    let (status, recorded) = record_failure s.status message in
    if recorded
    then record s { status = status; phase = ended; failure_wakes = suc s.failure_wakes }
    else record s { phase = ended }

unfoldable pub begin_pass : Source → Source
begin_pass s =
    if s.status.stopping then record s { phase = ended } else record s { phase = loaded s.armed }

unfoldable pub snapshot : Bool → Source → Source
snapshot armed s = record s { phase = polling armed (if armed then writable_of s.output else []) }

abbrev pub has_bad_source : Polled → Bool
has_bad_source p =
    p.control.is_invalid
    || p.listener.is_invalid
    || p.display.is_invalid
    || any_invalid p.writable
    || (p.control.is_broken || p.listener.is_broken || p.display.is_broken)

-- The tests after the poll.
unfoldable pub after_poll : List ℕ → Polled → Source → Source
after_poll writable p s =
    if s.status.stopping
    then record s { phase = ended }
    else if has_bad_source p
    then fail 1 s
    else record s { phase = draining writable p }

unfoldable pub drain : List ℕ → Polled → Source → Source
drain writable p s = record s {
  has_notice = s.has_notice && not p.control.is_set;
  phase = drained writable p;
}

unfoldable pub after_drain : List ℕ → Polled → Source → Source
after_drain writable p s = if s.status.stopping then record s { phase = ended } else record s {
  phase =
      if p.listener.is_set
      then accepting max_accepts_per_pass writable p.writable
      else checking p.display.is_set writable p.writable;
}

unfoldable pub poll_turn : List ℕ → Retry Polled → Source → Source
poll_turn writable given_up s = record s { phase = ended }
poll_turn writable again s = s
poll_turn writable (returned interrupted) s = s
poll_turn writable (returned (failed message)) s = fail message s
poll_turn writable (returned (answered p)) s = record s { phase = polled writable p }

-- An accept hands over a client, or finds the listener drained.
unfoldable pub accept_turn : ℕ → List ℕ → List Events → Retry (Option ℕ) → Source → Source
accept_turn left writable events given_up s = record s { phase = ended }
accept_turn left writable events again s = s
accept_turn left writable events (returned interrupted) s = s
accept_turn left writable events (returned (failed message)) s = fail message s
accept_turn left writable events (returned (answered none)) s = record s {
  phase = checking true writable events;
}
accept_turn left writable events (returned (answered (some id))) s = record s {
  output = record { clients = set_insert id s.output.clients; blocked = s.output.blocked };
  phase = accepting left writable events;
}

unfoldable pub accept_step : ℕ → List ℕ → List Events → Answer (Option ℕ) → Source → Source
accept_step zero writable events answer s = record s { phase = checking true writable events }
accept_step (suc left) writable events answer s =
    accept_turn left writable events (retry_turn s.status.stopping answer) s

-- A client of the snapshot that is ready, and still blocked and known.
unfoldable pub any_writable : OutputInterest → List ℕ → List Events → Bool
any_writable output [] events = false
any_writable output (id ∷ ids) [] = false
any_writable output (id ∷ ids) (e ∷ es) =
    e.is_set && set_contains id output.blocked && set_contains id output.clients
    || any_writable output ids es

unfoldable pub check_writable : Bool → List ℕ → List Events → Source → Source
check_writable ready writable events s = record s {
  phase = deciding (ready || any_writable s.output writable events);
}

unfoldable pub swap_armed : Bool → Source → Source
swap_armed ready s =
    if ready && not s.status.stopping
    then record s { armed = false; phase = if s.armed then waking else top }
    else record s { phase = top }

unfoldable pub call_wake : Bool → Source → Source
call_wake true s = record s { is_woken = true; phase = top }
call_wake false s = record s { status = (record_failure s.status 2).0; phase = ended }

-- What the system answers at a step of the thread.
pub record Answers : Type 0 where
  pub poll : Answer Polled
  pub accept : Answer (Option ℕ)
  pub wake : Bool

unfoldable pub thread_step : Phase → Answers → Source → Source
thread_step top a s = begin_pass s
thread_step (loaded armed) a s = snapshot armed s
thread_step (polling armed writable) a s =
    poll_turn writable (retry_turn s.status.stopping a.poll) s
thread_step (polled writable p) a s = after_poll writable p s
thread_step (draining writable p) a s = drain writable p s
thread_step (drained writable p) a s = after_drain writable p s
thread_step (accepting left writable events) a s = accept_step left writable events a.accept s
thread_step (checking ready writable events) a s = check_writable ready writable events s
thread_step (deciding ready) a s = swap_armed ready s
thread_step waking a s = call_wake a.wake s
thread_step ended a s = s
