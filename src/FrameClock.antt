-- ===== src/FrameClock.antt =====
-- Frame pacing for one native window (src/frame_clock.rs). An `Instant` is a number of nanoseconds;
-- `duration_since` stops at 0, as in Rust.
pub mod Phase
pub mod Pace
use cocoa_way.Base.{
  ℕ, ◌+◌, ◌-◌, ◌/◌, ◌%◌, max, Bool, not, ◌&&◌, Option, none, some, leb, ◌==◌, if◌then◌else◌,
  is_some,
}

abbrev pub default_refresh_millihertz : ℕ
default_refresh_millihertz = 60000

pub record FrameClock : Type 0 where
  pub refresh_millihertz : ℕ
  pub phase_anchor : Option ℕ
  pub last_frame_started : Option ℕ

-- The rate that is set for a monitor's answer.
unfoldable pub plausible : Option ℕ → ℕ
plausible none = default_refresh_millihertz
plausible (some rate) =
    if leb 1000 rate && leb rate 1000000 then rate else default_refresh_millihertz

unfoldable pub set_refresh_millihertz : FrameClock → Option ℕ → FrameClock
set_refresh_millihertz c rate =
    let refresh = plausible rate in
    if not (refresh == c.refresh_millihertz)
    then record c { phase_anchor = c.last_frame_started; refresh_millihertz = refresh }
    else c

unfoldable pub new : Option ℕ → FrameClock
new rate =
    set_refresh_millihertz
      record {
        refresh_millihertz = default_refresh_millihertz;
        phase_anchor = none;
        last_frame_started = none;
      }
      rate

-- `10^12.div_ceil(rate)`, the period in nanoseconds.
unfoldable pub period_ns : ℕ → ℕ
period_ns rate = (1000000000000 + rate - 1) / rate

-- The next slot of the phase after `last`.
unfoldable pub next_slot : ℕ → ℕ → ℕ → ℕ
next_slot period anchor last = last + (period - (last - anchor) % period)

unfoldable pub due_at : ℕ → Option ℕ → Option ℕ → ℕ → ℕ
due_at period (some anchor) (some last) now = next_slot period anchor last
due_at period none last now = now
due_at period (some anchor) none now = now

unfoldable pub next_due : FrameClock → ℕ → Bool → Option ℕ
next_due c now has_work =
    if not has_work
    then none
    else some
        (max (due_at (period_ns c.refresh_millihertz) c.phase_anchor c.last_frame_started now) now)

unfoldable pub get_or_insert : Option ℕ → ℕ → ℕ
get_or_insert none a = a
get_or_insert (some b) a = b

unfoldable pub map_or_max : Option ℕ → ℕ → ℕ
map_or_max none a = a
map_or_max (some b) a = max b a

unfoldable pub record_frame_started : FrameClock → ℕ → FrameClock
record_frame_started c started_at = record c {
  phase_anchor = some (get_or_insert c.phase_anchor started_at);
  last_frame_started = some (map_or_max c.last_frame_started started_at);
}

unfoldable pub record_submission : FrameClock → ℕ → FrameClock
record_submission c submitted_at =
    if is_some c.last_frame_started then c else record_frame_started c submitted_at
