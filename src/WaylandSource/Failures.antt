-- ===== src/WaylandSource/Failures.antt =====
-- How failures are recorded (src/wayland_source.rs, SourceStatus).
use cocoa_way.Base.{
  ℕ, ◌+◌, ◌≤◌, ◌≡◌, refl, inl, inr, Bool, true, false, not, ◌||◌, nat_of, arith, Bool-cases,
}
use cocoa_way.WaylandSource.{SourceStatus, record_failure}
use cocoa_way.WaylandSource.Watch.{
  Phase, top, waking, ended, loaded, polling, polled, draining, drained, accepting, checking,
  deciding, Source, fail, call_wake,
}
use cocoa_way.WaylandSource.Steps.{count_of}

abbrev pub is_ended : Phase → Bool
is_ended top = false
is_ended waking = false
is_ended ended = true
is_ended (loaded armed) = false
is_ended (polling armed writable) = false
is_ended (polled writable p) = false
is_ended (draining writable p) = false
is_ended (drained writable p) = false
is_ended (accepting left writable events) = false
is_ended (checking ready writable events) = false
is_ended (deciding ready) = false

-- The messages that were taken and the one that is kept are what was recorded, a failure wakes at most
-- once, and a thread that has ended was stopped or has recorded a failure.
unfoldable pub Reports : SourceStatus → Phase → ℕ → ℕ → Type 0
Reports status phase wakes taken =
    (taken + count_of status.failure.message ≡ nat_of status.failure.recorded)
    × (wakes ≤ nat_of status.failure.recorded)
    × ((not (is_ended phase) || status.stopping || status.failure.recorded) ≡ true)

unfoldable pub IsReporting : Source × ℕ → Type 0
IsReporting (s, taken) = Reports s.status s.phase s.failure_wakes taken

-- The thread goes on to another place.
pub moved-Reports :
    (status : SourceStatus) (p q : Phase) (wakes taken : ℕ)
    → is_ended q ≡ false
    → Reports status p wakes taken
    → Reports status q wakes taken
unfolding Reports
moved-Reports status p q wakes taken going (same, few, over) = (same, few, rw going refl)

pub stopped-Reports :
    (status : SourceStatus) (p : Phase) (wakes taken : ℕ)
    → status.stopping ≡ true
    → Reports status p wakes taken
    → Reports status ended wakes taken
unfolding Reports
stopped-Reports status p wakes taken stopped (same, few, over) = (same, few, rw stopped refl)

pub fail-IsReporting :
    (message taken : ℕ) (s : Source) → IsReporting (s, taken) → IsReporting (fail message s, taken)
unfolding IsReporting Reports fail record_failure
fail-IsReporting message taken s (same, few, over) =
    elim (Bool-cases (s.status.stopping || s.status.failure.recorded)) [
      | inl late ↦ rw late (same, few, late)
      | inr first ↦
          let unset : s.status.failure.recorded ≡ false = ground arith in
          let none_yet : nat_of s.status.failure.recorded ≡ 0 = rw unset refl in
          rw first (omega (arith, same, none_yet), omega (arith, few, none_yet), ground arith)
    ]

pub call_wake-IsReporting :
    (accepted : Bool) (taken : ℕ) (s : Source)
    → IsReporting (s, taken)
    → IsReporting (call_wake accepted s, taken)
unfolding IsReporting Reports call_wake record_failure
call_wake-IsReporting true taken s (same, few, over) = (same, few, refl)
call_wake-IsReporting false taken s (same, few, over) =
    elim (Bool-cases (s.status.stopping || s.status.failure.recorded)) [
      | inl late ↦ rw late (same, few, late)
      | inr first ↦
          let unset : s.status.failure.recorded ≡ false = ground arith in
          let none_yet : nat_of s.status.failure.recorded ≡ 0 = rw unset refl in
          rw first (omega (arith, same, none_yet), omega (arith, few, none_yet), ground arith)
    ]
