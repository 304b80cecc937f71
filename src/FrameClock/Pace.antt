-- ===== src/FrameClock/Pace.antt =====
-- How many frames a window can start that waits for its deadlines.
use native.Mathlib.Nat.{le-div_iff_mul-le, mul_comm}
use cocoa_way.Base.{
  ℕ, suc, ◌+◌, ◌-◌, ◌/◌, ◌≤◌, ◌<◌, max, ◌≡◌, true, none, some, List, [], ◌∷◌, length, arith,
}
use cocoa_way.FrameClock.{
  FrameClock, period_ns, next_slot, due_at, next_due, get_or_insert, map_or_max,
  record_frame_started,
}
use cocoa_way.FrameClock.Phase.{
  IsClock, next_slot_lem, period_ns-pos, record_frame_started-IsClock, ordered, due_at-some,
}

-- One request at `now`, and a start that is `late` after its deadline.
pub start_frame : FrameClock → ℕ × ℕ → FrameClock
start_frame c (now, late) = elim (next_due c now true) [
  | none ↦ c
  | some due ↦ record_frame_started c (due + late)
]

unfoldable pub follow : FrameClock → List (ℕ × ℕ) → FrameClock
follow c [] = c
follow c (r ∷ rs) = follow (start_frame c r) rs

-- The number of whole periods from the anchor to the last start.
unfoldable pub slots : FrameClock → ℕ → ℕ → ℕ
slots c anchor last = (last - anchor) / period_ns c.refresh_millihertz

abbrev IsAt : FrameClock → ℕ → ℕ → Type 0
IsAt c anchor last = (c.phase_anchor ≡ some anchor) × (c.last_frame_started ≡ some last)

-- A start at a deadline or later is in a later slot.
later_slot :
    (period anchor last started : ℕ)
    → 0 < period
    → anchor ≤ last
    → next_slot period anchor last ≤ started
    → suc ((last - anchor) / period) ≤ (started - anchor) / period
later_slot period anchor last started pos le paced =
    let (after, soon, grid) = next_slot_lem period anchor last pos le in
    let q = (last - anchor) / period in
    (le-div_iff_mul-le pos).1 (omega (arith, grid, mul_comm period (suc q)))

-- The frame that is started for one request.
abbrev Advances : FrameClock → ℕ → ℕ → FrameClock → Type 0
Advances c anchor last c' =
    (last' : ℕ) × IsClock c'
    × IsAt c' anchor last'
    × (suc (slots c anchor last) ≤ slots c' anchor last')

record_frame_started-Advances :
    (c : FrameClock) (started anchor last : ℕ)
    → IsClock c
    → IsAt c anchor last
    → next_slot (period_ns c.refresh_millihertz) anchor last ≤ started
    → Advances c anchor last (record_frame_started c started)
unfolding record_frame_started get_or_insert map_or_max slots
record_frame_started-Advances c started anchor last (low, high, phase) (e, f) paced = (
  max last started,
  record_frame_started-IsClock c started (low, high, phase),
  (rw (e, get_or_insert), rw (f, map_or_max)),
  later_slot (period_ns c.refresh_millihertz) anchor last (max last started)
      (period_ns-pos c.refresh_millihertz low high) (ordered phase e f) (omega arith),
)

start_frame-Advances :
    (c : FrameClock) (now late anchor last : ℕ)
    → IsClock c
    → IsAt c anchor last
    → Advances c anchor last (start_frame c (now, late))
unfolding start_frame next_due
start_frame-Advances c now late anchor last inv (e, f) =
    let period = period_ns c.refresh_millihertz in
    let due : due_at period c.phase_anchor c.last_frame_started now ≡ next_slot period anchor last =
      rw (e, f, due_at-some period anchor last now) in
    record_frame_started-Advances c _ anchor last inv (e, f) (omega (arith, due))

-- However late the requests come and however late a frame starts after its deadline, each started
-- frame takes a slot of its own: a window that waits for its deadlines starts at most one frame for
-- each period since the anchor.
pub follow-slots :
    (requests : List (ℕ × ℕ)) (c : FrameClock) (anchor last : ℕ)
    → IsClock c
    → c.phase_anchor ≡ some anchor
    → c.last_frame_started ≡ some last
    → let c' = follow c requests in
      (last' : ℕ) × (c'.phase_anchor ≡ some anchor)
      × (c'.last_frame_started ≡ some last')
      × (slots c anchor last + length requests ≤ slots c' anchor last')
unfolding follow
follow-slots [] c anchor last inv e f = (last, e, f, omega arith)
follow-slots ((now, late) ∷ requests) c anchor last inv e f =
    let (mid, inv', (e', f'), more) = start_frame-Advances c now late anchor last inv (e, f) in
    let (last', e'', f'', all) =
      follow-slots requests (start_frame c (now, late)) anchor mid inv' e' f' in
    (last', e'', f'', omega (arith, more, all))
