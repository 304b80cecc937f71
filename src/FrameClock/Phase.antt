-- ===== src/FrameClock/Phase.antt =====
-- The phase of a clock: its invariant, and where the next deadline lies.
use native.Mathlib.Nat.{mod-lt, div-add-mod, le-div_iff_mul-le, mul-suc}
use cocoa_way.Base.{
  List, [], ◌∷◌, ℕ, suc, ◌+◌, ◌-◌, ◌*◌, ◌/◌, ◌≤◌, ◌<◌, max, ◌≡◌, refl, inl, inr, true, false,
  Option, none, some, ◌==◌, arith, Bool-cases, is_some, max,
}
use cocoa_way.FrameClock.{
  FrameClock, plausible, set_refresh_millihertz, new, period_ns, next_slot, due_at, next_due,
  get_or_insert, map_or_max, record_frame_started, record_submission,
}

-- The anchor and the last start are both there or both missing, in this order.
pub data Phased : Option ℕ → Option ℕ → Type 0 where
  fresh : Phased none none
  phased : {anchor last : ℕ} → anchor ≤ last → Phased (some anchor) (some last)

abbrev pub IsClock : FrameClock → Type 0
IsClock c =
    (1000 ≤ c.refresh_millihertz)
    × (c.refresh_millihertz ≤ 1000000)
    × Phased c.phase_anchor c.last_frame_started

plausible-bounds : (rate : Option ℕ) → (1000 ≤ plausible rate) × (plausible rate ≤ 1000000)
unfolding plausible
plausible-bounds none = (omega arith, omega arith)
plausible-bounds (some rate) = (ground arith, ground arith)

-- Every call keeps the clock in order: a rate of 1 to 1000 Hz, and an anchor not after the last start.
pub set_refresh_millihertz-IsClock :
    (c : FrameClock) (rate : Option ℕ) → IsClock c → IsClock (set_refresh_millihertz c rate)
unfolding set_refresh_millihertz
set_refresh_millihertz-IsClock c rate (low, high, phase) =
    elim (Bool-cases (plausible rate == c.refresh_millihertz)) [
      | inl same ↦ rw same (low, high, phase)
      | inr other ↦
          let (low', high') = plausible-bounds rate in rw other (low', high', restart phase)
    ]
  where
    restart : {anchor last : Option ℕ} → Phased anchor last → Phased last last
    restart {anchor} {last} fresh = fresh
    restart {anchor} {last} (phased le) = phased (omega arith)

pub new-IsClock : (rate : Option ℕ) → IsClock (new rate)
unfolding new
new-IsClock rate = set_refresh_millihertz-IsClock _ rate (omega arith, omega arith, fresh)

pub record_frame_started-IsClock :
    (c : FrameClock) (at : ℕ) → IsClock c → IsClock (record_frame_started c at)
unfolding record_frame_started get_or_insert map_or_max
record_frame_started-IsClock c at (low, high, phase) = (low, high, started phase)
  where
    started :
        {anchor last : Option ℕ}
        → Phased anchor last
        → Phased (some (get_or_insert anchor at)) (some (map_or_max last at))
    started {anchor} {last} fresh = phased (omega arith)
    started {anchor} {last} (phased le) = phased (omega arith)

pub record_submission-IsClock :
    (c : FrameClock) (at : ℕ) → IsClock c → IsClock (record_submission c at)
unfolding record_submission
record_submission-IsClock c at inv = elim (Bool-cases (is_some c.last_frame_started)) [
  | inl started ↦ rw started inv
  | inr none_yet ↦ rw none_yet (record_frame_started-IsClock c at inv)
]

-- The calls that change a clock.
pub data Call : Type 0 where
  set_rate : Option ℕ → Call
  start submit : ℕ → Call

unfoldable pub call : FrameClock → Call → FrameClock
call c (set_rate rate) = set_refresh_millihertz c rate
call c (start at) = record_frame_started c at
call c (submit at) = record_submission c at

unfoldable pub run : FrameClock → List Call → FrameClock
run c [] = c
run c (x ∷ xs) = run (call c x) xs

run-IsClock : (calls : List Call) (c : FrameClock) → IsClock c → IsClock (run c calls)
unfolding run call
run-IsClock [] c inv = inv
run-IsClock (set_rate rate ∷ calls) c inv =
    run-IsClock calls _ (set_refresh_millihertz-IsClock c rate inv)
run-IsClock (start at ∷ calls) c inv = run-IsClock calls _ (record_frame_started-IsClock c at inv)
run-IsClock (submit at ∷ calls) c inv = run-IsClock calls _ (record_submission-IsClock c at inv)

-- After any calls, with any rates and with times in any order, a clock has a rate between 1 and
-- 1000 Hz, and either no frame has started or the anchor is not after the last start.
pub run-new-IsClock : (rate : Option ℕ) (calls : List Call) → IsClock (run (new rate) calls)
run-new-IsClock rate calls = run-IsClock calls (new rate) (new-IsClock rate)

pub period_ns-pos : (rate : ℕ) → 1000 ≤ rate → rate ≤ 1000000 → 0 < period_ns rate
unfolding period_ns
period_ns-pos rate low high =
    let positive : 0 < rate = omega arith in
    let one : 1 ≤ (1000000000000 + rate - 1) / rate =
      (le-div_iff_mul-le positive).1 (omega arith) in
    omega (arith, one)

-- The slot lies one period at most after the last start, on the grid of the phase.
pub next_slot_lem :
    (period anchor last : ℕ)
    → 0 < period
    → anchor ≤ last
    → (last < next_slot period anchor last)
      × (next_slot period anchor last ≤ last + period)
      × (next_slot period anchor last ≡ anchor + period * suc ((last - anchor) / period))
unfolding next_slot
next_slot_lem period anchor last pos le =
    let rest = last - anchor in
    let below = mod-lt rest pos in
    let split = div-add-mod rest period in
    let grown = mul-suc period (rest / period) in
    (omega (arith, below), omega arith, omega (arith, below, split, grown))

pub ordered :
    {a l : Option ℕ} {anchor last : ℕ}
    → Phased a l
    → a ≡ some anchor
    → l ≡ some last
    → anchor ≤ last
ordered {a} {l} fresh e f = cc
ordered {a} {l} {anchor} {last} (phased {anchor = first} {last = latest} le) e f =
    let e' : first ≡ anchor = cc in let f' : latest ≡ last = cc in omega arith

pub due_at-some :
    (period anchor last now : ℕ)
    → due_at period (some anchor) (some last) now ≡ next_slot period anchor last
unfolding due_at
due_at-some period anchor last now = refl

-- With no work there is no deadline. With work, once a frame has started, the deadline is the next
-- slot after the last start, at most one period later and on the grid that starts at the anchor,
-- or now if that slot has passed.
pub next_due_lem :
    (c : FrameClock) (now anchor last : ℕ)
    → IsClock c
    → c.phase_anchor ≡ some anchor
    → c.last_frame_started ≡ some last
    → let period = period_ns c.refresh_millihertz in
      (next_due c now false ≡ none)
      × ((due : ℕ) × (next_due c now true ≡ some (max due now))
          × (last < due)
          × (due ≤ last + period)
          × ((k : ℕ) × (due ≡ anchor + period * k)))
unfolding next_due
next_due_lem c now anchor last (low, high, phase) e f =
    let period = period_ns c.refresh_millihertz in
    let (after, soon, grid) =
      next_slot_lem period anchor last (period_ns-pos c.refresh_millihertz low high)
        (ordered phase e f) in
    (
      refl,
      (
        next_slot period anchor last,
        rw (e, f, due_at-some period anchor last now),
        after,
        soon,
        (suc ((last - anchor) / period), grid),
      ),
    )
