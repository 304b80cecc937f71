-- ===== src/Examples/Pacing.antt =====
-- Frame clocks, turns of the event loop and the display link (src/frame_clock.rs, src/event_turn.rs,
-- src/display_link.rs).
use cocoa_way.Base.{
  ℕ, ◌+◌, ◌*◌, ◌<◌, ◌≤◌, ◌≡◌, refl, max, true, false, none, some, List, [], ◌∷◌, arith,
}
use cocoa_way.FrameClock.{FrameClock, next_due, period_ns}
use cocoa_way.FrameClock.Phase.{IsClock, Call, set_rate, start, submit, next_due_lem, phased}
use cocoa_way.FrameClock.Pace.{follow, slots, follow-slots}
use cocoa_way.EventTurn as turns
use cocoa_way.DisplayLink as links
use cocoa_way.DisplayLink.Demands as demands
use cocoa_way.DisplayLink.Demands.{IsPaced}

-- 100 Hz, so a period of 10 ms; the last frame started 3 ms into the second period.
abbrev clock : FrameClock
clock = record {
  refresh_millihertz = 100000;
  phase_anchor = some 1000000;
  last_frame_started = some 14000000;
}

clock-IsClock : IsClock clock
clock-IsClock = (omega arith, omega arith, phased (omega arith))

abbrev calls : List Call
calls = submit 5 ∷ start 3 ∷ set_rate (some 144000) ∷ start 900 ∷ set_rate (some 7) ∷ []

next_due_lem_example :
    (next_due clock 15000000 false ≡ none)
    × ((due : ℕ) × (next_due clock 15000000 true ≡ some (max due 15000000))
        × (14000000 < due)
        × (due ≤ 14000000 + period_ns 100000)
        × ((k : ℕ) × (due ≡ 1000000 + period_ns 100000 * k)))
next_due_lem_example = next_due_lem clock 15000000 1000000 14000000 clock-IsClock refl refl

abbrev requests : List (ℕ × ℕ)
requests = (15000000, 0) ∷ (21000000, 500000) ∷ (90000000, 0) ∷ []

follow-slots_example :
    let c' = follow clock requests in
    (last' : ℕ) × (c'.phase_anchor ≡ some 1000000)
    × (c'.last_frame_started ≡ some last')
    × (slots clock 1000000 14000000 + 3 ≤ slots c' 1000000 last')
follow-slots_example = follow-slots requests clock 1000000 14000000 clock-IsClock refl refl

turn-new_example :
    (turns.turn (turns.new true 100) (100 ∷ 200 ∷ 2000100 ∷ []) ≡ [])
    × (turns.turn (turns.new false 100) (100 ∷ 200 ∷ 2000100 ∷ [])
        ≡ turns.first_before 64 (100 + 2000000) (100 ∷ 200 ∷ 2000100 ∷ []))
turn-new_example = turns.turn-new 100 (100 ∷ 200 ∷ 2000100 ∷ [])

abbrev link_calls : List (links.Op ℕ)
link_calls =
    links.op_request
    ∷ links.op_request
    ∷ links.op_update none
    ∷ links.op_update (some 7)
    ∷ links.op_update (some 8)
    ∷ links.op_take
    ∷ links.op_request
    ∷ links.op_update (some 9)
    ∷ links.op_drop
    ∷ []

run-start-IsPaced_example : IsPaced (demands.run demands.start link_calls)
run-start-IsPaced_example = demands.run-start-IsPaced link_calls

redraws-link_calls : (demands.run demands.start link_calls).redraws ≡ 2
unfolding demands.run demands.step links.arm_demand links.accept_ready links.take_ready
    links.clear_ready links.request_frame links.take_drawable links.update_for links.needs_update
    links.drop_source
redraws-link_calls = refl
