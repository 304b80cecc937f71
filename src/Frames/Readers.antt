-- ===== src/Frames/Readers.antt =====
-- The word counts the frames in flight, and each reservation its readers.
use cocoa_way.Base.{
  ℕ, ◌≡◌, refl, inl, inr, true, false, List, [], ◌∷◌, ◌==◌, arith, Option-cases, Bool-cases,
  get_elem?,
}
use cocoa_way.Budget.{Budget, Limits, take_waiters, with_client_limits}
use cocoa_way.Budget.Live.{
  SameLive, SameLive-Quiet, wait-SameLive, notify-SameLive, reserve-Quiet, drop-Quiet, retire-Quiet,
}
use cocoa_way.Budget.Steps
use cocoa_way.FrameGate.Word.{
  defer_redraw_gate, defer_until_idle_gate, defer_redraw_refines, defer_until_idle_refines,
}
use cocoa_way.Frames.{World, retain_reservation}
use cocoa_way.Frames.Renderer.{
  Op, finish, begin_frame, ask_ready, redraw_later, drain, retain, reserve, defer, take, notify,
  drop, retire, close_client, holders, is_live, step, run, start,
}
use cocoa_way.Frames.Holders.{IsTracked}
use cocoa_way.Frames.Moves.{
  begin-IsTracked, budget-IsTracked, complete-IsTracked, gate-IsTracked, ready-IsTracked,
  retain_in-IsTracked,
}

retain-IsTracked :
    (w : World) (k i : ℕ)
    → is_live i w.budget ≡ true
    → IsTracked w
    → IsTracked (retain_reservation w k i)
unfolding retain_reservation
retain-IsTracked w k i live v = elim (Option-cases (get_elem? w.frames k)) [
  | inl gone ↦ rw (gone, retain_reservation) v
  | inr (f, at) ↦ rw (at, retain_reservation) (retain_in-IsTracked w k i f at live v)
]

SameLive-IsTracked :
    (w : World) (b : Budget)
    → SameLive w.budget b
    → IsTracked w
    → IsTracked (record w { budget = b })
SameLive-IsTracked w b s v = budget-IsTracked w b (SameLive-Quiet w.budget b v.ordered s) v

step-IsTracked : (w : World) (o : Op) → IsTracked w → IsTracked (step w o)
unfolding step Steps.step take_waiters defer_redraw_gate defer_until_idle_gate
step-IsTracked w begin_frame v = begin-IsTracked w v
step-IsTracked w ask_ready v = ready-IsTracked w v
step-IsTracked w redraw_later v =
    gate-IsTracked w _ (defer_redraw_gate v.gate)
      (rw (v.word, defer_redraw_refines v.gate (omega (arith, v.few)))) v refl
step-IsTracked w drain v =
    gate-IsTracked w _ (defer_until_idle_gate v.gate)
      (rw (v.word, defer_until_idle_refines v.gate (omega (arith, v.few)))) v refl
step-IsTracked w (retain k i) v = elim (Bool-cases (is_live i w.budget)) [
  | inl live ↦ rw (live, step) (retain-IsTracked w k i live v)
  | inr dead ↦ rw (dead, step) v
]
step-IsTracked w (finish k) v = complete-IsTracked w k v
step-IsTracked w (reserve bytes wake idle) v =
    budget-IsTracked w _ (reserve-Quiet w.budget bytes wake idle v.ordered) v
step-IsTracked w (defer wake) v = SameLive-IsTracked w _ (wait-SameLive w.budget wake) v
step-IsTracked w take v = SameLive-IsTracked w _ (record { live = refl; next_id = refl }) v
step-IsTracked w notify v = SameLive-IsTracked w _ (notify-SameLive w.budget) v
step-IsTracked w (drop i) v = elim (Bool-cases (holders i w.frames == 0)) [
  | inl free ↦
      rw (free, step)
        (budget-IsTracked w _ (drop-Quiet w.budget i v.ordered (ground (arith, v.readers i))) v)
  | inr held ↦ rw (held, step) v
]
step-IsTracked w (retire i retired) v =
    budget-IsTracked w _ (retire-Quiet w.budget i retired v.ordered) v
step-IsTracked w (close_client c) v =
    SameLive-IsTracked w _ (record { live = refl; next_id = refl }) v

run-IsTracked : (w : World) (os : List Op) → IsTracked w → IsTracked (run w os)
unfolding run
run-IsTracked w [] v = v
run-IsTracked w (o ∷ os) v = run-IsTracked (step w o) os (step-IsTracked w o v)

start-IsTracked : (limits : Limits) → IsTracked (start limits)
unfolding start Steps.start with_client_limits
start-IsTracked limits = record {
  gate = record { count = 0; drain = false; redraw = false };
  word = refl;
  counted = refl;
  few = omega arith;
  tidy = tt;
  ordered = tt;
  readers = λ i. refl;
}

-- After any sequence of a renderer's steps the gate's word holds the number of frames in flight, at
-- most three; every reservation has as many readers as frames in flight hold it, each at most once,
-- and a completed frame holds none.
pub run-start-IsTracked : (limits : Limits) (os : List Op) → IsTracked (run (start limits) os)
run-start-IsTracked limits os = run-IsTracked (start limits) os (start-IsTracked limits)
