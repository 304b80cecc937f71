-- ===== src/Frames/Renderer.antt =====
-- What a renderer does with its frames and its budget, one step at a time. The last reference to a
-- reservation is dropped only when no frame in flight holds one.
use cocoa_way.Base.{
  ℕ, ◌+◌, Bool, true, false, Option, some, none, List, [], ◌∷◌, if◌then◌else◌, count, ◌==◌,
}
use cocoa_way.Budget.{Budget, Limits, find}
use cocoa_way.Budget.Steps
use cocoa_way.FrameGate.{defer_redraw, defer_until_idle}
use cocoa_way.Frames.{Frame, World, begin, ready, retain_reservation, complete}

-- How many frames in flight hold reservation `i`.
abbrev pub holders : ℕ → List Frame → ℕ
holders i [] = 0
holders i (f ∷ fs) = count i f.reservations + holders i fs

abbrev pub in_flight : List Frame → ℕ
in_flight [] = 0
in_flight (f ∷ fs) = (if f.completion_started then 0 else 1) + in_flight fs

abbrev pub is_live : ℕ → Budget → Bool
is_live i b = elim (find i b.live) [ none ↦ false | some r ↦ true ]

pub data Op : Type 0 where
  begin_frame : Op
  ask_ready : Op
  redraw_later : Op
  drain : Op
  retain : ℕ → ℕ → Op
  finish : ℕ → Op
  reserve : ℕ → ℕ → Option ℕ → Op
  defer : ℕ → Op
  take : Op
  notify : Op
  drop : ℕ → Op
  retire : ℕ → Bool → Op
  close_client : ℕ → Op

abbrev with_budget : World → Steps.Op → World
with_budget w o = record w { budget = Steps.step w.budget o }

unfoldable pub step : World → Op → World
step w begin_frame = (begin w).0
step w ask_ready = (ready w).0
step w redraw_later = record w { gate = defer_redraw w.gate }
step w drain = record w { gate = defer_until_idle w.gate }
step w (retain f i) = if is_live i w.budget then retain_reservation w f i else w
step w (finish f) = (complete w f).0
step w (reserve bytes wake idle) = with_budget w (Steps.reserve bytes wake idle)
step w (defer wake) = with_budget w (Steps.defer wake)
step w take = with_budget w Steps.take
step w notify = with_budget w Steps.notify
step w (drop i) = if holders i w.frames == 0 then with_budget w (Steps.drop i) else w
step w (retire i retired) = with_budget w (Steps.retire i retired)
step w (close_client c) = with_budget w (Steps.close_client c)

unfoldable pub run : World → List Op → World
run w [] = w
run w (o ∷ os) = run (step w o) os

unfoldable pub start : Limits → World
start limits = record { gate = 0; frames = []; budget = Steps.start limits }
