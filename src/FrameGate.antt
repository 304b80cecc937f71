-- ===== src/FrameGate.antt =====
-- The admission word of a window's frames (src/texture_lifetime.rs: FrameGate, FrameLifetime).
-- The word is a 64-bit `usize`: the count of frames in flight below, two flags on top. Each atomic
-- operation is one function on the word; a compare-exchange loop is the step of its attempt that
-- succeeds, since an attempt that fails changes nothing and starts again from the word that it found.
pub mod Word
pub mod Redraw
use cocoa_way.Base.{
  ℕ, ◌+◌, ◌-◌, ◌^◌, bit_and, bit_or, ◌≡◌, Bool, true, false, not, ◌&&◌, ◌||◌, Option, none, some,
  List, [], ◌∷◌, ltb, ◌==◌, if◌then◌else◌, nat_of,
}

abbrev pub max_frames : ℕ
max_frames = 3

-- `!x` on a 64-bit word.
abbrev pub complement : ℕ → ℕ
complement x = 2 ^ 64 - 1 - x

abbrev pub redraw_waiting : ℕ
redraw_waiting = 2 ^ 63

abbrev pub draining : ℕ
draining = 2 ^ 62

abbrev pub frame_count : ℕ
frame_count = complement (bit_or redraw_waiting draining)

-- The body of the loop in `admit`: the next word, and whether the frame is admitted.
unfoldable pub admit : ℕ → Bool → ℕ × Bool
admit state reserve =
    let count = bit_and state frame_count in
    let ready = ltb count max_frames && ((bit_and state draining == 0) || (count == 0)) in
    (
      if ready
          then bit_and state (complement draining) + nat_of reserve
          else bit_or state redraw_waiting,
      ready,
    )

-- The body of the loop in `release`: the next word, and whether to wake the deferred redraw.
unfoldable pub release : ℕ → ℕ × Bool
release state =
    let draining' = not (bit_and state draining == 0) && ltb 1 (bit_and state frame_count) in
    (
      if draining' then state - 1 else bit_and (state - 1) (complement redraw_waiting),
      not draining' && not (bit_and state redraw_waiting == 0),
    )

unfoldable pub defer_redraw : ℕ → ℕ
defer_redraw state = bit_or state redraw_waiting

unfoldable pub defer_until_idle : ℕ → ℕ
defer_until_idle state = bit_or state (bit_or draining redraw_waiting)
