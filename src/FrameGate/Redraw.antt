-- ===== src/FrameGate/Redraw.antt =====
-- Deferred redraws: what a refused admission leaves in the word, and who answers it.
use cocoa_way.Base.{
  ℕ, zero, suc, ◌+◌, ◌-◌, ◌^◌, ◌<◌, ◌≤◌, ◌≡◌, refl, Bool, true, false, not, ◌&&◌, nat_of, arith,
}
use cocoa_way.FrameGate.{max_frames, admit, release, defer_until_idle}
use cocoa_way.FrameGate.Word.{
  Gate, encode, admit_gate, release_gate, admit_refines, release_refines, defer_until_idle_refines,
  defer_until_idle_gate,
}

abbrev gate : ℕ → Bool → Bool → Gate
gate c d r = record { count = c; drain = d; redraw = r }

-- The word after `n` frames complete, and how many of the completions ask for a redraw.
unfoldable pub release_all : ℕ → ℕ → ℕ × ℕ
release_all zero state = (state, 0)
release_all (suc n) state =
    let (next, wake) = release state in
    let (last, wakes) = release_all n next in (last, nat_of wake + wakes)

release_last : (d r : Bool) → release_gate (gate 1 d r) ≡ (gate 0 d false, r)
unfolding release_gate
release_last true r = refl
release_last false r = refl

release_more :
    (n : ℕ) (d r : Bool)
    → release_gate (gate (suc (suc n)) d r) ≡ (gate (suc n) d (d && r), not d && r)
unfolding release_gate
release_more n true r = ground arith
release_more n false r = ground arith

release_all_step :
    (n w : ℕ) {w' : ℕ} {b : Bool}
    → release w ≡ (w', b)
    → release_all (suc n) w ≡ ((release_all n w').0, nat_of b + (release_all n w').1)
unfolding release_all
release_all_step n w e = rw e

release_all_zero : (w : ℕ) → release_all 0 w ≡ (w, 0)
unfolding release_all
release_all_zero w = refl

release_all_gate :
    (n : ℕ) (d r : Bool)
    → suc n < 2 ^ 62
    → release_all (suc n) (encode (gate (suc n) d r)) ≡ (encode (gate 0 d false), nat_of r)
release_all_gate zero d r h =
    let first = rw (release_last d r) at (release_refines (gate 1 d r) (omega arith) h) in
    rw (release_all_step 0 (encode (gate 1 d r)) first, release_all_zero) (ground arith)
release_all_gate (suc n) d r h =
    let g = gate (suc (suc n)) d r in
    let first = rw (release_more n d r) at (release_refines g (omega arith) h) in
    rw (release_all_step (suc n) (encode g) first, release_all_gate n d (d && r) (omega arith))
      (ground arith)

release_every :
    (c : ℕ) (d r : Bool)
    → 0 < c
    → c < 2 ^ 62
    → release_all c (encode (gate c d r)) ≡ (encode (gate 0 d false), nat_of r)
release_every zero d r pos h = absurd (omega arith)
release_every (suc n) d r pos h = release_all_gate n d r h

admit_refused :
    (g : Gate) (reserve : Bool)
    → g.count ≤ max_frames
    → (admit_gate g reserve).1 ≡ false
    → (0 < g.count) × ((admit_gate g reserve).0 ≡ record g { redraw = true })
unfolding admit_gate
admit_refused g reserve few refused = ground arith

-- An admission that is refused finds a frame in flight and leaves the demand for a redraw in the
-- word; then, in whatever state the flags were, the completions of all frames in flight answer the
-- demand once, and leave neither a frame nor a demand.
pub refused_redraw :
    (g : Gate) (reserve : Bool)
    → g.count ≤ max_frames
    → (admit (encode g) reserve).1 ≡ false
    → let state = (admit (encode g) reserve).0 in
      (0 < g.count)
      × (release_all g.count state
          ≡ (encode (record { count = 0; drain = g.drain; redraw = false }), 1))
refused_redraw g reserve few refused =
    let refines = admit_refines g reserve (omega arith) in
    let (busy, left) = admit_refused g reserve few (rw refines at refused) in
    (busy, rw (refines, left) (release_every g.count g.drain true busy (omega arith)))

release_some :
    (k m c : ℕ)
    → c ≡ suc m + k
    → c < 2 ^ 62
    → release_all k (encode (gate c true true)) ≡ (encode (gate (suc m) true true), 0)
release_some zero m c e h = rw release_all_zero (ground arith)
release_some (suc k) m c e h =
    let e' : c ≡ suc (suc (m + k)) = omega arith in
    let g = gate (suc (suc (m + k))) true true in
    let first =
      rw (release_more (m + k) true true) at (release_refines g (omega arith) (omega arith)) in
    rw
      (
        e',
        release_all_step k (encode g) first,
        release_some k m (suc (m + k)) (omega arith) (omega arith),
      )
      (ground arith)

-- After `defer_until_idle` with frames in flight, no frame is admitted and no redraw is asked for
-- until all of those have completed; then one redraw is asked for, and the next frame is admitted
-- and ends the draining.
pub defer_until_idle_drains :
    (g : Gate) (k : ℕ)
    → g.count ≤ max_frames
    → k < g.count
    → let state = defer_until_idle (encode g) in
      let (some_done, some_wakes) = release_all k state in
      let (all_done, all_wakes) = release_all g.count state in
      ((admit some_done true).1 ≡ false)
      × (some_wakes ≡ 0)
      × (all_wakes ≡ 1)
      × (admit all_done true ≡ (encode (record { count = 1; drain = false; redraw = false }), true))
unfolding admit_gate defer_until_idle_gate
defer_until_idle_drains g k few less =
    let m = g.count - k - 1 in
    let part = release_some k m g.count (omega arith) (omega arith) in
    rw
      (
        defer_until_idle_refines g (omega arith),
        part,
        release_every g.count true true (omega arith) (omega arith),
        admit_refines (gate (suc m) true true) true (omega arith),
        admit_refines (gate 0 true false) true (omega arith),
      )
      (ground arith, refl, refl, refl)
