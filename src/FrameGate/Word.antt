-- ===== src/FrameGate/Word.antt =====
-- The word as a count and two flags, and what each operation does to those.
use cocoa_way.Base.{
  ℕ, ◌+◌, ◌-◌, ◌*◌, ◌^◌, ◌<◌, bit_and, bit_or, ◌≡◌, Bool, true, false, not, ◌&&◌, ◌||◌, ltb, ◌==◌,
  if◌then◌else◌, nat_of, arith, bit_and_split, bit_or_split, bit_and-zero, bit_or-zero,
  bit_and_mask,
}
use native.Mathlib.Nat.{zero-add}
use cocoa_way.FrameGate.{
  max_frames, frame_count, redraw_waiting, draining, complement, admit, release, defer_redraw,
  defer_until_idle,
}

pub record Gate : Type 0 where
  pub count : ℕ
  pub drain : Bool
  pub redraw : Bool

abbrev pub flags : Bool → Bool → ℕ
flags d r = nat_of d + 2 * nat_of r

abbrev pub encode : Gate → ℕ
encode g = g.count + 2 ^ 62 * flags g.drain g.redraw

-- How each mask of the source meets an encoded word.
module _ (c : ℕ) (small : c < 2 ^ 62) where
  pub count_bits : (d r : Bool) → bit_and (c + 2 ^ 62 * flags d r) frame_count ≡ c
  count_bits d r = omega (
    arith,
    bit_and_split 62 c (flags d r) (2 ^ 62 - 1) 0 small (omega arith),
    bit_and_mask 62 c small,
    bit_and-zero (flags d r),
  )

  masked : (h m : ℕ) → bit_and (c + 2 ^ 62 * h) (2 ^ 62 * m) ≡ 2 ^ 62 * bit_and h m
  masked h m =
      let split = rw zero-add at (bit_and_split 62 c h 0 m small (omega arith)) in
      omega (arith, split, bit_and-zero c)

  kept : (h m : ℕ) → bit_and (c + 2 ^ 62 * h) (2 ^ 62 - 1 + 2 ^ 62 * m) ≡ c + 2 ^ 62 * bit_and h m
  kept h m =
      omega
        (arith, bit_and_split 62 c h (2 ^ 62 - 1) m small (omega arith), bit_and_mask 62 c small)

  joined : (h m : ℕ) → bit_or (c + 2 ^ 62 * h) (2 ^ 62 * m) ≡ c + 2 ^ 62 * bit_or h m
  joined h m =
      let split = rw zero-add at (bit_or_split 62 c h 0 m small (omega arith)) in
      omega (arith, split, bit_or-zero c)

  pub drain_bits : (d r : Bool) → bit_and (c + 2 ^ 62 * flags d r) draining ≡ 2 ^ 62 * nat_of d
  drain_bits false false = masked 0 1
  drain_bits false true = masked 2 1
  drain_bits true false = masked 1 1
  drain_bits true true = masked 3 1

  pub redraw_bits :
      (d r : Bool) → bit_and (c + 2 ^ 62 * flags d r) redraw_waiting ≡ 2 ^ 63 * nat_of r
  redraw_bits false false = masked 0 2
  redraw_bits false true = masked 2 2
  redraw_bits true false = masked 1 2
  redraw_bits true true = masked 3 2

  pub clear_drain :
      (d r : Bool)
      → bit_and (c + 2 ^ 62 * flags d r) (complement draining) ≡ c + 2 ^ 62 * flags false r
  clear_drain false false = kept 0 2
  clear_drain false true = kept 2 2
  clear_drain true false = kept 1 2
  clear_drain true true = kept 3 2

  pub clear_redraw :
      (d r : Bool)
      → bit_and (c + 2 ^ 62 * flags d r) (complement redraw_waiting) ≡ c + 2 ^ 62 * flags d false
  clear_redraw false false = kept 0 1
  clear_redraw false true = kept 2 1
  clear_redraw true false = kept 1 1
  clear_redraw true true = kept 3 1

  pub set_redraw :
      (d r : Bool) → bit_or (c + 2 ^ 62 * flags d r) redraw_waiting ≡ c + 2 ^ 62 * flags d true
  set_redraw false false = joined 0 2
  set_redraw false true = joined 2 2
  set_redraw true false = joined 1 2
  set_redraw true true = joined 3 2

  pub set_both :
      (d r : Bool)
      → bit_or (c + 2 ^ 62 * flags d r) (bit_or draining redraw_waiting)
        ≡ c + 2 ^ 62 * flags true true
  set_both false false = joined 0 3
  set_both false true = joined 2 3
  set_both true false = joined 1 3
  set_both true true = joined 3 3

-- The operations on the parts, as the specification of those on the word.
unfoldable pub admit_gate : Gate → Bool → Gate × Bool
admit_gate g reserve =
    if ltb g.count max_frames && (not g.drain || (g.count == 0))
    then (record g { count = g.count + nat_of reserve; drain = false }, true)
    else (record g { redraw = true }, false)

unfoldable pub release_gate : Gate → Gate × Bool
release_gate g =
    if g.drain && ltb 1 g.count
    then (record g { count = g.count - 1 }, false)
    else (record g { count = g.count - 1; redraw = false }, g.redraw)

unfoldable pub defer_redraw_gate : Gate → Gate
defer_redraw_gate g = record g { redraw = true }

unfoldable pub defer_until_idle_gate : Gate → Gate
defer_until_idle_gate g = record g { drain = true; redraw = true }

pub admit_refines :
    (g : Gate) (reserve : Bool)
    → g.count < 2 ^ 62
    → admit (encode g) reserve ≡ (let (g', ready) = admit_gate g reserve in (encode g', ready))
unfolding admit admit_gate
admit_refines g reserve h = ground (
  arith,
  count_bits g.count h g.drain g.redraw,
  drain_bits g.count h g.drain g.redraw,
  clear_drain g.count h g.drain g.redraw,
  set_redraw g.count h g.drain g.redraw,
)

pub release_refines :
    (g : Gate)
    → 0 < g.count
    → g.count < 2 ^ 62
    → release (encode g) ≡ (let (g', wake) = release_gate g in (encode g', wake))
unfolding release release_gate
release_refines g pos h = ground (
  arith,
  count_bits g.count h g.drain g.redraw,
  drain_bits g.count h g.drain g.redraw,
  redraw_bits g.count h g.drain g.redraw,
  clear_redraw (g.count - 1) (omega arith) g.drain g.redraw,
)

pub defer_redraw_refines :
    (g : Gate) → g.count < 2 ^ 62 → defer_redraw (encode g) ≡ encode (defer_redraw_gate g)
unfolding defer_redraw defer_redraw_gate
defer_redraw_refines g h = set_redraw g.count h g.drain g.redraw

pub defer_until_idle_refines :
    (g : Gate) → g.count < 2 ^ 62 → defer_until_idle (encode g) ≡ encode (defer_until_idle_gate g)
unfolding defer_until_idle defer_until_idle_gate
defer_until_idle_refines g h = set_both g.count h g.drain g.redraw
