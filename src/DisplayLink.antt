-- ===== src/DisplayLink.antt =====
-- The demand of a window's display link (src/display_link.rs): Demand with the functions on it, and the
-- operations of NativeFrameSource and of its delegate that use them. A drawable is a value of any
-- type; of the native link, whether it is paused.
pub mod Demands
use cocoa_way.Base.{
  ℕ, suc, ◌+◌, ◌≡◌, ◌≤◌, refl, Bool, true, false, Option, none, some, List, [], ◌∷◌, if◌then◌else◌,
  is_some, arith,
}

pub data Demand : Type 0 where
  idle waiting ready_demand : Demand

pub record NativeFrameSource {ℓ} (T : Type ℓ) : Type ℓ where
  pub demand : Demand
  pub ready : Option T
  pub paused : Bool

-- The demand that arm_demand leaves, and its answer.
unfoldable pub arm_demand : Demand → Demand × Bool
arm_demand idle = (waiting, true)
arm_demand waiting = (waiting, false)
arm_demand ready_demand = (ready_demand, false)

pub data Op {ℓ} (T : Type ℓ) : Type ℓ where
  op_request op_take op_drop : Op T
  op_update : Option T → Op T

module _ {ℓ} {T : Type ℓ} where
  -- The demand and the drawable that is held, and the answer.
  unfoldable pub accept_ready : Demand → Option T → T → (Demand × Option T) × Bool
  accept_ready waiting none value = ((ready_demand, some value), true)
  accept_ready waiting (some held) value = ((waiting, some held), false)
  accept_ready idle ready value = ((idle, ready), false)
  accept_ready ready_demand ready value = ((ready_demand, ready), false)

  unfoldable pub take_ready : Demand → Option T → (Demand × Option T) × Option T
  take_ready demand none = ((demand, none), none)
  take_ready demand (some value) = ((idle, none), some value)

  -- What it lets go of is the second part.
  unfoldable pub clear_ready : Demand → Option T → (Demand × Option T) × Option T
  clear_ready demand ready = ((idle, none), ready)

  -- What NativeFrameSource::new builds.
  abbrev pub new : NativeFrameSource T
  new = record { demand = idle; ready = none; paused = true }

  unfoldable pub request_frame : NativeFrameSource T → NativeFrameSource T
  request_frame s =
      let (demand, armed) = arm_demand s.demand in
      record { demand = demand; ready = s.ready; paused = if armed then false else s.paused }

  unfoldable pub has_drawable : NativeFrameSource T → Bool
  has_drawable s = is_some s.ready

  unfoldable pub take_drawable : NativeFrameSource T → NativeFrameSource T × Option T
  take_drawable s =
      let (slot, out) = take_ready s.demand s.ready in
      (record { demand = slot.0; ready = slot.1; paused = s.paused }, out)

  -- By the demand and the drawable of the update; whether it asks for a redraw is the second part.
  unfoldable pub update_for : Demand → Option T → NativeFrameSource T → NativeFrameSource T × Bool
  update_for idle drawable s = (record { demand = s.demand; ready = s.ready; paused = true }, false)
  update_for ready_demand drawable s =
      (record { demand = s.demand; ready = s.ready; paused = true }, false)
  update_for waiting none s = (s, false)
  update_for waiting (some drawable) s =
      let (slot, redraw) = accept_ready s.demand s.ready drawable in
      (record { demand = slot.0; ready = slot.1; paused = true }, redraw)

  unfoldable pub needs_update : NativeFrameSource T → Option T → NativeFrameSource T × Bool
  needs_update s drawable = update_for s.demand drawable s

  -- The drop of the source, with the drawable that it lets go of.
  unfoldable pub drop_source : NativeFrameSource T → NativeFrameSource T × Option T
  drop_source s =
      let (slot, out) = clear_ready s.demand s.ready in
      (record { demand = slot.0; ready = slot.1; paused = true }, out)
