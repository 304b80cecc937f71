-- ===== src/PointerInput.antt =====
-- Pointer ownership and lock decisions (src/pointer_input.rs). Owners and surfaces are numbers. The
-- origin of a focus is a pair of floats, of any type `F` with its `==`; nothing is assumed of the
-- test, so an origin that is not a number is covered too. Counters are `u64` and saturate.
pub mod Lock
pub mod Grab
pub mod History
use cocoa_way.Base.{
  ℕ, ◌+◌, ◌-◌, ◌^◌, min, Bool, true, false, not, ◌&&◌, ◌||◌, Option, none, some, List, [], ◌∷◌,
  ◌==◌, if◌then◌else◌, option_eq, is_some, set_insert, set_remove,
}

pub record PointerFocus (F : Type 0) : Type 0 where
  pub owner : ℕ
  pub surface : ℕ
  pub origin : F × F

pub data ConstraintKind : Type 0 where
  unconstrained locked confined : ConstraintKind

pub record ConstraintSnapshot : Type 0 where
  pub kind : ConstraintKind
  pub active : Bool
  pub live : Bool
  pub in_region : Bool

pub data LockAction : Type 0 where
  no_action acquire release reject_confinement : LockAction

pub data LockStatus : Type 0 where
  idle_status locked_status confinement_unsupported_status : LockStatus
  acquisition_failed_status release_failed_status : LockStatus

abbrev pub is_confined : ConstraintKind → Bool
is_confined confined = true
is_confined _ = false

abbrev pub is_locked : ConstraintKind → Bool
is_locked locked = true
is_locked _ = false

abbrev pub is_release_failed : LockStatus → Bool
is_release_failed release_failed_status = true
is_release_failed _ = false

abbrev pub is_acquisition_failed : LockStatus → Bool
is_acquisition_failed acquisition_failed_status = true
is_acquisition_failed _ = false

abbrev pub is_locked_status : LockStatus → Bool
is_locked_status locked_status = true
is_locked_status _ = false

-- `==` of statuses, by their places in the enum.
abbrev pub code_of : LockStatus → ℕ
code_of idle_status = 0
code_of locked_status = 1
code_of confinement_unsupported_status = 2
code_of acquisition_failed_status = 3
code_of release_failed_status = 4

pub record PointerInput (F : Type 0) : Type 0 where
  pub focus : Option (PointerFocus F)
  pub native_grab : Option (PointerFocus F)
  pub pending : Bool
  pub status : LockStatus
  pub unsupported_confinement_requests : ℕ
  pub held_buttons : List ℕ

module _ {F : Type 0} where
  pub new : PointerInput F
  new = record {
    focus = none;
    native_grab = none;
    pending = false;
    status = idle_status;
    unsupported_confinement_requests = 0;
    held_buttons = [];
  }

  -- Whether the status changes is the second part.
  unfoldable pub set_status : PointerInput F → LockStatus → PointerInput F × Bool
  set_status p status = (record p { status = status }, not (code_of p.status == code_of status))

  unfoldable pub request_reconcile : PointerInput F → PointerInput F
  request_reconcile p = record p { pending = true }

  unfoldable pub constraint_created : PointerInput F → ConstraintKind → PointerInput F
  constraint_created p kind =
      if is_confined kind
      then record p {
        pending = true;
        unsupported_confinement_requests =
            min (p.unsupported_confinement_requests + 1) (2 ^ 64 - 1);
      }
      else record p { pending = true }

  abbrev pub focus_surface : PointerInput F → Option ℕ
  focus_surface p = elim p.focus [ none ↦ none | some f ↦ some f.surface ]

  -- The candidate's surface is the actual one.
  abbrev pub accepted : Option (ℕ × (F × F)) → Option ℕ → Option (ℕ × (F × F))
  accepted none actual = none
  accepted (some (surface, origin)) actual =
      if option_eq actual (some surface) then some (surface, origin) else none

  unfoldable pub record_motion :
      PointerInput F → ℕ → Option (ℕ × (F × F)) → Option ℕ → PointerInput F
  record_motion p owner candidate actual = elim (accepted candidate actual) [
    | some (surface, origin) ↦ record p {
      pending = true;
      focus = some record { owner = owner; surface = surface; origin = origin };
    }
    | none ↦ record p {
      pending = true;
      focus = if option_eq (focus_surface p) actual then p.focus else none;
    }
  ]

  unfoldable pub clear_focus : PointerInput F → PointerInput F
  clear_focus p = record p { focus = none; pending = true }

  abbrev pub has_other_owner : Option (PointerFocus F) → ℕ → Bool
  has_other_owner none owner = false
  has_other_owner (some f) owner = not (f.owner == owner)

  pub needs_focus_reset : PointerInput F → ℕ → Bool
  needs_focus_reset p next_owner =
      has_other_owner p.focus next_owner || has_other_owner p.native_grab next_owner

  abbrev pub is_on : Option (PointerFocus F) → ℕ → Bool
  is_on none surface = false
  is_on (some f) surface = f.surface == surface

  unfoldable pub forget_surface : PointerInput F → ℕ → PointerInput F
  unfolding clear_focus
  forget_surface p surface = if is_on p.focus surface then clear_focus p else p

  abbrev pub is_of : Option (PointerFocus F) → ℕ → Bool
  is_of none owner = false
  is_of (some f) owner = f.owner == owner

  unfoldable pub forget_window : PointerInput F → ℕ → PointerInput F
  unfolding clear_focus
  forget_window p owner = if is_of p.focus owner then clear_focus p else p

  -- The focus is the focused window's and the actual surface's, alive and in the region.
  unfoldable pub eligible :
      Option (PointerFocus F) → Option ℕ → Option ℕ → ConstraintSnapshot → Bool
  eligible none focused_owner actual constraint = false
  eligible (some f) focused_owner actual constraint =
      option_eq focused_owner (some f.owner)
      && option_eq actual (some f.surface)
      && constraint.live
      && constraint.in_region

  module _ (same : F → F → Bool) where
    abbrev pub focus_eq : PointerFocus F → PointerFocus F → Bool
    focus_eq f g =
        (f.owner == g.owner)
        && (f.surface == g.surface)
        && same f.origin.0 g.origin.0
        && same f.origin.1 g.origin.1

    abbrev pub is_focus : Option (PointerFocus F) → PointerFocus F → Bool
    is_focus none g = false
    is_focus (some f) g = focus_eq f g

    -- `action`, from the parts it reads: the grab, the focus, the constraint, whether the focus is
    -- eligible, and the rest of the state.
    unfoldable pub action_for :
        Option (PointerFocus F)
        → Option (PointerFocus F)
        → ConstraintKind
        → Bool
        → Bool
        → Bool
        → LockStatus
        → LockAction
    action_for (some grab) focus kind active ok pending status =
        if ok && is_focus focus grab && is_locked kind && active && not (is_release_failed status)
        then no_action
        else release
    action_for none focus confined active ok pending status = reject_confinement
    action_for none focus locked active ok pending status =
        if ok && (pending || not (is_acquisition_failed status)) then acquire else no_action
    action_for none focus unconstrained active ok pending status = no_action

    unfoldable pub action : PointerInput F → Option ℕ → Option ℕ → ConstraintSnapshot → LockAction
    unfolding action_for
    action p focused_owner actual constraint =
        action_for p.native_grab p.focus constraint.kind constraint.active
          (eligible p.focus focused_owner actual constraint) p.pending p.status

  unfoldable pub native_acquired : PointerInput F → PointerFocus F → PointerInput F
  native_acquired p focus = record p {
    native_grab = some focus;
    pending = false;
    status = idle_status;
  }

  unfoldable pub activated : PointerInput F → PointerInput F
  activated p = record p { status = locked_status }

  unfoldable pub acquisition_failed : PointerInput F → PointerInput F
  acquisition_failed p = record p { pending = false; status = acquisition_failed_status }

  unfoldable pub released : PointerInput F → Bool → PointerInput F
  released p true = record p { native_grab = none; pending = true; status = idle_status }
  released p false = record p { status = release_failed_status }

  pub freezes_absolute : PointerInput F → Bool
  freezes_absolute p = is_some p.native_grab

  pub relative_focus : PointerInput F → Option ℕ → Option ℕ → Option (PointerFocus F)
  relative_focus p focused_owner actual = elim p.focus [
    | none ↦ none
    | some f ↦
        if option_eq focused_owner (some f.owner)
          && option_eq actual (some f.surface)
          && (not (is_some p.native_grab) || is_locked_status p.status)
        then some f
        else none
  ]

  unfoldable pub button : PointerInput F → ℕ → Bool → PointerInput F
  button p code true = record p { held_buttons = set_insert code p.held_buttons }
  button p code false = record p { held_buttons = set_remove code p.held_buttons }

  unfoldable pub take_buttons : PointerInput F → PointerInput F × List ℕ
  take_buttons p = (record p { held_buttons = [] }, p.held_buttons)
