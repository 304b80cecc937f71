-- ===== src/InputPolicy.antt =====
-- Keyboard ownership and focus policy (src/input_policy.rs). A window is its native number; a focus
-- target has any type. `held_keys` is the `BTreeSet` of Base/Sets.
pub mod Traffic
pub mod Moves
pub mod Balance
use cocoa_way.Base.{
  ℕ, Bool, true, false, not, ◌&&◌, ◌||◌, Option, none, some, List, [], ◌==◌, if◌then◌else◌,
  option_eq, set_contains, set_insert, set_remove,
}

pub data KeyTransition : Type 0 where
  pressed released : KeyTransition

abbrev pub is_pressed : KeyTransition → Bool
is_pressed pressed = true
is_pressed released = false

pub requests_clipboard_refresh : ℕ → KeyTransition → Bool → Bool → Bool → Bool → Bool
requests_clipboard_refresh evdev_key transition repeated ctrl logo shift =
    is_pressed transition
    && not repeated
    && (((evdev_key == 47) && (ctrl || logo)) || ((evdev_key == 110) && shift))

pub record KeyTransitionReducer : Type 0 where
  pub owner : Option ℕ
  pub held_keys : List ℕ

pub new : KeyTransitionReducer
new = record { owner = none; held_keys = [] }

-- The keys that are drained are the second part.
unfoldable pub set_owner : KeyTransitionReducer → Option ℕ → KeyTransitionReducer × List ℕ
set_owner r owner =
    if option_eq r.owner owner
    then (r, [])
    else (record { owner = owner; held_keys = [] }, r.held_keys)

unfoldable pub focus_lost : KeyTransitionReducer → ℕ → KeyTransitionReducer × List ℕ
focus_lost r owner = if not (option_eq r.owner (some owner)) then (r, []) else set_owner r none

-- Whether the caller forwards the transition is the second part.
unfoldable pub key :
    KeyTransitionReducer → ℕ → ℕ → KeyTransition → Bool → KeyTransitionReducer × Bool
key r owner evdev_key transition repeated =
    if not (option_eq r.owner (some owner)) then (r, false) else elim transition [
      | pressed ↦ if repeated then (r, false) else (
        record r { held_keys = set_insert evdev_key r.held_keys },
        not (set_contains evdev_key r.held_keys),
      )
      | released ↦ (
        record r { held_keys = set_remove evdev_key r.held_keys },
        set_contains evdev_key r.held_keys,
      )
    ]

unfoldable pub key_with_focus :
    KeyTransitionReducer → ℕ → ℕ → KeyTransition → Bool → Bool → KeyTransitionReducer × Bool
key_with_focus r owner evdev_key transition repeated has_focus =
    if not has_focus && is_pressed transition
    then (r, false)
    else key r owner evdev_key transition repeated

-- The saved focus is always taken.
pub resume_focus {ℓ} : {A : Type ℓ} → Option A → Bool → (A → Bool) → Option A × Option A
resume_focus saved already_focused live = (
  none,
  if already_focused
      then none
      else elim saved [ none ↦ none | some target ↦ if live target then some target else none ],
)

pub record PointerLockEligibility : Type 0 where
  pub focused : Bool
  pub in_region : Bool
  pub live : Bool
  pub native_acquired : Bool

unfoldable pub can_activate : PointerLockEligibility → Bool
can_activate e = e.focused && e.in_region && e.live && e.native_acquired
