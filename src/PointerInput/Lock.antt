-- ===== src/PointerInput/Lock.antt =====
-- The driver of the pointer lock (src/main.rs: release_pointer_lock, reconcile_pointer_lock), with
-- what the window system answers as inputs: the focus and constraint that one pass sees, and whether
-- the calls that lock the cursor, activate the constraint and free the cursor succeed. The cursor is
-- locked by a successful lock call, free after a successful free call, and a failed call changes
-- nothing. Activation of the constraint itself is the protocol library's and is not part of the state.
use cocoa_way.Base.{
  Bool, true, false, not, ◌&&◌, ◌||◌, Option, none, some, ℕ, if◌then◌else◌, is_some, option_eq,
}
use cocoa_way.InputPolicy.{PointerLockEligibility, can_activate}
use cocoa_way.PointerInput.{
  PointerFocus, PointerInput, ConstraintKind, unconstrained, ConstraintSnapshot, LockAction,
  no_action, acquire, release, reject_confinement, idle_status, confinement_unsupported_status,
  set_status, action, native_acquired, activated, acquisition_failed, released,
}

pub record Native (F : Type 0) : Type 0 where
  pub input : PointerInput F
  pub cursor_locked : Bool

pub record Pass : Type 0 where
  pub focused_owner : Option ℕ
  pub actual : Option ℕ
  pub snapshot : ConstraintSnapshot
  pub locks : Bool
  pub activates : Bool
  pub frees : Bool

abbrev pub is_unconstrained : ConstraintKind → Bool
is_unconstrained unconstrained = true
is_unconstrained _ = false

module _ {F : Type 0} where
  -- Whether the cursor is free afterwards is the second part.
  unfoldable pub release_pointer_lock : Native F → Bool → Native F × Bool
  release_pointer_lock n frees =
      if is_some n.input.native_grab
      then (
        record {
          input = released n.input frees;
          cursor_locked = if frees then false else n.cursor_locked;
        },
        frees,
      )
      else (n, true)

  unfoldable pub try_acquire : Native F → Pass → PointerFocus F → Native F
  try_acquire n pass focus =
      let eligibility : PointerLockEligibility = record {
        focused = option_eq pass.focused_owner (some focus.owner);
        in_region = pass.snapshot.in_region;
        live = pass.snapshot.live;
        native_acquired = pass.locks;
      } in
      let cursor = n.cursor_locked || pass.locks in
      if not (can_activate eligibility)
      then record { input = acquisition_failed n.input; cursor_locked = cursor }
      else if pass.activates
      then record { input = activated (native_acquired n.input focus); cursor_locked = cursor }
      else (release_pointer_lock
          record { input = native_acquired n.input focus; cursor_locked = cursor } pass.frees).0

  -- The arms of the loop's `match`; whether there is another turn is the second part.
  -- `focus.unwrap()` panics if there is no focus to acquire for: the model then changes nothing.
  unfoldable pub perform : Native F → Pass → LockAction → Native F × Bool
  perform n pass release = release_pointer_lock n pass.frees
  perform n pass reject_confinement =
      (record n { input = (set_status n.input confinement_unsupported_status).0 }, false)
  perform n pass acquire =
      (elim n.input.focus [ none ↦ n | some focus ↦ try_acquire n pass focus ], false)
  perform n pass no_action =
      if not (is_some n.input.native_grab) && is_unconstrained pass.snapshot.kind
      then (record n { input = (set_status n.input idle_status).0 }, false)
      else (n, false)

  module _ (same : F → F → Bool) where
    -- One turn of the loop.
    unfoldable pub reconcile_pass : Native F → Pass → Native F × Bool
    reconcile_pass n pass =
        if is_unconstrained pass.snapshot.kind && not (is_some n.input.native_grab)
        then (record n { input = (set_status n.input idle_status).0 }, false)
        else perform n pass (action same n.input pass.focused_owner pass.actual pass.snapshot)

    -- Two passes at most.
    unfoldable pub reconcile_pointer_lock : Native F → Pass → Pass → Native F
    reconcile_pointer_lock n first second =
        let (n', again) = reconcile_pass n first in
        if again then (reconcile_pass n' second).0 else n'
