-- ===== src/PointerInput/History.antt =====
-- Histories of the pointer calls: the cursor is locked exactly while a grab is owned.
use cocoa_way.Base.{
  ℕ, ◌≡◌, refl, inl, inr, ap, ◌∙◌, arith, Bool, true, false, Option, none, some, List, [], ◌∷◌,
  is_some, Bool-cases, sym,
}
use cocoa_way.PointerInput.{
  PointerInput, ConstraintKind, unconstrained, LockStatus, new, set_status, request_reconcile,
  constraint_created, is_confined, record_motion, clear_focus, is_on, forget_surface, is_of,
  forget_window, button, take_buttons,
}
use cocoa_way.PointerInput.Lock.{Native, Pass, release_pointer_lock, reconcile_pointer_lock}
use cocoa_way.PointerInput.Grab.{reconcile_pointer_lock-Settled, release_pointer_lock-Ends}

pub data Op (F : Type 0) : Type 0 where
  motion : ℕ → Option (ℕ × (F × F)) → Option ℕ → Op F
  clear : Op F
  surface_gone window_gone : ℕ → Op F
  constrain : ConstraintKind → Op F
  request : Op F
  status : LockStatus → Op F
  press_button : ℕ → Bool → Op F
  drain_buttons : Op F
  retire : Bool → Op F
  reconcile : Pass → Pass → Op F

module _ {F : Type 0} where
  abbrev pub start : Native F
  start = record { input = new; cursor_locked = false }

module _ {F : Type 0} (same : F → F → Bool) where
  unfoldable pub input_step : PointerInput F → Op F → PointerInput F
  input_step p (motion owner candidate actual) = record_motion p owner candidate actual
  input_step p clear = clear_focus p
  input_step p (surface_gone surface) = forget_surface p surface
  input_step p (window_gone owner) = forget_window p owner
  input_step p (constrain kind) = constraint_created p kind
  input_step p request = request_reconcile p
  input_step p (status s) = (set_status p s).0
  input_step p (press_button code pressed) = button p code pressed
  input_step p drain_buttons = (take_buttons p).0
  input_step p (retire frees) = p
  input_step p (reconcile first second) = p

  unfoldable pub step : Native F → Op F → Native F
  step n (retire frees) = (release_pointer_lock n frees).0
  step n (reconcile first second) = reconcile_pointer_lock same n first second
  step n op = record n { input = input_step n.input op }

  unfoldable pub run : Native F → List (Op F) → Native F
  run n [] = n
  run n (op ∷ ops) = run (step n op) ops

  -- No call but a release or a reconcile changes the grab.
  input_step-native_grab :
      (p : PointerInput F) (op : Op F) → (input_step p op).native_grab ≡ p.native_grab
  unfolding input_step record_motion clear_focus forget_surface forget_window constraint_created
      request_reconcile set_status button take_buttons
  input_step-native_grab p (motion owner none actual) = refl
  input_step-native_grab p (motion owner (some (surface, origin)) none) = refl
  input_step-native_grab p (motion owner (some (surface, origin)) (some actual)) = ground arith
  input_step-native_grab p clear = refl
  input_step-native_grab p (surface_gone surface) = elim (Bool-cases (is_on p.focus surface)) [
    | inl on ↦ simp on refl
    | inr off ↦ simp off refl
  ]
  input_step-native_grab p (window_gone owner) = elim (Bool-cases (is_of p.focus owner)) [
    | inl on ↦ simp on refl
    | inr off ↦ simp off refl
  ]
  input_step-native_grab p (constrain kind) = elim (Bool-cases (is_confined kind)) [
    | inl on ↦ simp on refl
    | inr off ↦ simp off refl
  ]
  input_step-native_grab p request = refl
  input_step-native_grab p (status s) = refl
  input_step-native_grab p (press_button code true) = refl
  input_step-native_grab p (press_button code false) = refl
  input_step-native_grab p drain_buttons = refl
  input_step-native_grab p (retire frees) = refl
  input_step-native_grab p (reconcile first second) = refl

  -- The cursor is locked exactly while a grab is owned.
  abbrev pub IsOwned : Native F → Type 0
  IsOwned n = n.cursor_locked ≡ is_some n.input.native_grab

  input_step-IsOwned :
      (n : Native F) (op : Op F) → IsOwned n → IsOwned (record n { input = input_step n.input op })
  input_step-IsOwned n op owned = owned ∙ ap is_some (sym (input_step-native_grab n.input op))

  -- A pass in which nothing is to be seen.
  abbrev unseen : Pass
  unseen = record {
    focused_owner = none;
    actual = none;
    snapshot = record { kind = unconstrained; active = false; live = false; in_region = false };
    locks = false;
    activates = false;
    frees = false;
  }

  step-IsOwned : (n : Native F) (op : Op F) → IsOwned n → IsOwned (step n op)
  unfolding step
  step-IsOwned n (retire frees) owned = (release_pointer_lock-Ends same n unseen frees owned).0
  step-IsOwned n (reconcile first second) owned =
      (reconcile_pointer_lock-Settled same n first second owned).0
  step-IsOwned n (motion owner candidate actual) owned = input_step-IsOwned n _ owned
  step-IsOwned n clear owned = input_step-IsOwned n _ owned
  step-IsOwned n (surface_gone surface) owned = input_step-IsOwned n _ owned
  step-IsOwned n (window_gone owner) owned = input_step-IsOwned n _ owned
  step-IsOwned n (constrain kind) owned = input_step-IsOwned n _ owned
  step-IsOwned n request owned = input_step-IsOwned n _ owned
  step-IsOwned n (status s) owned = input_step-IsOwned n _ owned
  step-IsOwned n (press_button code pressed) owned = input_step-IsOwned n _ owned
  step-IsOwned n drain_buttons owned = input_step-IsOwned n _ owned

  run-IsOwned : (ops : List (Op F)) (n : Native F) → IsOwned n → IsOwned (run n ops)
  unfolding run
  run-IsOwned [] n owned = owned
  run-IsOwned (op ∷ ops) n owned = run-IsOwned ops (step n op) (step-IsOwned n op owned)

  -- After any history of motions, lost focuses, constraints, buttons, reconciles and retired windows,
  -- whichever native calls fail, the native cursor is locked exactly while the input state owns a
  -- grab: none is forgotten before its release has succeeded.
  pub run-start-IsOwned : (ops : List (Op F)) → IsOwned (run start ops)
  unfolding new
  run-start-IsOwned ops = run-IsOwned ops start refl
