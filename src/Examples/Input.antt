-- ===== src/Examples/Input.antt =====
-- Keyboard and pointer histories (src/input_policy.rs, src/pointer_input.rs, src/main.rs).
use cocoa_way.Base.{
  ℕ, ◌+◌, ◌≤◌, ◌≡◌, refl, ◌⊎◌, Bool, true, false, none, some, List, [], ◌∷◌, ◌==◌, is_some, sym,
  inl, inr, nat_of, count, arith, if◌then◌else◌, Bool-cases, set_contains, set_insert, set_remove,
  AscendsFrom, AscendsFrom-set_insert, AscendsFrom-set_remove, count-set, set_insert_same,
  set_remove_same,
}
use cocoa_way.InputPolicy.{pressed, released}
use cocoa_way.InputPolicy.Traffic.{
  Sent, press, release, Op, own, input, run, start, is_down, presses, releases, held,
}
use cocoa_way.InputPolicy.Balance.{is_down-insert, is_down-remove, run-start-Balances}
use cocoa_way.PointerInput.{PointerFocus, PointerInput, locked, unconstrained, idle_status}
use cocoa_way.PointerInput.Lock.{Pass, reconcile_pointer_lock}
use cocoa_way.PointerInput.Grab.{Settled, reconcile_pointer_lock-Settled}
use cocoa_way.PointerInput.History as history

-- Window 1 presses two keys and releases one; window 2 takes over.
abbrev keys : List Op
keys =
    own (some 1)
    ∷ input 1 30 pressed false true
    ∷ input 1 31 pressed false true
    ∷ input 1 30 pressed true true
    ∷ input 1 30 released false true
    ∷ own (some 2)
    ∷ input 2 31 pressed false true
    ∷ []

-- A keyboard that reports the keys whose last input was a press.
abbrev down_keys : List Sent → List ℕ
down_keys [] = []
down_keys (press o j ∷ inputs) = set_insert j (down_keys inputs)
down_keys (release o j ∷ inputs) = set_remove j (down_keys inputs)

down_keys-Ascends : (inputs : List Sent) → AscendsFrom 0 (down_keys inputs)
down_keys-Ascends [] = tt
down_keys-Ascends (press o j ∷ inputs) =
    AscendsFrom-set_insert 0 j (down_keys inputs) (omega arith) (down_keys-Ascends inputs)
down_keys-Ascends (release o j ∷ inputs) =
    AscendsFrom-set_remove 0 j (down_keys inputs) (down_keys-Ascends inputs)

down_keys-reports :
    (inputs : List Sent) (k : ℕ) → count k (down_keys inputs) ≡ nat_of (is_down k inputs)
unfolding is_down
down_keys-reports [] k = refl
down_keys-reports (press o j ∷ inputs) k = sym (
    pressed_key j k (down_keys inputs) (is_down k inputs) (down_keys-Ascends inputs)
      (sym (down_keys-reports inputs k)))
  where
    pressed_key :
        (j k : ℕ) (keys : List ℕ) (before : Bool)
        → AscendsFrom 0 keys
        → nat_of before ≡ count k keys
        → nat_of (if j == k then true else before) ≡ count k (set_insert j keys)
    pressed_key j k keys before tidy down = elim (Bool-cases (set_contains j keys)) [
      | inr absent ↦ is_down-insert j k keys before tidy down absent
      | inl there ↦ rw (set_insert_same 0 j keys tidy there) (elim (Bool-cases (j == k)) [
        | inl same ↦
            let is : j ≡ k = ground (arith, same) in
            rw same (ground (arith, count-set 0 j keys tidy, is))
        | inr other ↦ rw other down
      ])
    ]
down_keys-reports (release o j ∷ inputs) k = sym (
    released_key j k (down_keys inputs) (is_down k inputs) (down_keys-Ascends inputs)
      (sym (down_keys-reports inputs k)))
  where
    released_key :
        (j k : ℕ) (keys : List ℕ) (before : Bool)
        → AscendsFrom 0 keys
        → nat_of before ≡ count k keys
        → nat_of (if j == k then false else before) ≡ count k (set_remove j keys)
    released_key j k keys before tidy down = elim (Bool-cases (set_contains j keys)) [
      | inl there ↦ is_down-remove j k keys before tidy down there
      | inr absent ↦ rw (set_remove_same j keys absent) (elim (Bool-cases (j == k)) [
        | inl same ↦
            let is : j ≡ k = ground (arith, same) in
            rw same (ground (arith, count-set 0 j keys tidy, is))
        | inr other ↦ rw other down
      ])
    ]

run-start-Balances_example :
    let s = run down_keys start keys in
    (presses 1 31 s.inputs ≡ releases 1 31 s.inputs + held s.keys 1 31)
    × (held s.keys 1 31 ≤ 1)
    × (nat_of (is_down 31 s.inputs) ≡ count 31 s.keys.held_keys)
run-start-Balances_example = run-start-Balances down_keys down_keys-reports keys 1 31

abbrev focus : PointerFocus ℕ
focus = record { owner = 1; surface = 5; origin = (0, 0) }

abbrev pointer : PointerInput ℕ
pointer = record {
  focus = some focus;
  native_grab = none;
  pending = true;
  status = idle_status;
  unsupported_confinement_requests = 0;
  held_buttons = [];
}

abbrev lockable : Pass
lockable = record {
  focused_owner = some 1;
  actual = some 5;
  snapshot = record { kind = locked; active = false; live = true; in_region = true };
  locks = true;
  activates = true;
  frees = true;
}

abbrev same : ℕ → ℕ → Bool
same a b = a == b

reconcile_pointer_lock-Settled_example :
    let n' =
      reconcile_pointer_lock same
        (record { input = pointer; cursor_locked = false })
        lockable
        lockable in
    (n'.cursor_locked ≡ is_some n'.input.native_grab)
    × (Settled same n' lockable ⊎ Settled same n' lockable)
reconcile_pointer_lock-Settled_example =
    reconcile_pointer_lock-Settled same (record { input = pointer; cursor_locked = false }) lockable
      lockable refl

-- The lock is acquired; then the surface goes, and the first release fails.
abbrev stubborn : Pass
stubborn = record {
  focused_owner = some 1;
  actual = none;
  snapshot = record { kind = unconstrained; active = false; live = false; in_region = false };
  locks = false;
  activates = false;
  frees = false;
}

abbrev pointer_ops : List (history.Op ℕ)
pointer_ops =
    history.motion 1 (some (5, (0, 0))) (some 5)
    ∷ history.reconcile lockable lockable
    ∷ history.surface_gone 5
    ∷ history.reconcile stubborn stubborn
    ∷ history.retire true
    ∷ []

run-start-IsOwned_example :
    (history.run same history.start pointer_ops).cursor_locked
    ≡ is_some (history.run same history.start pointer_ops).input.native_grab
run-start-IsOwned_example = history.run-start-IsOwned same pointer_ops
