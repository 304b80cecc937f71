-- ===== src/InputPolicy/Moves.antt =====
-- What a native key event does to the held keys (src/input_policy.rs, key_with_focus).
use cocoa_way.Base.{
  ℕ, ◌≡◌, refl, inl, inr, Bool, true, false, not, ◌&&◌, some, option_eq, Bool-cases, set_contains,
  set_insert, set_remove, AscendsFrom, set_insert_same, set_remove_same,
}
use cocoa_way.InputPolicy.{
  KeyTransition, pressed, released, is_pressed, KeyTransitionReducer, key, key_with_focus,
}

-- What a key event does: nothing, or it is forwarded and the set follows it.
pub data Moves (r : KeyTransitionReducer) (owner k : ℕ) (t : KeyTransition)
    (out : KeyTransitionReducer × Bool) : Type 0 where
  ignored : out ≡ (r, false) → Moves r owner k t out
  goes_down :
      option_eq r.owner (some owner) ≡ true
      → set_contains k r.held_keys ≡ false
      → t ≡ pressed
      → out ≡ (record r { held_keys = set_insert k r.held_keys }, true)
      → Moves r owner k t out
  comes_up :
      option_eq r.owner (some owner) ≡ true
      → set_contains k r.held_keys ≡ true
      → t ≡ released
      → out ≡ (record r { held_keys = set_remove k r.held_keys }, true)
      → Moves r owner k t out

abbrev pub IsTidy : KeyTransitionReducer → Type 0
IsTidy r = AscendsFrom 0 r.held_keys

key-Moves :
    (r : KeyTransitionReducer) (owner k : ℕ) (t : KeyTransition) (repeated : Bool)
    → IsTidy r
    → Moves r owner k t (key r owner k t repeated)
unfolding key
key-Moves r owner k t repeated tidy = elim (Bool-cases (option_eq r.owner (some owner))) [
  | inr other ↦ ignored (rw (other, key))
  | inl mine ↦ elim (Bool-cases (set_contains k r.held_keys)) [
    | inl there ↦ down t repeated mine there
    | inr absent ↦ up t repeated mine absent
  ]
]
  where
    down :
        (t : KeyTransition) (repeated : Bool)
        → option_eq r.owner (some owner) ≡ true
        → set_contains k r.held_keys ≡ true
        → Moves r owner k t (key r owner k t repeated)
    down pressed true mine there = ignored (rw (mine, key))
    down pressed false mine there =
        ignored (rw (mine, key, there, set_insert_same 0 k r.held_keys tidy there))
    down released repeated mine there = comes_up mine there refl (rw (mine, key, there))

    up :
        (t : KeyTransition) (repeated : Bool)
        → option_eq r.owner (some owner) ≡ true
        → set_contains k r.held_keys ≡ false
        → Moves r owner k t (key r owner k t repeated)
    up pressed true mine absent = ignored (rw (mine, key))
    up pressed false mine absent = goes_down mine absent refl (rw (mine, key, absent))
    up released repeated mine absent =
        ignored (rw (mine, key, absent, set_remove_same k r.held_keys absent))

pub key_with_focus-Moves :
    (r : KeyTransitionReducer) (owner k : ℕ) (t : KeyTransition) (repeated has_focus : Bool)
    → IsTidy r
    → Moves r owner k t (key_with_focus r owner k t repeated has_focus)
unfolding key_with_focus
key_with_focus-Moves r owner k t repeated has_focus tidy =
    elim (Bool-cases (not has_focus && is_pressed t)) [
      | inl refused ↦ ignored (rw (refused, key_with_focus))
      | inr passed ↦ rw (passed, key_with_focus) (key-Moves r owner k t repeated tidy)
    ]
