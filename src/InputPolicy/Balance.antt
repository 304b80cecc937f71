-- ===== src/InputPolicy/Balance.antt =====
-- The press and release balance of the seat's keyboard.
use mathlib.Core.Path.{subst₂}
use cocoa_way.Base.{
  ℕ, subst, ◌+◌, ◌≤◌, ◌≡◌, refl, sym, ◌∙◌, inl, inr, Bool, true, false, ◌&&◌, Option, none, some,
  List, [], ◌∷◌, ◌==◌, option_eq, nat_of, arith, count, if◌then◌else◌, Bool-cases, set_contains,
  set_insert, set_remove, AscendsFrom, AscendsFrom-set_insert, AscendsFrom-set_remove,
  count-set_insert, count-set_remove, count-set,
}
use cocoa_way.InputPolicy.{KeyTransition, KeyTransitionReducer, new, set_owner}
use cocoa_way.InputPolicy.Traffic.{
  Sent, Seat, start, Op, own, input, sent_if, set_keyboard_owner, forward_keyboard_event, step, run,
  is_down, presses, releases, held_by, held, held_by-nil, release_all-counts, release_all-is_down,
}
use cocoa_way.InputPolicy.Moves.{Moves, ignored, goes_down, comes_up, IsTidy, key_with_focus-Moves}

-- Presses balance releases, but for the keys that are down, and the keyboard has down what is held.
record IsSynced (s : Seat) : Type 0 where
  balance : (o k : ℕ) → presses o k s.inputs ≡ releases o k s.inputs + held s.keys o k
  down : (k : ℕ) → nat_of (is_down k s.inputs) ≡ count k s.keys.held_keys
  tidy : IsTidy s.keys

-- The sets before and after a forwarded transition.
held_by-set_insert :
    (owner : Option ℕ) (keys : List ℕ) (to j o k : ℕ)
    → option_eq owner (some to) ≡ true
    → set_contains j keys ≡ false
    → held_by owner (set_insert j keys) o k
      ≡ nat_of ((to == o) && (j == k)) + held_by owner keys o k
unfolding held_by
held_by-set_insert none keys to j o k mine absent = cc
held_by-set_insert (some owner) keys to j o k mine absent =
    ground (arith, count-set_insert k j keys absent)

held_by-set_remove :
    (owner : Option ℕ) (keys : List ℕ) (to j o k : ℕ)
    → option_eq owner (some to) ≡ true
    → set_contains j keys ≡ true
    → nat_of ((to == o) && (j == k)) + held_by owner (set_remove j keys) o k
      ≡ held_by owner keys o k
unfolding held_by
held_by-set_remove none keys to j o k mine there = cc
held_by-set_remove (some owner) keys to j o k mine there =
    ground (arith, count-set_remove k j keys there)

held_by-same :
    (owner : Option ℕ) (keys others : List ℕ) (o k : ℕ)
    → count k keys ≡ count k others
    → held_by owner keys o k ≡ held_by owner others o k
unfolding held_by
held_by-same owner keys others o k e = ground (arith, e)

-- What the keyboard has down follows the set.
pub is_down-insert :
    (j k : ℕ) (keys : List ℕ) (before : Bool)
    → IsTidy (record { owner = none; held_keys = keys })
    → nat_of before ≡ count k keys
    → set_contains j keys ≡ false
    → nat_of (if j == k then true else before) ≡ count k (set_insert j keys)
is_down-insert j k keys before tidy down absent = elim (Bool-cases (j == k)) [
  | inl same ↦
      let is : j ≡ k = ground (arith, same) in
      rw same (ground (arith, count-set_insert k j keys absent, count-set 0 j keys tidy, is))
  | inr other ↦ rw other (ground (arith, count-set_insert k j keys absent))
]

pub is_down-remove :
    (j k : ℕ) (keys : List ℕ) (before : Bool)
    → IsTidy (record { owner = none; held_keys = keys })
    → nat_of before ≡ count k keys
    → set_contains j keys ≡ true
    → nat_of (if j == k then false else before) ≡ count k (set_remove j keys)
is_down-remove j k keys before tidy down there = elim (Bool-cases (j == k)) [
  | inl same ↦
      let is : j ≡ k = ground (arith, same) in
      rw same (ground (arith, count-set_remove k j keys there, count-set 0 j keys tidy, is))
  | inr other ↦ rw other (ground (arith, count-set_remove k j keys there))
]

all_released :
    (before : Bool) (n : ℕ) {after : Bool}
    → n ≡ nat_of before
    → after ≡ (before && (n == 0))
    → nat_of after ≡ 0
all_released true n e f = ground (arith, e, f)
all_released false n e f = ground (arith, e, f)

module _ (s : Seat) (window j : ℕ) (v : IsSynced s) where
  abbrev Follows : KeyTransition → KeyTransitionReducer × Bool → Type 0
  Follows t out = IsSynced (record { keys = out.0; inputs = sent_if window j t out.1 s.inputs })

  IsSynced-Moves :
      (t : KeyTransition) (out : KeyTransitionReducer × Bool)
      → Moves s.keys window j t out
      → Follows t out
  unfolding sent_if presses releases is_down
  IsSynced-Moves t out (ignored e) = subst (λ out. Follows t out) (sym e) v
  IsSynced-Moves t out (goes_down mine absent is e) =
      subst₂ (λ t out. Follows t out) (sym is) (sym e)
        (record {
          balance = λ o k. omega (
            arith,
            v.balance o k,
            held_by-set_insert s.keys.owner s.keys.held_keys window j o k mine absent,
          );
          down = λ k.
              is_down-insert j k s.keys.held_keys (is_down k s.inputs) v.tidy (v.down k) absent;
          tidy = AscendsFrom-set_insert 0 j s.keys.held_keys (omega arith) v.tidy;
        })
  IsSynced-Moves t out (comes_up mine there is e) =
      subst₂ (λ t out. Follows t out) (sym is) (sym e)
        (record {
          balance = λ o k. omega (
            arith,
            v.balance o k,
            held_by-set_remove s.keys.owner s.keys.held_keys window j o k mine there,
          );
          down =
              λ k. is_down-remove j k s.keys.held_keys (is_down k s.inputs) v.tidy (v.down k) there;
          tidy = AscendsFrom-set_remove 0 j s.keys.held_keys v.tidy;
        })

held_by-le :
    (owner : Option ℕ) (keys : List ℕ) (o k : ℕ) → AscendsFrom 0 keys → held_by owner keys o k ≤ 1
unfolding held_by
held_by-le owner keys o k tidy = ground (arith, count-set 0 k keys tidy)

module _ (pressed_keys : List Sent → List ℕ)
    (reports : (inputs : List Sent) (k : ℕ)
      → count k (pressed_keys inputs) ≡ nat_of (is_down k inputs)) where
  owner-IsSynced :
      (s : Seat) (owner : Option ℕ)
      → IsSynced s
      → IsSynced (set_keyboard_owner pressed_keys s owner)
  unfolding set_keyboard_owner set_owner
  owner-IsSynced s owner v = elim (Bool-cases (option_eq s.keys.owner owner)) [
    | inl same ↦ rw (same, set_keyboard_owner) v
    | inr other ↦
        let drained = pressed_keys s.inputs in
        rw (other, set_keyboard_owner)
          (record {
            balance = λ o k. omega (
              arith,
              v.balance o k,
              release_all-counts drained s.keys.owner s.inputs o k,
              held_by-same s.keys.owner drained s.keys.held_keys o k
                  (reports s.inputs k ∙ v.down k),
              held_by-nil owner o k,
            );
            down = λ k.
                all_released (is_down k s.inputs) (count k drained) (reports s.inputs k)
                  (release_all-is_down drained s.keys.owner s.inputs k);
            tidy = tt;
          })
  ]

  step-IsSynced : (s : Seat) (op : Op) → IsSynced s → IsSynced (step pressed_keys s op)
  unfolding step forward_keyboard_event
  step-IsSynced s (own owner) v = owner-IsSynced s owner v
  step-IsSynced s (input window j t repeated has_focus) v =
      IsSynced-Moves s window j v t _
        (key_with_focus-Moves s.keys window j t repeated has_focus v.tidy)

  run-IsSynced : (ops : List Op) (s : Seat) → IsSynced s → IsSynced (run pressed_keys s ops)
  unfolding run
  run-IsSynced [] s v = v
  run-IsSynced (op ∷ ops) s v = run-IsSynced ops (step pressed_keys s op) (step-IsSynced s op v)

  -- After any history of owner changes and key events, from the first state on, with a keyboard that
  -- reports as pressed the keys whose last input was a press: every window got as many presses of a
  -- key as releases, and one more exactly if the key is held down for it now; a key is held down at
  -- most once, for the owner only, and the keyboard has down exactly the keys that are held.
  pub run-start-Balances :
      (ops : List Op) (o k : ℕ)
      → let s = run pressed_keys start ops in
        (presses o k s.inputs ≡ releases o k s.inputs + held s.keys o k)
        × (held s.keys o k ≤ 1)
        × (nat_of (is_down k s.inputs) ≡ count k s.keys.held_keys)
  unfolding start new held_by presses releases is_down
  run-start-Balances ops o k =
      let v =
        run-IsSynced ops start (record { balance = λ o k. refl; down = λ k. refl; tidy = tt }) in
      (v.balance o k, held_by-le _ _ o k v.tidy, v.down k)
