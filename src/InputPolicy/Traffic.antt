-- ===== src/InputPolicy/Traffic.antt =====
-- What the seat's keyboard gets in a history of native key events (src/main.rs: release_pressed_keys,
-- set_keyboard_owner, forward_keyboard_event). The seat has a keyboard, which is the protocol
-- library's: of it, the keys that it reports as pressed are a function of the inputs that it got. A
-- key is named by its scancode, which the source sends with 8 added.
use cocoa_way.Base.{
  ℕ, ◌+◌, ◌≡◌, refl, Bool, true, false, ◌&&◌, Option, some, List, [], ◌∷◌, ◌==◌, if◌then◌else◌,
  option_eq, nat_of, count, arith,
}
use cocoa_way.InputPolicy.{
  KeyTransition, pressed, released, KeyTransitionReducer, new, set_owner, key_with_focus,
}

-- An input, with the window that owns the keyboard at the time.
pub data Sent : Type 0 where
  press release : Option ℕ → ℕ → Sent

-- The keys of the seat with the inputs that the keyboard got, the last one first.
pub record Seat : Type 0 where
  pub keys : KeyTransitionReducer
  pub inputs : List Sent

unfoldable pub start : Seat
start = record { keys = new; inputs = [] }

pub data Op : Type 0 where
  own : Option ℕ → Op
  input : ℕ → ℕ → KeyTransition → Bool → Bool → Op

-- `release_pressed_keys` on the keys that are reported.
unfoldable pub release_all : Option ℕ → List ℕ → List Sent → List Sent
release_all owner [] inputs = inputs
release_all owner (k ∷ keys) inputs = release_all owner keys (release owner k ∷ inputs)

unfoldable pub sent_if : ℕ → ℕ → KeyTransition → Bool → List Sent → List Sent
sent_if owner k transition false inputs = inputs
sent_if owner k pressed true inputs = press (some owner) k ∷ inputs
sent_if owner k released true inputs = release (some owner) k ∷ inputs

module _ (pressed_keys : List Sent → List ℕ) where
  -- The drained keys are discarded.
  unfoldable pub set_keyboard_owner : Seat → Option ℕ → Seat
  set_keyboard_owner s owner = if option_eq s.keys.owner owner then s else record {
    keys = (set_owner s.keys owner).0;
    inputs = release_all s.keys.owner (pressed_keys s.inputs) s.inputs;
  }

  unfoldable pub forward_keyboard_event : Seat → ℕ → ℕ → KeyTransition → Bool → Bool → Seat
  forward_keyboard_event s window scancode transition repeated has_focus =
      let (keys, forwarded) = key_with_focus s.keys window scancode transition repeated has_focus in
      record { keys = keys; inputs = sent_if window scancode transition forwarded s.inputs }

  unfoldable pub step : Seat → Op → Seat
  step s (own owner) = set_keyboard_owner s owner
  step s (input window k transition repeated has_focus) =
      forward_keyboard_event s window k transition repeated has_focus

  unfoldable pub run : Seat → List Op → Seat
  run s [] = s
  run s (op ∷ ops) = run (step s op) ops

-- Whether the last input of a key was a press.
unfoldable pub is_down : ℕ → List Sent → Bool
is_down k [] = false
is_down k (press owner j ∷ inputs) =
    let before = is_down k inputs in if j == k then true else before
is_down k (release owner j ∷ inputs) =
    let before = is_down k inputs in if j == k then false else before

-- How many of these were sent for one key of one window.
unfoldable pub presses : ℕ → ℕ → List Sent → ℕ
presses o k [] = 0
presses o k (press owner j ∷ xs) = nat_of (option_eq owner (some o) && (j == k)) + presses o k xs
presses o k (release owner j ∷ xs) = presses o k xs

unfoldable pub releases : ℕ → ℕ → List Sent → ℕ
releases o k [] = 0
releases o k (press owner j ∷ xs) = releases o k xs
releases o k (release owner j ∷ xs) =
    nat_of (option_eq owner (some o) && (j == k)) + releases o k xs

-- Whether a key of a window is down now, as a number.
unfoldable pub held_by : Option ℕ → List ℕ → ℕ → ℕ → ℕ
held_by owner keys o k = if option_eq owner (some o) then count k keys else 0

abbrev pub held : KeyTransitionReducer → ℕ → ℕ → ℕ
held r = held_by r.owner r.held_keys

pub held_by-nil : (owner : Option ℕ) (o k : ℕ) → held_by owner [] o k ≡ 0
unfolding held_by
held_by-nil owner o k = ground arith

-- Releasing keys sends a release for each of them, and leaves none of them down.
pub release_all-counts :
    (keys : List ℕ) (owner : Option ℕ) (inputs : List Sent) (o k : ℕ)
    → (presses o k (release_all owner keys inputs) ≡ presses o k inputs)
      × (releases o k (release_all owner keys inputs)
          ≡ held_by owner keys o k + releases o k inputs)
unfolding release_all presses releases held_by
release_all-counts [] owner inputs o k = (refl, ground arith)
release_all-counts (j ∷ keys) owner inputs o k =
    let (p, q) = release_all-counts keys owner (release owner j ∷ inputs) o k in
    (p, ground (arith, q))

pub release_all-is_down :
    (keys : List ℕ) (owner : Option ℕ) (inputs : List Sent) (k : ℕ)
    → is_down k (release_all owner keys inputs) ≡ (is_down k inputs && (count k keys == 0))
unfolding release_all is_down
release_all-is_down [] owner inputs k = ground arith
release_all-is_down (j ∷ keys) owner inputs k =
    let rest = release_all-is_down keys owner (release owner j ∷ inputs) k in ground (arith, rest)
