-- ===== src/EventTurn.antt =====
-- Admission of background work in one turn of the event loop (src/event_turn.rs). An `Instant` is a
-- number of nanoseconds.
use cocoa_way.Base.{
  ℕ, zero, suc, ◌+◌, ◌≡◌, refl, ap, ◌∙◌, inl, inr, Bool, true, false, ◌||◌, List, [], ◌∷◌, ltb, leb,
  ◌==◌, if◌then◌else◌, arith, Bool-cases,
}

pub record ControlWorkBudget : Type 0 where
  pub input_turn : Bool
  pub deadline : ℕ
  pub admitted : ℕ

pub new : Bool → ℕ → ControlWorkBudget
new input_turn now = record { input_turn = input_turn; deadline = now + 2000000; admitted = 0 }

unfoldable pub admit : ControlWorkBudget → ℕ → ControlWorkBudget × Bool
admit b now =
    if b.input_turn || (b.admitted == 64) || leb b.deadline now
    then (b, false)
    else (record b { admitted = b.admitted + 1 }, true)

-- The times at which a handler is run, of those at which the turn asks.
unfoldable pub turn : ControlWorkBudget → List ℕ → List ℕ
turn b [] = []
turn b (now ∷ times) =
    let (b', run) = admit b now in let rest = turn b' times in if run then now ∷ rest else rest

-- The first `n` times before the deadline.
unfoldable pub first_before : ℕ → ℕ → List ℕ → List ℕ
first_before n deadline [] = []
first_before zero deadline (t ∷ times) = []
first_before (suc n) deadline (t ∷ times) =
    let taken = first_before n deadline times in
    let passed = first_before (suc n) deadline times in if ltb t deadline then t ∷ taken else passed

first_before-zero : (deadline : ℕ) (times : List ℕ) → first_before 0 deadline times ≡ []
unfolding first_before
first_before-zero deadline [] = refl
first_before-zero deadline (t ∷ times) = refl

admit-refused :
    (b : ControlWorkBudget) (now : ℕ)
    → (b.input_turn || (b.admitted == 64) || leb b.deadline now) ≡ true
    → admit b now ≡ (b, false)
unfolding admit
admit-refused b now e = rw e

turn_lem :
    (times : List ℕ) (deadline admitted n : ℕ)
    → admitted + n ≡ 64
    → turn record { input_turn = false; deadline = deadline; admitted = admitted } times
      ≡ first_before n deadline times
unfolding turn first_before admit
turn_lem [] deadline admitted n full = refl
turn_lem (t ∷ times) deadline admitted zero full =
    let b : ControlWorkBudget = record {
      input_turn = false;
      deadline = deadline;
      admitted = admitted;
    } in
    let end : (admitted == 64) ≡ true = ground arith in
    rw (admit-refused b t (rw end))
      (turn_lem times deadline admitted zero full ∙ first_before-zero deadline times)
turn_lem (t ∷ times) deadline admitted (suc n) full = elim (Bool-cases (ltb t deadline)) [
  | inl before ↦
      let more : (admitted == 64) ≡ false = ground arith in
      let early : leb deadline t ≡ false = ground arith in
      rw (before, admit, more, early)
        (ap (◌∷◌ t) (turn_lem times deadline (admitted + 1) n (omega arith)))
  | inr after ↦
      let b : ControlWorkBudget = record {
        input_turn = false;
        deadline = deadline;
        admitted = admitted;
      } in
      let late : leb deadline t ≡ true = ground arith in
      rw (after, admit-refused b t (late_or (admitted == 64) late))
        (turn_lem times deadline admitted (suc n) full)
]
  where
    late_or : {b : Bool} (a : Bool) → b ≡ true → (a || b) ≡ true
    late_or {b} true e = refl
    late_or {b} false e = e

turn_input : (times : List ℕ) (b : ControlWorkBudget) → b.input_turn ≡ true → turn b times ≡ []
unfolding turn
turn_input [] b e = refl
turn_input (t ∷ times) b e =
    let refused : (b.input_turn || (b.admitted == 64) || leb b.deadline t) ≡ true =
      ap (λ x. x || (b.admitted == 64) || leb b.deadline t) e in
    rw (admit-refused b t refused) (turn_input times b e)

-- A turn that brought native input runs no handler; any other turn runs one at exactly the first 64
-- of the times that are before its deadline, 2 ms after its start.
pub turn-new :
    (now : ℕ) (times : List ℕ)
    → (turn (new true now) times ≡ [])
      × (turn (new false now) times ≡ first_before 64 (now + 2000000) times)
unfolding new
turn-new now times = (turn_input times _ refl, turn_lem times (now + 2000000) 0 64 refl)
