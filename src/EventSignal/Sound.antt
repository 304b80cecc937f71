-- ===== src/EventSignal/Sound.antt =====
-- What holds of the counter, the notification and the loop in every state.
use cocoa_way.Base.{ℕ, ◌+◌, ◌≤◌, ◌≡◌, refl, Bool, true, false, not, ◌||◌, leb, arith, if◌then◌else◌}
use cocoa_way.EventSignal.{
  Loop, awake, cleared, asleep, timed, Signal, Outcome, next, disabled, panic,
}

abbrev pub is_awake : Loop → Bool
is_awake awake = true
is_awake _ = false

abbrev pub is_asleep : Loop → Bool
is_asleep asleep = true
is_asleep _ = false

-- The counter counts what is somewhere; a notification has a wake or a turn to come; and a loop that
-- sleeps with no wake to come has no more messages than senders that are yet to swap.
pub record IsSound (s : Signal) : Type 0 where
  pub counted : s.messages ≡ s.reserved + s.refused + s.queue + s.taken + s.dropped
  pub notified : (not s.notification || s.woken || is_awake s.loop) ≡ true
  pub covered : (not (is_asleep s.loop) || s.woken || leb s.queue s.sent) ≡ true

-- An outcome that is sound, or a step that is not possible; no panic.
abbrev pub Sound : Outcome → Type 0
Sound (next s) = IsSound s
Sound disabled = Unit
Sound panic = ⊥

pub Sound-if :
    (b : Bool) (x y : Outcome)
    → (b ≡ true → Sound x)
    → (b ≡ false → Sound y)
    → Sound (if b then x else y)
Sound-if true x y f g = f refl
Sound-if false x y f g = g refl

-- A notification means that a sleeping loop has a wake to come.
pub notified-covers :
    (n : Bool) (loop : Loop) (w q : Bool)
    → n ≡ true
    → (not n || w || is_awake loop) ≡ true
    → (not (is_asleep loop) || w || q) ≡ true
notified-covers false loop w q e f = cc
notified-covers true awake w q e f = refl
notified-covers true cleared w q e f = refl
notified-covers true timed w q e f = refl
notified-covers true asleep true q e f = refl
notified-covers true asleep false q e f = cc

pub or_end : (a : Bool) → (a || true) ≡ true
or_end true = refl
or_end false = refl

pub or_true : (a b : Bool) → (a || true || b) ≡ true
or_true true b = refl
or_true false b = refl

pub covers-le :
    (a : Bool) (p q p' q' : ℕ) → p' + q ≤ p + q' → (a || leb p q) ≡ true → (a || leb p' q') ≡ true
covers-le true p q p' q' h e = refl
covers-le false p q p' q' h e = ground arith
