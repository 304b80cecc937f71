-- ===== src/EventSignal/Wakes.antt =====
-- The loop's steps, and that no wake is lost.
use cocoa_way.Base.{
  ℕ, zero, suc, ◌≤◌, ◌≡◌, subst, sym, le→leb, leb→le, refl, Bool, true, false, not, ◌||◌, List, [],
  ◌∷◌, leb, ◌==◌, arith, if◌then◌else◌,
}
use cocoa_way.EventSignal.{
  Loop, awake, cleared, asleep, timed, Signal, new, Outcome, and_then, next, disabled, panic,
  reserve_ui, receive, disconnect, close, drain, clear, look, wake_up, Op, step, run, op_reserve_ui,
  op_reserve_worker, op_deliver, op_swap, op_report_refused, op_report_taken, op_receive,
  op_disconnect, op_close, op_drain, op_clear, op_look, op_wake_up,
}
use cocoa_way.EventSignal.Sound.{is_awake, is_asleep, IsSound, Sound, Sound-if, or_end, covers-le}
use cocoa_way.EventSignal.Senders.{
  reserved-IsSound, reserve_worker-Sound, deliver-Sound, swap-Sound, refused-Sound, taken-Sound,
}

module _ (s : Signal) (inv : IsSound s) where
  receive-Sound :
      (queue : ℕ) (loop : Loop) → s.queue ≡ queue → s.loop ≡ loop → Sound (receive s loop queue)
  unfolding receive
  receive-Sound (suc queue) awake e f = record {
    counted = omega (arith, inv.counted);
    notified = inv.notified;
    covered = covers-le _ s.queue s.sent _ _ (omega arith) inv.covered;
  }
  receive-Sound zero awake e f = tt
  receive-Sound zero cleared e f = tt
  receive-Sound (suc queue) cleared e f = tt
  receive-Sound zero asleep e f = tt
  receive-Sound (suc queue) asleep e f = tt
  receive-Sound zero timed e f = tt
  receive-Sound (suc queue) timed e f = tt

  close-Sound : Sound (close s)
  unfolding close
  close-Sound =
      Sound-if s.disconnected _ _
        (λ _. record {
          counted = omega (arith, inv.counted);
          notified = inv.notified;
          covered = covers-le _ s.queue s.sent _ _ (omega arith) inv.covered;
        })
        (λ _. tt)

  drain-Sound : (loop : Loop) → s.loop ≡ loop → Sound (drain s loop)
  unfolding drain
  drain-Sound awake e = record {
    counted = inv.counted;
    notified = subst (λ l. (not s.notification || false || is_awake l) ≡ true) (sym e) (or_end _);
    covered = subst (λ l. (not (is_asleep l) || false || leb s.queue s.sent) ≡ true) (sym e) refl;
  }
  drain-Sound cleared e = tt
  drain-Sound asleep e = tt
  drain-Sound timed e = tt

  clear-Sound : (loop : Loop) → s.loop ≡ loop → Sound (clear s loop)
  unfolding clear
  clear-Sound awake e = record { counted = inv.counted; notified = refl; covered = refl }
  clear-Sound cleared e = tt
  clear-Sound asleep e = tt
  clear-Sound timed e = tt

  looked-IsSound :
      (none_left : Bool)
      → (s.messages == 0) ≡ none_left
      → s.loop ≡ cleared
      → IsSound (record s { loop = if none_left then asleep else timed })
  looked-IsSound true empty e = record {
    counted = inv.counted;
    notified = subst (λ l. (not s.notification || s.woken || is_awake l) ≡ true) e inv.notified;
    covered =
        let drained : s.messages ≡ 0 = ground arith in
        let fits : leb s.queue s.sent ≡ true = le→leb _ _ (omega (arith, inv.counted, drained)) in
        rw fits (or_end _);
  }
  looked-IsSound false left e = record {
    counted = inv.counted;
    notified = subst (λ l. (not s.notification || s.woken || is_awake l) ≡ true) e inv.notified;
    covered = refl;
  }

  look-Sound : (loop : Loop) → s.loop ≡ loop → Sound (look s loop)
  unfolding look
  look-Sound cleared e = looked-IsSound (s.messages == 0) refl e
  look-Sound awake e = tt
  look-Sound asleep e = tt
  look-Sound timed e = tt

  wake_up-Sound : (loop : Loop) → s.loop ≡ loop → Sound (wake_up s loop)
  unfolding wake_up
  wake_up-Sound awake e = tt
  wake_up-Sound cleared e = tt
  wake_up-Sound asleep e =
      Sound-if s.woken _ _
        (λ _. record { counted = inv.counted; notified = or_end _; covered = refl }) (λ _. tt)
  wake_up-Sound timed e = record { counted = inv.counted; notified = or_end _; covered = refl }

  -- Every step keeps the signal sound, and `message_received` does not panic.
  step-Sound : (op : Op) → Sound (step s op)
  unfolding step reserve_ui disconnect
  step-Sound op_reserve_ui = reserved-IsSound s inv
  step-Sound op_reserve_worker = reserve_worker-Sound s inv
  step-Sound op_deliver = deliver-Sound s inv s.reserved refl
  step-Sound op_swap = swap-Sound s inv s.sent refl
  step-Sound op_report_refused = refused-Sound s inv s.refused refl
  step-Sound op_report_taken = taken-Sound s inv s.taken refl
  step-Sound op_receive = receive-Sound s.queue s.loop refl refl
  step-Sound op_disconnect = record {
    counted = inv.counted;
    notified = inv.notified;
    covered = inv.covered;
  }
  step-Sound op_close = close-Sound
  step-Sound op_drain = drain-Sound s.loop refl
  step-Sound op_clear = clear-Sound s.loop refl
  step-Sound op_look = look-Sound s.loop refl
  step-Sound op_wake_up = wake_up-Sound s.loop refl

and_then-Sound :
    (out : Outcome) (rest : Signal → Outcome)
    → Sound out
    → ((s : Signal) → IsSound s → Sound (rest s))
    → Sound (and_then out rest)
and_then-Sound (next s) rest inv keep = keep s inv
and_then-Sound disabled rest inv keep = tt
and_then-Sound panic rest inv keep = inv

run-Sound : (ops : List Op) (s : Signal) → IsSound s → Sound (run s ops)
unfolding run
run-Sound [] s inv = inv
run-Sound (op ∷ ops) s inv =
    and_then-Sound (step s op) (λ s'. run s' ops) (step-Sound s inv op) (run-Sound ops)

-- Whatever the senders, the loop and the receiver's end do, in any order, `message_received` never
-- panics, the counter is the number of messages that are reserved, queued, unreported or dropped, and
-- a set notification or an unseen message has a wake or a turn to come.
pub run-new-Sound : (ops : List Op) → Sound (run new ops)
unfolding new
run-new-Sound ops = run-Sound ops new record { counted = refl; notified = refl; covered = refl }

-- No wake is lost: when the loop sleeps and no proxy event is on its way, then every queued message
-- has a sender that is yet to swap the notification, and it will find it unset and send the event.
pub run-new-wakes :
    (ops : List Op) (s : Signal)
    → run new ops ≡ next s
    → s.loop ≡ asleep
    → s.woken ≡ false
    → (s.queue ≤ s.sent) × (s.notification ≡ false)
run-new-wakes ops s e sleeps quiet =
    let inv : IsSound s = subst Sound e (run-new-Sound ops) in
    (
      leb→le _ _ (few s.loop s.woken (leb s.queue s.sent) sleeps quiet inv.covered),
      unset s.notification s.loop s.woken sleeps quiet inv.notified,
    )
  where
    few :
        (l : Loop) (w q : Bool)
        → l ≡ asleep
        → w ≡ false
        → (not (is_asleep l) || w || q) ≡ true
        → q ≡ true
    few l w true a b c = refl
    few asleep false false a b c = c
    few l true false a b c = cc
    few awake false false a b c = cc
    few cleared false false a b c = cc
    few timed false false a b c = cc

    unset :
        (n : Bool) (l : Loop) (w : Bool)
        → l ≡ asleep
        → w ≡ false
        → (not n || w || is_awake l) ≡ true
        → n ≡ false
    unset false l w a b c = refl
    unset true asleep false a b c = cc
    unset true l true a b c = cc
    unset true awake false a b c = cc
    unset true cleared false a b c = cc
    unset true timed false a b c = cc
