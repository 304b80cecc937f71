-- ===== src/EventSignal/Senders.antt =====
-- The senders' steps, and the reports of messages that are received or refused.
use cocoa_way.Base.{ℕ, zero, suc, ◌+◌, ◌≡◌, refl, ltb, arith}
use cocoa_way.EventSignal.{
  Signal, reserve_worker, deliver, swap, message_received, report_refused, report_taken,
}
use cocoa_way.EventSignal.Sound.{IsSound, Sound, Sound-if, notified-covers, or_true, covers-le}

module _ (s : Signal) (inv : IsSound s) where
  -- One more message is counted and reserved.
  pub reserved-IsSound : IsSound (record s { messages = s.messages + 1; reserved = s.reserved + 1 })
  reserved-IsSound = record {
    counted = omega (arith, inv.counted);
    notified = inv.notified;
    covered = inv.covered;
  }

  pub reserve_worker-Sound : Sound (reserve_worker s)
  unfolding reserve_worker
  reserve_worker-Sound =
      Sound-if s.disconnected _ _ (λ _. inv)
        (λ _. Sound-if (ltb s.messages 256) _ _ (λ _. reserved-IsSound) (λ _. inv))

  pub deliver-Sound : (reserved : ℕ) → s.reserved ≡ reserved → Sound (deliver s reserved)
  unfolding deliver
  deliver-Sound zero e = tt
  deliver-Sound (suc reserved) e =
      Sound-if s.closed _ _
        (λ _. record {
          counted = omega (arith, inv.counted);
          notified = inv.notified;
          covered = inv.covered;
        })
        (λ _. record {
          counted = omega (arith, inv.counted);
          notified = inv.notified;
          covered = covers-le _ s.queue s.sent _ _ (omega arith) inv.covered;
        })

  pub swap-Sound : (sent : ℕ) → s.sent ≡ sent → Sound (swap s sent)
  unfolding swap
  swap-Sound zero e = tt
  swap-Sound (suc sent) e =
      Sound-if s.notification _ _
        (λ set. record {
          counted = inv.counted;
          notified = inv.notified;
          covered = notified-covers s.notification s.loop s.woken _ set inv.notified;
        })
        (λ _. record { counted = inv.counted; notified = refl; covered = or_true _ _ })

  -- A message that is refused or taken is counted, so there is one to report.
  report_refused-Sound :
      (refused messages : ℕ)
      → s.refused ≡ suc refused
      → s.messages ≡ messages
      → Sound (message_received messages (λ n. record s { refused = refused; messages = n }))
  unfolding message_received
  report_refused-Sound refused zero e f = absurd (omega (arith, inv.counted))
  report_refused-Sound refused (suc messages) e f = record {
    counted = omega (arith, inv.counted);
    notified = inv.notified;
    covered = inv.covered;
  }

  report_taken-Sound :
      (taken messages : ℕ)
      → s.taken ≡ suc taken
      → s.messages ≡ messages
      → Sound (message_received messages (λ n. record s { taken = taken; messages = n }))
  unfolding message_received
  report_taken-Sound taken zero e f = absurd (omega (arith, inv.counted))
  report_taken-Sound taken (suc messages) e f = record {
    counted = omega (arith, inv.counted);
    notified = inv.notified;
    covered = inv.covered;
  }

  pub refused-Sound : (refused : ℕ) → s.refused ≡ refused → Sound (report_refused s refused)
  unfolding report_refused
  refused-Sound zero e = tt
  refused-Sound (suc refused) e = report_refused-Sound refused s.messages e refl

  pub taken-Sound : (taken : ℕ) → s.taken ≡ taken → Sound (report_taken s taken)
  unfolding report_taken
  taken-Sound zero e = tt
  taken-Sound (suc taken) e = report_taken-Sound taken s.messages e refl
