-- ===== src/EventSignal/Bound.antt =====
-- The bound on pending messages: workers stop at 256, the event loop's thread does not.
use cocoa_way.Base.{
  ℕ, zero, suc, ◌+◌, ◌-◌, ◌≤◌, ◌≡◌, refl, subst, Bool, true, false, List, [], ◌∷◌, ltb, ltb→lt,
  arith, if◌then◌else◌,
}
use cocoa_way.EventSignal.{
  Loop, awake, cleared, asleep, timed, Signal, new, Outcome, and_then, next, disabled, panic,
  reserve_ui, reserve_worker, deliver, swap, message_received, report_refused, report_taken,
  receive, disconnect, close, drain, clear, look, wake_up, Op, step, run, op_reserve_ui,
  op_reserve_worker, op_deliver, op_swap, op_report_refused, op_report_taken, op_receive,
  op_disconnect, op_close, op_drain, op_clear, op_look, op_wake_up,
}

-- How many messages the event loop's own thread sends in a step, and in a history.
abbrev pub by_ui : Op → ℕ
by_ui op_reserve_ui = 1
by_ui _ = 0

abbrev pub ui_sends : List Op → ℕ
ui_sends [] = 0
ui_sends (op ∷ ops) = by_ui op + ui_sends ops

-- At most `k` messages are pending.
abbrev Below : ℕ → Outcome → Type 0
Below k (next s) = s.messages ≤ k
Below k disabled = Unit
Below k panic = Unit

Below-if :
    (k : ℕ) (b : Bool) (x y : Outcome)
    → (b ≡ true → Below k x)
    → (b ≡ false → Below k y)
    → Below k (if b then x else y)
Below-if k true x y f g = f refl
Below-if k false x y f g = g refl

module _ (s : Signal) (k : ℕ) (few : s.messages ≤ k) where
  loop-Below :
      (loop : Loop)
      → Below k (receive s loop s.queue)
        × Below k (drain s loop)
        × Below k (clear s loop)
        × Below k (look s loop)
        × Below k (wake_up s loop)
  unfolding receive drain clear look wake_up
  loop-Below awake = (received s.queue, few, few, tt, tt)
    where
      received : (queue : ℕ) → Below k (receive s awake queue)
      received zero = tt
      received (suc queue) = few
  loop-Below cleared = (tt, tt, tt, few, tt)
  loop-Below asleep = (tt, tt, tt, tt, Below-if k s.woken _ _ (λ _. few) (λ _. tt))
  loop-Below timed = (tt, tt, tt, tt, few)

  sender-Below : (reserved sent : ℕ) → Below k (deliver s reserved) × Below k (swap s sent)
  unfolding deliver swap
  sender-Below reserved sent = (delivered reserved, swapped sent)
    where
      delivered : (reserved : ℕ) → Below k (deliver s reserved)
      delivered zero = tt
      delivered (suc reserved) = Below-if k s.closed _ _ (λ _. few) (λ _. few)

      swapped : (sent : ℕ) → Below k (swap s sent)
      swapped zero = tt
      swapped (suc sent) = Below-if k s.notification _ _ (λ _. few) (λ _. few)

  message_received-Below :
      (messages : ℕ) (left : ℕ → Signal)
      → messages ≤ k
      → ((n : ℕ) → (left n).messages ≡ n)
      → Below k (message_received messages left)
  unfolding message_received
  message_received-Below zero left le same = tt
  message_received-Below (suc messages) left le same = omega (arith, same messages)

  report-Below :
      (refused taken : ℕ) → Below k (report_refused s refused) × Below k (report_taken s taken)
  unfolding report_refused report_taken
  report-Below refused taken = (of_refused refused, of_taken taken)
    where
      of_refused : (refused : ℕ) → Below k (report_refused s refused)
      of_refused zero = tt
      of_refused (suc refused) = message_received-Below s.messages _ few (λ n. refl)

      of_taken : (taken : ℕ) → Below k (report_taken s taken)
      of_taken zero = tt
      of_taken (suc taken) = message_received-Below s.messages _ few (λ n. refl)

  other-Below : (op : Op) → by_ui op ≡ 0 → 256 ≤ k → Below k (step s op)
  unfolding step reserve_worker disconnect close
  other-Below op_reserve_ui e room = absurd (omega arith)
  other-Below op_reserve_worker e room =
      Below-if k s.disconnected _ _ (λ _. few)
        (λ _.
          Below-if k (ltb s.messages 256) _ _ (λ below. omega (arith, ltb→lt _ _ below)) (λ _. few))
  other-Below op_deliver e room = (sender-Below s.reserved 0).0
  other-Below op_swap e room = (sender-Below 0 s.sent).1
  other-Below op_report_refused e room = (report-Below s.refused 0).0
  other-Below op_report_taken e room = (report-Below 0 s.taken).1
  other-Below op_receive e room = (loop-Below s.loop).0
  other-Below op_disconnect e room = few
  other-Below op_close e room = Below-if k s.disconnected _ _ (λ _. few) (λ _. tt)
  other-Below op_drain e room = (loop-Below s.loop).1
  other-Below op_clear e room = (loop-Below s.loop).2
  other-Below op_look e room = (loop-Below s.loop).3
  other-Below op_wake_up e room = (loop-Below s.loop).4

step-Below :
    (s : Signal) (k : ℕ) (op : Op) → by_ui op + s.messages ≤ k → 256 ≤ k → Below k (step s op)
unfolding step reserve_ui
step-Below s k op_reserve_ui few room = omega arith
step-Below s k op_reserve_worker few room =
    other-Below s k (omega arith) op_reserve_worker refl room
step-Below s k op_deliver few room = other-Below s k (omega arith) op_deliver refl room
step-Below s k op_swap few room = other-Below s k (omega arith) op_swap refl room
step-Below s k op_report_refused few room =
    other-Below s k (omega arith) op_report_refused refl room
step-Below s k op_report_taken few room = other-Below s k (omega arith) op_report_taken refl room
step-Below s k op_receive few room = other-Below s k (omega arith) op_receive refl room
step-Below s k op_disconnect few room = other-Below s k (omega arith) op_disconnect refl room
step-Below s k op_close few room = other-Below s k (omega arith) op_close refl room
step-Below s k op_drain few room = other-Below s k (omega arith) op_drain refl room
step-Below s k op_clear few room = other-Below s k (omega arith) op_clear refl room
step-Below s k op_look few room = other-Below s k (omega arith) op_look refl room
step-Below s k op_wake_up few room = other-Below s k (omega arith) op_wake_up refl room

and_then-Below :
    (j k : ℕ) (out : Outcome) (rest : Signal → Outcome)
    → Below j out
    → ((s : Signal) → s.messages ≤ j → Below k (rest s))
    → Below k (and_then out rest)
and_then-Below j k (next s) rest few keep = keep s few
and_then-Below j k disabled rest few keep = tt
and_then-Below j k panic rest few keep = tt

run-Below :
    (ops : List Op) (s : Signal) (k : ℕ)
    → ui_sends ops + s.messages ≤ k
    → ui_sends ops + 256 ≤ k
    → Below k (run s ops)
unfolding run
run-Below [] s k few room = omega arith
run-Below (op ∷ ops) s k few room =
    and_then-Below (k - ui_sends ops) k (step s op) (λ s'. run s' ops)
      (step-Below s (k - ui_sends ops) op (omega arith) (omega arith))
      (λ s' few'. run-Below ops s' k (omega arith) (omega arith))

-- In every state that the threads can reach, at most 256 messages are pending beside those that the
-- event loop's own thread has sent: workers alone never have more than 256 in the queue.
pub run-new-bound :
    (ops : List Op) (s : Signal) → run new ops ≡ next s → s.messages ≤ ui_sends ops + 256
unfolding new
run-new-bound ops s e =
    subst (Below (ui_sends ops + 256)) e
      (run-Below ops new (ui_sends ops + 256) (omega arith) (omega arith))
