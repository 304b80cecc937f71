-- ===== src/Examples/Signals.antt =====
-- The event loop's sender at work (src/event_loop_signal.rs).
use cocoa_way.Base.{◌+◌, ◌≤◌, ◌≡◌, refl, false, List, [], ◌∷◌}
use cocoa_way.EventSignal.{
  Signal, asleep, new, next, Op, run, op_reserve_ui, op_reserve_worker, op_deliver, op_swap,
  op_report_taken, op_receive, op_clear, op_look, op_wake_up, step, reserve_ui, reserve_worker,
  deliver, swap, report_taken, message_received, receive, clear, look, wake_up,
}
use cocoa_way.EventSignal.Sound.{Sound}
use cocoa_way.EventSignal.Wakes.{run-new-Sound, run-new-wakes}
use cocoa_way.EventSignal.Bound.{ui_sends, run-new-bound}

-- A message is handled, then the loop sleeps; a worker has queued the next one and not swapped yet.
abbrev ops : List Op
ops =
    op_reserve_ui ∷ op_deliver ∷ op_swap ∷ op_receive ∷ op_report_taken ∷ op_clear ∷ op_look
    ∷ op_wake_up ∷ op_clear ∷ op_look ∷ op_reserve_worker ∷ op_deliver ∷ []

abbrev quiet : Signal
quiet = record {
  messages = 1;
  notification = false;
  disconnected = false;
  closed = false;
  reserved = 0;
  sent = 1;
  refused = 0;
  queue = 1;
  taken = 0;
  dropped = 0;
  woken = false;
  loop = asleep;
}

run-quiet : run new ops ≡ next quiet
unfolding run new step reserve_ui reserve_worker deliver swap report_taken message_received receive
    clear look wake_up
run-quiet = refl

run-new-Sound_example : Sound (run new ops)
run-new-Sound_example = run-new-Sound ops

run-new-wakes_example : (1 ≤ 1) × (false ≡ false)
run-new-wakes_example = run-new-wakes ops quiet run-quiet refl refl

run-new-bound_example : 1 ≤ ui_sends ops + 256
run-new-bound_example = run-new-bound ops quiet run-quiet
