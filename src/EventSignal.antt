-- ===== src/EventSignal.antt =====
-- The sender that wakes the event loop (src/event_loop_signal.rs: PendingWake, Sender, Receiver), as
-- the atomic steps of its threads in any order. The channel and the loop's proxy events belong to the
-- libraries: the channel is a number of queued messages that a closed receiver refuses and drops, and
-- a proxy event that is sent stays until the loop wakes up or drains it.
pub mod Sound
pub mod Senders
pub mod Wakes
pub mod Bound
pub mod Admission
use cocoa_way.Base.{
  ℕ, zero, suc, ◌+◌, ◌-◌, Bool, true, false, Option, none, some, List, [], ◌∷◌, ltb, ◌==◌,
  if◌then◌else◌,
}

abbrev pub max_pending_worker_messages : ℕ
max_pending_worker_messages = 256

-- The loop: in a turn, between the two loads of `finish_turn`, waiting for an event, or waiting with
-- a deadline.
pub data Loop : Type 0 where
  awake cleared asleep timed : Loop

-- `messages`, `notification` and `disconnected` are the fields of `PendingWake`. The rest is where
-- the threads are: `reserved` have counted a message but not sent it, `sent` have sent one but not
-- swapped the notification, `refused` got it back from a closed channel, `taken` are received but
-- not reported by `message_received`, and `dropped` went with the receiver.
pub record Signal : Type 0 where
  pub messages : ℕ
  pub notification : Bool
  pub disconnected : Bool
  pub closed : Bool
  pub reserved : ℕ
  pub sent : ℕ
  pub refused : ℕ
  pub queue : ℕ
  pub taken : ℕ
  pub dropped : ℕ
  pub woken : Bool
  pub loop : Loop

unfoldable pub new : Signal
new = record {
  messages = 0;
  notification = false;
  disconnected = false;
  closed = false;
  reserved = 0;
  sent = 0;
  refused = 0;
  queue = 0;
  taken = 0;
  dropped = 0;
  woken = false;
  loop = awake;
}

-- A step, a step that is not possible here, or the panic of `message_received`.
pub data Outcome : Type 0 where
  next : Signal → Outcome
  disabled : Outcome
  panic : Outcome

-- `fetch_add` of a send on the event loop's thread.
unfoldable pub reserve_ui : Signal → Outcome
reserve_ui s = next (record s { messages = s.messages + 1; reserved = s.reserved + 1 })

-- One attempt of `send_admitted`: it returns an error, or waits, without a change.
unfoldable pub reserve_worker : Signal → Outcome
reserve_worker s =
    if s.disconnected
    then next s
    else if ltb s.messages max_pending_worker_messages
    then next (record s { messages = s.messages + 1; reserved = s.reserved + 1 })
    else next s

-- The channel's send in `send_reserved`.
unfoldable pub deliver : Signal → ℕ → Outcome
deliver s zero = disabled
deliver s (suc reserved) =
    if s.closed
    then next (record s { reserved = reserved; refused = s.refused + 1 })
    else next (record s { reserved = reserved; queue = s.queue + 1; sent = s.sent + 1 })

-- The swap in `send_reserved`, with the wake.
unfoldable pub swap : Signal → ℕ → Outcome
swap s zero = disabled
swap s (suc sent) =
    if s.notification
    then next (record s { sent = sent })
    else next (record s { sent = sent; notification = true; woken = true })

-- `message_received`: the checked decrement, with what becomes of the caller.
unfoldable pub message_received : ℕ → (ℕ → Signal) → Outcome
message_received zero left = panic
message_received (suc messages) left = next (left messages)

unfoldable pub report_refused : Signal → ℕ → Outcome
unfolding message_received
report_refused s zero = disabled
report_refused s (suc refused) =
    message_received s.messages (λ n. record s { refused = refused; messages = n })

unfoldable pub report_taken : Signal → ℕ → Outcome
unfolding message_received
report_taken s zero = disabled
report_taken s (suc taken) =
    message_received s.messages (λ n. record s { taken = taken; messages = n })

-- The loop takes a message in a turn.
unfoldable pub receive : Signal → Loop → ℕ → Outcome
receive s awake (suc queue) = next (record s { queue = queue; taken = s.taken + 1 })
receive s _ _ = disabled

-- `Receiver::drop`, then the drop of the channel's receiver with what is queued.
unfoldable pub disconnect : Signal → Outcome
disconnect s = next (record s { disconnected = true })

unfoldable pub close : Signal → Outcome
close s =
    if s.disconnected
    then next (record s { closed = true; queue = 0; dropped = s.dropped + s.queue })
    else disabled

-- Winit drains the proxy events of a turn.
unfoldable pub drain : Signal → Loop → Outcome
drain s awake = next (record s { woken = false })
drain s _ = disabled

-- `finish_turn`: the store, then the load.
unfoldable pub clear : Signal → Loop → Outcome
clear s awake = next (record s { notification = false; loop = cleared })
clear s _ = disabled

unfoldable pub look : Signal → Loop → Outcome
look s cleared = next (record s { loop = if s.messages == 0 then asleep else timed })
look s _ = disabled

-- The loop wakes up by an event, or by its deadline.
unfoldable pub wake_up : Signal → Loop → Outcome
wake_up s asleep = if s.woken then next (record s { woken = false; loop = awake }) else disabled
wake_up s timed = next (record s { woken = false; loop = awake })
wake_up s _ = disabled

pub data Op : Type 0 where
  op_reserve_ui op_reserve_worker op_deliver op_swap op_report_refused op_report_taken : Op
  op_receive op_disconnect op_close op_drain op_clear op_look op_wake_up : Op

unfoldable pub step : Signal → Op → Outcome
step s op_reserve_ui = reserve_ui s
step s op_reserve_worker = reserve_worker s
step s op_deliver = deliver s s.reserved
step s op_swap = swap s s.sent
step s op_report_refused = report_refused s s.refused
step s op_report_taken = report_taken s s.taken
step s op_receive = receive s s.loop s.queue
step s op_disconnect = disconnect s
step s op_close = close s
step s op_drain = drain s s.loop
step s op_clear = clear s s.loop
step s op_look = look s s.loop
step s op_wake_up = wake_up s s.loop

abbrev pub and_then : Outcome → (Signal → Outcome) → Outcome
and_then (next s) rest = rest s
and_then disabled rest = disabled
and_then panic rest = panic

unfoldable pub run : Signal → List Op → Outcome
run s [] = next s
run s (op ∷ ops) = and_then (step s op) (λ s'. run s' ops)
