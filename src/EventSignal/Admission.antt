-- ===== src/EventSignal/Admission.antt =====
-- The loop of `send_admitted`, run on what each of its turns sees: whether the receiver has shut
-- down, the time since the call, the number of pending messages, and the time when it goes to wait.
use cocoa_way.Base.{
  ℕ, Bool, false, not, ◌&&◌, Option, none, some, List, [], ◌∷◌, ltb, leb, ◌==◌, if◌then◌else◌,
}
use cocoa_way.EventSignal.{max_pending_worker_messages}

pub record Turn : Type 0 where
  pub disconnected : Bool
  pub elapsed : ℕ
  pub messages : ℕ
  pub waits_at : ℕ

pub data Admission : Type 0 where
  admitted disconnected_error timeout_error still_waiting : Admission

-- `timeout.is_some_and(|timeout| !timeout.is_zero() && elapsed >= timeout)`
abbrev pub is_late : Option ℕ → ℕ → Bool
is_late none elapsed = false
is_late (some timeout) elapsed = not (timeout == 0) && leb timeout elapsed

-- `timeout.checked_sub(elapsed)` fails.
abbrev pub is_over : Option ℕ → ℕ → Bool
is_over none elapsed = false
is_over (some timeout) elapsed = ltb timeout elapsed

unfoldable pub send_admitted : Option ℕ → List Turn → Admission
send_admitted timeout [] = still_waiting
send_admitted timeout (t ∷ turns) =
    let rest = send_admitted timeout turns in
    if t.disconnected
    then disconnected_error
    else if is_late timeout t.elapsed
    then timeout_error
    else if ltb t.messages max_pending_worker_messages
    then admitted
    else if is_over timeout t.waits_at
    then timeout_error
    else rest
