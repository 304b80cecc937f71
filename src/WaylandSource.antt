-- ===== src/WaylandSource.antt =====
-- The readiness of Wayland sources (src/wayland_source.rs): the status that the thread shares with the
-- event loop, and the clients whose output is watched. A client and a message are numbers. The sockets
-- themselves, of the display, the listener and the clients, are the system's.
pub mod Watch
pub mod Steps
pub mod Interest
pub mod Watching
pub mod Owed
pub mod Heeded
pub mod Readiness
pub mod Failures
pub mod Reporting
use cocoa_way.Base.{
  ℕ, Bool, true, false, not, ◌&&◌, ◌||◌, Option, none, some, List, [], ◌∷◌, length, if◌then◌else◌,
  ◌==◌, set_contains,
}

-- A map of the clients with their sockets is the list of its keys; a set is a list.
pub record OutputInterest : Type 0 where
  pub clients : List ℕ
  pub blocked : List ℕ

pub record FailureState : Type 0 where
  pub recorded : Bool
  pub message : Option ℕ

pub record SourceStatus : Type 0 where
  pub stopping : Bool
  pub failure : FailureState

unfoldable pub record_failure : SourceStatus → ℕ → SourceStatus × Bool
record_failure status message =
    if status.stopping || status.failure.recorded
    then (status, false)
    else (record status { failure = record { recorded = true; message = some message } }, true)

unfoldable pub take_failure : SourceStatus → SourceStatus × Option ℕ
take_failure status = (
  record status { failure = record { recorded = status.failure.recorded; message = none } },
  status.failure.message,
)

-- What an operation of the system answers: `Interrupted` is the error that is tried again.
pub data Answer {ℓ} (T : Type ℓ) : Type ℓ where
  interrupted : Answer T
  failed : ℕ → Answer T
  answered : T → Answer T

-- A turn of the loop of `retry_interrupted`: it gives up, goes round or returns.
pub data Retry {ℓ} (T : Type ℓ) : Type ℓ where
  given_up again : Retry T
  returned : Answer T → Retry T

unfoldable pub retry_turn {ℓ} : {T : Type ℓ} → Bool → Answer T → Retry T
retry_turn true answer = given_up
retry_turn false interrupted = again
retry_turn false (failed message) = returned (failed message)
retry_turn false (answered value) = returned (answered value)

unfoldable pub keep : (ℕ → Bool) → List ℕ → List ℕ
keep test [] = []
keep test (x ∷ xs) = let rest = keep test xs in if test x then x ∷ rest else rest

unfoldable pub all_in : List ℕ → List ℕ → Bool
all_in [] ys = true
all_in (x ∷ xs) ys = set_contains x ys && all_in xs ys

-- `==` of two sets.
unfoldable pub set_eq : List ℕ → List ℕ → Bool
set_eq xs ys = all_in xs ys && all_in ys xs

-- The clients that the event loop does not name, but those that the backend still has.
unfoldable pub find_removed : List ℕ → OutputInterest → List ℕ
find_removed active output = keep (λ id. not (set_contains id active)) output.clients

unfoldable pub drop_registered : List ℕ → List ℕ → List ℕ
drop_registered registered removed = keep (λ id. not (set_contains id registered)) removed

unfoldable pub active_only : List ℕ → List ℕ → List ℕ
active_only active blocked = keep (λ id. set_contains id active) blocked

-- The part of `set_output_interest` under the lock; whether anything changed is the second part.
unfoldable pub apply_interest : List ℕ → List ℕ → OutputInterest → OutputInterest × Bool
apply_interest removed blocked output =
    let clients = keep (λ id. not (set_contains id removed)) output.clients in
    (
      record { clients = clients; blocked = blocked },
      not (length output.clients == length clients) || not (set_eq output.blocked blocked),
    )

-- The clients that are blocked and have a socket.
unfoldable pub writable_of : OutputInterest → List ℕ
writable_of output = keep (λ id. set_contains id output.clients) output.blocked
