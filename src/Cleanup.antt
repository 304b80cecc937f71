-- ===== src/Cleanup.antt =====
-- The queue of cleanup jobs (src/lifecycle.rs: CleanupQueue, QueueState). Profiles, display slots, jobs
-- and error texts are numbers: the queue only compares them. A receiver is the state of its channel,
-- which the worker or the reaper at the other end changes; an instant is a number of nanoseconds. The
-- clock and the outcome of starting a thread are read anew in each turn of a loop, so a call takes
-- them as functions of the turn.
pub mod Sums
pub mod Kept
pub mod Limits
pub mod Backoff
use cocoa_way.Base.{
  ℕ, zero, suc, ◌+◌, ◌-◌, ◌*◌, ◌^◌, min, Bool, true, false, not, ◌&&◌, ◌||◌, Option, none, some,
  List, [], ◌∷◌, ◌++◌, ltb, leb, ◌==◌, if◌then◌else◌, option_eq, length, get_elem?, set,
}

pub data Key : Type 0 where
  session : ℕ → ℕ → Key
  display : ℕ → Key
  abandoned : Key

pub data Outcome : Type 0 where
  done : Outcome
  failed : ℕ → Outcome

-- What `try_recv` finds.
pub data Channel (A : Type 0) : Type 0 where
  empty : Channel A
  sent : A → Channel A
  lost : Channel A

pub record Entry : Type 0 where
  pub key : Key
  pub job : ℕ
  pub failures : ℕ
  pub last_error : Option ℕ
  pub ready_at : ℕ

pub record Running : Type 0 where
  pub entry : Entry
  pub receiver : Channel Outcome

pub record Disposing : Type 0 where
  pub key : Key
  pub receiver : Channel (Unit {0})

-- `QueueState`; `freed` are the keys whose resources are gone, `told` the completions that were
-- called, in order.
pub record Queue : Type 0 where
  pub pending : List Entry
  pub running : List Running
  pub disposing : List Disposing
  pub freed : List Key
  pub told : List (ℕ × Outcome)

unfoldable pub new : Queue
new = record { pending = []; running = []; disposing = []; freed = []; told = [] }

-- The two texts of the queue itself.
abbrev pub worker_disconnected : ℕ
worker_disconnected = 0

abbrev pub could_not_start : ℕ
could_not_start = 1

-- One turn of `pump`: the instant, whether the thread starts, and the instant of a retry.
pub record Look : Type 0 where
  pub now : ℕ
  pub starts : Bool
  pub retries_at : ℕ

-- `Duration::from_millis(100).saturating_mul(1 << failures.saturating_sub(1).min(8))`
unfoldable pub backoff : ℕ → ℕ
backoff failures = 100000000 * 2 ^ min (failures - 1) 8

unfoldable pub retried : Entry → ℕ → ℕ → Entry
retried entry error now =
    let failures = min (entry.failures + 1) (2 ^ 32 - 1) in
    record entry { last_error = some error; failures = failures; ready_at = now + backoff failures }

unfoldable pub retry : Queue → Entry → ℕ → Bool → ℕ → Queue
unfolding retried
retry q entry error notify now = record q {
  pending = q.pending ++ retried entry error now ∷ [];
  told =
      if notify && not (option_eq entry.last_error (some error))
      then q.told ++ (entry.job, failed error) ∷ []
      else q.told;
}

-- The first entry that is ready, and the others in order.
unfoldable pub take_ready : ℕ → List Entry → Option (Entry × List Entry)
take_ready now [] = none
take_ready now (e ∷ es) =
    let later = take_ready now es in
    if leb e.ready_at now
    then some (e, es)
    else elim later [ none ↦ none | some (found, rest) ↦ some (found, e ∷ rest) ]

-- The loop of `pump` from turn `i` on; two turns fill the queue.
unfoldable pub pump_loop : ℕ → ℕ → (ℕ → Look) → Queue → Queue
pump_loop zero i looks q = q
pump_loop (suc turns) i looks q = elim (ltb (length q.running) 2) [
  | false ↦ q
  | true ↦ elim (take_ready (looks i).now q.pending) [
    | none ↦ q
    | some (entry, rest) ↦ elim (looks i).starts [
      | true ↦ pump_loop turns (suc i) looks (record q {
        pending = rest;
        running = q.running ++ record { entry = entry; receiver = empty } ∷ [];
      })
      | false ↦ retry (record q { pending = rest }) entry could_not_start false (looks i).retries_at
    ]
  ]
]

unfoldable pub pump : (ℕ → Look) → Queue → Queue
pump looks q = pump_loop 2 0 looks q

unfoldable pub enqueue : Queue → Key → ℕ → ℕ → (ℕ → Look) → Queue
enqueue q key job now looks = pump looks (record q {
  pending =
      q.pending
      ++ record { key = key; job = job; failures = 0; last_error = none; ready_at = now } ∷ [];
})

abbrev pub is_sent : {A : Type 0} → Channel A → Bool
is_sent (sent a) = true
is_sent _ = false

-- `retain` over the disposals: an acknowledged one goes, a lost one stays.
unfoldable pub kept_disposing : List Disposing → List Disposing
kept_disposing [] = []
kept_disposing (d ∷ ds) =
    let rest = kept_disposing ds in if is_sent d.receiver then rest else d ∷ rest

unfoldable pub acknowledged : List Disposing → List Key
acknowledged [] = []
acknowledged (d ∷ ds) =
    let rest = acknowledged ds in if is_sent d.receiver then d.key ∷ rest else rest

abbrev pub outcome_of : Channel Outcome → Option Outcome
outcome_of empty = none
outcome_of (sent outcome) = some outcome
outcome_of lost = some (failed worker_disconnected)

-- The match on the outcome of a finished job.
unfoldable pub settle : Queue → Entry → Outcome → Bool → ℕ → Queue
unfolding retry
settle q entry done true now = record q {
  told = q.told ++ (entry.job, done) ∷ [];
  disposing = q.disposing ++ record { key = entry.key; receiver = empty } ∷ [];
}
settle q entry done false now = record q { freed = q.freed ++ entry.key ∷ [] }
settle q entry (failed error) notify now = retry q entry error notify now

-- `swap_remove(index)`, as it leaves the entries from `index` on.
abbrev pub below_first {ℓ} : {A : Type ℓ} → A → List A → List A
below_first x [] = x ∷ []
below_first x (z ∷ zs) = z ∷ x ∷ zs

abbrev pub last_first {ℓ} : {A : Type ℓ} → List A → List A
last_first [] = []
last_first (x ∷ xs) = below_first x (last_first xs)

-- The loop of `poll` over the running jobs: `seen` before `index`, `todo` from it on.
unfoldable pub poll_loop : ℕ → Bool → (ℕ → ℕ) → List Running → List Running → Queue → Queue
poll_loop zero notify clock seen todo q = record q { running = seen ++ todo }
poll_loop (suc n) notify clock seen [] q = record q { running = seen }
poll_loop (suc n) notify clock seen (r ∷ todo) q = elim (outcome_of r.receiver) [
  | none ↦ poll_loop n notify clock (seen ++ r ∷ []) todo q
  | some outcome ↦
      poll_loop n notify clock seen (last_first todo) (settle q r.entry outcome notify (clock n))
]

unfoldable pub poll : Queue → Bool → (ℕ → ℕ) → (ℕ → Look) → Queue
poll q notify clock looks = pump looks (
    poll_loop (length q.running) notify clock [] q.running (record q {
      disposing = kept_disposing q.disposing;
      freed = q.freed ++ acknowledged q.disposing;
    }))

-- `session_busy` and `display_busy`: is there a key of a kind.
abbrev pub is_session : ℕ → Key → Bool
is_session id (session candidate slot) = candidate == id
is_session id _ = false

abbrev pub is_display : ℕ → Key → Bool
is_display slot (session id taken) = taken == slot
is_display slot (display taken) = taken == slot
is_display slot abandoned = false

abbrev pub any_key {ℓ} : {A : Type ℓ} → (A → Bool) → List A → Bool
any_key p [] = false
any_key p (x ∷ xs) = p x || any_key p xs

unfoldable pub busy : (Key → Bool) → Queue → Bool
busy p q =
    any_key (λ (e : Entry). p e.key) q.pending
    || any_key (λ (r : Running). p r.entry.key) q.running
    || any_key (λ (d : Disposing). p d.key) q.disposing

abbrev pub is_nil {ℓ} : {A : Type ℓ} → List A → Bool
is_nil [] = true
is_nil (x ∷ xs) = false

pub is_empty : Queue → Bool
is_empty q = is_nil q.pending && is_nil q.running && is_nil q.disposing

abbrev pub earliest : List Entry → Option ℕ
earliest [] = none
earliest (e ∷ es) = elim (earliest es) [ none ↦ some e.ready_at | some t ↦ some (min e.ready_at t) ]

unfoldable pub next_wakeup : Queue → Option ℕ
next_wakeup q = if ltb (length q.running) 2 then earliest q.pending else none
