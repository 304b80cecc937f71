-- ===== src/Clipboard/Images.antt =====
-- Images of the host's clipboard (src/clipboard_transfer.rs): the worker that converts them, with its
-- two channels of one place each.
use cocoa_way.Base.{
  ℤ, int_eq, ℕ, Bool, true, false, not, ◌&&◌, Option, none, some, List, if◌then◌else◌, ◌==◌, Result,
  ok, err, is_some,
}

pub record HostImageToken : Type 0 where
  pub generation : ℕ
  pub change_count : ℤ

unfoldable pub source_is_current : HostImageToken → ℕ → ℤ → Bool
source_is_current t generation live_count =
    t.generation == generation && int_eq t.change_count live_count

unfoldable pub is_current : HostImageToken → ℕ → ℤ → ℤ → Bool
is_current t generation cached_count live_count =
    source_is_current t generation live_count && int_eq t.change_count cached_count

abbrev pub token_eq : HostImageToken → HostImageToken → Bool
token_eq a b = a.generation == b.generation && int_eq a.change_count b.change_count

pub data ImageError : Type 0 where
  conversion_failed worker_panicked worker_exited : ImageError

-- An image is its bytes.
abbrev pub HostImageResult : Type 0
HostImageResult = Result (Option (List ℕ)) ImageError

pub record HostImageCompletion : Type 0 where
  pub token : HostImageToken
  pub result : HostImageResult

pub record HostImageJob : Type 0 where
  pub token : HostImageToken
  pub tiff : List ℕ

-- The channels with the worker at their other end: a job that is sent, the job that the worker is at, a
-- result that is sent, and whether the worker is alive.
pub record HostImageChannels : Type 0 where
  pub jobs : Option HostImageJob
  pub busy : Option HostImageJob
  pub results : Option HostImageCompletion
  pub alive : Bool

pub record HostImageWorker : Type 0 where
  pub pending : Option HostImageJob
  pub in_flight : Option HostImageToken
  pub worker : Option HostImageChannels

unfoldable pub replace_pending : HostImageWorker → Option HostImageJob → HostImageWorker
replace_pending w image = record w { pending = image }

unfoldable pub has_work : HostImageWorker → Bool
has_work w = if is_some w.pending then true else is_some w.in_flight

abbrev pub token_of : Option HostImageJob → Option HostImageToken
token_of none = none
token_of (some job) = some job.token

unfoldable pub pending_token : HostImageWorker → Option HostImageToken
pending_token w = token_of w.pending

pub data StartError : Type 0 where
  spawn_failed worker_unavailable : StartError

-- The channels of a worker that has just started.
abbrev pub new_channels : HostImageChannels
new_channels = record { jobs = none; busy = none; results = none; alive = true }

-- `jobs.try_send`: it fails when the worker has gone or a job waits.
unfoldable pub try_send : HostImageChannels → HostImageJob → Option HostImageChannels
try_send c job =
    if not c.alive
    then none
    else if is_some c.jobs
    then none
    else some (record c { jobs = some job })

unfoldable pub sent :
    Option HostImageChannels → HostImageJob → HostImageWorker × Result (Unit {0}) StartError
sent none job = (record { pending = none; in_flight = none; worker = none }, err worker_unavailable)
sent (some c) job = (record { pending = none; in_flight = some job.token; worker = some c }, ok tt)

unfoldable pub send_job :
    Option HostImageChannels → HostImageJob → Bool → HostImageWorker × Result (Unit {0}) StartError
send_job none job true = sent (try_send new_channels job) job
send_job none job false =
    (record { pending = none; in_flight = none; worker = none }, err spawn_failed)
send_job (some c) job spawns = sent (try_send c job) job

-- start_pending_with, by what is in flight and pending; `spawns` is whether a thread can be started.
unfoldable pub start_for :
    Option HostImageToken
    → Option HostImageJob
    → HostImageWorker
    → Bool
    → HostImageWorker × Result (Unit {0}) StartError
start_for (some token) pending w spawns = (w, ok tt)
start_for none none w spawns = (w, ok tt)
start_for none (some job) w spawns = send_job w.worker job spawns

unfoldable pub start_pending :
    HostImageWorker → Bool → HostImageWorker × Result (Unit {0}) StartError
start_pending w spawns = start_for w.in_flight w.pending w spawns

-- The channels after `results.try_recv`, with what it gives.
pub data Received : Type 0 where
  received : HostImageCompletion → HostImageChannels → Received
  nothing_yet disconnected : Received

unfoldable pub try_recv : Option HostImageCompletion → HostImageChannels → Received
try_recv (some completion) c = received completion (record c { results = none })
try_recv none c = if c.alive then nothing_yet else disconnected

unfoldable pub poll_received :
    Received → HostImageToken → HostImageWorker → HostImageWorker × Option HostImageCompletion
poll_received (received completion c) token w =
    (record { pending = w.pending; in_flight = none; worker = some c }, some completion)
poll_received nothing_yet token w = (w, none)
poll_received disconnected token w = (
  record { pending = w.pending; in_flight = none; worker = none },
  some (record { token = token; result = err worker_exited }),
)

unfoldable pub poll_for :
    Option HostImageToken
    → Option HostImageChannels
    → HostImageWorker
    → HostImageWorker × Option HostImageCompletion
poll_for none worker w = (w, none)
poll_for (some token) none w = (w, none)
poll_for (some token) (some c) w = poll_received (try_recv c.results c) token w

unfoldable pub poll : HostImageWorker → HostImageWorker × Option HostImageCompletion
poll w = poll_for w.in_flight w.worker w

-- The worker takes a job, and sends the result of its conversion, which waits for a place; it may end at
-- any time.
unfoldable pub take_job :
    Option HostImageJob → Option HostImageJob → HostImageChannels → HostImageChannels
take_job (some job) none c = if c.alive then record c { jobs = none; busy = some job } else c
take_job _ _ c = c

unfoldable pub worker_takes : HostImageChannels → HostImageChannels
worker_takes c = take_job c.jobs c.busy c

-- `none` is a conversion that panics.
unfoldable pub caught : Option HostImageResult → HostImageResult
caught none = err worker_panicked
caught (some result) = result

unfoldable pub send_result :
    Option HostImageJob
    → Option HostImageCompletion
    → HostImageChannels
    → Option HostImageResult
    → HostImageChannels
send_result (some job) none c outcome =
    if c.alive
    then record c {
      busy = none;
      results = some (record { token = job.token; result = caught outcome });
    }
    else c
send_result _ _ c outcome = c

unfoldable pub worker_sends : HostImageChannels → Option HostImageResult → HostImageChannels
worker_sends c outcome = send_result c.busy c.results c outcome

unfoldable pub worker_ends : HostImageChannels → HostImageChannels
worker_ends c = record c { busy = none; alive = false }
