-- ===== src/Sessions/Draining.antt =====
-- The results of workers that come in after the end (src/shutdown.rs), and the operations that they
-- belong to (src/main.rs, current_operation). The maps are lists of their entries.
use cocoa_way.Base.{
  ℕ, zero, suc, Bool, false, ◌&&◌, Option, none, some, List, [], ◌∷◌, ◌++◌, if◌then◌else◌, ◌==◌,
}
use cocoa_way.Sessions.{
  DisplayWorker, PendingProfileOperation, LaunchReport, abandoned_key, remainders, Job,
  queue_display_cleanup, queue_launch_cleanup,
}

module _ {ℓ} {V : Type ℓ} where
  -- `HashMap::get` and `HashMap::remove`.
  unfoldable pub get_entry : ℕ → List (ℕ × V) → Option V
  get_entry id [] = none
  get_entry id ((k, v) ∷ entries) = if k == id then some v else get_entry id entries

  unfoldable pub remove_entry : ℕ → List (ℕ × V) → List (ℕ × V)
  remove_entry id [] = []
  remove_entry id ((k, v) ∷ entries) =
      let rest = remove_entry id entries in if k == id then entries else (k, v) ∷ rest

pub data Message : Type 0 where
  dedicated_display_started : ℕ → ℕ → ℕ → DisplayWorker → Message
  managed_display_started : ℕ → DisplayWorker → Message
  launch_finished : ℕ → ℕ → ℕ → Option LaunchReport → Message
  other_message : Message

pub record Draining : Type 0 where
  pub operations : List (ℕ × PendingProfileOperation)
  pub workers : List (ℕ × DisplayWorker)
  pub jobs : List Job

unfoldable pub is_current : Option PendingProfileOperation → ℕ → ℕ → Bool
is_current none id generation = false
is_current (some operation) id generation =
    operation.session_id == id && operation.generation == generation

unfoldable pub current_operation : List (ℕ × PendingProfileOperation) → ℕ → ℕ → Bool
current_operation pending id generation = is_current (get_entry id pending) id generation

unfoldable pub take_attempt :
    List (ℕ × PendingProfileOperation)
    → ℕ
    → ℕ
    → List (ℕ × PendingProfileOperation) × Option PendingProfileOperation
take_attempt operations id generation =
    if current_operation operations id generation
    then (remove_entry id operations, get_entry id operations)
    else (operations, none)

-- `operation.as_ref().and_then(|_| workers.remove(&profile_id))`.
unfoldable pub take_worker :
    Option PendingProfileOperation
    → ℕ
    → List (ℕ × DisplayWorker)
    → List (ℕ × DisplayWorker) × Option DisplayWorker
take_worker none id workers = (workers, none)
take_worker (some operation) id workers = (remove_entry id workers, get_entry id workers)

unfoldable pub drain_message : Draining → Message → Draining
drain_message d (dedicated_display_started id generation slot worker) =
    let (operations, operation) = take_attempt d.operations id generation in
    record d {
      operations = operations;
      jobs = queue_launch_cleanup id slot none (some worker) operation d.jobs;
    }
drain_message d (managed_display_started slot worker) = record d {
  jobs = queue_display_cleanup worker slot false d.jobs;
}
drain_message d (launch_finished id generation slot report) =
    let (operations, operation) = take_attempt d.operations id generation in
    let (workers, worker) = take_worker operation id d.workers in
    record {
      operations = operations;
      workers = workers;
      jobs = queue_launch_cleanup id slot report worker operation d.jobs;
    }
drain_message d other_message = d

-- The loop with the messages that it may still take, and those that are in the channel; its answer is how
-- many it took and what is left.
unfoldable pub drain_loop : ℕ → List Message → Draining → ℕ × List Message × Draining
drain_loop zero messages d = (0, messages, d)
drain_loop (suc room) [] d = (0, [], d)
drain_loop (suc room) (m ∷ ms) d =
    let (count, rest, last) = drain_loop room ms (drain_message d m) in (suc count, rest, last)

unfoldable pub drain_owned_results : List Message → Draining → ℕ × List Message × Draining
drain_owned_results messages d = drain_loop 256 messages d

unfoldable pub retain_remainders : Draining → List Job
retain_remainders d =
    d.jobs
    ++ record {
      key = abandoned_key;
      resources = remainders (record { operations = d.operations; workers = d.workers });
    }
      ∷ []
