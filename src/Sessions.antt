-- ===== src/Sessions.antt =====
-- The process handles that the program owns (src/main.rs, src/session_lifecycle.rs): active sessions,
-- managed displays and the clean-up jobs that take them over. A process, a directory, a slot, an identity
-- and a status are numbers; an enqueued job is the end of a list, which CleanupQueue::enqueue keeps.
pub mod Reaping
pub mod Draining
pub mod Handles
pub mod Terminating
pub mod Released
pub mod Seen
pub mod Kept
pub mod Drained
use cocoa_way.Base.{
  ℕ, suc, ◌+◌, ◌-◌, ◌≡◌, Bool, true, false, not, ◌&&◌, Option, none, some, List, [], ◌∷◌, ◌++◌,
  if◌then◌else◌, leb, ◌==◌, is_some, Result, ok, err,
}

pub record DisplayWorker : Type 0 where
  pub child : ℕ
  pub runtime_dir : ℕ

-- The audio worker is whether it has been asked to stop.
pub record ActiveContainerSession : Type 0 where
  pub profile_id : ℕ
  pub owned_identity : ℕ
  pub container_child : Option ℕ
  pub waypipe_child : ℕ
  pub audio_worker : Option Bool
  pub display_slot : ℕ
  pub display_worker : Option DisplayWorker
  pub stopping_since : Option ℕ
  pub force_stop_offered : Bool

pub record ManagedDisplay : Type 0 where
  pub slot : ℕ
  pub worker : DisplayWorker

pub record PendingProfileOperation : Type 0 where
  pub generation : ℕ
  pub session_id : ℕ
  pub launch_requested : Bool
  pub cancelled : Bool
  pub identity_reservation : Option ℕ

pub record LaunchReport : Type 0 where
  pub identity : ℕ
  pub container_child : Option ℕ
  pub waypipe_child : ℕ

pub data Process : Type 0 where
  dedicated_display container_process waypipe application : Process

pub data Status : Type 0 where
  exited : ℕ → Status
  monitor_error force_stopped closed_by_user : Status

pub record SessionCleanup : Type 0 where
  pub session : ActiveContainerSession
  pub process : Process
  pub status : Status

pub record DisplayCleanup : Type 0 where
  pub worker : DisplayWorker
  pub slot : ℕ
  pub exit_reason : Option Status
  pub failed_launch : Option ℕ

pub record LaunchCleanup : Type 0 where
  pub id : ℕ
  pub report : Option LaunchReport
  pub worker : Option DisplayWorker
  pub operation : Option PendingProfileOperation

-- The maps are lists of their entries.
pub record Remainders : Type 0 where
  pub operations : List (ℕ × PendingProfileOperation)
  pub workers : List (ℕ × DisplayWorker)

pub data Key : Type 0 where
  session_key : ℕ → ℕ → Key
  display_key : ℕ → Key
  abandoned_key : Key

pub data Resources : Type 0 where
  session_resources : SessionCleanup → Resources
  display_resources : DisplayCleanup → Resources
  launch_resources : LaunchCleanup → Resources
  remainders : Remainders → Resources

pub record Job : Type 0 where
  pub key : Key
  pub resources : Resources

abbrev pub request_stop : Option Bool → Option Bool
request_stop none = none
request_stop (some asked) = some true

unfoldable pub queue_session_cleanup :
    ActiveContainerSession → Process → Status → List Job → List Job
queue_session_cleanup session process status jobs =
    jobs
    ++ record {
      key = session_key session.profile_id session.display_slot;
      resources = session_resources (record {
        session = record session { audio_worker = request_stop session.audio_worker };
        process = process;
        status = status;
      });
    }
      ∷ []

unfoldable pub display_cleanup_key : Option ℕ → ℕ → Key
display_cleanup_key none slot = display_key slot
display_cleanup_key (some id) slot = session_key id slot

unfoldable pub enqueue_display_cleanup : DisplayCleanup → List Job → List Job
enqueue_display_cleanup resources jobs =
    jobs
    ++ record {
      key = display_cleanup_key resources.failed_launch resources.slot;
      resources = display_resources resources;
    }
      ∷ []

unfoldable pub queue_display_cleanup : DisplayWorker → ℕ → Bool → List Job → List Job
queue_display_cleanup worker slot notify jobs =
    enqueue_display_cleanup
      (record {
        worker = worker;
        slot = slot;
        exit_reason = if notify then some closed_by_user else none;
        failed_launch = none;
      })
      jobs

unfoldable pub queue_failed_launch_display_cleanup : ℕ → ℕ → DisplayWorker → List Job → List Job
queue_failed_launch_display_cleanup id slot worker jobs =
    enqueue_display_cleanup
      (record { worker = worker; slot = slot; exit_reason = none; failed_launch = some id }) jobs

unfoldable pub queue_launch_cleanup :
    ℕ
    → ℕ
    → Option LaunchReport
    → Option DisplayWorker
    → Option PendingProfileOperation
    → List Job
    → List Job
queue_launch_cleanup index slot report worker operation jobs =
    jobs
    ++ record {
      key = session_key index slot;
      resources =
          launch_resources
            (record { id = index; report = report; worker = worker; operation = operation });
    }
      ∷ []
