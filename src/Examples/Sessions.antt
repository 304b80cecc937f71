-- ===== src/Examples/Sessions.antt =====
-- Runs of the owned processes (src/session_lifecycle.rs, src/shutdown.rs).
use cocoa_way.Base.{
  refl, ok, err, true, ℕ, ◌+◌, ◌≤◌, ◌≡◌, false, none, some, List, [], ◌∷◌, length, sum,
  if◌then◌else◌, ◌==◌,
}
use cocoa_way.Sessions.{DisplayWorker, ActiveContainerSession, ManagedDisplay}
use cocoa_way.Sessions.Reaping.{
  Owned, Wait, running, done, stop_active_container_session, reap_exited_container_sessions,
  reap_exited_managed_displays,
}
use cocoa_way.Sessions.Draining.{
  Message, dedicated_display_started, launch_finished, other_message, Draining, drain_owned_results,
  retain_remainders,
}
use cocoa_way.Sessions.Handles.{in_message, in_job}
use cocoa_way.Sessions.Seen.{ended, display_ended}
use cocoa_way.Sessions.Kept.{held, with_displays, reap-Kept}
use cocoa_way.Sessions.Drained.{drained, drain_owned_results-Kept}
use cocoa_way.Sessions.Terminating as terms
use cocoa_way.Sessions.Terminating.{
  System, removed, kill_error, waypipe_process, container_child, display_worker, owned_container,
  cleanup_session_resources, cleanup_launch_resources,
}
use cocoa_way.Sessions.Released.{
  is_ok, is_reaped, child_released, worker_released, unless, failed_resources, cleanup-failed,
}

abbrev worker_at : ℕ → DisplayWorker
worker_at child = record { child = child; runtime_dir = child }

-- A session of the profile `id` on the slot 7 with a dedicated display.
abbrev session_of : ℕ → ActiveContainerSession
session_of id = record {
  profile_id = id;
  owned_identity = id;
  container_child = some (id + 10);
  waypipe_child = id + 20;
  audio_worker = some false;
  display_slot = 7;
  display_worker = some (worker_at (id + 30));
  stopping_since = none;
  force_stop_offered = false;
}

abbrev two_sessions : Owned
two_sessions = record { active = session_of 1 ∷ session_of 2 ∷ []; jobs = [] }

abbrev one_display : List ManagedDisplay
one_display = record { slot = 7; worker = worker_at 40 } ∷ []

-- The display 40 and the container 12 have ended.
abbrev try_wait : ℕ → Wait
try_wait child = if child == 40 then done 1 else if child == 12 then done 2 else running

reap-Kept_example :
    (held 12 (stop_active_container_session 2 5 two_sessions).0 ≡ held 12 two_sessions)
    × (held 12 (reap_exited_container_sessions try_wait 5 two_sessions) ≡ held 12 two_sessions)
    × (with_displays 12 (reap_exited_managed_displays try_wait 5 one_display two_sessions)
        ≡ with_displays 12 (one_display, two_sessions))
    × (sum (ended try_wait 5) (reap_exited_container_sessions try_wait 5 two_sessions).active ≡ 0)
    × (sum
          (display_ended try_wait 5)
          (reap_exited_managed_displays try_wait 5 one_display two_sessions).0
        ≡ 0)
reap-Kept_example = reap-Kept 12 try_wait 5 2 one_display two_sessions

abbrev messages : List Message
messages =
    dedicated_display_started 1 3 7 (worker_at 50)
    ∷ other_message
    ∷ launch_finished 2 4 7
        (some (record { identity = 2; container_child = none; waypipe_child = 51 }))
    ∷ []

abbrev ending : Draining
ending = record {
  operations =
      (
        2,
        record {
          generation = 4;
          session_id = 2;
          launch_requested = true;
          cancelled = false;
          identity_reservation = some 2;
        },
      )
      ∷ [];
  workers = (2, worker_at 52) ∷ [];
  jobs = [];
}

drain_owned_results-Kept_example :
    let (count, rest, last) = drain_owned_results messages ending in
    (sum (in_message 52) rest + drained 52 last ≡ sum (in_message 52) messages + drained 52 ending)
    × (count + length rest ≡ length messages)
    × (count ≤ 256)
    × (sum (in_job 52) (retain_remainders last) ≡ drained 52 last)
drain_owned_results-Kept_example = drain_owned_results-Kept 52 messages ending

-- Every process has ended but the one of the display 31, which cannot be killed.
abbrev system : System
system = record {
  child = λ child. record {
    first = if child == 31 then running else done 0;
    kill = err kill_error;
    second = running;
    wait = ok tt;
  };
  is_empty_path = λ path. false;
  removal = λ path. removed;
  delete = λ identity. ok tt;
}

cleanup-failed_example :
    (failed_resources (cleanup_session_resources system (session_of 1))
      ≡ unless (is_reaped (system.child 21)) waypipe_process (
          unless (child_released system (some 11)) container_child (
            unless
              (worker_released system (some (worker_at 31)))
              display_worker
              (unless (is_ok (system.delete 1)) owned_container []))))
    × (failed_resources (
          cleanup_launch_resources system
            (record { id = 1; report = none; worker = some (worker_at 31); operation = none }))
        ≡ unless (worker_released system (some (worker_at 31))) display_worker [])
cleanup-failed_example =
    cleanup-failed system (session_of 1)
      (record { id = 1; report = none; worker = some (worker_at 31); operation = none })

-- The error is that of the display; the container is deleted all the same.
cleanup-session :
    cleanup_session_resources system (session_of 1) ≡ err ((display_worker, kill_error) ∷ [])
unfolding cleanup_session_resources terms.session_errors terms.collect_error terms.terminate_child
    terms.terminate_with terms.after_kill terms.collect_child terms.collect_worker
    terms.terminate_display_worker terms.cleanup_result
cleanup-session = refl
