-- ===== src/Sessions/Terminating.antt =====
-- What a clean-up job does with its processes (src/session_lifecycle.rs). The answers of the system to
-- the calls on a process, a directory and an owned container are inputs; a text of an error is its
-- kind.
use cocoa_way.Base.{ℕ, Bool, true, false, Option, none, some, List, [], ◌∷◌, ◌++◌, Result, ok, err}
use cocoa_way.Sessions.{DisplayWorker, ActiveContainerSession, LaunchReport, LaunchCleanup}
use cocoa_way.Sessions.Reaping.{Wait, running, wait_failed, done}

pub data Failure : Type 0 where
  wait_error kill_error directory_error empty_path container_error : Failure

-- The answers of `try_wait`, `kill`, `try_wait` after a failed `kill`, and `wait`.
pub record ChildAnswers : Type 0 where
  pub first : Wait
  pub kill : Result (Unit {0}) Failure
  pub second : Wait
  pub wait : Result (Unit {0}) Failure

pub data Removal : Type 0 where
  removed not_found removal_failed : Removal

-- The system: processes, directories and `cleanup_owned_instance`.
pub record System : Type 0 where
  pub child : ℕ → ChildAnswers
  pub is_empty_path : ℕ → Bool
  pub removal : ℕ → Removal
  pub delete : ℕ → Result (Unit {0}) Failure

unfoldable pub after_kill :
    Result (Unit {0}) Failure → Wait → Result (Unit {0}) Failure → Result (Unit {0}) Failure
after_kill (ok t) second wait = wait
after_kill (err e) (done status) wait = ok tt
after_kill (err e) running wait = err e
after_kill (err e) wait_failed wait = err e

unfoldable pub terminate_with : Wait → ChildAnswers → Result (Unit {0}) Failure
terminate_with (done status) a = ok tt
terminate_with running a = after_kill a.kill a.second a.wait
terminate_with wait_failed a = err wait_error

unfoldable pub terminate_child : System → ℕ → Result (Unit {0}) Failure
terminate_child system child = let a = system.child child in terminate_with a.first a

unfoldable pub remove_answer : Removal → Result (Unit {0}) Failure
remove_answer removed = ok tt
remove_answer not_found = ok tt
remove_answer removal_failed = err directory_error

unfoldable pub remove_checked : Bool → Removal → Result (Unit {0}) Failure
remove_checked true answer = err empty_path
remove_checked false answer = remove_answer answer

unfoldable pub remove_runtime_directory : System → ℕ → Result (Unit {0}) Failure
remove_runtime_directory system path =
    remove_checked (system.is_empty_path path) (system.removal path)

-- `?`.
abbrev pub and_then :
    Result (Unit {0}) Failure → Result (Unit {0}) Failure → Result (Unit {0}) Failure
and_then (ok t) next = next
and_then (err e) next = err e

unfoldable pub terminate_display_worker : System → DisplayWorker → Result (Unit {0}) Failure
terminate_display_worker system worker =
    and_then (terminate_child system worker.child)
      (remove_runtime_directory system worker.runtime_dir)

pub data Resource : Type 0 where
  waypipe_process container_child display_worker owned_container : Resource

unfoldable pub collect_error :
    List (Resource × Failure) → Resource → Result (Unit {0}) Failure → List (Resource × Failure)
collect_error errors resource (ok t) = errors
collect_error errors resource (err e) = errors ++ (resource, e) ∷ []

unfoldable pub cleanup_result :
    List (Resource × Failure) → Result (Unit {0}) (List (Resource × Failure))
cleanup_result [] = ok tt
cleanup_result (e ∷ errors) = err (e ∷ errors)

unfoldable pub collect_child :
    System → List (Resource × Failure) → Option ℕ → List (Resource × Failure)
collect_child system errors none = errors
collect_child system errors (some child) =
    collect_error errors container_child (terminate_child system child)

unfoldable pub collect_worker :
    System → List (Resource × Failure) → Option DisplayWorker → List (Resource × Failure)
collect_worker system errors none = errors
collect_worker system errors (some worker) =
    collect_error errors display_worker (terminate_display_worker system worker)

-- The errors of the four resources; all are tried, whatever fails.
unfoldable pub session_errors : System → ActiveContainerSession → List (Resource × Failure)
session_errors system s =
    let waypipe = collect_error [] waypipe_process (terminate_child system s.waypipe_child) in
    let container = collect_child system waypipe s.container_child in
    let display = collect_worker system container s.display_worker in
    collect_error display owned_container (system.delete s.owned_identity)

unfoldable pub cleanup_session_resources :
    System → ActiveContainerSession → Result (Unit {0}) (List (Resource × Failure))
cleanup_session_resources system s = cleanup_result (session_errors system s)

unfoldable pub report_errors : System → Option LaunchReport → List (Resource × Failure)
report_errors system none = []
report_errors system (some r) =
    let waypipe = collect_error [] waypipe_process (terminate_child system r.waypipe_child) in
    let container = collect_child system waypipe r.container_child in
    collect_error container owned_container (system.delete r.identity)

unfoldable pub cleanup_launch_resources :
    System → LaunchCleanup → Result (Unit {0}) (List (Resource × Failure))
cleanup_launch_resources system r =
    cleanup_result (collect_worker system (report_errors system r.report) r.worker)
