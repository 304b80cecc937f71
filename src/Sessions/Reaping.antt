-- ===== src/Sessions/Reaping.antt =====
-- Stopped and exited sessions and displays (src/session_lifecycle.rs). What `try_wait` says of a process
-- during a pass is a function of the process.
use cocoa_way.Base.{
  ℕ, ◌-◌, Bool, true, false, not, ◌&&◌, Option, none, some, List, [], ◌∷◌, ◌++◌, if◌then◌else◌, leb,
  ◌==◌, Result, ok, err,
}
use cocoa_way.Sessions.{
  DisplayWorker, ActiveContainerSession, ManagedDisplay, Process, dedicated_display,
  container_process, waypipe, application, Status, exited, monitor_error, force_stopped, Job,
  queue_session_cleanup, enqueue_display_cleanup,
}

pub data StopError : Type 0 where
  not_active : StopError

-- `get_or_insert_with`.
abbrev pub get_or_insert : Option ℕ → ℕ → Option ℕ
get_or_insert none now = some now
get_or_insert (some since) now = some since

unfoldable pub keep_session :
    ActiveContainerSession
    → Option (ActiveContainerSession × List ActiveContainerSession)
    → Option (ActiveContainerSession × List ActiveContainerSession)
keep_session s none = none
keep_session s (some (found, rest)) = some (found, s ∷ rest)

-- The first session of a profile, and the others.
unfoldable pub remove_session :
    ℕ → List ActiveContainerSession → Option (ActiveContainerSession × List ActiveContainerSession)
remove_session id [] = none
remove_session id (s ∷ ss) =
    let later = remove_session id ss in
    if s.profile_id == id then some (s, ss) else keep_session s later

-- The sessions that are active and the jobs that are queued.
pub record Owned : Type 0 where
  pub active : List ActiveContainerSession
  pub jobs : List Job

unfoldable pub stop_removed :
    Option (ActiveContainerSession × List ActiveContainerSession)
    → ℕ
    → Owned
    → Owned × Result (Unit {0}) StopError
stop_removed none now o = (o, err not_active)
stop_removed (some (session, rest)) now o = (
  record {
    active = rest;
    jobs =
        queue_session_cleanup
          (record session { stopping_since = get_or_insert session.stopping_since now }) application
          force_stopped o.jobs;
  },
  ok tt,
)

unfoldable pub stop_active_container_session : ℕ → ℕ → Owned → Owned × Result (Unit {0}) StopError
stop_active_container_session id now o = stop_removed (remove_session id o.active) now o

-- The answer of `try_wait`.
pub data Wait : Type 0 where
  running wait_failed : Wait
  done : ℕ → Wait

unfoldable pub observed_exit : Wait → Process → Option (Process × Status)
observed_exit (done status) process = some (process, exited status)
observed_exit running process = none
observed_exit wait_failed process = some (process, monitor_error)

abbrev pub or_else {ℓ} : {A : Type ℓ} → Option A → Option A → Option A
or_else none b = b
or_else (some a) b = some a

-- `elapsed() >= 4s` for a session that is stopping, in milliseconds.
abbrev pub is_late : Option ℕ → ℕ → Bool
is_late none now = false
is_late (some since) now = leb 4000 (now - since)

unfoldable pub offer_force_stop : ℕ → ActiveContainerSession → ActiveContainerSession
offer_force_stop now s =
    if is_late s.stopping_since now && not s.force_stop_offered
    then record s { force_stop_offered = true }
    else s

-- The profiles of the sessions on a slot.
unfoldable pub affected : ℕ → List ActiveContainerSession → List ℕ
affected slot [] = []
affected slot (s ∷ ss) =
    let rest = affected slot ss in if s.display_slot == slot then s.profile_id ∷ rest else rest

module _ (try_wait : ℕ → Wait) (now : ℕ) where
  abbrev pub observed_child : Option ℕ → Process → Option (Process × Status)
  observed_child none process = none
  observed_child (some child) process = observed_exit (try_wait child) process

  abbrev pub observed_worker : Option DisplayWorker → Option (Process × Status)
  observed_worker none = none
  observed_worker (some worker) = observed_exit (try_wait worker.child) dedicated_display

  unfoldable pub session_exit : ActiveContainerSession → Option (Process × Status)
  session_exit s = or_else (observed_worker s.display_worker) (
      or_else (observed_child s.container_child container_process)
        (observed_exit (try_wait s.waypipe_child) waypipe))

  unfoldable pub reap_session : Option (Process × Status) → ActiveContainerSession → Owned → Owned
  reap_session none s o = record o { active = o.active ++ offer_force_stop now s ∷ [] }
  reap_session (some (process, status)) s o = record o {
    jobs = queue_session_cleanup s process status o.jobs;
  }

  -- The loop over the sessions that are left to look at; those that stay are in `active`.
  unfoldable pub reap_sessions : List ActiveContainerSession → Owned → Owned
  reap_sessions [] o = o
  reap_sessions (s ∷ ss) o = reap_sessions ss (reap_session (session_exit s) s o)

  unfoldable pub reap_exited_container_sessions : Owned → Owned
  reap_exited_container_sessions o = reap_sessions o.active (record o { active = [] })

  unfoldable pub stop_all : List ℕ → Owned → Owned
  stop_all [] o = o
  stop_all (id ∷ ids) o = stop_all ids (stop_active_container_session id now o).0

  unfoldable pub close_display : ManagedDisplay → Status → Owned → Owned
  close_display d reason o =
      let stopped = stop_all (affected d.slot o.active) o in
      record stopped {
        jobs =
            enqueue_display_cleanup
              (record {
                worker = d.worker;
                slot = d.slot;
                exit_reason = some reason;
                failed_launch = none;
              })
              stopped.jobs;
      }

  unfoldable pub reap_display :
      Wait → ManagedDisplay → List ManagedDisplay × Owned → List ManagedDisplay × Owned
  reap_display running d (displays, o) = (displays ++ d ∷ [], o)
  reap_display (done status) d (displays, o) = (displays, close_display d (exited status) o)
  reap_display wait_failed d (displays, o) = (displays, close_display d monitor_error o)

  unfoldable pub reap_displays :
      List ManagedDisplay → List ManagedDisplay × Owned → List ManagedDisplay × Owned
  reap_displays [] kept = kept
  reap_displays (d ∷ ds) kept = reap_displays ds (reap_display (try_wait d.worker.child) d kept)

  unfoldable pub reap_exited_managed_displays :
      List ManagedDisplay → Owned → List ManagedDisplay × Owned
  reap_exited_managed_displays displays o = reap_displays displays ([], o)
