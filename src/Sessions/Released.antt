-- ===== src/Sessions/Released.antt =====
-- When a clean-up job has released what it owns (src/session_lifecycle.rs).
use mathlib.Core.List.{append-nil}
use cocoa_way.Base.{
  ℕ, ◌≡◌, refl, sym, ap, ◌∙◌, ◌++◌, Bool, true, false, not, ◌&&◌, ◌||◌, Option, none, some, List,
  [], ◌∷◌, Result, ok, err,
}
use cocoa_way.Sessions.{DisplayWorker, ActiveContainerSession, LaunchReport, LaunchCleanup}
use cocoa_way.Sessions.Reaping.{Wait, running, wait_failed, done}
use cocoa_way.Sessions.Terminating.{
  Failure, ChildAnswers, Removal, removed, not_found, removal_failed, System, after_kill,
  terminate_with, terminate_child, remove_answer, remove_checked, remove_runtime_directory,
  and_then, terminate_display_worker, Resource, waypipe_process, container_child, display_worker,
  owned_container, collect_error, cleanup_result, collect_child, collect_worker, session_errors,
  cleanup_session_resources, report_errors, cleanup_launch_resources,
}

abbrev pub is_ok {ℓ κ} : {A : Type ℓ} {E : Type κ} → Result A E → Bool
is_ok (ok a) = true
is_ok (err e) = false

abbrev pub has_exited : Wait → Bool
has_exited running = false
has_exited wait_failed = false
has_exited (done status) = true

abbrev pub is_running : Wait → Bool
is_running running = true
is_running wait_failed = false
is_running (done status) = false

-- The system has said of a process that it has ended: before it was killed, after, or when killing it
-- failed.
abbrev pub is_reaped : ChildAnswers → Bool
is_reaped a =
    has_exited a.first
    || is_running a.first
      && (is_ok a.kill && is_ok a.wait || not (is_ok a.kill) && has_exited a.second)

abbrev pub is_absent : Removal → Bool
is_absent removed = true
is_absent not_found = true
is_absent removal_failed = false

-- A resource counts as failed unless it is released; the failed ones in order.
abbrev pub unless : Bool → Resource → List Resource → List Resource
unless true resource rest = rest
unless false resource rest = resource ∷ rest

abbrev names : List (Resource × Failure) → List Resource
names [] = []
names ((resource, failure) ∷ errors) = resource ∷ names errors

abbrev pub failed_resources : Result (Unit {0}) (List (Resource × Failure)) → List Resource
failed_resources (ok t) = []
failed_resources (err errors) = names errors

names-append :
    (errors : List (Resource × Failure)) (r : Resource) (e : Failure) (rest : List Resource)
    → names (errors ++ (r, e) ∷ []) ++ rest ≡ names errors ++ r ∷ rest
names-append [] r e rest = refl
names-append ((q, d) ∷ errors) r e rest = ap (◌∷◌ q) (names-append errors r e rest)

collected :
    (errors : List (Resource × Failure)) (r : Resource) (a : Result (Unit {0}) Failure)
    (rest : List Resource)
    → names (collect_error errors r a) ++ rest ≡ names errors ++ unless (is_ok a) r rest
unfolding collect_error
collected errors r (ok t) rest = refl
collected errors r (err e) rest = names-append errors r e rest

result_failed :
    (errors : List (Resource × Failure))
    → failed_resources (cleanup_result errors) ≡ names errors ++ []
unfolding cleanup_result
result_failed [] = refl
result_failed ((r, e) ∷ errors) = ap (◌∷◌ r) (sym (append-nil (names errors)))

module _ (system : System) where
  abbrev pub child_released : Option ℕ → Bool
  child_released none = true
  child_released (some child) = is_reaped (system.child child)

  abbrev pub worker_released : Option DisplayWorker → Bool
  worker_released none = true
  worker_released (some w) =
      is_reaped (system.child w.child)
      && (not (system.is_empty_path w.runtime_dir) && is_absent (system.removal w.runtime_dir))

  killed :
      (kill wait : Result (Unit {0}) Failure) (second : Wait)
      → is_ok (after_kill kill second wait)
        ≡ (is_ok kill && is_ok wait || not (is_ok kill) && has_exited second)
  unfolding after_kill
  killed (ok t) (ok u) second = refl
  killed (ok t) (err e) second = refl
  killed (err e) wait running = refl
  killed (err e) wait wait_failed = refl
  killed (err e) wait (done status) = refl

  terminated :
      (first : Wait) (a : ChildAnswers)
      → a.first ≡ first
      → is_ok (terminate_with first a) ≡ is_reaped a
  unfolding terminate_with
  terminated (done status) a e = rw e refl
  terminated wait_failed a e = rw e refl
  terminated running a e = rw e (killed a.kill a.wait a.second)

  child-is_ok : (child : ℕ) → is_ok (terminate_child system child) ≡ is_reaped (system.child child)
  unfolding terminate_child
  child-is_ok child = terminated (system.child child).first (system.child child) refl

  and_then-is_ok : (a b : Result (Unit {0}) Failure) → is_ok (and_then a b) ≡ (is_ok a && is_ok b)
  and_then-is_ok (ok t) b = refl
  and_then-is_ok (err e) b = refl

  removed-is_ok :
      (empty : Bool) (r : Removal) → is_ok (remove_checked empty r) ≡ (not empty && is_absent r)
  unfolding remove_checked remove_answer
  removed-is_ok true r = refl
  removed-is_ok false removed = refl
  removed-is_ok false not_found = refl
  removed-is_ok false removal_failed = refl

  worker-is_ok :
      (w : DisplayWorker) → is_ok (terminate_display_worker system w) ≡ worker_released (some w)
  unfolding terminate_display_worker remove_runtime_directory
  worker-is_ok w =
      let own = child-is_ok w.child in
      let gone =
        removed-is_ok (system.is_empty_path w.runtime_dir) (system.removal w.runtime_dir) in
      and_then-is_ok (terminate_child system w.child)
        (remove_checked (system.is_empty_path w.runtime_dir) (system.removal w.runtime_dir))
      ∙ rw (own, gone) refl

  child_collected :
      (errors : List (Resource × Failure)) (o : Option ℕ) (rest : List Resource)
      → names (collect_child system errors o) ++ rest
        ≡ names errors ++ unless (child_released o) container_child rest
  unfolding collect_child
  child_collected errors none rest = refl
  child_collected errors (some child) rest =
      rw (sym (child-is_ok child))
        (collected errors container_child (terminate_child system child) rest)

  worker_collected :
      (errors : List (Resource × Failure)) (o : Option DisplayWorker) (rest : List Resource)
      → names (collect_worker system errors o) ++ rest
        ≡ names errors ++ unless (worker_released o) display_worker rest
  unfolding collect_worker
  worker_collected errors none rest = refl
  worker_collected errors (some w) rest =
      rw (sym (worker-is_ok w))
        (collected errors display_worker (terminate_display_worker system w) rest)

  -- What a failed launch reports, in front of the rest.
  abbrev pub unless_report : Option LaunchReport → List Resource → List Resource
  unless_report none rest = rest
  unless_report (some r) rest = unless (is_reaped (system.child r.waypipe_child)) waypipe_process (
      unless (child_released r.container_child) container_child
        (unless (is_ok (system.delete r.identity)) owned_container rest))

  three :
      (waypipe : ℕ) (container : Option ℕ) (rest : List Resource)
      → names (
            collect_child system
              (collect_error [] waypipe_process (terminate_child system waypipe))
              container)
          ++ rest
        ≡ unless
            (is_reaped (system.child waypipe))
            waypipe_process
            (unless (child_released container) container_child rest)
  three waypipe container rest =
      child_collected (collect_error [] waypipe_process (terminate_child system waypipe)) container
        rest
      ∙ (collected [] waypipe_process (terminate_child system waypipe)
            (unless (child_released container) container_child rest)
          ∙ rw (child-is_ok waypipe) refl)

  report_failed :
      (o : Option LaunchReport) (rest : List Resource)
      → names (report_errors system o) ++ rest ≡ unless_report o rest
  unfolding report_errors
  report_failed none rest = refl
  report_failed (some r) rest =
      collected _ owned_container (system.delete r.identity) rest
      ∙ three r.waypipe_child r.container_child
          (unless (is_ok (system.delete r.identity)) owned_container rest)

  -- The clean-up of a session reports exactly those of its resources that are not released, in their
  -- order, whatever fails before: a process unless the system has said that it has ended, the display
  -- worker unless its process has and its directory is gone, and the container unless it is deleted.
  -- That of a launch does the same for the resources of its report, if it has one, and then for its
  -- display worker.
  pub cleanup-failed :
      (s : ActiveContainerSession) (r : LaunchCleanup)
      → (failed_resources (cleanup_session_resources system s)
          ≡ unless (is_reaped (system.child s.waypipe_child)) waypipe_process (
              unless (child_released s.container_child) container_child (
                unless
                  (worker_released s.display_worker)
                  display_worker
                  (unless (is_ok (system.delete s.owned_identity)) owned_container []))))
        × (failed_resources (cleanup_launch_resources system r)
            ≡ unless_report r.report (unless (worker_released r.worker) display_worker []))
  unfolding cleanup_session_resources session_errors cleanup_launch_resources
  cleanup-failed s r = (
    result_failed _
        ∙ (collected _ owned_container (system.delete s.owned_identity) []
            ∙ (worker_collected _ s.display_worker
                  (unless (is_ok (system.delete s.owned_identity)) owned_container [])
                ∙ three s.waypipe_child s.container_child _)),
    result_failed _
        ∙ (worker_collected (report_errors system r.report) r.worker []
            ∙ report_failed r.report (unless (worker_released r.worker) display_worker [])),
  )
