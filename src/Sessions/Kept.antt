-- ===== src/Sessions/Kept.antt =====
-- Handles of processes that are moved between sessions, displays and jobs (src/session_lifecycle.rs,
-- src/shutdown.rs).
use cocoa_way.Base.{
  sum, sum-append, ℕ, ◌+◌, ◌≡◌, refl, ◌∙◌, inl, inr, not, ◌&&◌, Option, none, some, List, [], ◌∷◌,
  ◌==◌, arith, Bool-cases,
}
use cocoa_way.Sessions.{
  DisplayWorker, ActiveContainerSession, ManagedDisplay, PendingProfileOperation, LaunchReport,
  Process, Status, exited, monitor_error, DisplayCleanup, Job, queue_session_cleanup,
  enqueue_display_cleanup, queue_launch_cleanup,
}
use cocoa_way.Sessions.Reaping.{
  keep_session, remove_session, Owned, stop_removed, stop_active_container_session, Wait, running,
  wait_failed, done, is_late, offer_force_stop, session_exit, reap_session, reap_sessions,
  reap_exited_container_sessions, affected, stop_all, close_display, reap_display, reap_displays,
  reap_exited_managed_displays,
}
use cocoa_way.Sessions.Seen.{ended, display_ended, reap_sessions-ended, reap_displays-ended}
use cocoa_way.Sessions.Handles.{is_handle, in_worker, in_session, in_display, in_report, in_job}

-- How often a handle is held by the sessions and the jobs.
pub held : ℕ → Owned → ℕ
held c o = sum (in_session c) o.active + sum (in_job c) o.jobs

module _ (c : ℕ) where
  queue_session-sum :
      (s : ActiveContainerSession) (p : Process) (st : Status) (jobs : List Job)
      → sum (in_job c) (queue_session_cleanup s p st jobs) ≡ in_session c s + sum (in_job c) jobs
  unfolding queue_session_cleanup
  queue_session-sum s p st jobs = omega (arith, sum-append {0} (in_job c) jobs (_ ∷ []))

  pub enqueue_display-sum :
      (r : DisplayCleanup) (jobs : List Job)
      → sum (in_job c) (enqueue_display_cleanup r jobs)
        ≡ is_handle c r.worker.child + sum (in_job c) jobs
  unfolding enqueue_display_cleanup
  enqueue_display-sum r jobs = omega (arith, sum-append {0} (in_job c) jobs (_ ∷ []))

  pub queue_launch-sum :
      (id slot : ℕ) (r : Option LaunchReport) (w : Option DisplayWorker)
      (op : Option PendingProfileOperation) (jobs : List Job)
      → sum (in_job c) (queue_launch_cleanup id slot r w op jobs)
        ≡ in_report c r + in_worker c w + sum (in_job c) jobs
  unfolding queue_launch_cleanup
  queue_launch-sum id slot r w op jobs = omega (arith, sum-append {0} (in_job c) jobs (_ ∷ []))

  -- What a removal has found and left, or the whole of the list.
  in_removed : Option (ActiveContainerSession × List ActiveContainerSession) → ℕ → ℕ
  in_removed none whole = whole
  in_removed (some (s, rest)) whole = in_session c s + sum (in_session c) rest

  in_removed-keep :
      (t : ActiveContainerSession)
      (o : Option (ActiveContainerSession × List ActiveContainerSession)) (n : ℕ)
      → in_removed o n ≡ n
      → in_removed (keep_session t o) (in_session c t + n) ≡ in_session c t + n
  unfolding in_removed keep_session
  in_removed-keep t none n e = refl
  in_removed-keep t (some (s, rest)) n e = omega arith

  remove_session-sum :
      (id : ℕ) (ss : List ActiveContainerSession)
      → in_removed (remove_session id ss) (sum (in_session c) ss) ≡ sum (in_session c) ss
  unfolding remove_session
  remove_session-sum id [] = unfold in_removed in refl
  remove_session-sum id (t ∷ ts) =
      let later =
        in_removed-keep t (remove_session id ts) (sum (in_session c) ts)
          (remove_session-sum id ts) in
      elim (Bool-cases (t.profile_id == id)) [
        | inl here ↦ rw here (unfold in_removed in refl)
        | inr other ↦ rw other later
      ]

  stop_removed-held :
      (r : Option (ActiveContainerSession × List ActiveContainerSession)) (now : ℕ) (o : Owned)
      → in_removed r (sum (in_session c) o.active) ≡ sum (in_session c) o.active
      → held c (stop_removed r now o).0 ≡ held c o
  unfolding stop_removed in_removed held
  stop_removed-held none now o e = refl
  stop_removed-held (some (s, rest)) now o e =
      omega (arith, e, queue_session-sum (record s { stopping_since = _ }) _ _ o.jobs)

  stop-held :
      (id now : ℕ) (o : Owned) → held c (stop_active_container_session id now o).0 ≡ held c o
  unfolding stop_active_container_session
  stop-held id now o =
      stop_removed-held (remove_session id o.active) now o (remove_session-sum id o.active)

  stop_all-held :
      (now : ℕ) (try_wait : ℕ → Wait) (ids : List ℕ) (o : Owned)
      → held c (stop_all try_wait now ids o) ≡ held c o
  unfolding stop_all
  stop_all-held now try_wait [] o = refl
  stop_all-held now try_wait (id ∷ ids) o =
      stop_all-held now try_wait ids (stop_active_container_session id now o).0 ∙ stop-held id now o

  offer-sum :
      (now : ℕ) (s : ActiveContainerSession)
      → in_session c (offer_force_stop now s) ≡ in_session c s
  unfolding offer_force_stop
  offer-sum now s = elim (Bool-cases (is_late s.stopping_since now && not s.force_stop_offered)) [
    | inl late ↦ rw late refl
    | inr early ↦ rw early refl
  ]

  -- The displays, with the sessions and the jobs.
  pub with_displays : List ManagedDisplay × Owned → ℕ
  with_displays (ds, o) = sum (in_display c) ds + held c o

  module _ (try_wait : ℕ → Wait) (now : ℕ) where
    reap_session-held :
        (e : Option (Process × Status)) (s : ActiveContainerSession) (o : Owned)
        → held c (reap_session try_wait now e s o) ≡ in_session c s + held c o
    unfolding reap_session held
    reap_session-held none s o = omega (
      arith,
      sum-append {0} (in_session c) o.active (offer_force_stop now s ∷ []),
      offer-sum now s,
    )
    reap_session-held (some (p, st)) s o = omega (arith, queue_session-sum s p st o.jobs)

    reap_sessions-held :
        (ss : List ActiveContainerSession) (o : Owned)
        → held c (reap_sessions try_wait now ss o) ≡ sum (in_session c) ss + held c o
    unfolding reap_sessions
    reap_sessions-held [] o = omega arith
    reap_sessions-held (s ∷ ss) o =
        let own = reap_session-held (session_exit try_wait now s) s o in
        omega (
          arith,
          own,
          reap_sessions-held ss (reap_session try_wait now (session_exit try_wait now s) s o),
        )

    close_display-held :
        (d : ManagedDisplay) (reason : Status) (o : Owned)
        → held c (close_display try_wait now d reason o) ≡ in_display c d + held c o
    unfolding close_display
    close_display-held d reason o =
        let stopped = stop_all try_wait now (affected d.slot o.active) o in
        let same = stop_all-held now try_wait (affected d.slot o.active) o in
        let queued =
          enqueue_display-sum
            (record {
              worker = d.worker;
              slot = d.slot;
              exit_reason = some reason;
              failed_launch = none;
            })
            stopped.jobs in
        unfold held in omega (arith, same, queued)

    reap_display-held :
        (w : Wait) (d : ManagedDisplay) (ds : List ManagedDisplay) (o : Owned)
        → with_displays (reap_display try_wait now w d (ds, o))
          ≡ in_display c d + with_displays (ds, o)
    unfolding reap_display with_displays
    reap_display-held running d ds o = omega (arith, sum-append {0} (in_display c) ds (d ∷ []))
    reap_display-held (done status) d ds o = omega (arith, close_display-held d (exited status) o)
    reap_display-held wait_failed d ds o = omega (arith, close_display-held d monitor_error o)

    reap_displays-held :
        (rest : List ManagedDisplay) (ds : List ManagedDisplay) (o : Owned)
        → with_displays (reap_displays try_wait now rest (ds, o))
          ≡ sum (in_display c) rest + with_displays (ds, o)
    unfolding reap_displays
    reap_displays-held [] ds o = omega arith
    reap_displays-held (d ∷ rest) ds o =
        let p = reap_display try_wait now (try_wait d.worker.child) d (ds, o) in
        let own = reap_display-held (try_wait d.worker.child) d ds o in
        omega (arith, own, reap_displays-held rest p.0 p.1)

  -- Reaping neither loses nor doubles a process: whatever `try_wait` says, each handle is held as
  -- often by the sessions, the displays and the clean-up jobs after a stop of a session, after a pass
  -- over the sessions and after a pass over the displays with the sessions on them as it was before. A
  -- session that a pass keeps has no process that was seen to have ended, and no display that it keeps
  -- was.
  pub reap-Kept :
      (try_wait : ℕ → Wait) (now id : ℕ) (displays : List ManagedDisplay) (o : Owned)
      → (held c (stop_active_container_session id now o).0 ≡ held c o)
        × (held c (reap_exited_container_sessions try_wait now o) ≡ held c o)
        × (with_displays (reap_exited_managed_displays try_wait now displays o)
            ≡ with_displays (displays, o))
        × (sum (ended try_wait now) (reap_exited_container_sessions try_wait now o).active ≡ 0)
        × (sum (display_ended try_wait now) (reap_exited_managed_displays try_wait now displays o).0
            ≡ 0)
  unfolding reap_exited_container_sessions reap_exited_managed_displays with_displays
  reap-Kept try_wait now id displays o = (
    stop-held id now o,
    reap_sessions-held try_wait now o.active (record o { active = [] })
        ∙ unfold held in omega arith,
    omega (arith, reap_displays-held try_wait now displays [] o),
    reap_sessions-ended try_wait now o.active (record o { active = [] }),
    reap_displays-ended try_wait now displays [] o,
  )
