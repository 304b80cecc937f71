-- ===== src/Sessions/Seen.antt =====
-- What a pass leaves behind, and what it saw of it (src/session_lifecycle.rs).
use cocoa_way.Base.{
  sum, sum-append, ℕ, ◌≡◌, refl, ◌∙◌, inl, inr, not, ◌&&◌, Option, none, some, List, [], ◌∷◌, arith,
  Bool-cases, is_some, nat_of,
}
use cocoa_way.Sessions.{ActiveContainerSession, ManagedDisplay, Process, Status}
use cocoa_way.Sessions.Reaping.{
  Owned, Wait, running, wait_failed, done, is_late, offer_force_stop, session_exit, reap_session,
  reap_sessions, reap_display, reap_displays,
}

abbrev pub has_ended : Wait → ℕ
has_ended running = 0
has_ended wait_failed = 1
has_ended (done status) = 1

module _ (try_wait : ℕ → Wait) (now : ℕ) where
  -- Whether a process of a session was seen to have ended, and whether the process of a display was.
  abbrev pub ended : ActiveContainerSession → ℕ
  ended s = nat_of (is_some (session_exit try_wait now s))

  abbrev pub display_ended : ManagedDisplay → ℕ
  display_ended d = has_ended (try_wait d.worker.child)

  offer-exit :
      (s : ActiveContainerSession)
      → session_exit try_wait now (offer_force_stop now s) ≡ session_exit try_wait now s
  unfolding offer_force_stop session_exit
  offer-exit s = elim (Bool-cases (is_late s.stopping_since now && not s.force_stop_offered)) [
    | inl late ↦ rw late refl
    | inr early ↦ rw early refl
  ]

  reap_session-ended :
      (e : Option (Process × Status)) (s : ActiveContainerSession) (o : Owned)
      → session_exit try_wait now s ≡ e
      → sum ended (reap_session try_wait now e s o).active ≡ sum ended o.active
  unfolding reap_session
  reap_session-ended none s o e =
      let same = offer-exit s ∙ e in
      let last : ended (offer_force_stop now s) ≡ 0 = rw same refl in
      omega (arith, sum-append {0} ended o.active (offer_force_stop now s ∷ []), last)
  reap_session-ended (some found) s o e = refl

  pub reap_sessions-ended :
      (ss : List ActiveContainerSession) (o : Owned)
      → sum ended (reap_sessions try_wait now ss o).active ≡ sum ended o.active
  unfolding reap_sessions
  reap_sessions-ended [] o = refl
  reap_sessions-ended (s ∷ ss) o =
      reap_sessions-ended ss (reap_session try_wait now (session_exit try_wait now s) s o)
      ∙ reap_session-ended (session_exit try_wait now s) s o refl

  reap_display-ended :
      (w : Wait) (d : ManagedDisplay) (ds : List ManagedDisplay) (o : Owned)
      → try_wait d.worker.child ≡ w
      → sum display_ended (reap_display try_wait now w d (ds, o)).0 ≡ sum display_ended ds
  unfolding reap_display
  reap_display-ended running d ds o e =
      let last : display_ended d ≡ 0 = rw e refl in
      omega (arith, sum-append {0} display_ended ds (d ∷ []), last)
  reap_display-ended (done status) d ds o e = refl
  reap_display-ended wait_failed d ds o e = refl

  pub reap_displays-ended :
      (rest ds : List ManagedDisplay) (o : Owned)
      → sum display_ended (reap_displays try_wait now rest (ds, o)).0 ≡ sum display_ended ds
  unfolding reap_displays
  reap_displays-ended [] ds o = refl
  reap_displays-ended (d ∷ rest) ds o =
      let p = reap_display try_wait now (try_wait d.worker.child) d (ds, o) in
      reap_displays-ended rest p.0 p.1 ∙ reap_display-ended (try_wait d.worker.child) d ds o refl
