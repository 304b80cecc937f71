-- ===== src/PointerInput/Grab.antt =====
-- What a reconcile leaves behind, and that the cursor is never locked without an owner.
use cocoa_way.Base.{
  ◌≡◌, subst, ◌⊎◌, inl, inr, refl, sym, ap, ◌∙◌, Bool, true, false, not, ◌&&◌, ◌||◌, Option, none,
  some, is_some, option_eq, arith, Bool-cases, Option-cases,
}
use cocoa_way.InputPolicy.{can_activate}
use cocoa_way.PointerInput.{
  PointerFocus, ConstraintKind, unconstrained, locked, confined, LockAction, no_action, acquire,
  release, reject_confinement, LockStatus, release_failed_status, set_status, eligible, is_focus,
  is_locked, action, action_for, native_acquired, activated, acquisition_failed, released,
  is_release_failed, is_acquisition_failed,
}
use cocoa_way.PointerInput.Lock.{
  Native, Pass, is_unconstrained, release_pointer_lock, perform, try_acquire, reconcile_pass,
  reconcile_pointer_lock,
}

module _ {F : Type 0} (same : F → F → Bool) where
  -- No grab is held, or its release failed, or it is for a focus that may hold it.
  pub data Settled (n : Native F) (pass : Pass) : Type 0 where
    free : n.input.native_grab ≡ none → Settled n pass
    stuck : n.input.status ≡ release_failed_status → Settled n pass
    held :
        (grab : PointerFocus F)
        → n.input.native_grab ≡ some grab
        → (is_focus same n.input.focus grab ≡ true) ⊎ (n.input.focus ≡ some grab)
        → eligible n.input.focus pass.focused_owner pass.actual pass.snapshot ≡ true
        → pass.snapshot.kind ≡ locked
        → Settled n pass

  abbrev IsOwned : Native F → Type 0
  IsOwned n = n.cursor_locked ≡ is_some n.input.native_grab

  -- What `action` answers, with what it has found.
  data Decided (holder focus : Option (PointerFocus F)) (kind : ConstraintKind) (ok : Bool)
      : LockAction → Type 0 where
    keeps :
        (grab : PointerFocus F)
        → holder ≡ some grab
        → is_focus same focus grab ≡ true
        → ok ≡ true
        → kind ≡ locked
        → Decided holder focus kind ok no_action
    lets_go : (grab : PointerFocus F) → holder ≡ some grab → Decided holder focus kind ok release
    rejects : holder ≡ none → Decided holder focus kind ok reject_confinement
    waits : holder ≡ none → Decided holder focus kind ok no_action
    takes : holder ≡ none → ok ≡ true → kind ≡ locked → Decided holder focus kind ok acquire

  and-split : (a b : Bool) → (a && b) ≡ true → (a ≡ true) × (b ≡ true)
  and-split true b e = (refl, e)
  and-split false b e = cc

  is_locked-only : (kind : ConstraintKind) → is_locked kind ≡ true → kind ≡ locked
  is_locked-only locked e = refl
  is_locked-only confined e = cc
  is_locked-only unconstrained e = cc

  action_for-Decided :
      (holder focus : Option (PointerFocus F)) (kind : ConstraintKind) (active ok pending : Bool)
      (status : LockStatus)
      → Decided holder focus kind ok (action_for same holder focus kind active ok pending status)
  unfolding action_for
  action_for-Decided none focus unconstrained active ok pending status = waits refl
  action_for-Decided none focus confined active ok pending status = rejects refl
  action_for-Decided none focus locked active ok pending status =
      elim (Bool-cases (ok && (pending || not (is_acquisition_failed status)))) [
        | inl go ↦ rw go (takes refl (and-split ok _ go).0 refl)
        | inr stay ↦ rw stay (waits refl)
      ]
  action_for-Decided (some grab) focus kind active ok pending status =
      elim (Bool-cases (
        ok
        && is_focus same focus grab
        && is_locked kind
        && active
        && not (is_release_failed status))) [
          | inl stay ↦
              let (a, not_failed) = and-split _ _ stay in
              let (b, is_active) = and-split _ _ a in
              let (c, is_lock) = and-split _ _ b in
              let (is_ok, is_same) = and-split _ _ c in
              rw stay (keeps grab refl is_same is_ok (is_locked-only kind is_lock))
          | inr go ↦ rw go (lets_go grab refl)
        ]

  is_none : (o : Option (PointerFocus F)) → is_some o ≡ false → o ≡ none
  is_none none e = refl
  is_none (some f) e = cc

  -- An eligible focus meets the conditions of an activation, but for the native call.
  eligible-parts :
      (f : PointerFocus F) (pass : Pass)
      → eligible (some f) pass.focused_owner pass.actual pass.snapshot ≡ true
      → (option_eq pass.focused_owner (some f.owner) ≡ true)
        × (pass.snapshot.live ≡ true)
        × (pass.snapshot.in_region ≡ true)
  unfolding eligible
  eligible-parts f pass e =
      let owned = option_eq pass.focused_owner (some f.owner) in
      let shown = option_eq pass.actual (some f.surface) in
      let (a, inside) =
        and-split (owned && shown && pass.snapshot.live) pass.snapshot.in_region e in
      let (b, alive) = and-split (owned && shown) pass.snapshot.live a in
      ((and-split owned shown b).0, alive, inside)

  or_true : (b : Bool) → (b || true) ≡ true
  or_true true = refl
  or_true false = refl

  or_false : (b : Bool) → (b || false) ≡ b
  or_false true = refl
  or_false false = refl

  abbrev Ends : Pass → Native F → Type 0
  Ends pass n = IsOwned n × Settled n pass

  pub release_pointer_lock-Ends :
      (n : Native F) (pass : Pass) (frees : Bool)
      → IsOwned n
      → Ends pass (release_pointer_lock n frees).0
  unfolding release_pointer_lock released
  release_pointer_lock-Ends n pass true owned = elim (Bool-cases (is_some n.input.native_grab)) [
    | inl grabbed ↦ simp grabbed (refl, free refl)
    | inr not_grabbed ↦ simp not_grabbed (owned ∙ not_grabbed, free (is_none _ not_grabbed))
  ]
  release_pointer_lock-Ends n pass false owned = elim (Bool-cases (is_some n.input.native_grab)) [
    | inl grabbed ↦ simp grabbed (owned ∙ grabbed, stuck refl)
    | inr not_grabbed ↦ simp not_grabbed (owned ∙ not_grabbed, free (is_none _ not_grabbed))
  ]

  try_acquire-Ends :
      (n : Native F) (pass : Pass) (f : PointerFocus F)
      → IsOwned n
      → n.input.native_grab ≡ none
      → n.input.focus ≡ some f
      → eligible (some f) pass.focused_owner pass.actual pass.snapshot ≡ true
      → pass.snapshot.kind ≡ locked
      → Ends pass (try_acquire n pass f)
  unfolding try_acquire activated native_acquired acquisition_failed can_activate
  try_acquire-Ends n pass f owned no_grab focused ok is_lock =
      let (mine, alive, inside) = eligible-parts f pass ok in
      elim (Bool-cases pass.locks) [
        | inl got ↦ elim (Bool-cases pass.activates) [
          | inl active ↦
              let still =
                subst
                  (λ (o : Option (PointerFocus F)).
                    eligible o pass.focused_owner pass.actual pass.snapshot ≡ true)
                  (sym focused) ok in
              simp (mine, alive, inside, got, active)
                (or_true n.cursor_locked, held f refl (inr focused) still is_lock)
          | inr inactive ↦
              simp (mine, alive, inside, got, inactive)
                (release_pointer_lock-Ends _ pass pass.frees (or_true n.cursor_locked))
        ]
        | inr failed ↦
            simp (mine, alive, inside, failed) (or_false n.cursor_locked ∙ owned, free no_grab)
      ]

  perform-Ends :
      (n : Native F) (pass : Pass) (a : LockAction)
      → IsOwned n
      → Decided n.input.native_grab n.input.focus pass.snapshot.kind
          (eligible n.input.focus pass.focused_owner pass.actual pass.snapshot)
          a
      → Ends pass (perform n pass a).0
  unfolding perform set_status
  perform-Ends n pass no_action owned (keeps grab e same_focus ok is_lock) =
      let grabbed : is_some n.input.native_grab ≡ true = ap is_some e in
      simp grabbed (owned ∙ grabbed, held grab e (inl same_focus) ok is_lock)
  perform-Ends n pass no_action owned (waits e) =
      let no_grab : is_some n.input.native_grab ≡ false = ap is_some e in
      elim (Bool-cases (is_unconstrained pass.snapshot.kind)) [
        | inl none_asked ↦ simp (no_grab, none_asked) (owned ∙ no_grab, free e)
        | inr asked ↦ simp (no_grab, asked) (owned ∙ no_grab, free e)
      ]
  perform-Ends n pass release owned (lets_go grab e) =
      release_pointer_lock-Ends n pass pass.frees owned
  perform-Ends n pass reject_confinement owned (rejects e) = (owned, free e)
  perform-Ends n pass acquire owned (takes e ok is_lock) = elim (Option-cases n.input.focus) [
    | inl unfocused ↦ simp unfocused (owned, free e)
    | inr (f, focused) ↦
        let still =
          subst
            (λ (o : Option (PointerFocus F)).
              eligible o pass.focused_owner pass.actual pass.snapshot ≡ true)
            focused ok in
        simp focused (try_acquire-Ends n pass f owned e focused still is_lock)
  ]

  reconcile_pass-Ends :
      (n : Native F) (pass : Pass) → IsOwned n → Ends pass (reconcile_pass same n pass).0
  unfolding reconcile_pass action set_status
  reconcile_pass-Ends n pass owned =
      elim (Bool-cases (is_unconstrained pass.snapshot.kind && not (is_some n.input.native_grab))) [
        | inl nothing ↦ simp nothing (owned, free (is_none _ (nothing_held _ _ nothing)))
        | inr some_work ↦ simp some_work (
            perform-Ends n pass _ owned (
              action_for-Decided n.input.native_grab n.input.focus pass.snapshot.kind
                pass.snapshot.active _ n.input.pending n.input.status))
      ]
    where
      nothing_held : (a b : Bool) → (a && not b) ≡ true → b ≡ false
      nothing_held a true e = ground arith
      nothing_held a false e = refl

  -- A reconcile keeps the cursor and the grab in step, and ends with no grab, or with one whose
  -- release failed, or with a grab of the focus that is the focused window's and the pointer's
  -- surface, alive, in the region of a lock constraint, as one of its two passes saw them.
  pub reconcile_pointer_lock-Settled :
      (n : Native F) (first second : Pass)
      → n.cursor_locked ≡ is_some n.input.native_grab
      → let n' = reconcile_pointer_lock same n first second in
        (n'.cursor_locked ≡ is_some n'.input.native_grab) × (Settled n' first ⊎ Settled n' second)
  unfolding reconcile_pointer_lock
  reconcile_pointer_lock-Settled n first second owned =
      let (owned', settled) = reconcile_pass-Ends n first owned in
      elim (Bool-cases (reconcile_pass same n first).1) [
        | inl again ↦
            let (owned'', settled') = reconcile_pass-Ends _ second owned' in
            simp again (owned'', inr settled')
        | inr done ↦ simp done (owned', inl settled)
      ]
