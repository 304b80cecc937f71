-- ===== src/WaylandSource/Watching.antt =====
-- What the thread watches, and the calls of the event loop (src/wayland_source.rs).
use cocoa_way.Base.{
  ℕ, ◌≡◌, refl, subst, ◌∙◌, inl, inr, Bool, true, false, not, ◌&&◌, ◌||◌, List, [], length,
  if◌then◌else◌, ◌==◌, ==_iff, arith, Bool-cases, set_contains,
}
use cocoa_way.WaylandSource.{OutputInterest, keep, set_eq, apply_interest, writable_of}
use cocoa_way.WaylandSource.Watch.{
  Phase, top, waking, ended, loaded, polling, polled, draining, drained, accepting, checking,
  deciding, Source,
}
use cocoa_way.WaylandSource.Steps.{notify, set_output_interest, rearm, stop, after_join}
use cocoa_way.WaylandSource.Interest.{set_contains-keep, keep_same, set_eq_sound}

-- What the thread watches while it goes to sleep. With the sources armed it watches the clients that are
-- blocked and known, and else it has a notice to read as soon as they are armed.
unfoldable pub Watches : Phase → Bool → Bool → OutputInterest → Type 0
Watches (loaded true) armed notice output = armed ≡ true
Watches (loaded false) armed notice output = (armed && not notice) ≡ false
Watches (polling true writable) armed notice output =
    (armed ≡ true)
    × (notice ≡ false
        → (id : ℕ)
        → set_contains id writable
          ≡ (set_contains id output.blocked && set_contains id output.clients))
Watches (polling false writable) armed notice output = (armed && not notice) ≡ false
Watches top armed notice output = Unit
Watches waking armed notice output = Unit
Watches ended armed notice output = Unit
Watches (polled writable p) armed notice output = Unit
Watches (draining writable p) armed notice output = Unit
Watches (drained writable p) armed notice output = Unit
Watches (accepting left writable events) armed notice output = Unit
Watches (checking ready writable events) armed notice output = Unit
Watches (deciding ready) armed notice output = Unit

-- Whether the thread is about to wake the event loop, or has ended.
abbrev pub is_done : Phase → Bool
is_done top = false
is_done waking = true
is_done ended = true
is_done (loaded armed) = false
is_done (polling armed writable) = false
is_done (polled writable p) = false
is_done (draining writable p) = false
is_done (drained writable p) = false
is_done (accepting left writable events) = false
is_done (checking ready writable events) = false
is_done (deciding ready) = false

unfoldable pub IsWatching : Source → Type 0
IsWatching s =
    Watches s.phase s.armed (s.notice_due || s.has_notice) s.output
    × ((s.armed || s.is_woken || is_done s.phase) ≡ true)

pub owed-ended : (armed woken : Bool) → (armed || woken || true) ≡ true
owed-ended armed woken = ground arith

pub loaded-Watches :
    (armed notice : Bool) (output : OutputInterest) → Watches (loaded armed) armed notice output
unfolding Watches
loaded-Watches true notice output = refl
loaded-Watches false notice output = refl

pub snapshot-Watches :
    (a armed notice : Bool) (output : OutputInterest)
    → Watches (loaded a) armed notice output
    → Watches (polling a (if a then writable_of output else [])) armed notice output
unfolding Watches writable_of
snapshot-Watches true armed notice output h =
    (h, λ quiet id. set_contains-keep (λ j. set_contains j output.clients) id output.blocked)
snapshot-Watches false armed notice output h = h

-- A notice that stays or comes keeps what the thread watches, while `armed` and the clients stay.
noticed-Watches :
    (p : Phase) (armed notice : Bool) (output other : OutputInterest)
    → Watches p armed notice output
    → Watches p armed true other
unfolding Watches
noticed-Watches (loaded true) armed notice output other h = h
noticed-Watches (loaded false) armed notice output other h = ground arith
noticed-Watches (polling true w) armed notice output other h = (h.0, λ quiet id. ground arith)
noticed-Watches (polling false w) armed notice output other h = ground arith
noticed-Watches top armed notice output other h = tt
noticed-Watches waking armed notice output other h = tt
noticed-Watches ended armed notice output other h = tt
noticed-Watches (polled w p) armed notice output other h = tt
noticed-Watches (draining w p) armed notice output other h = tt
noticed-Watches (drained w p) armed notice output other h = tt
noticed-Watches (accepting l w e) armed notice output other h = tt
noticed-Watches (checking r w e) armed notice output other h = tt
noticed-Watches (deciding r) armed notice output other h = tt

-- The same when the sources are armed with a notice.
rearmed-Watches :
    (p : Phase) (armed notice : Bool) (output : OutputInterest)
    → Watches p armed notice output
    → Watches p true true output
unfolding Watches
rearmed-Watches (loaded true) armed notice output h = refl
rearmed-Watches (loaded false) armed notice output h = refl
rearmed-Watches (polling true w) armed notice output h = (refl, λ quiet id. ground arith)
rearmed-Watches (polling false w) armed notice output h = refl
rearmed-Watches top armed notice output h = tt
rearmed-Watches waking armed notice output h = tt
rearmed-Watches ended armed notice output h = tt
rearmed-Watches (polled w p) armed notice output h = tt
rearmed-Watches (draining w p) armed notice output h = tt
rearmed-Watches (drained w p) armed notice output h = tt
rearmed-Watches (accepting l w e) armed notice output h = tt
rearmed-Watches (checking r w e) armed notice output h = tt
rearmed-Watches (deciding r) armed notice output h = tt

known_same :
    (removed blocked : List ℕ) (output : OutputInterest) (id : ℕ)
    → (apply_interest removed blocked output).1 ≡ false
    → (set_contains id output.blocked && set_contains id output.clients) ≡ (
        set_contains id (apply_interest removed blocked output).0.blocked
        && set_contains id (apply_interest removed blocked output).0.clients)
unfolding apply_interest
known_same removed blocked output id quiet =
    let test = λ (j : ℕ). not (set_contains j removed) in
    let as_many : (length output.clients == length (keep test output.clients)) ≡ true =
      ground arith in
    let as_before : set_eq output.blocked blocked ≡ true = ground arith in
    let clients = keep_same test output.clients ((==_iff _ _).0 as_many) in
    let blocked_same = set_eq_sound id output.blocked blocked as_before in
    rw (clients, blocked_same) refl

interest-Watches :
    (p : Phase) (armed notice : Bool) (removed blocked : List ℕ) (output : OutputInterest)
    → (apply_interest removed blocked output).1 ≡ false
    → Watches p armed notice output
    → Watches p armed notice (apply_interest removed blocked output).0
unfolding Watches
interest-Watches (loaded true) armed notice removed blocked output quiet h = h
interest-Watches (loaded false) armed notice removed blocked output quiet h = h
interest-Watches (polling true w) armed notice removed blocked output quiet h =
    (h.0, λ n id. h.1 n id ∙ known_same removed blocked output id quiet)
interest-Watches (polling false w) armed notice removed blocked output quiet h = h
interest-Watches top armed notice removed blocked output quiet h = tt
interest-Watches waking armed notice removed blocked output quiet h = tt
interest-Watches ended armed notice removed blocked output quiet h = tt
interest-Watches (polled w p) armed notice removed blocked output quiet h = tt
interest-Watches (draining w p) armed notice removed blocked output quiet h = tt
interest-Watches (drained w p) armed notice removed blocked output quiet h = tt
interest-Watches (accepting l w e) armed notice removed blocked output quiet h = tt
interest-Watches (checking r w e) armed notice removed blocked output quiet h = tt
interest-Watches (deciding r) armed notice removed blocked output quiet h = tt

pub set_output_interest-IsWatching :
    (removed blocked : List ℕ) (s : Source)
    → IsWatching s
    → IsWatching (set_output_interest removed blocked s)
unfolding IsWatching set_output_interest
set_output_interest-IsWatching removed blocked s (watches, owed) =
    let next = (apply_interest removed blocked s.output).0 in
    elim (Bool-cases (apply_interest removed blocked s.output).1) [
      | inl changed ↦ rw changed (
        noticed-Watches s.phase s.armed (s.notice_due || s.has_notice) s.output next watches,
        owed,
      )
      | inr quiet ↦ rw quiet (
        interest-Watches s.phase s.armed (s.notice_due || s.has_notice) removed blocked s.output
            quiet watches,
        owed,
      )
    ]

pub rearm-IsWatching : (s : Source) → IsWatching s → IsWatching (rearm s)
unfolding IsWatching rearm
rearm-IsWatching s (watches, owed) = elim (Bool-cases s.armed) [
  | inl was ↦
      rw was
        (subst (λ b. Watches s.phase b (s.notice_due || s.has_notice) s.output) was watches, refl)
  | inr unset ↦
      rw unset
        (rearmed-Watches s.phase s.armed (s.notice_due || s.has_notice) s.output watches, refl)
]

pub stop-IsWatching : (s : Source) → IsWatching s → IsWatching (stop s)
unfolding IsWatching stop
stop-IsWatching s (watches, owed) =
    (noticed-Watches s.phase s.armed (s.notice_due || s.has_notice) s.output s.output watches, owed)

pub notify-IsWatching :
    (s : Source) → IsWatching s → IsWatching (if s.notice_due then notify s else s)
unfolding IsWatching notify
notify-IsWatching s (watches, owed) = elim (Bool-cases s.notice_due) [
  | inl due ↦ rw due (
    noticed-Watches s.phase s.armed (s.notice_due || s.has_notice) s.output s.output watches,
    owed,
  )
  | inr none_due ↦ rw none_due (rw none_due at watches, owed)
]

pub join-IsWatching :
    (p : Phase) (s : Source) → s.phase ≡ p → IsWatching s → IsWatching (after_join p s)
unfolding IsWatching after_join Watches
join-IsWatching ended s e (watches, owed) = rw e (tt, owed-ended s.armed s.is_woken)
join-IsWatching top s e h = h
join-IsWatching waking s e h = h
join-IsWatching (loaded a) s e h = h
join-IsWatching (polling a w) s e h = h
join-IsWatching (polled w p) s e h = h
join-IsWatching (draining w p) s e h = h
join-IsWatching (drained w p) s e h = h
join-IsWatching (accepting l w es) s e h = h
join-IsWatching (checking r w es) s e h = h
join-IsWatching (deciding r) s e h = h
