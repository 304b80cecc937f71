-- ===== src/Budget/Wakes.antt =====
-- No deferred admission is forgotten, and none is announced twice.
use cocoa_way.Base.{
  ℕ, ◌+◌, ◌≡◌, refl, ap, ◌∙◌, inl, inr, true, ◌||◌, Option, List, [], ◌∷◌, ◌++◌, ltb, ◌==◌, nat_of,
  arith, Option-cases, Bool-cases, count, count-append, length,
}
use cocoa_way.Budget.{
  Budget, Client, Limits, find, wait, keep_alive, charge, under_pressure, credit_of,
  try_reserve_replacing, take_waiters, notify_client, notify_waiter, notify_all, wake_waiters,
  drop_reservation, set_retired, begin_read, end_read, with_client_limits,
}
use cocoa_way.Budget.Steps.{
  Op, reserve, defer, take, notify, drop, retire, read, unread, close_client, step, run, start,
}

-- The notifications that client `c` has still to get.
abbrev pub owed : Budget → ℕ → ℕ
owed b c = count c b.waiters + count c b.in_flight

-- A client that is alive stands in the lists once if it waits, and not at all if it does not.
abbrev pub IsQueued : Budget → Type 0
IsQueued b = (c : ℕ) → (b.clients c).alive ≡ true → owed b c ≡ nat_of (b.clients c).waiting

count-keep_alive :
    (clients : ℕ → Client) (c : ℕ) (cs : List ℕ)
    → (clients c).alive ≡ true
    → count c (keep_alive clients cs) ≡ count c cs
unfolding keep_alive
count-keep_alive clients c [] h = refl
count-keep_alive clients c (x ∷ xs) h = ground (arith, count-keep_alive clients c xs h)

wait-IsQueued : (b : Budget) (wake : ℕ) → IsQueued b → IsQueued (wait b wake)
unfolding wait
wait-IsQueued b wake q c h = elim (Bool-cases (b.clients wake).waiting) [
  | inl set ↦ rw (set, wait) (q c (rw (set, wait) at h))
  | inr clear ↦
      let alive : (b.clients c).alive ≡ true = ground arith in
      rw (clear, wait)
        (ground (
          arith,
          q c alive,
          count-append (keep_alive b.clients b.waiters) (wake ∷ []) c,
          count-keep_alive b.clients c b.waiters alive,
        ))
]

-- The counters of a charge and of a drop are no flags.
charge-IsQueued : (b : Budget) (bytes wake : ℕ) → IsQueued b → IsQueued (charge b bytes wake)
unfolding charge
charge-IsQueued b bytes wake q c h = ground (arith, q c)

reserve-IsQueued :
    (b : Budget) (bytes wake : ℕ) (idle : Option ℕ)
    → IsQueued b
    → IsQueued (try_reserve_replacing b bytes wake idle).0
unfolding try_reserve_replacing
reserve-IsQueued b bytes wake idle q =
    elim (Bool-cases ((bytes == 0) || ltb b.limits.max_bytes bytes)) [
      | inl large ↦ rw (large, try_reserve_replacing) q
      | inr fits ↦ elim (Bool-cases (under_pressure b bytes wake (credit_of b wake idle))) [
        | inl full ↦ rw (fits, full, try_reserve_replacing) (wait-IsQueued b wake q)
        | inr room ↦ rw (fits, room, try_reserve_replacing) (charge-IsQueued b bytes wake q)
      ]
    ]

take-IsQueued : (b : Budget) → IsQueued b → IsQueued (take_waiters b)
unfolding take_waiters
take-IsQueued b q c h = omega (arith, q c h, count-append b.waiters b.in_flight c)

drop-IsQueued : (b : Budget) (i : ℕ) → IsQueued b → IsQueued (drop_reservation b i)
unfolding drop_reservation
drop-IsQueued b i q c = elim (Option-cases (find i b.live)) [
  | inl gone ↦ rw (gone, drop_reservation) (q c)
  | inr (r, there) ↦
      rw (there, drop_reservation) (λ h. ground (arith, q c, count-append b.in_flight b.waiters c))
]

notify-IsQueued : (b : Budget) → IsQueued b → IsQueued (notify_waiter b)
unfolding notify_waiter notify_client
notify-IsQueued b q = go b.in_flight refl
  where
    go : (ws : List ℕ) → b.in_flight ≡ ws → IsQueued (notify_waiter b)
    go [] e = rw (e, notify_waiter) q
    go (w ∷ ws) e = rw (e, notify_waiter) (λ c h. ground (arith, q c))

step-IsQueued : (b : Budget) (o : Op) → IsQueued b → IsQueued (step b o)
unfolding step set_retired begin_read end_read
step-IsQueued b (reserve bytes wake idle) q = reserve-IsQueued b bytes wake idle q
step-IsQueued b (defer wake) q = wait-IsQueued b wake q
step-IsQueued b take q = take-IsQueued b q
step-IsQueued b notify q = notify-IsQueued b q
step-IsQueued b (drop i) q = drop-IsQueued b i q
step-IsQueued b (retire i retired) q = q
step-IsQueued b (read i) q = q
step-IsQueued b (unread i) q = q
step-IsQueued b (close_client c) q = λ d h. ground (arith, q d)

run-IsQueued : (b : Budget) (os : List Op) → IsQueued b → IsQueued (run b os)
unfolding run
run-IsQueued b [] q = q
run-IsQueued b (o ∷ os) q = run-IsQueued (step b o) os (step-IsQueued b o q)

-- After any sequence of steps a client that is alive and waits is queued for exactly one
-- notification, and one that does not wait for none.
pub run-start-IsQueued : (limits : Limits) (os : List Op) → IsQueued (run (start limits) os)
run-start-IsQueued limits os = run-IsQueued (start limits) os first
  where
    first : IsQueued (start limits)
    first c h = unfold start with_client_limits in refl

-- What a notification keeps of a client that is alive: its debt is paid by a call of `notify`.
record Paid (b b' : Budget) (c : ℕ) : Type 0 where
  alive : (b'.clients c).alive ≡ (b.clients c).alive
  paid :
      (b.clients c).alive ≡ true
      → (b'.clients c).notified + nat_of (b'.clients c).waiting
        ≡ (b.clients c).notified + nat_of (b.clients c).waiting
  waiters : b'.waiters ≡ b.waiters

notify-Paid :
    (b : Budget) (w : ℕ) (ws : List ℕ) (c : ℕ) → b.in_flight ≡ w ∷ ws → Paid b (notify_waiter b) c
unfolding notify_waiter notify_client
notify-Paid b w ws c e = rw (e, notify_waiter) (ground arith)

in_flight-notify :
    (b : Budget) (w : ℕ) (ws : List ℕ) → b.in_flight ≡ w ∷ ws → (notify_waiter b).in_flight ≡ ws
unfolding notify_waiter
in_flight-notify b w ws e = rw (e, notify_waiter)

-- A call that notifies the waiters `ws`, which stand in front, leaves the rest.
notify_all-Paid :
    (ws rest : List ℕ) (b : Budget) (c : ℕ)
    → b.in_flight ≡ ws ++ rest
    → IsQueued b
    → let b' = notify_all (length ws) b in Paid b b' c × (b'.in_flight ≡ rest) × IsQueued b'
unfolding notify_all
notify_all-Paid [] rest b c e q = (record { alive = refl; paid = λ h. refl; waiters = refl }, e, q)
notify_all-Paid (w ∷ ws) rest b c e q =
    let (later, done, queued) =
      notify_all-Paid ws rest (notify_waiter b) c (in_flight-notify b w (ws ++ rest) e)
        (notify-IsQueued b q) in
    let now = notify-Paid b w (ws ++ rest) c e in
    (
      record {
        alive = later.alive ∙ now.alive;
        paid = λ h. later.paid (now.alive ∙ h) ∙ now.paid h;
        waiters = later.waiters ∙ now.waiters;
      },
      done,
      queued,
    )

-- What a wake leaves of a client, where `k` is the client after it.
abbrev pub Woken : Budget → ℕ → Client → Type 0
Woken b c k =
    (nat_of k.waiting ≡ count c b.in_flight)
    × (k.notified ≡ (b.clients c).notified + count c b.waiters)
    × (nat_of (b.clients c).waiting ≡ count c b.waiters + count c b.in_flight)

wakes_of_queued :
    (b : Budget) (c : ℕ)
    → IsQueued b
    → (b.clients c).alive ≡ true
    → Woken b c ((wake_waiters b).clients c)
unfolding wake_waiters take_waiters
wakes_of_queued b c q h =
    let t = take_waiters b in
    let (paid, done, queued) = notify_all-Paid b.waiters b.in_flight t c refl (take-IsQueued b q) in
    settle (wake_waiters b) paid done (queued c (paid.alive ∙ h)) (q c h)
  where
    settle :
        (b' : Budget)
        → Paid (take_waiters b) b' c
        → b'.in_flight ≡ b.in_flight
        → owed b' c ≡ nat_of (b'.clients c).waiting
        → owed b c ≡ nat_of (b.clients c).waiting
        → Woken b c (b'.clients c)
    settle b' paid done owes owed_before =
        ground (arith, ap (count c) done, ap (count c) paid.waiters, paid.paid h, owed_before)

-- A wake calls `notify` once for each client that is alive and stands among the waiters, and for no
-- other client that is alive, whatever steps came before; what another thread has taken and not
-- notified yet it leaves to that thread. A client that is alive and waits stands once in one of the
-- two lists, one that does not wait in neither; after the wake those wait that another thread has
-- still to notify.
pub wake_waiters_lem :
    (limits : Limits) (os : List Op) (c : ℕ)
    → ((run (start limits) os).clients c).alive ≡ true
    → let b = run (start limits) os in
      let k = (wake_waiters b).clients c in
      (nat_of k.waiting ≡ count c b.in_flight)
      × (k.notified ≡ (b.clients c).notified + count c b.waiters)
      × (nat_of (b.clients c).waiting ≡ count c b.waiters + count c b.in_flight)
wake_waiters_lem limits os c h =
    wakes_of_queued (run (start limits) os) c (run-start-IsQueued limits os) h
