-- ===== src/Cleanup/Backoff.antt =====
-- When a failed cleanup is tried again, and the timer that the loop sets for it.
use native.Mathlib.Nat.{pow-le-pow_right}
use cocoa_way.Base.{
  ℕ, zero, suc, ◌+◌, ◌-◌, ◌^◌, ◌≤◌, ◌<◌, min, ◌≡◌, refl, ap, inl, inr, Bool, Option, none, some,
  List, [], ◌∷◌, ◌++◌, lt→ltb, arith, Option-cases, length, get_elem?,
}
use cocoa_way.Cleanup.{Entry, Queue, backoff, retried, retry, earliest, next_wakeup}

-- From 100 ms to 25.6 s.
backoff-bounds : (failures : ℕ) → (100000000 ≤ backoff failures) × (backoff failures ≤ 25600000000)
unfolding backoff
backoff-bounds failures =
    let positive : 0 < 2 = omega arith in
    let exponent = min (failures - 1) 8 in
    let small : exponent ≤ 8 = omega arith in
    let least : 0 ≤ exponent = omega arith in
    let low : 2 ^ 0 ≤ 2 ^ exponent = pow-le-pow_right positive least in
    let high : 2 ^ exponent ≤ 2 ^ 8 = pow-le-pow_right positive small in
    (omega (arith, low), omega (arith, high))

-- A failure keeps the key, the job and the running jobs; the entry is pending again, at the end, and
-- is ready between 100 ms and 25.6 s later.
pub retry_lem :
    (q : Queue) (e : Entry) (error : ℕ) (notify : Bool) (now : ℕ)
    → let q' = retry q e error notify now in
      (e' : Entry) × (q'.pending ≡ q.pending ++ e' ∷ [])
      × (q'.running ≡ q.running)
      × (e'.key ≡ e.key)
      × (e'.job ≡ e.job)
      × (e'.last_error ≡ some error)
      × (now + 100000000 ≤ e'.ready_at)
      × (e'.ready_at ≤ now + 25600000000)
unfolding retry retried
retry_lem q e error notify now =
    let (low, high) = backoff-bounds (min (e.failures + 1) (2 ^ 32 - 1)) in
    (retried e error now, refl, refl, refl, refl, refl, omega (arith, low), omega (arith, high))

earliest-le :
    (es : List Entry) (i : ℕ) (e : Entry)
    → get_elem? es i ≡ some e
    → (t : ℕ) × (earliest es ≡ some t) × (t ≤ e.ready_at)
earliest-le [] i e there = cc
earliest-le (x ∷ es) zero e there = elim (Option-cases (earliest es)) [
  | inl alone ↦ (x.ready_at, rw alone, omega (arith, ap ready there))
  | inr (t, later) ↦ (min x.ready_at t, rw later, omega (arith, ap ready there))
]
  where
    ready : Option Entry → ℕ
    ready none = 0
    ready (some f) = f.ready_at
earliest-le (x ∷ es) (suc i) e there =
    let (t, later, le) = earliest-le es i e there in (min x.ready_at t, rw later, omega (arith, le))

-- While a worker is free the queue asks for a wake-up no later than the time at which any pending
-- entry is ready.
pub next_wakeup-le :
    (q : Queue) (i : ℕ) (e : Entry)
    → get_elem? q.pending i ≡ some e
    → length q.running < 2
    → (t : ℕ) × (next_wakeup q ≡ some t) × (t ≤ e.ready_at)
unfolding next_wakeup
next_wakeup-le q i e there room =
    let (t, found, le) = earliest-le q.pending i e there in
    (t, rw (lt→ltb (length q.running) 2 room, found, next_wakeup), le)
