-- ===== src/Budget/Shares.antt =====
-- What one client can hold. A reservation that replaces an idle one is admitted against the share
-- less the idle one's charge, and both stay charged until the old one is dropped; so a client may
-- pass its share by one replacement, and by no more, however often it replaces.
use cocoa_way.Base.{
  ℕ, ◌≡◌, refl, ◌⊎◌, inl, inr, Bool, true, ◌||◌, Option, none, List, [], ◌∷◌, ltb, ◌==◌, arith,
  Option-cases, Bool-cases, update, All,
}
use cocoa_way.Budget.{
  Budget, Client, Limits, find, wait, under_pressure, credit_of, try_reserve_replacing,
  take_waiters, notify_client, notify_waiter, drop_reservation, set_retired, begin_read, end_read,
  with_client_limits,
}
use cocoa_way.Budget.Sums.{weight-le-total}
use cocoa_way.Budget.Steps.{
  Op, reserve, defer, take, notify, drop, retire, read, unread, close_client, step, run, start,
}
use cocoa_way.Budget.Ledger.{
  IsAccounted, size, oversized_size, own, start-IsAccounted, charge-IsAccounted,
}
use cocoa_way.Budget.Accounts.{step-IsAccounted}
use cocoa_way.Budget.Marks.{
  charge-Share, Asks, IsMarked, IsShared, Share, adjust-IsMarked, credit_of-Credits,
  remove-IsMarked,
}

-- Flags leave a share as it is.
update-Share :
    (replacing : Bool) (l : Limits) (clients : ℕ → Client) (i c : ℕ) (k : Client)
    → (k.bytes ≡ (clients i).bytes)
      × (k.oversized_bytes ≡ (clients i).oversized_bytes)
      × (k.oversized_allocations ≡ (clients i).oversized_allocations)
      × (k.allocations ≡ (clients i).allocations)
    → Share replacing l (clients c)
    → Share replacing l (update clients i k c)
update-Share replacing l clients i c k same v = ground arith

wait-Share :
    (replacing : Bool) (b : Budget) (wake c : ℕ)
    → Share replacing b.limits (b.clients c)
    → Share replacing b.limits ((wait b wake).clients c)
unfolding wait
wait-Share replacing b wake c v = ground arith

wait-IsMarked :
    (m : ℕ) (b : Budget) (wake : ℕ)
    → All (IsMarked m) b.live
    → (All (IsMarked m) (wait b wake).live) × ((wait b wake).limits ≡ b.limits)
unfolding wait
wait-IsMarked m b wake a = elim (Bool-cases (b.clients wake).waiting) [
  | inl set ↦ rw (set, wait) (a, refl)
  | inr clear ↦ rw (clear, wait) (a, refl)
]

-- A drop takes a reservation's charge, oversized or not, from its own client.
drop-Share :
    (replacing : Bool) (b : Budget) (i c : ℕ)
    → IsAccounted b
    → Share replacing b.limits (b.clients c)
    → Share replacing b.limits ((drop_reservation b i).clients c)
unfolding drop_reservation
drop-Share replacing b i c v s = elim (Option-cases (find i b.live)) [
  | inl gone ↦ rw (gone, drop_reservation) s
  | inr (r, there) ↦
      rw (there, drop_reservation)
        (ground (
          arith,
          (v.accounts c).oversized_bytes,
          (v.accounts c).bytes,
          weight-le-total (own c oversized_size) i b.live r there,
          weight-le-total (own c size) i b.live r there,
        ))
]

drop-IsMarked :
    (m i : ℕ) (b : Budget)
    → All (IsMarked m) b.live
    → (All (IsMarked m) (drop_reservation b i).live) × ((drop_reservation b i).limits ≡ b.limits)
unfolding drop_reservation
drop-IsMarked m i b a = elim (Option-cases (find i b.live)) [
  | inl gone ↦ rw (gone, drop_reservation) (a, refl)
  | inr (r, there) ↦ rw (there, drop_reservation) (remove-IsMarked m i b.live a, refl)
]

wait-IsShared :
    (replacing : Bool) (b : Budget) (wake : ℕ)
    → IsShared replacing b
    → IsShared replacing (wait b wake)
unfolding step
wait-IsShared replacing b wake v =
    let (marked, same) = wait-IsMarked b.limits.max_client_bytes b wake v.marked in
    record {
      accounted = step-IsAccounted b (defer wake) v.accounted;
      marked = rw same marked;
      shares = λ c. rw same (wait-Share replacing b wake c (v.shares c));
    }

drop-IsShared :
    (replacing : Bool) (b : Budget) (i : ℕ)
    → IsShared replacing b
    → IsShared replacing (drop_reservation b i)
unfolding step
drop-IsShared replacing b i v =
    let (marked, same) = drop-IsMarked b.limits.max_client_bytes i b v.marked in
    record {
      accounted = step-IsAccounted b (drop i) v.accounted;
      marked = rw same marked;
      shares = λ c. rw same (drop-Share replacing b i c v.accounted (v.shares c));
    }

reserve-IsShared :
    (replacing : Bool) (b : Budget) (bytes wake : ℕ) (idle : Option ℕ)
    → (idle ≡ none) ⊎ (replacing ≡ true)
    → IsShared replacing b
    → IsShared replacing (try_reserve_replacing b bytes wake idle).0
unfolding try_reserve_replacing
reserve-IsShared replacing b bytes wake idle asks v =
    elim (Bool-cases ((bytes == 0) || ltb b.limits.max_bytes bytes)) [
      | inl large ↦ rw (large, try_reserve_replacing) v
      | inr fits ↦ elim (Bool-cases (under_pressure b bytes wake (credit_of b wake idle))) [
        | inl full ↦ rw (fits, full, try_reserve_replacing) (wait-IsShared replacing b wake v)
        | inr room ↦
            let credits = credit_of-Credits replacing b wake idle asks v.marked in
            rw (fits, room, try_reserve_replacing)
              (record {
                accounted = charge-IsAccounted b bytes wake _ room v.accounted;
                marked = (refl, v.marked);
                shares = λ c. charge-Share replacing b bytes wake _ credits room c (v.shares c);
              })
      ]
    ]

notify-IsShared :
    (replacing : Bool) (b : Budget) → IsShared replacing b → IsShared replacing (notify_waiter b)
unfolding notify_waiter notify_client step
notify-IsShared replacing b v = go b.in_flight refl
  where
    go : (ws : List ℕ) → b.in_flight ≡ ws → IsShared replacing (notify_waiter b)
    go [] e = rw (e, notify_waiter) v
    go (w ∷ ws) e =
        let accounted = rw (e, notify_waiter) at (step-IsAccounted b notify v.accounted) in
        rw (e, notify_waiter)
          (record {
            accounted = accounted;
            marked = v.marked;
            shares =
                λ c. update-Share replacing b.limits b.clients w c _ (ground arith) (v.shares c);
          })

pub step-IsShared :
    (replacing : Bool) (b : Budget) (o : Op)
    → Asks replacing o
    → IsShared replacing b
    → IsShared replacing (step b o)
unfolding step take_waiters set_retired begin_read end_read
step-IsShared replacing b (reserve bytes wake idle) asks v =
    reserve-IsShared replacing b bytes wake idle asks v
step-IsShared replacing b (defer wake) asks v = wait-IsShared replacing b wake v
step-IsShared replacing b take asks v = record {
  accounted = step-IsAccounted b take v.accounted;
  marked = v.marked;
  shares = v.shares;
}
step-IsShared replacing b notify asks v = notify-IsShared replacing b v
step-IsShared replacing b (drop i) asks v = drop-IsShared replacing b i v
step-IsShared replacing b (retire i retired) asks v = record {
  accounted = step-IsAccounted b (retire i retired) v.accounted;
  marked = adjust-IsMarked _ i _ b.live (λ r. (refl, refl)) v.marked;
  shares = v.shares;
}
step-IsShared replacing b (read i) asks v = record {
  accounted = step-IsAccounted b (read i) v.accounted;
  marked = adjust-IsMarked _ i _ b.live (λ r. (refl, refl)) v.marked;
  shares = v.shares;
}
step-IsShared replacing b (unread i) asks v = record {
  accounted = step-IsAccounted b (unread i) v.accounted;
  marked = adjust-IsMarked _ i _ b.live (λ r. (refl, refl)) v.marked;
  shares = v.shares;
}
step-IsShared replacing b (close_client c) asks v = record {
  accounted = step-IsAccounted b (close_client c) v.accounted;
  marked = v.marked;
  shares =
      λ d. update-Share replacing b.limits b.clients c d _ (refl, refl, refl, refl) (v.shares d);
}

start-IsShared : (replacing : Bool) (limits : Limits) → IsShared replacing (start limits)
unfolding start with_client_limits
start-IsShared replacing limits = record {
  accounted = start-IsAccounted limits;
  marked = tt;
  shares = λ c. record { normal = omega arith; oversized = omega arith; allocations = omega arith };
}

pub run-IsShared :
    (replacing : Bool) (b : Budget) (os : List Op)
    → All (Asks replacing) os
    → IsShared replacing b
    → IsShared replacing (run b os)
unfolding run
run-IsShared replacing b [] asks v = v
run-IsShared replacing b (o ∷ os) asks v =
    run-IsShared replacing (step b o) os asks.1 (step-IsShared replacing b o asks.0 v)

-- From an empty budget, whatever the steps: each client holds at most its share of bytes, one
-- oversized reservation and its share of allocations if no idle version is ever credited, and at
-- most one replacement more (twice the bytes, a second oversized one, one allocation) if some are.
pub run-start-IsShared :
    (replacing : Bool) (limits : Limits) (os : List Op) (c : ℕ)
    → All (Asks replacing) os
    → Share replacing (run (start limits) os).limits ((run (start limits) os).clients c)
run-start-IsShared replacing limits os c asks =
    (run-IsShared replacing (start limits) os asks (start-IsShared replacing limits)).shares c
