-- ===== src/Budget/Steps.antt =====
-- The budget as a machine: one step for each thing that a thread does under the lock, and for each
-- round of a notification.
use cocoa_way.Base.{ℕ, Bool, Option, List, [], ◌∷◌, false, update}
use cocoa_way.Budget.{
  Budget, Limits, new_client, with_client_limits, try_reserve_replacing, wait, take_waiters,
  notify_waiter, drop_reservation, set_retired, begin_read, end_read,
}

pub data Op : Type 0 where
  reserve : ℕ → ℕ → Option ℕ → Op
  defer : ℕ → Op
  take : Op
  notify : Op
  drop : ℕ → Op
  retire : ℕ → Bool → Op
  read : ℕ → Op
  unread : ℕ → Op
  close_client : ℕ → Op

unfoldable pub step : Budget → Op → Budget
step b (reserve bytes wake idle) = (try_reserve_replacing b bytes wake idle).0
step b (defer wake) = wait b wake
step b take = take_waiters b
step b notify = notify_waiter b
step b (drop i) = drop_reservation b i
step b (retire i retired) = set_retired b i retired
step b (read i) = begin_read b i
step b (unread i) = end_read b i
step b (close_client c) = record b {
  clients = update b.clients c (record (b.clients c) { alive = false });
}

unfoldable pub run : Budget → List Op → Budget
run b [] = b
run b (o ∷ os) = run (step b o) os

unfoldable pub start : Limits → Budget
start limits = with_client_limits limits (λ _. new_client)
