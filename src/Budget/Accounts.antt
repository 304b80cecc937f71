-- ===== src/Budget/Accounts.antt =====
-- The counters are the sums over the live reservations, and the global ones stay within the limits.
use cocoa_way.Base.{
  ℕ, ◌≡◌, refl, sym, ◌∙◌, inl, inr, ◌||◌, Option, List, [], ◌∷◌, ltb, ◌==◌, arith, Option-cases,
  Bool-cases,
}
use cocoa_way.Budget.{
  Budget, Limits, Reservation, find, adjust, under_pressure, credit_of, try_reserve_replacing,
  take_waiters, notify_client, notify_waiter, drop_reservation, set_retired, begin_read, end_read,
}
use cocoa_way.Budget.Sums.{total-remove, total-adjust}
use cocoa_way.Budget.Steps.{
  Op, reserve, defer, take, notify, drop, retire, read, unread, close_client, step, run, start,
}
use cocoa_way.Budget.Ledger.{
  IsAccounted, charge-IsAccounted, one, oversized_one, oversized_size, own, size, start-IsAccounted,
  update-Account, wait-IsAccounted,
}

reserve-IsAccounted :
    (b : Budget) (bytes wake : ℕ) (idle : Option ℕ)
    → IsAccounted b
    → IsAccounted (try_reserve_replacing b bytes wake idle).0
unfolding try_reserve_replacing
reserve-IsAccounted b bytes wake idle v =
    elim (Bool-cases ((bytes == 0) || ltb b.limits.max_bytes bytes)) [
      | inl large ↦ rw (large, try_reserve_replacing) v
      | inr fits ↦ elim (Bool-cases (under_pressure b bytes wake (credit_of b wake idle))) [
        | inl full ↦ rw (fits, full, try_reserve_replacing) (wait-IsAccounted b wake v)
        | inr room ↦
            rw (fits, room, try_reserve_replacing) (charge-IsAccounted b bytes wake _ room v)
      ]
    ]

drop-IsAccounted : (b : Budget) (i : ℕ) → IsAccounted b → IsAccounted (drop_reservation b i)
unfolding drop_reservation
drop-IsAccounted b i v = elim (Option-cases (find i b.live)) [
  | inl gone ↦ rw (gone, drop_reservation) v
  | inr (r, there) ↦
      rw (there, drop_reservation)
        (record {
          bytes = omega (arith, v.bytes, total-remove size i b.live r there);
          allocations = omega (arith, v.allocations, total-remove one i b.live r there);
          bytes_within = omega (arith, v.bytes_within);
          allocations_within = omega (arith, v.allocations_within);
          accounts = λ c. ground (
            arith,
            v.accounts c,
            total-remove (own c size) i b.live r there,
            total-remove (own c one) i b.live r there,
            total-remove (own c oversized_size) i b.live r there,
            total-remove (own c oversized_one) i b.live r there,
          );
        })
]

-- A change of `retired` or `readers`.
adjust-IsAccounted :
    (b : Budget) (i : ℕ) (f : Reservation → Reservation)
    → ((r : Reservation)
        → ((f r).client ≡ r.client) × ((f r).bytes ≡ r.bytes) × ((f r).oversized ≡ r.oversized))
    → IsAccounted b
    → IsAccounted (record b { live = adjust i f b.live })
adjust-IsAccounted b i f same v = record {
  bytes = v.bytes ∙ sym (total-adjust size i f b.live (λ r. (same r).1));
  allocations = v.allocations ∙ sym (total-adjust one i f b.live (λ r. refl));
  bytes_within = v.bytes_within;
  allocations_within = v.allocations_within;
  accounts = λ c.
      let a = v.accounts c in
      record {
        bytes = a.bytes ∙ sym (total-adjust (own c size) i f b.live (λ r. ground (arith, same r)));
        allocations =
            a.allocations ∙ sym (total-adjust (own c one) i f b.live (λ r. ground (arith, same r)));
        oversized_bytes =
            a.oversized_bytes
            ∙ sym (total-adjust (own c oversized_size) i f b.live (λ r. ground (arith, same r)));
        oversized_allocations =
            a.oversized_allocations
            ∙ sym (total-adjust (own c oversized_one) i f b.live (λ r. ground (arith, same r)));
      };
}

notify-IsAccounted : (b : Budget) → IsAccounted b → IsAccounted (notify_waiter b)
unfolding notify_waiter notify_client
notify-IsAccounted b v = go b.in_flight refl
  where
    go : (ws : List ℕ) → b.in_flight ≡ ws → IsAccounted (notify_waiter b)
    go [] e = rw (e, notify_waiter) v
    go (w ∷ ws) e =
        rw (e, notify_waiter)
          (record {
            bytes = v.bytes;
            allocations = v.allocations;
            bytes_within = v.bytes_within;
            allocations_within = v.allocations_within;
            accounts = update-Account b.clients w _ b.live (ground arith) v.accounts;
          })

pub step-IsAccounted : (b : Budget) (o : Op) → IsAccounted b → IsAccounted (step b o)
unfolding step take_waiters set_retired begin_read end_read
step-IsAccounted b (reserve bytes wake idle) v = reserve-IsAccounted b bytes wake idle v
step-IsAccounted b (defer wake) v = wait-IsAccounted b wake v
step-IsAccounted b take v = record {
  bytes = v.bytes;
  allocations = v.allocations;
  bytes_within = v.bytes_within;
  allocations_within = v.allocations_within;
  accounts = v.accounts;
}
step-IsAccounted b notify v = notify-IsAccounted b v
step-IsAccounted b (drop i) v = drop-IsAccounted b i v
step-IsAccounted b (retire i retired) v = adjust-IsAccounted b i _ (λ r. (refl, refl, refl)) v
step-IsAccounted b (read i) v = adjust-IsAccounted b i _ (λ r. (refl, refl, refl)) v
step-IsAccounted b (unread i) v = adjust-IsAccounted b i _ (λ r. (refl, refl, refl)) v
step-IsAccounted b (close_client c) v = record {
  bytes = v.bytes;
  allocations = v.allocations;
  bytes_within = v.bytes_within;
  allocations_within = v.allocations_within;
  accounts = update-Account b.clients c _ b.live (refl, refl, refl, refl) v.accounts;
}

pub run-IsAccounted : (b : Budget) (os : List Op) → IsAccounted b → IsAccounted (run b os)
unfolding run
run-IsAccounted b [] v = v
run-IsAccounted b (o ∷ os) v = run-IsAccounted (step b o) os (step-IsAccounted b o v)

-- From an empty budget no sequence of steps, in any order of threads, lets the bytes or the
-- allocations pass their global limits, or parts a counter, global or of a client, from the sum
-- over the reservations that are alive.
pub run-start-IsAccounted : (limits : Limits) (os : List Op) → IsAccounted (run (start limits) os)
run-start-IsAccounted limits os = run-IsAccounted (start limits) os (start-IsAccounted limits)
