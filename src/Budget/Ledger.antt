-- ===== src/Budget/Ledger.antt =====
-- The counters as sums over the live reservations, and how a charge changes them.
use cocoa_way.Base.{
  ℕ, ◌-◌, ◌≤◌, ◌<◌, ◌≡◌, refl, inl, inr, false, Option, List, ◌==◌, if◌then◌else◌, arith,
  Bool-cases, update,
}
use cocoa_way.Budget.{
  Budget, Client, Limits, Reservation, wait, charge, under_pressure, with_client_limits,
}
use cocoa_way.Budget.Sums.{total}
use cocoa_way.Budget.Steps.{start}

abbrev pub size : Reservation → ℕ
size r = r.bytes

abbrev pub one : Reservation → ℕ
one r = 1

abbrev pub oversized_size : Reservation → ℕ
oversized_size r = if r.oversized then r.bytes else 0

abbrev pub oversized_one : Reservation → ℕ
oversized_one r = if r.oversized then 1 else 0

-- The share of client `c` in a weight.
abbrev pub own : ℕ → (Reservation → ℕ) → Reservation → ℕ
own c w r = if r.client == c then w r else 0

-- The counters of client `c` against the reservations that are live.
pub record Account (c : ℕ) (k : Client) (live : List Reservation) : Type 0 where
  pub bytes : k.bytes ≡ total (own c size) live
  pub allocations : k.allocations ≡ total (own c one) live
  pub oversized_bytes : k.oversized_bytes ≡ total (own c oversized_size) live
  pub oversized_allocations : k.oversized_allocations ≡ total (own c oversized_one) live

pub record IsAccounted (b : Budget) : Type 0 where
  pub bytes : b.bytes ≡ total size b.live
  pub allocations : b.allocations ≡ total one b.live
  pub bytes_within : b.bytes ≤ b.limits.max_bytes
  pub allocations_within : b.allocations ≤ b.limits.max_allocations
  pub accounts : (c : ℕ) → Account c (b.clients c) b.live

pub start-IsAccounted : (limits : Limits) → IsAccounted (start limits)
unfolding start with_client_limits total
start-IsAccounted limits = record {
  bytes = refl;
  allocations = refl;
  bytes_within = omega arith;
  allocations_within = omega arith;
  accounts = λ c. record {
    bytes = refl;
    allocations = refl;
    oversized_bytes = refl;
    oversized_allocations = refl;
  };
}

-- `wait` and the notifications touch flags alone.
abbrev pub SameCounters : Client → Client → Type 0
SameCounters k k' =
    (k'.bytes ≡ k.bytes)
    × (k'.allocations ≡ k.allocations)
    × (k'.oversized_bytes ≡ k.oversized_bytes)
    × (k'.oversized_allocations ≡ k.oversized_allocations)

pub Account-same :
    (c : ℕ) (k k' : Client) (live : List Reservation)
    → SameCounters k k'
    → Account c k live
    → Account c k' live
Account-same c k k' live s a = ground arith

pub update-Account :
    (clients : ℕ → Client) (i : ℕ) (k : Client) (live : List Reservation)
    → SameCounters (clients i) k
    → ((c : ℕ) → Account c (clients c) live)
    → (c : ℕ) → Account c (update clients i k c) live
update-Account clients i k live s a c = ground (arith, a c)

pub wait-IsAccounted : (b : Budget) (wake : ℕ) → IsAccounted b → IsAccounted (wait b wake)
unfolding wait
wait-IsAccounted b wake v = elim (Bool-cases (b.clients wake).waiting) [
  | inl set ↦ rw (set, wait) v
  | inr clear ↦
      rw (clear, wait)
        (record {
          bytes = v.bytes;
          allocations = v.allocations;
          bytes_within = v.bytes_within;
          allocations_within = v.allocations_within;
          accounts = update-Account b.clients wake _ b.live (refl, refl, refl, refl) v.accounts;
        })
]

pub charge-Account :
    (b : Budget) (bytes wake c : ℕ)
    → Account c (b.clients c) b.live
    → Account c ((charge b bytes wake).clients c) (charge b bytes wake).live
unfolding charge total
charge-Account b bytes wake c a = ground arith

-- What the first two tests of `under_pressure` leave.
pub admitted_within :
    (b : Budget) (bytes wake : ℕ) (credit : Option Reservation)
    → under_pressure b bytes wake credit ≡ false
    → (bytes ≤ b.limits.max_bytes - b.bytes) × (b.allocations < b.limits.max_allocations)
unfolding under_pressure
admitted_within b bytes wake credit room = ground arith

pub charge-IsAccounted :
    (b : Budget) (bytes wake : ℕ) (credit : Option Reservation)
    → under_pressure b bytes wake credit ≡ false
    → IsAccounted b
    → IsAccounted (charge b bytes wake)
unfolding charge total
charge-IsAccounted b bytes wake credit room v = record {
  bytes = omega (arith, v.bytes);
  allocations = omega (arith, v.allocations);
  bytes_within = omega (arith, v.bytes_within, (admitted_within b bytes wake credit room).0);
  allocations_within = omega (arith, (admitted_within b bytes wake credit room).1);
  accounts = λ c. charge-Account b bytes wake c (v.accounts c);
}
