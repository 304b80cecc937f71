-- ===== src/Budget.antt =====
-- Process-wide admission of texture storage (src/render_budget.rs). One budget, as `shared()` makes
-- it; clients (`BudgetWake`) and reservations go by number, and an `Arc` that is alive is an entry.
-- Every counter but `waiting` and `readers` changes under the budget's lock, so an operation is one
-- step; the two phases of a wake (take the waiters, notify each) are apart, as other threads can run
-- between them.
pub mod Sums
pub mod Steps
pub mod Ledger
pub mod Accounts
pub mod Marks
pub mod Shares
pub mod Wakes
pub mod Live
use cocoa_way.Base.{
  ℕ, zero, suc, ◌+◌, ◌-◌, ◌*◌, Bool, true, false, not, ◌&&◌, ◌||◌, Option, none, some, List, [],
  ◌∷◌, ◌++◌, ltb, leb, ◌==◌, if◌then◌else◌, nat_of, update, length,
}

-- `BudgetWake`: `alive` says that a strong reference is left, `notified` counts calls of `notify`.
pub record Client : Type 0 where
  pub waiting : Bool
  pub bytes : ℕ
  pub allocations : ℕ
  pub oversized_bytes : ℕ
  pub oversized_allocations : ℕ
  pub alive : Bool
  pub notified : ℕ

abbrev pub new_client : Client
new_client = record {
  waiting = false;
  bytes = 0;
  allocations = 0;
  oversized_bytes = 0;
  oversized_allocations = 0;
  alive = true;
  notified = 0;
}

-- `TextureReservation`.
pub record Reservation : Type 0 where
  pub id : ℕ
  pub client : ℕ
  pub bytes : ℕ
  pub oversized : Bool
  pub retired : Bool
  pub readers : ℕ

pub record Limits : Type 0 where
  pub max_bytes : ℕ
  pub max_allocations : ℕ
  pub max_client_bytes : ℕ
  pub max_client_allocations : ℕ

abbrev pub shared_limits : Limits
shared_limits = record {
  max_bytes = 256 * 1024 * 1024;
  max_allocations = 4096;
  max_client_bytes = 64 * 1024 * 1024;
  max_client_allocations = 1024;
}

-- `TextureBudget` with what its pointers reach. `live` holds the reservations whose `Arc` is alive,
-- `in_flight` the waiters that a wake has taken and not notified yet.
pub record Budget : Type 0 where
  pub limits : Limits
  pub bytes : ℕ
  pub allocations : ℕ
  pub waiters : List ℕ
  pub live : List Reservation
  pub next_id : ℕ
  pub clients : ℕ → Client
  pub in_flight : List ℕ

unfoldable pub with_client_limits : Limits → (ℕ → Client) → Budget
with_client_limits limits clients = record {
  limits = limits;
  bytes = 0;
  allocations = 0;
  waiters = [];
  live = [];
  next_id = 0;
  clients = clients;
  in_flight = [];
}

pub data BudgetError : Type 0 where
  too_large pressure : BudgetError

pub find : ℕ → List Reservation → Option Reservation
find i [] = none
find i (r ∷ rs) = if r.id == i then some r else find i rs

pub remove : ℕ → List Reservation → List Reservation
remove i [] = []
remove i (r ∷ rs) = if r.id == i then rs else r ∷ remove i rs

-- A mutation through one `Arc`.
pub adjust : ℕ → (Reservation → Reservation) → List Reservation → List Reservation
adjust i f [] = []
adjust i f (r ∷ rs) = if r.id == i then f r ∷ rs else r ∷ adjust i f rs

pub keep_alive : (ℕ → Client) → List ℕ → List ℕ
keep_alive clients [] = []
keep_alive clients (c ∷ cs) =
    let rest = keep_alive clients cs in if (clients c).alive then c ∷ rest else rest

-- `wait`: the swap of `waiting`, and the entry in the list.
unfoldable pub wait : Budget → ℕ → Budget
wait b wake = if (b.clients wake).waiting then b else record b {
  clients = update b.clients wake (record (b.clients wake) { waiting = true });
  waiters = keep_alive b.clients b.waiters ++ wake ∷ [];
}

abbrev pub has_readers : Reservation → Bool
has_readers r = not (r.readers == 0)

-- `idle.filter(..)`: the version that is replaced counts only if it is this client's and not read.
unfoldable pub credit_of : Budget → ℕ → Option ℕ → Option Reservation
credit_of b wake none = none
credit_of b wake (some i) = elim (find i b.live) [
  | none ↦ none
  | some r ↦ if (r.client == wake) && not (has_readers r) then some r else none
]

abbrev pub normal_credit : Option Reservation → ℕ
normal_credit none = 0
normal_credit (some r) = if r.oversized then 0 else r.bytes

abbrev pub oversized_credit : Option Reservation → ℕ
oversized_credit none = 0
oversized_credit (some r) = nat_of r.oversized

abbrev pub any_credit : Option Reservation → ℕ
any_credit none = 0
any_credit (some r) = 1

-- The test of `try_reserve_replacing` that ends in `Pressure`.
unfoldable pub under_pressure : Budget → ℕ → ℕ → Option Reservation → Bool
under_pressure b bytes wake credit =
    let c = b.clients wake in
    let normal_bytes = c.bytes - c.oversized_bytes - normal_credit credit in
    let oversized_allocations = c.oversized_allocations - oversized_credit credit in
    let local_allocations = c.allocations - any_credit credit in
    let oversized = ltb b.limits.max_client_bytes bytes in
    ltb (b.limits.max_bytes - b.bytes) bytes
    || leb b.limits.max_allocations b.allocations
    || (oversized && not (oversized_allocations == 0))
    || (not oversized && ltb (b.limits.max_client_bytes - normal_bytes) bytes)
    || leb b.limits.max_client_allocations local_allocations

-- The charge of an admitted reservation, to the budget and to its client.
unfoldable pub charge : Budget → ℕ → ℕ → Budget
charge b bytes wake =
    let c = b.clients wake in
    let oversized = ltb b.limits.max_client_bytes bytes in
    record b {
      bytes = b.bytes + bytes;
      allocations = b.allocations + 1;
      clients = update b.clients wake (record c {
        bytes = c.bytes + bytes;
        allocations = c.allocations + 1;
        oversized_bytes = c.oversized_bytes + (if oversized then bytes else 0);
        oversized_allocations = c.oversized_allocations + (if oversized then 1 else 0);
      });
      live =
          record {
            id = b.next_id;
            client = wake;
            bytes = bytes;
            oversized = oversized;
            retired = false;
            readers = 0;
          }
          ∷ b.live;
      next_id = suc b.next_id;
    }

pub data Admission : Type 0 where
  admitted : ℕ → Admission
  refused : BudgetError → Admission

unfoldable pub try_reserve_replacing : Budget → ℕ → ℕ → Option ℕ → Budget × Admission
unfolding charge under_pressure
try_reserve_replacing b bytes wake idle =
    if (bytes == 0) || ltb b.limits.max_bytes bytes
    then (b, refused too_large)
    else if under_pressure b bytes wake (credit_of b wake idle)
    then (wait b wake, refused pressure)
    else (charge b bytes wake, admitted b.next_id)

-- `wake_waiters` up to the release of the lock: the waiters are taken, in front of what other calls have
-- taken and not notified yet.
unfoldable pub take_waiters : Budget → Budget
take_waiters b = record b { waiters = []; in_flight = b.waiters ++ b.in_flight }

-- One round of the loop in `notify_waiters`.
pub notify_client : Client → Client
notify_client c =
    if c.alive && c.waiting then record c { waiting = false; notified = suc c.notified } else c

unfoldable pub notify_waiter : Budget → Budget
notify_waiter b = elim b.in_flight [
  | [] ↦ b
  | w ∷ ws ↦ record b { clients = update b.clients w (notify_client (b.clients w)); in_flight = ws }
]

-- The rest of the loop, one round for each waiter that was taken.
unfoldable pub notify_all : ℕ → Budget → Budget
notify_all zero b = b
notify_all (suc n) b = notify_all n (notify_waiter b)

-- `wake_waiters`, with no other thread in between: it notifies what it has taken, and nothing else.
unfoldable pub wake_waiters : Budget → Budget
wake_waiters b = notify_all (length b.waiters) (take_waiters b)

-- `drop` of the last reference to reservation `i`, up to the release of the lock.
pub drop_reservation : Budget → ℕ → Budget
drop_reservation b i = elim (find i b.live) [
  | none ↦ b
  | some r ↦
      let c = b.clients r.client in
      record b {
        bytes = b.bytes - r.bytes;
        allocations = b.allocations - 1;
        clients = update b.clients r.client (record c {
          bytes = c.bytes - r.bytes;
          allocations = c.allocations - 1;
          oversized_bytes = c.oversized_bytes - (if r.oversized then r.bytes else 0);
          oversized_allocations = c.oversized_allocations - (if r.oversized then 1 else 0);
        });
        live = remove i b.live;
        waiters = [];
        in_flight = b.in_flight ++ b.waiters;
      }
]

abbrev pub with_retired : Bool → Reservation → Reservation
with_retired retired r = record r { retired = retired }

abbrev pub one_more : Reservation → Reservation
one_more r = record r { readers = suc r.readers }

abbrev pub one_less : Reservation → Reservation
one_less r = record r { readers = r.readers - 1 }

unfoldable pub set_retired : Budget → ℕ → Bool → Budget
set_retired b i retired = record b { live = adjust i (with_retired retired) b.live }

unfoldable pub begin_read : Budget → ℕ → Budget
begin_read b i = record b { live = adjust i one_more b.live }

-- `fetch_sub`, which the source asserts to find a reader.
unfoldable pub end_read : Budget → ℕ → Budget
end_read b i = record b { live = adjust i one_less b.live }

pub has_reclaimable_readers : List Reservation → Bool
has_reclaimable_readers [] = false
has_reclaimable_readers (r ∷ rs) = (r.retired && has_readers r) || has_reclaimable_readers rs
