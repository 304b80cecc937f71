-- ===== src/Budget/Marks.antt =====
-- The bounds of a client's share, the marks of oversized reservations, and what a credit comes to.
use cocoa_way.Base.{
  ℕ, ◌+◌, ◌≤◌, ◌≡◌, ◌⊎◌, inl, inr, Bool, true, false, Option, none, some, List, [], ◌∷◌, ltb,
  if◌then◌else◌, nat_of, arith, Option-cases, All,
}
use cocoa_way.Budget.{
  Budget, Client, Limits, Reservation, find, remove, adjust, charge, under_pressure, credit_of,
  normal_credit, oversized_credit, any_credit,
}
use cocoa_way.Budget.Sums.{total}
use cocoa_way.Budget.Steps.{Op, reserve}
use cocoa_way.Budget.Ledger.{IsAccounted}

-- The bounds of a client's counters; `replacing` says whether idle versions are ever named.
pub record Share (replacing : Bool) (l : Limits) (k : Client) : Type 0 where
  pub normal :
      k.bytes
      ≤ k.oversized_bytes + l.max_client_bytes + (if replacing then l.max_client_bytes else 0)
  pub oversized : k.oversized_allocations ≤ 1 + nat_of replacing
  pub allocations : k.allocations ≤ l.max_client_allocations + nat_of replacing

-- A reservation is marked oversized exactly if it is larger than a client's share.
abbrev pub IsMarked : ℕ → Reservation → Type 0
IsMarked m r = r.oversized ≡ ltb m r.bytes

pub record IsShared (replacing : Bool) (b : Budget) : Type 0 where
  pub accounted : IsAccounted b
  pub marked : All (IsMarked b.limits.max_client_bytes) b.live
  pub shares : (c : ℕ) → Share replacing b.limits (b.clients c)

-- What a run may ask: without `replacing`, no idle version.
abbrev pub Asks : Bool → Op → Type 0
Asks replacing (reserve bytes wake idle) = (idle ≡ none) ⊎ (replacing ≡ true)
Asks replacing _ = Unit

pub find-IsMarked :
    (m i : ℕ) (rs : List Reservation) (r : Reservation)
    → All (IsMarked m) rs
    → find i rs ≡ some r
    → IsMarked m r
unfolding find
find-IsMarked m i [] r a e = cc
find-IsMarked m i (x ∷ rs) r a e = ground (arith, find-IsMarked m i rs r a.1)

pub remove-IsMarked :
    (m i : ℕ) (rs : List Reservation) → All (IsMarked m) rs → All (IsMarked m) (remove i rs)
unfolding remove
remove-IsMarked m i [] a = tt
remove-IsMarked m i (x ∷ rs) a = ground (arith, remove-IsMarked m i rs a.1)

pub adjust-IsMarked :
    (m i : ℕ) (f : Reservation → Reservation) (rs : List Reservation)
    → ((r : Reservation) → ((f r).bytes ≡ r.bytes) × ((f r).oversized ≡ r.oversized))
    → All (IsMarked m) rs
    → All (IsMarked m) (adjust i f rs)
unfolding adjust
adjust-IsMarked m i f [] same a = tt
adjust-IsMarked m i f (x ∷ rs) same a = ground (arith, same x, adjust-IsMarked m i f rs same a.1)

pub total_mono :
    (v w : Reservation → ℕ) (rs : List Reservation)
    → ((r : Reservation) → v r ≤ w r)
    → total v rs ≤ total w rs
unfolding total
total_mono v w [] h = omega arith
total_mono v w (r ∷ rs) h = omega (arith, h r, total_mono v w rs h)

-- A credited version is a live one, so its normal charge is at most a share.
pub normal_credit-le :
    (b : Budget) (wake : ℕ) (idle : Option ℕ)
    → All (IsMarked b.limits.max_client_bytes) b.live
    → normal_credit (credit_of b wake idle) ≤ b.limits.max_client_bytes
unfolding credit_of
normal_credit-le b wake none a = omega arith
normal_credit-le b wake (some i) a = elim (Option-cases (find i b.live)) [
  | inl gone ↦ rw (gone, credit_of) (omega arith)
  | inr (r, there) ↦
      rw (there, credit_of)
        (ground (arith, find-IsMarked b.limits.max_client_bytes i b.live r a there))
]

-- What the credits of one idle version come to: nothing if none may be named.
pub record Credits (replacing : Bool) (l : Limits) (credit : Option Reservation) : Type 0 where
  normal : normal_credit credit ≤ (if replacing then l.max_client_bytes else 0)
  oversized : oversized_credit credit ≤ nat_of replacing
  any : any_credit credit ≤ nat_of replacing

pub credit_of-Credits :
    (replacing : Bool) (b : Budget) (wake : ℕ) (idle : Option ℕ)
    → (idle ≡ none) ⊎ (replacing ≡ true)
    → All (IsMarked b.limits.max_client_bytes) b.live
    → Credits replacing b.limits (credit_of b wake idle)
unfolding credit_of
credit_of-Credits replacing b wake idle (inl e) a =
    rw (e, credit_of) (record { normal = omega arith; oversized = omega arith; any = omega arith })
credit_of-Credits false b wake idle (inr e) a = cc
credit_of-Credits true b wake idle (inr e) a = record {
  normal = normal_credit-le b wake idle a;
  oversized = one_at_most (credit_of b wake idle);
  any = any_at_most (credit_of b wake idle);
}
  where
    one_at_most : (o : Option Reservation) → oversized_credit o ≤ 1
    one_at_most none = omega arith
    one_at_most (some r) = ground arith

    any_at_most : (o : Option Reservation) → any_credit o ≤ 1
    any_at_most none = omega arith
    any_at_most (some r) = omega arith

module _ (replacing : Bool) (b : Budget) (bytes wake : ℕ) (credit : Option Reservation) where
  pub charge-Share :
      Credits replacing b.limits credit
      → under_pressure b bytes wake credit ≡ false
      → (c : ℕ) → Share replacing b.limits (b.clients c)
      → Share replacing b.limits ((charge b bytes wake).clients c)
  unfolding charge under_pressure
  charge-Share w room c v = ground arith
