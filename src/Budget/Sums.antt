-- ===== src/Budget/Sums.antt =====
-- Weighted sums over the live reservations, and how insertion, removal and mutation change them.
use cocoa_way.Base.{ℕ, ◌+◌, ◌≤◌, ◌≡◌, refl, some, List, [], ◌∷◌, arith}
use cocoa_way.Budget.{Reservation, find, remove, adjust}

module _ (w : Reservation → ℕ) where
  unfoldable pub total : List Reservation → ℕ
  total [] = 0
  total (r ∷ rs) = w r + total rs

  pub total-cons : (r : Reservation) (rs : List Reservation) → total (r ∷ rs) ≡ w r + total rs
  unfolding total
  total-cons r rs = refl

  pub total-remove :
      (i : ℕ) (rs : List Reservation) (r : Reservation)
      → find i rs ≡ some r
      → total (remove i rs) + w r ≡ total rs
  unfolding total find remove
  total-remove i [] r e = ground arith
  total-remove i (x ∷ rs) r e = ground (arith, total-remove i rs r)

  pub weight-le-total :
      (i : ℕ) (rs : List Reservation) (r : Reservation) → find i rs ≡ some r → w r ≤ total rs
  unfolding total find
  weight-le-total i [] r e = ground arith
  weight-le-total i (x ∷ rs) r e = ground (arith, weight-le-total i rs r)

  pub total-adjust :
      (i : ℕ) (f : Reservation → Reservation) (rs : List Reservation)
      → ((r : Reservation) → w (f r) ≡ w r)
      → total (adjust i f rs) ≡ total rs
  unfolding total adjust
  total-adjust i f [] same = refl
  total-adjust i f (x ∷ rs) same = ground (arith, same x, total-adjust i f rs)
