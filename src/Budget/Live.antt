-- ===== src/Budget/Live.antt =====
-- Which reservations are alive, and how many readers each has, under the operations.
use cocoa_way.Base.{
  ℕ, zero, suc, ◌+◌, ◌-◌, ◌≤◌, ◌<◌, ◌≡◌, refl, ◌∙◌, inl, inr, Bool, true, false, ◌&&◌, ◌||◌, Option,
  none, some, List, [], ◌∷◌, ltb, ◌==◌, if◌then◌else◌, nat_of, arith, Option-cases, Bool-cases,
}
use cocoa_way.Budget.{
  Budget, Reservation, find, remove, adjust, wait, charge, under_pressure, credit_of,
  try_reserve_replacing, notify_waiter, notify_all, take_waiters, wake_waiters, drop_reservation,
  begin_read, end_read, set_retired, with_retired, one_more, one_less,
}

-- The readers of reservation `i`; none if it is not alive.
abbrev pub readers_at : ℕ → List Reservation → ℕ
readers_at i [] = 0
readers_at i (r ∷ rs) = if r.id == i then r.readers else readers_at i rs

-- Ids fall along the list and stay under the bound.
abbrev pub Below : ℕ → List Reservation → Type 0
Below n [] = Unit {0}
Below n (r ∷ rs) = (r.id < n) × Below r.id rs

readers_above : (i n : ℕ) (rs : List Reservation) → Below n rs → n ≤ i → readers_at i rs ≡ 0
readers_above i n [] b h = refl
readers_above i n (r ∷ rs) b h = ground (arith, readers_above i r.id rs b.1)

Below-mono : {m n : ℕ} (rs : List Reservation) → m ≤ n → Below m rs → Below n rs
Below-mono [] h b = tt
Below-mono (r ∷ rs) h b = (omega arith, b.1)

remove-Below : (i n : ℕ) (rs : List Reservation) → Below n rs → Below n (remove i rs)
unfolding remove
remove-Below i n [] b = tt
remove-Below i n (r ∷ rs) b =
    ground (arith, remove-Below i r.id rs b.1, Below-mono {m = r.id} {n = n} rs)

pub adjust-Below :
    (i n : ℕ) (f : Reservation → Reservation) (rs : List Reservation)
    → ((r : Reservation) → (f r).id ≡ r.id)
    → Below n rs
    → Below n (adjust i f rs)
unfolding adjust
adjust-Below i n f [] same b = tt
adjust-Below i n f (r ∷ rs) same b = elim (Bool-cases (r.id == i)) [
  | inl hit ↦ rw (hit, adjust, same r) b
  | inr miss ↦ rw (miss, adjust) (b.0, adjust-Below i r.id f rs same b.1)
]

readers-remove :
    (i j n : ℕ) (rs : List Reservation)
    → Below n rs
    → readers_at j (remove i rs) ≡ (if i == j then 0 else readers_at j rs)
unfolding remove
readers-remove i j n [] b = ground arith
readers-remove i j n (r ∷ rs) b =
    ground (arith, readers-remove i j r.id rs b.1, readers_above j r.id rs b.1)

-- A change of the readers of one reservation that is alive.
pub readers-adjust :
    (i j : ℕ) (f : Reservation → Reservation) (g : ℕ → ℕ) (rs : List Reservation)
    → ((r : Reservation) → (f r).id ≡ r.id)
    → ((r : Reservation) → (f r).readers ≡ g r.readers)
    → readers_at j (adjust i f rs) ≡ (
        if (i == j) && elim (find i rs) [ none ↦ false | some r ↦ true ]
        then g (readers_at j rs)
        else readers_at j rs)
unfolding adjust find
readers-adjust i j f g [] same h = ground arith
readers-adjust i j f g (r ∷ rs) same h =
    ground (arith, same r, h r, readers-adjust i j f g rs same h)

-- What the steps that end no reservation and begin none do to the list.
pub record SameLive (b b' : Budget) : Type 0 where
  pub live : b'.live ≡ b.live
  pub next_id : b'.next_id ≡ b.next_id

pub wait-SameLive : (b : Budget) (wake : ℕ) → SameLive b (wait b wake)
unfolding wait
wait-SameLive b wake = elim (Bool-cases (b.clients wake).waiting) [
  | inl set ↦ rw (set, wait) (record { live = refl; next_id = refl })
  | inr clear ↦ rw (clear, wait) (record { live = refl; next_id = refl })
]

pub notify-SameLive : (b : Budget) → SameLive b (notify_waiter b)
unfolding notify_waiter
notify-SameLive b = go b.in_flight refl
  where
    go : (ws : List ℕ) → b.in_flight ≡ ws → SameLive b (notify_waiter b)
    go [] e = rw (e, notify_waiter) (record { live = refl; next_id = refl })
    go (w ∷ ws) e = rw (e, notify_waiter) (record { live = refl; next_id = refl })

notify_all-SameLive : (n : ℕ) (b : Budget) → SameLive b (notify_all n b)
unfolding notify_all
notify_all-SameLive zero b = record { live = refl; next_id = refl }
notify_all-SameLive (suc n) b =
    let first = notify-SameLive b in
    let rest = notify_all-SameLive n (notify_waiter b) in
    record { live = rest.live ∙ first.live; next_id = rest.next_id ∙ first.next_id }

pub wake_waiters-SameLive : (b : Budget) → SameLive b (wake_waiters b)
unfolding wake_waiters take_waiters
wake_waiters-SameLive b =
    let all = notify_all-SameLive _ (take_waiters b) in
    record { live = all.live; next_id = all.next_id }

-- What every step keeps: ids stay in order, and the readers of each reservation as they were.
pub record Quiet (b b' : Budget) : Type 0 where
  pub ordered : Below b'.next_id b'.live
  pub readers : (i : ℕ) → readers_at i b'.live ≡ readers_at i b.live

pub SameLive-Quiet : (b b' : Budget) → Below b.next_id b.live → SameLive b b' → Quiet b b'
SameLive-Quiet b b' o s = record { ordered = rw (s.live, s.next_id) o; readers = λ i. rw s.live }

pub reserve-Quiet :
    (b : Budget) (bytes wake : ℕ) (idle : Option ℕ)
    → Below b.next_id b.live
    → Quiet b (try_reserve_replacing b bytes wake idle).0
unfolding try_reserve_replacing charge
reserve-Quiet b bytes wake idle o =
    elim (Bool-cases ((bytes == 0) || ltb b.limits.max_bytes bytes)) [
      | inl large ↦ rw (large, try_reserve_replacing) (record { ordered = o; readers = λ i. refl })
      | inr fits ↦ elim (Bool-cases (under_pressure b bytes wake (credit_of b wake idle))) [
        | inl full ↦
            rw (fits, full, try_reserve_replacing)
              (SameLive-Quiet b (wait b wake) o (wait-SameLive b wake))
        | inr room ↦
            rw (fits, room, try_reserve_replacing)
              (record {
                ordered = (omega arith, o);
                readers = λ i. ground (arith, readers_above i b.next_id b.live o);
              })
      ]
    ]

-- A drop of a reservation without readers.
pub drop-Quiet :
    (b : Budget) (i : ℕ)
    → Below b.next_id b.live
    → readers_at i b.live ≡ 0
    → Quiet b (drop_reservation b i)
unfolding drop_reservation
drop-Quiet b i o unread = elim (Option-cases (find i b.live)) [
  | inl gone ↦ rw (gone, drop_reservation) (record { ordered = o; readers = λ j. refl })
  | inr (r, there) ↦
      rw (there, drop_reservation)
        (record {
          ordered = remove-Below i b.next_id b.live o;
          readers = λ j. ground (arith, readers-remove i j b.next_id b.live o);
        })
]

readers_gone : (i : ℕ) (rs : List Reservation) → find i rs ≡ none → readers_at i rs ≡ 0
unfolding find
readers_gone i [] e = refl
readers_gone i (r ∷ rs) e = ground (arith, readers_gone i rs)

pub readers-end_read :
    (b : Budget) (i j : ℕ)
    → readers_at j (end_read b i).live ≡ readers_at j b.live - nat_of (i == j)
unfolding end_read
readers-end_read b i j = ground (
  arith,
  readers-adjust i j one_less (λ n. n - 1) b.live (λ r. refl) (λ r. refl),
  readers_gone i b.live,
)

pub readers-begin_read :
    (b : Budget) (i j : ℕ)
    → elim (find i b.live) [ none ↦ false | some r ↦ true ] ≡ true
    → readers_at j (begin_read b i).live ≡ readers_at j b.live + nat_of (i == j)
unfolding begin_read
readers-begin_read b i j live =
    ground (arith, readers-adjust i j one_more suc b.live (λ r. refl) (λ r. refl))

pub retire-Quiet :
    (b : Budget) (i : ℕ) (retired : Bool)
    → Below b.next_id b.live
    → Quiet b (set_retired b i retired)
unfolding set_retired
retire-Quiet b i retired o = record {
  ordered = adjust-Below i b.next_id _ b.live (λ r. refl) o;
  readers = λ j.
      ground
        (arith, readers-adjust i j (with_retired retired) (λ n. n) b.live (λ r. refl) (λ r. refl));
}

pub read-Below :
    (b : Budget) (i : ℕ)
    → Below b.next_id b.live
    → Below (begin_read b i).next_id (begin_read b i).live
      × Below (end_read b i).next_id (end_read b i).live
unfolding begin_read end_read
read-Below b i o = (
  adjust-Below i b.next_id _ b.live (λ r. refl) o,
  adjust-Below i b.next_id _ b.live (λ r. refl) o,
)
