-- ===== src/Frames/Holders.antt =====
-- How the counts of frames and readers follow a change of one frame, and the invariant of the world.
use cocoa_way.Base.{
  ℕ, zero, suc, ◌+◌, ◌-◌, ◌≤◌, ◌≡◌, refl, ◌⊎◌, inl, inr, false, some, List, [], ◌∷◌, ◌++◌,
  if◌then◌else◌, arith, Bool-cases, All, count, get_elem?, set,
}
use cocoa_way.Budget.{Budget, end_read}
use cocoa_way.Budget.Live.{
  readers_at, Below, SameLive, wake_waiters-SameLive, readers-end_read, read-Below,
}
use cocoa_way.FrameGate.{max_frames}
use cocoa_way.FrameGate.Word.{Gate, encode}
use cocoa_way.Frames.{Frame, new_frame, World, end_reads, notify_reclaimable, any_reclaimable}
use cocoa_way.Frames.Renderer.{holders, in_flight}

pub in_flight-append : (fs : List Frame) → in_flight (fs ++ new_frame ∷ []) ≡ in_flight fs + 1
in_flight-append [] = refl
in_flight-append (f ∷ fs) = omega (arith, in_flight-append fs)

pub holders-append : (i : ℕ) (fs : List Frame) → holders i (fs ++ new_frame ∷ []) ≡ holders i fs
holders-append i [] = refl
holders-append i (f ∷ fs) = omega (arith, holders-append i fs)

pub in_flight-set :
    (fs : List Frame) (k : ℕ) (f f' : Frame)
    → get_elem? fs k ≡ some f
    → in_flight (set fs k f') + (if f.completion_started then 0 else 1)
      ≡ in_flight fs + (if f'.completion_started then 0 else 1)
in_flight-set [] k f f' e = cc
in_flight-set (x ∷ fs) zero f f' e = ground arith
in_flight-set (x ∷ fs) (suc k) f f' e = omega (arith, in_flight-set fs k f f' e)

pub holders-set :
    (i : ℕ) (fs : List Frame) (k : ℕ) (f f' : Frame)
    → get_elem? fs k ≡ some f
    → holders i (set fs k f') + count i f.reservations ≡ holders i fs + count i f'.reservations
holders-set i [] k f f' e = cc
holders-set i (x ∷ fs) zero f f' e = ground arith
holders-set i (x ∷ fs) (suc k) f f' e = omega (arith, holders-set i fs k f f' e)

-- A frame that has completed holds nothing, and no frame holds a reservation twice.
pub record IsTidy (f : Frame) : Type 0 where
  pub together : f.completed ≡ f.completion_started
  pub released : (f.completion_started ≡ false) ⊎ (f.reservations ≡ [])
  pub single : (i : ℕ) → count i f.reservations ≤ 1

pub record IsTracked (w : World) : Type 0 where
  pub gate : Gate
  pub word : w.gate ≡ encode gate
  pub counted : gate.count ≡ in_flight w.frames
  pub few : gate.count ≤ max_frames
  pub tidy : All IsTidy w.frames
  pub ordered : Below w.budget.next_id w.budget.live
  pub readers : (i : ℕ) → readers_at i w.budget.live ≡ holders i w.frames

-- The loop of `complete` takes one reader for each entry.
pub readers-end_reads :
    (b : Budget) (is : List ℕ) (j : ℕ)
    → readers_at j (end_reads b is).live ≡ readers_at j b.live - count j is
unfolding end_reads
readers-end_reads b [] j = omega arith
readers-end_reads b (i ∷ is) j =
    omega (arith, readers-end_reads (end_read b i) is j, readers-end_read b i j)

pub end_reads-Below :
    (b : Budget) (is : List ℕ)
    → Below b.next_id b.live
    → Below (end_reads b is).next_id (end_reads b is).live
unfolding end_reads
end_reads-Below b [] o = o
end_reads-Below b (i ∷ is) o = end_reads-Below (end_read b i) is (read-Below b i o).1

pub notify_reclaimable-SameLive :
    (b : Budget) (is : List ℕ) → SameLive b (notify_reclaimable b is).0
unfolding notify_reclaimable
notify_reclaimable-SameLive b is = elim (Bool-cases (any_reclaimable b is)) [
  | inl some_idle ↦ rw (some_idle, notify_reclaimable) (wake_waiters-SameLive b)
  | inr none_idle ↦ rw (none_idle, notify_reclaimable) (record { live = refl; next_id = refl })
]

pub new_frame-IsTidy : IsTidy new_frame
new_frame-IsTidy = record { together = refl; released = inr refl; single = λ i. omega arith }
