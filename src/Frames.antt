-- ===== src/Frames.antt =====
-- Frames in flight and what they read (src/texture_lifetime.rs: FrameLifetime). A frame goes by its
-- place in `frames`; `complete` and `retain_reservation` hold the frame's lock, and are one step each.
pub mod Renderer
pub mod Holders
pub mod Moves
pub mod Readers
use cocoa_way.Base.{
  ℕ, zero, suc, ◌+◌, Bool, true, false, not, ◌&&◌, ◌||◌, Option, none, some, List, [], ◌∷◌, ◌++◌,
  ◌==◌, if◌then◌else◌, get_elem?, set, length,
}
use cocoa_way.Budget.{Budget, Reservation, find, begin_read, end_read, has_readers, wake_waiters}
use cocoa_way.FrameGate.{admit, release}

-- `FrameLifetime`; its gate is the world's.
pub record Frame : Type 0 where
  pub completion_started : Bool
  pub completed : Bool
  pub reservations : List ℕ

abbrev pub new_frame : Frame
new_frame = record { completion_started = false; completed = false; reservations = [] }

pub record World : Type 0 where
  pub gate : ℕ
  pub frames : List Frame
  pub budget : Budget

-- `FrameGate::begin`.
pub begin : World → World × Bool
begin w =
    let (gate, ready) = admit w.gate true in
    (
      record w { gate = gate; frames = if ready then w.frames ++ new_frame ∷ [] else w.frames },
      ready,
    )

-- `FrameGate::ready`.
pub ready : World → World × Bool
ready w = let (gate, admits) = admit w.gate false in (record w { gate = gate }, admits)

abbrev pub contains : ℕ → List ℕ → Bool
contains i [] = false
contains i (x ∷ xs) = (x == i) || contains i xs

-- `accepts_preflight`: the frame that was prepared for, if it has not completed.
pub accepts_preflight : World → ℕ → ℕ → Bool
accepts_preflight w f prepared =
    (prepared == f)
    && elim (get_elem? w.frames f) [ none ↦ false | some frame ↦ not frame.completion_started ]

pub retain_in : World → ℕ → ℕ → Frame → World
retain_in w f i frame =
    if not frame.completion_started && not (contains i frame.reservations)
    then record w {
      budget = begin_read w.budget i;
      frames = set w.frames f (record frame { reservations = frame.reservations ++ i ∷ [] });
    }
    else w

pub retain_reservation : World → ℕ → ℕ → World
unfolding retain_in
retain_reservation w f i = elim (get_elem? w.frames f) [
  | none ↦ w
  | some frame ↦ retain_in w f i frame
]

-- The loop of `complete` over the frame's reservations.
pub end_reads : Budget → List ℕ → Budget
end_reads b [] = b
end_reads b (i ∷ is) = end_reads (end_read b i) is

-- `notify_reclaimable`: is one of these retired, and is one of those without readers. A reservation
-- of the frame is alive, by the frame's own reference.
pub any_retired : Budget → List ℕ → Bool
any_retired b [] = false
any_retired b (i ∷ is) =
    elim (find i b.live) [ none ↦ false | some r ↦ r.retired ] || any_retired b is

pub any_reclaimable : Budget → List ℕ → Bool
any_reclaimable b [] = false
any_reclaimable b (i ∷ is) =
    elim (find i b.live) [ none ↦ false | some r ↦ r.retired && not (has_readers r) ]
    || any_reclaimable b is

-- One budget, so at most one call of `wake_waiters` for the batch.
pub notify_reclaimable : Budget → List ℕ → Budget × Bool
notify_reclaimable b is = (if any_reclaimable b is then wake_waiters b else b, any_retired b is)

pub complete_frame : World → ℕ → Frame → World × Bool
unfolding notify_reclaimable
complete_frame w f frame =
    if frame.completion_started
    then (w, false)
    else (let (budget, reclaim) =
          notify_reclaimable (end_reads w.budget frame.reservations) frame.reservations in
        let (gate, wake) = release w.gate in
        (
          record {
            gate = gate;
            frames =
                set w.frames f
                  (record { completion_started = true; completed = true; reservations = [] });
            budget = budget;
          },
          wake || reclaim,
        ))

-- `complete`, also called by the frame's `drop`.
pub complete : World → ℕ → World × Bool
unfolding complete_frame
complete w f = elim (get_elem? w.frames f) [
  | none ↦ (w, false)
  | some frame ↦ complete_frame w f frame
]
