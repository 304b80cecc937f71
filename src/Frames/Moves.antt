-- ===== src/Frames/Moves.antt =====
-- The renderer's steps on the gate and on one frame keep the invariant.
use cocoa_way.Base.{
  ℕ, ◌+◌, ◌-◌, ◌≤◌, ◌<◌, ◌≡◌, refl, sym, ◌∙◌, ◌⊎◌, inl, inr, Bool, true, false, not, ◌&&◌, some,
  List, [], ◌∷◌, ◌++◌, nat_of, arith, Option-cases, Bool-cases, All-append, All-set, All-get, count,
  count-append, get_elem?,
}
use cocoa_way.Budget.{Budget}
use cocoa_way.Budget.Live.{Quiet, readers-begin_read, read-Below}
use cocoa_way.FrameGate.{max_frames}
use cocoa_way.FrameGate.Word.{
  Gate, encode, admit_gate, release_gate, admit_refines, release_refines,
}
use cocoa_way.Frames.{
  Frame, new_frame, World, begin, ready, contains, retain_in, end_reads, complete, complete_frame,
}
use cocoa_way.Frames.Renderer.{is_live}
use cocoa_way.Frames.Holders.{
  IsTidy, IsTracked, end_reads-Below, holders-append, holders-set, in_flight-append, in_flight-set,
  new_frame-IsTidy, notify_reclaimable-SameLive, readers-end_reads,
}

-- What an admission does to the parts of the word.
pub admit_cases :
    (g : Gate) (taking : Bool)
    → g.count ≤ max_frames
    → (((admit_gate g taking).1 ≡ true)
        × ((admit_gate g taking).0.count ≡ g.count + nat_of taking)
        × (g.count < max_frames))
      ⊎ (((admit_gate g taking).1 ≡ false) × ((admit_gate g taking).0.count ≡ g.count))
unfolding admit_gate
admit_cases g taking few = ground arith

pub count-release : (g : Gate) → (release_gate g).0.count ≡ g.count - 1
unfolding release_gate
count-release g = ground arith

pub begin-IsTracked : (w : World) → IsTracked w → IsTracked (begin w).0
unfolding begin
begin-IsTracked w v = elim (admit_cases v.gate true v.few) [
  | inl (ok, more, room) ↦
      rw (v.word, admit_refines v.gate true (omega (arith, v.few)), ok, begin)
        (record {
          gate = (admit_gate v.gate true).0;
          word = refl;
          counted = omega (arith, more, v.counted, in_flight-append w.frames);
          few = omega (arith, more, room);
          tidy = All-append IsTidy w.frames (new_frame ∷ []) v.tidy (new_frame-IsTidy, tt);
          ordered = v.ordered;
          readers = λ i. v.readers i ∙ sym (holders-append i w.frames);
        })
  | inr (no_room, same) ↦
      rw (v.word, admit_refines v.gate true (omega (arith, v.few)), no_room, begin)
        (record {
          gate = (admit_gate v.gate true).0;
          word = refl;
          counted = same ∙ v.counted;
          few = omega (arith, same, v.few);
          tidy = v.tidy;
          ordered = v.ordered;
          readers = v.readers;
        })
]

-- A change of the word alone.
pub gate-IsTracked :
    (w : World) (state : ℕ) (g : Gate)
    → state ≡ encode g
    → (v : IsTracked w) → g.count ≡ v.gate.count
    → IsTracked (record w { gate = state })
gate-IsTracked w state g e v same = record {
  gate = g;
  word = e;
  counted = same ∙ v.counted;
  few = omega (arith, same, v.few);
  tidy = v.tidy;
  ordered = v.ordered;
  readers = v.readers;
}

pub ready-IsTracked : (w : World) → IsTracked w → IsTracked (ready w).0
unfolding ready
ready-IsTracked w v =
    let refines = admit_refines v.gate false (omega (arith, v.few)) in
    gate-IsTracked w _ (admit_gate v.gate false).0 (rw (v.word, refines)) v
      (elim (admit_cases v.gate false v.few) [
        | inl (ok, more, room) ↦ omega (arith, more)
        | inr (no_room, same) ↦ same
      ])

-- A step of the budget that leaves readers and order alone.
pub budget-IsTracked :
    (w : World) (b : Budget) → Quiet w.budget b → IsTracked w → IsTracked (record w { budget = b })
budget-IsTracked w b q v = record {
  gate = v.gate;
  word = v.word;
  counted = v.counted;
  few = v.few;
  tidy = v.tidy;
  ordered = q.ordered;
  readers = λ i. q.readers i ∙ v.readers i;
}

pub contains-count : (i : ℕ) (xs : List ℕ) → contains i xs ≡ false → count i xs ≡ 0
contains-count i [] h = refl
contains-count i (x ∷ xs) h = ground (arith, contains-count i xs)

pub retain_in-IsTracked :
    (w : World) (k i : ℕ) (f : Frame)
    → get_elem? w.frames k ≡ some f
    → is_live i w.budget ≡ true
    → IsTracked w
    → IsTracked (retain_in w k i f)
unfolding retain_in
retain_in-IsTracked w k i f at live v =
    elim (Bool-cases (not f.completion_started && not (contains i f.reservations))) [
      | inr old ↦ rw (old, retain_in) v
      | inl new ↦
          let running : f.completion_started ≡ false = ground arith in
          let absent : count i f.reservations ≡ 0 =
            contains-count i f.reservations (ground arith) in
          let f' : Frame = record f { reservations = f.reservations ++ i ∷ [] } in
          let was = All-get IsTidy w.frames k f v.tidy at in
          rw (new, retain_in)
            (record {
              gate = v.gate;
              word = v.word;
              counted = omega (arith, v.counted, in_flight-set w.frames k f f' at);
              few = v.few;
              tidy = All-set IsTidy w.frames k f' v.tidy (record {
                together = was.together;
                released = inl running;
                single = λ j. ground (arith, was.single j, count-append f.reservations (i ∷ []) j);
              });
              ordered = (read-Below w.budget i v.ordered).0;
              readers = λ j. omega (
                arith,
                v.readers j,
                readers-begin_read w.budget i j live,
                holders-set j w.frames k f f' at,
                count-append f.reservations (i ∷ []) j,
              );
            })
    ]

abbrev pub done_frame : Frame
done_frame = record { completion_started = true; completed = true; reservations = [] }

pub complete_frame-IsTracked :
    (w : World) (k : ℕ) (f : Frame)
    → get_elem? w.frames k ≡ some f
    → IsTracked w
    → IsTracked (complete_frame w k f).0
unfolding complete_frame
complete_frame-IsTracked w k f at v = elim (Bool-cases f.completion_started) [
  | inl done ↦ rw (done, complete_frame) v
  | inr running ↦
      let fewer = in_flight-set w.frames k f done_frame at in
      let busy : 0 < v.gate.count = ground (arith, v.counted) in
      let ended = end_reads w.budget f.reservations in
      let same = notify_reclaimable-SameLive ended f.reservations in
      rw (running, v.word, release_refines v.gate busy (omega (arith, v.few)), complete_frame)
        (record {
          gate = (release_gate v.gate).0;
          word = refl;
          counted = ground (arith, count-release v.gate, v.counted);
          few = omega (arith, count-release v.gate, v.few);
          tidy =
              All-set IsTidy w.frames k done_frame v.tidy
                (record { together = refl; released = inr refl; single = λ i. omega arith });
          ordered =
              rw (same.next_id, same.live) (end_reads-Below w.budget f.reservations v.ordered);
          readers = λ i. rw same.live (
              omega (
                arith,
                readers-end_reads w.budget f.reservations i,
                v.readers i,
                holders-set i w.frames k f done_frame at,
              ));
        })
]

pub complete-IsTracked : (w : World) (k : ℕ) → IsTracked w → IsTracked (complete w k).0
unfolding complete
complete-IsTracked w k v = elim (Option-cases (get_elem? w.frames k)) [
  | inl gone ↦ rw (gone, complete) v
  | inr (f, at) ↦ rw (at, complete) (complete_frame-IsTracked w k f at v)
]
