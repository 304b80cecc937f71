-- ===== src/Cleanup/Limits.antt =====
-- The limits of the queue: two workers, all finished jobs settled by a poll, enough turns of the loops,
-- and a timer for what waits.
use cocoa_way.Base.{
  ℕ, zero, suc, ◌+◌, ◌≤◌, ◌≡◌, refl, inl, inr, Bool, false, none, List, [], ◌∷◌, ◌++◌, ltb, ltb→lt,
  arith, Bool-cases, Option-cases, length, length-append, length-set, get_elem?, All, All-append,
}
use cocoa_way.Cleanup.{
  empty, Entry, Running, Queue, new, Look, retry, take_ready, pump_loop, pump, enqueue,
  kept_disposing, acknowledged, outcome_of, settle, last_first, poll_loop, poll,
}
use cocoa_way.Cleanup.Sums.{length-last_first}
use cocoa_way.Cleanup.Kept.{
  Op, op_enqueue, op_poll, worker_sends, reaper_sends, with_outcome, with_acknowledgement, step,
  run,
}

-- A property of the running jobs that the loops of `pump` and `poll` keep.
module _ (P : Running → Type 0) where
  pump_loop-All :
      (n i : ℕ) (looks : ℕ → Look) (q : Queue)
      → ((e : Entry) → P record { entry = e; receiver = empty })
      → All P q.running
      → All P (pump_loop n i looks q).running
  unfolding pump_loop retry
  pump_loop-All zero i looks q fresh a = a
  pump_loop-All (suc n) i looks q fresh a = elim (Bool-cases (ltb (length q.running) 2)) [
    | inr full ↦ rw (full, pump_loop) a
    | inl room ↦ elim (Option-cases (take_ready (looks i).now q.pending)) [
      | inl none_ready ↦ rw (room, none_ready, pump_loop) a
      | inr ((e, rest), found) ↦ elim (Bool-cases (looks i).starts) [
        | inl starts ↦
            let more =
              All-append P q.running (record { entry = e; receiver = empty } ∷ []) a
                (fresh e, tt) in
            rw (room, found, starts, pump_loop) (pump_loop-All n (suc i) looks _ fresh more)
        | inr fails ↦ rw (room, found, fails, pump_loop) a
      ]
    ]
  ]

-- At most two jobs run.
pump_loop-length :
    (n i : ℕ) (looks : ℕ → Look) (q : Queue)
    → length q.running ≤ 2
    → length (pump_loop n i looks q).running ≤ 2
unfolding pump_loop retry
pump_loop-length zero i looks q few = few
pump_loop-length (suc n) i looks q few = elim (Bool-cases (ltb (length q.running) 2)) [
  | inr full ↦ rw (full, pump_loop) few
  | inl room ↦ elim (Option-cases (take_ready (looks i).now q.pending)) [
    | inl none_ready ↦ rw (room, none_ready, pump_loop) few
    | inr ((e, rest), found) ↦ elim (Bool-cases (looks i).starts) [
      | inl starts ↦
          let grown = length-append q.running (record { entry = e; receiver = empty } ∷ []) in
          rw (room, found, starts, pump_loop)
            (pump_loop-length n (suc i) looks _ (omega (arith, grown, ltb→lt _ _ room)))
      | inr fails ↦ rw (room, found, fails, pump_loop) few
    ]
  ]
]

-- More turns of `pump` than there is room for change nothing: two turns are enough.
pub pump_loop-enough :
    (n m i : ℕ) (looks : ℕ → Look) (q : Queue)
    → 2 ≤ length q.running + n
    → 2 ≤ length q.running + m
    → pump_loop n i looks q ≡ pump_loop m i looks q
unfolding pump_loop
pump_loop-enough zero zero i looks q a b = refl
pump_loop-enough zero (suc m) i looks q a b =
    let full : ltb (length q.running) 2 ≡ false = ground arith in rw (full, pump_loop)
pump_loop-enough (suc n) zero i looks q a b =
    let full : ltb (length q.running) 2 ≡ false = ground arith in rw (full, pump_loop)
pump_loop-enough (suc n) (suc m) i looks q a b = elim (Bool-cases (ltb (length q.running) 2)) [
  | inr full ↦ rw (full, pump_loop)
  | inl room ↦ elim (Option-cases (take_ready (looks i).now q.pending)) [
    | inl none_ready ↦ rw (room, none_ready, pump_loop)
    | inr ((e, rest), found) ↦ elim (Bool-cases (looks i).starts) [
      | inl starts ↦
          let grown = length-append q.running (record { entry = e; receiver = empty } ∷ []) in
          rw (room, found, starts, pump_loop)
            (pump_loop-enough n m (suc i) looks _ (omega (arith, grown)) (omega (arith, grown)))
      | inr fails ↦ rw (room, found, fails, pump_loop)
    ]
  ]
]

-- A job that has not ended.
abbrev pub Unfinished : Running → Type 0
Unfinished r = outcome_of r.receiver ≡ none

poll_loop-Unfinished :
    (n : ℕ) (notify : Bool) (clock : ℕ → ℕ) (seen todo : List Running) (q : Queue)
    → length todo ≤ n
    → All Unfinished seen
    → let q' = poll_loop n notify clock seen todo q in
      All Unfinished q'.running × (length q'.running ≤ length seen + length todo)
unfolding poll_loop
poll_loop-Unfinished zero notify clock seen [] q enough a =
    let none_left : List Running = [] in
    (All-append Unfinished seen [] a tt, omega (arith, length-append seen none_left))
poll_loop-Unfinished zero notify clock seen (r ∷ todo) q enough a = absurd (omega arith)
poll_loop-Unfinished (suc n) notify clock seen [] q enough a = (a, omega arith)
poll_loop-Unfinished (suc n) notify clock seen (r ∷ todo) q enough a =
    elim (Option-cases (outcome_of r.receiver)) [
      | inl waits ↦
          let (b, few) =
            poll_loop-Unfinished n notify clock (seen ++ r ∷ []) todo q (omega arith)
              (All-append Unfinished seen (r ∷ []) a (waits, tt)) in
          rw (waits, poll_loop) (b, omega (arith, few, length-append seen (r ∷ [])))
      | inr (o, there) ↦
          let same = length-last_first todo in
          let (b, few) =
            poll_loop-Unfinished n notify clock seen (last_first todo)
              (settle q r.entry o notify (clock n)) (omega (arith, same)) a in
          rw (there, poll_loop) (b, omega (arith, few, same))
    ]

-- A poll settles every job that has ended, whatever their number and order: those that still run have
-- sent nothing, and there are two at most if there were.
pub poll-Unfinished :
    (q : Queue) (notify : Bool) (clock : ℕ → ℕ) (looks : ℕ → Look)
    → length q.running ≤ 2
    → let q' = poll q notify clock looks in All Unfinished q'.running × (length q'.running ≤ 2)
unfolding poll pump
poll-Unfinished q notify clock looks few =
    let swept : Queue = record q {
      disposing = kept_disposing q.disposing;
      freed = q.freed ++ acknowledged q.disposing;
    } in
    let (a, fewer) =
      poll_loop-Unfinished (length q.running) notify clock [] q.running swept (omega arith) tt in
    (
      pump_loop-All Unfinished 2 0 looks _ (λ e. refl) a,
      pump_loop-length 2 0 looks _ (omega (arith, fewer)),
    )

step-length : (q : Queue) (op : Op) → length q.running ≤ 2 → length (step q op).running ≤ 2
unfolding step enqueue pump with_outcome with_acknowledgement
step-length q (op_enqueue key job now looks) few = pump_loop-length 2 0 looks _ few
step-length q (op_poll notify clock looks) few = (poll-Unfinished q notify clock looks few).1
step-length q (worker_sends i c) few = elim (Option-cases (get_elem? q.running i)) [
  | inl gone ↦ rw (gone, with_outcome) few
  | inr (r, there) ↦
      rw (there, with_outcome) (omega (arith, length-set q.running i (record r { receiver = c })))
]
step-length q (reaper_sends i c) few = elim (Option-cases (get_elem? q.disposing i)) [
  | inl gone ↦ rw (gone, with_acknowledgement) few
  | inr (d, there) ↦ rw (there, with_acknowledgement) few
]

run-length : (ops : List Op) (q : Queue) → length q.running ≤ 2 → length (run q ops).running ≤ 2
unfolding run
run-length [] q few = few
run-length (op ∷ ops) q few = run-length ops (step q op) (step-length q op few)

-- In every history at most two cleanups run at a time.
pub run-new-length : (ops : List Op) → length (run new ops).running ≤ 2
unfolding new
run-new-length ops = run-length ops new (omega arith)
