-- ===== src/Cleanup/Kept.antt =====
-- No key leaves the queue but by the end of its resources.
use cocoa_way.Base.{
  sum, sum-append, ℕ, zero, suc, ◌+◌, ◌≡◌, refl, ap, inl, inr, Bool, true, false, none, some, List,
  [], ◌∷◌, ◌++◌, ltb, arith, Bool-cases, Option-cases, length, get_elem?, set, nat_of,
}
use cocoa_way.Cleanup.{
  Key, Outcome, done, failed, Channel, empty, Entry, Running, Disposing, Queue, new,
  could_not_start, Look, retried, retry, take_ready, pump_loop, pump, enqueue, kept_disposing,
  acknowledged, outcome_of, settle, last_first, poll_loop, poll,
}
use cocoa_way.Cleanup.Sums.{sum-last_first, sum-set, sum-take_ready, sum-disposing}

-- What happens to a queue: its calls, and what its workers and the reaper send.
pub data Op : Type 0 where
  op_enqueue : Key → ℕ → ℕ → (ℕ → Look) → Op
  op_poll : Bool → (ℕ → ℕ) → (ℕ → Look) → Op
  worker_sends : ℕ → Channel Outcome → Op
  reaper_sends : ℕ → Channel (Unit {0}) → Op

-- The other end of a channel changes it.
unfoldable pub with_outcome : Queue → ℕ → Channel Outcome → Queue
with_outcome q i c = elim (get_elem? q.running i) [
  | none ↦ q
  | some r ↦ record q { running = set q.running i (record r { receiver = c }) }
]

unfoldable pub with_acknowledgement : Queue → ℕ → Channel (Unit {0}) → Queue
with_acknowledgement q i c = elim (get_elem? q.disposing i) [
  | none ↦ q
  | some d ↦ record q { disposing = set q.disposing i (record d { receiver = c }) }
]

unfoldable pub step : Queue → Op → Queue
unfolding with_outcome with_acknowledgement
step q (op_enqueue key job now looks) = enqueue q key job now looks
step q (op_poll notify clock looks) = poll q notify clock looks
step q (worker_sends i c) = with_outcome q i c
step q (reaper_sends i c) = with_acknowledgement q i c

unfoldable pub run : Queue → List Op → Queue
run q [] = q
run q (op ∷ ops) = run (step q op) ops

module _ (w : Key → ℕ) where
  abbrev pub of_entry : Entry → ℕ
  of_entry e = w e.key

  abbrev pub of_running : Running → ℕ
  of_running r = w r.entry.key

  abbrev pub of_disposing : Disposing → ℕ
  of_disposing d = w d.key

  -- The keys that the queue still holds, and those that it has freed.
  abbrev pub held : Queue → ℕ
  held q = sum of_entry q.pending + sum of_running q.running + sum of_disposing q.disposing

  abbrev pub all_keys : Queue → ℕ
  all_keys q = held q + sum w q.freed

  retry-all_keys :
      (q : Queue) (e : Entry) (error : ℕ) (notify : Bool) (now : ℕ)
      → all_keys (retry q e error notify now) ≡ w e.key + all_keys q
  unfolding retry retried
  retry-all_keys q e error notify now =
      omega (arith, sum-append of_entry q.pending (retried e error now ∷ []))

  pump_loop-all_keys :
      (n i : ℕ) (looks : ℕ → Look) (q : Queue) → all_keys (pump_loop n i looks q) ≡ all_keys q
  unfolding pump_loop
  pump_loop-all_keys zero i looks q = refl
  pump_loop-all_keys (suc n) i looks q = elim (Bool-cases (ltb (length q.running) 2)) [
    | inr full ↦ rw (full, pump_loop)
    | inl room ↦ elim (Option-cases (take_ready (looks i).now q.pending)) [
      | inl none_ready ↦ rw (room, none_ready, pump_loop)
      | inr ((e, rest), found) ↦
          let taken = sum-take_ready of_entry (looks i).now q.pending rest e found in
          elim (Bool-cases (looks i).starts) [
            | inl starts ↦
                let next : Queue = record q {
                  pending = rest;
                  running = q.running ++ record { entry = e; receiver = empty } ∷ [];
                } in
                rw (room, found, starts, pump_loop)
                  (omega (
                    arith,
                    taken,
                    pump_loop-all_keys n (suc i) looks next,
                    sum-append of_running q.running (record { entry = e; receiver = empty } ∷ []),
                  ))
            | inr fails ↦
                rw (room, found, fails, pump_loop)
                  (omega (
                    arith,
                    taken,
                    retry-all_keys (record q { pending = rest }) e could_not_start false
                        (looks i).retries_at,
                  ))
          ]
    ]
  ]

  settle-all_keys :
      (q : Queue) (e : Entry) (o : Outcome) (notify : Bool) (now : ℕ)
      → all_keys (settle q e o notify now) ≡ w e.key + all_keys q
  unfolding settle
  settle-all_keys q e done true now =
      omega
        (arith, sum-append of_disposing q.disposing (record { key = e.key; receiver = empty } ∷ []))
  settle-all_keys q e done false now = omega (arith, sum-append w q.freed (e.key ∷ []))
  settle-all_keys q e (failed error) notify now = retry-all_keys q e error notify now

  -- What a queue holds beside its running jobs.
  abbrev others : Queue → ℕ
  others q = sum of_entry q.pending + sum of_disposing q.disposing + sum w q.freed

  running-settle :
      (q : Queue) (e : Entry) (o : Outcome) (notify : Bool) (now : ℕ)
      → (settle q e o notify now).running ≡ q.running
  unfolding settle retry
  running-settle q e done true now = refl
  running-settle q e done false now = refl
  running-settle q e (failed error) notify now = refl

  poll_loop-all_keys :
      (n : ℕ) (notify : Bool) (clock : ℕ → ℕ) (seen todo : List Running) (q : Queue)
      → all_keys (poll_loop n notify clock seen todo q)
        ≡ others q + sum of_running seen + sum of_running todo
  unfolding poll_loop
  poll_loop-all_keys zero notify clock seen todo q = omega (arith, sum-append of_running seen todo)
  poll_loop-all_keys (suc n) notify clock seen [] q = omega arith
  poll_loop-all_keys (suc n) notify clock seen (r ∷ todo) q =
      elim (Option-cases (outcome_of r.receiver)) [
        | inl waits ↦
            let later = poll_loop-all_keys n notify clock (seen ++ r ∷ []) todo q in
            rw (waits, poll_loop) (omega (arith, later, sum-append of_running seen (r ∷ [])))
        | inr (o, there) ↦
            let settled = settle q r.entry o notify (clock n) in
            let later = poll_loop-all_keys n notify clock seen (last_first todo) settled in
            rw (there, poll_loop)
              (omega (
                arith,
                later,
                sum-last_first of_running todo,
                settle-all_keys q r.entry o notify (clock n),
                ap (sum of_running) (running-settle q r.entry o notify (clock n)),
              ))
      ]

  poll-all_keys :
      (q : Queue) (notify : Bool) (clock : ℕ → ℕ) (looks : ℕ → Look)
      → all_keys (poll q notify clock looks) ≡ all_keys q
  unfolding poll pump
  poll-all_keys q notify clock looks =
      let swept : Queue = record q {
        disposing = kept_disposing q.disposing;
        freed = q.freed ++ acknowledged q.disposing;
      } in
      let polled = poll_loop (length q.running) notify clock [] q.running swept in
      omega (
        arith,
        pump_loop-all_keys 2 0 looks polled,
        poll_loop-all_keys (length q.running) notify clock [] q.running swept,
        sum-append w q.freed (acknowledged q.disposing),
        sum-disposing w q.disposing,
      )

  with_outcome-all_keys :
      (q : Queue) (i : ℕ) (c : Channel Outcome) → all_keys (with_outcome q i c) ≡ all_keys q
  unfolding with_outcome
  with_outcome-all_keys q i c = elim (Option-cases (get_elem? q.running i)) [
    | inl gone ↦ rw (gone, with_outcome)
    | inr (r, there) ↦
        rw (there, with_outcome)
          (omega (arith, sum-set of_running q.running i r (record r { receiver = c }) there refl))
  ]

  with_acknowledgement-all_keys :
      (q : Queue) (i : ℕ) (c : Channel (Unit {0}))
      → all_keys (with_acknowledgement q i c) ≡ all_keys q
  unfolding with_acknowledgement
  with_acknowledgement-all_keys q i c = elim (Option-cases (get_elem? q.disposing i)) [
    | inl gone ↦ rw (gone, with_acknowledgement)
    | inr (d, there) ↦
        rw (there, with_acknowledgement)
          (omega
            (arith, sum-set of_disposing q.disposing i d (record d { receiver = c }) there refl))
  ]

  -- The keys that a history has put into the queue.
  abbrev pub enqueued : List Op → ℕ
  enqueued [] = 0
  enqueued (op_enqueue key job now looks ∷ ops) = w key + enqueued ops
  enqueued (op_poll notify clock looks ∷ ops) = enqueued ops
  enqueued (worker_sends i c ∷ ops) = enqueued ops
  enqueued (reaper_sends i c ∷ ops) = enqueued ops

  run-all_keys : (ops : List Op) (q : Queue) → all_keys (run q ops) ≡ enqueued ops + all_keys q
  unfolding run step enqueue pump
  run-all_keys [] q = omega arith
  run-all_keys (op_enqueue key job now looks ∷ ops) q =
      let entry : Entry = record {
        key = key;
        job = job;
        failures = 0;
        last_error = none;
        ready_at = now;
      } in
      omega (
        arith,
        run-all_keys ops (step q (op_enqueue key job now looks)),
        pump_loop-all_keys 2 0 looks (record q { pending = q.pending ++ entry ∷ [] }),
        sum-append of_entry q.pending (entry ∷ []),
      )
  run-all_keys (op_poll notify clock looks ∷ ops) q = omega (
    arith,
    run-all_keys ops (step q (op_poll notify clock looks)),
    poll-all_keys q notify clock looks,
  )
  run-all_keys (worker_sends i c ∷ ops) q =
      omega (arith, run-all_keys ops (step q (worker_sends i c)), with_outcome-all_keys q i c)
  run-all_keys (reaper_sends i c ∷ ops) q =
      omega
        (arith, run-all_keys ops (step q (reaper_sends i c)), with_acknowledgement-all_keys q i c)

-- After any history of calls, whatever the workers and the reaper answer or lose and whichever threads
-- do not start, the keys of any kind that were put into the queue are exactly those that it still
-- holds and those whose resources are gone.
pub run-new-all_keys :
    (p : Key → Bool) (ops : List Op)
    → let w = λ (k : Key). nat_of (p k) in
      let q = run new ops in held w q + sum w q.freed ≡ enqueued w ops
unfolding new
run-new-all_keys p ops = omega (arith, run-all_keys (λ (k : Key). nat_of (p k)) ops new)
