-- ===== src/Examples/Cleanup.antt =====
-- A cleanup queue at work (src/lifecycle.rs).
use cocoa_way.Base.{sum, ℕ, ◌+◌, ◌≤◌, ◌≡◌, true, some, List, [], ◌∷◌, arith, length, nat_of, All}
use cocoa_way.Cleanup.{
  Key, session, display, abandoned, done, failed, sent, lost, Entry, Queue, new, Look, poll,
  is_display,
}
use cocoa_way.Cleanup.Kept.{
  Op, op_enqueue, op_poll, worker_sends, reaper_sends, run, held, enqueued, run-new-all_keys,
}
use cocoa_way.Cleanup.Limits.{Unfinished, poll-Unfinished}

abbrev looks : ℕ → Look
looks turn = record { now = 50; starts = true; retries_at = 60 }

abbrev clock : ℕ → ℕ
clock turn = 70

-- Two jobs run, a third waits; the first ends, the second is lost and comes back.
abbrev ops : List Op
ops =
    op_enqueue (session 1 7) 0 10 looks
    ∷ op_enqueue (display 7) 1 20 looks
    ∷ op_enqueue abandoned 2 30 looks
    ∷ worker_sends 0 (sent done)
    ∷ worker_sends 1 lost
    ∷ op_poll true clock looks
    ∷ reaper_sends 0 (sent tt)
    ∷ op_poll true clock looks
    ∷ []

run-new-all_keys_example :
    held (λ (k : Key). nat_of (is_display 7 k)) (run new ops)
      + sum (λ (k : Key). nat_of (is_display 7 k)) (run new ops).freed
    ≡ enqueued (λ (k : Key). nat_of (is_display 7 k)) ops
run-new-all_keys_example = run-new-all_keys (is_display 7) ops

abbrev entry : Entry
entry = record { key = display 3; job = 4; failures = 2; last_error = some 9; ready_at = 5 }

abbrev queue : Queue
queue = record {
  pending = entry ∷ [];
  running = record { entry = entry; receiver = sent (failed 9) } ∷ [];
  disposing = [];
  freed = [];
  told = [];
}

poll-Unfinished_example :
    All Unfinished (poll queue true clock looks).running
    × (length (poll queue true clock looks).running ≤ 2)
poll-Unfinished_example = poll-Unfinished queue true clock looks (omega arith)
