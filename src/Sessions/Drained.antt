-- ===== src/Sessions/Drained.antt =====
-- Handles of processes in late results (src/shutdown.rs).
use cocoa_way.Base.{
  sum, sum-append, ℕ, zero, suc, ◌+◌, ◌≤◌, ◌≡◌, refl, inl, inr, Option, none, some, List, [], ◌∷◌,
  ◌==◌, length, arith, Bool-cases,
}
use cocoa_way.Sessions.{DisplayWorker, PendingProfileOperation, queue_display_cleanup}
use cocoa_way.Sessions.Draining.{
  get_entry, remove_entry, Message, dedicated_display_started, managed_display_started,
  launch_finished, other_message, Draining, take_attempt, take_worker, drain_message, drain_loop,
  drain_owned_results, retain_remainders,
}
use cocoa_way.Sessions.Handles.{in_worker, in_job, in_message, in_entry}
use cocoa_way.Sessions.Kept.{enqueue_display-sum, queue_launch-sum}

module _ (c : ℕ) where
  remove_entry-sum :
      (id : ℕ) (entries : List (ℕ × DisplayWorker))
      → in_worker c (get_entry id entries) + sum (in_entry c) (remove_entry id entries)
        ≡ sum (in_entry c) entries
  unfolding get_entry remove_entry
  remove_entry-sum id [] = refl
  remove_entry-sum id ((k, w) ∷ entries) =
      let later = remove_entry-sum id entries in
      elim (Bool-cases (k == id)) [
        | inl here ↦ rw here (omega arith)
        | inr other ↦ rw other (omega (arith, later))
      ]

  take_worker-sum :
      (operation : Option PendingProfileOperation) (id : ℕ) (ws : List (ℕ × DisplayWorker))
      → let (rest, worker) = take_worker operation id ws in
        in_worker c worker + sum (in_entry c) rest ≡ sum (in_entry c) ws
  unfolding take_worker
  take_worker-sum none id ws = omega arith
  take_worker-sum (some operation) id ws = remove_entry-sum id ws

  -- The workers that are kept and the jobs.
  pub drained : Draining → ℕ
  drained d = sum (in_entry c) d.workers + sum (in_job c) d.jobs

  drain_message-held :
      (d : Draining) (m : Message) → drained (drain_message d m) ≡ in_message c m + drained d
  unfolding drain_message drained
  drain_message-held d (dedicated_display_started id generation slot worker) =
      omega (arith, queue_launch-sum c id slot none (some worker) _ d.jobs)
  drain_message-held d (managed_display_started slot worker) =
      unfold queue_display_cleanup in omega (arith, enqueue_display-sum c _ d.jobs)
  drain_message-held d (launch_finished id generation slot report) =
      let operation = (take_attempt d.operations id generation).1 in
      omega (
        arith,
        take_worker-sum operation id d.workers,
        queue_launch-sum c id slot report _ operation d.jobs,
      )
  drain_message-held d other_message = omega arith

  retain-held : (d : Draining) → sum (in_job c) (retain_remainders d) ≡ drained d
  unfolding retain_remainders drained
  retain-held d = omega (arith, sum-append {0} (in_job c) d.jobs (_ ∷ []))

  drain_loop-held :
      (room : ℕ) (ms : List Message) (d : Draining)
      → let (count, rest, last) = drain_loop room ms d in
        (sum (in_message c) rest + drained last ≡ sum (in_message c) ms + drained d)
        × (count + length rest ≡ length ms)
        × (count ≤ room)
  unfolding drain_loop
  drain_loop-held zero ms d = (omega arith, omega arith, omega arith)
  drain_loop-held (suc room) [] d = (omega arith, omega arith, omega arith)
  drain_loop-held (suc room) (m ∷ ms) d =
      let (same, count, few) = drain_loop-held room ms (drain_message d m) in
      let own = drain_message-held d m in
      (omega (arith, same, own), omega (arith, count), omega (arith, few))

  -- What workers report after the end is handed to a clean-up job, with the display worker that
  -- belongs to it: each handle is held as often by the messages left, the display workers and the jobs
  -- after `drain_owned_results` as by the messages, the workers and the jobs before. It takes at most
  -- 256 messages, and the rest stays. With `retain_remainders` the workers that are left are in a job
  -- as well.
  pub drain_owned_results-Kept :
      (messages : List Message) (d : Draining)
      → let (count, rest, last) = drain_owned_results messages d in
        (sum (in_message c) rest + drained last ≡ sum (in_message c) messages + drained d)
        × (count + length rest ≡ length messages)
        × (count ≤ 256)
        × (sum (in_job c) (retain_remainders last) ≡ drained last)
  unfolding drain_owned_results
  drain_owned_results-Kept messages d =
      let (same, count, few) = drain_loop-held 256 messages d in
      (same, count, few, retain-held (drain_loop 256 messages d).2)
