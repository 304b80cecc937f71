-- ===== src/LatencyTrace/Captured.antt =====
-- What the writer has written and what its summary counts (src/latency_trace.rs, write_trace_to).
use cocoa_way.Base.{
  ℕ, ◌+◌, ◌-◌, ◌<◌, ◌≡◌, refl, sym, ap, subst, ◌∙◌, inl, inr, Bool, true, false, ◌&&◌, List, [],
  ◌∷◌, ◌++◌, length, ltb, ◌==◌, arith, Bool-cases,
}
use cocoa_way.LatencyTrace.{
  Counts, enter, close, closed_and_idle, leave, Row, event_row, stats_row, Writer, at_top, draining,
  receiving, broken, returned, Trace, start, is_receiving, queue_capacity, enqueue, summary_of,
  finish_turn, write_event, writer_step, Step, step_enter, step_leave, step_close, step_enqueue,
  step_writer, admitted, step, run,
}
use cocoa_way.LatencyTrace.Admission.{
  IsAdmission, close-IsAdmission, enter-IsAdmission, leave-IsAdmission, closed_and_idle_sound,
}

-- The events that were written.
abbrev pub events : List Row → List ℕ
events [] = []
events (event_row event ∷ rows) = event ∷ events rows
events (stats_row summary final ∷ rows) = events rows

-- All that was queued is written or still queued, in order, unless the sink has failed. Once the
-- writer has seen the capture closed with no call alive it stays so, and a summary that was returned
-- has an empty queue and the counts as they are.
unfoldable pub Settled : Writer → Bool → ℕ → Counts → List ℕ → List ℕ → List ℕ → Type 0
Settled at_top b calls c written queue accepted = written ++ queue ≡ accepted
Settled receiving b calls c written queue accepted = written ++ queue ≡ accepted
Settled draining b calls c written queue accepted =
    (written ++ queue ≡ accepted) × (b ≡ true) × (calls ≡ 0)
Settled broken b calls c written queue accepted = b ≡ true
Settled (returned summary) b calls c written queue accepted =
    (written ≡ accepted)
    × (b ≡ true)
    × (calls ≡ 0)
    × (queue ≡ [])
    × (c.dropped ≡ summary.dropped)
    × (c.rejected ≡ summary.rejected)

pub IsCaptured : Trace → Type 0
IsCaptured t =
    (b : Bool) × IsAdmission t.counts t.calls b
    × Settled t.writer b t.calls t.counts (events t.rows) t.queue t.accepted

-- A call that enters, and the end of the capture.
entered-Settled :
    (w : Writer) (b : Bool) (calls more : ℕ) (c d : Counts) (written queue accepted : List ℕ)
    → (b ≡ true → more ≡ 0)
    → d.dropped ≡ c.dropped
    → d.rejected ≡ c.rejected
    → Settled w b calls c written queue accepted
    → Settled w b (more + calls) d written queue accepted
unfolding Settled
entered-Settled at_top b calls more c d written queue accepted none_more e f h = h
entered-Settled receiving b calls more c d written queue accepted none_more e f h = h
entered-Settled draining b calls more c d written queue accepted none_more e f (kept, over, idle) =
    (kept, over, omega (arith, idle, none_more over))
entered-Settled broken b calls more c d written queue accepted none_more e f h = h
entered-Settled (returned summary) b calls more c d written queue accepted none_more e f
      (kept, over, idle, empty, g, h) =
    (kept, over, omega (arith, idle, none_more over), empty, e ∙ g, f ∙ h)

closed-Settled :
    (w : Writer) (b : Bool) (calls : ℕ) (c : Counts) (written queue accepted : List ℕ)
    → Settled w b calls c written queue accepted
    → Settled w true calls (close c) written queue accepted
unfolding Settled close
closed-Settled at_top b calls c written queue accepted h = h
closed-Settled receiving b calls c written queue accepted h = h
closed-Settled draining b calls c written queue accepted (kept, over, idle) = (kept, refl, idle)
closed-Settled broken b calls c written queue accepted h = refl
closed-Settled (returned summary) b calls c written queue accepted (kept, over, idle, empty, e, f) =
    (kept, refl, idle, empty, e, f)

-- While a call is alive the writer has not finished: what the call counts or queues is not settled yet.
alive-Settled :
    (w : Writer) (b : Bool) (calls left : ℕ) (c d : Counts)
    (written queue later accepted all : List ℕ)
    → 0 < calls
    → (written ++ queue ≡ accepted → written ++ later ≡ all)
    → Settled w b calls c written queue accepted
    → Settled w b left d written later all
unfolding Settled
alive-Settled at_top b calls left c d written queue later accepted all alive grows h = grows h
alive-Settled receiving b calls left c d written queue later accepted all alive grows h = grows h
alive-Settled draining b calls left c d written queue later accepted all alive grows
      (kept, over, idle) =
    absurd (omega (arith, idle))
alive-Settled broken b calls left c d written queue later accepted all alive grows h = h
alive-Settled (returned summary) b calls left c d written queue later accepted all alive grows
      (kept, over, idle, empty, e, f) =
    absurd (omega (arith, idle))

enter-IsCaptured : (t : Trace) → IsCaptured t → IsCaptured (step t step_enter)
unfolding IsCaptured step
enter-IsCaptured t (b, word, settled) =
    let (after, none_more, e, f) = enter-IsAdmission t.counts t.calls b word in
    let (counts, entry) = enter t.counts in
    (
      b,
      after,
      entered-Settled t.writer b t.calls (admitted entry) t.counts counts (events t.rows) t.queue
          t.accepted none_more e f settled,
    )

close-IsCaptured : (t : Trace) → IsCaptured t → IsCaptured (step t step_close)
unfolding IsCaptured step
close-IsCaptured t (b, word, settled) = (
  true,
  close-IsAdmission t.counts t.calls b word,
  closed-Settled t.writer b t.calls t.counts (events t.rows) t.queue t.accepted settled,
)

leave-IsCaptured : (t : Trace) → IsCaptured t → IsCaptured (step t step_leave)
unfolding IsCaptured step
leave-IsCaptured t (b, word, settled) = elim (Bool-cases (t.calls == 0)) [
  | inl idle ↦ rw idle (b, word, settled)
  | inr alive ↦
      let some_call : 0 < t.calls = ground arith in
      rw alive (
        b,
        leave-IsAdmission t.counts t.calls b some_call word,
        alive-Settled t.writer b t.calls (t.calls - 1) t.counts (leave t.counts) (events t.rows)
            t.queue t.queue t.accepted t.accepted some_call (λ e. e) settled,
      )
]

append_assoc : (xs ys zs : List ℕ) → (xs ++ ys) ++ zs ≡ xs ++ (ys ++ zs)
append_assoc [] ys zs = refl
append_assoc (x ∷ xs) ys zs = ap (λ l. x ∷ l) (append_assoc xs ys zs)

enqueue-IsCaptured :
    (reject : Bool) (event : ℕ) (t : Trace)
    → 0 < t.calls
    → IsCaptured t
    → IsCaptured (enqueue reject event t)
unfolding IsCaptured enqueue IsAdmission
enqueue-IsCaptured true event t alive (b, word, settled) = (
  b,
  word,
  alive-Settled t.writer b t.calls t.calls t.counts _ (events t.rows) t.queue t.queue t.accepted
      t.accepted alive (λ e. e) settled,
)
enqueue-IsCaptured false event t alive (b, word, settled) =
    elim (Bool-cases (is_receiving t.writer && ltb (length t.queue) queue_capacity)) [
      | inl room ↦ rw room (
        b,
        word,
        alive-Settled t.writer b t.calls t.calls t.counts t.counts (events t.rows) t.queue
            (t.queue ++ event ∷ []) t.accepted (t.accepted ++ event ∷ []) alive
            (λ e.
              sym (append_assoc (events t.rows) t.queue (event ∷ [])) ∙ ap (λ l. l ++ event ∷ []) e)
            settled,
      )
      | inr full ↦ rw full (
        b,
        word,
        alive-Settled t.writer b t.calls t.calls t.counts _ (events t.rows) t.queue t.queue
            t.accepted t.accepted alive (λ e. e) settled,
      )
    ]

events-append : (front back : List Row) → events (front ++ back) ≡ events front ++ events back
events-append [] back = refl
events-append (event_row event ∷ front) back = ap (λ l. event ∷ l) (events-append front back)
events-append (stats_row summary final ∷ front) back = events-append front back

append_nil : (xs : List ℕ) → xs ++ [] ≡ xs
append_nil [] = refl
append_nil (x ∷ xs) = ap (λ l. x ∷ l) (append_nil xs)

-- The end of a turn that has not drained the capture.
turn-IsCaptured :
    (elapsed works : Bool) (b : Bool) (t : Trace)
    → IsAdmission t.counts t.calls b
    → events t.rows ++ t.queue ≡ t.accepted
    → IsCaptured (finish_turn false false elapsed works t)
unfolding IsCaptured finish_turn Settled
turn-IsCaptured false works b t word kept = (b, word, kept)
turn-IsCaptured true false b t word kept = (true, close-IsAdmission t.counts t.calls b word, refl)
turn-IsCaptured true true b t word kept =
    let rows =
      events-append t.rows (stats_row (summary_of false t.counts) false ∷ [])
      ∙ append_nil (events t.rows) in
    (b, word, ap (λ l. l ++ t.queue) rows ∙ kept)

drained-IsCaptured :
    (gone elapsed works : Bool) (t : Trace)
    → IsAdmission t.counts t.calls true
    → t.calls ≡ 0
    → t.queue ≡ []
    → events t.rows ++ t.queue ≡ t.accepted
    → IsCaptured (finish_turn gone true elapsed works t)
unfolding IsCaptured finish_turn Settled
drained-IsCaptured gone elapsed false t word idle empty kept =
    (true, close-IsAdmission t.counts t.calls true word, refl)
drained-IsCaptured gone elapsed true t word idle empty kept =
    let rows =
      events-append t.rows (stats_row (summary_of gone t.counts) true ∷ [])
      ∙ append_nil (events t.rows) in
    let all =
      sym (append_nil (events t.rows)) ∙ (ap (λ l. events t.rows ++ l) (sym empty) ∙ kept) in
    (true, word, (rows ∙ all, refl, idle, empty, refl, refl))

write_event-IsCaptured :
    (elapsed takes works : Bool) (event : ℕ) (queue : List ℕ) (b : Bool) (t : Trace)
    → IsAdmission t.counts t.calls b
    → events t.rows ++ (event ∷ queue) ≡ t.accepted
    → IsCaptured (write_event elapsed takes works event queue t)
unfolding write_event IsCaptured Settled
write_event-IsCaptured elapsed false works event queue b t word kept =
    (true, close-IsAdmission t.counts t.calls b word, refl)
write_event-IsCaptured elapsed true works event queue b t word kept =
    let rows =
      ap (λ l. l ++ queue) (events-append t.rows (event_row event ∷ []))
      ∙ append_assoc (events t.rows) (event ∷ []) queue in
    turn-IsCaptured elapsed works b
      (record t { queue = queue; rows = t.rows ++ event_row event ∷ [] }) word (rows ∙ kept)

writer-IsCaptured :
    (w : Writer) (queue : List ℕ) (gone elapsed takes works : Bool) (b : Bool) (t : Trace)
    → t.writer ≡ w
    → t.queue ≡ queue
    → IsAdmission t.counts t.calls b
    → Settled w b t.calls t.counts (events t.rows) t.queue t.accepted
    → IsCaptured (writer_step w queue gone elapsed takes works t)
unfolding writer_step Settled IsCaptured
writer-IsCaptured at_top queue gone elapsed takes works b t e f word kept =
    elim (Bool-cases (closed_and_idle t.counts)) [
      | inl over ↦
          let (set, idle) = closed_and_idle_sound t.counts t.calls b word over in
          rw over (b, word, (kept, set, idle))
      | inr going ↦ rw going (b, word, kept)
    ]
writer-IsCaptured draining [] gone elapsed takes works b t e f word (kept, over, idle) =
    drained-IsCaptured gone elapsed works t (subst (IsAdmission t.counts t.calls) over word) idle f
      kept
writer-IsCaptured draining (event ∷ queue) gone elapsed takes works b t e f word
      (kept, over, idle) =
    write_event-IsCaptured elapsed takes works event queue b t word
      (ap (λ l. events t.rows ++ l) (sym f) ∙ kept)
writer-IsCaptured receiving [] true elapsed takes works b t e f word kept =
    (true, close-IsAdmission t.counts t.calls b word, kept)
writer-IsCaptured receiving [] false elapsed takes works b t e f word kept =
    turn-IsCaptured elapsed works b t word kept
writer-IsCaptured receiving (event ∷ queue) gone elapsed takes works b t e f word kept =
    write_event-IsCaptured elapsed takes works event queue b t word
      (ap (λ l. events t.rows ++ l) (sym f) ∙ kept)
writer-IsCaptured broken queue gone elapsed takes works b t e f word over = (b, word, rw e over)
writer-IsCaptured (returned summary) queue gone elapsed takes works b t e f word settled =
    (b, word, rw e settled)

step-IsCaptured : (t : Trace) (s : Step) → IsCaptured t → IsCaptured (step t s)
step-IsCaptured t step_enter h = enter-IsCaptured t h
step-IsCaptured t step_leave h = leave-IsCaptured t h
step-IsCaptured t step_close h = close-IsCaptured t h
step-IsCaptured t (step_enqueue reject event) h =
    unfold step in
    elim (Bool-cases (t.calls == 0)) [
      | inl idle ↦ rw idle h
      | inr alive ↦ rw alive (enqueue-IsCaptured reject event t (ground arith) h)
    ]
step-IsCaptured t (step_writer gone elapsed takes works) h =
    unfold step IsCaptured in
    writer-IsCaptured t.writer t.queue gone elapsed takes works h.0 t refl refl h.1 h.2

run-IsCaptured : (t : Trace) (ss : List Step) → IsCaptured t → IsCaptured (run t ss)
unfolding run
run-IsCaptured t [] h = h
run-IsCaptured t (s ∷ ss) h = run-IsCaptured (step t s) ss (step-IsCaptured t s h)

-- In any order of the calls, the end of the capture and the steps of the writer: the word counts the
-- calls that are alive, and every event that was queued is written or still queued, in order, unless
-- the sink has failed, and then the capture is closed. A summary that the writer has returned is
-- final: the capture is closed with no call alive, all that was queued is written, and its counts of
-- dropped and rejected events are those of the capture however many calls come later.
pub run-start-IsCaptured : (ss : List Step) → IsCaptured (run start ss)
unfolding start IsCaptured IsAdmission Settled
run-start-IsCaptured ss = run-IsCaptured start ss (false, (refl, omega arith), refl)
