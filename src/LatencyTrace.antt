-- ===== src/LatencyTrace.antt =====
-- The capture of latency events (src/latency_trace.rs): the admission of recording calls, the bounded
-- queue and the thread that writes it. An event is a number. What the clock and the sink say are
-- inputs.
pub mod Admission
pub mod Captured
use cocoa_way.Base.{
  ℕ, zero, suc, ◌+◌, ◌-◌, ◌%◌, ◌^◌, bit_and, bit_or, Bool, true, false, not, ◌&&◌, ◌||◌, Option,
  none, some, List, [], ◌∷◌, ◌++◌, length, if◌then◌else◌, ltb, ◌==◌,
}

abbrev pub capture_closed : ℕ
capture_closed = 2 ^ 63

unfoldable pub queue_capacity : ℕ
queue_capacity = 1024

unfoldable pub max_tag_bytes : ℕ
max_tag_bytes = 256

-- `fetch_add(1)` on a 64-bit counter.
abbrev pub count_one : ℕ → ℕ
count_one n = (n + 1) % 2 ^ 64

pub record Counts : Type 0 where
  pub dropped : ℕ
  pub rejected : ℕ
  pub late_record_calls : ℕ
  pub admission : ℕ

pub data Entry : Type 0 where
  late too_many entered : Entry

-- The turn of the loop in `enter` whose compare-exchange succeeds; `too_many` is a panic.
unfoldable pub enter : Counts → Counts × Entry
enter c =
    if not (bit_and c.admission capture_closed == 0)
    then (record c { late_record_calls = count_one c.late_record_calls }, late)
    else if not (ltb c.admission (capture_closed - 1))
    then (c, too_many)
    else (record c { admission = c.admission + 1 }, entered)

unfoldable pub close : Counts → Counts
close c = record c { admission = bit_or c.admission capture_closed }

unfoldable pub closed_and_idle : Counts → Bool
closed_and_idle c = c.admission == capture_closed

-- `drop` of a recording.
unfoldable pub leave : Counts → Counts
leave c = record c { admission = c.admission - 1 }

-- A tag is a number or the bytes of a string.
pub data Tag : Type 0 where
  number_tag : ℕ → Tag
  string_tag : List ℕ → Tag

abbrev pub is_bad_tag : Option Tag → Bool
is_bad_tag none = false
is_bad_tag (some (number_tag n)) = false
is_bad_tag (some (string_tag bytes)) = (length bytes == 0) || ltb max_tag_bytes (length bytes)

abbrev pub any_bad_tag : List (Option Tag) → Bool
any_bad_tag [] = false
any_bad_tag (tag ∷ tags) = is_bad_tag tag || any_bad_tag tags

unfoldable pub is_rejected : Bool → ℕ → List (Option Tag) → Bool
is_rejected requires_reported_time timestamp tags =
    requires_reported_time && (timestamp == 0) || any_bad_tag tags

pub record CaptureSummary : Type 0 where
  pub dropped : ℕ
  pub rejected : ℕ
  pub late_record_calls_observed : ℕ
  pub lifetime_loss_totals_known : Bool

-- A line that the writer has written.
pub data Row : Type 0 where
  event_row : ℕ → Row
  stats_row : CaptureSummary → Bool → Row

-- Where the writer is: at the head of its loop, at `try_recv` on a closed and idle capture, at
-- `recv_timeout`, returned with a summary, or ended by an error of the sink.
pub data Writer : Type 0 where
  at_top draining receiving broken : Writer
  returned : CaptureSummary → Writer

-- `calls` counts the recordings that are alive and `accepted` the events that were queued, in order.
pub record Trace : Type 0 where
  pub counts : Counts
  pub queue : List ℕ
  pub rows : List Row
  pub writer : Writer
  pub calls : ℕ
  pub accepted : List ℕ

unfoldable pub start : Trace
start = record {
  counts = record { dropped = 0; rejected = 0; late_record_calls = 0; admission = 0 };
  queue = [];
  rows = [];
  writer = at_top;
  calls = 0;
  accepted = [];
}

abbrev pub is_receiving : Writer → Bool
is_receiving at_top = true
is_receiving draining = true
is_receiving receiving = true
is_receiving broken = false
is_receiving (returned summary) = false

-- `enqueue`: `try_send` fails if the queue is full or the writer is gone.
unfoldable pub enqueue : Bool → ℕ → Trace → Trace
enqueue reject event t =
    if reject
    then record t { counts = record t.counts { rejected = count_one t.counts.rejected } }
    else if is_receiving t.writer && ltb (length t.queue) queue_capacity
    then record t { queue = t.queue ++ event ∷ []; accepted = t.accepted ++ event ∷ [] }
    else record t { counts = record t.counts { dropped = count_one t.counts.dropped } }

abbrev pub summary_of : Bool → Counts → CaptureSummary
summary_of known c = record {
  dropped = c.dropped;
  rejected = c.rejected;
  late_record_calls_observed = c.late_record_calls;
  lifetime_loss_totals_known = known;
}

-- The end of a turn of the writer; an error of the sink closes the capture.
unfoldable pub finish_turn : Bool → Bool → Bool → Bool → Trace → Trace
finish_turn gone drained elapsed sink_works t =
    let summary = summary_of (drained && gone) t.counts in
    let stats = record t { rows = t.rows ++ stats_row summary drained ∷ [] } in
    if not (drained || elapsed)
    then record t { writer = at_top }
    else if not sink_works
    then record t { counts = close t.counts; writer = broken }
    else record stats { writer = if drained then returned summary else at_top }

unfoldable pub write_event : Bool → Bool → Bool → ℕ → List ℕ → Trace → Trace
write_event elapsed takes_event works event queue t =
    if takes_event
    then finish_turn false false elapsed works
        (record t { queue = queue; rows = t.rows ++ event_row event ∷ [] })
    else record t { counts = close t.counts; queue = queue; writer = broken }

-- A step of the writer: whether the senders are gone, the flush is due, and the sink takes the line of an
-- event and that of the statistics.
unfoldable pub writer_step : Writer → List ℕ → Bool → Bool → Bool → Bool → Trace → Trace
writer_step at_top queue gone elapsed takes works t = record t {
  writer = if closed_and_idle t.counts then draining else receiving;
}
writer_step draining [] gone elapsed takes works t = finish_turn gone true elapsed works t
writer_step draining (event ∷ queue) gone elapsed takes works t =
    write_event elapsed takes works event queue t
writer_step receiving [] true elapsed takes works t = record t {
  counts = close t.counts;
  writer = at_top;
}
writer_step receiving [] false elapsed takes works t = finish_turn false false elapsed works t
writer_step receiving (event ∷ queue) gone elapsed takes works t =
    write_event elapsed takes works event queue t
writer_step broken queue gone elapsed takes works t = t
writer_step (returned summary) queue gone elapsed takes works t = t

pub data Step : Type 0 where
  step_enter step_leave step_close : Step
  step_enqueue : Bool → ℕ → Step
  step_writer : Bool → Bool → Bool → Bool → Step

abbrev pub admitted : Entry → ℕ
admitted late = 0
admitted too_many = 0
admitted entered = 1

-- A call enqueues and leaves only while it is alive.
unfoldable pub step : Trace → Step → Trace
step t step_enter =
    let (counts, entry) = enter t.counts in
    record t { counts = counts; calls = admitted entry + t.calls }
step t step_leave =
    if t.calls == 0 then t else record t { counts = leave t.counts; calls = t.calls - 1 }
step t step_close = record t { counts = close t.counts }
step t (step_enqueue reject event) = if t.calls == 0 then t else enqueue reject event t
step t (step_writer gone elapsed takes works) =
    writer_step t.writer t.queue gone elapsed takes works t

unfoldable pub run : Trace → List Step → Trace
run t [] = t
run t (s ∷ ss) = run (step t s) ss
