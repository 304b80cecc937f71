-- ===== src/Examples/Traces.antt =====
-- Runs of the capture of latency events (src/latency_trace.rs).
use cocoa_way.Base.{◌≡◌, refl, true, false, List, [], ◌∷◌}
use cocoa_way.LatencyTrace as trace
use cocoa_way.LatencyTrace.{
  Step, step_enter, step_leave, step_close, step_enqueue, step_writer, at_top, returned,
}
use cocoa_way.LatencyTrace.Captured.{events, IsCaptured, run-start-IsCaptured}

-- A turn of the writer takes two steps.
abbrev turn : Step
turn = step_writer false false true true

-- A call that queues an event after the end of the capture, one that comes too late, and the drain.
abbrev calls : List Step
calls =
    step_enter
    ∷ step_enqueue false 7
    ∷ step_close
    ∷ step_enter
    ∷ step_enqueue false 8
    ∷ step_enqueue true 9
    ∷ step_leave
    ∷ turn
    ∷ turn
    ∷ turn
    ∷ turn
    ∷ turn
    ∷ turn
    ∷ []

run-start-IsCaptured_example : IsCaptured (trace.run trace.start calls)
run-start-IsCaptured_example = run-start-IsCaptured calls

-- Both events are written, and the late call and the rejected event are counted.
events-calls : events (trace.run trace.start calls).rows ≡ 7 ∷ 8 ∷ []
unfolding trace.run trace.start trace.step trace.enter trace.close trace.closed_and_idle trace.leave
    trace.enqueue trace.queue_capacity trace.finish_turn trace.write_event trace.writer_step
events-calls = refl

writer-calls :
    (trace.run trace.start calls).writer
    ≡ returned (record {
      dropped = 0;
      rejected = 1;
      late_record_calls_observed = 1;
      lifetime_loss_totals_known = false;
    })
unfolding trace.run trace.start trace.step trace.enter trace.close trace.closed_and_idle trace.leave
    trace.enqueue trace.queue_capacity trace.finish_turn trace.write_event trace.writer_step
writer-calls = refl
