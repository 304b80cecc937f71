-- ===== src/Clipboard/Started.antt =====
-- Histories of the image worker (src/clipboard_transfer.rs): the owner replaces, starts and polls, and
-- the worker takes jobs, sends results and ends, in any order.
use cocoa_way.Base.{◌≡◌, refl, Bool, Option, none, List, [], ◌∷◌, ◌++◌}
use cocoa_way.Clipboard.Images.{
  HostImageToken, HostImageResult, HostImageJob, HostImageChannels, HostImageWorker,
  replace_pending, start_pending, poll, worker_takes, worker_sends, worker_ends,
}
use cocoa_way.Clipboard.Places.{
  to_list, polled, launched, map_channels, Carries, Keeps, takes-Keeps, sends-Keeps, ends-Keeps,
  map-Carries, start_for-IsSingle, poll_for-IsSingle,
}

-- The worker with the tokens of the jobs that were started and of the completions that were polled.
pub record Images : Type 0 where
  pub worker : HostImageWorker
  pub started : List HostImageToken
  pub completed : List HostImageToken

pub data Op : Type 0 where
  op_replace : Option HostImageJob → Op
  op_start : Bool → Op
  op_sends : Option HostImageResult → Op
  op_takes op_ends op_poll : Op

unfoldable pub at_worker : (HostImageChannels → HostImageChannels) → Images → Images
at_worker f s = record s { worker = record (s.worker) { worker = map_channels f s.worker.worker } }

unfoldable pub step : Images → Op → Images
step s (op_replace image) = record s { worker = replace_pending s.worker image }
step s (op_start spawns) =
    let w = (start_pending s.worker spawns).0 in
    record s { worker = w; started = s.started ++ launched s.worker.in_flight w.in_flight }
step s (op_sends outcome) = at_worker (λ c. worker_sends c outcome) s
step s op_takes = at_worker worker_takes s
step s op_ends = at_worker worker_ends s
step s op_poll =
    let (w, completion) = poll s.worker in
    record s { worker = w; completed = s.completed ++ polled completion }

unfoldable pub run : Images → List Op → Images
run s [] = s
run s (op ∷ ops) = run (step s op) ops

abbrev pub start : Images
start = record {
  worker = record { pending = none; in_flight = none; worker = none };
  started = [];
  completed = [];
}

-- Every job that was started has been completed, but for the one in flight, in order; the job in
-- flight is in one place only, and nothing else is.
pub IsSingle : Images → Type 0
IsSingle s =
    (s.started ≡ s.completed ++ to_list s.worker.in_flight)
    × Carries s.worker.in_flight s.worker.worker

at_worker-IsSingle :
    (f : HostImageChannels → HostImageChannels) (s : Images)
    → Keeps f
    → IsSingle s
    → IsSingle (at_worker f s)
unfolding IsSingle at_worker
at_worker-IsSingle f s k (same, h) = (same, map-Carries f s.worker.in_flight s.worker.worker k h)

start-IsSingle : (s : Images) (spawns : Bool) → IsSingle s → IsSingle (step s (op_start spawns))
unfolding step start_pending IsSingle
start-IsSingle s spawns (same, h) =
    start_for-IsSingle s.worker.in_flight s.worker.pending s.worker spawns s.started s.completed
      refl same h

poll-IsSingle : (s : Images) → IsSingle s → IsSingle (step s op_poll)
unfolding step poll IsSingle
poll-IsSingle s (same, h) =
    poll_for-IsSingle s.worker.in_flight s.worker.worker s.worker s.started s.completed refl refl
      same h

step-IsSingle : (s : Images) (op : Op) → IsSingle s → IsSingle (step s op)
unfolding step
step-IsSingle s (op_replace image) h = unfold IsSingle replace_pending in h
step-IsSingle s (op_start spawns) h = start-IsSingle s spawns h
step-IsSingle s (op_sends outcome) h =
    at_worker-IsSingle (λ c. worker_sends c outcome) s (sends-Keeps outcome) h
step-IsSingle s op_takes h = at_worker-IsSingle worker_takes s takes-Keeps h
step-IsSingle s op_ends h = at_worker-IsSingle worker_ends s ends-Keeps h
step-IsSingle s op_poll h = poll-IsSingle s h

run-IsSingle : (s : Images) (ops : List Op) → IsSingle s → IsSingle (run s ops)
unfolding run
run-IsSingle s [] h = h
run-IsSingle s (op ∷ ops) h = run-IsSingle (step s op) ops (step-IsSingle s op h)

-- Whatever the owner and the worker do, in any order, and whether the worker panics, ends or cannot be
-- started: every job that was started is completed once, in order, but for the one in flight, and the
-- job in flight is in one place of the channels only, or the worker has ended with it.
pub run-start-IsSingle : (ops : List Op) → IsSingle (run start ops)
run-start-IsSingle ops = run-IsSingle start ops (unfold IsSingle Carries in (refl, tt))
