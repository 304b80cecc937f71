-- ===== src/WaylandSource/Steps.antt =====
-- The calls of the event loop on a source (src/wayland_source.rs), and its histories with the thread.
use cocoa_way.Base.{
  ℕ, ◌+◌, true, false, not, ◌||◌, Option, none, some, List, [], ◌∷◌, if◌then◌else◌,
}
use cocoa_way.WaylandSource.{take_failure, apply_interest}
use cocoa_way.WaylandSource.Watch.{Source, Phase, top, ended, Answers, thread_step}

-- The thread as it is started.
unfoldable pub start : Source
start = record {
  armed = true;
  has_notice = false;
  notice_due = false;
  status = record { stopping = false; failure = record { recorded = false; message = none } };
  output = record { clients = []; blocked = [] };
  phase = top;
  is_woken = false;
  failure_wakes = 0;
}

-- A write that would block finds bytes that are not read yet.
unfoldable pub notify : Source → Source
notify s = record s { has_notice = true; notice_due = false }

-- The calls up to their `notify`, which follows as a step of its own: the lock is released before it.
unfoldable pub set_output_interest : List ℕ → List ℕ → Source → Source
set_output_interest removed blocked s =
    let (output, changed) = apply_interest removed blocked s.output in
    record s { output = output; notice_due = changed || s.notice_due }

unfoldable pub rearm : Source → Source
rearm s = record s { armed = true; is_woken = false; notice_due = not s.armed || s.notice_due }

-- `stop` up to its `notify`, and after the join of the thread.
unfoldable pub stop : Source → Source
stop s = record s {
  status = record { stopping = true; failure = s.status.failure };
  notice_due = true;
}

unfoldable pub after_join : Phase → Source → Source
after_join ended s = record s { output = record { clients = []; blocked = [] } }
after_join other s = s

pub data Step : Type 0 where
  step_thread : Answers → Step
  step_interest : List ℕ → List ℕ → Step
  step_notify step_rearm step_stop step_join step_take : Step

abbrev pub count_of : Option ℕ → ℕ
count_of none = 0
count_of (some message) = 1

-- The source with the number of failures that were taken.
unfoldable pub step : Source × ℕ → Step → Source × ℕ
step (s, taken) (step_thread answers) = (thread_step s.phase answers s, taken)
step (s, taken) (step_interest removed blocked) = (set_output_interest removed blocked s, taken)
step (s, taken) step_notify = (if s.notice_due then notify s else s, taken)
step (s, taken) step_rearm = (rearm s, taken)
step (s, taken) step_stop = (stop s, taken)
step (s, taken) step_join = (after_join s.phase s, taken)
step (s, taken) step_take =
    let (status, message) = take_failure s.status in
    (record s { status = status }, count_of message + taken)

unfoldable pub run : Source × ℕ → List Step → Source × ℕ
run w [] = w
run w (s ∷ ss) = run (step w s) ss
