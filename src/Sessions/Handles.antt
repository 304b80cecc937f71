-- ===== src/Sessions/Handles.antt =====
-- The handles of processes in what the program owns: how often one is held.
use cocoa_way.Base.{sum, ℕ, ◌+◌, Option, none, some, ◌==◌, nat_of}
use cocoa_way.Sessions.{
  DisplayWorker, ActiveContainerSession, ManagedDisplay, LaunchReport, Resources, session_resources,
  display_resources, launch_resources, remainders, Job,
}
use cocoa_way.Sessions.Draining.{
  Message, dedicated_display_started, managed_display_started, launch_finished, other_message,
}

-- `c` is the handle that is counted.
module _ (c : ℕ) where
  abbrev pub is_handle : ℕ → ℕ
  is_handle child = nat_of (child == c)

  abbrev pub in_option : Option ℕ → ℕ
  in_option none = 0
  in_option (some child) = is_handle child

  abbrev pub in_worker : Option DisplayWorker → ℕ
  in_worker none = 0
  in_worker (some worker) = is_handle worker.child

  abbrev pub in_session : ActiveContainerSession → ℕ
  in_session s =
      in_option s.container_child + is_handle s.waypipe_child + in_worker s.display_worker

  abbrev pub in_display : ManagedDisplay → ℕ
  in_display d = is_handle d.worker.child

  abbrev pub in_report : Option LaunchReport → ℕ
  in_report none = 0
  in_report (some r) = in_option r.container_child + is_handle r.waypipe_child

  abbrev pub in_entry : ℕ × DisplayWorker → ℕ
  in_entry e = is_handle e.1.child

  abbrev pub in_resources : Resources → ℕ
  in_resources (session_resources r) = in_session r.session
  in_resources (display_resources r) = is_handle r.worker.child
  in_resources (launch_resources r) = in_report r.report + in_worker r.worker
  in_resources (remainders r) = sum in_entry r.workers

  abbrev pub in_job : Job → ℕ
  in_job j = in_resources j.resources

  abbrev pub in_message : Message → ℕ
  in_message (dedicated_display_started id generation slot worker) = is_handle worker.child
  in_message (managed_display_started slot worker) = is_handle worker.child
  in_message (launch_finished id generation slot report) = in_report report
  in_message other_message = 0
