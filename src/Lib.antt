-- ===== src/Lib.antt =====
-- Verification library for cocoa-way, a Wayland compositor that runs as a native macOS application.
--
-- The program's own logic stands in small files beside the protocol library, the window system and
-- Metal: what a renderer may allocate and overwrite, when a window draws, who owns the keyboard and the
-- pointer, and how background threads wake the event loop. Each model translates one of those files;
-- what the libraries answer is an input.
--
-- Parts, with their paths from the repository's root:
--   Base            lists, tests, bits, finite maps and sorted sets over the native numbers.
--   Budget          src/render_budget.rs: the process-wide budget of texture storage. `Budget` is the
--                   shared state with the clients and live reservations it points to;
--                   `try_reserve_replacing`, `wait`, `wake_waiters`, `drop_reservation`, `set_retired`,
--                   `begin_read` and `end_read` are the operations of the same names.
--                   Budget/Steps makes them one machine.
--   FrameGate       src/texture_lifetime.rs, FrameGate: the atomic admission word on 64 bits.
--   Frames          src/texture_lifetime.rs, FrameLifetime: frames in flight, over the gate and the
--                   budget, with `complete` and `retain_reservation`.
--   Textures        src/texture_lifetime.rs, TextureVersions: the versions of one texture; in During the
--                   choice of a target while frames complete.
--   InputPolicy     src/input_policy.rs: keyboard ownership and focus policy; in Traffic what the keyboard
--                   gets, by release_pressed_keys, set_keyboard_owner and forward_keyboard_event of
--                   src/main.rs.
--   PointerInput    src/pointer_input.rs, and in Lock the driver of the pointer lock, the functions
--                   release_pointer_lock and reconcile_pointer_lock of src/main.rs.
--   FrameClock      src/frame_clock.rs: the deadlines of one window.
--   DisplayLink     src/display_link.rs: the demand for a drawable, and in Demands its histories.
--   Layout          src/layout.rs: the row of tiles; its histories in Focus.
--   ProcessOutput   src/process_output.rs: the lines of child processes and the budget of queued lines.
--   Clipboard       src/clipboard_transfer.rs: the transfer budget, and in Images and Contents the worker
--                   that converts images, the contents and the requests for them.
--   ProfileIdentity src/profile_identity.rs: the identity of a profile and its text.
--   Containers      src/container_mode/action_targets.rs, and in Identity, Deletion and Removal
--                   src/container_identity.rs: the identity of an owned container, the target of its
--                   deletion, and the clean-up with its commands.
--   ContainerSessions
--                   src/container_sessions.rs: the text of a session and its use as a signature.
--   Quoting         shell_single_quote of src/runtime_paths.rs, toml_escape and toml_string_list of
--                   src/container_sessions.rs, with readers of what they write.
--   WaylandSource   src/wayland_source.rs: the thread that watches the sockets, in Watch, and in Steps
--                   the calls of the event loop.
--   LatencyTrace    src/latency_trace.rs: the admission of recording calls, the queue and its writer.
--   Sessions        src/session_lifecycle.rs, and in Draining src/shutdown.rs: who holds the handles of
--                   processes: active sessions, managed displays and the clean-up jobs.
--   EventTurn       src/event_turn.rs: the background work of one turn of the event loop.
--   EventSignal     src/event_loop_signal.rs: the sender that wakes the event loop.
--   Cleanup         src/lifecycle.rs, CleanupQueue and QueueState: cleanup jobs with their retries. Cleanup/Kept
--                   has the histories.
--   Producers       src/lifecycle_producers.rs: the gate of the workers that produce resources.
--   Profiles        src/profile_activity.rs: activities of profiles, and in Identities the reservations
--                   of runtime identities.
--   Examples        runs of the models on small inputs.
--
-- How the parts meet: a renderer asks FrameGate for a frame, reads texture versions with it, and each
-- read retains a reservation of Budget; completion gives the readers back, wakes the clients that wait
-- for storage and the redraw that was refused. Frames is the composition of the three. PointerInput.Lock
-- composes the decisions of PointerInput with the eligibility of InputPolicy.
--
-- Numbers and time: counters are natural numbers with the source's checks and saturations written out;
-- the gate's word is a number below 2 ^ 64 and its masks are bit operations. An instant or a duration
-- is a number of nanoseconds. Byte counts of the budget do not overflow: they are bounded by its limits.
--
-- Concurrency: an operation that holds a lock is one step. Where the source releases a lock or uses
-- atomics, the steps are apart and every order of them is a history; histories are lists of operations.
-- The completion of a frame is one step with the wake that it ends with. Within a call on a texture the
-- completions stay, but in Textures/During, where every test reads them afresh.
-- A turn of a loop that tries an interrupted call again, as in WaylandSource, is one step.
-- Loops are structural recursion over the list that they visit; the only fuel is the number of waiters
-- in `notify_all` and of running jobs in `poll_loop`, which are the lengths of the lists that the loops
-- empty, the two turns of `pump`, which fill the queue, the digits of `decimal`, which has more fuel than
-- the number, and in the readers of Quoting and ContainerSessions how many values and lines they read.
-- The loop of `send_admitted` runs over what its turns see.
--
-- Not modelled: the protocol library, Metal, AppKit and the window system; floating-point geometry
-- (an origin of a pointer focus is compared by a test of any kind); logging; panics of locks that are
-- poisoned. The files that are not named here are not modelled.
mod Base
pub mod Budget
pub mod Cleanup
pub mod Clipboard
pub mod ContainerSessions
pub mod Containers
pub mod DisplayLink
pub mod EventSignal
pub mod EventTurn
mod Examples
pub mod FrameClock
pub mod FrameGate
pub mod Frames
pub mod InputPolicy
pub mod LatencyTrace
pub mod Layout
pub mod PointerInput
pub mod ProcessOutput
pub mod Producers
pub mod ProfileIdentity
pub mod Profiles
pub mod Quoting
pub mod Sessions
pub mod Textures
pub mod WaylandSource
