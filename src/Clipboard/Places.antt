-- ===== src/Clipboard/Places.antt =====
-- Where the image worker has the job in flight (src/clipboard_transfer.rs), and that its operations keep
-- track of it.
use cocoa_way.Base.{
  ◌≡◌, refl, sym, ap, subst, ◌∙◌, Bool, true, false, Option, none, some, List, [], ◌∷◌, ◌++◌,
}
use mathlib.Core.List.{append-nil}
use cocoa_way.Clipboard.Images.{
  HostImageToken, HostImageResult, HostImageCompletion, HostImageJob, HostImageChannels,
  HostImageWorker, try_send, sent, send_job, start_for, try_recv, poll_received, poll_for, take_job,
  worker_takes, send_result, worker_sends, worker_ends,
}

abbrev pub to_list : Option HostImageToken → List HostImageToken
to_list none = []
to_list (some token) = token ∷ []

abbrev pub polled : Option HostImageCompletion → List HostImageToken
polled none = []
polled (some completion) = completion.token ∷ []

-- The token that a start has put in flight.
unfoldable pub launched : Option HostImageToken → Option HostImageToken → List HostImageToken
launched none after = to_list after
launched (some token) after = []

unfoldable pub map_channels :
    (HostImageChannels → HostImageChannels) → Option HostImageChannels → Option HostImageChannels
map_channels f none = none
map_channels f (some c) = some (f c)

-- Where the job of a token is, from its channel to its completion, unless the worker ended with it.
pub data Holds (token : HostImageToken)
    : Option HostImageJob → Option HostImageJob → Option HostImageCompletion → Bool → Type 0 where
  in_jobs :
      (job : HostImageJob) (alive : Bool)
      → job.token ≡ token
      → Holds token (some job) none none alive
  in_busy : (job : HostImageJob) → job.token ≡ token → Holds token none (some job) none true
  in_results :
      (c : HostImageCompletion) (alive : Bool)
      → c.token ≡ token
      → Holds token none none (some c) alive
  lost : Holds token none none none false

pub data Empty
    : Option HostImageJob → Option HostImageJob → Option HostImageCompletion → Type 0 where
  empty : Empty none none none

unfoldable pub Carries : Option HostImageToken → Option HostImageChannels → Type 0
Carries none none = Unit
Carries none (some c) = Empty c.jobs c.busy c.results
Carries (some token) none = ⊥
Carries (some token) (some c) = Holds token c.jobs c.busy c.results c.alive

-- An operation of the worker keeps what its channels hold.
pub Keeps : (HostImageChannels → HostImageChannels) → Type 0
Keeps f =
    ((token : HostImageToken) (j b : Option HostImageJob) (r : Option HostImageCompletion)
        (a : Bool)
      → Holds token j b r a
      → let c = f (record { jobs = j; busy = b; results = r; alive = a }) in
        Holds token c.jobs c.busy c.results c.alive)
    × ((j b : Option HostImageJob) (r : Option HostImageCompletion) (a : Bool)
        → Empty j b r
        → let c = f (record { jobs = j; busy = b; results = r; alive = a }) in
          Empty c.jobs c.busy c.results)

pub takes-Keeps : Keeps worker_takes
unfolding Keeps worker_takes take_job
takes-Keeps = (held, free)
  where
    held :
        (token : HostImageToken) (j b : Option HostImageJob) (r : Option HostImageCompletion)
        (a : Bool)
        → Holds token j b r a
        → let c = worker_takes (record { jobs = j; busy = b; results = r; alive = a }) in
          Holds token c.jobs c.busy c.results c.alive
    held token j b r a (in_jobs job true e) = in_busy job e
    held token j b r a (in_jobs job false e) = in_jobs job false e
    held token j b r a (in_busy job e) = in_busy job e
    held token j b r a (in_results c alive e) = in_results c alive e
    held token j b r a lost = lost

    free :
        (j b : Option HostImageJob) (r : Option HostImageCompletion) (a : Bool)
        → Empty j b r
        → let c = worker_takes (record { jobs = j; busy = b; results = r; alive = a }) in
          Empty c.jobs c.busy c.results
    free j b r a empty = empty

pub sends-Keeps : (outcome : Option HostImageResult) → Keeps (λ c. worker_sends c outcome)
unfolding Keeps worker_sends send_result
sends-Keeps outcome = (held outcome, free outcome)
  where
    held :
        (outcome : Option HostImageResult) (token : HostImageToken) (j b : Option HostImageJob)
        (r : Option HostImageCompletion) (a : Bool)
        → Holds token j b r a
        → let c = worker_sends (record { jobs = j; busy = b; results = r; alive = a }) outcome in
          Holds token c.jobs c.busy c.results c.alive
    held outcome token j b r a (in_jobs job alive e) = in_jobs job alive e
    held outcome token j b r a (in_busy job e) = in_results _ true e
    held outcome token j b r a (in_results c alive e) = in_results c alive e
    held outcome token j b r a lost = lost

    free :
        (outcome : Option HostImageResult) (j b : Option HostImageJob)
        (r : Option HostImageCompletion) (a : Bool)
        → Empty j b r
        → let c = worker_sends (record { jobs = j; busy = b; results = r; alive = a }) outcome in
          Empty c.jobs c.busy c.results
    free outcome j b r a empty = empty

pub ends-Keeps : Keeps worker_ends
unfolding Keeps worker_ends
ends-Keeps = (held, free)
  where
    held :
        (token : HostImageToken) (j b : Option HostImageJob) (r : Option HostImageCompletion)
        (a : Bool)
        → Holds token j b r a
        → let c = worker_ends (record { jobs = j; busy = b; results = r; alive = a }) in
          Holds token c.jobs c.busy c.results c.alive
    held token j b r a (in_jobs job alive e) = in_jobs job false e
    held token j b r a (in_busy job e) = lost
    held token j b r a (in_results c alive e) = in_results c false e
    held token j b r a lost = lost

    free :
        (j b : Option HostImageJob) (r : Option HostImageCompletion) (a : Bool)
        → Empty j b r
        → let c = worker_ends (record { jobs = j; busy = b; results = r; alive = a }) in
          Empty c.jobs c.busy c.results
    free j b r a empty = empty

pub map-Carries :
    (f : HostImageChannels → HostImageChannels) (token : Option HostImageToken)
    (c : Option HostImageChannels)
    → Keeps f
    → Carries token c
    → Carries token (map_channels f c)
unfolding Keeps Carries map_channels
map-Carries f none none k h = tt
map-Carries f none (some c) k h = k.1 c.jobs c.busy c.results c.alive h
map-Carries f (some token) none k h = h
map-Carries f (some token) (some c) k h = k.0 token c.jobs c.busy c.results c.alive h

-- A start leaves at most one job in flight, and its channels with that job.
send-Carries :
    (c : Option HostImageChannels) (job : HostImageJob) (spawns : Bool)
    → Carries none c
    → let w = (send_job c job spawns).0 in Carries w.in_flight w.worker
unfolding send_job sent try_send Carries
send-Carries none job true h = in_jobs job true refl
send-Carries none job false h = tt
send-Carries (some c) job spawns h = sent-Carries c.jobs c.busy c.results c.alive job h
  where
    sent-Carries :
        (j b : Option HostImageJob) (r : Option HostImageCompletion) (a : Bool) (job : HostImageJob)
        → Empty j b r
        → let w =
            (sent (try_send (record { jobs = j; busy = b; results = r; alive = a }) job) job).0 in
          Carries w.in_flight w.worker
    sent-Carries j b r true job empty = in_jobs job true refl
    sent-Carries j b r false job empty = tt

pub start_for-IsSingle :
    (token : Option HostImageToken) (pending : Option HostImageJob) (w : HostImageWorker)
    (spawns : Bool) (started completed : List HostImageToken)
    → token ≡ w.in_flight
    → started ≡ completed ++ to_list token
    → Carries token w.worker
    → let w' = (start_for token pending w spawns).0 in
      (started ++ launched token w'.in_flight ≡ completed ++ to_list w'.in_flight)
      × Carries w'.in_flight w'.worker
unfolding start_for launched
start_for-IsSingle (some token) pending w spawns started completed e same h =
    subst (λ f. (started ++ [] ≡ completed ++ to_list f) × Carries f w.worker) e
      (append-nil started ∙ same, h)
start_for-IsSingle none none w spawns started completed e same h =
    subst (λ f. (started ++ to_list f ≡ completed ++ to_list f) × Carries f w.worker) e
      (ap (λ xs. xs ++ []) (same ∙ append-nil completed), h)
start_for-IsSingle none (some job) w spawns started completed e same h =
    let w' = (send_job w.worker job spawns).0 in
    (
      ap (λ xs. xs ++ to_list w'.in_flight) (same ∙ append-nil completed),
      send-Carries w.worker job spawns h,
    )

-- A poll that finds nothing.
unchanged-IsSingle :
    (token : Option HostImageToken) (c : Option HostImageChannels) (w : HostImageWorker)
    (started completed : List HostImageToken)
    → token ≡ w.in_flight
    → c ≡ w.worker
    → started ≡ completed ++ to_list token
    → Carries token c
    → (started ≡ (completed ++ []) ++ to_list w.in_flight) × Carries w.in_flight w.worker
unchanged-IsSingle token c w started completed e e' same h =
    let same' = same ∙ ap (λ xs. xs ++ to_list token) (sym (append-nil completed)) in
    subst (λ f. (started ≡ (completed ++ []) ++ to_list f) × Carries f w.worker) e
      (same', subst (λ k. Carries token k) e' h)

received-IsSingle :
    (token : HostImageToken) (j b : Option HostImageJob) (r : Option HostImageCompletion) (a : Bool)
    (w : HostImageWorker) (started completed : List HostImageToken)
    → let c : HostImageChannels = record { jobs = j; busy = b; results = r; alive = a } in
      some token ≡ w.in_flight
      → some c ≡ w.worker
      → started ≡ completed ++ token ∷ []
      → Holds token j b r a
      → let (w', completion) = poll_received (try_recv r c) token w in
        (started ≡ (completed ++ polled completion) ++ to_list w'.in_flight)
        × Carries w'.in_flight w'.worker
unfolding poll_received try_recv Carries
received-IsSingle token j b r a w started completed e e' same (in_jobs job true k) =
    unchanged-IsSingle (some token) _ w started completed e e' same (in_jobs job true k)
received-IsSingle token j b r a w started completed e e' same (in_jobs job false k) =
    (same ∙ sym (append-nil (completed ++ token ∷ [])), tt)
received-IsSingle token j b r a w started completed e e' same (in_busy job k) =
    unchanged-IsSingle (some token) _ w started completed e e' same (in_busy job k)
received-IsSingle token j b r a w started completed e e' same (in_results c alive k) = (
  same ∙ ap (λ t. completed ++ t ∷ []) (sym k) ∙ sym (append-nil (completed ++ c.token ∷ [])),
  empty,
)
received-IsSingle token j b r a w started completed e e' same lost =
    (same ∙ sym (append-nil (completed ++ token ∷ [])), tt)

pub poll_for-IsSingle :
    (token : Option HostImageToken) (c : Option HostImageChannels) (w : HostImageWorker)
    (started completed : List HostImageToken)
    → token ≡ w.in_flight
    → c ≡ w.worker
    → started ≡ completed ++ to_list token
    → Carries token c
    → let (w', completion) = poll_for token c w in
      (started ≡ (completed ++ polled completion) ++ to_list w'.in_flight)
      × Carries w'.in_flight w'.worker
unfolding poll_for Carries
poll_for-IsSingle none c w started completed e e' same h =
    unchanged-IsSingle none c w started completed e e' same h
poll_for-IsSingle (some token) none w started completed e e' same h = absurd h
poll_for-IsSingle (some token) (some c) w started completed e e' same h =
    received-IsSingle token c.jobs c.busy c.results c.alive w started completed e e' same h
