-- ===== src/Containers.antt =====
-- The authority by which containers are acted on (src/container_mode/action_targets.rs): Docker endpoints
-- and the commands on a container of one. A text is the list of its code points.
pub mod Identity
pub mod Deletion
pub mod Removal
pub mod Ownership
pub mod Authority
use cocoa_way.Base.{
  ℕ, ◌≡◌, Bool, true, false, not, ◌&&◌, ◌||◌, Option, none, some, List, [], ◌∷◌, ◌++◌,
  if◌then◌else◌, length, ◌==◌, Result, ok, err, ◌>>=◌, codes, text_eq, strip_prefix, is_control,
  trim, any, all, is_empty, starts_with, is_absolute, is_hexdigit,
}

pub record DockerEndpoint : Type 0 where
  pub host : List ℕ

pub data EndpointError : Type 0 where
  not_local not_absolute context_unavailable probe_failed : EndpointError

unfoldable pub local_at : Option (List ℕ) → List ℕ → Result DockerEndpoint EndpointError
local_at none host = err not_local
local_at (some socket) host =
    if not (is_absolute socket) || any is_control host
    then err not_absolute
    else ok (record { host = host })

unfoldable pub local : List ℕ → Result DockerEndpoint EndpointError
local host = local_at (strip_prefix (codes "unix://") host) host

-- `filter(|value| !value.is_empty())`.
unfoldable pub nonempty : Option (List ℕ) → Option (List ℕ)
nonempty none = none
nonempty (some text) = if is_empty text then none else some text

unfoldable pub inspect_context :
    (List (List ℕ) → Result (List ℕ) EndpointError) → List ℕ → Result DockerEndpoint EndpointError
inspect_context probe context =
    if is_empty context || starts_with context b'-' || any is_control context
    then err context_unavailable
    else (probe (
          codes "context"
          ∷ codes "inspect"
          ∷ codes "--format"
          ∷ codes "{{.Endpoints.docker.Host}}"
          ∷ context
          ∷ [])
        >>= λ host. local (trim host))

unfoldable pub capture_for :
    Option (List ℕ)
    → Option (List ℕ)
    → (List (List ℕ) → Result (List ℕ) EndpointError)
    → Result DockerEndpoint EndpointError
capture_for none (some host) probe = local host
capture_for none none probe =
    probe (codes "context" ∷ codes "show" ∷ []) >>= λ context. inspect_context probe (trim context)
capture_for (some context) host probe = inspect_context probe context

-- `probe` answers the arguments of a command.
unfoldable pub capture_docker_endpoint :
    Option (List ℕ)
    → Option (List ℕ)
    → (List (List ℕ) → Result (List ℕ) EndpointError)
    → Result DockerEndpoint EndpointError
capture_docker_endpoint context_override host_override probe =
    capture_for (nonempty context_override) (nonempty host_override) probe

-- A command with its arguments, its PATH, whether the Docker variables are taken from its environment,
-- and the DOCKER_HOST that it is given.
pub record Command : Type 0 where
  pub program : List ℕ
  pub args : List (List ℕ)
  pub path : Option (List ℕ)
  pub pinned : Bool
  pub docker_host : Option (List ℕ)

abbrev pub new_command : List ℕ → Command
new_command program = record {
  program = program;
  args = [];
  path = none;
  pinned = false;
  docker_host = none;
}

-- It takes DOCKER_HOST away with the others.
unfoldable pub pin_environment : Command → Command
pin_environment c = record c { pinned = true; docker_host = none }

pub record DockerDeleteTarget : Type 0 where
  pub executable : List ℕ
  pub endpoint : DockerEndpoint
  pub id : List ℕ

pub data TargetError : Type 0 where
  relative_executable short_id unsupported_operation : TargetError

unfoldable pub capture : List ℕ → DockerEndpoint → List ℕ → Result DockerDeleteTarget TargetError
capture executable endpoint id =
    if not (is_absolute executable)
    then err relative_executable
    else if not (length id == 64) || not (all is_hexdigit id)
    then err short_id
    else ok (record { executable = executable; endpoint = endpoint; id = id })

unfoldable pub operation_command : DockerDeleteTarget → List ℕ → Result Command TargetError
operation_command t operation =
    let command = pin_environment (new_command t.executable) in
    let host = codes "--host" ∷ t.endpoint.host ∷ [] in
    if text_eq operation (codes "delete")
    then ok
        (record command { args = host ++ codes "rm" ∷ codes "--force" ∷ codes "--" ∷ t.id ∷ [] })
    else if text_eq operation (codes "start")
        || text_eq operation (codes "stop")
        || text_eq operation (codes "restart")
    then ok (record command { args = host ++ operation ∷ codes "--" ∷ t.id ∷ [] })
    else err unsupported_operation
