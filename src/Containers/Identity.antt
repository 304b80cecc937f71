-- ===== src/Containers/Identity.antt =====
-- The identity of a container that the program owns (src/container_identity.rs).
use cocoa_way.Base.{
  ℕ, Bool, not, ◌&&◌, ◌||◌, Option, none, some, List, [], ◌∷◌, ◌++◌, if◌then◌else◌, length, ◌==◌,
  leb, Result, ok, err, ◌>>=◌, codes, text_eq, trim, all, is_empty, starts_with, is_absolute,
  is_digit, is_alphanumeric,
}
use cocoa_way.ProfileIdentity.{display_bytes}
use cocoa_way.Containers.{
  DockerEndpoint, EndpointError, capture_docker_endpoint, Command, pin_environment,
}

pub data Runtime : Type 0 where
  apple docker orb_stack : Runtime

pub record OwnedContainerIdentity : Type 0 where
  pub runtime : Runtime
  pub name : List ℕ
  pub runtime_binary : List ℕ
  pub owner_token : List ℕ
  pub child_path : List ℕ
  pub docker_endpoint : Option DockerEndpoint

pub data IdentityError : Type 0 where
  no_random unknown_runtime invalid_name invalid_token relative_binary : IdentityError
  no_endpoint : EndpointError → IdentityError

unfoldable pub runtime_of : List ℕ → Result Runtime IdentityError
runtime_of text =
    if text_eq text (codes "container")
      || text_eq text (codes "apple")
      || text_eq text (codes "apple-container")
    then ok apple
    else if text_eq text (codes "docker")
    then ok docker
    else if text_eq text (codes "orb") || text_eq text (codes "orbstack")
    then ok orb_stack
    else err unknown_runtime

abbrev pub is_name_byte : ℕ → Bool
is_name_byte b = is_alphanumeric b || b == b'.' || b == b'_' || b == b'-'

abbrev pub is_token_byte : ℕ → Bool
is_token_byte b = is_digit b || (leb b'a' b && leb b b'f')

unfoldable pub with_runtime :
    Runtime → List ℕ → List ℕ → List ℕ → List ℕ → Result OwnedContainerIdentity IdentityError
with_runtime runtime name binary child_path token =
    if is_empty name || starts_with name b'-' || not (all is_name_byte name)
    then err invalid_name
    else if not (length token == 64) || not (all is_token_byte token)
    then err invalid_token
    else if not (is_absolute binary)
    then err relative_binary
    else ok (record {
      runtime = runtime;
      name = name;
      runtime_binary = binary;
      owner_token = token;
      child_path = child_path;
      docker_endpoint = none;
    })

unfoldable pub with_token :
    List ℕ → List ℕ → List ℕ → List ℕ → List ℕ → Result OwnedContainerIdentity IdentityError
with_token runtime name binary child_path token =
    runtime_of (trim runtime) >>= λ known. with_runtime known name binary child_path token

unfoldable pub endpoint_for :
    OwnedContainerIdentity
    → Result DockerEndpoint EndpointError
    → Result OwnedContainerIdentity IdentityError
endpoint_for i (ok endpoint) = ok (record i { docker_endpoint = some endpoint })
endpoint_for i (err e) = err (no_endpoint e)

unfoldable pub with_endpoint :
    Runtime
    → OwnedContainerIdentity
    → Result DockerEndpoint EndpointError
    → Result OwnedContainerIdentity IdentityError
with_endpoint docker i captured = endpoint_for i captured
with_endpoint apple i captured = ok i
with_endpoint orb_stack i captured = ok i

-- `random` is the read of 32 bytes of the random device; the rest are the overrides of the environment
-- and the answers of the Docker client.
unfoldable pub new :
    List ℕ
    → List ℕ
    → List ℕ
    → List ℕ
    → Option (List ℕ)
    → Option (List ℕ)
    → Option (List ℕ)
    → (List (List ℕ) → Result (List ℕ) EndpointError)
    → Result OwnedContainerIdentity IdentityError
new runtime name binary child_path none context_override host_override probe = err no_random
new runtime name binary child_path (some random) context_override host_override probe =
    with_token runtime name binary child_path (display_bytes random) >>= λ i.
    with_endpoint i.runtime i (capture_docker_endpoint context_override host_override probe)

abbrev pub owner_label : List ℕ
owner_label = codes "org.cocoa-way.owner"

unfoldable pub pin_host : Option DockerEndpoint → Command → Command
pin_host none c = c
pin_host (some endpoint) c = record (pin_environment c) { docker_host = some endpoint.host }

unfoldable pub with_label : Runtime → List ℕ → Command → Command
with_label orb_stack token c = c
with_label apple token c = record c {
  args = c.args ++ codes "--label" ∷ (owner_label ++ b'=' ∷ token) ∷ [];
}
with_label docker token c = record c {
  args = c.args ++ codes "--label" ∷ (owner_label ++ b'=' ∷ token) ∷ [];
}

unfoldable pub append_owner_label : OwnedContainerIdentity → Command → Command
append_owner_label i c = with_label i.runtime i.owner_token (pin_host i.docker_endpoint c)
