-- ===== src/Containers/Removal.antt =====
-- The clean-up of an owned container (src/container_identity.rs, cleanup_owned_instance): its
-- commands, and what comes of their answers. `none` is a command that could not be run or timed out.
use cocoa_way.Base.{
  Bool, Option, none, some, List, [], ◌∷◌, if◌then◌else◌, Result, ok, err, codes, ℕ,
}
use cocoa_way.Containers.{DockerEndpoint, Command, new_command, pin_environment}
use cocoa_way.Containers.Identity.{Runtime, apple, docker, orb_stack, OwnedContainerIdentity}
use cocoa_way.Containers.Deletion.{DeletionError, Formats, deletion_target, confirmed_missing}

pub record Output : Type 0 where
  pub success : Bool
  pub stdout : List ℕ
  pub stderr : List ℕ

pub data CleanupError : Type 0 where
  no_endpoint inspect_failed inspect_refused delete_failed delete_refused : CleanupError
  refused : DeletionError → CleanupError

abbrev pub own_command : OwnedContainerIdentity → Command
own_command i = record (new_command i.runtime_binary) { path = some i.child_path }

unfoldable pub apple_command : OwnedContainerIdentity → List (List ℕ) → Command
apple_command i args = record (own_command i) { args = args }

unfoldable pub docker_command : OwnedContainerIdentity → DockerEndpoint → List (List ℕ) → Command
docker_command i endpoint args = record (pin_environment (own_command i)) {
  args = codes "--host" ∷ endpoint.host ∷ args;
}

unfoldable pub inspect_command :
    Runtime → Option DockerEndpoint → OwnedContainerIdentity → Option Command
inspect_command apple endpoint i = some (apple_command i (codes "inspect" ∷ i.name ∷ []))
inspect_command docker none i = none
inspect_command docker (some endpoint) i =
    some (docker_command i endpoint (codes "container" ∷ codes "inspect" ∷ i.name ∷ []))
inspect_command orb_stack endpoint i = none

unfoldable pub delete_command :
    Runtime → Option DockerEndpoint → OwnedContainerIdentity → List ℕ → Option Command
delete_command apple endpoint i target =
    some (apple_command i (codes "delete" ∷ codes "--force" ∷ target ∷ []))
delete_command docker none i target = none
delete_command docker (some endpoint) i target =
    some (docker_command i endpoint (codes "rm" ∷ codes "--force" ∷ codes "--" ∷ target ∷ []))
delete_command orb_stack endpoint i target = none

-- The commands that were run, and the result.
abbrev pub Run : Type 0
Run = List Command × Result (Unit {0}) CleanupError

unfoldable pub deleted : Command → Command → Option Output → Run
deleted inspect delete none = (inspect ∷ delete ∷ [], err delete_failed)
deleted inspect delete (some out) =
    (inspect ∷ delete ∷ [], if out.success then ok tt else err delete_refused)

unfoldable pub delete_with : Command → Option Command → Option Output → Run
delete_with inspect none answer = (inspect ∷ [], err no_endpoint)
delete_with inspect (some delete) answer = deleted inspect delete answer

unfoldable pub delete_target :
    OwnedContainerIdentity → Command → Result (List ℕ) DeletionError → Option Output → Run
delete_target i inspect (err e) answer = (inspect ∷ [], err (refused e))
delete_target i inspect (ok target) answer =
    delete_with inspect (delete_command i.runtime i.docker_endpoint i target) answer

module _ (f : Formats) where
  unfoldable pub inspected : OwnedContainerIdentity → Command → Option Output → Option Output → Run
  inspected i inspect none answer = (inspect ∷ [], err inspect_failed)
  inspected i inspect (some out) answer =
      if out.success
      then delete_target i inspect (deletion_target f i out.stdout) answer
      else if confirmed_missing f i out.stderr
      then (inspect ∷ [], ok tt)
      else (inspect ∷ [], err inspect_refused)

  unfoldable pub inspect_with :
      OwnedContainerIdentity → Option Command → Option Output → Option Output → Run
  inspect_with i none looked answer = ([], err no_endpoint)
  inspect_with i (some inspect) looked answer = inspected i inspect looked answer

  unfoldable pub cleanup_for :
      Runtime → OwnedContainerIdentity → Option Output → Option Output → Run
  cleanup_for orb_stack i looked answer = ([], ok tt)
  cleanup_for apple i looked answer =
      inspect_with i (inspect_command i.runtime i.docker_endpoint i) looked answer
  cleanup_for docker i looked answer =
      inspect_with i (inspect_command i.runtime i.docker_endpoint i) looked answer

  -- `looked` is the answer of the inspection and `answer` that of the deletion.
  unfoldable pub cleanup_owned_instance :
      OwnedContainerIdentity → Option Output → Option Output → Run
  cleanup_owned_instance i looked answer = cleanup_for i.runtime i looked answer
