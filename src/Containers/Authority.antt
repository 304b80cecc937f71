-- ===== src/Containers/Authority.antt =====
-- What a clean-up deletes (src/container_identity.rs).
use cocoa_way.Base.{
  ℕ, ◌≡◌, inl, inr, refl, Bool, true, false, Option, none, some, List, [], ◌∷◌, if◌then◌else◌,
  Result, ok, err, arith, Bool-cases,
}
use cocoa_way.Containers.{Command}
use cocoa_way.Containers.Identity.{Runtime, apple, docker, orb_stack, OwnedContainerIdentity}
use cocoa_way.Containers.Deletion.{DeletionError, Formats, deletion_target, confirmed_missing}
use cocoa_way.Containers.Removal.{
  Output, inspect_refused, inspect_command, delete_command, Run, deleted, delete_with,
  delete_target, inspected, inspect_with, cleanup_for, cleanup_owned_instance,
}
use cocoa_way.Containers.Ownership.{Owned, deletion_target-Owned}

-- What a clean-up has done.
pub data Cleaned (f : Formats) (i : OwnedContainerIdentity) (looked answer : Option Output)
    (run : Run) : Type 0 where
  nothing_run : run.0 ≡ [] → (run.1 ≡ ok tt → i.runtime ≡ orb_stack) → Cleaned f i looked answer run
  only_inspected :
      (inspect : Command)
      → inspect_command i.runtime i.docker_endpoint i ≡ some inspect
      → run.0 ≡ inspect ∷ []
      → (run.1 ≡ ok tt
          → (out : Output) × (looked ≡ some out)
            × (out.success ≡ false)
            × (confirmed_missing f i out.stderr ≡ true))
      → Cleaned f i looked answer run
  target_deleted :
      (inspect delete : Command) (out : Output) (target : List ℕ)
      → inspect_command i.runtime i.docker_endpoint i ≡ some inspect
      → delete_command i.runtime i.docker_endpoint i target ≡ some delete
      → looked ≡ some out
      → out.success ≡ true
      → Owned f i out.stdout target
      → run.0 ≡ inspect ∷ delete ∷ []
      → (run.1 ≡ ok tt → (gone : Output) × (answer ≡ some gone) × (gone.success ≡ true))
      → Cleaned f i looked answer run

deleted-ok :
    (inspect delete : Command) (answer : Option Output)
    → (deleted inspect delete answer).1 ≡ ok tt
    → (gone : Output) × (answer ≡ some gone) × (gone.success ≡ true)
unfolding deleted
deleted-ok inspect delete none e = cc
deleted-ok inspect delete (some out) e = elim (Bool-cases out.success) [
  | inl done ↦ (out, refl, done)
  | inr failed ↦ ground (arith, failed, e)
]

deleted-commands :
    (inspect delete : Command) (answer : Option Output)
    → (deleted inspect delete answer).0 ≡ inspect ∷ delete ∷ []
unfolding deleted
deleted-commands inspect delete none = refl
deleted-commands inspect delete (some out) = refl

module _ (f : Formats) (i : OwnedContainerIdentity) where
  delete_with-Cleaned :
      (inspect : Command) (d : Option Command) (out : Output) (target : List ℕ)
      (answer : Option Output)
      → inspect_command i.runtime i.docker_endpoint i ≡ some inspect
      → delete_command i.runtime i.docker_endpoint i target ≡ d
      → out.success ≡ true
      → Owned f i out.stdout target
      → Cleaned f i (some out) answer (delete_with inspect d answer)
  unfolding delete_with
  delete_with-Cleaned inspect none out target answer k e done owned =
      only_inspected inspect k refl (λ never. cc)
  delete_with-Cleaned inspect (some delete) out target answer k e done owned =
      target_deleted inspect delete out target k e refl done owned
        (deleted-commands inspect delete answer) (deleted-ok inspect delete answer)

  delete_target-Cleaned :
      (inspect : Command) (r : Result (List ℕ) DeletionError) (out : Output)
      (answer : Option Output)
      → inspect_command i.runtime i.docker_endpoint i ≡ some inspect
      → deletion_target f i out.stdout ≡ r
      → out.success ≡ true
      → Cleaned f i (some out) answer (delete_target i inspect r answer)
  unfolding delete_target
  delete_target-Cleaned inspect (err e) out answer k e' done =
      only_inspected inspect k refl (λ never. cc)
  delete_target-Cleaned inspect (ok target) out answer k e done =
      delete_with-Cleaned inspect _ out target answer k refl done
        (deletion_target-Owned f i out.stdout target e)

  answered-Cleaned :
      (inspect : Command) (out : Output) (answer : Option Output) (done missing : Bool)
      → inspect_command i.runtime i.docker_endpoint i ≡ some inspect
      → out.success ≡ done
      → confirmed_missing f i out.stderr ≡ missing
      → Cleaned f i (some out) answer (
          if done
          then delete_target i inspect (deletion_target f i out.stdout) answer
          else if missing
          then (inspect ∷ [], ok tt)
          else (inspect ∷ [], err inspect_refused))
  answered-Cleaned inspect out answer true missing k done e =
      delete_target-Cleaned inspect _ out answer k refl done
  answered-Cleaned inspect out answer false true k failed gone =
      only_inspected inspect k refl (λ e. (out, refl, failed, gone))
  answered-Cleaned inspect out answer false false k failed here =
      only_inspected inspect k refl (λ never. cc)

  inspected-Cleaned :
      (inspect : Command) (looked answer : Option Output)
      → inspect_command i.runtime i.docker_endpoint i ≡ some inspect
      → Cleaned f i looked answer (inspected f i inspect looked answer)
  unfolding inspected
  inspected-Cleaned inspect none answer k = only_inspected inspect k refl (λ never. cc)
  inspected-Cleaned inspect (some out) answer k =
      answered-Cleaned inspect out answer out.success (confirmed_missing f i out.stderr) k refl refl

  inspect_with-Cleaned :
      (c : Option Command) (looked answer : Option Output)
      → inspect_command i.runtime i.docker_endpoint i ≡ c
      → ¬ (i.runtime ≡ orb_stack)
      → Cleaned f i looked answer (inspect_with f i c looked answer)
  unfolding inspect_with
  inspect_with-Cleaned none looked answer k other = nothing_run refl (λ never. cc)
  inspect_with-Cleaned (some inspect) looked answer k other =
      inspected-Cleaned inspect looked answer k

  cleanup_for-Cleaned :
      (runtime : Runtime) (looked answer : Option Output)
      → i.runtime ≡ runtime
      → Cleaned f i looked answer (cleanup_for f runtime i looked answer)
  unfolding cleanup_for
  cleanup_for-Cleaned orb_stack looked answer k = nothing_run refl (λ e. k)
  cleanup_for-Cleaned apple looked answer k = inspect_with-Cleaned _ looked answer refl (λ e. cc)
  cleanup_for-Cleaned docker looked answer k = inspect_with-Cleaned _ looked answer refl (λ e. cc)

-- Whatever the inspection and the deletion answer, and whatever the formats read: a clean-up runs no
-- command, or its inspection only, or deletes after it a target that the output of the successful
-- inspection gives authority over. It succeeds only if the runtime is OrbStack and nothing was run, or
-- the inspection failed with the text of a missing container, or the deletion succeeded.
pub cleanup_owned_instance-Cleaned :
    (f : Formats) (i : OwnedContainerIdentity) (looked answer : Option Output)
    → Cleaned f i looked answer (cleanup_owned_instance f i looked answer)
unfolding cleanup_owned_instance
cleanup_owned_instance-Cleaned f i looked answer =
    cleanup_for-Cleaned f i i.runtime looked answer refl
