-- ===== src/Examples/Identities.antt =====
-- Runs of profile identities and of the clean-up of a container (src/profile_identity.rs,
-- src/container_identity.rs).
use cocoa_way.Base.{
  ℕ, ◌≡◌, ◌↔◌, refl, true, none, some, List, [], ◌∷◌, ok, codes, if◌then◌else◌, text_eq,
}
use cocoa_way.ProfileIdentity as profiles
use cocoa_way.ProfileIdentity.{ProfileId, replicate}
use cocoa_way.ProfileIdentity.Text.{IsId, from_str-display}
use cocoa_way.Containers.Identity as identity
use cocoa_way.Containers.Identity.{OwnedContainerIdentity}
use cocoa_way.Containers.Deletion as deletion
use cocoa_way.Containers.Deletion.{AppleInspect, Formats}
use cocoa_way.Containers.Removal as removal
use cocoa_way.Containers.Removal.{Output}
use cocoa_way.Containers.Authority.{Cleaned, cleanup_owned_instance-Cleaned}

abbrev profile : ProfileId
profile = record { bytes = 0xa7 ∷ replicate 15 0x10 }

abbrev profile_text : List ℕ
profile_text = codes "a7101010101010101010101010101010"

from_str-display_example : (profiles.from_str profile_text ≡ ok profile) ↔ (
    IsId profile × (profiles.is_saved profile ≡ true) × (profile_text ≡ profiles.display profile))
from_str-display_example = from_str-display profile_text profile

from_str-profile_text : profiles.from_str profile_text ≡ ok profile
unfolding profiles.from_str profiles.all_hex profiles.is_hex profiles.parse_bytes
    profiles.from_str_radix profiles.to_digit profiles.checked_id profiles.is_saved
from_str-profile_text = refl

abbrev owner_token : List ℕ
owner_token = replicate 64 b'a'

abbrev container : OwnedContainerIdentity
container = record {
  runtime = identity.apple;
  name = codes "web";
  runtime_binary = codes "/usr/bin/container";
  owner_token = owner_token;
  child_path = codes "/usr/bin";
  docker_endpoint = none;
}

abbrev inspection : AppleInspect
inspection = record {
  id = some (codes "web");
  configuration_id = codes "web";
  labels = (identity.owner_label, owner_token) ∷ [];
}

-- Formats that know one output, `[1]`.
abbrev formats : Formats
formats = record {
  apple_records = λ bytes. if text_eq bytes (codes "[1]") then some (inspection ∷ []) else none;
  docker_records = λ bytes. none;
  from_utf8_lossy = λ bytes. bytes;
  to_lowercase = λ text. text;
}

abbrev looked : Output
looked = record { success = true; stdout = codes "[1]"; stderr = [] }

abbrev gone : Output
gone = record { success = true; stdout = []; stderr = [] }

cleanup_owned_instance-Cleaned_example :
    Cleaned formats container
      (some looked)
      (some gone)
      (removal.cleanup_owned_instance formats container (some looked) (some gone))
cleanup_owned_instance-Cleaned_example =
    cleanup_owned_instance-Cleaned formats container (some looked) (some gone)

cleanup-container :
    (removal.cleanup_owned_instance formats container (some looked) (some gone)).1 ≡ ok tt
unfolding removal.cleanup_owned_instance removal.cleanup_for removal.inspect_with
    removal.inspect_command removal.inspected removal.delete_target removal.delete_command
    removal.delete_with removal.deleted deletion.deletion_target deletion.target_for
    deletion.apple_target deletion.from_slice deletion.labelled deletion.cons_labelled
    deletion.visit_map deletion.get_label deletion.id_matches deletion.owned_target
    deletion.is_owner removal.apple_command
cleanup-container = refl
