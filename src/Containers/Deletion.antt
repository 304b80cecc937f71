-- ===== src/Containers/Deletion.antt =====
-- The deletion of an owned container (src/container_identity.rs): the metadata of an inspection, the
-- target that it gives authority over, and what a failed inspection says.
use cocoa_way.Base.{
  ℕ, ◌*◌, Bool, true, false, not, ◌&&◌, ◌||◌, Option, none, some, List, [], ◌∷◌, ◌++◌,
  if◌then◌else◌, length, ◌==◌, ltb, Result, ok, err, ◌>>=◌, is_some, codes, text_eq, trim,
  trim_matches, strip_prefix, contains, all, is_empty, is_hexdigit,
}
use cocoa_way.Containers.Identity.{
  Runtime, apple, docker, orb_stack, OwnedContainerIdentity, owner_label,
}

abbrev pub max_inspect_bytes : ℕ
max_inspect_bytes = 1024 * 1024

-- The entries of a label dictionary, as they stand in the JSON.
abbrev pub Entries : Type 0
Entries = List (List ℕ × List ℕ)

-- `HashMap::get`.
unfoldable pub get_label : List ℕ → Entries → Option (List ℕ)
get_label key [] = none
get_label key ((k, v) ∷ labels) = if text_eq k key then some v else get_label key labels

-- The labels of the entries, or none when a key stands twice.
unfoldable pub visit_map : Entries → Entries → Option Entries
visit_map labels [] = some labels
visit_map labels ((k, v) ∷ entries) =
    let rest = visit_map ((k, v) ∷ labels) entries in
    if is_some (get_label k labels) then none else rest

pub record AppleInspect : Type 0 where
  pub id : Option (List ℕ)
  pub configuration_id : List ℕ
  pub labels : Entries

pub record DockerInspect : Type 0 where
  pub id : List ℕ
  pub name : List ℕ
  pub labels : Entries

pub data DeletionError : Type 0 where
  too_long unknown_schema not_one wrong_identity not_deleted_here not_owned : DeletionError

-- What the library of the JSON format and the conversions of texts do.
pub record Formats : Type 0 where
  pub apple_records : List ℕ → Option (List AppleInspect)
  pub docker_records : List ℕ → Option (List DockerInspect)
  pub from_utf8_lossy : List ℕ → List ℕ
  pub to_lowercase : List ℕ → List ℕ

unfoldable pub id_matches : Option (List ℕ) → List ℕ → Bool
id_matches none name = true
id_matches (some id) name = text_eq id name

-- The records with their labels; a record with a label that stands twice spoils them all.
module _ {R : Type 0} (entries_of : R → Entries) where
  unfoldable pub cons_labelled :
      R → Option Entries → Option (List (R × Entries)) → Option (List (R × Entries))
  cons_labelled r none rest = none
  cons_labelled r (some labels) none = none
  cons_labelled r (some labels) (some rest) = some ((r, labels) ∷ rest)

  unfoldable pub labelled : List R → Option (List (R × Entries))
  labelled [] = some []
  labelled (r ∷ rs) = cons_labelled r (visit_map [] (entries_of r)) (labelled rs)

  unfoldable pub from_slice : Option (List R) → Option (List (R × Entries))
  from_slice none = none
  from_slice (some rs) = labelled rs

unfoldable pub apple_target :
    List ℕ → Option (List (AppleInspect × Entries)) → Result (List ℕ × Entries) DeletionError
apple_target name none = err unknown_schema
apple_target name (some []) = err not_one
apple_target name (some ((r, labels) ∷ [])) =
    if not (text_eq r.configuration_id name) || not (id_matches r.id name)
    then err wrong_identity
    else ok (r.configuration_id, labels)
apple_target name (some (r ∷ s ∷ rs)) = err not_one

unfoldable pub docker_target :
    List ℕ → Option (List (DockerInspect × Entries)) → Result (List ℕ × Entries) DeletionError
docker_target name none = err unknown_schema
docker_target name (some []) = err not_one
docker_target name (some ((r, labels) ∷ [])) =
    if not (text_eq r.name (b'/' ∷ name)) || not (length r.id == 64) || not (all is_hexdigit r.id)
    then err wrong_identity
    else ok (r.id, labels)
docker_target name (some (r ∷ s ∷ rs)) = err not_one

unfoldable pub is_owner : Option (List ℕ) → List ℕ → Bool
is_owner none token = false
is_owner (some owner) token = text_eq owner token

unfoldable pub owned_target : List ℕ → List ℕ × Entries → Result (List ℕ) DeletionError
owned_target token (target, labels) =
    if not (is_owner (get_label owner_label labels) token) then err not_owned else ok target

abbrev pub apple_entries : AppleInspect → Entries
apple_entries r = r.labels

abbrev pub docker_entries : DockerInspect → Entries
docker_entries r = r.labels

module _ (f : Formats) where
  unfoldable pub target_for : Runtime → List ℕ → List ℕ → Result (List ℕ × Entries) DeletionError
  target_for apple name bytes = apple_target name (from_slice apple_entries (f.apple_records bytes))
  target_for docker name bytes =
      docker_target name (from_slice docker_entries (f.docker_records bytes))
  target_for orb_stack name bytes = err not_deleted_here

  unfoldable pub deletion_target : OwnedContainerIdentity → List ℕ → Result (List ℕ) DeletionError
  deletion_target i bytes =
      if ltb max_inspect_bytes (length bytes)
      then err too_long
      else target_for i.runtime i.name bytes >>= owned_target i.owner_token

  unfoldable pub runtime_output_is_not_found : List ℕ → List ℕ → Bool
  runtime_output_is_not_found output name =
      let text = f.to_lowercase (f.from_utf8_lossy output) in
      contains text (codes "no such container")
      || contains text (codes "no such object")
      || (contains text (f.to_lowercase name)
          && (contains text (codes "not found")
              || contains text (codes "notfound")
              || contains text (codes "does not exist")))

  unfoldable pub unprefixed : List ℕ → List ℕ → List ℕ
  unprefixed prefix line = elim (strip_prefix prefix line) [ none ↦ line | some rest ↦ rest ]

  unfoldable pub is_missing : Runtime → List ℕ → List ℕ → Bool
  is_missing apple name line =
      text_eq (trim_matches (λ c. c == b'"') (unprefixed (codes "notFound: ") line))
        (codes "container not found: " ++ name)
  is_missing docker name line =
      let rest = unprefixed (codes "Error response from daemon: ") line in
      text_eq rest (codes "No such container: " ++ name)
      || text_eq rest (codes "No such object: " ++ name)
  is_missing orb_stack name line = false

  -- The lines of a text, from the line that is begun; a carriage return at the end of one is trimmed
  -- later.
  unfoldable pub lines_from : List ℕ → List ℕ → List (List ℕ)
  lines_from cur [] = cur ∷ []
  lines_from cur (c ∷ text) =
      if c == 10 then cur ∷ lines_from [] text else lines_from (cur ++ c ∷ []) text

  unfoldable pub missing_lines : Runtime → List ℕ → Bool → List (List ℕ) → Bool
  missing_lines runtime name matched [] = matched
  missing_lines runtime name matched (l ∷ ls) =
      let line = trim l in
      let missing = is_missing runtime name (unprefixed (codes "Error: ") line) in
      let skipped = missing_lines runtime name matched ls in
      let rest = missing_lines runtime name true ls in
      if is_empty line then skipped else if not missing then false else rest

  unfoldable pub confirmed_missing : OwnedContainerIdentity → List ℕ → Bool
  confirmed_missing i stderr =
      if not (runtime_output_is_not_found stderr i.name)
      then false
      else missing_lines i.runtime i.name false (lines_from [] (f.from_utf8_lossy stderr))
