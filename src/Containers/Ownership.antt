-- ===== src/Containers/Ownership.antt =====
-- What the output of an inspection gives authority over (src/container_identity.rs, deletion_target).
use cocoa_way.Base.{
  ℕ, ◌≡◌, ◌⊎◌, inl, inr, refl, sym, ap, ◌∙◌, true, Option, none, some, List, [], ◌∷◌, length,
  Result, ok, ◌>>=◌, >>=-ok, text_eq, text_eq_sound, all, is_hexdigit, arith, ltb, ◌==◌, ==_iff,
  Bool-cases,
}
use cocoa_way.Containers.Identity.{
  Runtime, apple, docker, orb_stack, OwnedContainerIdentity, owner_label,
}
use cocoa_way.Containers.Deletion.{
  Entries, get_label, visit_map, AppleInspect, DockerInspect, DeletionError, Formats, id_matches,
  cons_labelled, labelled, from_slice, apple_target, docker_target, is_owner, owned_target,
  apple_entries, docker_entries, target_for, deletion_target,
}

-- The entries have no key twice, and the owner label is the token.
pub record HasOwner (entries : Entries) (token : List ℕ) : Type 0 where
  pub labels : Entries
  pub unique : visit_map [] entries ≡ some labels
  pub owner : get_label owner_label labels ≡ some token

-- The output of an inspection gives authority over the target: it has one record, of the name of the
-- identity and with its owner label; the target is that name, or the 64 digits of a Docker record.
pub data Owned (f : Formats) (i : OwnedContainerIdentity) (stdout target : List ℕ) : Type 0 where
  owned_apple :
      (r : AppleInspect)
      → i.runtime ≡ apple
      → f.apple_records stdout ≡ some (r ∷ [])
      → r.configuration_id ≡ i.name
      → (r.id ≡ none) ⊎ (r.id ≡ some i.name)
      → HasOwner r.labels i.owner_token
      → target ≡ i.name
      → Owned f i stdout target
  owned_docker :
      (r : DockerInspect)
      → i.runtime ≡ docker
      → f.docker_records stdout ≡ some (r ∷ [])
      → r.name ≡ b'/' ∷ i.name
      → length r.id ≡ 64
      → all is_hexdigit r.id ≡ true
      → HasOwner r.labels i.owner_token
      → target ≡ r.id
      → Owned f i stdout target

module _ {R : Type 0} (entries_of : R → Entries) where
  cons_labelled-one :
      (s r : R) (o : Option Entries) (rest : Option (List (R × Entries))) (labels : Entries)
      → cons_labelled entries_of s o rest ≡ some ((r, labels) ∷ [])
      → (s ≡ r) × (o ≡ some labels) × (rest ≡ some [])
  unfolding cons_labelled
  cons_labelled-one s r none rest labels e = cc
  cons_labelled-one s r (some l) none labels e = cc
  cons_labelled-one s r (some l) (some ls) labels e = (cc, cc, cc)

  labelled-ne-nil :
      (o : Option Entries) (s : R) (rest : Option (List (R × Entries)))
      → ¬ (cons_labelled entries_of s o rest ≡ some [])
  unfolding cons_labelled
  labelled-ne-nil none s rest e = cc
  labelled-ne-nil (some l) s none e = cc
  labelled-ne-nil (some l) s (some ls) e = cc

  -- One record with its labels comes of one record.
  from_slice-one :
      (rs : Option (List R)) (r : R) (labels : Entries)
      → from_slice entries_of rs ≡ some ((r, labels) ∷ [])
      → (rs ≡ some (r ∷ [])) × (visit_map [] (entries_of r) ≡ some labels)
  unfolding from_slice labelled
  from_slice-one none r labels e = cc
  from_slice-one (some []) r labels e = cc
  from_slice-one (some (s ∷ [])) r labels e =
      let (same, unique, rest) =
        cons_labelled-one s r (visit_map [] (entries_of s)) (some []) labels e in
      (ap (λ x. some (x ∷ [])) same, ap (λ x. visit_map [] (entries_of x)) (sym same) ∙ unique)
  from_slice-one (some (s ∷ t ∷ rs)) r labels e =
      let (same, unique, rest) =
        cons_labelled-one s r (visit_map [] (entries_of s)) (labelled entries_of (t ∷ rs)) labels
          e in
      absurd (labelled-ne-nil (visit_map [] (entries_of t)) t (labelled entries_of rs) rest)

id_matches-cases :
    (id : Option (List ℕ)) (name : List ℕ)
    → id_matches id name ≡ true
    → (id ≡ none) ⊎ (id ≡ some name)
unfolding id_matches
id_matches-cases none name e = inl refl
id_matches-cases (some id) name e = inr (ap some (text_eq_sound id name e))

apple_target-ok :
    (name : List ℕ) (rs : Option (List (AppleInspect × Entries))) (target : List ℕ)
    (labels : Entries)
    → apple_target name rs ≡ ok (target, labels)
    → (r : AppleInspect) × (rs ≡ some ((r, labels) ∷ []))
      × (r.configuration_id ≡ name)
      × ((r.id ≡ none) ⊎ (r.id ≡ some name))
      × (target ≡ name)
unfolding apple_target
apple_target-ok name none target labels e = cc
apple_target-ok name (some []) target labels e = cc
apple_target-ok name (some (r ∷ s ∷ rs)) target labels e = cc
apple_target-ok name (some ((r, ls) ∷ [])) target labels e =
    elim (Bool-cases (text_eq r.configuration_id name)) [
      | inl same ↦ elim (Bool-cases (id_matches r.id name)) [
        | inl matches ↦
            let out : ◌≡◌ {A = Result (List ℕ × Entries) DeletionError}
                (ok (r.configuration_id, ls)) (ok (target, labels)) =
              ground (arith, same, matches, e) in
            let own = text_eq_sound r.configuration_id name same in
            let kept : ls ≡ labels = cc in
            let got : r.configuration_id ≡ target = cc in
            (
              r,
              ap (λ l. some ((r, l) ∷ [])) kept,
              own,
              id_matches-cases r.id name matches,
              sym got ∙ own,
            )
        | inr other ↦ ground (arith, same, other, e)
      ]
      | inr other ↦ ground (arith, other, e)
    ]

docker_target-ok :
    (name : List ℕ) (rs : Option (List (DockerInspect × Entries))) (target : List ℕ)
    (labels : Entries)
    → docker_target name rs ≡ ok (target, labels)
    → (r : DockerInspect) × (rs ≡ some ((r, labels) ∷ []))
      × (r.name ≡ b'/' ∷ name)
      × (length r.id ≡ 64)
      × (all is_hexdigit r.id ≡ true)
      × (target ≡ r.id)
unfolding docker_target
docker_target-ok name none target labels e = cc
docker_target-ok name (some []) target labels e = cc
docker_target-ok name (some (r ∷ s ∷ rs)) target labels e = cc
docker_target-ok name (some ((r, ls) ∷ [])) target labels e =
    elim (Bool-cases (text_eq r.name (b'/' ∷ name))) [
      | inl same ↦ elim (Bool-cases (length r.id == 64)) [
        | inl long ↦ elim (Bool-cases (all is_hexdigit r.id)) [
          | inl digits ↦
              let out : ◌≡◌ {A = Result (List ℕ × Entries) DeletionError} (ok (r.id, ls))
                  (ok (target, labels)) =
                ground (arith, same, long, digits, e) in
              let kept : ls ≡ labels = cc in
              let got : r.id ≡ target = cc in
              (
                r,
                ap (λ l. some ((r, l) ∷ [])) kept,
                text_eq_sound r.name (b'/' ∷ name) same,
                (==_iff (length r.id) 64).0 long,
                digits,
                sym got,
              )
          | inr other ↦ ground (arith, same, long, other, e)
        ]
        | inr other ↦ ground (arith, same, other, e)
      ]
      | inr other ↦ ground (arith, other, e)
    ]

is_owner_sound : (o : Option (List ℕ)) (token : List ℕ) → is_owner o token ≡ true → o ≡ some token
unfolding is_owner
is_owner_sound none token e = cc
is_owner_sound (some owner) token e = ap some (text_eq_sound owner token e)

owned_target-ok :
    (token : List ℕ) (p : List ℕ × Entries) (target : List ℕ)
    → owned_target token p ≡ ok target
    → (p.0 ≡ target) × (get_label owner_label p.1 ≡ some token)
unfolding owned_target
owned_target-ok token (t, labels) target e =
    elim (Bool-cases (is_owner (get_label owner_label labels) token)) [
      | inl owner ↦
          let out : ◌≡◌ {A = Result (List ℕ) DeletionError} (ok t) (ok target) =
            ground (arith, owner, e) in
          (cc, is_owner_sound (get_label owner_label labels) token owner)
      | inr other ↦ ground (arith, other, e)
    ]

target_for-Owned :
    (f : Formats) (i : OwnedContainerIdentity) (runtime : Runtime) (stdout target : List ℕ)
    (labels : Entries)
    → i.runtime ≡ runtime
    → target_for f runtime i.name stdout ≡ ok (target, labels)
    → get_label owner_label labels ≡ some i.owner_token
    → Owned f i stdout target
unfolding target_for
target_for-Owned f i apple stdout target labels k e owner =
    let (r, one, name, id, same) = apple_target-ok i.name _ target labels e in
    let (records, unique) = from_slice-one apple_entries (f.apple_records stdout) r labels one in
    owned_apple r k records name id (record { labels = labels; unique = unique; owner = owner })
      same
target_for-Owned f i docker stdout target labels k e owner =
    let (r, one, name, long, digits, same) = docker_target-ok i.name _ target labels e in
    let (records, unique) = from_slice-one docker_entries (f.docker_records stdout) r labels one in
    owned_docker r k records name long digits
      (record { labels = labels; unique = unique; owner = owner }) same
target_for-Owned f i orb_stack stdout target labels k e owner = cc

pub deletion_target-Owned :
    (f : Formats) (i : OwnedContainerIdentity) (stdout target : List ℕ)
    → deletion_target f i stdout ≡ ok target
    → Owned f i stdout target
unfolding deletion_target
deletion_target-Owned f i stdout target e = elim (Bool-cases (ltb 1048576 (length stdout))) [
  | inl long ↦ ground (arith, long, e)
  | inr short ↦
      let chain : (target_for f i.runtime i.name stdout >>= owned_target i.owner_token)
          ≡ ok target =
        ground (arith, short, e) in
      let ((t, labels), found, owned) =
        >>=-ok (target_for f i.runtime i.name stdout) (owned_target i.owner_token) chain in
      let (same, owner) = owned_target-ok i.owner_token (t, labels) target owned in
      let whole : target_for f i.runtime i.name stdout ≡ ok (target, labels) =
        found ∙ ap (λ x. ok (x, labels)) same in
      target_for-Owned f i i.runtime stdout target labels refl whole owner
]
