-- ===== src/Textures.antt =====
-- The versions of one texture (src/texture_lifetime.rs: Version, TextureVersions). A reader is a weak
-- pointer to a frame; `busy` says of a frame that it is alive and not completed; here it stays so
-- during a call, and During has the choice of a target while frames complete. Tests prune the readers
-- of the versions that they look at, as in the source.
pub mod Views
pub mod Target
pub mod Choice
pub mod During
pub mod Scans
pub mod Meanwhile
pub mod Update
pub mod Kept
pub mod Spare
pub mod Retained
pub mod Prune
use cocoa_way.Base.{
  ℕ, zero, suc, ◌+◌, ◌-◌, Bool, true, false, not, ◌&&◌, ◌||◌, Option, none, some, ◌⊎◌, inl, inr,
  List, [], ◌∷◌, ◌++◌, ltb, ◌==◌, if◌then◌else◌, length, get_elem?, set, is_some,
}
use mathlib.Core.Option

abbrev pub max_versions : ℕ
max_versions = 3

pub record Version {ℓ} (A : Type ℓ) : Type ℓ where
  pub resource : A
  pub readers : List ℕ

pub record Versions {ℓ} (A : Type ℓ) : Type ℓ where
  pub versions : List (Version A)
  pub current : ℕ

pub data UpdateError : Type 0 where
  busy_error rejected : UpdateError

-- What `prepare_matching` returns: no storage is needed, or storage, or one of its two errors.
pub data Prepared {ℓ κ} (E : Type κ) (A : Type ℓ) : Type (ℓ ⊔ κ) where
  reusable : Prepared E A
  storage : A → Prepared E A
  busy_prepare : Prepared E A
  allocation : E → Prepared E A

pub data Result {ℓ} (A : Type ℓ) : Type ℓ where
  ok : A → Result A
  err : UpdateError → Result A

abbrev pub retain : (ℕ → Bool) → List ℕ → List ℕ
retain p [] = []
retain p (x ∷ xs) = let rest = retain p xs in if p x then x ∷ rest else rest

abbrev pub is_empty {ℓ} : {A : Type ℓ} → List A → Bool
is_empty [] = true
is_empty (x ∷ xs) = false

abbrev pub contains : ℕ → List ℕ → Bool
contains i [] = false
contains i (x ∷ xs) = (x == i) || contains i xs

module _ {ℓ} {A : Type ℓ} where
  pub new : Versions A
  new = record { versions = []; current = 0 }

  pub current : Versions A → Option A
  current t = Option.map (λ (v : Version A). v.resource) (get_elem? t.versions t.current)

  pub has_alternates : Versions A → Bool
  has_alternates t = ltb 1 (length t.versions)

  -- The end of `update_matching`: the target's resource is replaced, or a new version is pushed.
  pub place : Versions A → ℕ → A → Versions A
  place t target resource = record {
    versions = elim (get_elem? t.versions target) [
      | none ↦ t.versions ++ record { resource = resource; readers = [] } ∷ []
      | some v ↦ set t.versions target (record v { resource = resource })
    ];
    current = target;
  }

  -- The rest of `update_matching`, once the target is chosen: the callback gets the version that it
  -- may overwrite, and whether that is the current one.
  pub publish : Versions A → (Option A → Bool → Option A) → ℕ → Versions A × Result (Unit {0})
  unfolding place
  publish t upload target =
      let existing = Option.map (λ (v : Version A). v.resource) (get_elem? t.versions target) in
      elim (upload existing (is_some existing && (target == t.current))) [
        | none ↦ (t, err rejected)
        | some resource ↦ (place t target resource, ok tt)
      ]

  module _ (busy : ℕ → Bool) where
    -- `Version::writable`: the readers that are left, and whether there are none.
    abbrev pub pruned : Version A → Version A
    pruned v = record v { readers = retain busy v.readers }

    abbrev pub idle : Version A → Bool
    idle v = is_empty (retain busy v.readers)

    -- `mark_read`, which panics if there is no current version.
    mark_version : Version A → ℕ → Version A
    mark_version v frame =
        let left = retain busy v.readers in
        record v { readers = if contains frame left then left else left ++ frame ∷ [] }

    unfoldable pub mark_read : Versions A → ℕ → Option (Versions A)
    unfolding mark_version
    mark_read t frame = elim (get_elem? t.versions t.current) [
      | none ↦ none
      | some v ↦ some (record t { versions = set t.versions t.current (mark_version v frame) })
    ]

    unfoldable pub current_busy : Versions A → Versions A × Bool
    current_busy t = elim (get_elem? t.versions t.current) [
      | none ↦ (t, false)
      | some v ↦ (record t { versions = set t.versions t.current (pruned v) }, not (idle v))
    ]

    -- The closure of `retain_idle_spare`: whether a version stays, and whether as the spare.
    pub spared : (A → Bool) → Bool → Version A → Bool
    spared compatible spare v = idle v && not spare && compatible v.resource

    pub keeps : (A → Bool) → ℕ → ℕ → Bool → Version A → Bool
    unfolding spared
    keeps compatible at index spare v = (index == at) || not (idle v) || spared compatible spare v

    -- Its loop from index `index` on; `at` is `self.current`, `current` the index that is carried
    -- along, `spare` whether one idle alternate has been kept. The current version is not tested.
    unfoldable pub retain_loop :
        (A → Bool) → ℕ → ℕ → ℕ → Bool → List (Version A) → List (Version A) × ℕ
    unfolding keeps spared
    retain_loop compatible at index current spare [] = ([], current)
    retain_loop compatible at index current spare (v ∷ vs) =
        let keep = keeps compatible at index spare v in
        let (rest, last) =
          retain_loop compatible at (index + 1)
            (if not keep && ltb index at then current - 1 else current)
            (spare || (not (index == at) && spared compatible spare v)) vs in
        (if keep then (if index == at then v else pruned v) ∷ rest else rest, last)

    unfoldable pub retain_idle_spare : Versions A → (A → Bool) → Versions A × ℕ
    retain_idle_spare t compatible =
        let (kept, current) = retain_loop compatible t.current 0 t.current false t.versions in
        (record { versions = kept; current = current }, length t.versions - length kept)

    pub prune_idle : Versions A → Versions A × ℕ
    unfolding retain_idle_spare
    prune_idle t = retain_idle_spare t (λ _. false)

    -- A test of the version at `i`, if there is one; the version is pruned.
    unfoldable pub test_at : (A → Bool) → List (Version A) → ℕ → List (Version A) × Bool
    test_at compatible vs i = elim (get_elem? vs i) [
      | none ↦ (vs, false)
      | some v ↦ (set vs i (pruned v), idle v && compatible v.resource)
    ]

    -- `position` with the same test: prunes what it looks at.
    pub position : (A → Bool) → List (Version A) → List (Version A) × Option ℕ
    position compatible [] = ([], none)
    position compatible (v ∷ vs) =
        let rest = position compatible vs in
        if idle v && compatible v.resource
        then (pruned v ∷ vs, some 0)
        else (pruned v ∷ rest.0, elim rest.1 [ none ↦ none | some i ↦ some (suc i) ])

    -- `update_target`, from its last choice to its first: any idle version, or a new one.
    pub target_any : Versions A → Versions A × Result ℕ
    unfolding position
    target_any t =
        let (vs, found) = position (λ _. true) t.versions in
        let left = record t { versions = vs } in
        (
          left,
          elim found [
            | some i ↦ ok i
            | none ↦ if ltb (length vs) max_versions then ok (length vs) else err busy_error
          ],
        )

    -- The current version, if it is idle.
    pub target_current : Versions A → Versions A × Result ℕ
    unfolding test_at target_any
    target_current t =
        let (vs, here) = test_at (λ _. true) t.versions t.current in
        let left = record t { versions = vs } in
        if here then (left, ok t.current) else target_any left

    -- Any compatible idle version.
    pub target_compatible : Versions A → (A → Bool) → Versions A × Result ℕ
    unfolding position target_current
    target_compatible t compatible =
        let (vs, found) = position compatible t.versions in
        let left = record t { versions = vs } in
        elim found [ some i ↦ (left, ok i) | none ↦ target_current left ]

    pub update_target : Versions A → (A → Bool) → Versions A × Result ℕ
    unfolding test_at target_compatible
    update_target t compatible =
        let (vs, here) = test_at compatible t.versions t.current in
        let left = record t { versions = vs } in
        if here then (left, ok t.current) else target_compatible left compatible

    pub update_matching :
        Versions A → (A → Bool) → (Option A → Bool → Option A) → Versions A × Result (Unit {0})
    unfolding publish
    update_matching t compatible upload =
        let (t', target) = update_target t compatible in
        elim target [ ok i ↦ publish t' upload i | err e ↦ (t', err e) ]

    pub update : Versions A → (Option A → Bool → Option A) → Versions A × Result (Unit {0})
    unfolding update_matching
    update t upload = update_matching t (λ _. true) upload

    pub writable_matching : Versions A → (A → Bool) → Versions A × Result (Option A)
    unfolding update_target
    writable_matching t compatible =
        let (t', target) = update_target t compatible in
        elim target [
          | ok i ↦ (t', ok (Option.map (λ (v : Version A). v.resource) (get_elem? t'.versions i)))
          | err e ↦ (t', err e)
        ]

    pub prepare_matching {κ} :
        {E : Type κ} → Versions A → (A → Bool) → (Option A → E ⊎ A) → Versions A × Prepared E A
    unfolding writable_matching
    prepare_matching t compatible allocate =
        let (t', found) = writable_matching t compatible in
        (
          t',
          elim found [
            | err e ↦ busy_prepare
            | ok place ↦
                if elim place [ none ↦ false | some a ↦ compatible a ]
                then reusable
                else elim (allocate place) [ inl e ↦ allocation e | inr a ↦ storage a ]
          ],
        )
