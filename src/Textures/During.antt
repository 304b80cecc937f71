-- ===== src/Textures/During.antt =====
-- `update_target` with frames that complete while it runs (src/texture_lifetime.rs): each test of a
-- version reads the completions afresh. `busy i` says which frames are busy at the `i`-th test.
use cocoa_way.Base.{
  ℕ, suc, ◌+◌, ◌≡◌, refl, ap, ◌∙◌, inl, inr, Option-cases, Bool, true, ◌&&◌, Option, none, some,
  List, [], ◌∷◌, ltb, if◌then◌else◌, length,
}
use cocoa_way.Textures.{
  Version, Versions, max_versions, Result, ok, err, busy_error, pruned, idle, test_at, position,
  update_target, target_compatible, target_current, target_any,
}

module _ {ℓ} {A : Type ℓ} (busy : ℕ → ℕ → Bool) where
  -- `position`, with its first test at the time `i`.
  unfoldable pub position_from : ℕ → (A → Bool) → List (Version A) → List (Version A) × Option ℕ
  position_from i compatible [] = ([], none)
  position_from i compatible (v ∷ vs) =
      let (rest, found) = position_from (i + 1) compatible vs in
      if idle (busy i) v && compatible v.resource
      then (pruned (busy i) v ∷ vs, some 0)
      else (pruned (busy i) v ∷ rest, elim found [ none ↦ none | some k ↦ some (suc k) ])

  -- The choices from the last to the first, each with the time of its first test.
  unfoldable pub any_from : ℕ → Versions A → Versions A × Result ℕ
  any_from i t =
      let (vs, found) = position_from i (λ _. true) t.versions in
      (
        record t { versions = vs },
        elim found [
          | some k ↦ ok k
          | none ↦ if ltb (length vs) max_versions then ok (length vs) else err busy_error
        ],
      )

  unfoldable pub current_from : ℕ → Versions A → Versions A × Result ℕ
  current_from i t =
      let (vs, here) = test_at (busy i) (λ _. true) t.versions t.current in
      let left = record t { versions = vs } in
      if here then (left, ok t.current) else any_from (i + 1) left

  unfoldable pub compatible_from : ℕ → Versions A → (A → Bool) → Versions A × Result ℕ
  compatible_from i t compatible =
      let (vs, found) = position_from i compatible t.versions in
      let left = record t { versions = vs } in
      elim found [ some k ↦ (left, ok k) | none ↦ current_from (i + length t.versions) left ]

  unfoldable pub update_target_during : Versions A → (A → Bool) → Versions A × Result ℕ
  update_target_during t compatible =
      let (vs, here) = test_at (busy 0) compatible t.versions t.current in
      let left = record t { versions = vs } in
      if here then (left, ok t.current) else compatible_from 1 left compatible

-- With no completion in between this is `update_target`.
module _ {ℓ} {A : Type ℓ} (busy : ℕ → Bool) where
  position_from-fixed :
      (compatible : A → Bool) (vs : List (Version A)) (i : ℕ)
      → position_from (λ _. busy) i compatible vs ≡ position busy compatible vs
  unfolding position_from position
  position_from-fixed compatible [] i = refl
  position_from-fixed compatible (v ∷ vs) i = rw (position_from-fixed compatible vs (i + 1)) refl

  any_from-fixed : (i : ℕ) (t : Versions A) → any_from (λ _. busy) i t ≡ target_any busy t
  unfolding any_from target_any
  any_from-fixed i t = ap answer (position_from-fixed (λ _. true) t.versions i)
    where
      answer : List (Version A) × Option ℕ → Versions A × Result ℕ
      answer (vs, found) = (
        record t { versions = vs },
        elim found [
          | some k ↦ ok k
          | none ↦ if ltb (length vs) max_versions then ok (length vs) else err busy_error
        ],
      )

  current_from-fixed :
      (i : ℕ) (t : Versions A) → current_from (λ _. busy) i t ≡ target_current busy t
  unfolding current_from target_current
  current_from-fixed i t =
      rw
        (any_from-fixed (i + 1)
          (record t { versions = (test_at busy (λ _. true) t.versions t.current).0 }))
        refl

  compatible_from-fixed :
      (i : ℕ) (t : Versions A) (compatible : A → Bool)
      → compatible_from (λ _. busy) i t compatible ≡ target_compatible busy t compatible
  unfolding compatible_from target_compatible
  compatible_from-fixed i t compatible =
      ap answer (position_from-fixed compatible t.versions i)
      ∙ elim (Option-cases (position busy compatible t.versions).1) [
        | inr (k, hit) ↦ rw (hit, target_compatible) refl
        | inl miss ↦
            rw (miss, target_compatible)
              (current_from-fixed (i + length t.versions)
                (record t { versions = (position busy compatible t.versions).0 }))
      ]
    where
      answer : List (Version A) × Option ℕ → Versions A × Result ℕ
      answer (vs, found) =
          let left = record t { versions = vs } in
          elim found [
            | some k ↦ (left, ok k)
            | none ↦ current_from (λ _. busy) (i + length t.versions) left
          ]

  pub update_target_during-fixed :
      (t : Versions A) (compatible : A → Bool)
      → update_target_during (λ _. busy) t compatible ≡ update_target busy t compatible
  unfolding update_target_during update_target
  update_target_during-fixed t compatible =
      rw
        (compatible_from-fixed 1
          (record t { versions = (test_at busy compatible t.versions t.current).0 }) compatible)
        refl
