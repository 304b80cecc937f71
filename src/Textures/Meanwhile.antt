-- ===== src/Textures/Meanwhile.antt =====
-- Where an update goes while frames complete (src/texture_lifetime.rs).
use cocoa_way.Base.{
  ℕ, suc, ◌+◌, ◌≤◌, ◌<◌, ◌≡◌, refl, ap, ◌∙◌, subst, ◌⊎◌, inl, inr, Bool, true, false, some, List,
  [], ltb, arith, Bool-cases, Option-cases, length, get_elem?,
}
use cocoa_way.Textures.{Version, Versions, max_versions, Result, ok, err, busy_error, test_at}
use cocoa_way.Textures.Views.{views, fits_at, test_at_lem}
use cocoa_way.Textures.Target.{anything}
use cocoa_way.Textures.Choice.{AllRead, NoneFits, fits_at-true, none_idle}
use cocoa_way.Textures.During.{
  position_from, any_from, current_from, compatible_from, update_target_during,
}
use cocoa_way.Textures.Scans.{Same, Same-length, test_at-Same, position_from-Scans, idle_at-later}

module _ {ℓ} {A : Type ℓ} (busy : ℕ → ℕ → Bool) where
  -- Where an update may go, `vs` as they are before it: to a version that is idle by its end, a
  -- compatible one unless none was idle when the scan for one began; to a new version, or nowhere, if
  -- all were read when the last scan began.
  pub data GoesTo (compatible : A → Bool) (vs : List (Version A)) (r : Result ℕ) : Type ℓ where
    reuse :
        (k : ℕ) (a : A)
        → r ≡ ok k
        → get_elem? (views (busy (2 + length vs + length vs)) vs) k ≡ some (a, [])
        → (compatible a ≡ true) ⊎ NoneFits compatible (views (busy 1) vs)
        → GoesTo compatible vs r
    fresh :
        r ≡ ok (length vs)
        → length vs < max_versions
        → AllRead (views (busy (2 + length vs)) vs)
        → GoesTo compatible vs r
    full :
        r ≡ err busy_error
        → max_versions ≤ length vs
        → AllRead (views (busy (2 + length vs)) vs)
        → GoesTo compatible vs r

module _ {ℓ} {A : Type ℓ} (busy : ℕ → ℕ → Bool)
    (final : (i frame : ℕ) → busy i frame ≡ false → busy (suc i) frame ≡ false) where
  -- The choice, with what it leaves of the versions.
  Chosen : (A → Bool) → Versions A → Versions A × Result ℕ → Type ℓ
  Chosen compatible t (t', r) =
      GoesTo busy compatible t.versions r
      × Same busy (2 + length t.versions + length t.versions) t.versions t'.versions
      × (t'.current ≡ t.current)

  module _ (compatible : A → Bool) (t : Versions A) where
    any_from-Chosen :
        (left : Versions A)
        → Same busy (2 + length t.versions) t.versions left.versions
        → left.current ≡ t.current
        → NoneFits compatible (views (busy 1) t.versions)
        → Chosen compatible t (any_from busy (2 + length t.versions) left)
    unfolding any_from Chosen
    any_from-Chosen left same at unfit =
        let i = 2 + length t.versions in
        let scan = position_from-Scans busy final anything i left.versions in
        let end : i + length left.versions ≡ i + length t.versions =
          ap (λ n. i + n) (Same-length busy i t.versions left.versions same) in
        let out = position_from busy i anything left.versions in
        let still : Same busy (2 + length t.versions + length t.versions) t.versions out.0 =
          λ j le. scan.same j (omega (arith, end)) ∙ same j (omega arith) in
        let len : length out.0 ≡ length t.versions = Same-length busy _ t.versions out.0 still in
        (
          elim (Option-cases out.1) [
            | inr (k, hit) ↦
                let (a, there, _) = scan.hit k (i + length t.versions) hit (omega (arith, end)) in
                reuse k a (rw (hit, any_from) refl)
                  (subst (λ xs. get_elem? xs k ≡ some (a, []))
                    (same (i + length t.versions) (omega arith)) there)
                  (inr unfit)
            | inl miss ↦
                let read : AllRead (views (busy i) t.versions) =
                  subst AllRead (same i (omega arith))
                    (none_idle (views (busy i) left.versions) (scan.missed miss)) in
                elim (Bool-cases (ltb (length t.versions) max_versions)) [
                  | inl room ↦ fresh (rw (miss, any_from) (rw (len, room) refl)) (ground arith) read
                  | inr none_left ↦
                      full (rw (miss, any_from) (rw (len, none_left) refl)) (ground arith) read
                ]
          ],
          still,
          at,
        )

    current_from-Chosen :
        (left : Versions A)
        → Same busy (1 + length t.versions) t.versions left.versions
        → left.current ≡ t.current
        → NoneFits compatible (views (busy 1) t.versions)
        → Chosen compatible t (current_from busy (1 + length t.versions) left)
    unfolding current_from Chosen
    current_from-Chosen left same at unfit =
        let i = 1 + length t.versions in
        let (_, here) = test_at_lem (busy i) anything left.versions left.current in
        let out = (test_at (busy i) anything left.versions left.current).0 in
        let still : Same busy i t.versions out =
          λ j le. test_at-Same busy final anything left.versions i left.current j le ∙ same j le in
        elim (Bool-cases (fits_at anything (views (busy i) left.versions) left.current)) [
          | inl hit ↦
              let (a, there, _) =
                fits_at-true anything (views (busy i) left.versions) left.current hit in
              rw (here, hit, current_from)
                (
                  reuse left.current a refl
                      (idle_at-later busy final t.versions left.current i
                        (2 + length t.versions + length t.versions) a (omega arith)
                        (subst (λ xs. get_elem? xs left.current ≡ some (a, []))
                          (same i (omega arith)) there))
                      (inr unfit),
                  λ j le. still j (omega arith),
                  at,
                )
          | inr miss ↦
              let next : 2 + length t.versions ≡ i + 1 = omega arith in
              rw (here, miss, current_from)
                (subst (λ k. Chosen compatible t (any_from busy k (record left { versions = out })))
                  next
                  (any_from-Chosen (record left { versions = out }) (λ j le. still j (omega arith))
                    at unfit))
        ]

    compatible_from-Chosen :
        (left : Versions A)
        → Same busy 1 t.versions left.versions
        → left.current ≡ t.current
        → Chosen compatible t (compatible_from busy 1 left compatible)
    unfolding compatible_from Chosen
    compatible_from-Chosen left same at =
        let scan = position_from-Scans busy final compatible 1 left.versions in
        let end = Same-length busy 1 t.versions left.versions same in
        let out = position_from busy 1 compatible left.versions in
        let still : Same busy (1 + length t.versions) t.versions out.0 =
          λ j le. scan.same j (omega (arith, end)) ∙ same j (omega arith) in
        elim (Option-cases out.1) [
          | inr (k, hit) ↦
              let last = 2 + length t.versions + length t.versions in
              let (a, there, good) = scan.hit k last hit (omega (arith, end)) in
              rw (hit, compatible_from)
                (
                  reuse k a refl
                      (subst (λ xs. get_elem? xs k ≡ some (a, [])) (same last (omega arith)) there)
                      (inl good),
                  λ j le. still j (omega arith),
                  at,
                )
          | inl miss ↦
              let unfit : NoneFits compatible (views (busy 1) t.versions) =
                subst (NoneFits compatible) (same 1 (omega arith)) (scan.missed miss) in
              let next : 1 + length t.versions ≡ 1 + length left.versions = omega (arith, end) in
              rw (miss, compatible_from)
                (subst
                  (λ k.
                    Chosen compatible t (current_from busy k (record left { versions = out.0 })))
                  next (current_from-Chosen (record left { versions = out.0 }) still at unfit))
        ]

    update_target_during-Chosen : Chosen compatible t (update_target_during busy t compatible)
    unfolding update_target_during Chosen
    update_target_during-Chosen =
        let (_, here) = test_at_lem (busy 0) compatible t.versions t.current in
        let out = (test_at (busy 0) compatible t.versions t.current).0 in
        let still : Same busy 0 t.versions out =
          test_at-Same busy final compatible t.versions 0 t.current in
        elim (Bool-cases (fits_at compatible (views (busy 0) t.versions) t.current)) [
          | inl hit ↦
              let (a, there, good) =
                fits_at-true compatible (views (busy 0) t.versions) t.current hit in
              rw (here, hit, update_target_during)
                (
                  reuse t.current a refl
                      (idle_at-later busy final t.versions t.current 0
                        (2 + length t.versions + length t.versions) a (omega arith) there)
                      (inl good),
                  λ j le. still j (omega arith),
                  refl,
                )
          | inr miss ↦
              rw (here, miss, update_target_during)
                (compatible_from-Chosen (record t { versions = out })
                  (λ j le. still j (omega arith)) refl)
        ]

  -- Where an update may go while frames complete, and none becomes busy again: to a version that is
  -- idle by the end of the call, a compatible one unless every compatible version was read when the
  -- scan for one began; to a new version only if all were read when the last scan began and fewer than
  -- three exist; and it fails as busy only if three exist and all were read then. By the end, looking
  -- for it has changed no resource, no live reader and not the current index.
  pub update_target_during-GoesTo :
      (t : Versions A) (compatible : A → Bool)
      → let (t', r) = update_target_during busy t compatible in
        let last = 2 + length t.versions + length t.versions in
        GoesTo busy compatible t.versions r
        × (views (busy last) t'.versions ≡ views (busy last) t.versions)
        × (t'.current ≡ t.current)
  unfolding Chosen
  update_target_during-GoesTo t compatible =
      let (goes, still, at) = update_target_during-Chosen compatible t in
      (goes, still (2 + length t.versions + length t.versions) (omega arith), at)
