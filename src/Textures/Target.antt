-- ===== src/Textures/Target.antt =====
-- Where an update goes.
use cocoa_way.Base.{
  ℕ, ◌≡◌, refl, sym, ap, ◌∙◌, inl, inr, Bool, true, none, some, List, ltb, if◌then◌else◌,
  Bool-cases, Option-cases, length,
}
use cocoa_way.Textures.{
  Version, Versions, max_versions, Result, ok, err, busy_error, test_at, position, update_target,
  target_any, target_current, target_compatible,
}
use cocoa_way.Textures.Views.{
  View, view, views, fits_at, first_fit, test_at_lem, position_lem, length-map,
}

module _ {ℓ} {A : Type ℓ} where
  abbrev pub anything : A → Bool
  anything _ = true

  -- The choices of `update_target` as functions of the views alone.
  unfoldable pub any_of : List (View A) → Result ℕ
  any_of xs = elim (first_fit anything xs) [
    | some i ↦ ok i
    | none ↦ if ltb (length xs) max_versions then ok (length xs) else err busy_error
  ]

  unfoldable pub current_of : List (View A) → ℕ → Result ℕ
  unfolding any_of
  current_of xs current = if fits_at anything xs current then ok current else any_of xs

  unfoldable pub compatible_of : (A → Bool) → List (View A) → ℕ → Result ℕ
  unfolding current_of
  compatible_of compatible xs current = elim (first_fit compatible xs) [
    | some i ↦ ok i
    | none ↦ current_of xs current
  ]

  unfoldable pub target_of : (A → Bool) → List (View A) → ℕ → Result ℕ
  unfolding compatible_of
  target_of compatible xs current =
      if fits_at compatible xs current then ok current else compatible_of compatible xs current

module _ {ℓ} {A : Type ℓ} (busy : ℕ → Bool) where
  -- The outcome is the one that the views decide, and the views stay as they are.
  pub record Chooses (t : Versions A) (expected : Result ℕ) (out : Versions A × Result ℕ)
      : Type ℓ where
    pub same : views busy out.0.versions ≡ views busy t.versions
    pub current : out.0.current ≡ t.current
    pub result : out.1 ≡ expected

  length-views : (vs : List (Version A)) → length (views busy vs) ≡ length vs
  length-views vs = length-map (view busy) vs

  any-Chooses : (t : Versions A) → Chooses t (any_of (views busy t.versions)) (target_any busy t)
  unfolding target_any any_of
  any-Chooses t =
      let (same, found) = position_lem busy anything t.versions in
      let left = (position busy anything t.versions).0 in
      let len : length left ≡ length (views busy t.versions) =
        sym (length-views left) ∙ ap length same in
      let both : (target_any busy t).1 ≡ any_of (views busy t.versions) =
        elim (Option-cases (first_fit anything (views busy t.versions))) [
          | inr (i, hit) ↦ rw (found, hit, target_any, any_of)
          | inl miss ↦ rw (found, miss, target_any, any_of) (rw len)
        ] in
      record { same = same; current = refl; result = both }

  current-Chooses :
      (t : Versions A)
      → Chooses t (current_of (views busy t.versions) t.current) (target_current busy t)
  unfolding target_current current_of
  current-Chooses t =
      let (same, here) = test_at_lem busy anything t.versions t.current in
      let left = record t { versions = (test_at busy anything t.versions t.current).0 } in
      let rest = any-Chooses left in
      elim (Bool-cases (fits_at anything (views busy t.versions) t.current)) [
        | inl hit ↦
            rw (here, hit, target_current, current_of)
              (record { same = same; current = refl; result = refl })
        | inr miss ↦
            rw (here, miss, target_current, current_of)
              (record {
                same = rest.same ∙ same;
                current = rest.current;
                result = rest.result ∙ ap any_of same;
              })
      ]

  compatible-Chooses :
      (t : Versions A) (compatible : A → Bool)
      → Chooses t
          (compatible_of compatible (views busy t.versions) t.current)
          (target_compatible busy t compatible)
  unfolding target_compatible compatible_of
  compatible-Chooses t compatible =
      let (same, found) = position_lem busy compatible t.versions in
      let left = record t { versions = (position busy compatible t.versions).0 } in
      let rest = current-Chooses left in
      elim (Option-cases (first_fit compatible (views busy t.versions))) [
        | inr (i, hit) ↦
            rw (found, hit, target_compatible, compatible_of)
              (record { same = same; current = refl; result = refl })
        | inl miss ↦
            rw (found, miss, target_compatible, compatible_of)
              (record {
                same = rest.same ∙ same;
                current = rest.current;
                result = rest.result ∙ ap (λ xs. current_of xs t.current) same;
              })
      ]

  pub update_target-Chooses :
      (t : Versions A) (compatible : A → Bool)
      → Chooses t
          (target_of compatible (views busy t.versions) t.current)
          (update_target busy t compatible)
  unfolding update_target target_of
  update_target-Chooses t compatible =
      let (same, here) = test_at_lem busy compatible t.versions t.current in
      let left = record t { versions = (test_at busy compatible t.versions t.current).0 } in
      let rest = compatible-Chooses left compatible in
      elim (Bool-cases (fits_at compatible (views busy t.versions) t.current)) [
        | inl hit ↦
            rw (here, hit, update_target, target_of)
              (record { same = same; current = refl; result = refl })
        | inr miss ↦
            rw (here, miss, update_target, target_of)
              (record {
                same = rest.same ∙ same;
                current = rest.current;
                result = rest.result ∙ ap (λ xs. compatible_of compatible xs t.current) same;
              })
      ]
