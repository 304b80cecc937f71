-- ===== src/Textures/Choice.antt =====
-- What a version that an update chooses may be.
use cocoa_way.Base.{
  ℕ, zero, suc, ◌≤◌, ◌<◌, ◌≡◌, refl, ◌⊎◌, inl, inr, Bool, true, false, none, some, List, [], ◌∷◌,
  ltb, arith, Bool-cases, Option-cases, length, get_elem?, All,
}
use cocoa_way.Textures.{
  Versions, max_versions, Result, ok, err, busy_error, is_empty, update_target,
}
use cocoa_way.Textures.Views.{View, views, fits, fits_at, first_fit}
use cocoa_way.Textures.Target.{
  anything, any_of, current_of, compatible_of, target_of, update_target-Chooses,
}

module _ {ℓ} {A : Type ℓ} where
  -- Every version is read by a frame in flight.
  abbrev pub AllRead : List (View A) → Type 0
  AllRead xs = All (λ (x : View A). is_empty x.1 ≡ false) xs

  abbrev pub NoneFits : (A → Bool) → List (View A) → Type 0
  NoneFits compatible xs = All (λ (x : View A). fits compatible x ≡ false) xs

  -- What a target may be: an idle version, compatible if any idle one is; or a new version, or an
  -- error, if all are read.
  pub data IsTarget (compatible : A → Bool) (xs : List (View A)) (r : Result ℕ) : Type ℓ where
    reuse :
        (i : ℕ) (a : A)
        → r ≡ ok i
        → get_elem? xs i ≡ some (a, [])
        → (compatible a ≡ true) ⊎ NoneFits compatible xs
        → IsTarget compatible xs r
    fresh : r ≡ ok (length xs) → length xs < max_versions → AllRead xs → IsTarget compatible xs r
    full : r ≡ err busy_error → max_versions ≤ length xs → AllRead xs → IsTarget compatible xs r

  pub fits_at-true :
      (compatible : A → Bool) (xs : List (View A)) (i : ℕ)
      → fits_at compatible xs i ≡ true
      → (a : A) × (get_elem? xs i ≡ some (a, [])) × (compatible a ≡ true)
  unfolding fits_at
  fits_at-true compatible [] i e = cc
  fits_at-true compatible ((a, []) ∷ xs) zero e = (a, refl, e)
  fits_at-true compatible ((a, r ∷ rs) ∷ xs) zero e = cc
  fits_at-true compatible (x ∷ xs) (suc i) e = fits_at-true compatible xs i e

  fits_at-head :
      (compatible : A → Bool) (x : View A) (xs : List (View A))
      → fits_at compatible (x ∷ xs) 0 ≡ fits compatible x
  unfolding fits_at
  fits_at-head compatible x xs = refl

  first_fit-some :
      (compatible : A → Bool) (xs : List (View A)) (i : ℕ)
      → first_fit compatible xs ≡ some i
      → (a : A) × (get_elem? xs i ≡ some (a, [])) × (compatible a ≡ true)
  unfolding first_fit
  first_fit-some compatible [] i e = cc
  first_fit-some compatible (x ∷ xs) i e = elim (Bool-cases (fits compatible x)) [
    | inl hit ↦
        let first : i ≡ 0 = ground arith in
        rw first (fits_at-true compatible (x ∷ xs) 0 (rw fits_at-head hit))
    | inr miss ↦ elim (Option-cases (first_fit compatible xs)) [
      | inl gone ↦ absurd (ground arith)
      | inr (k, there) ↦
          let next : i ≡ suc k = ground arith in rw next (first_fit-some compatible xs k there)
    ]
  ]

  first_fit-none :
      (compatible : A → Bool) (xs : List (View A))
      → first_fit compatible xs ≡ none
      → NoneFits compatible xs
  unfolding first_fit
  first_fit-none compatible [] e = tt
  first_fit-none compatible (x ∷ xs) e = ground (arith, first_fit-none compatible xs)

  pub none_idle : (xs : List (View A)) → NoneFits anything xs → AllRead xs
  none_idle [] h = tt
  none_idle (x ∷ xs) h = (ground arith, none_idle xs h.1)

  any_of-IsTarget :
      (compatible : A → Bool) (xs : List (View A))
      → NoneFits compatible xs
      → IsTarget compatible xs (any_of xs)
  unfolding any_of
  any_of-IsTarget compatible xs unfit = elim (Option-cases (first_fit anything xs)) [
    | inr (i, hit) ↦
        let (a, at, _) = first_fit-some anything xs i hit in
        reuse i a (rw (hit, any_of)) at (inr unfit)
    | inl miss ↦
        let read = none_idle xs (first_fit-none anything xs miss) in
        elim (Bool-cases (ltb (length xs) max_versions)) [
          | inl room ↦ fresh (rw (miss, room, any_of)) (ground arith) read
          | inr none_left ↦ full (rw (miss, none_left, any_of)) (ground arith) read
        ]
  ]

  current_of-IsTarget :
      (compatible : A → Bool) (xs : List (View A)) (current : ℕ)
      → NoneFits compatible xs
      → IsTarget compatible xs (current_of xs current)
  unfolding current_of
  current_of-IsTarget compatible xs current unfit =
      elim (Bool-cases (fits_at anything xs current)) [
        | inl hit ↦
            let (a, at, _) = fits_at-true anything xs current hit in
            reuse current a (rw (hit, current_of)) at (inr unfit)
        | inr miss ↦ rw (miss, current_of) (any_of-IsTarget compatible xs unfit)
      ]

  compatible_of-IsTarget :
      (compatible : A → Bool) (xs : List (View A)) (current : ℕ)
      → IsTarget compatible xs (compatible_of compatible xs current)
  unfolding compatible_of
  compatible_of-IsTarget compatible xs current = elim (Option-cases (first_fit compatible xs)) [
    | inr (i, hit) ↦
        let (a, at, good) = first_fit-some compatible xs i hit in
        reuse i a (rw (hit, compatible_of)) at (inl good)
    | inl miss ↦
        rw (miss, compatible_of)
          (current_of-IsTarget compatible xs current (first_fit-none compatible xs miss))
  ]

  target_of-IsTarget :
      (compatible : A → Bool) (xs : List (View A)) (current : ℕ)
      → IsTarget compatible xs (target_of compatible xs current)
  unfolding target_of
  target_of-IsTarget compatible xs current = elim (Bool-cases (fits_at compatible xs current)) [
    | inl hit ↦
        let (a, at, good) = fits_at-true compatible xs current hit in
        reuse current a (rw (hit, target_of)) at (inl good)
    | inr miss ↦ rw (miss, target_of) (compatible_of-IsTarget compatible xs current)
  ]

-- Where an update may go if no frame completes during the call: to an idle version, a compatible one if
-- any is idle; to a new version only if all are read and fewer than three exist; and it fails as
-- busy only if three exist and all are read. Looking for it changes no resource and no live reader.
pub update_target-IsTarget {ℓ} :
    {A : Type ℓ} (busy : ℕ → Bool) (t : Versions A) (compatible : A → Bool)
    → let (t', r) = update_target busy t compatible in
      IsTarget compatible (views busy t.versions) r
      × (views busy t'.versions ≡ views busy t.versions)
      × (t'.current ≡ t.current)
update_target-IsTarget busy t compatible =
    let c = update_target-Chooses busy t compatible in
    (
      rw c.result (target_of-IsTarget compatible (views busy t.versions) t.current),
      c.same,
      c.current,
    )
