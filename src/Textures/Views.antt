-- ===== src/Textures/Views.antt =====
-- A version as its resource and the readers that are left. Pruning does not show in this view, so
-- what the tests of a texture answer is a function of it.
use mathlib.Core.Option
use mathlib.Core.Path.{ap₂}
use cocoa_way.Base.{
  ℕ, zero, suc, ◌≡◌, refl, ap, Bool, false, ◌&&◌, Option, none, some, List, [], ◌∷◌, map,
  if◌then◌else◌, arith, Bool-cases, Option-cases, inl, inr, length, get_elem?, set,
}
use cocoa_way.Textures.{Version, retain, is_empty, pruned, idle, test_at, position}

pub retain-retain : (p : ℕ → Bool) (xs : List ℕ) → retain p (retain p xs) ≡ retain p xs
retain-retain p [] = refl
retain-retain p (x ∷ xs) = ground (arith, retain-retain p xs)

module _ {ℓ κ} {A : Type ℓ} {B : Type κ} (f : A → B) where
  pub get_elem?-map : (xs : List A) (i : ℕ) → get_elem? (map f xs) i ≡ Option.map f (get_elem? xs i)
  get_elem?-map [] i = refl
  get_elem?-map (x ∷ xs) zero = refl
  get_elem?-map (x ∷ xs) (suc i) = get_elem?-map xs i

  pub map-set : (xs : List A) (i : ℕ) (a : A) → map f (set xs i a) ≡ set (map f xs) i (f a)
  map-set [] i a = refl
  map-set (x ∷ xs) zero a = refl
  map-set (x ∷ xs) (suc i) a = ap (◌∷◌ (f x)) (map-set xs i a)

  pub length-map : (xs : List A) → length (map f xs) ≡ length xs
  length-map [] = refl
  length-map (x ∷ xs) = ap suc (length-map xs)

module _ {ℓ} {A : Type ℓ} where
  pub set_same : (xs : List A) (i : ℕ) (a : A) → get_elem? xs i ≡ some a → set xs i a ≡ xs
  set_same [] i a e = refl
  set_same (x ∷ xs) zero a e = cc
  set_same (x ∷ xs) (suc i) a e = ap (◌∷◌ x) (set_same xs i a e)

abbrev pub View {ℓ} : Type ℓ → Type ℓ
View A = A × List ℕ

module _ {ℓ} {A : Type ℓ} (busy : ℕ → Bool) where
  abbrev pub view : Version A → View A
  view v = (v.resource, retain busy v.readers)

  abbrev pub views : List (Version A) → List (View A)
  views = map view

  pub view-pruned : (v : Version A) → view (pruned busy v) ≡ view v
  view-pruned v = ap (λ rs. (v.resource, rs)) (retain-retain busy v.readers)

  pub views-set-pruned :
      (vs : List (Version A)) (i : ℕ) (v : Version A)
      → get_elem? vs i ≡ some v
      → views (set vs i (pruned busy v)) ≡ views vs
  views-set-pruned vs i v e =
      rw (map-set view vs i (pruned busy v), view-pruned v)
        (set_same (views vs) i (view v) (rw (get_elem?-map view vs i, e)))

-- The tests on views.
module _ {ℓ} {A : Type ℓ} where
  abbrev pub fits : (A → Bool) → View A → Bool
  fits compatible (a, rs) = is_empty rs && compatible a

  unfoldable pub fits_at : (A → Bool) → List (View A) → ℕ → Bool
  fits_at compatible xs i = elim (get_elem? xs i) [ none ↦ false | some x ↦ fits compatible x ]

  unfoldable pub first_fit : (A → Bool) → List (View A) → Option ℕ
  first_fit compatible [] = none
  first_fit compatible (x ∷ xs) =
      let rest = first_fit compatible xs in
      if fits compatible x then some 0 else elim rest [ none ↦ none | some i ↦ some (suc i) ]

module _ {ℓ} {A : Type ℓ} (busy : ℕ → Bool) (compatible : A → Bool) where
  pub test_at_lem :
      (vs : List (Version A)) (i : ℕ)
      → (views busy (test_at busy compatible vs i).0 ≡ views busy vs)
        × ((test_at busy compatible vs i).1 ≡ fits_at compatible (views busy vs) i)
  unfolding test_at fits_at
  test_at_lem vs i = elim (Option-cases (get_elem? vs i)) [
    | inl e ↦
        let e' : get_elem? (views busy vs) i ≡ none = rw (get_elem?-map (view busy) vs i, e) in
        rw (e, test_at) (refl, rw (e', fits_at))
    | inr (v, e) ↦
        let e' : get_elem? (views busy vs) i ≡ some (view busy v) =
          rw (get_elem?-map (view busy) vs i, e) in
        rw (e, test_at) (views-set-pruned busy vs i v e, rw (e', fits_at))
  ]

  pub position_lem :
      (vs : List (Version A))
      → (views busy (position busy compatible vs).0 ≡ views busy vs)
        × ((position busy compatible vs).1 ≡ first_fit compatible (views busy vs))
  unfolding position fits_at first_fit
  position_lem [] = (refl, refl)
  position_lem (v ∷ vs) =
      let (same, found) = position_lem vs in
      elim (Bool-cases (idle busy v && compatible v.resource)) [
        | inl hit ↦ rw (hit, position) (ap (λ x. x ∷ views busy vs) (view-pruned busy v), refl)
        | inr miss ↦ rw (miss, found, position) (ap₂ ◌∷◌ (view-pruned busy v) same, refl)
      ]
