-- ===== src/Textures/Kept.antt =====
-- An update never touches an image that a frame in flight reads.
use cocoa_way.Base.{
  ℕ, zero, suc, ◌≡◌, ◌≢◌, refl, sym, ap, ◌∙◌, inl, inr, Bool, Option, some, List, [], ◌∷◌, ◌++◌,
  get_elem?, set,
}
use cocoa_way.Textures.{Versions, update_matching}
use cocoa_way.Textures.Views.{View, views}
use cocoa_way.Textures.Update.{done, failed, update_matching-Outcome}

module _ {ℓ} {A : Type ℓ} where
  get_elem?-set_ne :
      (xs : List A) (i j : ℕ) (v : A) → i ≢ j → get_elem? (set xs i v) j ≡ get_elem? xs j
  get_elem?-set_ne [] i j v h = refl
  get_elem?-set_ne (x ∷ xs) zero zero v h = absurd (h refl)
  get_elem?-set_ne (x ∷ xs) zero (suc j) v h = refl
  get_elem?-set_ne (x ∷ xs) (suc i) zero v h = refl
  get_elem?-set_ne (x ∷ xs) (suc i) (suc j) v h = get_elem?-set_ne xs i j v (λ e. h (ap suc e))

  get_elem?-append :
      (xs ys : List A) (i : ℕ) (a : A) → get_elem? xs i ≡ some a → get_elem? (xs ++ ys) i ≡ some a
  get_elem?-append [] ys i a e = cc
  get_elem?-append (x ∷ xs) ys zero a e = e
  get_elem?-append (x ∷ xs) ys (suc i) a e = get_elem?-append xs ys i a e

module _ {ℓ} {A : Type ℓ} (i r : ℕ) (rs : List ℕ) where
  -- A place that is read is no idle one.
  kept-set :
      (xs : List (View A)) (a old : A) (k : ℕ) (new : View A)
      → get_elem? xs i ≡ some (a, r ∷ rs)
      → get_elem? xs k ≡ some (old, [])
      → get_elem? (set xs k new) i ≡ some (a, r ∷ rs)
  kept-set xs a old k new at idle = get_elem?-set_ne xs k i new (λ same. clash same) ∙ at
    where
      clash : k ≡ i → ⊥
      clash same = cc (sym idle ∙ ap (get_elem? xs) same ∙ at)

-- An image that a frame in flight reads keeps its place, its resource and its readers through every
-- update, whichever version the update goes to and whatever its callback answers.
pub read_versions_kept {ℓ} :
    {A : Type ℓ} (busy : ℕ → Bool) (upload : Option A → Bool → Option A) (t : Versions A)
    (compatible : A → Bool) (i r : ℕ) (a : A) (rs : List ℕ)
    → get_elem? (views busy t.versions) i ≡ some (a, r ∷ rs)
    → get_elem? (views busy (update_matching busy t compatible upload).0.versions) i
      ≡ some (a, r ∷ rs)
read_versions_kept busy upload t compatible i r a rs at =
    elim (update_matching-Outcome busy upload t compatible) [
      | failed e _ same _ ↦ rw same at
      | done _ p ↦ elim p.placed [
        | inl (old, idle, e) ↦ rw e (kept-set i r rs (views busy t.versions) a old _ _ at idle)
        | inr (_, e) ↦ rw e (get_elem?-append (views busy t.versions) _ i _ at)
      ]
    ]
