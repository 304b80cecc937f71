-- ===== src/Textures/Update.antt =====
-- What an update of a texture changes.
use mathlib.Core.Option
use mathlib.Core.Path.{subst₂}
use mathlib.Core.Option.{some-injective}
use cocoa_way.Base.{
  ℕ, zero, suc, ◌≤◌, ◌≡◌, refl, sym, ap, ◌∙◌, ◌⊎◌, inl, inr, Bool, false, ◌&&◌, Option, none, some,
  List, [], ◌∷◌, ◌++◌, ◌==◌, arith, Option-cases, length, get_elem?, set, is_some,
}
use mathlib.Core.List.{map-append}
use cocoa_way.Textures.{
  Version, Versions, Result, ok, err, UpdateError, busy_error, rejected, retain, update_target,
  publish, place, update_matching,
}
use cocoa_way.Textures.Views.{View, view, views, get_elem?-map, map-set, length-map}
use cocoa_way.Textures.Choice.{IsTarget, reuse, fresh, full, update_target-IsTarget}

module _ {ℓ} {A : Type ℓ} where
  none_of_le : (xs : List A) (i : ℕ) → length xs ≤ i → get_elem? xs i ≡ none
  none_of_le [] i h = refl
  none_of_le (x ∷ xs) zero h = absurd (omega arith)
  none_of_le (x ∷ xs) (suc i) h = none_of_le xs i (omega arith)

abbrev pub resource_at {ℓ} : {A : Type ℓ} → List (View A) → ℕ → Option A
resource_at xs i = Option.map (λ x. x.0) (get_elem? xs i)

module _ {ℓ} {A : Type ℓ} (busy : ℕ → Bool) (upload : Option A → Bool → Option A) where
  -- A published update: the callback was given the target's resource, and was told truly whether that
  -- is the current one; its answer is now the current version, without readers, in the place of the
  -- idle target or as a new version at the end; the rest is as it was.
  pub record Published (xs : List (View A)) (current : ℕ) (t : Versions A) : Type ℓ where
    pub resource : A
    pub uploaded :
        upload
          (resource_at xs t.current)
          (is_some (resource_at xs t.current) && (t.current == current))
        ≡ some resource
    pub placed :
        ((old : A) × (get_elem? xs t.current ≡ some (old, []))
          × (views busy t.versions ≡ set xs t.current (resource, [])))
        ⊎ ((t.current ≡ length xs) × (views busy t.versions ≡ xs ++ (resource, []) ∷ []))

  place_reuse :
      (t : Versions A) (i : ℕ) (v : Version A) (a : A)
      → get_elem? t.versions i ≡ some v
      → place t i a
        ≡ record { versions = set t.versions i (record v { resource = a }); current = i }
  unfolding place
  place_reuse t i v a at = rw (at, place)

  place_fresh :
      (t : Versions A) (i : ℕ) (a : A)
      → get_elem? t.versions i ≡ none
      → place t i a ≡ record {
        versions = t.versions ++ record { resource = a; readers = [] } ∷ [];
        current = i;
      }
  unfolding place
  place_fresh t i a at = rw (at, place)

  -- What `publish` does at a target that is idle, or new.
  publish_reuse :
      (t : Versions A) (i : ℕ) (v : Version A) (a : A)
      → get_elem? t.versions i ≡ some v
      → retain busy v.readers ≡ []
      → upload (some v.resource) (i == t.current) ≡ some a
      → Published (views busy t.versions) t.current (publish t upload i).0
        × ((publish t upload i).1 ≡ ok tt)
  unfolding publish
  publish_reuse t i v a at idle up =
      let at' : get_elem? (views busy t.versions) i ≡ some (view busy v) =
        rw (get_elem?-map (view busy) t.versions i, at) in
      let new = record v { resource = a } in
      rw (at, up, place_reuse t i v a at, publish)
        (
          record {
            resource = a;
            uploaded = rw at' up;
            placed =
                inl (v.resource, rw (at', idle), rw (map-set (view busy) t.versions i new, idle));
          },
          refl,
        )

  publish_fresh :
      (t : Versions A) (a : A)
      → upload none false ≡ some a
      → Published (views busy t.versions) t.current (publish t upload (length t.versions)).0
        × ((publish t upload (length t.versions)).1 ≡ ok tt)
  unfolding publish
  publish_fresh t a up =
      let n = length t.versions in
      let new : Version A = record { resource = a; readers = [] } in
      let none_at : get_elem? t.versions n ≡ none = none_of_le t.versions n (omega arith) in
      let none_seen : get_elem? (views busy t.versions) n ≡ none =
        rw (get_elem?-map (view busy) t.versions n, none_at) in
      rw (none_at, up, place_fresh t n a none_at, publish)
        (
          record {
            resource = a;
            uploaded = rw none_seen up;
            placed = inr (
              sym (length-map (view busy) t.versions),
              map-append (view busy) t.versions (new ∷ []),
            );
          },
          refl,
        )

  resource_at-views :
      (vs : List (Version A)) (i : ℕ)
      → Option.map (λ (v : Version A). v.resource) (get_elem? vs i) ≡ resource_at (views busy vs) i
  resource_at-views vs i = elim (Option-cases (get_elem? vs i)) [
    | inl e ↦ rw (get_elem?-map (view busy) vs i, e)
    | inr (v, e) ↦ rw (get_elem?-map (view busy) vs i, e)
  ]

  publish_rejected :
      (t : Versions A) (i : ℕ)
      → upload
          (resource_at (views busy t.versions) i)
          (is_some (resource_at (views busy t.versions) i) && (i == t.current))
        ≡ none
      → publish t upload i ≡ (t, err rejected)
  unfolding publish
  publish_rejected t i up = rw (resource_at-views t.versions i, up, publish)

  -- What an update comes to.
  pub data Outcome (xs : List (View A)) (current : ℕ) (out : Versions A × Result (Unit {0}))
      : Type ℓ where
    done : out.1 ≡ ok tt → Published xs current out.0 → Outcome xs current out
    failed :
        (e : UpdateError)
        → out.1 ≡ err e
        → views busy out.0.versions ≡ xs
        → out.0.current ≡ current
        → Outcome xs current out

  publish_idle :
      (t : Versions A) (i : ℕ) (a : A)
      → get_elem? (views busy t.versions) i ≡ some (a, [])
      → Outcome (views busy t.versions) t.current (publish t upload i)
  publish_idle t i a at = elim (Option-cases (upload (some a) (i == t.current))) [
    | inl refused ↦ rw (publish_rejected t i (rw at refused)) (failed rejected refl refl refl)
    | inr (b, up) ↦ elim (Option-cases (get_elem? t.versions i)) [
      | inl gone ↦ absurd (no_view gone)
      | inr (v, there) ↦
          let same : view busy v ≡ (a, []) = seen v there in
          let (published, result) =
            publish_reuse t i v b there (ap (λ x. x.1) same) (rw (ap (λ x. x.0) same) up) in
          done result published
    ]
  ]
    where
      no_view : get_elem? t.versions i ≡ none → ⊥
      no_view gone =
          cc (sym at ∙ get_elem?-map (view busy) t.versions i ∙ ap (Option.map (view busy)) gone)

      seen : (v : Version A) → get_elem? t.versions i ≡ some v → view busy v ≡ (a, [])
      seen v there = some-injective _ _ (
          sym (sym at ∙ get_elem?-map (view busy) t.versions i ∙ ap (Option.map (view busy)) there))

  publish_new :
      (t : Versions A)
      → Outcome (views busy t.versions) t.current (publish t upload (length t.versions))
  publish_new t =
      let n = length t.versions in
      let none_seen : get_elem? (views busy t.versions) n ≡ none =
        none_of_le (views busy t.versions) n (omega (arith, length-map (view busy) t.versions)) in
      elim (Option-cases (upload none false)) [
        | inl refused ↦
            rw (publish_rejected t n (rw none_seen refused)) (failed rejected refl refl refl)
        | inr (b, up) ↦ let (published, result) = publish_fresh t b up in done result published
      ]

  -- The rest of an update after any choice of a target.
  publish_at : Versions A → Result ℕ → Versions A × Result (Unit {0})
  publish_at t (ok i) = publish t upload i
  publish_at t (err e) = (t, err e)

  publish_at-Outcome :
      (t : Versions A) (r : Result ℕ) (compatible : A → Bool)
      → IsTarget compatible (views busy t.versions) r
      → Outcome (views busy t.versions) t.current (publish_at t r)
  unfolding publish_at
  publish_at-Outcome t r compatible (reuse i a e at good) =
      rw (e, publish_at) (publish_idle t i a at)
  publish_at-Outcome t r compatible (fresh e room read) =
      rw (e, publish_at, length-map (view busy) t.versions) (publish_new t)
  publish_at-Outcome t r compatible (full e many read) =
      rw (e, publish_at) (failed busy_error refl refl refl)

  update_matching_publishes :
      (t : Versions A) (compatible : A → Bool)
      → update_matching busy t compatible upload
        ≡ (let (t', r) = update_target busy t compatible in publish_at t' r)
  unfolding update_matching publish_at
  update_matching_publishes t compatible = by_result (update_target busy t compatible).1 refl
    where
      by_result :
          (r : Result ℕ)
          → (update_target busy t compatible).1 ≡ r
          → update_matching busy t compatible upload
            ≡ (let (t', r) = update_target busy t compatible in publish_at t' r)
      by_result (ok i) e = rw (e, update_matching, publish_at)
      by_result (err x) e = rw (e, update_matching, publish_at)

  -- A whole update: it publishes what the callback made, in an idle version's place or a new one, or
  -- fails and leaves every resource, every live reader and the current index as they were.
  pub update_matching-Outcome :
      (t : Versions A) (compatible : A → Bool)
      → Outcome (views busy t.versions) t.current (update_matching busy t compatible upload)
  update_matching-Outcome t compatible =
      let (target, same, current) = update_target-IsTarget busy t compatible in
      let (t', r) = update_target busy t compatible in
      let outcome = publish_at-Outcome t' r compatible (rw same target) in
      rw (update_matching_publishes t compatible)
        (subst₂ (λ xs c. Outcome xs c (publish_at t' r)) same current outcome)
