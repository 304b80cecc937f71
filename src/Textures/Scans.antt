-- ===== src/Textures/Scans.antt =====
-- What a scan of the versions finds and leaves while frames complete (src/texture_lifetime.rs).
use mathlib.Core.Option
use mathlib.Core.Path.{ap₂}
use cocoa_way.Base.{
  ℕ, zero, suc, ◌+◌, ◌-◌, ◌≤◌, ◌≡◌, refl, sym, ap, ◌∙◌, subst, inl, inr, Bool, true, false, ◌&&◌,
  Option, none, some, List, [], ◌∷◌, arith, Bool-cases, Option-cases, length, get_elem?,
}
use cocoa_way.Textures.{Version, is_empty, retain, pruned, idle, test_at}
use cocoa_way.Textures.Views.{View, view, views, fits, get_elem?-map, map-set, set_same, length-map}
use cocoa_way.Textures.Choice.{NoneFits}
use cocoa_way.Textures.During.{position_from}

module _ {ℓ} {A : Type ℓ} (busy : ℕ → ℕ → Bool) where
  -- What the tests leave looks the same from the time `i` on.
  abbrev pub Same : ℕ → List (Version A) → List (Version A) → Type ℓ
  Same i vs ws = (j : ℕ) → i ≤ j → views (busy j) ws ≡ views (busy j) vs

  pub Same-length : (i : ℕ) (vs ws : List (Version A)) → Same i vs ws → length ws ≡ length vs
  Same-length i vs ws same =
      sym (length-map (view (busy i)) ws)
      ∙ (ap length (same i (omega arith)) ∙ length-map (view (busy i)) vs)

  -- A scan: what it leaves, and what it finds.
  pub record Scans (compatible : A → Bool) (i : ℕ) (vs : List (Version A))
      (out : List (Version A) × Option ℕ) : Type ℓ where
    pub same : Same (i + length vs) vs out.0
    pub missed : out.1 ≡ none → NoneFits compatible (views (busy i) vs)
    pub hit :
        (k j : ℕ)
        → out.1 ≡ some k
        → i + length vs ≤ j
        → (a : A) × (get_elem? (views (busy j) vs) k ≡ some (a, [])) × (compatible a ≡ true)

module _ (busy : ℕ → ℕ → Bool)
    (final : (i frame : ℕ) → busy i frame ≡ false → busy (suc i) frame ≡ false) where
  busy_more : (d i frame : ℕ) → busy i frame ≡ false → busy (i + d) frame ≡ false
  busy_more zero i frame done =
      let same : i ≡ i + 0 = omega arith in subst (λ k. busy k frame ≡ false) same done
  busy_more (suc d) i frame done =
      let next : suc (i + d) ≡ i + suc d = omega arith in
      subst (λ k. busy k frame ≡ false) next (final (i + d) frame (busy_more d i frame done))

  busy-later : (i j frame : ℕ) → i ≤ j → busy i frame ≡ false → busy j frame ≡ false
  busy-later i j frame le done =
      let there : i + (j - i) ≡ j = omega arith in
      subst (λ k. busy k frame ≡ false) there (busy_more (j - i) i frame done)

  retain-later :
      (i j : ℕ) (xs : List ℕ) → i ≤ j → retain (busy j) (retain (busy i) xs) ≡ retain (busy j) xs
  retain-later i j [] le = refl
  retain-later i j (x ∷ xs) le =
      let rest = retain-later i j xs le in
      elim (Bool-cases (busy i x)) [
        | inl reading ↦ rw (reading, rest) refl
        | inr done ↦ rw (done, busy-later i j x le done, rest) refl
      ]

  empty-later :
      (i j : ℕ) (xs : List ℕ)
      → i ≤ j
      → is_empty (retain (busy i) xs) ≡ true
      → retain (busy j) xs ≡ []
  empty-later i j [] le e = refl
  empty-later i j (x ∷ xs) le e = elim (Bool-cases (busy i x)) [
    | inl reading ↦ absurd (ground (arith, rw reading at e))
    | inr done ↦ rw (busy-later i j x le done) (empty-later i j xs le (rw done at e))
  ]

  module _ {ℓ} {A : Type ℓ} where
    view-pruned_later :
        (i j : ℕ) (v : Version A) → i ≤ j → view (busy j) (pruned (busy i) v) ≡ view (busy j) v
    view-pruned_later i j v le = ap (λ rs. (v.resource, rs)) (retain-later i j v.readers le)

    -- An idle version stays idle.
    idle-later :
        (compatible : A → Bool) (i j : ℕ) (v : Version A)
        → i ≤ j
        → (idle (busy i) v && compatible v.resource) ≡ true
        → (view (busy j) v ≡ (v.resource, [])) × (compatible v.resource ≡ true)
    idle-later compatible i j v le e = elim (Bool-cases (idle (busy i) v)) [
      | inl free ↦ (ap (λ rs. (v.resource, rs)) (empty-later i j v.readers le free), rw free at e)
      | inr reading ↦ absurd (ground (arith, rw reading at e))
    ]

    -- What no test found then, no test would have found before.
    NoneFits-earlier :
        (compatible : A → Bool) (vs : List (Version A)) (i j : ℕ)
        → i ≤ j
        → NoneFits compatible (views (busy j) vs)
        → NoneFits compatible (views (busy i) vs)
    NoneFits-earlier compatible [] i j le h = tt
    NoneFits-earlier compatible (v ∷ vs) i j le (first, rest) = (
      elim (Bool-cases (idle (busy i) v && compatible v.resource)) [
        | inr miss ↦ miss
        | inl hit ↦
            let (empty, good) = idle-later compatible i j v le hit in
            let fit : fits compatible (view (busy j) v) ≡ true =
              ap (fits compatible) empty ∙ good in
            absurd (ground (arith, first, fit))
      ],
      NoneFits-earlier compatible vs i j le rest,
    )

    pub test_at-Same :
        (compatible : A → Bool) (vs : List (Version A)) (i k : ℕ)
        → Same busy i vs (test_at (busy i) compatible vs k).0
    unfolding test_at
    test_at-Same compatible vs i k j le = elim (Option-cases (get_elem? vs k)) [
      | inl e ↦ rw (e, test_at) refl
      | inr (v, e) ↦
          rw (e, test_at)
            (rw (map-set (view (busy j)) vs k (pruned (busy i) v), view-pruned_later i j v le)
              (set_same (views (busy j) vs) k (view (busy j) v)
                (rw (get_elem?-map (view (busy j)) vs k, e))))
    ]

    pub position_from-Scans :
        (compatible : A → Bool) (i : ℕ) (vs : List (Version A))
        → Scans busy compatible i vs (position_from busy i compatible vs)
    unfolding position_from
    position_from-Scans compatible i [] = record {
      same = λ j le. refl;
      missed = λ e. tt;
      hit = λ k j e. cc;
    }
    position_from-Scans compatible i (v ∷ vs) =
        let rest = position_from-Scans compatible (i + 1) vs in
        elim (Bool-cases (idle (busy i) v && compatible v.resource)) [
          | inl found ↦
              rw (found, position_from)
                (record {
                  same = λ j le.
                      ap (λ x. x ∷ views (busy j) vs) (view-pruned_later i j v (omega arith));
                  missed = λ e. absurd (ground arith);
                  hit = λ k j e le.
                      let (empty, good) = idle-later compatible i j v (omega arith) found in
                      let first : k ≡ 0 = ground arith in
                      (v.resource, rw first (ap some empty), good);
                })
          | inr passed ↦
              rw (passed, position_from)
                (record {
                  same = λ j le.
                      ap₂ ◌∷◌ (view-pruned_later i j v (omega arith)) (rest.same j (omega arith));
                  missed = λ e. elim (Option-cases (position_from busy (i + 1) compatible vs).1) [
                    | inl none_later ↦ (
                      passed,
                      NoneFits-earlier compatible vs i (i + 1) (omega arith)
                          (rest.missed none_later),
                    )
                    | inr (k, later) ↦ absurd (ground arith)
                  ];
                  hit = λ k j e le.
                      elim (Option-cases (position_from busy (i + 1) compatible vs).1) [
                        | inl none_later ↦ absurd (ground arith)
                        | inr (k', later) ↦
                            let next : k ≡ suc k' = ground arith in
                            rw next (rest.hit k' j later (omega arith))
                      ];
                })
        ]

    pub idle_at-later :
        (vs : List (Version A)) (k i j : ℕ) (a : A)
        → i ≤ j
        → get_elem? (views (busy i) vs) k ≡ some (a, [])
        → get_elem? (views (busy j) vs) k ≡ some (a, [])
    idle_at-later [] k i j a le e = cc
    idle_at-later (v ∷ vs) zero i j a le e =
        rw (retain-later i j v.readers le) at (ap (Option.map again) e)
      where
        again : View A → View A
        again (b, rs) = (b, retain (busy j) rs)
    idle_at-later (v ∷ vs) (suc k) i j a le e = idle_at-later vs k i j a le e
