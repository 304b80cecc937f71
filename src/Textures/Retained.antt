-- ===== src/Textures/Retained.antt =====
-- Which versions `retain_idle_spare` keeps, said on views: the current one, those that frames in flight
-- read, and the first compatible idle alternate.
use cocoa_way.Base.{
  ℕ, ◌+◌, ◌-◌, ltb, ◌<◌, ◌≡◌, refl, sym, ◌∙◌, ap, inl, inr, Bool, true, false, not, ◌&&◌, ◌||◌,
  Option, none, some, List, [], ◌∷◌, ◌==◌, if◌then◌else◌, arith, Bool-cases, option_eq,
}
use cocoa_way.Textures.{Version, is_empty, retain_loop}
use cocoa_way.Textures.Views.{View, view, views, fits, retain-retain}
use cocoa_way.Textures.Spare.{at_current, is_read, as_spare, dropped, round, loop_nil}

module _ {ℓ} {A : Type ℓ} (at : ℕ) where
  -- The place of the first compatible idle alternate, from place `index` on.
  unfoldable pub first_spare : (A → Bool) → ℕ → List (View A) → Option ℕ
  first_spare compatible index [] = none
  first_spare compatible index (x ∷ xs) =
      let rest = first_spare compatible (index + 1) xs in
      if not (index == at) && fits compatible x then some index else rest

  -- What is kept when `spare` is the place of the spare.
  unfoldable pub kept : Option ℕ → ℕ → List (View A) → List (View A)
  kept spare index [] = []
  kept spare index (x ∷ xs) =
      let rest = kept spare (index + 1) xs in
      if (index == at) || not (is_empty x.1) || option_eq spare (some index) then x ∷ rest else rest

  first_spare-later :
      (compatible : A → Bool) (xs : List (View A)) (index before : ℕ)
      → before < index
      → option_eq (first_spare compatible index xs) (some before) ≡ false
  unfolding first_spare
  first_spare-later compatible [] index before h = refl
  first_spare-later compatible (x ∷ xs) index before h =
      elim (Bool-cases (not (index == at) && fits compatible x)) [
        | inl here ↦ rw here (ground (arith, h))
        | inr later ↦ rw later (first_spare-later compatible xs (index + 1) before (omega arith))
      ]

  kept-past :
      (xs : List (View A)) (i index : ℕ) → i < index → kept (some i) index xs ≡ kept none index xs
  unfolding kept
  kept-past [] i index h = refl
  kept-past (x ∷ xs) i index h =
      let other : (i == index) ≡ false = ground (arith, h) in
      rw (other, kept-past xs i (index + 1) (omega arith))

  abbrev pub spare_of : (A → Bool) → Bool → ℕ → List (View A) → Option ℕ
  spare_of compatible spare index xs = if spare then none else first_spare compatible index xs

  spare_of-next :
      (compatible : A → Bool) (spare : Bool) (x : View A) (xs : List (View A)) (index : ℕ)
      → (not (index == at) && (not spare && fits compatible x)) ≡ false
      → spare_of compatible spare index (x ∷ xs) ≡ spare_of compatible spare (index + 1) xs
  unfolding first_spare
  spare_of-next compatible true x xs index e = refl
  spare_of-next compatible false x xs index e = rw e

  spare_of-later :
      (compatible : A → Bool) (spare : Bool) (xs : List (View A)) (index before : ℕ)
      → before < index
      → option_eq (spare_of compatible spare index xs) (some before) ≡ false
  spare_of-later compatible true xs index before h = refl
  spare_of-later compatible false xs index before h = first_spare-later compatible xs index before h

  kept_here :
      (spare : Option ℕ) (x : View A) (xs : List (View A)) (index : ℕ)
      → ((index == at) || not (is_empty x.1) || option_eq spare (some index)) ≡ true
      → kept spare index (x ∷ xs) ≡ x ∷ kept spare (index + 1) xs
  unfolding kept
  kept_here spare x xs index e = rw e

  kept_gone :
      (spare : Option ℕ) (x : View A) (xs : List (View A)) (index : ℕ)
      → ((index == at) || not (is_empty x.1) || option_eq spare (some index)) ≡ false
      → kept spare index (x ∷ xs) ≡ kept spare (index + 1) xs
  unfolding kept
  kept_gone spare x xs index e = rw e

  module _ (busy : ℕ → Bool) (compatible : A → Bool) where
    abbrev pub retained : ℕ → ℕ → Bool → List (Version A) → List (View A)
    retained index current spare vs =
        views busy (retain_loop busy compatible at index current spare vs).0

    -- The loop keeps this.
    pub loop-kept :
        (vs : List (Version A)) (index current : ℕ) (spare : Bool)
        → retained index current spare vs
          ≡ kept (spare_of compatible spare index (views busy vs)) index (views busy vs)
    unfolding kept first_spare
    loop-kept [] index current spare = rw (loop_nil busy compatible at index current spare)
    loop-kept (v ∷ vs) index current spare =
        elim (round busy compatible at index current spare v vs) [
          | at_current same e ↦
              rw (e, loop-kept vs (index + 1) current spare)
                (sym (next spare (ground arith) ∙ kept_here _ x xs index (ground arith)))
          | is_read ne r e ↦
              rw (e, retain-retain busy v.readers, loop-kept vs (index + 1) current spare)
                (sym (next spare (ground arith) ∙ kept_here _ x xs index (ground arith)))
          | as_spare ne r s good e ↦
              rw (e, retain-retain busy v.readers, loop-kept vs (index + 1) current true)
                (sym (
                  ap (λ o. kept o index (x ∷ xs)) (chosen spare s (ground arith))
                  ∙ (kept_here (some index) x xs index (ground arith)
                      ∙ ap (λ rest. x ∷ rest) (kept-past xs index (index + 1) (omega arith)))))
          | dropped ne r bad e ↦
              rw (e, loop-kept vs (index + 1) (if ltb index at then current - 1 else current) spare)
                (sym (
                  next spare (ground arith)
                  ∙ kept_gone _ x xs index (
                      ground (
                        arith,
                        spare_of-later compatible spare xs (index + 1) index (omega arith),
                      ))))
        ]
      where
        x : View A
        x = view busy v

        xs : List (View A)
        xs = views busy vs

        next :
            (spare : Bool)
            → (not (index == at) && (not spare && fits compatible x)) ≡ false
            → kept (spare_of compatible spare index (x ∷ xs)) index (x ∷ xs)
              ≡ kept (spare_of compatible spare (index + 1) xs) index (x ∷ xs)
        next spare e = ap (λ s. kept s index (x ∷ xs)) (spare_of-next compatible spare x xs index e)

        chosen :
            (spare : Bool)
            → spare ≡ false
            → (not (index == at) && fits compatible x) ≡ true
            → spare_of compatible spare index (x ∷ xs) ≡ some index
        chosen true e f = cc
        chosen false e f = rw f
