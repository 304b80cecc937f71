-- ===== src/Textures/Prune.antt =====
-- What `retain_idle_spare` leaves: the current version, every version that is read, and one idle spare
-- at most.
use cocoa_way.Base.{
  ℕ, suc, ◌+◌, ◌-◌, ◌≤◌, ◌<◌, ◌≡◌, ◌≢◌, refl, ap, inl, inr, Bool, true, false, not, some, List, [],
  ◌∷◌, ltb, leb, if◌then◌else◌, arith, Bool-cases, le→leb, dec_lt, length, get_elem?, nat_of,
}
use cocoa_way.Textures.{Version, Versions, is_empty, idle, retain_loop, retain_idle_spare}
use cocoa_way.Textures.Views.{View, view, views, fits, fits_at, get_elem?-map, retain-retain}
use cocoa_way.Textures.Target.{anything}
use cocoa_way.Textures.Retained.{first_spare, kept, loop-kept}
use cocoa_way.Textures.Spare.{
  at_current, is_read, as_spare, dropped, round, loop, loop_nil, loop_current,
}

-- The versions that frames in flight read, and how many are idle.
module _ {ℓ} {A : Type ℓ} where
  abbrev pub reading : List (View A) → List (View A)
  reading [] = []
  reading (x ∷ xs) = let rest = reading xs in if is_empty x.1 then rest else x ∷ rest

  abbrev pub idles : List (View A) → ℕ
  idles [] = 0
  idles (x ∷ xs) = nat_of (is_empty x.1) + idles xs

  reading_idle :
      (x : View A) (xs : List (View A)) → is_empty x.1 ≡ true → reading (x ∷ xs) ≡ reading xs
  reading_idle x xs e = rw e

module _ {ℓ} {A : Type ℓ} (busy : ℕ → Bool) (compatible : A → Bool) (at : ℕ) where
  abbrev left : ℕ → ℕ → Bool → List (Version A) → List (View A)
  left index current spare vs = views busy (retain_loop busy compatible at index current spare vs).0

  loop_reading :
      (vs : List (Version A)) (index current : ℕ) (spare : Bool)
      → reading (left index current spare vs) ≡ reading (views busy vs)
  loop_reading [] index current spare = rw (loop_nil busy compatible at index current spare)
  loop_reading (v ∷ vs) index current spare =
      elim (round busy compatible at index current spare v vs) [
        | at_current same e ↦ rw (e, loop_reading vs (index + 1) current spare)
        | is_read ne r e ↦
            rw (e, retain-retain busy v.readers, loop_reading vs (index + 1) current spare)
        | as_spare ne r s good e ↦
            rw (e, retain-retain busy v.readers, loop_reading vs (index + 1) current true)
        | dropped ne r bad e ↦
            rw (e, reading_idle (view busy v) (views busy vs) r)
              (loop_reading vs (index + 1) _ spare)
      ]

  length-loop-le :
      (vs : List (Version A)) (index current : ℕ) (spare : Bool)
      → length (loop busy compatible at index current spare vs).0 ≤ length vs
  length-loop-le [] index current spare = omega (
    arith,
    ap (λ (o : List (Version A) × ℕ). length o.0) (loop_nil busy compatible at index current spare),
  )
  length-loop-le (v ∷ vs) index current spare =
      elim (round busy compatible at index current spare v vs) [
        | at_current same e ↦ rw e (omega (arith, length-loop-le vs (index + 1) current spare))
        | is_read ne r e ↦ rw e (omega (arith, length-loop-le vs (index + 1) current spare))
        | as_spare ne r s good e ↦ rw e (omega (arith, length-loop-le vs (index + 1) current true))
        | dropped ne r bad e ↦
            let current' = if ltb index at then current - 1 else current in
            rw e (omega (arith, length-loop-le vs (index + 1) current' spare))
      ]

  -- One for the current version, if it is idle and still to come.
  current_idle : ℕ → List (Version A) → ℕ
  current_idle index vs =
      if leb index at then nat_of (fits_at anything (views busy vs) (at - index)) else 0

  current_idle_next :
      (index : ℕ) (v : Version A) (vs : List (Version A))
      → index ≢ at
      → current_idle index (v ∷ vs) ≡ current_idle (index + 1) vs
  unfolding fits_at current_idle
  current_idle_next index v vs ne = elim (dec_lt index at) [
    | yes h ↦
        let e : at - index ≡ suc (at - (index + 1)) = omega arith in
        rw (le→leb index at (omega arith), le→leb (index + 1) at (omega arith), e)
    | no h ↦ ground arith
  ]

  current_idle_here :
      (index : ℕ) (v : Version A) (vs : List (Version A))
      → index ≡ at
      → current_idle index (v ∷ vs) ≡ nat_of (idle busy v)
  unfolding fits_at current_idle
  current_idle_here index v vs same =
      let e : at - index ≡ 0 = omega arith in
      rw (le→leb index at (omega arith), e)
        (elim (Bool-cases (idle busy v)) [ inl free ↦ rw free | inr taken ↦ rw taken ])

  current_idle_past : (index : ℕ) (vs : List (Version A)) → at < index → current_idle index vs ≡ 0
  unfolding current_idle
  current_idle_past index vs past = ground arith

  idles-loop :
      (vs : List (Version A)) (index current : ℕ) (spare : Bool)
      → idles (left index current spare vs) ≤ nat_of (not spare) + current_idle index vs
  idles-loop [] index current spare =
      rw (loop_nil busy compatible at index current spare) (omega arith)
  idles-loop (v ∷ vs) index current spare =
      elim (round busy compatible at index current spare v vs) [
        | at_current same e ↦
            rw (e, current_idle_here index v vs same)
              (omega (
                arith,
                idles-loop vs (index + 1) current spare,
                current_idle_past (index + 1) vs (omega arith),
              ))
        | is_read ne r e ↦
            rw (e, retain-retain busy v.readers, r, current_idle_next index v vs ne)
              (omega (arith, idles-loop vs (index + 1) current spare))
        | as_spare ne r s good e ↦
            rw (e, retain-retain busy v.readers, r, s, current_idle_next index v vs ne)
              (omega (arith, idles-loop vs (index + 1) current true))
        | dropped ne r bad e ↦
            rw (e, current_idle_next index v vs ne) (idles-loop vs (index + 1) _ spare)
      ]

module _ {ℓ} {A : Type ℓ} (busy : ℕ → Bool) (t : Versions A) (compatible : A → Bool)
    (v : Version A) where
  -- Kept, in their order, are the current version, the versions that frames in flight read, and the
  -- first compatible version that is idle and not the current one. So the current version is the same
  -- one, the versions that are read are the same, at most one version is idle beside the current one,
  -- and the number of dropped versions is returned.
  pub retain_idle_spare_lem :
      get_elem? t.versions t.current ≡ some v
      → let (t', n) = retain_idle_spare busy t compatible in
        (get_elem? t'.versions t'.current ≡ some v)
        × (reading (views busy t'.versions) ≡ reading (views busy t.versions))
        × (idles (views busy t'.versions) ≤ 1 + nat_of (idle busy v))
        × (n + length t'.versions ≡ length t.versions)
        × (views busy t'.versions
            ≡ kept t.current
                (first_spare t.current compatible 0 (views busy t.versions))
                0
                (views busy t.versions))
  unfolding retain_idle_spare current_idle fits_at
  retain_idle_spare_lem there =
      let minus : (n : ℕ) → n - 0 ≡ n = λ n. omega arith in
      let (k, found) =
        loop_current busy compatible t.current t.versions 0 0 t.current false v refl (omega arith)
          (omega arith) (rw (minus t.current) there) in
      let there' : get_elem? (views busy t.versions) t.current ≡ some (view busy v) =
        rw (get_elem?-map (view busy) t.versions t.current, there) in
      let one : current_idle busy compatible t.current 0 t.versions ≡ nat_of (idle busy v) =
        rw (le→leb 0 t.current (omega arith), minus t.current, there', fits_at) (is_idle v) in
      (
        rw (minus _) at found,
        loop_reading busy compatible t.current t.versions 0 t.current false,
        rw one at (idles-loop busy compatible t.current t.versions 0 t.current false),
        omega (arith, length-loop-le busy compatible t.current t.versions 0 t.current false),
        loop-kept t.current busy compatible t.versions 0 t.current false,
      )
    where
      is_idle : (v : Version A) → nat_of (fits anything (view busy v)) ≡ nat_of (idle busy v)
      is_idle v = elim (Bool-cases (idle busy v)) [ inl free ↦ rw free | inr taken ↦ rw taken ]
