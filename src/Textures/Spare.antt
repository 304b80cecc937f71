-- ===== src/Textures/Spare.antt =====
-- The rounds of `retain_idle_spare`, and where it leaves the current version.
use cocoa_way.Base.{
  ℕ, suc, ◌+◌, ◌-◌, ◌≤◌, ◌<◌, ◌≡◌, ◌≢◌, refl, inl, inr, Bool, true, false, not, ◌&&◌, some, List,
  [], ◌∷◌, ltb, ◌==◌, if◌then◌else◌, arith, Bool-cases, lt→ltb, get_elem?,
}
use cocoa_way.Textures.{Version, idle, pruned, retain_loop}

module _ {ℓ} {A : Type ℓ} (busy : ℕ → Bool) (compatible : A → Bool) (at : ℕ) where
  abbrev pub loop : ℕ → ℕ → Bool → List (Version A) → List (Version A) × ℕ
  loop index current spare vs = retain_loop busy compatible at index current spare vs

  abbrev pub onto : Version A → List (Version A) × ℕ → List (Version A) × ℕ
  onto v out = (v ∷ out.0, out.1)

  -- The four ways of one round.
  pub data Round (index current : ℕ) (spare : Bool) (v : Version A) (vs : List (Version A))
      : Type ℓ where
    at_current :
        index ≡ at
        → loop index current spare (v ∷ vs) ≡ onto v (loop (index + 1) current spare vs)
        → Round index current spare v vs
    is_read :
        index ≢ at
        → idle busy v ≡ false
        → loop index current spare (v ∷ vs)
          ≡ onto (pruned busy v) (loop (index + 1) current spare vs)
        → Round index current spare v vs
    as_spare :
        index ≢ at
        → idle busy v ≡ true
        → spare ≡ false
        → compatible v.resource ≡ true
        → loop index current spare (v ∷ vs)
          ≡ onto (pruned busy v) (loop (index + 1) current true vs)
        → Round index current spare v vs
    dropped :
        index ≢ at
        → idle busy v ≡ true
        → (not spare && compatible v.resource) ≡ false
        → loop index current spare (v ∷ vs)
          ≡ loop (index + 1) (if ltb index at then current - 1 else current) spare vs
        → Round index current spare v vs

  pub round :
      (index current : ℕ) (spare : Bool) (v : Version A) (vs : List (Version A))
      → Round index current spare v vs
  unfolding retain_loop
  round index current spare v vs = elim (Bool-cases (index == at)) [
    | inl here ↦ at_current (ground arith) (kept_here spare here)
    | inr away ↦ elim (Bool-cases (idle busy v)) [
      | inr reading ↦ is_read (ground arith) reading (kept_read spare away reading)
      | inl free ↦ elim (Bool-cases (not spare && compatible v.resource)) [
        | inl good ↦
            as_spare (ground arith) free (ground arith) (ground arith)
              (kept_spare spare away free good)
        | inr bad ↦ dropped (ground arith) free bad (gone spare away free bad)
      ]
    ]
  ]
    where
      kept_here :
          (spare : Bool)
          → (index == at) ≡ true
          → loop index current spare (v ∷ vs) ≡ onto v (loop (index + 1) current spare vs)
      kept_here true e = rw (e, retain_loop)
      kept_here false e = rw (e, retain_loop)

      kept_read :
          (spare : Bool)
          → (index == at) ≡ false
          → idle busy v ≡ false
          → loop index current spare (v ∷ vs)
            ≡ onto (pruned busy v) (loop (index + 1) current spare vs)
      kept_read true e f = rw (e, f, retain_loop)
      kept_read false e f = rw (e, f, retain_loop)

      kept_spare :
          (spare : Bool)
          → (index == at) ≡ false
          → idle busy v ≡ true
          → (not spare && compatible v.resource) ≡ true
          → loop index current spare (v ∷ vs)
            ≡ onto (pruned busy v) (loop (index + 1) current true vs)
      kept_spare true e f g = cc
      kept_spare false e f g = rw (e, f, g, retain_loop)

      gone :
          (spare : Bool)
          → (index == at) ≡ false
          → idle busy v ≡ true
          → (not spare && compatible v.resource) ≡ false
          → loop index current spare (v ∷ vs)
            ≡ loop (index + 1) (if ltb index at then current - 1 else current) spare vs
      gone true e f g = rw (e, f, retain_loop)
      gone false e f g = rw (e, f, g, retain_loop)

  pub loop_nil : (index current : ℕ) (spare : Bool) → loop index current spare [] ≡ ([], current)
  unfolding retain_loop
  loop_nil index current spare = refl

  -- Past the current version the carried index stays.
  pub loop_after :
      (vs : List (Version A)) (index current : ℕ) (spare : Bool)
      → at < index
      → (loop index current spare vs).1 ≡ current
  loop_after [] index current spare h = rw (loop_nil index current spare)
  loop_after (v ∷ vs) index current spare h = elim (round index current spare v vs) [
    | at_current ne e ↦ absurd (omega arith)
    | is_read ne r e ↦ rw e (loop_after vs (index + 1) current spare (omega arith))
    | as_spare ne r s good e ↦ rw e (loop_after vs (index + 1) current true (omega arith))
    | dropped ne r bad e ↦ rw e (
        ground (
          arith,
          loop_after vs (index + 1) current spare,
          loop_after vs (index + 1) (if ltb index at then current - 1 else current) spare,
        ))
  ]

  -- Where the current version is found again; `k` versions have been kept before `index`.
  abbrev pub Found : ℕ → Version A → List (Version A) × ℕ → Type ℓ
  Found k v out = (k ≤ out.1) × (get_elem? out.0 (out.1 - k) ≡ some v)

  Found-onto :
      (k : ℕ) (v x : Version A) (out : List (Version A) × ℕ)
      → Found (k + 1) v out
      → Found k v (onto x out)
  Found-onto k v x out f =
      let e : out.1 - k ≡ suc (out.1 - (k + 1)) = omega (arith, f.0) in
      (omega (arith, f.0), rw e f.1)

  pub loop_current :
      (vs : List (Version A)) (k index current : ℕ) (spare : Bool) (v : Version A)
      → k + at ≡ index + current
      → k ≤ index
      → index ≤ at
      → get_elem? vs (at - index) ≡ some v
      → Found k v (loop index current spare vs)
  loop_current [] k index current spare v sum few before there = cc
  loop_current (x ∷ vs) k index current spare v sum few before there =
      elim (round index current spare x vs) [
        | at_current same e ↦ rw e (found_here same)
        | is_read ne r e ↦ rw e (
            Found-onto k v _ _ (
              loop_current vs (k + 1) (index + 1) current spare v (omega arith) (omega arith)
                (omega arith) (later ne)))
        | as_spare ne r s good e ↦ rw e (
            Found-onto k v _ _ (
              loop_current vs (k + 1) (index + 1) current true v (omega arith) (omega arith)
                (omega arith) (later ne)))
        | dropped ne r bad e ↦
            rw (e, lt→ltb index at (omega arith))
              (loop_current vs k (index + 1) (current - 1) spare v (omega arith) (omega arith)
                (omega arith) (later ne))
      ]
    where
      later : index ≢ at → get_elem? vs (at - (index + 1)) ≡ some v
      later ne = let e : at - index ≡ suc (at - (index + 1)) = omega arith in rw e at there

      found_here : index ≡ at → Found k v (onto x (loop (index + 1) current spare vs))
      found_here same =
          let last = loop_after vs (index + 1) current spare (omega arith) in
          let zero_at : at - index ≡ 0 = omega arith in
          let zero_last : current - k ≡ 0 = omega arith in
          (omega (arith, last), rw (last, zero_last) (rw zero_at at there))
