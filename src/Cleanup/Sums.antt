-- ===== src/Cleanup/Sums.antt =====
-- Sums over the lists of the queue: what a step moves keeps its sum.
use cocoa_way.Base.{
  ℕ, zero, suc, ◌+◌, ◌≡◌, refl, ap, ◌∙◌, inl, inr, Option, none, some, List, [], ◌∷◌, leb, arith,
  Bool-cases, Option-cases, length, get_elem?, set, sum,
}
use cocoa_way.Cleanup.{
  Key, Entry, Disposing, is_sent, take_ready, kept_disposing, acknowledged, below_first, last_first,
}

module _ {ℓ} {A : Type ℓ} (w : A → ℕ) where
  sum-below_first : (x : A) (xs : List A) → sum w (below_first x xs) ≡ w x + sum w xs
  sum-below_first x [] = refl
  sum-below_first x (z ∷ zs) = omega arith

  pub sum-last_first : (xs : List A) → sum w (last_first xs) ≡ sum w xs
  sum-last_first [] = refl
  sum-last_first (x ∷ xs) =
      let rest = sum-last_first xs in
      let moved = sum-below_first x (last_first xs) in omega (arith, rest, moved)

  pub sum-set :
      (xs : List A) (i : ℕ) (x y : A)
      → get_elem? xs i ≡ some x
      → w y ≡ w x
      → sum w (set xs i y) ≡ sum w xs
  sum-set [] i x y e same = cc
  sum-set (z ∷ xs) zero x y e same = let here : z ≡ x = cc in omega (arith, same, ap w here)
  sum-set (z ∷ xs) (suc i) x y e same = let later = sum-set xs i x y e same in omega (arith, later)

module _ {ℓ} {A : Type ℓ} where
  length-below_first : (x : A) (xs : List A) → length (below_first x xs) ≡ suc (length xs)
  length-below_first x [] = refl
  length-below_first x (z ∷ zs) = refl

  pub length-last_first : (xs : List A) → length (last_first xs) ≡ length xs
  length-last_first [] = refl
  length-last_first (x ∷ xs) = length-below_first x (last_first xs) ∙ ap suc (length-last_first xs)

-- The entry that is taken, with the others, is what was pending.
pub sum-take_ready :
    (w : Entry → ℕ) (now : ℕ) (es rest : List Entry) (e : Entry)
    → take_ready now es ≡ some (e, rest)
    → sum w es ≡ w e + sum w rest
unfolding take_ready
sum-take_ready w now [] rest e found = cc
sum-take_ready w now (x ∷ es) rest e found = elim (Bool-cases (leb x.ready_at now)) [
  | inl ready ↦ ap taken (simp ready at found)
  | inr waits ↦ elim (Option-cases (take_ready now es)) [
    | inl none_found ↦ cc (simp (waits, none_found) at found)
    | inr ((f, others), there) ↦
        let same = ap taken (simp (waits, there) at found) in
        let later = sum-take_ready w now es others f there in omega (arith, same, later)
  ]
]
  where
    taken : Option (Entry × List Entry) → ℕ
    taken none = 0
    taken (some (f, others)) = w f + sum w others

-- Disposals that are kept and those that are acknowledged.
pub sum-disposing :
    (w : Key → ℕ) (ds : List Disposing)
    → sum w (acknowledged ds) + sum (λ (d : Disposing). w d.key) (kept_disposing ds)
      ≡ sum (λ (d : Disposing). w d.key) ds
unfolding acknowledged kept_disposing
sum-disposing w [] = refl
sum-disposing w (d ∷ ds) =
    let later = sum-disposing w ds in
    elim (Bool-cases (is_sent d.receiver)) [
      | inl gone ↦ simp gone (omega (arith, later))
      | inr stays ↦ simp stays (omega (arith, later))
    ]
