-- ===== src/Base/Sets.antt =====
-- `BTreeSet<u32>`: the elements in strictly ascending order.
use Prim.Native.Nat.{ℕ, suc, ◌+◌, ◌≤◌, ◌<◌}
use mathlib.Core.Path.{◌≡◌, refl}
use mathlib.Core.Bool.{Bool, true, false, ◌||◌}
use mathlib.Core.List.{List, [], ◌∷◌}
use mathlib.Core.Logic.{inl, inr}
use native.Mathlib.Omega.{arith}
use cocoa_way.Base.Tests.{ltb, ◌==◌, if◌then◌else◌, nat_of, ltb→lt, Bool-cases}
use cocoa_way.Base.Lists.{count}

abbrev pub set_contains : ℕ → List ℕ → Bool
set_contains k [] = false
set_contains k (x ∷ xs) = (x == k) || set_contains k xs

abbrev pub set_insert : ℕ → List ℕ → List ℕ
set_insert k [] = k ∷ []
set_insert k (x ∷ xs) =
    let rest = set_insert k xs in
    if ltb k x then k ∷ x ∷ xs else if x == k then x ∷ xs else x ∷ rest

abbrev pub set_remove : ℕ → List ℕ → List ℕ
set_remove k [] = []
set_remove k (x ∷ xs) = let rest = set_remove k xs in if x == k then xs else x ∷ rest

-- Strictly ascending, all elements at `a` or above.
abbrev pub AscendsFrom : ℕ → List ℕ → Type 0
AscendsFrom a [] = Unit
AscendsFrom a (x ∷ xs) = (a ≤ x) × AscendsFrom (suc x) xs

pub AscendsFrom-le : (a b : ℕ) (xs : List ℕ) → a ≤ b → AscendsFrom b xs → AscendsFrom a xs
AscendsFrom-le a b [] le s = tt
AscendsFrom-le a b (x ∷ xs) le (h, s) = (omega arith, s)

pub count-below : (a k : ℕ) (xs : List ℕ) → AscendsFrom a xs → k < a → count k xs ≡ 0
count-below a k [] s h = refl
count-below a k (x ∷ xs) (le, s) h = ground (arith, count-below (suc x) k xs s (omega arith))

-- An element stands once in a set that contains it.
pub count-set : (a k : ℕ) (xs : List ℕ) → AscendsFrom a xs → count k xs ≡ nat_of (set_contains k xs)
count-set a k [] s = refl
count-set a k (x ∷ xs) (le, s) =
    ground (arith, count-set (suc x) k xs s, count-below (suc x) k xs s)

pub AscendsFrom-set_insert :
    (a k : ℕ) (xs : List ℕ) → a ≤ k → AscendsFrom a xs → AscendsFrom a (set_insert k xs)
AscendsFrom-set_insert a k [] le s = (le, tt)
AscendsFrom-set_insert a k (x ∷ xs) le (h, s) = elim (Bool-cases (ltb k x)) [
  | inl before ↦ rw before (le, (ltb→lt k x before, s))
  | inr after ↦ elim (Bool-cases (x == k)) [
    | inl same ↦ rw (after, same) (h, s)
    | inr other ↦
        let later : suc x ≤ k = ground arith in
        rw (after, other) (h, AscendsFrom-set_insert (suc x) k xs later s)
  ]
]

pub AscendsFrom-set_remove :
    (a k : ℕ) (xs : List ℕ) → AscendsFrom a xs → AscendsFrom a (set_remove k xs)
AscendsFrom-set_remove a k [] s = tt
AscendsFrom-set_remove a k (x ∷ xs) (h, s) = elim (Bool-cases (x == k)) [
  | inl same ↦ rw same (AscendsFrom-le a (suc x) xs (omega arith) s)
  | inr other ↦ rw other (h, AscendsFrom-set_remove (suc x) k xs s)
]

pub count-set_insert :
    (j k : ℕ) (xs : List ℕ)
    → set_contains k xs ≡ false
    → count j (set_insert k xs) ≡ nat_of (k == j) + count j xs
count-set_insert j k [] h = refl
count-set_insert j k (x ∷ xs) h = ground (arith, count-set_insert j k xs)

pub count-set_remove :
    (j k : ℕ) (xs : List ℕ)
    → set_contains k xs ≡ true
    → nat_of (k == j) + count j (set_remove k xs) ≡ count j xs
count-set_remove j k [] h = cc
count-set_remove j k (x ∷ xs) h = ground (arith, count-set_remove j k xs)

set_contains-ge : (a k : ℕ) (xs : List ℕ) → AscendsFrom a xs → set_contains k xs ≡ true → a ≤ k
set_contains-ge a k [] s h = cc
set_contains-ge a k (x ∷ xs) (le, s) h = ground (arith, set_contains-ge (suc x) k xs s)

pub set_insert_same :
    (a k : ℕ) (xs : List ℕ) → AscendsFrom a xs → set_contains k xs ≡ true → set_insert k xs ≡ xs
set_insert_same a k [] s h = cc
set_insert_same a k (x ∷ xs) (le, s) h = elim (Bool-cases (x == k)) [
  | inl same ↦ let after : ltb k x ≡ false = ground arith in rw (after, same)
  | inr other ↦
      let there : set_contains k xs ≡ true = rw other at h in
      let past = set_contains-ge (suc x) k xs s there in
      let after : ltb k x ≡ false = ground arith in
      rw (after, other, set_insert_same (suc x) k xs s there)
]

pub set_remove_same : (k : ℕ) (xs : List ℕ) → set_contains k xs ≡ false → set_remove k xs ≡ xs
set_remove_same k [] h = refl
set_remove_same k (x ∷ xs) h = elim (Bool-cases (x == k)) [
  | inl same ↦ cc
  | inr other ↦ rw (other, set_remove_same k xs (rw other at h))
]
