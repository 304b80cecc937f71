-- ===== src/WaylandSource/Interest.antt =====
-- What the sets of clients hold (src/wayland_source.rs, set_output_interest).
use cocoa_way.Base.{
  ℕ, suc, ◌≤◌, ◌≡◌, refl, ap, inl, inr, Bool, true, ◌&&◌, List, [], ◌∷◌, length, ◌==◌, ==_iff,
  arith, Bool-cases, set_contains,
}
use cocoa_way.WaylandSource.{keep, all_in, set_eq}

pub set_contains-keep :
    (test : ℕ → Bool) (id : ℕ) (xs : List ℕ)
    → set_contains id (keep test xs) ≡ (set_contains id xs && test id)
unfolding keep
set_contains-keep test id [] = refl
set_contains-keep test id (x ∷ xs) =
    let rest = set_contains-keep test id xs in
    elim (Bool-cases (x == id)) [
      | inl here ↦ let same = ap test ((==_iff x id).0 here) in ground (arith, rest, same)
      | inr other ↦ ground (arith, rest)
    ]

pub length-keep : (test : ℕ → Bool) (xs : List ℕ) → length (keep test xs) ≤ length xs
unfolding keep
length-keep test [] = omega arith
length-keep test (x ∷ xs) =
    let rest = length-keep test xs in
    elim (Bool-cases (test x)) [
      | inl kept ↦ rw kept (omega (arith, rest))
      | inr dropped ↦ rw dropped (omega (arith, rest))
    ]

pub keep_same :
    (test : ℕ → Bool) (xs : List ℕ) → length xs ≡ length (keep test xs) → keep test xs ≡ xs
unfolding keep
keep_same test [] e = refl
keep_same test (x ∷ xs) e =
    let few = length-keep test xs in
    elim (Bool-cases (test x)) [
      | inl kept ↦
          let longer : suc (length xs) ≡ suc (length (keep test xs)) = rw kept at e in
          let rest = keep_same test xs (omega (arith, longer)) in rw (kept, rest) refl
      | inr dropped ↦
          let shorter : suc (length xs) ≡ length (keep test xs) = rw dropped at e in
          ground (arith, few, shorter)
    ]

pub all_in_sound :
    (id : ℕ) (xs ys : List ℕ)
    → all_in xs ys ≡ true
    → set_contains id xs ≡ true
    → set_contains id ys ≡ true
unfolding all_in
all_in_sound id [] ys h there = cc
all_in_sound id (x ∷ xs) ys h there =
    let rest = all_in_sound id xs ys in
    elim (Bool-cases (x == id)) [
      | inl here ↦ let same = (==_iff x id).0 here in ground (arith, same)
      | inr other ↦ ground (arith, rest)
    ]

pub set_eq_sound :
    (id : ℕ) (xs ys : List ℕ) → set_eq xs ys ≡ true → set_contains id xs ≡ set_contains id ys
unfolding set_eq
set_eq_sound id xs ys h =
    let forth = all_in_sound id xs ys in
    let back = all_in_sound id ys xs in ground (arith, forth, back)
