-- ===== src/ProcessOutput/Split.antt =====
-- The bytes of a reader and their lines, with what is kept of a line (src/process_output.rs).
use cocoa_way.Base.{
  ℕ, zero, suc, ◌+◌, ◌-◌, ◌≤◌, ◌<◌, ◌≡◌, refl, sym, ap, subst, ◌∙◌, inl, inr, min, not, ◌||◌,
  Option, none, some, List, [], ◌∷◌, ◌++◌, map, if◌then◌else◌, length, ltb, ◌==◌, arith, Bool-cases,
  Option-cases, length-append,
}
use mathlib.Core.List.{append_assoc, append-nil}
use cocoa_way.ProcessOutput.{Fill, chunk, interrupted, read_error, position, take, drop, newline}

-- What a reader gives: its bytes, with `none` for an error.
unfoldable pub content : List Fill → List (Option ℕ)
content [] = []
content (chunk bs ∷ fills) = map some bs ++ content fills
content (interrupted ∷ fills) = content fills
content (read_error ∷ fills) = none ∷ content fills

-- No chunk is empty: `fill_buf` gives an empty slice at the end only.
unfoldable pub IsReader : List Fill → Type 0
IsReader [] = Unit
IsReader (chunk [] ∷ fills) = ⊥
IsReader (chunk (b ∷ bs) ∷ fills) = IsReader fills
IsReader (interrupted ∷ fills) = IsReader fills
IsReader (read_error ∷ fills) = IsReader fills

-- The lines of the bytes, the first of them begun by `cur`: an error drops the line that it falls in.
unfoldable pub split_from : List ℕ → List (Option ℕ) → List (Option (List ℕ))
split_from [] [] = []
split_from (c ∷ cs) [] = some (c ∷ cs) ∷ []
split_from cur (none ∷ bytes) = none ∷ split_from [] bytes
split_from cur (some b ∷ bytes) =
    if b == newline then some cur ∷ split_from [] bytes else split_from (cur ++ b ∷ []) bytes

pub split_none :
    (bs cur : List ℕ) (rest : List (Option ℕ))
    → position bs ≡ none
    → split_from cur (map some bs ++ rest) ≡ split_from (cur ++ bs) rest
unfolding split_from position
split_none [] cur rest e = rw (append-nil cur)
split_none (b ∷ bs) cur rest e = elim (Bool-cases (b == newline)) [
  | inl ends ↦ ground (arith, ends, e)
  | inr other ↦
      let later : position bs ≡ none = ground (arith, other, e) in
      rw other (
        split_none bs (cur ++ b ∷ []) rest later
        ∙ ap (λ xs. split_from xs rest) (append_assoc cur (b ∷ []) bs))
]

pub split_some :
    (bs cur : List ℕ) (rest : List (Option ℕ)) (i : ℕ)
    → position bs ≡ some i
    → (i < length bs)
      × (split_from cur (map some bs ++ rest)
          ≡ some (cur ++ take i bs) ∷ split_from [] (map some (drop (suc i) bs) ++ rest))
unfolding split_from position
split_some [] cur rest i e = cc
split_some (b ∷ bs) cur rest i e = elim (Bool-cases (b == newline)) [
  | inl ends ↦
      let here : 0 ≡ i = ground (arith, ends, e) in
      subst
        (λ j.
          (j < suc (length bs))
          × (split_from cur (map some (b ∷ bs) ++ rest)
              ≡ some (cur ++ take j (b ∷ bs))
                ∷ split_from [] (map some (drop (suc j) (b ∷ bs)) ++ rest)))
        here (omega arith, rw (ends, append-nil cur))
  | inr other ↦ elim (Option-cases (position bs)) [
    | inl nothing ↦ ground (arith, other, nothing, e)
    | inr (j, found) ↦
        let here : suc j ≡ i = ground (arith, other, found, e) in
        let (within, whole) = split_some bs (cur ++ b ∷ []) rest j found in
        subst
          (λ k.
            (k < suc (length bs))
            × (split_from cur (map some (b ∷ bs) ++ rest)
                ≡ some (cur ++ take k (b ∷ bs)) ∷ split_from [] (map some (drop k bs) ++ rest)))
          here
          (
            omega arith,
            rw other (
                whole
                ∙ ap (λ xs. some xs ∷ split_from [] (map some (drop (suc j) bs) ++ rest))
                    (append_assoc cur (b ∷ []) (take j bs))),
          )
  ]
]

length-take : (m : ℕ) (xs : List ℕ) → length (take m xs) ≡ min m (length xs)
length-take zero xs = omega arith
length-take (suc m) [] = omega arith
length-take (suc m) (x ∷ xs) = omega (arith, length-take m xs)

pub take-nil : (k : ℕ) → take {A = ℕ} k [] ≡ []
take-nil zero = refl
take-nil (suc k) = refl

take_copied : (i k : ℕ) (xs : List ℕ) → i ≤ length xs → take (min i k) xs ≡ take k (take i xs)
take_copied zero k xs h = let least : min 0 k ≡ 0 = omega arith in rw least (sym (take-nil k))
take_copied (suc i) k [] h = absurd (omega arith)
take_copied (suc i) zero (x ∷ xs) h = let least : min (suc i) 0 ≡ 0 = omega arith in rw least
take_copied (suc i) (suc k) (x ∷ xs) h =
    let least : min (suc i) (suc k) ≡ suc (min i k) = omega arith in
    rw least (ap (λ rest. x ∷ rest) (take_copied i k xs (omega arith)))

pub take_all : (xs : List ℕ) → take (length xs) xs ≡ xs
take_all [] = refl
take_all (x ∷ xs) = ap (λ rest. x ∷ rest) (take_all xs)

take-append :
    (m : ℕ) (cur xs : List ℕ) → take m cur ++ take (m - length (take m cur)) xs ≡ take m (cur ++ xs)
take-append zero cur xs = refl
take-append (suc m) [] xs = let room : suc m - 0 ≡ suc m = omega arith in rw room
take-append (suc m) (c ∷ cur) xs =
    let room : suc m - suc (length (take m cur)) ≡ m - length (take m cur) = omega arith in
    rw room (ap (λ rest. c ∷ rest) (take-append m cur xs))

-- What is kept of a line of which `i` more bytes of a chunk are read, and whether some are left out.
pub kept_more :
    (m i : ℕ) (cur xs : List ℕ)
    → i ≤ length xs
    → take m cur ++ take (min i (m - length (take m cur))) xs ≡ take m (cur ++ take i xs)
kept_more m i cur xs h =
    rw (take_copied i (m - length (take m cur)) xs h) (take-append m cur (take i xs))

pub cut_more :
    (m i : ℕ) (cur xs : List ℕ)
    → i ≤ length xs
    → (ltb m (length cur) || not (min i (m - length (take m cur)) == i))
      ≡ ltb m (length (cur ++ take i xs))
cut_more m i cur xs h =
    rw (length-append cur (take i xs), length-take i xs, length-take m cur) (ground arith)

pub length-map-some :
    (bs : List ℕ) (rest : List (Option ℕ)) → length (map some bs ++ rest) ≡ length bs + length rest
length-map-some [] rest = omega arith
length-map-some (b ∷ bs) rest = omega (arith, length-map-some bs rest)
