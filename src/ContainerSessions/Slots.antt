-- ===== src/ContainerSessions/Slots.antt =====
-- What the lines of a session say of its fields (src/container_sessions.rs, session_to_toml).
use cocoa_way.Base.{
  ℕ, ◌≡◌, refl, sym, ap, ◌∙◌, Bool, true, false, not, ◌&&◌, ◌||◌, Option, none, some, List, [], ◌∷◌,
  arith, ==_iff, text_eq,
}
use cocoa_way.ContainerSessions.{TomlValue, present}

abbrev pub keys : List (List ℕ × Option TomlValue) → List (List ℕ)
keys [] = []
keys (slot ∷ rest) = slot.0 ∷ keys rest

abbrev pub has_key : List ℕ → List (List ℕ) → Bool
has_key key [] = false
has_key key (k ∷ ks) = text_eq k key || has_key key ks

-- No key stands twice.
abbrev pub are_distinct : List (List ℕ) → Bool
are_distinct [] = true
are_distinct (k ∷ ks) = not (has_key k ks) && are_distinct ks

abbrev written : List (List ℕ × TomlValue) → List (List ℕ)
written [] = []
written (e ∷ es) = e.0 ∷ written es

written-keys :
    (key : List ℕ) (ss : List (List ℕ × Option TomlValue))
    → has_key key (keys ss) ≡ false
    → has_key key (written (present ss)) ≡ false
unfolding present
written-keys key [] h = refl
written-keys key ((k, none) ∷ ss) h = written-keys key ss (ground arith)
written-keys key ((k, some v) ∷ ss) h =
    let rest = written-keys key ss (ground arith) in
    let own : text_eq k key ≡ false = ground arith in rw (own, rest) refl

text_eq_refl : (xs : List ℕ) → text_eq xs xs ≡ true
text_eq_refl [] = refl
text_eq_refl (x ∷ xs) = let same = (==_iff x x).1 refl in rw (same, text_eq_refl xs) refl

-- A line that is written is not one of the rest, whose keys are others.
not_later :
    (key : List ℕ) (v : TomlValue) (es : List (List ℕ × TomlValue))
    (ss : List (List ℕ × Option TomlValue))
    → has_key key (keys ss) ≡ false
    → present ss ≡ (key, v) ∷ es
    → ⊥
not_later key v es ss h e =
    let free : has_key key (written (present ss)) ≡ false = written-keys key ss h in
    let there : has_key key (written (present ss)) ≡ true =
      ap (λ l. has_key key (written l)) e ∙ rw (text_eq_refl key) refl in
    absurd (ground arith)

pub present_injective :
    (ss ts : List (List ℕ × Option TomlValue))
    → keys ss ≡ keys ts
    → are_distinct (keys ss) ≡ true
    → present ss ≡ present ts
    → ss ≡ ts
unfolding present
present_injective [] [] same distinct e = refl
present_injective [] (t ∷ ts) same distinct e = cc
present_injective (s ∷ ss) [] same distinct e = cc
present_injective ((k, none) ∷ ss) ((j, none) ∷ ts) same distinct e =
    let whole : k ∷ keys ss ≡ j ∷ keys ts = same in
    let key : k ≡ j = cc in
    let rest : keys ss ≡ keys ts = cc in
    let few : are_distinct (keys ss) ≡ true = ground arith in
    let more = present_injective ss ts rest few e in cc
present_injective ((k, some v) ∷ ss) ((j, some w) ∷ ts) same distinct e =
    let whole : k ∷ keys ss ≡ j ∷ keys ts = same in
    let key : k ≡ j = cc in
    let rest : keys ss ≡ keys ts = cc in
    let few : are_distinct (keys ss) ≡ true = ground arith in
    let lines : (k, v) ∷ present ss ≡ (j, w) ∷ present ts = e in
    let first : ◌≡◌ {A = List ℕ × TomlValue} (k, v) (j, w) = cc in
    let value : v ≡ w = ap (λ p. p.1) first in
    let others : present ss ≡ present ts = cc in
    let more = present_injective ss ts rest few others in cc
present_injective ((k, none) ∷ ss) ((j, some w) ∷ ts) same distinct e =
    let whole : k ∷ keys ss ≡ j ∷ keys ts = same in
    let key : k ≡ j = cc in
    let fresh : has_key k (keys ss) ≡ false = ground arith in
    absurd (not_later k w (present ts) ss fresh (e ∙ ap (λ l. (l, w) ∷ present ts) (sym key)))
present_injective ((k, some v) ∷ ss) ((j, none) ∷ ts) same distinct e =
    let whole : k ∷ keys ss ≡ j ∷ keys ts = same in
    let key : k ≡ j = cc in
    let rest : keys ss ≡ keys ts = cc in
    let fresh : has_key k (keys ss) ≡ false = ground arith in
    let free : has_key k (keys ts) ≡ false = ap (λ l. has_key k l) (sym rest) ∙ fresh in
    absurd (not_later k v (present ss) ts free (sym e))
