-- ===== src/ProfileIdentity/Text.antt =====
-- Identities and their text (src/profile_identity.rs).
use cocoa_way.Base.{
  ℕ, zero, suc, ◌*◌, ◌/◌, ◌%◌, ◌<◌, ◌≡◌, ◌↔◌, refl, ap, ◌∙◌, sym, subst, inl, inr, Bool, true,
  false, ◌&&◌, List, [], ◌∷◌, length, ◌==◌, ok, ◌>>=◌, arith, All, Bool-cases, >>=-ok, ==_iff,
}
use cocoa_way.ProfileIdentity.{
  ProfileId, is_saved, hex_digit, display_bytes, display, is_hex, all_hex, to_digit, from_str_radix,
  parse_bytes, checked_id, from_str,
}

-- Sixteen bytes.
pub IsId : ProfileId → Type 0
IsId id = (length id.bytes ≡ 16) × All (λ b. b < 256) id.bytes

is_hex-hex_digit : (d : ℕ) → d < 16 → is_hex (hex_digit d) ≡ true
unfolding is_hex hex_digit
is_hex-hex_digit d h = ground arith

to_digit-hex_digit : (d : ℕ) → d < 16 → to_digit (hex_digit d) ≡ ok d
unfolding to_digit hex_digit
to_digit-hex_digit d h = ground arith

hex_digit-ne-plus : (d : ℕ) → d < 16 → (hex_digit d == b'+') ≡ false
unfolding hex_digit
hex_digit-ne-plus d h = ground arith

from_str_radix-hex_digit :
    (b : ℕ) → b < 256 → from_str_radix (hex_digit (b / 16)) (hex_digit (b % 16)) ≡ ok b
unfolding from_str_radix
from_str_radix-hex_digit b h =
    let high : b / 16 < 16 = omega arith in
    let low : b % 16 < 16 = omega arith in
    rw
      (
        hex_digit-ne-plus (b / 16) high,
        to_digit-hex_digit (b / 16) high,
        to_digit-hex_digit (b % 16) low,
      )
      (ap ok (omega arith))

length-display_bytes : (bytes : List ℕ) → length (display_bytes bytes) ≡ length bytes * 2
unfolding display_bytes
length-display_bytes [] = refl
length-display_bytes (b ∷ bs) = omega (arith, length-display_bytes bs)

all_hex-display_bytes :
    (bytes : List ℕ) → All (λ b. b < 256) bytes → all_hex (display_bytes bytes) ≡ true
unfolding display_bytes all_hex
all_hex-display_bytes [] h = refl
all_hex-display_bytes (b ∷ bs) h =
    let own = h.0 in
    let high : b / 16 < 16 = omega (arith, own) in
    let low : b % 16 < 16 = omega arith in
    rw (is_hex-hex_digit (b / 16) high, is_hex-hex_digit (b % 16) low, all_hex-display_bytes bs h.1)

parse_bytes-display_bytes :
    (bytes : List ℕ) → All (λ b. b < 256) bytes → parse_bytes (display_bytes bytes) ≡ ok bytes
unfolding display_bytes parse_bytes
parse_bytes-display_bytes [] h = refl
parse_bytes-display_bytes (b ∷ bs) h =
    rw (from_str_radix-hex_digit b h.0, parse_bytes-display_bytes bs h.1)

-- What a pair of digits parses to, and its text.
from_str_radix-digits :
    (a b v : ℕ)
    → is_hex a ≡ true
    → is_hex b ≡ true
    → from_str_radix a b ≡ ok v
    → (v < 256) × (hex_digit (v / 16) ≡ a) × (hex_digit (v % 16) ≡ b)
unfolding from_str_radix to_digit is_hex hex_digit
from_str_radix-digits a b v ha hb e = ground arith

and-true : (a b : Bool) → (a && b) ≡ true → (a ≡ true) × (b ≡ true)
and-true true b e = (refl, e)
and-true false b e = cc

parse_bytes-ok :
    (text : List ℕ) (n : ℕ) (bytes : List ℕ)
    → length text ≡ n * 2
    → all_hex text ≡ true
    → parse_bytes text ≡ ok bytes
    → (length bytes ≡ n) × All (λ b. b < 256) bytes × (text ≡ display_bytes bytes)
unfolding all_hex parse_bytes display_bytes
parse_bytes-ok [] n bytes len hex e =
    let none_left : [] ≡ bytes = cc in
    subst (λ bs. (length bs ≡ n) × All (λ b. b < 256) bs × ([] ≡ display_bytes bs)) none_left
      (omega arith, tt, refl)
parse_bytes-ok (a ∷ []) n bytes len hex e = absurd (omega arith)
parse_bytes-ok (a ∷ b ∷ text) zero bytes len hex e = absurd (omega arith)
parse_bytes-ok (a ∷ b ∷ text) (suc n) bytes len hex e =
    let (byte, first, e1) =
      >>=-ok (from_str_radix a b) (λ byte. parse_bytes text >>= λ bytes. ok (byte ∷ bytes)) e in
    let (rest, later, e2) = >>=-ok (parse_bytes text) (λ bytes. ok (byte ∷ bytes)) e1 in
    let (hex_a, hex_rest) = and-true (is_hex a) (is_hex b && all_hex text) hex in
    let (hex_b, hex_text) = and-true (is_hex b) (all_hex text) hex_rest in
    let (small, high, low) = from_str_radix-digits a b byte hex_a hex_b first in
    let (count, bounded, same) = parse_bytes-ok text n rest (omega arith) hex_text later in
    let whole : byte ∷ rest ≡ bytes = cc in
    subst (λ bs. (length bs ≡ suc n) × All (λ b. b < 256) bs × (a ∷ b ∷ text ≡ display_bytes bs))
      whole (omega arith, (small, bounded), cc)

checked_id-ok :
    (bytes : List ℕ) (id : ProfileId)
    → checked_id bytes ≡ ok id
    → (id.bytes ≡ bytes) × (is_saved id ≡ true)
unfolding checked_id
checked_id-ok bytes id e = elim (Bool-cases (is_saved (record { bytes = bytes }))) [
  | inl saved ↦ ground (arith, saved)
  | inr draft ↦ ground (arith, draft)
]

from_str-ok :
    (text : List ℕ) (id : ProfileId)
    → from_str text ≡ ok id
    → (length text ≡ 32) × (all_hex text ≡ true) × ((parse_bytes text >>= checked_id) ≡ ok id)
unfolding from_str
from_str-ok text id e = elim (Bool-cases (length text == 32)) [
  | inl long ↦ elim (Bool-cases (all_hex text)) [
    | inl hex ↦ ((==_iff (length text) 32).0 long, hex, ground (arith, long, hex, e))
    | inr other ↦ ground (arith, long, other, e)
  ]
  | inr short ↦ ground (arith, short, e)
]

reads :
    (text : List ℕ) (id : ProfileId)
    → from_str text ≡ ok id
    → IsId id × (is_saved id ≡ true) × (text ≡ display id)
unfolding IsId display
reads text id e =
    let (long, hex, chain) = from_str-ok text id e in
    let (bytes, parsed, checked) = >>=-ok (parse_bytes text) checked_id chain in
    let (count, bounded, same) = parse_bytes-ok text 16 bytes (omega arith) hex parsed in
    let (own, saved) = checked_id-ok bytes id checked in
    let long_id = ap (λ (bs : List ℕ). length bs) own ∙ count in
    ((long_id, subst (λ bs. All (λ b. b < 256) bs) (sym own) bounded), saved, cc)

reads_back : (id : ProfileId) → IsId id → is_saved id ≡ true → from_str (display id) ≡ ok id
unfolding IsId display from_str checked_id
reads_back id (count, bounded) saved =
    let long : (length (display_bytes id.bytes) == 32) ≡ true =
      (==_iff _ 32).1 (omega (arith, length-display_bytes id.bytes)) in
    rw (
      long,
      all_hex-display_bytes id.bytes bounded,
      parse_bytes-display_bytes id.bytes bounded,
      saved,
    )

-- A text is read as an identity exactly when the identity has sixteen bytes, is not the one of unsaved
-- drafts, and prints as the text.
pub from_str-display :
    (text : List ℕ) (id : ProfileId)
    → (from_str text ≡ ok id) ↔ (IsId id × (is_saved id ≡ true) × (text ≡ display id))
from_str-display text id = (
  reads text id,
  λ (whole, saved, same). subst (λ t. from_str t ≡ ok id) (sym same) (reads_back id whole saved),
)
