-- ===== src/Base/Texts.antt =====
-- Texts as lists of code points (or of bytes), and what the standard library does with them.
use Prim.Native.Nat.{ℕ}
use Prim.Native.Char.{code}
use Prim.Native.String.{String}
use mathlib.Core.Path.{◌≡◌, refl}
use mathlib.Core.Bool.{Bool, true, false, ◌&&◌, ◌||◌}
use mathlib.Core.Option.{Option, none, some}
use mathlib.Core.List.{List, [], ◌∷◌, reverse}
use native.Mathlib.Omega.{arith}
use cocoa_way.Base.Tests.{◌==◌, leb, if◌then◌else◌}

abbrev pub codes : String → List ℕ
codes String.[] = []
codes (String.◌∷◌ c s) = code c ∷ codes s

abbrev pub text_eq : List ℕ → List ℕ → Bool
text_eq [] [] = true
text_eq (a ∷ xs) (b ∷ ys) = a == b && text_eq xs ys
text_eq _ _ = false

pub text_eq_sound : (xs ys : List ℕ) → text_eq xs ys ≡ true → xs ≡ ys
text_eq_sound [] [] e = refl
text_eq_sound [] (b ∷ ys) e = cc
text_eq_sound (a ∷ xs) [] e = cc
text_eq_sound (a ∷ xs) (b ∷ ys) e = ground (arith, text_eq_sound xs ys)

-- `str::strip_prefix`.
unfoldable pub strip_prefix : List ℕ → List ℕ → Option (List ℕ)
strip_prefix [] text = some text
strip_prefix (p ∷ ps) [] = none
strip_prefix (p ∷ ps) (c ∷ text) = if p == c then strip_prefix ps text else none

abbrev pub is_prefix : List ℕ → List ℕ → Bool
is_prefix [] text = true
is_prefix (p ∷ ps) [] = false
is_prefix (p ∷ ps) (c ∷ text) = p == c && is_prefix ps text

-- `str::contains`.
unfoldable pub contains : List ℕ → List ℕ → Bool
contains [] part = is_prefix part []
contains (c ∷ text) part = is_prefix part (c ∷ text) || contains text part

-- `char::is_whitespace`.
unfoldable pub is_whitespace : ℕ → Bool
is_whitespace c =
    (leb 9 c && leb c 13)
    || (c == 0x20)
    || (c == 0x85)
    || (c == 0xa0)
    || (c == 0x1680)
    || (leb 0x2000 c && leb c 0x200a)
    || (c == 0x2028)
    || (c == 0x2029)
    || (c == 0x202f)
    || (c == 0x205f)
    || (c == 0x3000)

-- `char::is_control`.
unfoldable pub is_control : ℕ → Bool
is_control c = leb c 0x1f || (leb 0x7f c && leb c 0x9f)

unfoldable pub drop_while : (ℕ → Bool) → List ℕ → List ℕ
drop_while test [] = []
drop_while test (c ∷ text) = let rest = drop_while test text in if test c then rest else c ∷ text

-- `str::trim_matches`.
unfoldable pub trim_matches : (ℕ → Bool) → List ℕ → List ℕ
trim_matches test text = reverse (drop_while test (reverse (drop_while test text)))

unfoldable pub trim : List ℕ → List ℕ
trim text = trim_matches is_whitespace text

unfoldable pub any : (ℕ → Bool) → List ℕ → Bool
any test [] = false
any test (c ∷ text) = test c || any test text

unfoldable pub all : (ℕ → Bool) → List ℕ → Bool
all test [] = true
all test (c ∷ text) = test c && all test text

abbrev pub is_empty : List ℕ → Bool
is_empty [] = true
is_empty (c ∷ text) = false

-- `str::starts_with` of one character.
abbrev pub starts_with : List ℕ → ℕ → Bool
starts_with [] first = false
starts_with (c ∷ text) first = c == first

-- `Path::is_absolute` on Unix.
abbrev pub is_absolute : List ℕ → Bool
is_absolute path = starts_with path b'/'

abbrev pub is_digit : ℕ → Bool
is_digit c = leb b'0' c && leb c b'9'

abbrev pub is_alphanumeric : ℕ → Bool
is_alphanumeric c = is_digit c || (leb b'a' c && leb c b'z') || (leb b'A' c && leb c b'Z')

-- `u8::is_ascii_hexdigit`.
abbrev pub is_hexdigit : ℕ → Bool
is_hexdigit c = is_digit c || (leb b'a' c && leb c b'f') || (leb b'A' c && leb c b'F')
