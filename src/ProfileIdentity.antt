-- ===== src/ProfileIdentity.antt =====
-- The persistent identity of a profile (src/profile_identity.rs). A text is the list of its bytes, and
-- so is an identity.
pub mod Text
use cocoa_way.Base.{
  ℕ, zero, suc, ◌+◌, ◌-◌, ◌*◌, ◌/◌, ◌%◌, ◌≤◌, ◌<◌, ◌≡◌, Bool, true, false, not, ◌&&◌, ◌||◌, Option,
  none, some, List, [], ◌∷◌, ◌++◌, if◌then◌else◌, length, ltb, leb, ◌==◌, text_eq, Result, ok, err,
  ◌>>=◌,
}

pub record ProfileId : Type 0 where
  pub bytes : List ℕ

abbrev pub replicate {ℓ} : {A : Type ℓ} → ℕ → A → List A
replicate zero a = []
replicate (suc n) a = a ∷ replicate n a

abbrev pub unsaved : ProfileId
unsaved = record { bytes = replicate 16 0 }

unfoldable pub is_saved : ProfileId → Bool
is_saved id = not (text_eq id.bytes unsaved.bytes)

pub data NewError : Type 0 where
  random_failed : NewError

-- The loop of ProfileId::new over what its reads of the random device give, `none` for a read that
-- fails; it has no result while the reads are not enough.
unfoldable pub new_id : List (Option (List ℕ)) → Option (Result ProfileId NewError)
new_id [] = none
new_id (none ∷ reads) = some (err random_failed)
new_id (some bytes ∷ reads) =
    let id : ProfileId = record { bytes = bytes } in
    let again = new_id reads in if is_saved id then some (ok id) else again

-- A digit as `{:x}` prints it.
unfoldable pub hex_digit : ℕ → ℕ
hex_digit d = if ltb d 10 then b'0' + d else b'a' + (d - 10)

unfoldable pub display_bytes : List ℕ → List ℕ
display_bytes [] = []
display_bytes (byte ∷ bytes) = hex_digit (byte / 16) ∷ hex_digit (byte % 16) ∷ display_bytes bytes

unfoldable pub display : ProfileId → List ℕ
display id = display_bytes id.bytes

pub data ParseError : Type 0 where
  not_hexadecimal invalid_digit reserved : ParseError

unfoldable pub is_hex : ℕ → Bool
is_hex b = (leb b'0' b && leb b b'9') || (leb b'a' b && leb b b'f')

unfoldable pub all_hex : List ℕ → Bool
all_hex [] = true
all_hex (b ∷ bs) = is_hex b && all_hex bs

-- `char::to_digit(16)`.
unfoldable pub to_digit : ℕ → Result ℕ ParseError
to_digit b =
    if leb b'0' b && leb b b'9'
    then ok (b - b'0')
    else if leb b'a' b && leb b b'f'
    then ok (b - b'a' + 10)
    else if leb b'A' b && leb b b'F'
    then ok (b - b'A' + 10)
    else err invalid_digit

-- `u8::from_str_radix` on two bytes; a leading `+` is a sign.
unfoldable pub from_str_radix : ℕ → ℕ → Result ℕ ParseError
from_str_radix a b =
    if a == b'+'
    then to_digit b
    else to_digit a >>= λ high. to_digit b >>= λ low. ok (high * 16 + low)

-- The loop over the bytes of the identity, each from its two digits; the text has an even length.
unfoldable pub parse_bytes : List ℕ → Result (List ℕ) ParseError
parse_bytes [] = ok []
parse_bytes (a ∷ []) = ok []
parse_bytes (a ∷ b ∷ text) =
    from_str_radix a b >>= λ byte. parse_bytes text >>= λ bytes. ok (byte ∷ bytes)

unfoldable pub checked_id : List ℕ → Result ProfileId ParseError
checked_id bytes =
    let id : ProfileId = record { bytes = bytes } in
    if not (is_saved id) then err reserved else ok id

unfoldable pub from_str : List ℕ → Result ProfileId ParseError
from_str value =
    if not (length value == 32) || not (all_hex value)
    then err not_hexadecimal
    else parse_bytes value >>= checked_id
