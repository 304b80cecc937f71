-- ===== src/ContainerSessions.antt =====
-- The text of a session and its use as a signature (src/container_sessions.rs): ContainerSession,
-- session_to_toml and ProfileActionTarget. A text is a list of code points.
pub mod Lines
pub mod Slots
pub mod Decimals
pub mod Entries
pub mod Signature
use cocoa_way.Base.{
  ℕ, zero, suc, ◌+◌, ◌/◌, ◌%◌, Bool, true, false, ◌&&◌, Option, none, some, List, [], ◌∷◌, ◌++◌,
  if◌then◌else◌, ◌==◌, codes, text_eq,
}
use cocoa_way.ProfileIdentity.{ProfileId, is_saved, display}
use cocoa_way.Quoting.{toml_quoted, toml_string_list}

pub record ContainerSession : Type 0 where
  pub id : ProfileId
  pub name : List ℕ
  pub image : List ℕ
  pub runtime : List ℕ
  pub display : Option (List ℕ)
  pub presentation : Option (List ℕ)
  pub profile : Option (List ℕ)
  pub app : Option (List ℕ)
  pub command : Option (List ℕ)
  pub socket : Option (List ℕ)
  pub container_socket : Option (List ℕ)
  pub waypipe_path : Option (List ℕ)
  pub waypipe_compress : Option (List ℕ)
  pub waypipe_threads : Option ℕ
  pub audio : Bool
  pub runtime_args : List (List ℕ)
  pub mounts : List (List ℕ)
  pub env : List (List ℕ)

-- A value of a line: in quotes, a number or a Boolean as it is written, or an array of texts.
pub data TomlValue : Type 0 where
  text_value bare_value : List ℕ → TomlValue
  list_value : List (List ℕ) → TomlValue

unfoldable pub print_value : TomlValue → List ℕ
print_value (text_value value) = toml_quoted value
print_value (bare_value text) = text
print_value (list_value values) = 91 ∷ toml_string_list values ++ 93 ∷ []

-- `key = value`.
unfoldable pub toml_line : List ℕ × TomlValue → List ℕ
toml_line (key, value) = key ++ (32 ∷ 61 ∷ 32 ∷ (print_value value ++ 10 ∷ []))

unfoldable pub toml_lines : List (List ℕ × TomlValue) → List ℕ
toml_lines [] = []
toml_lines (entry ∷ entries) = toml_line entry ++ toml_lines entries

-- A number in decimal, as `{}` writes it; the fuel is more than the number.
unfoldable pub decimal : ℕ → ℕ → List ℕ
decimal zero n = []
decimal (suc fuel) n =
    let front = decimal fuel (n / 10) in
    let last = 48 + n % 10 in if n / 10 == 0 then last ∷ [] else front ++ last ∷ []

unfoldable pub saved_id : ProfileId → Option TomlValue
saved_id id = if is_saved id then some (text_value (display id)) else none

-- `filter(|value| !value.is_empty())`.
unfoldable pub nonempty_text : Option (List ℕ) → Option TomlValue
nonempty_text none = none
nonempty_text (some []) = none
nonempty_text (some (c ∷ text)) = some (text_value (c ∷ text))

unfoldable pub nonempty_list : List (List ℕ) → Option TomlValue
nonempty_list [] = none
nonempty_list (value ∷ values) = some (list_value (value ∷ values))

unfoldable pub threads_value : Option ℕ → Option TomlValue
threads_value none = none
threads_value (some n) = some (bare_value (decimal (suc n) n))

unfoldable pub audio_value : Bool → TomlValue
audio_value true = bare_value (codes "true")
audio_value false = bare_value (codes "false")

-- The keys in the order of the code, with what is written for each.
unfoldable pub slots : ContainerSession → List (List ℕ × Option TomlValue)
slots s =
    (codes "id", saved_id s.id)
    ∷ (codes "name", some (text_value s.name))
    ∷ (codes "runtime", some (text_value s.runtime))
    ∷ (codes "image", some (text_value s.image))
    ∷ (codes "display", nonempty_text s.display)
    ∷ (codes "presentation", nonempty_text s.presentation)
    ∷ (codes "profile", nonempty_text s.profile)
    ∷ (codes "command", nonempty_text s.command)
    ∷ (codes "app", nonempty_text s.app)
    ∷ (codes "socket", nonempty_text s.socket)
    ∷ (codes "container_socket", nonempty_text s.container_socket)
    ∷ (codes "waypipe_path", nonempty_text s.waypipe_path)
    ∷ (codes "waypipe_compress", nonempty_text s.waypipe_compress)
    ∷ (codes "waypipe_threads", threads_value s.waypipe_threads)
    ∷ (codes "audio", some (audio_value s.audio))
    ∷ (codes "runtime_args", nonempty_list s.runtime_args)
    ∷ (codes "mounts", nonempty_list s.mounts)
    ∷ (codes "env", nonempty_list s.env)
    ∷ []

-- The lines that are written.
unfoldable pub present : List (List ℕ × Option TomlValue) → List (List ℕ × TomlValue)
present [] = []
present ((key, none) ∷ rest) = present rest
present ((key, some value) ∷ rest) = (key, value) ∷ present rest

unfoldable pub session_to_toml : ContainerSession → List ℕ
session_to_toml s = codes "[[session]]\n" ++ toml_lines (present (slots s))

pub record ProfileActionTarget : Type 0 where
  pub id : ProfileId
  pub signature : List ℕ

unfoldable pub capture : ContainerSession → ProfileActionTarget
capture s = record { id = s.id; signature = session_to_toml s }

unfoldable pub resolve : ProfileActionTarget → List ContainerSession → Option ContainerSession
resolve target [] = none
resolve target (s ∷ ss) =
    let later = resolve target ss in
    if text_eq s.id.bytes target.id.bytes && text_eq (session_to_toml s) target.signature
    then some s
    else later
