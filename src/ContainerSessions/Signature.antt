-- ===== src/ContainerSessions/Signature.antt =====
-- The text of a session as its signature (src/container_sessions.rs, ProfileActionTarget).
use mathlib.Core.Option
use cocoa_way.Base.{
  ℕ, zero, suc, ◌≡◌, refl, sym, ap, subst, ◌∙◌, inl, inr, ◌⊎◌, Bool, true, false, ◌&&◌, Option,
  none, some, List, [], ◌∷◌, if◌then◌else◌, arith, codes, text_eq, text_eq_sound,
}
use cocoa_way.ContainerSessions.{
  ContainerSession, TomlValue, text_value, bare_value, list_value, nonempty_text, nonempty_list,
  threads_value, audio_value, slots, session_to_toml, capture, resolve,
}
use cocoa_way.ContainerSessions.Decimals.{decimal_injective}
use cocoa_way.ContainerSessions.Entries.{session_to_toml_injective}

abbrev bare_text : Option TomlValue → List ℕ
bare_text (some (bare_value text)) = text
bare_text _ = []

threads_value_injective : (a b : Option ℕ) → threads_value a ≡ threads_value b → a ≡ b
unfolding threads_value
threads_value_injective none none e = refl
threads_value_injective none (some n) e = cc
threads_value_injective (some m) none e = cc
threads_value_injective (some m) (some n) e = ap some (decimal_injective m n (ap bare_text e))

-- An empty text counts as absent.
abbrev normal : Option (List ℕ) → Option (List ℕ)
normal (some []) = none
normal o = o

abbrev value_text : TomlValue → List ℕ
value_text (text_value text) = text
value_text _ = []

abbrev list_of : Option TomlValue → List (List ℕ)
list_of (some (list_value values)) = values
list_of _ = []

nonempty_text-normal : (o : Option (List ℕ)) → Option.map value_text (nonempty_text o) ≡ normal o
unfolding nonempty_text
nonempty_text-normal none = refl
nonempty_text-normal (some []) = refl
nonempty_text-normal (some (c ∷ text)) = refl

nonempty_text_injective :
    (a b : Option (List ℕ)) → nonempty_text a ≡ nonempty_text b → normal a ≡ normal b
nonempty_text_injective a b e =
    sym (nonempty_text-normal a) ∙ (ap (Option.map value_text) e ∙ nonempty_text-normal b)

list_of-nonempty_list : (values : List (List ℕ)) → list_of (nonempty_list values) ≡ values
unfolding nonempty_list
list_of-nonempty_list [] = refl
list_of-nonempty_list (value ∷ values) = refl

nonempty_list_injective : (a b : List (List ℕ)) → nonempty_list a ≡ nonempty_list b → a ≡ b
nonempty_list_injective a b e =
    sym (list_of-nonempty_list a) ∙ (ap list_of e ∙ list_of-nonempty_list b)

audio_of : Option TomlValue → Bool
audio_of o = text_eq (bare_text o) (codes "true")

audio_of-audio_value : (on : Bool) → audio_of (some (audio_value on)) ≡ on
unfolding audio_value audio_of
audio_of-audio_value true = refl
audio_of-audio_value false = refl

audio_value_injective : (a b : Bool) → some (audio_value a) ≡ some (audio_value b) → a ≡ b
audio_value_injective a b e =
    sym (audio_of-audio_value a) ∙ (ap audio_of e ∙ audio_of-audio_value b)

-- What is written at a place of the table.
abbrev value_at : ℕ → List (List ℕ × Option TomlValue) → Option TomlValue
value_at i [] = none
value_at zero (slot ∷ rest) = slot.1
value_at (suc i) (slot ∷ rest) = value_at i rest

-- The same value in every field, where an empty text counts as absent.
pub record Agrees (s t : ContainerSession) : Type 0 where
  same_id : t.id ≡ s.id
  same_name : t.name ≡ s.name
  same_runtime : t.runtime ≡ s.runtime
  same_image : t.image ≡ s.image
  same_display : normal t.display ≡ normal s.display
  same_presentation : normal t.presentation ≡ normal s.presentation
  same_profile : normal t.profile ≡ normal s.profile
  same_command : normal t.command ≡ normal s.command
  same_app : normal t.app ≡ normal s.app
  same_socket : normal t.socket ≡ normal s.socket
  same_container_socket : normal t.container_socket ≡ normal s.container_socket
  same_waypipe_path : normal t.waypipe_path ≡ normal s.waypipe_path
  same_waypipe_compress : normal t.waypipe_compress ≡ normal s.waypipe_compress
  same_waypipe_threads : t.waypipe_threads ≡ s.waypipe_threads
  same_audio : t.audio ≡ s.audio
  same_runtime_args : t.runtime_args ≡ s.runtime_args
  same_mounts : t.mounts ≡ s.mounts
  same_env : t.env ≡ s.env

slots-Agrees : (s t : ContainerSession) → t.id ≡ s.id → slots t ≡ slots s → Agrees s t
unfolding slots
slots-Agrees s t id same = record {
  same_id = id;
  same_name = ap text_of (ap (value_at 1) same);
  same_runtime = ap text_of (ap (value_at 2) same);
  same_image = ap text_of (ap (value_at 3) same);
  same_display = nonempty_text_injective t.display s.display (ap (value_at 4) same);
  same_presentation = nonempty_text_injective t.presentation s.presentation (ap (value_at 5) same);
  same_profile = nonempty_text_injective t.profile s.profile (ap (value_at 6) same);
  same_command = nonempty_text_injective t.command s.command (ap (value_at 7) same);
  same_app = nonempty_text_injective t.app s.app (ap (value_at 8) same);
  same_socket = nonempty_text_injective t.socket s.socket (ap (value_at 9) same);
  same_container_socket =
      nonempty_text_injective t.container_socket s.container_socket (ap (value_at 10) same);
  same_waypipe_path = nonempty_text_injective t.waypipe_path s.waypipe_path (ap (value_at 11) same);
  same_waypipe_compress =
      nonempty_text_injective t.waypipe_compress s.waypipe_compress (ap (value_at 12) same);
  same_waypipe_threads =
      threads_value_injective t.waypipe_threads s.waypipe_threads (ap (value_at 13) same);
  same_audio = audio_value_injective t.audio s.audio (ap (value_at 14) same);
  same_runtime_args = nonempty_list_injective t.runtime_args s.runtime_args (ap (value_at 15) same);
  same_mounts = nonempty_list_injective t.mounts s.mounts (ap (value_at 16) same);
  same_env = nonempty_list_injective t.env s.env (ap (value_at 17) same);
}
  where
    text_of : Option TomlValue → List ℕ
    text_of none = []
    text_of (some value) = value_text value

abbrev pub IsIn : ContainerSession → List ContainerSession → Type 0
IsIn s [] = ⊥
IsIn s (x ∷ xs) = (x ≡ s) ⊎ IsIn s xs

chosen :
    (b : Bool) (x t : ContainerSession) (later : Option ContainerSession)
    → (if b then some x else later) ≡ some t
    → ((b ≡ true) × (x ≡ t)) ⊎ (later ≡ some t)
chosen true x t later e = inl (refl, cc)
chosen false x t later e = inr e

same_signature-Agrees :
    (s x : ContainerSession)
    → (text_eq x.id.bytes s.id.bytes && text_eq (session_to_toml x) (session_to_toml s)) ≡ true
    → Agrees s x
same_signature-Agrees s x found =
    let ids : text_eq x.id.bytes s.id.bytes ≡ true = ground arith in
    let texts : text_eq (session_to_toml x) (session_to_toml s) ≡ true = ground arith in
    let id = ap (λ bytes. record { bytes = bytes }) (text_eq_sound x.id.bytes s.id.bytes ids) in
    let same =
      session_to_toml_injective x s (text_eq_sound (session_to_toml x) (session_to_toml s) texts) in
    slots-Agrees s x id same

-- An action on a session resolves only to a session of the configuration that agrees in every field with
-- the one it was captured from, so that an edit in between, of any field, keeps the edited session from
-- being the result; but an optional text that is empty counts as absent.
pub resolve-capture :
    (s t : ContainerSession) (ss : List ContainerSession)
    → resolve (capture s) ss ≡ some t
    → IsIn t ss × Agrees s t
unfolding resolve capture
resolve-capture s t [] e = cc
resolve-capture s t (x ∷ xs) e =
    let test = text_eq x.id.bytes s.id.bytes && text_eq (session_to_toml x) (session_to_toml s) in
    elim (chosen test x t (resolve (capture s) xs) e) [
      | inl (found, same) ↦ (inl same, subst (Agrees s) same (same_signature-Agrees s x found))
      | inr later ↦ let (there, agrees) = resolve-capture s t xs later in (inr there, agrees)
    ]
