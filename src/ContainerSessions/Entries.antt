-- ===== src/ContainerSessions/Entries.antt =====
-- What the text of a session is written from (src/container_sessions.rs, session_to_toml).
use cocoa_way.Base.{
  ℕ, suc, ◌+◌, ◌≤◌, ◌≡◌, refl, sym, ap, ◌∙◌, inl, inr, Bool, true, false, Option, none, some, List,
  [], ◌∷◌, ◌++◌, length, ◌==◌, arith, Bool-cases, any, All, codes,
}
use cocoa_way.ProfileIdentity.{ProfileId, is_saved}
use cocoa_way.ContainerSessions.{
  ContainerSession, TomlValue, toml_lines, saved_id, nonempty_text, nonempty_list, threads_value,
  audio_value, slots, present, session_to_toml,
}
use cocoa_way.ContainerSessions.Lines.{IsEntry, read_lines, read_lines-toml_lines}
use cocoa_way.ContainerSessions.Slots.{present_injective}
use cocoa_way.ContainerSessions.Decimals.{starts_bare-decimal}

module _ (fuel : ℕ) where
  abbrev IsSlot : List ℕ × Option TomlValue → Type 0
  IsSlot (key, none) = Unit
  IsSlot (key, some value) = IsEntry fuel (key, value)

  present-All :
      (ss : List (List ℕ × Option TomlValue)) → All IsSlot ss → All (IsEntry fuel) (present ss)
  unfolding present
  present-All [] h = tt
  present-All ((key, none) ∷ ss) h = present-All ss h.1
  present-All ((key, some value) ∷ ss) h = (h.0, present-All ss h.1)

  module _ (key : List ℕ) (free : any (λ c. c == 32) key ≡ false) where
    saved_id-IsSlot : (id : ProfileId) → IsSlot (key, saved_id id)
    unfolding saved_id
    saved_id-IsSlot id = elim (Bool-cases (is_saved id)) [
      | inl saved ↦ rw saved (free, tt)
      | inr unsaved ↦ rw unsaved tt
    ]

    nonempty_text-IsSlot : (o : Option (List ℕ)) → IsSlot (key, nonempty_text o)
    unfolding nonempty_text
    nonempty_text-IsSlot none = tt
    nonempty_text-IsSlot (some []) = tt
    nonempty_text-IsSlot (some (c ∷ text)) = (free, tt)

    nonempty_list-IsSlot :
        (values : List (List ℕ)) → length values ≤ fuel → IsSlot (key, nonempty_list values)
    unfolding nonempty_list
    nonempty_list-IsSlot [] few = tt
    nonempty_list-IsSlot (value ∷ values) few = (free, few)

    threads_value-IsSlot : (o : Option ℕ) → IsSlot (key, threads_value o)
    unfolding threads_value
    threads_value-IsSlot none = tt
    threads_value-IsSlot (some n) = (free, starts_bare-decimal (suc n) n (omega arith))

    audio_value-IsSlot : (on : Bool) → IsSlot (key, some (audio_value on))
    unfolding audio_value any
    audio_value-IsSlot true = (free, refl)
    audio_value-IsSlot false = (free, refl)

  slots-All :
      (s : ContainerSession)
      → length s.runtime_args ≤ fuel
      → length s.mounts ≤ fuel
      → length s.env ≤ fuel
      → All IsSlot (slots s)
  unfolding slots any
  slots-All s args mounts env = (
    saved_id-IsSlot (codes "id") refl s.id,
    (
      (refl, tt),
      (
        (refl, tt),
        (
          (refl, tt),
          (
            nonempty_text-IsSlot (codes "display") refl s.display,
            (
              nonempty_text-IsSlot (codes "presentation") refl s.presentation,
              (
                nonempty_text-IsSlot (codes "profile") refl s.profile,
                (
                  nonempty_text-IsSlot (codes "command") refl s.command,
                  (
                    nonempty_text-IsSlot (codes "app") refl s.app,
                    (
                      nonempty_text-IsSlot (codes "socket") refl s.socket,
                      (
                        nonempty_text-IsSlot (codes "container_socket") refl s.container_socket,
                        (
                          nonempty_text-IsSlot (codes "waypipe_path") refl s.waypipe_path,
                          (
                            nonempty_text-IsSlot (codes "waypipe_compress") refl s.waypipe_compress,
                            (
                              threads_value-IsSlot (codes "waypipe_threads") refl s.waypipe_threads,
                              (
                                audio_value-IsSlot (codes "audio") refl s.audio,
                                (
                                  nonempty_list-IsSlot (codes "runtime_args") refl s.runtime_args
                                      args,
                                  (
                                    nonempty_list-IsSlot (codes "mounts") refl s.mounts mounts,
                                    (nonempty_list-IsSlot (codes "env") refl s.env env, tt),
                                  ),
                                ),
                              ),
                            ),
                          ),
                        ),
                      ),
                    ),
                  ),
                ),
              ),
            ),
          ),
        ),
      ),
    ),
  )

append_injective : (front xs ys : List ℕ) → front ++ xs ≡ front ++ ys → xs ≡ ys
append_injective [] xs ys e = e
append_injective (c ∷ front) xs ys e = append_injective front xs ys cc

or_nil : Option (List (List ℕ × TomlValue)) → List (List ℕ × TomlValue)
or_nil none = []
or_nil (some es) = es

toml_lines_injective :
    (fuel : ℕ) (es ds : List (List ℕ × TomlValue))
    → All (IsEntry fuel) es
    → All (IsEntry fuel) ds
    → toml_lines es ≡ toml_lines ds
    → es ≡ ds
unfolding or_nil
toml_lines_injective fuel es ds a b same =
    let room = length es + length ds in
    let one = read_lines-toml_lines fuel es room (omega arith) a in
    let other = read_lines-toml_lines fuel ds room (omega arith) b in
    ap or_nil (sym one ∙ (ap (read_lines fuel room) same ∙ other))

pub session_to_toml_injective :
    (s t : ContainerSession) → session_to_toml s ≡ session_to_toml t → slots s ≡ slots t
unfolding session_to_toml
session_to_toml_injective s t same =
    let fuel =
      length s.runtime_args
      + length s.mounts
      + length s.env
      + (length t.runtime_args + length t.mounts + length t.env) in
    let lines =
      append_injective (codes "[[session]]\n") (toml_lines (present (slots s)))
        (toml_lines (present (slots t))) same in
    let one =
      present-All fuel (slots s) (slots-All fuel s (omega arith) (omega arith) (omega arith)) in
    let other =
      present-All fuel (slots t) (slots-All fuel t (omega arith) (omega arith) (omega arith)) in
    let entries =
      toml_lines_injective fuel (present (slots s)) (present (slots t)) one other lines in
    unfold slots in present_injective (slots s) (slots t) refl refl entries
