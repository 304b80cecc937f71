-- ===== src/ContainerSessions/Lines.antt =====
-- A reader of the lines that session_to_toml writes (src/container_sessions.rs).
use cocoa_way.Base.{
  ℕ, zero, suc, ◌≤◌, ◌≡◌, refl, ap, ◌∙◌, Bool, true, false, not, ◌&&◌, Option, none, some, List, [],
  ◌∷◌, ◌++◌, length, if◌then◌else◌, ◌==◌, ==_iff, arith, any, All, is_empty,
}
use cocoa_way.Quoting.{append_assoc, toml_quoted, toml_string_list}
use cocoa_way.Quoting.Toml.{push, read_string, read_value, is_raw, value_read}
use cocoa_way.Quoting.Arrays.{read_array, has_control, read_array-toml_string_list}
use cocoa_way.ContainerSessions.{
  TomlValue, text_value, bare_value, list_value, print_value, toml_line, toml_lines,
}

-- A reader that takes any character inside of quotes.
abbrev pub never : ℕ → Bool
never c = false

-- A text up to a character, and what stands behind it.
unfoldable pub read_until : ℕ → List ℕ → Option (List ℕ × List ℕ)
read_until stop [] = none
read_until stop (c ∷ text) =
    let later = read_until stop text in if c == stop then some ([], text) else push c later

read_until-found :
    (stop : ℕ) (front rest : List ℕ)
    → any (λ c. c == stop) front ≡ false
    → read_until stop (front ++ stop ∷ rest) ≡ some (front, rest)
unfolding read_until any
read_until-found stop [] rest free = rw ((==_iff stop stop).1 refl) refl
read_until-found stop (c ∷ front) rest free =
    let own : (c == stop) ≡ false = ground arith in
    let more : any (λ c. c == stop) front ≡ false = ground arith in
    rw (own, read_until-found stop front rest more) refl

-- What stands behind the end of the line that a value must have.
abbrev pub end_line {ℓ} :
    {A : Type ℓ} → (A → TomlValue) → Option (A × List ℕ) → Option (TomlValue × List ℕ)
end_line wrap none = none
end_line wrap (some (value, [])) = none
end_line wrap (some (value, c ∷ rest)) = if c == 10 then some (wrap value, rest) else none

abbrev pub end_bare : Option (List ℕ × List ℕ) → Option (TomlValue × List ℕ)
end_bare none = none
end_bare (some (text, rest)) = some (bare_value text, rest)

-- A value without quotes or brackets.
abbrev pub starts_bare : List ℕ → Bool
starts_bare [] = false
starts_bare (c ∷ text) = not (c == 34) && not (c == 91) && not (any (λ d. d == 10) (c ∷ text))

module _ (fuel : ℕ) where
  unfoldable pub read_toml_value : List ℕ → Option (TomlValue × List ℕ)
  read_toml_value [] = none
  read_toml_value (c ∷ text) =
      if c == 34
      then end_line text_value (read_string never false text)
      else if c == 91
      then end_line list_value (read_array never fuel text)
      else end_bare (read_until 10 (c ∷ text))

  -- A value as the program writes it.
  abbrev pub IsValue : TomlValue → Type 0
  IsValue (text_value value) = Unit
  IsValue (bare_value text) = starts_bare text ≡ true
  IsValue (list_value values) = length values ≤ fuel

  any-never : (value : List ℕ) → any (is_raw never) value ≡ false
  unfolding any
  any-never [] = refl
  any-never (c ∷ value) = ground (arith, any-never value)

  has_control-never : (values : List (List ℕ)) → has_control never values ≡ false
  has_control-never [] = refl
  has_control-never (value ∷ values) = rw (any-never value) (has_control-never values)

  read_toml_value-print_value :
      (v : TomlValue) (rest : List ℕ)
      → IsValue v
      → read_toml_value (print_value v ++ 10 ∷ rest) ≡ some (v, rest)
  unfolding read_toml_value print_value toml_quoted read_value
  read_toml_value-print_value (text_value value) rest h = ap (end_line text_value) (
      value_read never value (10 ∷ rest)
      ∙ ap (λ b. if b then none else some (value, 10 ∷ rest)) (any-never value))
  read_toml_value-print_value (bare_value []) rest h = cc
  read_toml_value-print_value (bare_value (c ∷ text)) rest h =
      let a : (c == 34) ≡ false = ground arith in
      let b : (c == 91) ≡ false = ground arith in
      let free : any (λ d. d == 10) (c ∷ text) ≡ false = ground arith in
      rw (a, b) (ap end_bare (read_until-found 10 (c ∷ text) rest free))
  read_toml_value-print_value (list_value values) rest h = ap (end_line list_value) (
      ap (read_array never fuel) (append_assoc (toml_string_list values) (93 ∷ []) (10 ∷ rest))
      ∙ read_array-toml_string_list never values (10 ∷ rest) fuel h (has_control-never values))

  abbrev pub with_key :
      List ℕ → Option (TomlValue × List ℕ) → Option ((List ℕ × TomlValue) × List ℕ)
  with_key key none = none
  with_key key (some (value, rest)) = some ((key, value), rest)

  -- The two characters between the space behind the key and the value.
  abbrev pub after_key : Option (List ℕ × List ℕ) → Option ((List ℕ × TomlValue) × List ℕ)
  after_key none = none
  after_key (some (key, [])) = none
  after_key (some (key, c ∷ [])) = none
  after_key (some (key, c ∷ d ∷ text)) =
      if (c == 61) && (d == 32) then with_key key (read_toml_value text) else none

  abbrev pub read_line : List ℕ → Option ((List ℕ × TomlValue) × List ℕ)
  read_line text = after_key (read_until 32 text)

  abbrev pub IsEntry : List ℕ × TomlValue → Type 0
  IsEntry (key, value) = (any (λ c. c == 32) key ≡ false) × IsValue value

  read_line-toml_line :
      (e : List ℕ × TomlValue) (rest : List ℕ)
      → IsEntry e
      → read_line (toml_line e ++ rest) ≡ some (e, rest)
  unfolding toml_line
  read_line-toml_line (key, value) rest (free, fits) =
      let text = print_value value ++ 10 ∷ rest in
      let line =
        ap (λ t. key ++ 32 ∷ 61 ∷ 32 ∷ t) (append_assoc (print_value value) (10 ∷ []) rest) in
      let shape = append_assoc key (32 ∷ 61 ∷ 32 ∷ (print_value value ++ 10 ∷ [])) rest ∙ line in
      ap read_line shape
      ∙ (ap after_key (read_until-found 32 key (61 ∷ 32 ∷ text) free)
          ∙ ap (with_key key) (read_toml_value-print_value value rest fits))

  abbrev pub add_entry :
      List ℕ × TomlValue → Option (List (List ℕ × TomlValue)) → Option (List (List ℕ × TomlValue))
  add_entry e none = none
  add_entry e (some entries) = some (e ∷ entries)

  abbrev pub after_line :
      (List ℕ → Option (List (List ℕ × TomlValue)))
      → Option ((List ℕ × TomlValue) × List ℕ)
      → Option (List (List ℕ × TomlValue))
  after_line next none = none
  after_line next (some (e, rest)) = add_entry e (next rest)

  -- The lines of a text, at most so many.
  unfoldable pub read_lines : ℕ → List ℕ → Option (List (List ℕ × TomlValue))
  read_lines zero text = if is_empty text then some [] else none
  read_lines (suc room) text =
      let entries = after_line (λ later. read_lines room later) (read_line text) in
      if is_empty text then some [] else entries

  line_not_empty : (e : List ℕ × TomlValue) (rest : List ℕ) → is_empty (toml_line e ++ rest) ≡ false
  unfolding toml_line
  line_not_empty ([], value) rest = refl
  line_not_empty (c ∷ key, value) rest = refl

  pub read_lines-toml_lines :
      (es : List (List ℕ × TomlValue)) (room : ℕ)
      → length es ≤ room
      → All IsEntry es
      → read_lines room (toml_lines es) ≡ some es
  unfolding read_lines toml_lines
  read_lines-toml_lines [] zero enough all = refl
  read_lines-toml_lines [] (suc room) enough all = refl
  read_lines-toml_lines (e ∷ es) zero enough all = absurd (omega arith)
  read_lines-toml_lines (e ∷ es) (suc room) enough (own, all) =
      rw (line_not_empty e (toml_lines es)) (
        ap (after_line (λ later. read_lines room later)) (read_line-toml_line e (toml_lines es) own)
        ∙ ap (add_entry e) (read_lines-toml_lines es room (omega arith) all))
