-- ===== src/Quoting/Toml.antt =====
-- Quoted texts in a file that a TOML reader reads (src/container_sessions.rs, toml_escape,
-- toml_string_list).
use cocoa_way.Base.{
  ℕ, ◌≡◌, refl, ap, ◌∙◌, inl, inr, Bool, true, false, not, ◌&&◌, ◌||◌, Option, none, some, List, [],
  ◌∷◌, ◌++◌, if◌then◌else◌, leb, ◌==◌, ==_iff, Bool-cases, any,
}
use cocoa_way.Quoting.{
  append_assoc, backslash, double_quote, flat_map, toml_escaped, toml_escape, toml_quoted,
}

-- The control characters that TOML does not let stand in a basic string.
abbrev pub is_forbidden : ℕ → Bool
is_forbidden c = leb c 8 || (leb 10 c && leb c 31) || (c == 127)

-- The characters that `toml_escape` writes otherwise.
abbrev pub is_escaped : ℕ → Bool
is_escaped c = (c == backslash) || (c == double_quote) || (c == 10) || (c == 13) || (c == 9)

-- An escape of one character; escapes by number are not written.
abbrev pub unescaped : ℕ → Option ℕ
unescaped c =
    if c == backslash
    then some backslash
    else if c == double_quote
    then some double_quote
    else if c == 98
    then some 8
    else if c == 102
    then some 12
    else if c == 110
    then some 10
    else if c == 114
    then some 13
    else if c == 116
    then some 9
    else none

abbrev pub push : ℕ → Option (List ℕ × List ℕ) → Option (List ℕ × List ℕ)
push c none = none
push c (some (value, rest)) = some (c ∷ value, rest)

abbrev pub push_if : Option ℕ → Option (List ℕ × List ℕ) → Option (List ℕ × List ℕ)
push_if none read = none
push_if (some c) read = push c read

-- A reader that refuses some characters in a basic string.
module _ (refuses : ℕ → Bool) where
  -- The characters that are refused and not written otherwise.
  abbrev pub is_raw : ℕ → Bool
  is_raw c = not (is_escaped c) && refuses c

  -- A basic string after its opening quote, and whether the last character was a backslash: its value,
  -- and what stands behind its closing quote.
  unfoldable pub read_string : Bool → List ℕ → Option (List ℕ × List ℕ)
  read_string escape [] = none
  read_string true (c ∷ text) = push_if (unescaped c) (read_string false text)
  read_string false (c ∷ text) =
      let inside = read_string false text in
      let after = read_string true text in
      if c == double_quote
      then some ([], text)
      else if c == backslash
      then after
      else if refuses c
      then none
      else push c inside

  unfoldable pub read_value : List ℕ → Option (List ℕ × List ℕ)
  read_value [] = none
  read_value (c ∷ text) =
      let read = read_string false text in if c == double_quote then read else none

  -- A character that is not escaped.
  plain_read :
      (c : ℕ) (text : List ℕ)
      → (c == backslash) ≡ false
      → (c == double_quote) ≡ false
      → (c == 10) ≡ false
      → (c == 13) ≡ false
      → (c == 9) ≡ false
      → read_string false (toml_escaped c ++ text)
        ≡ (if is_raw c then none else push c (read_string false text))
  unfolding read_string toml_escaped
  plain_read c text a b d e f = elim (Bool-cases (refuses c)) [
    | inl bad ↦ rw (a, b, d, e, f, a, b, bad) refl
    | inr good ↦ rw (a, b, d, e, f, a, b, good) refl
  ]

  merged :
      (raw more : Bool) (c : ℕ) (value rest : List ℕ)
      → (if raw then none else push c (if more then none else some (value, rest)))
        ≡ (if raw || more then none else some (c ∷ value, rest))
  merged true more c value rest = refl
  merged false true c value rest = refl
  merged false false c value rest = refl

  read_string-escaped :
      (c : ℕ) (text : List ℕ)
      → read_string false (toml_escaped c ++ text)
        ≡ (if is_raw c then none else push c (read_string false text))
  unfolding read_string toml_escaped
  read_string-escaped c text = elim (Bool-cases (c == backslash)) [
    | inl here ↦ rw ((==_iff c backslash).0 here) refl
    | inr a ↦ elim (Bool-cases (c == double_quote)) [
      | inl here ↦ rw ((==_iff c double_quote).0 here) refl
      | inr b ↦ elim (Bool-cases (c == 10)) [
        | inl here ↦ rw ((==_iff c 10).0 here) refl
        | inr d ↦ elim (Bool-cases (c == 13)) [
          | inl here ↦ rw ((==_iff c 13).0 here) refl
          | inr e ↦ elim (Bool-cases (c == 9)) [
            | inl here ↦ rw ((==_iff c 9).0 here) refl
            | inr f ↦ plain_read c text a b d e f
          ]
        ]
      ]
    ]
  ]

  read_string-value :
      (value rest : List ℕ)
      → read_string false (flat_map toml_escaped value ++ double_quote ∷ rest)
        ≡ (if any is_raw value then none else some (value, rest))
  unfolding flat_map any
  read_string-value [] rest = unfold read_string in refl
  read_string-value (c ∷ value) rest =
      let text = flat_map toml_escaped value ++ double_quote ∷ rest in
      ap (read_string false)
        (append_assoc (toml_escaped c) (flat_map toml_escaped value) (double_quote ∷ rest))
      ∙ (read_string-escaped c text
          ∙ (ap (λ read. if is_raw c then none else push c read) (read_string-value value rest)
              ∙ merged (is_raw c) (any is_raw value) c value rest))

  pub value_read :
      (value rest : List ℕ)
      → read_value (toml_quoted value ++ rest)
        ≡ (if any is_raw value then none else some (value, rest))
  unfolding toml_quoted toml_escape read_value
  value_read value rest =
      ap (read_string false) (append_assoc (flat_map toml_escaped value) (double_quote ∷ []) rest)
      ∙ read_string-value value rest

-- A quoted text is read back as it was, with what stands behind it, unless it has a control character
-- other than tab, newline and carriage return; then a TOML reader refuses it.
pub read_value-toml_quoted :
    (value rest : List ℕ)
    → read_value is_forbidden (toml_quoted value ++ rest)
      ≡ (if any (is_raw is_forbidden) value then none else some (value, rest))
read_value-toml_quoted value rest = value_read is_forbidden value rest
