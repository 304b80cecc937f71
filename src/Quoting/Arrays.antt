-- ===== src/Quoting/Arrays.antt =====
-- Lists of quoted texts in a file that a TOML reader reads (src/container_sessions.rs, toml_string_list).
use cocoa_way.Base.{
  ℕ, zero, suc, ◌≤◌, ◌≡◌, refl, ap, ◌∙◌, Bool, false, ◌||◌, Option, none, some, List, [], ◌∷◌, ◌++◌,
  length, if◌then◌else◌, ◌==◌, arith, any,
}
use cocoa_way.Quoting.{append_assoc, toml_quoted, toml_rest, toml_string_list}
use cocoa_way.Quoting.Toml.{is_raw, read_value, value_read}

abbrev pub add_value : List ℕ → Option (List (List ℕ) × List ℕ) → Option (List (List ℕ) × List ℕ)
add_value value none = none
add_value value (some (values, rest)) = some (value ∷ values, rest)

abbrev pub after_comma :
    (List ℕ → Option (List (List ℕ) × List ℕ)) → List ℕ → List ℕ → Option (List (List ℕ) × List ℕ)
after_comma next value [] = none
after_comma next value (c ∷ text) = if c == 32 then add_value value (next text) else none

abbrev pub after_value :
    (List ℕ → Option (List (List ℕ) × List ℕ))
    → Option (List ℕ × List ℕ)
    → Option (List (List ℕ) × List ℕ)
after_value next none = none
after_value next (some (value, [])) = none
after_value next (some (value, c ∷ text)) =
    if c == 93
    then some (value ∷ [], text)
    else if c == 44
    then after_comma next value text
    else none

module _ (refuses : ℕ → Bool) where
  -- The values of an array up to its closing bracket; the fuel bounds how many there are.
  unfoldable pub read_items : ℕ → List ℕ → Option (List (List ℕ) × List ℕ)
  read_items zero text = none
  read_items (suc fuel) text =
      after_value (λ later. read_items fuel later) (read_value refuses text)

  -- An array after its opening bracket.
  unfoldable pub read_array : ℕ → List ℕ → Option (List (List ℕ) × List ℕ)
  read_array fuel [] = none
  read_array fuel (c ∷ text) =
      let items = read_items fuel (c ∷ text) in if c == 93 then some ([], text) else items

  abbrev pub has_control : List (List ℕ) → Bool
  has_control [] = false
  has_control (value ∷ values) = any (is_raw refuses) value || has_control values

  value-read :
      (value rest : List ℕ)
      → any (is_raw refuses) value ≡ false
      → read_value refuses (toml_quoted value ++ rest) ≡ some (value, rest)
  value-read value rest clean =
      value_read refuses value rest ∙ ap (λ b. if b then none else some (value, rest)) clean

  read_items-values :
      (values : List (List ℕ)) (value rest : List ℕ) (fuel : ℕ)
      → length values ≤ fuel
      → has_control (value ∷ values) ≡ false
      → read_items (suc fuel) (toml_quoted value ++ (toml_rest values ++ 93 ∷ rest))
        ≡ some (value ∷ values, rest)
  unfolding read_items toml_rest
  read_items-values [] value rest fuel enough clean =
      let own : any (is_raw refuses) value ≡ false = ground arith in
      ap (after_value (λ later. read_items fuel later)) (value-read value (93 ∷ rest) own)
  read_items-values (other ∷ values) value rest zero enough clean = absurd (omega arith)
  read_items-values (other ∷ values) value rest (suc fuel) enough clean =
      let own : any (is_raw refuses) value ≡ false = ground arith in
      let more : has_control (other ∷ values) ≡ false = ground arith in
      let tail = 44 ∷ 32 ∷ (toml_quoted other ++ toml_rest values) ++ 93 ∷ rest in
      ap (after_value (λ later. read_items (suc fuel) later)) (value-read value tail own)
      ∙ ap (add_value value) (
          ap (read_items (suc fuel))
            (append_assoc (toml_quoted other) (toml_rest values) (93 ∷ rest))
          ∙ read_items-values values other rest fuel (omega arith) more)

  -- A list of texts is read back as it was, with what stands behind its bracket, if none of them has a
  -- character that the reader refuses and that is not escaped, given fuel for as many values.
  pub read_array-toml_string_list :
      (values : List (List ℕ)) (rest : List ℕ) (fuel : ℕ)
      → length values ≤ fuel
      → has_control values ≡ false
      → read_array fuel (toml_string_list values ++ 93 ∷ rest) ≡ some (values, rest)
  unfolding read_array toml_string_list toml_quoted
  read_array-toml_string_list [] rest fuel enough clean = refl
  read_array-toml_string_list (value ∷ values) rest zero enough clean = absurd (omega arith)
  read_array-toml_string_list (value ∷ values) rest (suc fuel) enough clean =
      let whole = append_assoc (toml_quoted value) (toml_rest values) (93 ∷ rest) in
      ap (read_array (suc fuel)) whole
      ∙ read_items-values values value rest fuel (omega arith) clean
