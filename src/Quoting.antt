-- ===== src/Quoting.antt =====
-- Texts that are put in quotes: shell_single_quote of src/runtime_paths.rs, toml_escape and
-- toml_string_list of src/container_sessions.rs, and what a shell and a TOML reader make of such
-- texts. A text is a list of code points.
pub mod Shell
pub mod Toml
pub mod Arrays
use cocoa_way.Base.{ℕ, ◌≡◌, refl, List, [], ◌∷◌, ◌++◌, if◌then◌else◌, ◌==◌}

-- `'` and `\`, and `"`.
abbrev pub quote : ℕ
quote = 39

abbrev pub backslash : ℕ
backslash = 92

abbrev pub double_quote : ℕ
double_quote = 34

unfoldable pub flat_map : (ℕ → List ℕ) → List ℕ → List ℕ
flat_map f [] = []
flat_map f (c ∷ text) = f c ++ flat_map f text

-- `value.replace('\'', "'\\''")`.
unfoldable pub replaced_quote : ℕ → List ℕ
replaced_quote c = if c == quote then quote ∷ backslash ∷ quote ∷ quote ∷ [] else c ∷ []

unfoldable pub shell_single_quote : List ℕ → List ℕ
shell_single_quote value = quote ∷ flat_map replaced_quote value ++ quote ∷ []

unfoldable pub toml_escaped : ℕ → List ℕ
toml_escaped c =
    if c == backslash
    then backslash ∷ backslash ∷ []
    else if c == double_quote
    then backslash ∷ double_quote ∷ []
    else if c == 10
    then backslash ∷ 110 ∷ []
    else if c == 13
    then backslash ∷ 114 ∷ []
    else if c == 9
    then backslash ∷ 116 ∷ []
    else c ∷ []

unfoldable pub toml_escape : List ℕ → List ℕ
toml_escape value = flat_map toml_escaped value

unfoldable pub toml_quoted : List ℕ → List ℕ
toml_quoted value = double_quote ∷ toml_escape value ++ double_quote ∷ []

-- `join(", ")`: what stands before each value but the first.
unfoldable pub toml_rest : List (List ℕ) → List ℕ
toml_rest [] = []
toml_rest (value ∷ values) = 44 ∷ 32 ∷ toml_quoted value ++ toml_rest values

unfoldable pub toml_string_list : List (List ℕ) → List ℕ
toml_string_list [] = []
toml_string_list (value ∷ values) = toml_quoted value ++ toml_rest values

pub append_assoc {ℓ} : {A : Type ℓ} (xs ys zs : List A) → (xs ++ ys) ++ zs ≡ xs ++ (ys ++ zs)
append_assoc [] ys zs = refl
append_assoc (x ∷ xs) ys zs = rw (append_assoc xs ys zs) refl
