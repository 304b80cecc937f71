-- ===== src/Quoting/Shell.antt =====
-- A quoted text in a command of a POSIX shell (src/runtime_paths.rs, shell_single_quote).
use cocoa_way.Base.{
  ℕ, ◌≡◌, ap, refl, ◌∙◌, inl, inr, Option, none, some, List, [], ◌∷◌, ◌++◌, if◌then◌else◌, ◌==◌,
  ==_iff, Bool-cases,
}
use cocoa_way.Quoting.{append_assoc, quote, backslash, flat_map, replaced_quote, shell_single_quote}

abbrev pub put : ℕ → Option (List ℕ) → Option (List ℕ)
put c none = none
put c (some word) = some (c ∷ word)

abbrev pub put_all : List ℕ → Option (List ℕ) → Option (List ℕ)
put_all [] word = word
put_all (c ∷ cs) word = put c (put_all cs word)

-- Where a shell is in a word: in single quotes, after a backslash, or neither.
pub data Mode : Type 0 where
  plain quoted escaped : Mode

-- The text of a word that is quoted as a whole. Nothing is special in single quotes but the quote that
-- ends them; outside of them a backslash takes the next character as it is, and any other is no quoted
-- text.
unfoldable pub shell_word : Mode → List ℕ → Option (List ℕ)
shell_word plain [] = some []
shell_word plain (c ∷ text) =
    let inside = shell_word quoted text in
    let after = shell_word escaped text in
    if c == quote then inside else if c == backslash then after else none
shell_word quoted [] = none
shell_word quoted (c ∷ text) =
    let outside = shell_word plain text in
    let inside = shell_word quoted text in if c == quote then outside else put c inside
shell_word escaped [] = none
shell_word escaped (c ∷ text) = put c (shell_word plain text)

quoted-replaced :
    (c : ℕ) (text : List ℕ)
    → shell_word quoted (replaced_quote c ++ text) ≡ put c (shell_word quoted text)
unfolding shell_word replaced_quote
quoted-replaced c text = elim (Bool-cases (c == quote)) [
  | inl here ↦ let same = (==_iff c quote).0 here in rw (here, same) refl
  | inr other ↦ rw (other, other) refl
]

quoted-value :
    (value rest : List ℕ)
    → shell_word quoted (flat_map replaced_quote value ++ quote ∷ rest)
      ≡ put_all value (shell_word plain rest)
unfolding flat_map
quoted-value [] rest = unfold shell_word in refl
quoted-value (c ∷ value) rest =
    let text = flat_map replaced_quote value ++ quote ∷ rest in
    ap (shell_word quoted)
      (append_assoc (replaced_quote c) (flat_map replaced_quote value) (quote ∷ rest))
    ∙ (quoted-replaced c text ∙ ap (put c) (quoted-value value rest))

-- Whatever a text holds, a shell reads its quoted form, in front of any further text, as exactly that
-- text and goes on behind it as at the start: nothing of it is expanded, split or left over.
pub shell_word-shell_single_quote :
    (value rest : List ℕ)
    → shell_word plain (shell_single_quote value ++ rest) ≡ put_all value (shell_word plain rest)
unfolding shell_single_quote shell_word
shell_word-shell_single_quote value rest =
    ap (shell_word quoted) (append_assoc (flat_map replaced_quote value) (quote ∷ []) rest)
    ∙ quoted-value value rest
