-- ===== src/Examples/Texts.antt =====
-- Runs of the texts in quotes and of the signature of a session (src/container_sessions.rs,
-- src/runtime_paths.rs).
use cocoa_way.Base.{
  ℕ, ◌≡◌, refl, Bool, true, false, none, some, List, [], ◌∷◌, ◌++◌, if◌then◌else◌, any, codes,
}
use cocoa_way.ProfileIdentity.{is_saved, display, display_bytes, hex_digit, replicate}
use cocoa_way.Quoting as quoting
use cocoa_way.Quoting.{shell_single_quote, toml_quoted}
use cocoa_way.Quoting.Shell.{plain, put_all, shell_word, shell_word-shell_single_quote}
use cocoa_way.Quoting.Toml.{is_forbidden, is_raw, read_value, read_value-toml_quoted}
use cocoa_way.ContainerSessions as sessions
use cocoa_way.ContainerSessions.{ContainerSession, capture, resolve}
use cocoa_way.ContainerSessions.Signature.{IsIn, Agrees, resolve-capture}

-- A text with a command that must not run, in front of a second word in quotes.
abbrev command : List ℕ
command = codes "it's $(rm -rf /)"

shell_word-shell_single_quote_example :
    shell_word plain (shell_single_quote command ++ shell_single_quote (codes "b"))
    ≡ put_all command (shell_word plain (shell_single_quote (codes "b")))
shell_word-shell_single_quote_example =
    shell_word-shell_single_quote command (shell_single_quote (codes "b"))

abbrev value : List ℕ
value = codes "say \"x\"" ++ 10 ∷ 9 ∷ []

read_value-toml_quoted_example :
    read_value is_forbidden (toml_quoted value ++ codes ", y")
    ≡ (if any (is_raw is_forbidden) value then none else some (value, codes ", y"))
read_value-toml_quoted_example = read_value-toml_quoted value (codes ", y")

-- An escape character is left as it is, and refused.
escape_refused : read_value is_forbidden (toml_quoted (27 ∷ [])) ≡ none
unfolding read_value toml_quoted quoting.toml_escape quoting.flat_map quoting.toml_escaped
    quoting.Toml.read_string
escape_refused = refl

abbrev session_with : Bool → ContainerSession
session_with audio = record {
  id = record { bytes = replicate 16 1 };
  name = codes "a";
  image = codes "i";
  runtime = codes "docker";
  display = none;
  presentation = some [];
  profile = none;
  app = none;
  command = some (codes "x \"y\"");
  socket = none;
  container_socket = none;
  waypipe_path = none;
  waypipe_compress = none;
  waypipe_threads = some 12;
  audio = audio;
  runtime_args = codes "-e" ∷ codes "z" ∷ [];
  mounts = [];
  env = [];
}

-- The first session of the configuration has been edited.
abbrev configured : List ContainerSession
configured = session_with false ∷ session_with true ∷ []

resolved : resolve (capture (session_with true)) configured ≡ some (session_with true)
unfolding resolve capture sessions.session_to_toml sessions.slots sessions.present
    sessions.toml_lines sessions.toml_line sessions.print_value sessions.saved_id
    sessions.nonempty_text sessions.nonempty_list sessions.threads_value sessions.audio_value
    sessions.decimal quoting.toml_string_list quoting.toml_rest toml_quoted quoting.toml_escape
    quoting.flat_map quoting.toml_escaped is_saved display display_bytes hex_digit
resolved = refl

resolve-capture_example :
    IsIn (session_with true) configured × Agrees (session_with true) (session_with true)
resolve-capture_example =
    resolve-capture (session_with true) (session_with true) configured resolved
