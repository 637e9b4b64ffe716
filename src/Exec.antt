-- ===== src/Exec.antt =====
-- pkg/subcommands/exec/exec.go: the command line that is handed to a shell.
pub mod Words
pub mod Tests
use kswitch.Prelude.{ℕ, Text, text, if◌then◌else◌, nat_eq, List, [], ◌∷◌, ◌++◌}

abbrev pub quote : ℕ
quote = b'\''

abbrev pub backslash : ℕ
backslash = b'\\'

abbrev pub space : ℕ
space = b' '

-- strings.ReplaceAll of a quote: the quote is closed, escaped and opened again.
unfoldable pub escape_quotes : Text → Text
escape_quotes [] = []
escape_quotes (c ∷ s) =
    (if nat_eq c quote then quote ∷ backslash ∷ quote ∷ quote ∷ [] else c ∷ []) ++ escape_quotes s

unfoldable pub shell_quote : Text → Text
shell_quote s = quote ∷ (escape_quotes s ++ quote ∷ [])

-- strings.Join of the quoted words with a space.
unfoldable pub join_quoted : List Text → Text
join_quoted [] = []
join_quoted (s ∷ []) = shell_quote s
join_quoted (s ∷ t ∷ words) = shell_quote s ++ space ∷ join_quoted (t ∷ words)

unfoldable pub shell_command : List Text → Text
shell_command [] = []
shell_command (s ∷ []) = s
shell_command (s ∷ t ∷ words) = join_quoted (s ∷ t ∷ words)
