-- ===== src/Exec/Tests.antt =====
-- The command line for words with a quote, a space and nothing.
use kswitch.Prelude.{text, ◌≡◌, refl, none, some, [], ◌∷◌}
use kswitch.Exec.{escape_quotes, shell_quote, join_quoted, shell_command}
use kswitch.Exec.Words.{shell_words, shell_words-shell_command}

quoted : shell_command (text "echo" ∷ text "it's" ∷ []) ≡ text "'echo' 'it'\\''s'"
unfolding shell_command join_quoted shell_quote escape_quotes
quoted = refl

-- A word alone is a script.
script : shell_words (shell_command (text "ls -l" ∷ [])) ≡ some (text "ls" ∷ text "-l" ∷ [])
unfolding shell_words shell_command
script = refl

pipe : shell_words (shell_command (text "ls | wc" ∷ [])) ≡ none
unfolding shell_words shell_command
pipe = refl

shell_words-shell_command_example :
    shell_words (shell_command (text "echo" ∷ text "it's; $x" ∷ [] ∷ []))
    ≡ some (text "echo" ∷ text "it's; $x" ∷ [] ∷ [])
shell_words-shell_command_example =
    shell_words-shell_command (text "echo") (text "it's; $x") ([] ∷ [])
