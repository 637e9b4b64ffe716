-- ===== src/Exec/Words.antt =====
-- The words that a POSIX shell reads in the command line.
use kswitch.Prelude.{
  ℕ, Text, text, ◌≡◌, refl, sym, ap, ◌∙◌, Bool, Bool-cases, inl, inr, if◌then◌else◌, nat_eq, any_of,
  Option, none, some, List, [], ◌∷◌, ◌++◌, append_assoc, append-nil, arith,
}
use kswitch.Exec.{quote, backslash, space, escape_quotes, shell_quote, join_quoted, shell_command}

-- Where the reader stands: between words, or in a word of which it has read the text, outside quotes,
-- inside single quotes, or after a backslash.
pub data Reading : Type 0 where
  between : Reading
  plain quoted escaped : Text → Reading

-- With the words read; `bad` is after a character that means more to the shell than itself.
pub data Reader : Type 0 where
  reading : List Text → Reading → Reader
  bad : Reader

-- The characters that a word must quote (POSIX, Shell Command Language, 2.2), but for the space, the
-- backslash and the single quote.
abbrev is_special : ℕ → Bool
is_special c = any_of (nat_eq c) (text "|&;<>()$`\"\t\n*?[#~=%")

outside : ℕ → List Text → Text → Reader
outside c words word =
    if nat_eq c quote
    then reading words (quoted word)
    else if nat_eq c backslash
    then reading words (escaped word)
    else if is_special c
    then bad
    else reading words (plain (word ++ c ∷ []))

read_char : ℕ → Reader → Reader
unfolding outside
read_char c bad = bad
read_char c (reading words between) =
    if nat_eq c space then reading words between else outside c words []
read_char c (reading words (plain word)) =
    if nat_eq c space then reading (words ++ word ∷ []) between else outside c words word
read_char c (reading words (quoted word)) =
    if nat_eq c quote then reading words (plain word) else reading words (quoted (word ++ c ∷ []))
read_char c (reading words (escaped word)) = reading words (plain (word ++ c ∷ []))

read_chars : Text → Reader → Reader
read_chars [] r = r
read_chars (c ∷ s) r = read_chars s (read_char c r)

finish : Reader → Option (List Text)
finish bad = none
finish (reading words between) = some words
finish (reading words (plain word)) = some (words ++ word ∷ [])
finish (reading words (quoted word)) = none
finish (reading words (escaped word)) = none

unfoldable pub shell_words : Text → Option (List Text)
unfolding finish read_chars read_char
shell_words s = finish (read_chars s (reading [] between))

read_chars-append :
    (s t : Text) (r : Reader) → read_chars (s ++ t) r ≡ read_chars t (read_chars s r)
unfolding read_chars
read_chars-append [] t r = refl
read_chars-append (c ∷ s) t r = read_chars-append s t (read_char c r)

read_chars-escape_quotes :
    (s : Text) (words : List Text) (word : Text)
    → read_chars (escape_quotes s) (reading words (quoted word))
      ≡ reading words (quoted (word ++ s))
unfolding read_chars read_char escape_quotes outside
read_chars-escape_quotes [] words word = ap (λ w. reading words (quoted w)) (sym (append-nil word))
read_chars-escape_quotes (c ∷ s) words word =
    let later =
      read_chars-escape_quotes s words (word ++ c ∷ [])
      ∙ ap (λ w. reading words (quoted w)) (append_assoc word (c ∷ []) s) in
    elim (Bool-cases (nat_eq c quote)) [
      | inl same ↦ rw same (
          let e : c ≡ quote = ground (arith, same) in
          ap (λ d. read_chars (escape_quotes s) (reading words (quoted (word ++ d ∷ [])))) (sym e)
          ∙ later)
      | inr other ↦ rw (other, other) later
    ]

read_chars-shell_quote :
    (s : Text) (words : List Text)
    → read_chars (shell_quote s) (reading words between) ≡ reading words (plain s)
unfolding shell_quote read_chars read_char outside
read_chars-shell_quote s words =
    read_chars-append (escape_quotes s) (quote ∷ []) (reading words (quoted []))
    ∙ rw (read_chars-escape_quotes s words [])

after_space :
    (s : Text) (words : List Text) (word : Text)
    → read_chars (space ∷ s) (reading words (plain word))
      ≡ read_chars s (reading (words ++ word ∷ []) between)
unfolding read_chars read_char
after_space s words word = refl

read_chars-join_quoted :
    (s : Text) (rest words : List Text)
    → finish (read_chars (join_quoted (s ∷ rest)) (reading words between))
      ≡ some (words ++ s ∷ rest)
unfolding join_quoted finish
read_chars-join_quoted s [] words = rw (read_chars-shell_quote s words)
read_chars-join_quoted s (t ∷ rest) words =
    ap finish
      (read_chars-append (shell_quote s) (space ∷ join_quoted (t ∷ rest)) (reading words between))
    ∙ rw (read_chars-shell_quote s words, after_space (join_quoted (t ∷ rest)) words s)
        (read_chars-join_quoted t rest (words ++ s ∷ [])
          ∙ ap some (append_assoc words (s ∷ []) (t ∷ rest)))

-- For every command of two words or more: a POSIX shell that is handed the command line which
-- shellCommand makes of it reads exactly these words.
pub shell_words-shell_command :
    (first second : Text) (rest : List Text)
    → shell_words (shell_command (first ∷ second ∷ rest)) ≡ some (first ∷ second ∷ rest)
unfolding shell_words shell_command
shell_words-shell_command first second rest = read_chars-join_quoted first (second ∷ rest) []
