-- ===== src/History/Tests.antt =====
-- The history theorems on a file of one line.
use kswitch.Prelude.{Text, text, ◌==◌, ◌≡◌, refl, some, List, [], ◌∷◌, All, arith}
use kswitch.Prelude.Split.{split_double}
use kswitch.Prelude.Go.{ok, err}
use kswitch.History.{
  unrecognized_format, entry_line, append_to_history, read_history, last_target, previous_target,
  parse_history_entry,
}
use kswitch.History.Lines.{IsLine, written, remember}
use kswitch.History.Recall.{IsEntry, read_history-append_to_history, previous_target_lem}

abbrev before : List Text
before = text "a:: b" ∷ []

before-IsLine : All IsLine before
before-IsLine = ((refl, (refl, (refl, (refl, (refl, tt))))), tt)

dev-IsEntry : IsEntry (text "d:v") (text "x")
dev-IsEntry = record {
  is_line = (refl, (refl, (refl, (refl, (refl, (refl, (refl, tt)))))));
  is_unambiguous = (refl, (refl, refl));
  is_plain = ((refl, refl), tt);
}

prod-IsEntry : IsEntry (text "p") (text "y")
prod-IsEntry = record {
  is_line = (refl, (refl, (refl, (refl, (refl, tt)))));
  is_unambiguous = refl;
  is_plain = ((refl, refl), tt);
}

read_history-append_to_history_example :
    read_history (append_to_history (text "d:v") (text "x") (written before))
    ≡ remember (text "d:v:: x") before
read_history-append_to_history_example =
    read_history-append_to_history (text "d:v") (text "x") before dev-IsEntry.is_line before-IsLine

previous_target_lem_example :
    (last_target (
        read_history (
          append_to_history
            (text "p")
            (text "y")
            (append_to_history (text "d:v") (text "x") (written before))))
      ≡ ok (some (text "p", some (text "y"))))
    × (previous_target (
          read_history (
            append_to_history
              (text "p")
              (text "y")
              (append_to_history (text "d:v") (text "x") (written before))))
        ≡ ok (some (text "d:v", some (text "x"))))
unfolding ◌==◌
previous_target_lem_example =
    previous_target_lem (text "d:v") (text "x") (text "p") (text "y") before before-IsLine
      dev-IsEntry prod-IsEntry (λ e. ground arith)

-- A colon at the end of a context is taken for the start of the separator.
trailing_colon :
    parse_history_entry (entry_line (text "a:") (text "b")) ≡ ok (text "a", some (text ":b"))
unfolding parse_history_entry split_double
trailing_colon = refl

two_colons : parse_history_entry (entry_line (text "a::b") (text "c")) ≡ err unrecognized_format
unfolding parse_history_entry split_double
two_colons = refl
