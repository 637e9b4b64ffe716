-- ===== src/History.antt =====
-- pkg/subcommands/history/util/util.go, the history file, and the choice of an entry of it in
-- pkg/subcommands/history/history.go. A file is the text of its characters, and the seek from the
-- end one character at a time is a walk over the reversed text.
pub mod Lines
pub mod Entries
pub mod Recall
pub mod Tests
use mathlib.Core.List.{reverse}
use kswitch.Prelude.{
  ℕ, Text, text, ◌==◌, Bool, true, false, not, ◌&&◌, ◌||◌, if◌then◌else◌, nat_eq, Option, none,
  some, List, [], ◌∷◌, ◌++◌, map, keep_if,
}
use kswitch.Prelude.Split.{before_first, split_double}
use kswitch.Prelude.Go.{Go, ok, err, panic, hang, ◌>>=◌}

pub data Error : Type 0 where
  unrecognized_format : Error

abbrev pub newline : ℕ
newline = 10

abbrev pub carriage_return : ℕ
carriage_return = 13

abbrev pub is_line_end : ℕ → Bool
is_line_end c = nat_eq c newline || nat_eq c carriage_return

-- fmt.Sprintf("%s:: %s\n", context, namespace), and the line without its end.
abbrev pub entry_line : Text → Text → Text
entry_line context namespace = context ++ text ":: " ++ namespace

abbrev pub entry : Text → Text → Text
entry context namespace = entry_line context namespace ++ newline ∷ []

-- The characters of the last line that stand before `from`, given from the end backwards.
unfoldable pub back_to_line_end : Text → Text
back_to_line_end [] = []
back_to_line_end (c ∷ before) =
    let line = back_to_line_end before in if is_line_end c then [] else line ++ c ∷ []

last_line : Text → Text
last_line [] = []
last_line (c ∷ before) = back_to_line_end before ++ c ∷ []

-- The file's last character is taken whatever it is.
unfoldable pub get_last_line_with_seek : Text → Text
unfolding last_line
get_last_line_with_seek file = last_line (reverse file)

unfoldable pub append_to_history : Text → Text → Text → Text
append_to_history context namespace file =
    if entry context namespace == get_last_line_with_seek file
    then file
    else file ++ entry context namespace

-- The lines of a text; text behind the last newline is a line if there is any.
unfoldable pub lines_of : Text → List Text
lines_of [] = []
lines_of (c ∷ s) =
    let rest = lines_of s in if nat_eq c newline then [] ∷ rest else before_first c rest

-- What bufio.ScanLines gives of a line.
unfoldable pub drop_cr : Text → Text
drop_cr [] = []
drop_cr (c ∷ []) = if nat_eq c carriage_return then [] else c ∷ []
drop_cr (c ∷ d ∷ s) = c ∷ drop_cr (d ∷ s)

-- The newest line first. bufio.Scanner's limit on the length of a line (64 KiB) is left out.
unfoldable pub read_history : Text → List Text
read_history file = reverse (map drop_cr (lines_of file))

-- strings.Split(s, "::")
abbrev pub split_colons : Text → List Text
split_colons = split_double b':' false

parsed : List Text → Go Error (Text × Option Text)
parsed [] = err unrecognized_format
parsed (context ∷ []) = ok (context, none)
parsed (context ∷ namespace ∷ []) =
    ok (context, some (keep_if (λ c. not (nat_eq c b' ')) namespace))
parsed (a ∷ b ∷ c ∷ more) = err unrecognized_format

unfoldable pub parse_history_entry : Text → Go Error (Text × Option Text)
unfolding parsed
parse_history_entry line = parsed (split_colons line)

-- What `SetLastContext` and `SetPreviousContext` switch to: nothing, where the history is empty.
target : Option Text → Go Error (Option (Text × Option Text))
target none = ok none
target (some line) = parse_history_entry line >>= λ t. ok (some t)

unfoldable pub last_target : List Text → Go Error (Option (Text × Option Text))
unfolding target
last_target [] = target none
last_target (line ∷ history) = target (some line)

unfoldable pub previous_target : List Text → Go Error (Option (Text × Option Text))
unfolding target
previous_target [] = target none
previous_target (line ∷ []) = target (some line)
previous_target (line ∷ previous ∷ history) = target (some previous)
