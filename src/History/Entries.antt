-- ===== src/History/Entries.antt =====
-- An entry of the history is read back as it was written.
use kswitch.Prelude.{
  Text, text, ◌≡◌, refl, false, not, nat_eq, some, [], ◌∷◌, All, keep_if, append_assoc,
}
use kswitch.Prelude.Split.{IsUnambiguous, split_double, split_double-piece}
use kswitch.Prelude.Go.{ok}
use kswitch.History.{entry_line, parse_history_entry}

-- No colon and no space.
abbrev pub IsPlain : Text → Type 0
IsPlain = All (λ c. (nat_eq c b':' ≡ false) × (nat_eq c b' ' ≡ false))

split_colons-plain : (s : Text) → IsPlain s → split_double b':' false s ≡ s ∷ []
unfolding split_double
split_colons-plain [] h = refl
split_colons-plain (c ∷ s) (here, h) = rw (here.0, split_colons-plain s h)

keep_if-plain : (s : Text) → IsPlain s → keep_if (λ c. not (nat_eq c b' ')) s ≡ s
keep_if-plain [] h = refl
keep_if-plain (c ∷ s) (here, h) = rw (here.1, keep_if-plain s h)

-- `ParseHistoryEntry` gives back the context and the namespace of the line that `AppendToHistory`
-- writes, for a context in which no two colons stand in a row or one at the end, and a namespace
-- without colons and spaces.
pub parse_history_entry-entry_line :
    (context namespace : Text)
    → IsUnambiguous b':' context
    → IsPlain namespace
    → parse_history_entry (entry_line context namespace) ≡ ok (context, some namespace)
unfolding parse_history_entry split_double
parse_history_entry-entry_line context namespace c n = rw (
  append_assoc context (text ":: ") namespace,
  split_double-piece b':' context (b' ' ∷ namespace) c,
  split_colons-plain namespace n,
  keep_if-plain namespace n,
)
