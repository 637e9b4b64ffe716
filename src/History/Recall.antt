-- ===== src/History/Recall.antt =====
-- The history file as the list of what was recorded, and what the commands that go back take from it.
use kswitch.Prelude.{
  Text, ◌==◌, ==_false, ==_iff, sym, ◌≡◌, ◌≢◌, refl, ap, ◌∙◌, Bool-cases, inl, inr, some, List, [],
  ◌∷◌, All,
}
use kswitch.Prelude.Split.{IsUnambiguous}
use kswitch.Prelude.Go.{ok}
use kswitch.History.{entry_line, append_to_history, read_history, last_target, previous_target}
use kswitch.History.Lines.{
  IsLine, written, remember, read_history-written, append_to_history-written,
}
use kswitch.History.Entries.{IsPlain, parse_history_entry-entry_line}

remember-IsLine :
    (line : Text) (history : List Text)
    → IsLine line
    → All IsLine history
    → All IsLine (remember line history)
remember-IsLine line [] l h = (l, tt)
remember-IsLine line (last ∷ older) l h = elim (Bool-cases (line == last)) [
  | inl same ↦ rw same h
  | inr other ↦ rw other (l, h)
]

-- `AppendToHistory`, and then `ReadHistory`: on a file that holds lines, each with its end, the
-- lines are read with the newest first, and the recorded entry was added to them in front, unless
-- the newest line was that entry already.
pub read_history-append_to_history :
    (context namespace : Text) (history : List Text)
    → IsLine (entry_line context namespace)
    → All IsLine history
    → read_history (append_to_history context namespace (written history))
      ≡ remember (entry_line context namespace) history
read_history-append_to_history context namespace history l h =
    ap read_history (append_to_history-written context namespace history h)
    ∙ read_history-written (remember (entry_line context namespace) history)
        (remember-IsLine (entry_line context namespace) history l h)

-- What an entry needs to be read back.
pub record IsEntry (context namespace : Text) : Type 0 where
  pub is_line : IsLine (entry_line context namespace)
  pub is_unambiguous : IsUnambiguous b':' context
  pub is_plain : IsPlain namespace

newest :
    (line : Text) (history : List Text)
    → (older : List Text) × (remember line history ≡ line ∷ older)
newest line [] = ([], refl)
newest line (last ∷ older) = elim (Bool-cases (line == last)) [
  | inl same ↦ (older, rw same (ap (λ t. t ∷ older) (sym ((==_iff line last).0 same))))
  | inr other ↦ (last ∷ older, rw other)
]

recorded_twice :
    (first second : Text) (history : List Text)
    → second ≢ first
    → (older : List Text) × (remember second (remember first history) ≡ second ∷ first ∷ older)
recorded_twice first second history differ =
    let (older, e) = newest first history in (older, rw (e, ==_false differ))

-- After two different entries were recorded, `SetLastContext` switches to the context and the
-- namespace of the second, and `SetPreviousContext` to those of the first, whatever lines the file
-- held before. Neither entry holds an end of a line, no context two colons in a row or one at its
-- end, and no namespace a colon or a space.
pub previous_target_lem :
    (context namespace context' namespace' : Text) (history : List Text)
    → All IsLine history
    → IsEntry context namespace
    → IsEntry context' namespace'
    → entry_line context' namespace' ≢ entry_line context namespace
    → (last_target (
          read_history (
            append_to_history context' namespace'
              (append_to_history context namespace (written history))))
        ≡ ok (some (context', some namespace')))
      × (previous_target (
            read_history (
              append_to_history context' namespace'
                (append_to_history context namespace (written history))))
          ≡ ok (some (context, some namespace)))
unfolding last_target previous_target
previous_target_lem context namespace context' namespace' history h e e' differ =
    let line = entry_line context namespace in
    let line' = entry_line context' namespace' in
    let (older, recorded) = recorded_twice line line' history differ in
    let reads =
      ap (λ f. read_history (append_to_history context' namespace' f))
        (append_to_history-written context namespace history h)
      ∙ read_history-append_to_history context' namespace' (remember line history) e'.is_line
          (remember-IsLine line history e.is_line h)
      ∙ recorded in
    (
      rw (reads, parse_history_entry-entry_line context' namespace' e'.is_unambiguous e'.is_plain),
      rw (reads, parse_history_entry-entry_line context namespace e.is_unambiguous e.is_plain),
    )
