-- ===== src/History/Lines.antt =====
-- The history file as a list of lines, the newest first.
use mathlib.Core.List.{reverse, reverse-cons, reverse-append, reverse-reverse, append_cancel_right}
use kswitch.Prelude.{
  ℕ, Text, ◌==◌, ==_iff, ==_refl, ==_false, ◌≡◌, ◌≢◌, refl, sym, ap, ◌∙◌, false, Bool-cases, inl,
  inr, if◌then◌else◌, List, [], ◌∷◌, ◌++◌, map, All, All-reverse, append-nil, append_assoc, arith,
}
use kswitch.History.{
  newline, is_line_end, entry_line, back_to_line_end, get_last_line_with_seek, append_to_history,
  lines_of, drop_cr, read_history,
}

-- A text that holds no end of a line.
abbrev pub IsLine : Text → Type 0
IsLine = All (λ c. is_line_end c ≡ false)

-- The file that holds the lines.
abbrev pub written : List Text → Text
written [] = []
written (line ∷ older) = written older ++ (line ++ newline ∷ [])

pub lines_of-line :
    (line s : Text) → IsLine line → lines_of (line ++ newline ∷ s) ≡ line ∷ lines_of s
unfolding lines_of
lines_of-line [] s h = refl
lines_of-line (c ∷ line) s (not_end, h) = ground (arith, lines_of-line line s h)

lines_of-written :
    (history : List Text) (s : Text)
    → All IsLine history
    → lines_of (written history ++ s) ≡ reverse history ++ lines_of s
lines_of-written [] s h = refl
lines_of-written (line ∷ older) s (here, h) =
    ap lines_of (
      append_assoc (written older) (line ++ newline ∷ []) s
      ∙ ap (λ t. written older ++ t) (append_assoc line (newline ∷ []) s))
    ∙ lines_of-written older (line ++ newline ∷ s) h
    ∙ ap (λ t. reverse older ++ t) (lines_of-line line s here)
    ∙ sym (append_assoc (reverse older) (line ∷ []) (lines_of s))
    ∙ ap (λ t. t ++ lines_of s) (sym (reverse-cons line older))

drop_cr-line : (line : Text) → IsLine line → drop_cr line ≡ line
unfolding drop_cr
drop_cr-line [] h = refl
drop_cr-line (c ∷ []) (not_end, h) = ground arith
drop_cr-line (c ∷ d ∷ s) (not_end, h) = ap (λ t. c ∷ t) (drop_cr-line (d ∷ s) h)

pub map-drop_cr : (lines : List Text) → All IsLine lines → map drop_cr lines ≡ lines
map-drop_cr [] h = refl
map-drop_cr (line ∷ lines) (here, h) = rw (drop_cr-line line here, map-drop_cr lines h)

lines_of-whole :
    (history : List Text) → All IsLine history → lines_of (written history) ≡ reverse history
unfolding lines_of
lines_of-whole history h =
    ap lines_of (sym (append-nil (written history)))
    ∙ lines_of-written history [] h
    ∙ append-nil (reverse history)

-- `ReadHistory` gives the lines of the file, the newest first.
pub read_history-written :
    (history : List Text) → All IsLine history → read_history (written history) ≡ history
unfolding read_history
read_history-written history h =
    ap (λ t. reverse (map drop_cr t)) (lines_of-whole history h)
    ∙ ap reverse (map-drop_cr (reverse history) (All-reverse _ history h))
    ∙ reverse-reverse history

-- The end of a file that stops at the start of a line.
record IsAtLineStart (before : Text) : Type 0 where
  stops : back_to_line_end before ≡ []

written-IsAtLineStart : (history : List Text) → IsAtLineStart (reverse (written history))
unfolding back_to_line_end
written-IsAtLineStart [] = record { stops = refl }
written-IsAtLineStart (line ∷ older) = record {
  stops =
      rw (reverse-append (written older) (line ++ newline ∷ []), reverse-append line (newline ∷ []))
        (refl);
}

back_to_line_end-line :
    (line before : Text)
    → IsLine line
    → IsAtLineStart before
    → back_to_line_end (line ++ before) ≡ reverse line
unfolding back_to_line_end
back_to_line_end-line [] before h s = s.stops
back_to_line_end-line (c ∷ line) before (not_end, h) s =
    rw (not_end, back_to_line_end-line line before h s) (sym (reverse-cons c line))

last_line-written :
    (line : Text) (older : List Text)
    → IsLine line
    → get_last_line_with_seek (written (line ∷ older)) ≡ line ++ newline ∷ []
unfolding get_last_line_with_seek
last_line-written line older h =
    rw (reverse-append (written older) (line ++ newline ∷ []), reverse-append line (newline ∷ []))
      (ap (λ t. t ++ newline ∷ [])
        (back_to_line_end-line (reverse line) (reverse (written older)) (All-reverse _ line h)
            (written-IsAtLineStart older)
          ∙ reverse-reverse line))

-- What the history holds after a line is recorded.
abbrev pub remember : Text → List Text → List Text
remember line [] = line ∷ []
remember line (last ∷ older) = if line == last then last ∷ older else line ∷ last ∷ older

same_end : (s t : Text) (e : ℕ) → (s ++ e ∷ [] == t ++ e ∷ []) ≡ (s == t)
same_end s t e = elim (Bool-cases (s == t)) [
  | inl same ↦ rw ((==_iff s t).0 same, ==_refl t) (==_refl (t ++ e ∷ []))
  | inr other ↦
      let differ : s ≢ t = λ h. ground (arith, ==_iff s t) in
      ==_false (λ h. differ (append_cancel_right s t (e ∷ []) h)) ∙ sym other
]

not_empty : (s : Text) (e : ℕ) → (s ++ e ∷ [] == []) ≡ false
unfolding ◌==◌
not_empty [] e = refl
not_empty (c ∷ s) e = refl

pub append_to_history-written :
    (context namespace : Text) (history : List Text)
    → All IsLine history
    → append_to_history context namespace (written history)
      ≡ written (remember (entry_line context namespace) history)
unfolding append_to_history
append_to_history-written context namespace [] h =
    unfold get_last_line_with_seek in rw (not_empty (entry_line context namespace) newline)
append_to_history-written context namespace (last ∷ older) (here, h) =
    rw (last_line-written last older here, same_end (entry_line context namespace) last newline)
      (elim (Bool-cases (entry_line context namespace == last)) [
        | inl same ↦ rw same
        | inr other ↦ rw other
      ])
