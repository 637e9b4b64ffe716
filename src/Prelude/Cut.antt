-- ===== src/Prelude/Cut.antt =====
-- strings.Cut at a separator that is one character, and the first piece of a text.
use kswitch.Prelude.Tests.{Text, nat_eq, if◌then◌else◌, Bool-cases}
use kswitch.Prelude.Lists.{All, any_of}
use kswitch.Prelude.Split.{before_first}
use Prim.Native.Nat.{ℕ}
use mathlib.Core.Path.{◌≡◌, refl}
use mathlib.Core.Logic.{inl, inr}
use mathlib.Core.Bool.{true, false}
use mathlib.Core.Option.{Option, none, some}
use mathlib.Core.List.{List, [], ◌∷◌, ◌++◌}
use native.Mathlib.Omega.{arith}

abbrev behind : ℕ → Option (Text × Text) → Option (Text × Text)
behind c none = none
behind c (some (before, after)) = some (c ∷ before, after)

-- The text before the first `sep` and the text after it; `none` if there is none.
unfoldable pub cut : ℕ → Text → Option (Text × Text)
cut sep [] = none
cut sep (c ∷ s) = let rest = cut sep s in if nat_eq c sep then some ([], s) else behind c rest

-- No character of the text is `c`.
abbrev pub Lacks : ℕ → Text → Type 0
Lacks c = All (λ d. nat_eq d c ≡ false)

-- The same, by a test that can be run.
pub Lacks-of_test : (c : ℕ) (s : Text) → any_of (λ d. nat_eq d c) s ≡ false → Lacks c s
Lacks-of_test c [] h = tt
Lacks-of_test c (d ∷ s) h = elim (Bool-cases (nat_eq d c)) [
  | inl same ↦ let h' : true ≡ false = rw same at h in absurd (cc)
  | inr differs ↦
      let h' : any_of (λ e. nat_eq e c) s ≡ false = rw differs at h in
      (differs, Lacks-of_test c s h')
]

same_char : (a b : ℕ) → nat_eq a b ≡ true → a ≡ b
same_char a b h = ground arith

nat_eq_refl : (a : ℕ) → nat_eq a a ≡ true
nat_eq_refl a = ground arith

pub cut-append :
    (sep : ℕ) (before after : Text)
    → Lacks sep before
    → cut sep (before ++ sep ∷ after) ≡ some (before, after)
unfolding cut
cut-append sep [] after h = rw (nat_eq_refl sep)
cut-append sep (c ∷ before) after (other, h) = rw (other, cut-append sep before after h)

pub cut-none : (sep : ℕ) (s : Text) → Lacks sep s → cut sep s ≡ none
unfolding cut
cut-none sep [] h = refl
cut-none sep (c ∷ s) (other, h) = rw (other, cut-none sep s h)

behind-some :
    (c : ℕ) (r : Option (Text × Text)) (before after : Text)
    → behind c r ≡ some (before, after)
    → (rest : Text) × (r ≡ some (rest, after)) × (before ≡ c ∷ rest)
behind-some c none before after h = absurd (cc)
behind-some c (some (b, a)) before after h = (b, ground arith, ground arith)

cut_here :
    (sep c : ℕ) (s before after : Text)
    → c ≡ sep
    → ◌≡◌ {A = Option (Text × Text)} (some ([], s)) (some (before, after))
    → (c ∷ s ≡ before ++ sep ∷ after) × Lacks sep before
cut_here sep c s [] after e h = (ground arith, tt)
cut_here sep c s (b ∷ before) after e h = absurd (ground arith)

cut_later :
    (sep c : ℕ) (s before after rest : Text)
    → before ≡ c ∷ rest
    → s ≡ rest ++ sep ∷ after
    → nat_eq c sep ≡ false
    → Lacks sep rest
    → (c ∷ s ≡ before ++ sep ∷ after) × Lacks sep before
cut_later sep c s before after rest e shape other lacks = rw (e, shape) (refl, (other, lacks))

-- What was cut off is the text up to the first separator.
pub cut-some :
    (sep : ℕ) (s before after : Text)
    → cut sep s ≡ some (before, after)
    → (s ≡ before ++ sep ∷ after) × Lacks sep before
unfolding cut
cut-some sep [] before after h = absurd (cc)
cut-some sep (c ∷ s) before after h = elim (Bool-cases (nat_eq c sep)) [
  | inl here ↦
      let h' : ◌≡◌ {A = Option (Text × Text)} (some ([], s)) (some (before, after)) =
        rw here at h in
      cut_here sep c s before after (same_char c sep here) h'
  | inr other ↦
      let h' : behind c (cut sep s) ≡ some (before, after) = rw other at h in
      let (rest, found, e) = behind-some c (cut sep s) before after h' in
      let (shape, lacks) = cut-some sep s rest after found in
      cut_later sep c s before after rest e shape other lacks
]

-- strings.Split at such a separator.
unfoldable pub split_at : ℕ → Text → List Text
split_at sep [] = [] ∷ []
split_at sep (c ∷ s) =
    let rest = split_at sep s in if nat_eq c sep then [] ∷ rest else before_first c rest

pub split_at-append :
    (sep : ℕ) (piece rest : Text)
    → Lacks sep piece
    → split_at sep (piece ++ sep ∷ rest) ≡ piece ∷ split_at sep rest
unfolding split_at
split_at-append sep [] rest h = rw (nat_eq_refl sep)
split_at-append sep (c ∷ piece) rest (differs, h) = rw (differs, split_at-append sep piece rest h)
