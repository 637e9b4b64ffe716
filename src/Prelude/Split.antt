-- ===== src/Prelude/Split.antt =====
-- strings.Split at a separator that is one character twice, and what it does to pieces joined by it.
use kswitch.Prelude.Tests.{Text, nat_eq, if◌then◌else◌, Bool-cases}
use Prim.Native.Nat.{ℕ}
use mathlib.Core.Path.{◌≡◌, refl, ap, sym}
use mathlib.Core.Logic.{inl, inr}
use mathlib.Core.Bool.{Bool, true, false, not, ◌&&◌}
use mathlib.Core.List.{List, [], ◌∷◌, ◌++◌}
use native.Mathlib.Omega.{arith}

abbrev pub before_first : ℕ → List Text → List Text
before_first c [] = (c ∷ []) ∷ []
before_first c (line ∷ lines) = (c ∷ line) ∷ lines

push_if : Bool → ℕ → List Text → List Text
push_if false c pieces = pieces
push_if true c pieces = before_first c pieces

-- `held` says that the character before `s` is one `sep` that is not yet part of a separator.
unfoldable pub split_double : ℕ → Bool → Text → List Text
unfolding push_if
split_double sep held [] = push_if held sep ([] ∷ [])
split_double sep held (c ∷ s) =
    let half = nat_eq c sep in
    let rest = split_double sep (half && not held) s in
    if half then if held then [] ∷ rest else rest else push_if held sep (before_first c rest)

-- The separator does not occur, and its character does not stand at the end.
abbrev pub IsUnambiguous : ℕ → Text → Type 0
IsUnambiguous sep [] = Unit
IsUnambiguous sep (c ∷ []) = nat_eq c sep ≡ false
IsUnambiguous sep (c ∷ d ∷ s) = (nat_eq c sep && nat_eq d sep ≡ false) × IsUnambiguous sep (d ∷ s)

tail-IsUnambiguous : (sep c : ℕ) (s : Text) → IsUnambiguous sep (c ∷ s) → IsUnambiguous sep s
tail-IsUnambiguous sep c [] h = tt
tail-IsUnambiguous sep c (d ∷ s) h = h.1

same_char : (a b : ℕ) → nat_eq a b ≡ true → a ≡ b
same_char a b h = ground arith

nat_eq_refl : (a : ℕ) → nat_eq a a ≡ true
nat_eq_refl a = ground arith

-- A piece, the separator, and more.
pub split_double-piece :
    (sep : ℕ) (piece rest : Text)
    → IsUnambiguous sep piece
    → split_double sep false (piece ++ sep ∷ sep ∷ rest) ≡ piece ∷ split_double sep false rest
unfolding split_double
split_double-piece sep [] rest h = rw (nat_eq_refl sep)
split_double-piece sep (c ∷ []) rest h = rw (h, nat_eq_refl sep)
split_double-piece sep (c ∷ d ∷ s) rest (apart, h) =
    let two = split_double-piece sep (d ∷ s) rest h in
    let one = split_double-piece sep s rest (tail-IsUnambiguous sep d s h) in
    elim (Bool-cases (nat_eq c sep)) [
      | inl half ↦
          let next : nat_eq d sep ≡ false = ground arith in
          rw (half, next, one)
            (ap (λ x. (x ∷ d ∷ s) ∷ split_double sep false rest) (sym (same_char c sep half)))
      | inr other ↦ rw (other, two)
    ]

-- The last piece.
pub split_double-last :
    (sep : ℕ) (piece : Text) → IsUnambiguous sep piece → split_double sep false piece ≡ piece ∷ []
unfolding split_double
split_double-last sep [] h = refl
split_double-last sep (c ∷ []) h = rw h
split_double-last sep (c ∷ d ∷ s) (apart, h) =
    let two = split_double-last sep (d ∷ s) h in
    let one = split_double-last sep s (tail-IsUnambiguous sep d s h) in
    elim (Bool-cases (nat_eq c sep)) [
      | inl half ↦
          let next : nat_eq d sep ≡ false = ground arith in
          rw (half, next, one) (ap (λ x. (x ∷ d ∷ s) ∷ []) (sym (same_char c sep half)))
      | inr other ↦ rw (other, two)
    ]
