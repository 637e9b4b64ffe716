-- ===== src/Prelude/Strings.antt =====
-- The functions of Go's `strings` package that the source calls, on texts.
use mathlib.Core.Path.{◌≡◌, refl}
use mathlib.Core.Bool.{Bool, true, false, ◌||◌}
use mathlib.Core.List.{[], ◌∷◌, ◌++◌, reverse, reverse-append}
use mathlib.Core.Option.{Option, none, some}
use native.Mathlib.Omega.{arith}
use Prim.Native.Nat.{ℕ}
use mathlib.Core.Logic.{inl, inr}
use kswitch.Prelude.Tests.{Text, nat_eq, if◌then◌else◌, Bool-cases}

-- The rest of the text behind a prefix.
unfoldable pub strip_prefix : Text → Text → Option Text
strip_prefix [] s = some s
strip_prefix (p ∷ ps) [] = none
strip_prefix (p ∷ ps) (c ∷ s) = if nat_eq p c then strip_prefix ps s else none

abbrev is_some {ℓ} : {A : Type ℓ} → Option A → Bool
is_some none = false
is_some (some a) = true

-- strings.HasPrefix(s, p)
unfoldable pub has_prefix : Text → Text → Bool
unfolding strip_prefix
has_prefix s p = is_some (strip_prefix p s)

or_whole : Text → Option Text → Text
or_whole s none = s
or_whole s (some rest) = rest

-- strings.TrimPrefix(s, p)
unfoldable pub trim_prefix : Text → Text → Text
unfolding strip_prefix or_whole
trim_prefix s p = or_whole s (strip_prefix p s)

-- strings.HasSuffix(s, p)
unfoldable pub has_suffix : Text → Text → Bool
unfolding has_prefix
has_suffix s p = has_prefix (reverse s) (reverse p)

pub strip_prefix-append : (p s : Text) → strip_prefix p (p ++ s) ≡ some s
unfolding strip_prefix
strip_prefix-append [] s = refl
strip_prefix-append (c ∷ p) s = ground (arith, strip_prefix-append p s)

same_char : (a b : ℕ) → nat_eq a b ≡ true → a ≡ b
same_char a b h = ground arith

-- What is behind a prefix makes the text with it.
pub strip_prefix-some : (p s rest : Text) → strip_prefix p s ≡ some rest → s ≡ p ++ rest
unfolding strip_prefix
strip_prefix-some [] s rest h = cc
strip_prefix-some (c ∷ p) [] rest h = absurd (cc)
strip_prefix-some (c ∷ p) (d ∷ s) rest h = elim (Bool-cases (nat_eq c d)) [
  | inl same ↦
      let h' : strip_prefix p s ≡ some rest = rw same at h in
      rw (strip_prefix-some p s rest h', same_char c d same)
  | inr other ↦ let h' : none ≡ some rest = rw other at h in absurd (cc)
]

pub has_prefix-append : (p s : Text) → has_prefix (p ++ s) p ≡ true
unfolding has_prefix
has_prefix-append p s = rw (strip_prefix-append p s)

pub has_suffix-append : (s p : Text) → has_suffix (s ++ p) p ≡ true
unfolding has_suffix
has_suffix-append s p = rw (reverse-append s p) (has_prefix-append (reverse p) (reverse s))

pub trim_prefix-append : (p s : Text) → trim_prefix (p ++ s) p ≡ s
unfolding trim_prefix
trim_prefix-append p s = unfold or_whole in ground (arith, strip_prefix-append p s)

-- strings.Contains(s, sub)
unfoldable pub contains : Text → Text → Bool
unfolding has_prefix
contains [] sub = has_prefix [] sub
contains (c ∷ s) sub = let later = contains s sub in has_prefix (c ∷ s) sub || later

or_true : (b : Bool) → (b || true) ≡ true
or_true true = refl
or_true false = refl

starts : (s sub : Text) → has_prefix s sub ≡ true → contains s sub ≡ true
unfolding contains
starts [] sub h = h
starts (c ∷ s) sub h = rw h

pub contains-append : (before sub after : Text) → contains (before ++ (sub ++ after)) sub ≡ true
unfolding contains
contains-append [] sub after = starts (sub ++ after) sub (has_prefix-append sub after)
contains-append (c ∷ before) sub after = rw (contains-append before sub after) (or_true _)
