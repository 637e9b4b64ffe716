-- ===== src/Tui/Fuzzy/Positions.antt =====
-- `improveMatchPositions`: where the highlighted characters stand.
use kswitch.Prelude.{
  ℕ, zero, suc, ◌+◌, ◌-◌, ◌<◌, Text, ◌≡◌, refl, ap, ◌∙◌, ◌⊎◌, Option-cases, true, Bool-cases, inl,
  inr, if◌then◌else◌, leb, none, some, List, [], ◌∷◌, ◌++◌, map, length, All, arith,
}
use mathlib.Core.Path.{subst}
use kswitch.Prelude.Go.{ok, panic, ◌>>=◌}
use kswitch.Prelude.Strings.{has_prefix}
use kswitch.Tui.Item.{Env}
use kswitch.Tui.Fuzzy.{utf8_len, index_from, rune_count, improve_match_positions, positions}

-- The number of bytes of a text.
abbrev pub bytes : Text → ℕ
bytes [] = 0
bytes (c ∷ s) = utf8_len c + bytes s

utf8_len_pos : (c : ℕ) → 0 < utf8_len c
utf8_len_pos c = ground arith

-- A slice past the end of the text panics.
pub rune_count_past : (n : ℕ) (s : Text) → bytes s < n → rune_count n s ≡ panic
unfolding rune_count
rune_count_past zero s h = elim h [ ]
rune_count_past (suc n) [] h = refl
rune_count_past (suc n) (c ∷ s) h = ground (arith, rune_count_past (suc n - utf8_len c) s)

rune_count_step :
    (n : ℕ) (c : ℕ) (s : Text)
    → 0 < n
    → rune_count n (c ∷ s)
      ≡ (if leb (utf8_len c) n then (rune_count (n - utf8_len c) s >>= λ k. ok (suc k)) else ok n)
unfolding rune_count
rune_count_step zero c s h = elim h [ ]
rune_count_step (suc n) c s h = refl

skip_width : (w n : ℕ) → w + n - w ≡ n
skip_width w n = omega arith

-- A slice up to a character's start holds the characters before it.
pub rune_count_prefix : (p s : Text) → rune_count (bytes p) (p ++ s) ≡ ok (length p)
unfolding rune_count
rune_count_prefix [] s = ground arith
rune_count_prefix (c ∷ p) s =
    rune_count_step (utf8_len c + bytes p) c (p ++ s) (omega (arith, utf8_len_pos c))
    ∙ rw (skip_width (utf8_len c) (bytes p), rune_count_prefix p s) (ground arith)

-- The places where a text is found: the start is counted in bytes of the lowered text.
found_at :
    (env : Env) (at idx : ℕ) (sub target : Text)
    → index_from at sub (map env.lower target) ≡ some idx
    → (pre : Text) × (rest : Text) × (target ≡ pre ++ rest)
      × (idx ≡ at + bytes (map env.lower pre))
      × (has_prefix (map env.lower rest) sub ≡ true)
unfolding index_from
found_at env at idx sub [] h = ([], [], refl, ground arith, ground arith)
found_at env at idx sub (c ∷ target) h =
    elim (Bool-cases (has_prefix (map env.lower (c ∷ target)) sub)) [
      | inl hit ↦ ([], c ∷ target, refl, ground arith, hit)
      | inr miss ↦
          let (pre, rest, split, at_idx, starts) =
            found_at env (at + utf8_len (env.lower c)) idx sub target (ground arith) in
          (c ∷ pre, rest, ap (λ t. c ∷ t) split, omega (arith, at_idx), starts)
    ]

-- The characters of a text whose lower-case form takes as many bytes.
abbrev pub Steady : Env → Text → Type 0
Steady env = All (λ c. utf8_len (env.lower c) ≡ utf8_len c)

bytes-lower :
    (env : Env) (pre rest : Text) → Steady env (pre ++ rest) → bytes (map env.lower pre) ≡ bytes pre
bytes-lower env [] rest s = refl
bytes-lower env (c ∷ pre) rest (e, s) = omega (arith, bytes-lower env pre rest s)

-- Where lowering keeps the width of every character of the target, `improveMatchPositions` returns.
-- Either the query does not occur in the target, both in lower case, and the fuzzy positions are
-- returned; or the positions returned are as many as the query has characters, one after the
-- other, and begin where an occurrence of the query begins.
pub improve_match_positions_lem :
    (env : Env) (query target : Text) (fuzzy : List ℕ)
    → Steady env target
    → ((index_from 0 (map env.lower query) (map env.lower target) ≡ none)
        × (improve_match_positions env query target fuzzy ≡ ok fuzzy))
      ⊎ ((pre : Text) × (rest : Text) × (target ≡ pre ++ rest)
          × (has_prefix (map env.lower rest) (map env.lower query) ≡ true)
          × (improve_match_positions env query target fuzzy
              ≡ ok (positions (length pre) (length query))))
unfolding improve_match_positions
improve_match_positions_lem env query target fuzzy s =
    elim (Option-cases (index_from 0 (map env.lower query) (map env.lower target))) [
      | inl absent ↦ inl (absent, rw absent)
      | inr (idx, found) ↦
          let (pre, rest, split, at_idx, starts) =
            found_at env 0 idx (map env.lower query) target found in
          let same = bytes-lower env pre rest (subst (Steady env) split s) in
          let e : idx ≡ bytes pre = omega (arith, at_idx, same) in
          inr (pre, rest, split, starts, rw (found, e) (rw (split, rune_count_prefix pre rest)))
    ]

-- The offset is found in the lowered target and used in the target: where it lies past the end of
-- the target's bytes, `improveMatchPositions` panics.
pub improve_match_positions_panics :
    (env : Env) (query target : Text) (fuzzy : List ℕ) (idx : ℕ)
    → index_from 0 (map env.lower query) (map env.lower target) ≡ some idx
    → bytes target < idx
    → improve_match_positions env query target fuzzy ≡ panic
unfolding improve_match_positions
improve_match_positions_panics env query target fuzzy idx found past =
    rw (found, rune_count_past idx target past)
