-- ===== src/Tui/Fuzzy.antt =====
-- pkg/tui/fuzzy.go: `filterItems` and `improveMatchPositions`. Texts are lists of characters, so
-- that a byte offset is a sum of UTF-8 widths.
pub mod Positions
pub mod Laws
use kswitch.Prelude.{
  ℕ, zero, suc, ◌+◌, ◌-◌, Text, text, Bool, true, false, if◌then◌else◌, ltb, leb, Option, none,
  some, List, [], ◌∷◌, ◌++◌, map, length, get_elem?,
}
use kswitch.Prelude.Go.{Go, ok, err, panic, hang, ◌>>=◌}
use kswitch.Prelude.Strings.{has_prefix}
use kswitch.Tui.Item.{Item, Match, Env}

-- No call of the TUI's list code returns an error.
abbrev pub Run {ℓ} : Type ℓ → Type ℓ
Run A = Go (Unit {0}) A

-- The number of bytes of a character in UTF-8.
abbrev pub utf8_len : ℕ → ℕ
utf8_len c = if ltb c 128 then 1 else if ltb c 2048 then 2 else if ltb c 65536 then 3 else 4

-- strings.Index(s, sub), a byte offset, counted from `at`.
unfoldable pub index_from : ℕ → Text → Text → Option ℕ
index_from at sub [] = if has_prefix [] sub then some at else none
index_from at sub (c ∷ s) =
    let later = index_from (at + utf8_len c) sub s in
    if has_prefix (c ∷ s) sub then some at else later

-- len([]rune(target[:idx])). A slice past the end panics; the bytes of a character that the slice
-- cuts count one each.
unfoldable pub rune_count : ℕ → Text → Run ℕ
rune_count zero s = ok 0
rune_count (suc n) [] = panic
rune_count (suc n) (c ∷ s) =
    if leb (utf8_len c) (suc n)
    then (rune_count (suc n - utf8_len c) s >>= λ k. ok (suc k))
    else ok (suc n)

abbrev pub positions : ℕ → ℕ → List ℕ
positions from zero = []
positions from (suc n) = from ∷ positions (suc from) n

module _ (env : Env) where
  at_offset : Text → Text → List ℕ → Option ℕ → Run (List ℕ)
  at_offset query target fuzzy none = ok fuzzy
  at_offset query target fuzzy (some idx) =
      rune_count idx target >>= λ off. ok (positions off (length query))

  unfoldable pub improve_match_positions : Text → Text → List ℕ → Run (List ℕ)
  unfolding at_offset
  improve_match_positions query target fuzzy =
      at_offset query target fuzzy (index_from 0 (map env.lower query) (map env.lower target))

  -- The text that the query is matched against.
  abbrev pub search_name : Item → Text
  search_name it = elim it.dim_suffix [
    | [] ↦ it.display_name
    | c ∷ s ↦ it.display_name ++ text " " ++ (c ∷ s)
  ]

  abbrev pub with_matches : List ℕ → Item → Item
  with_matches indexes it = record it { matched_indexes = indexes }

  take_match : Text → List ℕ → Option Item → Run Item
  take_match query indexes none = panic
  take_match query indexes (some it) =
      improve_match_positions query (search_name it) indexes >>= λ better.
      ok (with_matches better it)

  unfoldable pub collect : Text → List Item → List Match → Run (List Item)
  unfolding take_match
  collect query items [] = ok []
  collect query items (m ∷ matches) = do
    it ← take_match query m.indexes (get_elem? items m.index)
    rest ← collect query items matches
    ok (it ∷ rest)

  unfoldable pub filter_items : Text → List Item → Run (List Item)
  filter_items [] items = ok (map (with_matches []) items)
  filter_items (c ∷ query) items =
      collect (c ∷ query) items (env.find (c ∷ query) (map search_name items))
