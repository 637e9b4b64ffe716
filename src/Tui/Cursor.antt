-- ===== src/Tui/Cursor.antt =====
-- pkg/tui/model.go: the cursor, the visible window, the query line and the preview.
pub mod Window
use Prim.Native.Nat.{max}
pub use kswitch.Prelude.Int.{ℤ, pos, negsuc}
use mathlib.Core.List.{reverse}
use kswitch.Prelude.{
  ℕ, zero, suc, ◌+◌, ◌-◌, Text, ◌==◌, Bool, true, false, not, ◌||◌, if◌then◌else◌, ltb, leb, nat_eq,
  Option, none, some, List, [], ◌∷◌, length, get_elem?,
}
use kswitch.Prelude.Go.{Go, ok, err, panic, hang, ◌>>=◌}
use kswitch.Tui.Item.{Item, Env, Model, Cmd, fetch_preview}
use kswitch.Tui.Fuzzy.{Run, filter_items}

-- n + d, for an int n that is not negative.
abbrev pub plus : ℕ → ℤ → ℤ
plus n (pos d) = pos (n + d)
plus n (negsuc d) = if ltb d n then pos (n - suc d) else negsuc (d - n)

-- -n
abbrev pub negative : ℕ → ℤ
negative zero = pos zero
negative (suc n) = negsuc n

abbrev pub at_least_zero : ℤ → ℕ
at_least_zero (pos n) = n
at_least_zero (negsuc n) = 0

-- strings.TrimRight(v, " "), read from the end.
drop_spaces : Text → Text
drop_spaces [] = []
drop_spaces (c ∷ s) = let rest = drop_spaces s in if nat_eq c b' ' then rest else c ∷ s

-- What stands before the last word, read from the end.
drop_word : Text → Text
drop_word [] = []
drop_word (c ∷ s) = let rest = drop_word s in if nat_eq c b' ' then c ∷ s else rest

-- v[:strings.LastIndex(strings.TrimRight(v, " "), " ")+1]
unfoldable pub without_last_word : Text → Text
unfolding drop_spaces drop_word
without_last_word v = reverse (drop_word (drop_spaces (reverse v)))

-- The second half of `scrollIntoView`.
abbrev scrolled : ℕ → ℕ → ℕ → ℕ
scrolled cursor height offset = if leb (offset + height) cursor then cursor - height + 1 else offset

module _ {env : Env} where
  abbrev pub list_height : Model env → ℕ
  list_height m = max (m.height - 2) 1

  -- `raw` is the cursor, which may be negative or too large between an addition and this call.
  unfoldable pub clamp_cursor : ℤ → Model env → Model env
  clamp_cursor raw m =
      let n = length m.filtered in
      let c = at_least_zero raw in
      let max_offset = n - list_height m in
      if nat_eq n 0 then record m { cursor = 0; view_offset = 0 } else record m {
        cursor = if leb n c then n - 1 else c;
        view_offset = if ltb max_offset m.view_offset then max_offset else m.view_offset;
      }

  unfoldable pub scroll_into_view : Model env → Model env
  scroll_into_view m =
      let offset = if ltb m.cursor m.view_offset then m.cursor else m.view_offset in
      record m { view_offset = scrolled m.cursor (list_height m) offset }

  unfoldable pub move_cursor : ℤ → Model env → Model env
  unfolding clamp_cursor scroll_into_view
  move_cursor delta m =
      if nat_eq (length m.filtered) 0
      then m
      else scroll_into_view (clamp_cursor (plus m.cursor delta) m)

  -- m.filtered = filterItems(m.query, m.allItems)
  unfoldable pub filter_again : Model env → Run (Model env)
  filter_again m =
      filter_items env m.query m.all_items >>= λ found. ok (record m { filtered = found })

  unfoldable pub refilter : Model env → Run (Model env)
  unfolding filter_again
  refilter m = filter_again m >>= λ m'. ok (record m' { cursor = 0; view_offset = 0 })

  write_query : Text → Model env → Model env
  write_query v m = record m { input = env.set_value v m.input; query = v }

  unfoldable pub delete_word : Model env → Model env
  unfolding write_query without_last_word
  delete_word m = elim (env.input_value m.input) [
    | [] ↦ m
    | c ∷ s ↦ write_query (without_last_word (c ∷ s)) m
  ]

  preview_of : Model env → Option Item → Run (Model env × List Cmd)
  preview_of m none = panic
  preview_of m (some sel) =
      if sel.path == m.preview_for_path
      then ok (m, [])
      else ok
          (record m { preview_content = []; preview_for_path = sel.path }, fetch_preview sel ∷ [])

  unfoldable pub fetch_preview_cmd : Model env → Run (Model env × List Cmd)
  unfolding preview_of
  fetch_preview_cmd m =
      if not m.show_preview || nat_eq (length m.filtered) 0
      then ok (m, [])
      else preview_of m (get_elem? m.filtered m.cursor)
