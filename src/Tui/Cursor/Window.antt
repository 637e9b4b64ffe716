-- ===== src/Tui/Cursor/Window.antt =====
-- The cursor stays on an item and inside the visible window.
use Prim.Native.Nat.{min}
use kswitch.Prelude.{◌+◌, ◌-◌, ◌<◌, ◌≤◌, ◌≡◌, ◌⊎◌, length, arith}
use kswitch.Tui.Item.{Env, Model}
use kswitch.Tui.Cursor.{
  ℤ, plus, at_least_zero, list_height, clamp_cursor, scroll_into_view, move_cursor,
}

-- The cursor is the index of an item, unless the list is empty.
abbrev pub OnItem : {env : Env} → Model env → Type 0
OnItem m = (length m.filtered ≡ 0) ⊎ (m.cursor < length m.filtered)

-- The item at the cursor is among the rows that `renderLeft` draws: the list_height rows from
-- view_offset on.
abbrev pub IsVisible : {env : Env} → Model env → Type 0
IsVisible m = (m.view_offset ≤ m.cursor) × (m.cursor < m.view_offset + list_height m)

pub clamp_cursor-OnItem : {env : Env} (raw : ℤ) (m : Model env) → OnItem (clamp_cursor raw m)
unfolding clamp_cursor
clamp_cursor-OnItem raw m = ground arith

pub scroll_into_view-IsVisible : {env : Env} (m : Model env) → IsVisible (scroll_into_view m)
unfolding scroll_into_view
scroll_into_view-IsVisible m = ground arith

-- On a list that is not empty, a move by any number of rows, up or down, ends at the item that many
-- rows away or at the end of the list that is nearest to it; that item is visible, and the filtered
-- list is as it was.
pub move_cursor_lem :
    {env : Env} (delta : ℤ) (m : Model env)
    → 0 < length m.filtered
    → ((move_cursor delta m).cursor
        ≡ min (at_least_zero (plus m.cursor delta)) (length m.filtered - 1))
      × IsVisible (move_cursor delta m)
      × ((move_cursor delta m).filtered ≡ m.filtered)
unfolding move_cursor
move_cursor_lem delta m h = ground arith
