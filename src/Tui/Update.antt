-- ===== src/Tui/Update.antt =====
-- pkg/tui/model.go: `Update`, one message at a time, and pkg/tui/run.go: `selectionFor`.
pub mod Selected
pub mod Safe
pub mod Faults
use kswitch.Prelude.{
  ℕ, Text, text, ◌==◌, Bool, true, false, not, ◌&&◌, ◌||◌, if◌then◌else◌, nat_eq, Option, none,
  some, List, [], ◌∷◌, ◌++◌, length, get_elem?, is_elem,
}
use kswitch.Prelude.Dict.{Dict, read}
use kswitch.Prelude.Go.{Go, ok, err, panic, hang, ◌>>=◌}
use kswitch.Tui.Item.{
  Item, Env, Model, Msg, Cmd, SubStore, window_size, items_found, discovery_done, preview,
  expand_result, pasted, key, other, quit, typing, fetch_preview, expand,
}
use kswitch.Tui.Fuzzy.{Run, filter_items}
use kswitch.Tui.Cursor.{
  pos, negsuc, negative, list_height, clamp_cursor, scroll_into_view, move_cursor, filter_again,
  refilter, delete_word, fetch_preview_cmd,
}
use kswitch.Tui.Tree.{index_of_path, mark_loading, apply_expand_result, collapse_item}

pub data Action : Type 0 where
  abort enter right left up down page_up page_down clear erase_word type_in : Action

-- The cases of the inner `switch`, by the names of the keys.
unfoldable pub action_of : Text → Action
action_of k =
    if is_elem k (text "esc" ∷ text "ctrl+c" ∷ text "ctrl+d" ∷ [])
    then abort
    else if k == text "enter"
    then enter
    else if k == text "right"
    then right
    else if k == text "left"
    then left
    else if is_elem k (text "up" ∷ text "ctrl+k" ∷ text "ctrl+p" ∷ [])
    then up
    else if is_elem k (text "down" ∷ text "ctrl+j" ∷ text "ctrl+n" ∷ [])
    then down
    else if k == text "pgup"
    then page_up
    else if k == text "pgdown"
    then page_down
    else if k == text "ctrl+u"
    then clear
    else if is_elem k (text "ctrl+w" ∷ text "alt+backspace" ∷ [])
    then erase_word
    else type_in

abbrev pub Step : Env → Type 0
Step env = Run (Model env × List Cmd)

module _ {env : Env} where
  -- What `m.filtered[m.cursor]` is used for, behind the test that the list is not empty.
  on_selected : (Model env → Item → Step env) → Model env → Option Item → Step env
  on_selected f m none = panic
  on_selected f m (some sel) = f m sel

  unfoldable pub with_selected : (Model env → Item → Step env) → Step env → Model env → Step env
  unfolding on_selected
  with_selected f otherwise m =
      if nat_eq (length m.filtered) 0
      then otherwise
      else on_selected f m (get_elem? m.filtered m.cursor)

  unfoldable pub choose : Model env → Item → Step env
  choose m sel = ok (record m { selected = some sel }, quit ∷ [])

  unfoldable pub open_item : Model env → Item → Step env
  open_item m sel =
      if not sel.expanded && not sel.is_loading
      then (mark_loading sel.path m >>= λ m'. ok (m', expand sel ∷ []))
      else ok (m, [])

  -- The cursor goes to the first item with that path.
  unfoldable pub to_path : Option ℕ → Model env → Model env
  to_path none m = m
  to_path (some i) m = scroll_into_view (record m { cursor = i })

  unfoldable pub close_item : ℕ → Model env → Item → Step env
  close_item fuel m sel =
      if sel.expanded
      then (collapse_item fuel sel.path m >>= fetch_preview_cmd)
      else if sel.parent_path == []
      then ok (m, [])
      else (collapse_item fuel sel.parent_path m >>= λ m'.
          fetch_preview_cmd (to_path (index_of_path sel.parent_path m'.filtered) m'))

  -- What follows when the text input has taken a message.
  unfoldable pub typed : env.Input → Model env → Step env
  typed input m =
      let m1 = record m { input = input } in
      let q = env.input_value input in
      if q == m.query
      then ok (m1, typing ∷ [])
      else (refilter (record m1 { query = q }) >>= fetch_preview_cmd >>= λ (m2, cmds).
          ok (m2, typing ∷ cmds))

  on_action : ℕ → Text → Action → Model env → Step env
  unfolding choose open_item close_item
  on_action fuel k abort m = ok (record m { aborted = true }, quit ∷ [])
  on_action fuel k enter m = with_selected choose (ok (m, quit ∷ [])) m
  on_action fuel k right m = with_selected open_item (ok (m, [])) m
  on_action fuel k left m = with_selected (close_item fuel) (ok (m, [])) m
  on_action fuel k up m = fetch_preview_cmd (move_cursor (pos 1) m)
  on_action fuel k down m = fetch_preview_cmd (move_cursor (negsuc 0) m)
  on_action fuel k page_up m = fetch_preview_cmd (move_cursor (pos (list_height m)) m)
  on_action fuel k page_down m = fetch_preview_cmd (move_cursor (negative (list_height m)) m)
  on_action fuel k clear m =
      filter_again (record m { input = env.set_value [] m.input; query = [] }) >>= λ m'.
      fetch_preview_cmd (record m' { cursor = 0 })
  on_action fuel k erase_word m = refilter (delete_word m) >>= fetch_preview_cmd
  on_action fuel k type_in m = typed (env.press k m.input) m

  -- `fuel` bounds the walks of `collapseItem`.
  unfoldable pub update : ℕ → Msg → Model env → Step env
  unfolding on_action
  update fuel (window_size w h) m = ok (record m { width = w; height = h }, [])
  update fuel (items_found items) m =
      filter_again (record m { all_items = m.all_items ++ items }) >>= λ m'.
      fetch_preview_cmd (clamp_cursor (pos m'.cursor) m')
  update fuel discovery_done m = ok (record m { loading = false }, [])
  update fuel (preview content for_path) m =
      if for_path == m.preview_for_path
      then ok (record m { preview_content = content }, [])
      else ok (m, [])
  update fuel (expand_result r) m = apply_expand_result r m >>= fetch_preview_cmd
  update fuel (pasted s) m = typed (env.paste s m.input) m
  update fuel (key k) m = on_action fuel k (action_of k) m
  update fuel other m = ok (m, [])

  -- NewModel
  unfoldable pub new_model : env.Input → Bool → Model env
  new_model input show = record {
    show_preview = show;
    input = input;
    query = [];
    all_items = [];
    filtered = [];
    cursor = 0;
    view_offset = 0;
    preview_content = [];
    preview_for_path = [];
    loading = true;
    aborted = false;
    selected = none;
    width = 0;
    height = 0;
    dynamic_stores = [];
  }

-- What `selectionFor` returns: the path, the name, the store and tags of the item that was chosen,
-- and the in-memory store that holds it, if one does. `none` is ErrAbort.
pub record Selection : Type 0 where
  pub kubeconfig_path : Text
  pub selected_context : Text
  pub store_id : Text
  pub tags : Dict Text
  pub dynamic_store : Option SubStore

selection_of : Dict SubStore → Option Item → Option Selection
selection_of stores none = none
selection_of stores (some it) = some (record {
  kubeconfig_path = it.path;
  selected_context = it.context_name;
  store_id = it.store_id;
  tags = it.tags;
  dynamic_store = read stores it.store_id;
})

unfoldable pub selection_for : {env : Env} → Model env → Option Selection
unfolding selection_of
selection_for m = if m.aborted then none else selection_of m.dynamic_stores m.selected
