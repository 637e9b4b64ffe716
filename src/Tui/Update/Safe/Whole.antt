-- ===== src/Tui/Update/Safe/Whole.antt =====
-- Every message.
use kswitch.Prelude.{
  is_empty, All, All-append, ℕ, ◌+◌, ◌-◌, Text, ◌==◌, ◌≡◌, ◌≢◌, ◌⊎◌, refl, Bool, true, false, not,
  ◌&&◌, Bool-cases, inl, inr, Option, none, some, List, [], ◌∷◌, ◌++◌, map, length, arith,
}
use kswitch.Prelude.Go.{ok}
use kswitch.Tui.Item.{
  Item, Env, FindsIndexes, Model, ExpandResult, Msg, Cmd, window_size, items_found, discovery_done,
  preview, expand_result, pasted, key, other, quit, typing,
}
use kswitch.Tui.Fuzzy.{filter_items}
use kswitch.Tui.Fuzzy.Laws.{SteadyItems}
use kswitch.Tui.Cursor.{pos, negsuc, negative, list_height, clamp_cursor, refilter, delete_word}
use kswitch.Tui.Tree.{
  index_of_path, insert_before, add_children, apply_expand_result, settled, to_last_child, register,
}
use kswitch.Tui.Update.{
  Action, abort, enter, right, left, up, down, page_up, page_down, clear, erase_word, type_in,
  action_of, on_action, update, typed, choose, open_item, close_item, new_model,
}
use kswitch.Tui.Tree.Placed.{IsPlaced, IsForest-append, IsForest-map}
use kswitch.Tui.Tree.Children.{HangOnto, HangOnto-map, IsForest-children, insert_before-All}
use kswitch.Tui.Update.Safe.{
  IsSound, IsReady, Fine, FineModel, then_preview, fetch_preview_cmd-Fine,
}
use kswitch.Tui.Update.Safe.Flags.{settled-IsUnseen, settled-IsFlags, map-SteadyItems}
use kswitch.Tui.Update.Safe.Parts.{
  clamp_cursor-IsReady, scroll_into_view-IsReady, move_cursor-IsReady, filter_again_total,
  refilter-FineModel, flags-FineModel,
}
use kswitch.Tui.Update.Safe.Keys.{
  IsLow, with_selected-Fine, choose-Fine, open_item-Fine, close_item-Fine,
}

-- What a message must bring: new items whose names keep their width and which have their place in the
-- tree, and at "left" fuel for the items' depth.
unfoldable pub Accepts : {env : Env} → ℕ → Model env → Msg → Type 0
Accepts {env} fuel m (items_found items) =
    SteadyItems env items × All (IsPlaced (m.all_items ++ items)) items
Accepts {env} fuel m (expand_result r) =
    SteadyItems env r.children × HangOnto m.all_items r.children
Accepts fuel m (key k) = (action_of k ≢ left) ⊎ IsLow fuel m
Accepts fuel m (window_size w h) = Unit
Accepts fuel m discovery_done = Unit
Accepts fuel m (preview c p) = Unit
Accepts fuel m (pasted s) = Unit
Accepts fuel m other = Unit

module _ {env : Env} (finds : FindsIndexes env) where
  to_last_child-IsReady :
      (at : Option ℕ) (n : ℕ) (m : Model env)
      → IsSound env m.all_items
      → filter_items env m.query m.all_items ≡ ok m.filtered
      → IsReady (to_last_child at n m)
  unfolding to_last_child
  to_last_child-IsReady none n m steady fresh = clamp_cursor-IsReady (pos m.cursor) m steady fresh
  to_last_child-IsReady (some i) n m steady fresh =
      scroll_into_view-IsReady (clamp_cursor (pos (i + n - 1)) m)
        (clamp_cursor-IsReady (pos (i + n - 1)) m steady fresh)

  add_children-FineModel :
      (r : ExpandResult) (m : Model env)
      → SteadyItems env r.children × HangOnto m.all_items r.children
      → IsSound env m.all_items
      → FineModel (add_children r m)
  unfolding add_children
  add_children-FineModel r m (children, hang) (steady, forest) =
      let m1 = register r.store m in
      let m2 = record m1 { all_items = insert_before r.parent_path r.children m.all_items } in
      let steady' : IsSound env m2.all_items = (
        insert_before-All _ r.parent_path r.children m.all_items children steady,
        IsForest-children r.parent_path r.children m.all_items hang forest,
      ) in
      let (found, fresh, runs) = filter_again_total m2 finds steady' in
      (
        to_last_child (index_of_path r.parent_path m.all_items) (length r.children)
            (record m2 { filtered = found }),
        rw runs,
        to_last_child-IsReady (index_of_path r.parent_path m.all_items) (length r.children)
            (record m2 { filtered = found }) steady' fresh,
      )

  apply_expand_result-FineModel :
      (r : ExpandResult) (m : Model env)
      → SteadyItems env r.children × HangOnto m.all_items r.children
      → IsReady m
      → FineModel (apply_expand_result r m)
  unfolding apply_expand_result
  apply_expand_result-FineModel r m (children, hang) ready =
      elim (Bool-cases (not r.failed && not (is_empty r.children))) [
        | inl grown ↦ rw grown (
            add_children-FineModel r (record m { all_items = map (settled r) m.all_items })
              (children, HangOnto-map (settled r) (settled-IsFlags r) m.all_items r.children hang)
              (
                map-SteadyItems env (settled r) (settled-IsUnseen env r) m.all_items ready.sound.0,
                IsForest-map (settled r) (settled-IsFlags r) m.all_items ready.sound.1,
              ))
        | inr same ↦
            rw same
              (flags-FineModel (settled r) m (settled-IsUnseen env r) (settled-IsFlags r) ready)
      ]

  items_found-Fine :
      (fuel : ℕ) (items : List Item) (m : Model env)
      → SteadyItems env items × All (IsPlaced (m.all_items ++ items)) items
      → IsReady m
      → Fine (update fuel (items_found items) m)
  unfolding update
  items_found-Fine fuel items m (new, placed) r =
      let m1 = record m { all_items = m.all_items ++ items } in
      let steady : IsSound env m1.all_items = (
        All-append _ m.all_items items r.sound.0 new,
        IsForest-append m.all_items items r.sound.1 placed,
      ) in
      let (found, fresh, runs) = filter_again_total m1 finds steady in
      let m2 = record m1 { filtered = found } in
      rw runs (
        fetch_preview_cmd-Fine (clamp_cursor (pos m.cursor) m2)
          (clamp_cursor-IsReady (pos m.cursor) m2 steady fresh))

  clear-Fine : (fuel : ℕ) (k : Text) (m : Model env) → IsReady m → Fine (on_action fuel k clear m)
  unfolding on_action
  clear-Fine fuel k m r =
      let m1 = record m { input = env.set_value [] m.input; query = [] } in
      let (found, fresh, runs) = filter_again_total m1 finds r.sound in
      let m2 = record m1 { filtered = found; cursor = 0 } in
      rw runs (
        fetch_preview_cmd-Fine m2
          (record { on_item = ground arith; sound = r.sound; fresh = fresh }))

  delete_word-IsSound :
      (v : Text) (m : Model env)
      → env.input_value m.input ≡ v
      → IsSound env m.all_items
      → IsSound env (delete_word m).all_items
  unfolding delete_word
  delete_word-IsSound [] m e s = rw (delete_word, e) s
  delete_word-IsSound (c ∷ v) m e s = rw (delete_word, e) s

  typed-Fine : (input : env.Input) (m : Model env) → IsReady m → Fine (typed input m)
  unfolding typed
  typed-Fine input m r = elim (Bool-cases (env.input_value input == m.query)) [
    | inl same ↦ (
      record m { input = input },
      typing ∷ [],
      rw same,
      record { on_item = r.on_item; sound = r.sound; fresh = r.fresh },
    )
    | inr changed ↦
        let m1 = record m { input = input; query = env.input_value input } in
        let (m2, cmds, runs, ready) =
          then_preview (refilter m1) (refilter-FineModel m1 finds r.sound) in
        (m2, typing ∷ cmds, rw (changed, runs), ready)
  ]

  on_action-Fine :
      (fuel : ℕ) (k : Text) (a : Action) (m : Model env)
      → IsReady m
      → (a ≢ left) ⊎ IsLow fuel m
      → Fine (on_action fuel k a m)
  unfolding on_action
  on_action-Fine fuel k abort m r t = (
    record m { aborted = true },
    quit ∷ [],
    refl,
    record { on_item = r.on_item; sound = r.sound; fresh = r.fresh },
  )
  on_action-Fine fuel k enter m r t =
      with_selected-Fine finds choose _ m r (m, quit ∷ [], refl, r) (choose-Fine finds m r)
  on_action-Fine fuel k right m r t =
      with_selected-Fine finds open_item _ m r (m, [], refl, r) (open_item-Fine finds m r)
  on_action-Fine fuel k left m r (inl other_key) = absurd (other_key refl)
  on_action-Fine fuel k left m r (inr tree) =
      with_selected-Fine finds (close_item fuel) _ m r (m, [], refl, r)
        (close_item-Fine finds fuel m r tree)
  on_action-Fine fuel k up m r t = fetch_preview_cmd-Fine _ (move_cursor-IsReady (pos 1) m r)
  on_action-Fine fuel k down m r t = fetch_preview_cmd-Fine _ (move_cursor-IsReady (negsuc 0) m r)
  on_action-Fine fuel k page_up m r t =
      fetch_preview_cmd-Fine _ (move_cursor-IsReady (pos (list_height m)) m r)
  on_action-Fine fuel k page_down m r t =
      fetch_preview_cmd-Fine _ (move_cursor-IsReady (negative (list_height m)) m r)
  on_action-Fine fuel k clear m r t = clear-Fine fuel k m r
  on_action-Fine fuel k erase_word m r t =
      then_preview (refilter (delete_word m))
        (refilter-FineModel (delete_word m) finds (delete_word-IsSound _ m refl r.sound))
  on_action-Fine fuel k type_in m r t = typed-Fine (env.press k m.input) m r

pub new_model-IsReady :
    {env : Env} (input : env.Input) (show : Bool) → IsReady (new_model {env = env} input show)
unfolding new_model filter_items
new_model-IsReady input show = record { on_item = inl refl; sound = (tt, tt); fresh = refl }

-- From a model that is ready, `Update` returns on every message that it accepts, without an index out
-- of range or a loop without end, to a model that is ready. Ready is: the filtered list is what
-- `filterItems` gives for the query and the items, the cursor is on one of its items unless it is empty,
-- the items' names keep their width when they are lowered, and the items are a tree: each is at the top
-- or has its parent among them, less deep, and items of one path are equally deep. fuzzy.Find is as
-- documented. Every message is accepted, with three conditions: new items have names that keep their
-- width, and have their place in the tree that they make with the old; the children of an expanded item
-- have such names, paths that no item has, parents among the items, less deep, and are equally deep where
-- they share a path; and at the key "left" the items are less deep than the fuel.
pub update_safe :
    {env : Env} (fuel : ℕ) (msg : Msg) (m : Model env)
    → FindsIndexes env
    → IsReady m
    → Accepts fuel m msg
    → (m' : Model env) × (cmds : List Cmd) × (update fuel msg m ≡ ok (m', cmds)) × IsReady m'
unfolding update Accepts
update_safe fuel (window_size w h) m finds r acc = (
  record m { width = w; height = h },
  [],
  refl,
  record { on_item = r.on_item; sound = r.sound; fresh = r.fresh },
)
update_safe fuel (items_found items) m finds r acc = items_found-Fine finds fuel items m acc r
update_safe fuel discovery_done m finds r acc = (
  record m { loading = false },
  [],
  refl,
  record { on_item = r.on_item; sound = r.sound; fresh = r.fresh },
)
update_safe fuel (preview content for_path) m finds r acc =
    elim (Bool-cases (for_path == m.preview_for_path)) [
      | inl wanted ↦ (
        record m { preview_content = content },
        [],
        rw wanted,
        record { on_item = r.on_item; sound = r.sound; fresh = r.fresh },
      )
      | inr stale ↦ (m, [], rw stale, r)
    ]
update_safe fuel (expand_result res) m finds r acc =
    then_preview (apply_expand_result res m) (apply_expand_result-FineModel finds res m acc r)
update_safe {env} fuel (pasted s) m finds r acc = typed-Fine finds (env.paste s m.input) m r
update_safe fuel (key k) m finds r acc = on_action-Fine finds fuel k (action_of k) m r acc
update_safe fuel other m finds r acc = (m, [], refl, r)
