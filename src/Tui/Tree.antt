-- ===== src/Tui/Tree.antt =====
-- pkg/tui/model.go: the sub-clusters of an item (`markLoading`, `applyExpandResult`,
-- `collapseItem`). The walk up the parents in `collapseItem` has no bound in the source: it takes
-- fuel here, and `hang` says that the fuel ran out.

pub mod Walk
pub mod Placed
pub mod Children
pub mod Anchored
pub mod Collapsed
use kswitch.Prelude.{
  is_empty, ℕ, zero, suc, ◌+◌, ◌-◌, Text, ◌==◌, Bool, true, false, not, ◌&&◌, if◌then◌else◌, Option,
  none, some, List, [], ◌∷◌, ◌++◌, map, length,
}
use kswitch.Prelude.Dict.{assign}
use kswitch.Prelude.Go.{Go, ok, err, panic, hang, ◌>>=◌}
use kswitch.Tui.Item.{Item, Env, Model, SubStore, ExpandResult}
use kswitch.Tui.Fuzzy.{Run}
use kswitch.Tui.Cursor.{pos, clamp_cursor, scroll_into_view, filter_again}

abbrev pub loading_at : Text → Item → Item
loading_at path it = if it.path == path then record it { is_loading = true } else it

-- What the first loop of `applyExpandResult` makes of an item.
abbrev pub settled : ExpandResult → Item → Item
settled r it =
    if it.path == r.parent_path
    then (if r.failed
        then record it { is_loading = false }
        else if is_empty r.children
        then record it { is_loading = false; expanded_empty = true }
        else record it { is_loading = false; expanded = true })
    else it

-- The first index of an item with that path.
unfoldable pub index_of_path : Text → List Item → Option ℕ
index_of_path path [] = none
index_of_path path (it ∷ items) =
    let later = index_of_path path items in
    if it.path == path then some 0 else elim later [ none ↦ none | some i ↦ some (suc i) ]

-- The children go immediately before the first item with that path, else to the end.
unfoldable pub insert_before : Text → List Item → List Item → List Item
insert_before path children [] = children
insert_before path children (it ∷ items) =
    let later = insert_before path children items in
    if it.path == path then children ++ it ∷ items else it ∷ later

-- The path of the parent of the first item with that path.
unfoldable pub parent_of : Text → List Item → Option Item
parent_of p [] = none
parent_of p (it ∷ items) = let later = parent_of p items in if it.path == p then some it else later

abbrev pub above : Text → Option Item → Text
above p none = p
above p (some a) = a.parent_path

-- The loop of `isDescendant`, from `p` on: an item that has `p` for its path gives the next `p`,
-- and where there is none `p` stays.
unfoldable pub leads_to : ℕ → Text → List Item → Text → Run Bool
leads_to zero path items p = hang
leads_to (suc fuel) path items [] = ok false
leads_to (suc fuel) path items (c ∷ p) =
    let next = leads_to fuel path items (above (c ∷ p) (parent_of (c ∷ p) items)) in
    if (c ∷ p) == path then ok true else next

-- What the loop of `collapseItem` keeps of one item.
unfoldable pub kept_item : ℕ → Text → List Item → Item → Run (List Item)
kept_item fuel path all it =
    let walk =
      leads_to fuel path all it.parent_path >>= λ below. ok (if below then [] else it ∷ []) in
    if it.path == path then ok (record it { expanded = false; is_loading = false } ∷ []) else walk

unfoldable pub kept_items : ℕ → Text → List Item → List Item → Run (List Item)
kept_items fuel path all [] = ok []
kept_items fuel path all (it ∷ items) = do
  now ← kept_item fuel path all it
  later ← kept_items fuel path all items
  ok (now ++ later)

module _ {env : Env} where
  unfoldable pub mark_loading : Text → Model env → Run (Model env)
  mark_loading path m = filter_again (record m { all_items = map (loading_at path) m.all_items })

  unfoldable pub register : Option SubStore → Model env → Model env
  register none m = m
  register (some s) m = record m { dynamic_stores = assign m.dynamic_stores s.id s }

  unfoldable pub to_last_child : Option ℕ → ℕ → Model env → Model env
  to_last_child none n m = clamp_cursor (pos m.cursor) m
  to_last_child (some i) n m = scroll_into_view (clamp_cursor (pos (i + n - 1)) m)

  unfoldable pub add_children : ExpandResult → Model env → Run (Model env)
  unfolding register to_last_child
  add_children r m =
      let at = index_of_path r.parent_path m.all_items in
      let m1 = register r.store m in
      filter_again (record m1 { all_items = insert_before r.parent_path r.children m.all_items })
      >>= λ m2. ok (to_last_child at (length r.children) m2)

  unfoldable pub apply_expand_result : ExpandResult → Model env → Run (Model env)
  unfolding add_children
  apply_expand_result r m =
      let m1 = record m { all_items = map (settled r) m.all_items } in
      if not r.failed && not (is_empty r.children) then add_children r m1 else filter_again m1

  unfoldable pub collapse_item : ℕ → Text → Model env → Run (Model env)
  collapse_item fuel path m = do
    kept ← kept_items fuel path m.all_items m.all_items
    m1 ← filter_again (record m { all_items = kept })
    ok (clamp_cursor (pos m1.cursor) m1)
