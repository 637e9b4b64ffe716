-- ===== src/Tui/Update/Faults.antt =====
-- Where `Update` does not do what it means to.
use kswitch.Prelude.{ℕ, Text, text, ◌==◌, ap, ◌∙◌, ◌≡◌, true, some, List, [], ◌∷◌, ◌++◌, get_elem?}
use kswitch.Prelude.Go.{ok, hang}
use kswitch.Tui.Item.{Item, Env, Model, key}
use kswitch.Tui.Tree.Walk.{IsOrphan, kept_items_hang}
use kswitch.Tui.Update.{update, action_of, close_item}
use kswitch.Tui.Update.Selected.{with_selected_lem}
use kswitch.Tui.Tree.{kept_items, collapse_item}

kept_hang :
    (fuel : ℕ) (path : Text) (all before after : List Item) (it : Item)
    → all ≡ before ++ it ∷ after
    → IsOrphan path all it
    → kept_items fuel path all all ≡ hang
kept_hang fuel path all before after it split orphan =
    ap (kept_items fuel path all) split ∙ kept_items_hang fuel path all before after it orphan

collapse_item_hangs :
    {env : Env} (fuel : ℕ) (path : Text) (m : Model env) (before after : List Item) (it : Item)
    → m.all_items ≡ before ++ it ∷ after
    → IsOrphan path m.all_items it
    → collapse_item fuel path m ≡ hang
unfolding collapse_item
collapse_item_hangs fuel path m before after it split orphan =
    rw (kept_hang fuel path m.all_items before after it split orphan)

-- "left" on an expanded item never returns, whatever the fuel, when the list holds an item whose
-- parent path is not empty and is that of no item in the list, other than the item that is
-- collapsed: the walk up the parents in `collapseItem` stays at that path.
pub left_hangs :
    {env : Env} (fuel : ℕ) (m : Model env) (sel it : Item) (before after : List Item)
    → get_elem? m.filtered m.cursor ≡ some sel
    → sel.expanded ≡ true
    → m.all_items ≡ before ++ it ∷ after
    → IsOrphan sel.path m.all_items it
    → update fuel (key (text "left")) m ≡ hang
unfolding update action_of ◌==◌
left_hangs fuel m sel it before after at_cursor shown split orphan =
    with_selected_lem (close_item fuel) (ok (m, [])) m sel at_cursor
    ∙ rw shown (rw (collapse_item_hangs fuel sel.path m before after it split orphan))
