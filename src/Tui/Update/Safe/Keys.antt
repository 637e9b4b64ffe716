-- ===== src/Tui/Update/Safe/Keys.antt =====
-- The keys that need an item, and the messages that change the items.
use kswitch.Prelude.{
  ℕ, ◌<◌, Text, ◌==◌, ◌≡◌, refl, not, ◌&&◌, Bool-cases, Option-cases, inl, inr, nat_eq, some, List,
  [], ◌∷◌, length, get_elem?-of_lt, All, arith,
}
use kswitch.Tui.Item.{Item, Env, FindsIndexes, Model, expand, quit}
use kswitch.Tui.Cursor.{pos, clamp_cursor}
use kswitch.Tui.Tree.{index_of_path, mark_loading, collapse_item, loading_at}
use kswitch.Tui.Tree.Collapsed.{kept_items-IsForest}
use kswitch.Tui.Update.{Step, choose, open_item, close_item, to_path, with_selected}
use kswitch.Tui.Update.Safe.{IsReady, Fine, FineModel, then_preview, fetch_preview_cmd-Fine}
use kswitch.Tui.Update.Safe.Flags.{loading_at-IsUnseen, loading_at-IsFlags}
use kswitch.Tui.Update.Safe.Parts.{
  clamp_cursor-IsReady, scroll_into_view-IsReady, filter_again_total, flags-FineModel,
}

-- The fuel is enough for the items' depth.
abbrev pub IsLow : {env : Env} → ℕ → Model env → Type 0
IsLow fuel m = All (λ it. it.depth < fuel) m.all_items

pub index_of_path-lt :
    (path : Text) (items : List Item) (i : ℕ) → index_of_path path items ≡ some i → i < length items
unfolding index_of_path
index_of_path-lt path [] i h = absurd (cc)
index_of_path-lt path (it ∷ items) i h = elim (Option-cases (index_of_path path items)) [
  | inl absent ↦ ground arith
  | inr (j, found) ↦ let lt = index_of_path-lt path items j found in ground arith
]

module _ {env : Env} (finds : FindsIndexes env) where
  pub with_selected-Fine :
      (f : Model env → Item → Step env) (otherwise : Step env) (m : Model env)
      → IsReady m
      → Fine otherwise
      → ((sel : Item) → Fine (f m sel))
      → Fine (with_selected f otherwise m)
  unfolding with_selected
  with_selected-Fine f otherwise m r idle act = elim (Bool-cases (nat_eq (length m.filtered) 0)) [
    | inl empty ↦ rw empty idle
    | inr filled ↦
        let (sel, at_cursor) = get_elem?-of_lt m.filtered m.cursor (ground (arith, r.on_item)) in
        rw (filled, at_cursor) (act sel)
  ]

  pub choose-Fine : (m : Model env) → IsReady m → (sel : Item) → Fine (choose m sel)
  unfolding choose
  choose-Fine m r sel = (
    record m { selected = some sel },
    quit ∷ [],
    refl,
    record { on_item = r.on_item; sound = r.sound; fresh = r.fresh },
  )

  pub open_item-Fine : (m : Model env) → IsReady m → (sel : Item) → Fine (open_item m sel)
  unfolding open_item mark_loading
  open_item-Fine m r sel = elim (Bool-cases (not sel.expanded && not sel.is_loading)) [
    | inl may ↦
        let (m', runs, ready) =
          flags-FineModel (loading_at sel.path) m (loading_at-IsUnseen env sel.path)
            (loading_at-IsFlags sel.path) r in
        (m', expand sel ∷ [], rw (may, runs), ready)
    | inr refused ↦ (m, [], rw refused, r)
  ]

  collapse_item-FineModel :
      (fuel : ℕ) (path : Text) (m : Model env)
      → IsReady m
      → IsLow fuel m
      → FineModel (collapse_item fuel path m)
  unfolding collapse_item
  collapse_item-FineModel fuel path m r low =
      let (kept, runs, steady, forest) =
        kept_items-IsForest _ (λ it h. h) fuel path m.all_items r.sound.1 low r.sound.0 in
      let (found, fresh, filters) =
        filter_again_total (record m { all_items = kept }) finds (steady, forest) in
      (
        clamp_cursor (pos m.cursor) (record m { all_items = kept; filtered = found }),
        rw (runs, filters),
        clamp_cursor-IsReady (pos m.cursor) (record m { all_items = kept; filtered = found })
            (steady, forest) fresh,
      )

  to_path-IsReady :
      (path : Text) (m : Model env)
      → IsReady m
      → IsReady (to_path (index_of_path path m.filtered) m)
  unfolding to_path
  to_path-IsReady path m r = elim (Option-cases (index_of_path path m.filtered)) [
    | inl absent ↦ rw absent r
    | inr (i, found) ↦ rw found (
        scroll_into_view-IsReady (record m { cursor = i })
          (record {
            on_item = inr (index_of_path-lt path m.filtered i found);
            sound = r.sound;
            fresh = r.fresh;
          }))
  ]

  pub close_item-Fine :
      (fuel : ℕ) (m : Model env)
      → IsReady m
      → IsLow fuel m
      → (sel : Item) → Fine (close_item fuel m sel)
  unfolding close_item
  close_item-Fine fuel m r tree sel = elim (Bool-cases sel.expanded) [
    | inl shown ↦ rw shown (
        then_preview (collapse_item fuel sel.path m)
          (collapse_item-FineModel fuel sel.path m r tree))
    | inr hidden ↦ elim (Bool-cases (sel.parent_path == [])) [
      | inl top ↦ (m, [], rw (hidden, top), r)
      | inr child ↦
          let (m1, runs, ready) = collapse_item-FineModel fuel sel.parent_path m r tree in
          rw (hidden, child, runs)
            (fetch_preview_cmd-Fine (to_path (index_of_path sel.parent_path m1.filtered) m1)
              (to_path-IsReady sel.parent_path m1 ready))
    ]
  ]
