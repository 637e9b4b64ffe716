-- ===== src/Tui/Update/Safe.antt =====
-- That `Update` returns on the messages it accepts, and what it keeps true of the model.
pub mod Flags
pub mod Parts
pub mod Keys
pub mod Whole
use kswitch.Prelude.{
  ℕ, ◌<◌, Text, text, ◌==◌, ◌≡◌, refl, sym, ap, ◌∙◌, Bool, true, false, not, ◌&&◌, ◌||◌, Bool-cases,
  Option-cases, inl, inr, if◌then◌else◌, nat_eq, none, some, List, [], ◌∷◌, ◌++◌, map, length,
  length-map, get_elem?, get_elem?-of_lt, All, arith,
}
use kswitch.Prelude.Go.{ok, ◌>>=◌}
use kswitch.Tui.Item.{Item, Env, FindsIndexes, Model, Cmd, ExpandResult, Msg, fetch_preview}
use kswitch.Tui.Fuzzy.{Run, filter_items}
use kswitch.Tui.Fuzzy.Laws.{SteadyItems, filter_items_total}
use kswitch.Tui.Cursor.{
  ℤ, clamp_cursor, scroll_into_view, filter_again, refilter, fetch_preview_cmd,
}
use kswitch.Tui.Cursor.Window.{OnItem, clamp_cursor-OnItem}
use kswitch.Tui.Tree.Placed.{IsForest}
use kswitch.Tui.Update.{Step}

-- The names keep their width when they are lowered, and the items hang together as a tree.
abbrev pub IsSound : Env → List Item → Type 0
IsSound env items = SteadyItems env items × IsForest items

-- The filtered list is what `filterItems` gives for the query, the cursor is on an item of it, and
-- the items are sound.
pub record IsReady {env : Env} (m : Model env) : Type 0 where
  pub on_item : OnItem m
  pub sound : IsSound env m.all_items
  pub fresh : filter_items env m.query m.all_items ≡ ok m.filtered

-- A step that returns, with a model that is ready.
abbrev pub Fine : {env : Env} → Step env → Type 0
Fine {env} r = (m : Model env) × (cmds : List Cmd) × (r ≡ ok (m, cmds)) × IsReady m

-- A part of a step that returns a model that is ready.
abbrev pub FineModel : {env : Env} → Run (Model env) → Type 0
FineModel {env} r = (m : Model env) × (r ≡ ok m) × IsReady m

module _ {env : Env} where
  pub fetch_preview_cmd-Fine : (m : Model env) → IsReady m → Fine (fetch_preview_cmd m)
  unfolding fetch_preview_cmd
  fetch_preview_cmd-Fine m r =
      elim (Bool-cases (not m.show_preview || nat_eq (length m.filtered) 0)) [
        | inl idle ↦ (m, [], rw idle, r)
        | inr busy ↦
            let (sel, at_cursor) =
              get_elem?-of_lt m.filtered m.cursor (ground (arith, r.on_item)) in
            elim (Bool-cases (sel.path == m.preview_for_path)) [
              | inl shown ↦ (m, [], rw (busy, at_cursor, shown), r)
              | inr changed ↦ (
                record m { preview_content = []; preview_for_path = sel.path },
                fetch_preview sel ∷ [],
                rw (busy, at_cursor, changed),
                record { on_item = r.on_item; sound = r.sound; fresh = r.fresh },
              )
            ]
      ]

  pub then_preview : (r : Run (Model env)) → FineModel r → Fine (r >>= fetch_preview_cmd)
  then_preview r (m, runs, ready) =
      let (m', cmds, shows, ready') = fetch_preview_cmd-Fine m ready in
      (m', cmds, rw (runs, shows), ready')
