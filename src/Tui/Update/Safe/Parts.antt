-- ===== src/Tui/Update/Safe/Parts.antt =====
-- The parts of `Update` that filter the items again.
use kswitch.Prelude.{
  ◌≡◌, ap, ◌∙◌, inl, inr, List, map, length, length-map, arith, nat_eq, Bool-cases, true, false,
}
use kswitch.Prelude.Go.{ok, ◌>>=◌}
use kswitch.Tui.Item.{Item, Env, FindsIndexes, Model}
use kswitch.Tui.Fuzzy.{filter_items}
use kswitch.Tui.Fuzzy.Laws.{IsUnseen, filter_items_total, filter_items-unseen}
use kswitch.Tui.Cursor.{
  ℤ, plus, clamp_cursor, scroll_into_view, filter_again, refilter, move_cursor,
}
use kswitch.Tui.Cursor.Window.{clamp_cursor-OnItem}
use kswitch.Tui.Tree.Placed.{IsFlags, IsForest-map}
use kswitch.Tui.Update.Safe.{IsSound, IsReady, FineModel}
use kswitch.Tui.Update.Safe.Flags.{map-SteadyItems}

module _ {env : Env} where
  clamp_cursor-filtered : (raw : ℤ) (m : Model env) → (clamp_cursor raw m).filtered ≡ m.filtered
  unfolding clamp_cursor
  clamp_cursor-filtered raw m = ground arith

  clamp_cursor-all_items : (raw : ℤ) (m : Model env) → (clamp_cursor raw m).all_items ≡ m.all_items
  unfolding clamp_cursor
  clamp_cursor-all_items raw m = ground arith

  clamp_cursor-query : (raw : ℤ) (m : Model env) → (clamp_cursor raw m).query ≡ m.query
  unfolding clamp_cursor
  clamp_cursor-query raw m = ground arith

  pub clamp_cursor-IsReady :
      (raw : ℤ) (m : Model env)
      → IsSound env m.all_items
      → filter_items env m.query m.all_items ≡ ok m.filtered
      → IsReady (clamp_cursor raw m)
  clamp_cursor-IsReady raw m sound fresh = record {
    on_item = clamp_cursor-OnItem raw m;
    sound = rw (clamp_cursor-all_items raw m) sound;
    fresh =
        rw (clamp_cursor-all_items raw m, clamp_cursor-query raw m, clamp_cursor-filtered raw m)
          fresh;
  }

  pub scroll_into_view-IsReady : (m : Model env) → IsReady m → IsReady (scroll_into_view m)
  unfolding scroll_into_view
  scroll_into_view-IsReady m r = record { on_item = r.on_item; sound = r.sound; fresh = r.fresh }

  move_cursor-empty :
      (delta : ℤ) (m : Model env) → nat_eq (length m.filtered) 0 ≡ true → move_cursor delta m ≡ m
  unfolding move_cursor
  move_cursor-empty delta m h = rw h

  move_cursor-filled :
      (delta : ℤ) (m : Model env)
      → nat_eq (length m.filtered) 0 ≡ false
      → move_cursor delta m ≡ scroll_into_view (clamp_cursor (plus m.cursor delta) m)
  unfolding move_cursor clamp_cursor scroll_into_view
  move_cursor-filled delta m h = rw h

  pub move_cursor-IsReady : (delta : ℤ) (m : Model env) → IsReady m → IsReady (move_cursor delta m)
  move_cursor-IsReady delta m r = elim (Bool-cases (nat_eq (length m.filtered) 0)) [
    | inl empty ↦ rw (move_cursor-empty delta m empty) r
    | inr filled ↦ rw (move_cursor-filled delta m filled) (
        scroll_into_view-IsReady (clamp_cursor (plus m.cursor delta) m)
          (clamp_cursor-IsReady (plus m.cursor delta) m r.sound r.fresh))
  ]

  pub filter_again_total :
      (m : Model env)
      → FindsIndexes env
      → IsSound env m.all_items
      → (found : List Item) × (filter_items env m.query m.all_items ≡ ok found)
        × (filter_again m ≡ ok (record m { filtered = found }))
  unfolding filter_again
  filter_again_total m finds sound =
      let (found, runs) = filter_items_total env m.query m.all_items finds sound.0 in
      (found, runs, rw runs)

  pub refilter-FineModel :
      (m : Model env) → FindsIndexes env → IsSound env m.all_items → FineModel (refilter m)
  unfolding refilter
  refilter-FineModel m finds sound =
      let (found, fresh, runs) = filter_again_total m finds sound in
      (
        record m { filtered = found; cursor = 0; view_offset = 0 },
        rw runs,
        record { on_item = ground arith; sound = sound; fresh = fresh },
      )

  flags-filter_items :
      (f : Item → Item) (m : Model env)
      → IsUnseen env f
      → IsReady m
      → filter_items env m.query (map f m.all_items) ≡ ok (map f m.filtered)
  flags-filter_items f m u r =
      filter_items-unseen env f u m.query m.all_items
      ∙ ap (λ x. x >>= λ found. ok (map f found)) r.fresh

  -- A change of the flags leaves the cursor on the same item.
  pub flags-FineModel :
      (f : Item → Item) (m : Model env)
      → IsUnseen env f
      → IsFlags f
      → IsReady m
      → FineModel (filter_again (record m { all_items = map f m.all_items }))
  unfolding filter_again
  flags-FineModel f m u w r = (
    record m { all_items = map f m.all_items; filtered = map f m.filtered },
    rw (flags-filter_items f m u r),
    record {
      on_item = rw (length-map f m.filtered) r.on_item;
      sound =
          (map-SteadyItems env f u m.all_items r.sound.0, IsForest-map f w m.all_items r.sound.1);
      fresh = flags-filter_items f m u r;
    },
  )
