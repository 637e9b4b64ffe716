-- ===== src/Tui/Update/Safe/Flags.antt =====
-- The flags of the items, which `filterItems` does not look at.
use kswitch.Prelude.{
  is_empty, Text, ◌==◌, refl, Bool, true, false, Bool-cases, inl, inr, if◌then◌else◌, List, [], ◌∷◌,
  map,
}
use kswitch.Tui.Item.{Item, Env, ExpandResult}
use kswitch.Tui.Fuzzy.Laws.{SteadyItems, IsUnseen}
use kswitch.Tui.Tree.{loading_at, settled}
use kswitch.Tui.Tree.Placed.{IsFlags}

pub loading_at-IsUnseen : (env : Env) (path : Text) → IsUnseen env (loading_at path)
loading_at-IsUnseen env path = record {
  name = λ it. elim (Bool-cases (it.path == path)) [ inl same ↦ rw same | inr other ↦ rw other ];
  matches =
      λ is it. elim (Bool-cases (it.path == path)) [ inl same ↦ rw same | inr other ↦ rw other ];
}

abbrev settle : Bool → Bool → Item → Item
settle failed childless it =
    if failed
    then record it { is_loading = false }
    else if childless
    then record it { is_loading = false; expanded_empty = true }
    else record it { is_loading = false; expanded = true }

settle-IsUnseen : (env : Env) (failed childless : Bool) → IsUnseen env (settle failed childless)
settle-IsUnseen env true c = record { name = λ it. refl; matches = λ is it. refl }
settle-IsUnseen env false true = record { name = λ it. refl; matches = λ is it. refl }
settle-IsUnseen env false false = record { name = λ it. refl; matches = λ is it. refl }

pub loading_at-IsFlags : (path : Text) → IsFlags (loading_at path)
loading_at-IsFlags path = record {
  path = λ it. elim (Bool-cases (it.path == path)) [ inl same ↦ rw same | inr other ↦ rw other ];
  parent = λ it. elim (Bool-cases (it.path == path)) [ inl same ↦ rw same | inr other ↦ rw other ];
  depth = λ it. elim (Bool-cases (it.path == path)) [ inl same ↦ rw same | inr other ↦ rw other ];
}

settle-IsFlags : (failed childless : Bool) → IsFlags (settle failed childless)
settle-IsFlags true c = record { path = λ it. refl; parent = λ it. refl; depth = λ it. refl }
settle-IsFlags false true = record { path = λ it. refl; parent = λ it. refl; depth = λ it. refl }
settle-IsFlags false false = record { path = λ it. refl; parent = λ it. refl; depth = λ it. refl }

pub settled-IsFlags : (r : ExpandResult) → IsFlags (settled r)
settled-IsFlags r =
    let w = settle-IsFlags r.failed (is_empty r.children) in
    record {
      path = λ it. elim (Bool-cases (it.path == r.parent_path)) [
        | inl same ↦ rw same (w.path it)
        | inr other ↦ rw other
      ];
      parent = λ it. elim (Bool-cases (it.path == r.parent_path)) [
        | inl same ↦ rw same (w.parent it)
        | inr other ↦ rw other
      ];
      depth = λ it. elim (Bool-cases (it.path == r.parent_path)) [
        | inl same ↦ rw same (w.depth it)
        | inr other ↦ rw other
      ];
    }

pub settled-IsUnseen : (env : Env) (r : ExpandResult) → IsUnseen env (settled r)
settled-IsUnseen env r =
    let u = settle-IsUnseen env r.failed (is_empty r.children) in
    record {
      name = λ it. elim (Bool-cases (it.path == r.parent_path)) [
        | inl same ↦ rw same (u.name it)
        | inr other ↦ rw other
      ];
      matches = λ is it. elim (Bool-cases (it.path == r.parent_path)) [
        | inl same ↦ rw same (u.matches is it)
        | inr other ↦ rw other
      ];
    }

pub map-SteadyItems :
    (env : Env) (f : Item → Item)
    → IsUnseen env f
    → (items : List Item) → SteadyItems env items
    → SteadyItems env (map f items)
map-SteadyItems env f u [] s = tt
map-SteadyItems env f u (it ∷ items) (here, s) =
    (rw (u.name it) here, map-SteadyItems env f u items s)
