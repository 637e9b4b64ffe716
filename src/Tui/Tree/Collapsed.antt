-- ===== src/Tui/Tree/Collapsed.antt =====
-- What `collapseItem` leaves of a tree is a tree.
use kswitch.Prelude.{
  ℕ, ◌<◌, Text, ◌==◌, ==_iff, ==_refl, ◌≡◌, refl, sym, ap, ◌∙◌, true, false, Bool-cases, inl, inr,
  some, List, [], ◌∷◌, ◌++◌, All, arith,
}
use mathlib.Core.Path.{subst}
use kswitch.Prelude.Go.{ok, ok_injective, bind_ok}
use kswitch.Tui.Item.{Item}
use kswitch.Tui.Tree.{parent_of, leads_to, kept_item, kept_items}
use kswitch.Tui.Tree.Walk.{IsLinked, All-parent_of, kept_items_total}
use kswitch.Tui.Tree.Placed.{IsEven, IsPlaced, IsForest, All-weaken}
use kswitch.Tui.Tree.Children.{parent_of-children}
use kswitch.Tui.Tree.Anchored.{parent_of-path, IsAnchored, kept_items-IsAnchored}

-- The first item of a path is kept as the first item of the path.
module _ (fuel : ℕ) (path : Text) (all : List Item) where
  same_paths :
      (it : Item) (r : List Item)
      → kept_item fuel path all it ≡ ok r
      → All (λ x. x.path ≡ it.path) r
  unfolding kept_item
  same_paths it r h = elim (Bool-cases (it.path == path)) [
    | inl same ↦ subst (All (λ x. x.path ≡ it.path)) (ok_injective _ _ (simp same at h)) (refl, tt)
    | inr other ↦
        let (below, _, e) = bind_ok (leads_to fuel path all it.parent_path) _ r (simp other at h) in
        elim (Bool-cases below) [
          | inl gone ↦ subst (All (λ x. x.path ≡ it.path)) (ok_injective _ _ (simp gone at e)) tt
          | inr stays ↦
              subst (All (λ x. x.path ≡ it.path)) (ok_injective _ _ (simp stays at e)) (refl, tt)
        ]
  ]

  kept_items-parent_of :
      (p : Text) (items kept : List Item) (a : Item)
      → kept_items fuel path all items ≡ ok kept
      → parent_of p items ≡ some a
      → kept_item fuel path all a ≡ ok (a ∷ [])
      → parent_of p kept ≡ some a
  unfolding kept_items parent_of
  kept_items-parent_of p [] kept a h e stays = absurd (cc)
  kept_items-parent_of p (it ∷ items) kept a h e stays =
      let (now, e1, h1) = bind_ok (kept_item fuel path all it) _ kept h in
      let (later, e2, h2) = bind_ok (kept_items fuel path all items) _ kept h1 in
      let joined = ok_injective _ _ h2 in
      elim (Bool-cases (it.path == p)) [
        | inl same ↦
            let is : it ≡ a = ground (arith, e, same) in
            let now_a : now ≡ a ∷ [] =
              ok_injective _ _ (sym e1 ∙ ap (kept_item fuel path all) is ∙ stays) in
            let hit : (a.path == p) ≡ true = ap (λ x. x.path == p) (sym is) ∙ same in
            ap (parent_of p) (sym joined)
            ∙ ap (λ n. parent_of p (n ++ later)) now_a
            ∙ simp hit (refl)
        | inr other ↦
            let rest = kept_items-parent_of p items later a e2 (rw other at e) stays in
            let apart =
              All-weaken (λ x (q : x.path ≡ it.path). ap (λ t. t == p) q ∙ other) now
                (same_paths it now e1) in
            ap (parent_of p) (sym joined) ∙ parent_of-children p now later apart ∙ rest
      ]

-- Each item is behind a first item of its path.
abbrev HasFirst : List Item → Item → Type 0
HasFirst items it = (x : Item) × (parent_of it.path items ≡ some x)

has_first : (items : List Item) → All (HasFirst items) items
unfolding parent_of
has_first [] = tt
has_first (it ∷ items) = (
  (it, rw (==_refl it.path) refl),
  All-weaken {P = HasFirst items}
      (λ z (x, e). elim (Bool-cases (it.path == z.path)) [
        | inl same ↦ (it, rw same refl)
        | inr other ↦ (x, rw other e)
      ])
      items (has_first items),
)

module _ (fuel : ℕ) (path : Text) (all kept : List Item)
    (runs : kept_items fuel path all all ≡ ok kept) (evens : All (IsEven all) kept) where
  kept-IsEven : (z : Item) → HasFirst kept z → IsEven all z → IsEven kept z
  kept-IsEven z (x, e) (b, is, even) =
      let (b', is', even') = All-parent_of (IsEven all) z.path kept x evens e in
      let named = (==_iff x.path z.path).0 (parent_of-path z.path kept x e) in
      let at_z : parent_of z.path all ≡ some b' = ap (λ p. parent_of p all) (sym named) ∙ is' in
      let s : b' ≡ b = ground (arith, is, at_z) in (x, e, sym even' ∙ ap (λ y. y.depth) s ∙ even)

  kept-IsLinked : (z : Item) → IsAnchored fuel path all z → IsLinked kept z
  kept-IsLinked z (inl top) = inl top
  kept-IsLinked z (inr (a, is, less, stays)) =
      inr (a, kept_items-parent_of fuel path all z.parent_path all kept a runs is stays, less)

  assembled :
      (part : List Item)
      → All (HasFirst kept) part
      → All (IsEven all) part
      → All (IsAnchored fuel path all) part
      → All (IsPlaced kept) part
  assembled [] f e a = tt
  assembled (z ∷ part) (f, fs) (e, es) (a, anchors) =
      ((kept-IsLinked z a, kept-IsEven z f e), assembled part fs es anchors)

with_fuel :
    (fuel : ℕ) (all items : List Item)
    → All (IsPlaced all) items
    → All (λ it. it.depth < fuel) items
    → All (λ it. IsLinked all it × (it.depth < fuel)) items
with_fuel fuel all [] placed low = tt
with_fuel fuel all (it ∷ items) (here, placed) (lt, low) =
    ((here.0, lt), with_fuel fuel all items placed low)

-- With fuel for the depth the loop of `collapseItem` returns, the rest is a tree again, and it has
-- what the items had, whatever their flags.
pub kept_items-IsForest :
    (P : Item → Type 0)
    (closed : (it : Item) → P it → P (record it { expanded = false; is_loading = false }))
    (fuel : ℕ) (path : Text) (items : List Item)
    → IsForest items
    → All (λ it. it.depth < fuel) items
    → All P items
    → (kept : List Item) × (kept_items fuel path items items ≡ ok kept) × All P kept × IsForest kept
kept_items-IsForest P closed fuel path items forest low holds =
    let linked = All-weaken (λ it (p : IsPlaced items it). p.0) items forest in
    let both = with_fuel fuel items items forest low in
    let (kept, runs, kept_P) = kept_items_total P closed fuel path items items linked both holds in
    let (kept1, runs1, evens1) =
      kept_items_total (IsEven items) (λ it h. h) fuel path items items linked both
        (All-weaken (λ it (p : IsPlaced items it). p.1) items forest) in
    let (kept2, runs2, anchors2) =
      kept_items-IsAnchored fuel path items linked low items forest low in
    let evens = subst (All (IsEven items)) (ok_injective _ _ (sym runs1 ∙ runs)) evens1 in
    let anchors =
      subst (All (IsAnchored fuel path items)) (ok_injective _ _ (sym runs2 ∙ runs)) anchors2 in
    (
      kept,
      runs,
      kept_P,
      assembled fuel path items kept runs evens kept (has_first kept) evens anchors,
    )
