-- ===== src/Tui/Tree/Anchored.antt =====
-- What `collapseItem` keeps has its parent kept.
use kswitch.Prelude.{
  ℕ, zero, suc, ◌<◌, Text, ◌==◌, ==_iff, ◌≡◌, refl, sym, ap, ◌∙◌, Bool, true, false, Bool-cases,
  ◌⊎◌, inl, inr, some, List, [], ◌∷◌, ◌++◌, All, All-append, arith,
}
use kswitch.Prelude.Go.{ok}
use kswitch.Tui.Item.{Item}
use kswitch.Tui.Tree.{parent_of, leads_to, kept_item, kept_items}
use kswitch.Tui.Tree.Walk.{IsLinked, IsLinkedBelow, All-parent_of, leads_to_total}
use kswitch.Tui.Tree.Placed.{IsPlaced}

-- The parent that is found has the path.
pub parent_of-path :
    (p : Text) (items : List Item) (a : Item) → parent_of p items ≡ some a → (a.path == p) ≡ true
unfolding parent_of
parent_of-path p [] a h = absurd (cc)
parent_of-path p (it ∷ items) a h = elim (Bool-cases (it.path == p)) [
  | inl same ↦ let e : it ≡ a = ground (arith, h, same) in ap (λ x. x.path == p) (sym e) ∙ same
  | inr other ↦ parent_of-path p items a (rw other at h)
]

leads_to_more :
    (fuel : ℕ) (path : Text) (items : List Item) (p : Text) (b : Bool)
    → leads_to fuel path items p ≡ ok b
    → leads_to (suc fuel) path items p ≡ ok b
unfolding leads_to
leads_to_more zero path items p b h = absurd (cc)
leads_to_more (suc fuel) path items [] b h = h
leads_to_more (suc fuel) path items (c ∷ p) b h = elim (Bool-cases ((c ∷ p) == path)) [
  | inl there ↦ rw there (rw there at h)
  | inr further ↦ rw further (leads_to_more fuel path items _ b (rw further at h))
]

-- A walk that meets the path meets an item of the path that is less deep.
leads_to-depth :
    (fuel : ℕ) (path : Text) (items : List Item) (p : Text) (d : ℕ)
    → All (IsLinked items) items
    → IsLinkedBelow items p d
    → leads_to fuel path items p ≡ ok true
    → (b : Item) × (parent_of path items ≡ some b) × (b.depth < d)
unfolding leads_to
leads_to-depth zero path items p d all linked h = absurd (cc)
leads_to-depth (suc fuel) path items [] d all linked h = absurd (cc)
leads_to-depth (suc fuel) path items (c ∷ p) d all (inl top) h = absurd (cc)
leads_to-depth (suc fuel) path items (c ∷ p) d all (inr (a, e, less)) h =
    elim (Bool-cases ((c ∷ p) == path)) [
      | inl there ↦ (a, ap (λ q. parent_of q items) (sym ((==_iff (c ∷ p) path).0 there)) ∙ e, less)
      | inr further ↦
          let (b, e', less') =
            leads_to-depth fuel path items a.parent_path a.depth all
              (All-parent_of (IsLinked items) (c ∷ p) items a all e) (simp (further, e) at h) in
          (b, e', omega (arith, less, less'))
    ]

module _ (fuel : ℕ) (path : Text) (all : List Item) where
  -- The item is at the top, or its parent is kept.
  abbrev pub IsAnchored : Item → Type 0
  IsAnchored it =
      (it.parent_path ≡ [])
      ⊎ ((a : Item) × (parent_of it.parent_path all ≡ some a)
          × (a.depth < it.depth)
          × (kept_item fuel path all a ≡ ok (a ∷ [])))

  kept_item-other :
      (a : Item)
      → (a.path == path) ≡ false
      → leads_to fuel path all a.parent_path ≡ ok false
      → kept_item fuel path all a ≡ ok (a ∷ [])
  unfolding kept_item
  kept_item-other a other stays = simp (other, stays) (refl)

module _ (path : Text) (all : List Item) where
  -- An item from which the walk does not meet the path.
  other-IsAnchored :
      (fuel : ℕ) (it : Item) (q : Text) (d : ℕ)
      → it.parent_path ≡ q
      → it.depth ≡ d
      → IsLinkedBelow all q d
      → leads_to fuel path all q ≡ ok false
      → IsAnchored fuel path all it
  unfolding leads_to
  other-IsAnchored zero it q d e f linked h = absurd (cc)
  other-IsAnchored (suc fuel) it [] d e f linked h = inl e
  other-IsAnchored (suc fuel) it (c ∷ q) d e f (inl top) h = absurd (cc)
  other-IsAnchored (suc fuel) it (c ∷ q) d e f (inr (a, is, less)) h =
      elim (Bool-cases ((c ∷ q) == path)) [
        | inl there ↦ absurd (ground (arith, h, there))
        | inr further ↦
            let named = (==_iff a.path (c ∷ q)).0 (parent_of-path (c ∷ q) all a is) in
            let next : leads_to fuel path all a.parent_path ≡ ok false = simp (further, is) at h in
            inr (
              a,
              ap (λ p. parent_of p all) e ∙ is,
              omega (arith, f, less),
              kept_item-other (suc fuel) path all a (ap (λ p. p == path) named ∙ further)
                  (leads_to_more fuel path all a.parent_path false next),
            )
      ]

module _ (fuel : ℕ) (path : Text) (all : List Item) (linked : All (IsLinked all) all)
    (low : All (λ it. it.depth < fuel) all) where
  -- The item that is collapsed.
  closed-IsAnchored :
      (it : Item) → (it.path == path) ≡ true → IsPlaced all it → IsAnchored fuel path all it
  closed-IsAnchored it same (inl top, even) = inl top
  closed-IsAnchored it same (inr (a, is, less), (b, e, even)) =
      let at_path : parent_of path all ≡ some b =
        ap (λ p. parent_of p all) (sym ((==_iff it.path path).0 same)) ∙ e in
      let (below, runs) =
        leads_to_total fuel path all a.parent_path a.depth linked
          (All-parent_of (IsLinked all) it.parent_path all a linked is)
          (All-parent_of (λ x. x.depth < fuel) it.parent_path all a low is) in
      let depths : (x : Item) → parent_of path all ≡ some x → x.depth ≡ it.depth =
        λ x h. let s : b ≡ x = ground (arith, h, at_path) in ap (λ y. y.depth) (sym s) ∙ even in
      elim (Bool-cases below) [
        | inl met ↦
            let (x, found_at, lower) =
              leads_to-depth fuel path all a.parent_path a.depth linked
                (All-parent_of (IsLinked all) it.parent_path all a linked is) (runs ∙ ap ok met) in
            absurd (omega (arith, depths x found_at, lower, less))
        | inr free ↦ elim (Bool-cases (a.path == path)) [
          | inl again ↦
              let named =
                sym ((==_iff a.path it.parent_path).0 (parent_of-path it.parent_path all a is))
                ∙ (==_iff a.path path).0 again in
              let here : parent_of path all ≡ some a = ap (λ p. parent_of p all) (sym named) ∙ is in
              absurd (omega (arith, depths a here, less))
          | inr apart ↦ inr (a, is, less, kept_item-other fuel path all a apart (runs ∙ ap ok free))
        ]
      ]

  kept_item-IsAnchored :
      (it : Item)
      → IsPlaced all it
      → it.depth < fuel
      → (r : List Item) × (kept_item fuel path all it ≡ ok r) × All (IsAnchored fuel path all) r
  unfolding kept_item
  kept_item-IsAnchored it placed lt =
      let (below, runs) = leads_to_total fuel path all it.parent_path it.depth linked placed.0 lt in
      elim (Bool-cases (it.path == path)) [
        | inl same ↦ (
          record it { expanded = false; is_loading = false } ∷ [],
          simp same (refl),
          (closed-IsAnchored it same placed, tt),
        )
        | inr other ↦ elim (Bool-cases below) [
          | inl gone ↦ ([], simp (other, runs, gone) (refl), tt)
          | inr stays ↦ (
            it ∷ [],
            simp (other, runs, stays) (refl),
            (
              other-IsAnchored path all fuel it it.parent_path it.depth refl refl placed.0
                  (runs ∙ ap ok stays),
              tt,
            ),
          )
        ]
      ]

  pub kept_items-IsAnchored :
      (items : List Item)
      → All (IsPlaced all) items
      → All (λ it. it.depth < fuel) items
      → (kept : List Item) × (kept_items fuel path all items ≡ ok kept)
        × All (IsAnchored fuel path all) kept
  unfolding kept_items
  kept_items-IsAnchored [] placed lows = ([], refl, tt)
  kept_items-IsAnchored (it ∷ items) (here, placed) (lt, lows) =
      let (r, runs, anchored) = kept_item-IsAnchored it here lt in
      let (later, runs', anchored') = kept_items-IsAnchored items placed lows in
      (r ++ later, simp (runs, runs') (refl), All-append _ r later anchored anchored')
