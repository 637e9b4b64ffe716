-- ===== src/Tui/Tree/Children.antt =====
-- The children of an expanded item as part of the tree.
use kswitch.Prelude.{
  Text, ◌==◌, ==_iff, ◌≡◌, refl, sym, ap, ◌∙◌, false, Bool-cases, inl, inr, none, some, List, [],
  ◌∷◌, ◌++◌, map, append-nil, All, All-append, arith,
}
use kswitch.Tui.Item.{Item}
use kswitch.Tui.Tree.{parent_of, insert_before}
use kswitch.Tui.Tree.Walk.{IsLinked}
use kswitch.Tui.Tree.Placed.{
  IsEven, IsPlaced, IsForest, All-weaken, IsPlaced-grown, parent_of-append, IsFlags, parent_of-map,
  parent_of-map-none,
}

-- Children whose paths no item has.
abbrev pub AreNew : List Item → List Item → Type 0
AreNew items = All (λ c. parent_of c.path items ≡ none)

pub parent_of-children :
    (p : Text) (children items : List Item)
    → All (λ c. (c.path == p) ≡ false) children
    → parent_of p (children ++ items) ≡ parent_of p items
unfolding parent_of
parent_of-children p [] items apart = refl
parent_of-children p (c ∷ children) items (here, apart) =
    rw here (parent_of-children p children items apart)

parent_of-insert_before :
    (p path : Text) (children items : List Item)
    → All (λ c. (c.path == p) ≡ false) children
    → parent_of p (insert_before path children items) ≡ parent_of p items
unfolding insert_before parent_of
parent_of-insert_before p path children [] apart =
    ap (parent_of p) (sym (append-nil children)) ∙ parent_of-children p children [] apart
parent_of-insert_before p path children (it ∷ items) apart =
    let later = parent_of-insert_before p path children items apart in
    elim (Bool-cases (it.path == path)) [
      | inl same ↦ rw same (parent_of-children p children (it ∷ items) apart)
      | inr other ↦ rw (other, later) refl
    ]

apart_of_new :
    (p : Text) (a : Item) (children items : List Item)
    → parent_of p items ≡ some a
    → AreNew items children
    → All (λ c. (c.path == p) ≡ false) children
apart_of_new p a [] items h new = tt
apart_of_new p a (c ∷ children) items h (here, new) =
    let later = apart_of_new p a children items h new in
    elim (Bool-cases (c.path == p)) [
      | inl same ↦
          let e = (==_iff c.path p).0 same in
          let n : parent_of p items ≡ none = ap (λ q. parent_of q items) (sym e) ∙ here in
          absurd (cc)
      | inr other ↦ (other, later)
    ]

pub insert_before-All :
    (P : Item → Type 0) (path : Text) (children items : List Item)
    → All P children
    → All P items
    → All P (insert_before path children items)
unfolding insert_before
insert_before-All P path children [] c s = c
insert_before-All P path children (it ∷ items) c (h, s) =
    let later = insert_before-All P path children items c s in
    elim (Bool-cases (it.path == path)) [
      | inl same ↦ rw same (All-append _ children (it ∷ items) c (h, s))
      | inr other ↦ rw other (h, later)
    ]

pub IsForest-insert_before :
    (path : Text) (children items : List Item)
    → AreNew items children
    → All (IsPlaced (insert_before path children items)) children
    → IsForest items
    → IsForest (insert_before path children items)
IsForest-insert_before path children items new placed f =
    let all = insert_before path children items in
    insert_before-All (IsPlaced all) path children items placed (
      All-weaken
        (λ it. IsPlaced-grown items all it (λ p a h.
          parent_of-insert_before p path children items (apart_of_new p a children items h new)
          ∙ h))
        items f)

-- Children hang onto the items: their paths are new, each is at the top or has its parent among the
-- items, less deep, and those of one path are equally deep.
abbrev pub HangOnto : List Item → List Item → Type 0
HangOnto items children =
    AreNew items children × All (IsLinked items) children × All (IsEven children) children

pub HangOnto-map :
    (f : Item → Item)
    → IsFlags f
    → (items children : List Item) → HangOnto items children
    → HangOnto (map f items) children
HangOnto-map f w items children (new, linked, even) = (
  All-weaken (λ c (h : parent_of c.path items ≡ none). parent_of-map-none f w c.path items h)
      children new,
  All-weaken
      (λ c (l : IsLinked items c). elim l [
        | inl top ↦ inl top
        | inr (a, h, less) ↦
            inr (f a, parent_of-map f w c.parent_path items a h, rw (w.depth a) less)
      ])
      children linked,
  even,
)

-- A child is the first of its path where it is put.
parent_of-new_child :
    (q path : Text) (children items : List Item) (b : Item)
    → parent_of q items ≡ none
    → parent_of q children ≡ some b
    → parent_of q (insert_before path children items) ≡ some b
unfolding insert_before parent_of
parent_of-new_child q path children [] b new h = h
parent_of-new_child q path children (it ∷ items) b new h = elim (Bool-cases (it.path == q)) [
  | inl same ↦ absurd (ground (arith, new, same))
  | inr other ↦ elim (Bool-cases (it.path == path)) [
    | inl here ↦ rw here (parent_of-append children (it ∷ items) q b h)
    | inr further ↦
        rw (further, other) (parent_of-new_child q path children items b (rw other at new) h)
  ]
]

children-IsPlaced :
    (path : Text) (children items part : List Item)
    → AreNew items children
    → AreNew items part
    → All (IsLinked items) part
    → All (IsEven children) part
    → All (IsPlaced (insert_before path children items)) part
children-IsPlaced path children items [] all new linked even = tt
children-IsPlaced path children items (c ∷ part) all (n, new) (l, linked) ((b, is, same), even) = (
  (
    elim l [
      | inl top ↦ inl top
      | inr (a, h, less) ↦ inr (
        a,
        parent_of-insert_before c.parent_path path children items
              (apart_of_new c.parent_path a children items h all)
            ∙ h,
        less,
      )
    ],
    (b, parent_of-new_child c.path path children items b n is, same),
  ),
  children-IsPlaced path children items part all new linked even,
)

-- The children of an item go into the tree.
pub IsForest-children :
    (path : Text) (children items : List Item)
    → HangOnto items children
    → IsForest items
    → IsForest (insert_before path children items)
IsForest-children path children items (new, linked, even) =
    IsForest-insert_before path children items new
      (children-IsPlaced path children items children new new linked even)
