-- ===== src/Tui/Tree/Placed.antt =====
-- The items as a tree, and the changes of the list that keep it one.
use kswitch.Prelude.{
  Text, ◌==◌, ◌≡◌, refl, sym, ap, ◌∙◌, Bool-cases, inl, inr, none, some, List, [], ◌∷◌, ◌++◌, map,
  All, All-append, arith,
}
use kswitch.Tui.Item.{Item}
use kswitch.Tui.Tree.{parent_of}
use kswitch.Tui.Tree.Walk.{IsLinked}

-- The first item of its path is as deep.
abbrev pub IsEven : List Item → Item → Type 0
IsEven items it = (b : Item) × (parent_of it.path items ≡ some b) × (b.depth ≡ it.depth)

abbrev pub IsPlaced : List Item → Item → Type 0
IsPlaced items it = IsLinked items it × IsEven items it

-- Every item is at the top or has its parent in the list, less deep, and items of one path are
-- equally deep.
abbrev pub IsForest : List Item → Type 0
IsForest items = All (IsPlaced items) items

pub All-weaken :
    {P Q : Item → Type 0} (f : (it : Item) → P it → Q it) (items : List Item)
    → All P items
    → All Q items
All-weaken f [] a = tt
All-weaken f (it ∷ items) (here, a) = (f it here, All-weaken f items a)

-- The parents stay the parents.
abbrev pub IsGrown : List Item → List Item → Type 0
IsGrown xs ys = (p : Text) (a : Item) → parent_of p xs ≡ some a → parent_of p ys ≡ some a

pub IsPlaced-grown :
    (xs ys : List Item) (it : Item) → IsGrown xs ys → IsPlaced xs it → IsPlaced ys it
IsPlaced-grown xs ys it grown (inl top, (b, e, even)) = (inl top, (b, grown it.path b e, even))
IsPlaced-grown xs ys it grown (inr (a, h, less), (b, e, even)) =
    (inr (a, grown it.parent_path a h, less), (b, grown it.path b e, even))

pub parent_of-append : (xs ys : List Item) → IsGrown xs (xs ++ ys)
unfolding parent_of
parent_of-append [] ys p a h = absurd (cc)
parent_of-append (x ∷ xs) ys p a h = elim (Bool-cases (x.path == p)) [
  | inl same ↦ rw same (rw same at h)
  | inr other ↦ rw other (parent_of-append xs ys p a (rw other at h))
]

pub IsForest-append :
    (xs ys : List Item) → IsForest xs → All (IsPlaced (xs ++ ys)) ys → IsForest (xs ++ ys)
IsForest-append xs ys f new =
    All-append _ xs ys
      (All-weaken (λ it. IsPlaced-grown xs (xs ++ ys) it (parent_of-append xs ys)) xs f) new

-- A change of the flags alone.
pub record IsFlags (f : Item → Item) : Type 0 where
  pub path : (it : Item) → (f it).path ≡ it.path
  pub parent : (it : Item) → (f it).parent_path ≡ it.parent_path
  pub depth : (it : Item) → (f it).depth ≡ it.depth

module _ (f : Item → Item) (w : IsFlags f) where
  pub parent_of-map :
      (p : Text) (items : List Item) (a : Item)
      → parent_of p items ≡ some a
      → parent_of p (map f items) ≡ some (f a)
  unfolding parent_of
  parent_of-map p [] a h = absurd (cc)
  parent_of-map p (it ∷ items) a h =
      let same_path : ((f it).path == p) ≡ (it.path == p) = ap (λ q. q == p) (w.path it) in
      elim (Bool-cases (it.path == p)) [
        | inl same ↦
            let e : it ≡ a = ground (arith, h, same) in
            rw (same_path ∙ same) (ap (λ x. some (f x)) e)
        | inr other ↦ rw (same_path ∙ other) (parent_of-map p items a (rw other at h))
      ]

  IsPlaced-map : (items : List Item) (it : Item) → IsPlaced items it → IsPlaced (map f items) (f it)
  IsPlaced-map items it (linked, (b, e, even)) = (
    rw (w.parent it, w.depth it)
        (elim linked [
          | inl top ↦ inl top
          | inr (a, h, less) ↦
              inr (f a, parent_of-map it.parent_path items a h, rw (w.depth a) less)
        ]),
    (
      f b,
      ap (λ q. parent_of q (map f items)) (w.path it) ∙ parent_of-map it.path items b e,
      w.depth b ∙ even ∙ sym (w.depth it),
    ),
  )

  map-IsPlaced :
      (items part : List Item)
      → All (IsPlaced items) part
      → All (IsPlaced (map f items)) (map f part)
  map-IsPlaced items [] p = tt
  map-IsPlaced items (it ∷ part) (here, p) = (IsPlaced-map items it here, map-IsPlaced items part p)

  pub IsForest-map : (items : List Item) → IsForest items → IsForest (map f items)
  IsForest-map items p = map-IsPlaced items items p

pub parent_of-map-none :
    (f : Item → Item)
    → IsFlags f
    → (p : Text) (items : List Item) → parent_of p items ≡ none
    → parent_of p (map f items) ≡ none
unfolding parent_of
parent_of-map-none f w p [] h = refl
parent_of-map-none f w p (it ∷ items) h =
    let same_path : ((f it).path == p) ≡ (it.path == p) = ap (λ q. q == p) (w.path it) in
    elim (Bool-cases (it.path == p)) [
      | inl same ↦ absurd (ground (arith, h, same))
      | inr other ↦ rw (same_path ∙ other) (parent_of-map-none f w p items (rw other at h))
    ]
