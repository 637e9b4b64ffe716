-- ===== src/Tui/Tree/Walk.antt =====
-- When the walk up the parents ends, and when it does not.
use kswitch.Prelude.{
  ℕ, zero, suc, ◌<◌, Text, ◌==◌, ==_false, ◌≡◌, ◌≢◌, refl, Bool, true, false, Bool-cases, ◌⊎◌, inl,
  inr, if◌then◌else◌, none, some, List, [], ◌∷◌, ◌++◌, All, All-append, arith,
}
use mathlib.Core.Path.{subst}
use kswitch.Prelude.Go.{ok, hang}
use kswitch.Tui.Item.{Item}
use kswitch.Tui.Tree.{parent_of, leads_to, kept_item, kept_items, above}

-- A path that ends the walk, or that an item less deep than `d` has.
abbrev pub IsLinkedBelow : List Item → Text → ℕ → Type 0
IsLinkedBelow items p d = (p ≡ []) ⊎ ((a : Item) × (parent_of p items ≡ some a) × (a.depth < d))

-- An item at the top, or one whose parent is in the list and less deep.
abbrev pub IsLinked : List Item → Item → Type 0
IsLinked items it = IsLinkedBelow items it.parent_path it.depth

pub All-parent_of :
    (P : Item → Type 0) (p : Text) (items : List Item) (a : Item)
    → All P items
    → parent_of p items ≡ some a
    → P a
unfolding parent_of
All-parent_of P p [] a all h = absurd (cc)
All-parent_of P p (it ∷ items) a (here, all) h = elim (Bool-cases (it.path == p)) [
  | inl hit ↦ let e : it ≡ a = ground arith in subst P e here
  | inr miss ↦ All-parent_of P p items a all (ground arith)
]

-- With parents less deep than their children, the walk ends within the depth.
pub leads_to_total :
    (fuel : ℕ) (path : Text) (items : List Item) (p : Text) (d : ℕ)
    → All (IsLinked items) items
    → IsLinkedBelow items p d
    → d < fuel
    → (below : Bool) × (leads_to fuel path items p ≡ ok below)
unfolding leads_to
leads_to_total zero path items p d all linked lt = elim lt [ ]
leads_to_total (suc fuel) path items [] d all linked lt = (false, refl)
leads_to_total (suc fuel) path items (c ∷ p) d all (inl top) lt = absurd (cc)
leads_to_total (suc fuel) path items (c ∷ p) d all (inr (a, h, less)) lt =
    let linked = All-parent_of (IsLinked items) (c ∷ p) items a all h in
    let (below, runs) =
      leads_to_total fuel path items a.parent_path a.depth all linked (omega arith) in
    elim (Bool-cases ((c ∷ p) == path)) [
      | inl there ↦ (true, rw there)
      | inr further ↦ (below, rw (further, h) runs)
    ]

-- A walk that meets a path that no item has never ends.
leads_to_hangs :
    (fuel : ℕ) (path : Text) (items : List Item) (p : Text)
    → p ≢ []
    → p ≢ path
    → parent_of p items ≡ none
    → leads_to fuel path items p ≡ hang
unfolding leads_to
leads_to_hangs zero path items p ne ne' h = refl
leads_to_hangs (suc fuel) path items [] ne ne' h = absurd (ne refl)
leads_to_hangs (suc fuel) path items (c ∷ p) ne ne' h =
    rw (==_false ne', h) (leads_to_hangs fuel path items (c ∷ p) ne ne' h)

kept_item_total :
    (P : Item → Type 0)
    (closed : (it : Item) → P it → P (record it { expanded = false; is_loading = false }))
    (fuel : ℕ) (path : Text) (all : List Item) (it : Item)
    → All (IsLinked all) all
    → IsLinked all it
    → it.depth < fuel
    → P it
    → (kept : List Item) × (kept_item fuel path all it ≡ ok kept) × All P kept
unfolding kept_item
kept_item_total P closed fuel path all it linked here lt holds =
    let (below, runs) = leads_to_total fuel path all it.parent_path it.depth linked here lt in
    elim (Bool-cases (it.path == path)) [
      | inl same ↦
          (record it { expanded = false; is_loading = false } ∷ [], rw same, (closed it holds, tt))
      | inr other ↦ elim (Bool-cases below) [
        | inl gone ↦ ([], rw (other, runs, gone), tt)
        | inr stays ↦ (it ∷ [], rw (other, runs, stays), (holds, tt))
      ]
    ]

-- What the loop of `collapseItem` keeps has the properties that do not depend on the flags.
pub kept_items_total :
    (P : Item → Type 0)
    (closed : (it : Item) → P it → P (record it { expanded = false; is_loading = false }))
    (fuel : ℕ) (path : Text) (all items : List Item)
    → All (IsLinked all) all
    → All (λ it. IsLinked all it × (it.depth < fuel)) items
    → All P items
    → (kept : List Item) × (kept_items fuel path all items ≡ ok kept) × All P kept
unfolding kept_items
kept_items_total P closed fuel path all [] linked here holds = ([], refl, tt)
kept_items_total P closed fuel path all (it ∷ items) linked ((l, lt), here) (h, holds) =
    let (now, runs, p) = kept_item_total P closed fuel path all it linked l lt h in
    let (later, runs', q) = kept_items_total P closed fuel path all items linked here holds in
    (now ++ later, rw (runs, runs'), All-append P now later p q)

-- A walk ends with an answer or it hangs.
leads_to_cases :
    (fuel : ℕ) (path : Text) (items : List Item) (p : Text)
    → ((below : Bool) × (leads_to fuel path items p ≡ ok below))
      ⊎ (leads_to fuel path items p ≡ hang)
unfolding leads_to
leads_to_cases zero path items p = inr refl
leads_to_cases (suc fuel) path items [] = inl (false, refl)
leads_to_cases (suc fuel) path items (c ∷ p) =
    let next = leads_to_cases fuel path items (above (c ∷ p) (parent_of (c ∷ p) items)) in
    elim (Bool-cases ((c ∷ p) == path)) [
      | inl there ↦ inl (true, rw there)
      | inr further ↦ rw further next
    ]

-- An item whose parent path is that of no item, and not the one that is collapsed.
abbrev pub IsOrphan : Text → List Item → Item → Type 0
IsOrphan path items it =
    (it.path ≢ path)
    × (it.parent_path ≢ [])
    × (it.parent_path ≢ path)
    × (parent_of it.parent_path items ≡ none)

kept_item_hangs :
    (fuel : ℕ) (path : Text) (all : List Item) (it : Item)
    → IsOrphan path all it
    → kept_item fuel path all it ≡ hang
unfolding kept_item
kept_item_hangs fuel path all it (other, top, ne, none_there) =
    rw (==_false other, leads_to_hangs fuel path all it.parent_path top ne none_there)

kept_item_cases :
    (fuel : ℕ) (path : Text) (all : List Item) (it : Item)
    → ((kept : List Item) × (kept_item fuel path all it ≡ ok kept))
      ⊎ (kept_item fuel path all it ≡ hang)
unfolding kept_item
kept_item_cases fuel path all it = elim (Bool-cases (it.path == path)) [
  | inl same ↦ inl (record it { expanded = false; is_loading = false } ∷ [], rw same)
  | inr other ↦ elim (leads_to_cases fuel path all it.parent_path) [
    | inl (below, runs) ↦ inl (if below then [] else it ∷ [], rw (other, runs))
    | inr hangs ↦ inr (rw (other, hangs))
  ]
]

pub kept_items_hang :
    (fuel : ℕ) (path : Text) (all before after : List Item) (it : Item)
    → IsOrphan path all it
    → kept_items fuel path all (before ++ it ∷ after) ≡ hang
unfolding kept_items
kept_items_hang fuel path all [] after it orphan = rw (kept_item_hangs fuel path all it orphan)
kept_items_hang fuel path all (x ∷ before) after it orphan =
    let later = kept_items_hang fuel path all before after it orphan in
    elim (kept_item_cases fuel path all x) [
      | inl (kept, runs) ↦ rw (runs, later)
      | inr hangs ↦ rw hangs
    ]
