-- ===== src/Tui/Fuzzy/Laws.antt =====
-- When `filterItems` returns, and what a change of the items' flags makes of its result.
use mathlib.Core.Option as Option
use kswitch.Prelude.{
  ℕ, zero, suc, ◌<◌, Text, ◌≡◌, refl, ap, sym, inl, inr, Option, none, some, List, [], ◌∷◌, map,
  length, length-map, get_elem?, get_elem?-of_lt, All, arith,
}
use mathlib.Core.Path.{subst}
use kswitch.Prelude.Go.{ok, err, panic, hang, ◌>>=◌}
use kswitch.Tui.Item.{Item, Match, Env, FindsIndexes}
use kswitch.Tui.Fuzzy.{
  Run, improve_match_positions, search_name, with_matches, take_match, collect, filter_items,
}
use kswitch.Tui.Fuzzy.Positions.{Steady, improve_match_positions_lem}

-- Items whose names keep their width when they are lowered.
abbrev pub SteadyItems : Env → List Item → Type 0
SteadyItems env = All (λ it. Steady env (search_name env it))

improve_total :
    (env : Env) (query target : Text) (fuzzy : List ℕ)
    → Steady env target
    → (better : List ℕ) × (improve_match_positions env query target fuzzy ≡ ok better)
improve_total env query target fuzzy s =
    elim (improve_match_positions_lem env query target fuzzy s) [
      | inl (absent, runs) ↦ (fuzzy, runs)
      | inr (pre, rest, split, starts, runs) ↦ (_, runs)
    ]

All-get_elem? {ℓ κ} :
    {A : Type ℓ} (P : A → Type κ) (xs : List A) (i : ℕ) (x : A)
    → All P xs
    → get_elem? xs i ≡ some x
    → P x
All-get_elem? P [] i x all h = absurd (cc)
All-get_elem? P (y ∷ xs) zero x all h = let e : y ≡ x = cc in subst P e all.0
All-get_elem? P (y ∷ xs) (suc i) x all h = All-get_elem? P xs i x all.1 h

collect_total :
    (env : Env) (query : Text) (items : List Item) (matches : List Match)
    → SteadyItems env items
    → All (λ m. m.index < length items) matches
    → (found : List Item) × (collect env query items matches ≡ ok found)
unfolding collect
collect_total env query items [] s all = ([], refl)
collect_total env query items (m ∷ matches) s (lt, all) =
    let (it, h) = get_elem?-of_lt items m.index lt in
    let (better, runs) =
      improve_total env query (search_name env it) m.indexes
        (All-get_elem? _ items m.index it s h) in
    let (rest, later) = collect_total env query items matches s all in
    (with_matches env better it ∷ rest, rw (h, runs, later))

-- With fuzzy.Find as documented, `filterItems` returns.
pub filter_items_total :
    (env : Env) (query : Text) (items : List Item)
    → FindsIndexes env
    → SteadyItems env items
    → (found : List Item) × (filter_items env query items ≡ ok found)
unfolding filter_items
filter_items_total env [] items finds s = (map (with_matches env []) items, refl)
filter_items_total env (c ∷ query) items finds s =
    let in_names = finds (c ∷ query) (map (search_name env) items) in
    collect_total env (c ∷ query) items _ s (rw (length-map (search_name env) items) at in_names)

-- A change of an item that `filterItems` does not see.
pub record IsUnseen (env : Env) (f : Item → Item) : Type 0 where
  pub name : (it : Item) → search_name env (f it) ≡ search_name env it
  pub matches : (is : List ℕ) (it : Item) → f (with_matches env is it) ≡ with_matches env is (f it)

map-get_elem? :
    (f : Item → Item) (xs : List Item) (i : ℕ)
    → get_elem? (map f xs) i ≡ Option.map f (get_elem? xs i)
map-get_elem? f [] i = refl
map-get_elem? f (x ∷ xs) zero = refl
map-get_elem? f (x ∷ xs) (suc i) = map-get_elem? f xs i

names-unseen :
    (env : Env) (f : Item → Item) (u : IsUnseen env f) (items : List Item)
    → map (search_name env) (map f items) ≡ map (search_name env) items
names-unseen env f u [] = refl
names-unseen env f u (it ∷ items) = cc (u.name it, names-unseen env f u items)

bind-unseen :
    (env : Env) (f : Item → Item) (u : IsUnseen env f) (it : Item) (r : Run (List ℕ))
    → (r >>= λ is. ok (with_matches env is (f it)))
      ≡ (r >>= (λ is. ok (with_matches env is it)) >>= λ it'. ok (f it'))
bind-unseen env f u it (ok is) = ap ok (sym (u.matches is it))
bind-unseen env f u it (err e) = refl
bind-unseen env f u it panic = refl
bind-unseen env f u it hang = refl

take_match-unseen :
    (env : Env) (f : Item → Item) (u : IsUnseen env f) (query : Text) (is : List ℕ)
    (o : Option Item)
    → take_match env query is (Option.map f o) ≡ (take_match env query is o >>= λ it. ok (f it))
unfolding take_match
take_match-unseen env f u query is none = refl
take_match-unseen env f u query is (some it) =
    rw (u.name it)
      (bind-unseen env f u it (improve_match_positions env query (search_name env it) is))

collect-unseen :
    (env : Env) (f : Item → Item) (u : IsUnseen env f) (query : Text) (items : List Item)
    (matches : List Match)
    → collect env query (map f items) matches
      ≡ (collect env query items matches >>= λ found. ok (map f found))
unfolding collect
collect-unseen env f u query items [] = refl
collect-unseen env f u query items (m ∷ matches) =
    rw
      (
        map-get_elem? f items m.index,
        take_match-unseen env f u query m.indexes (get_elem? items m.index),
        collect-unseen env f u query items matches,
      )
      (ground arith)

map-unseen :
    (env : Env) (f : Item → Item) (u : IsUnseen env f) (items : List Item)
    → map (with_matches env []) (map f items) ≡ map f (map (with_matches env []) items)
map-unseen env f u [] = refl
map-unseen env f u (it ∷ items) = cc (u.matches [] it, map-unseen env f u items)

-- `filterItems` of the changed items is the change of what it found.
pub filter_items-unseen :
    (env : Env) (f : Item → Item) (u : IsUnseen env f) (query : Text) (items : List Item)
    → filter_items env query (map f items)
      ≡ (filter_items env query items >>= λ found. ok (map f found))
unfolding filter_items
filter_items-unseen env f u [] items = ap ok (map-unseen env f u items)
filter_items-unseen env f u (c ∷ query) items =
    rw (names-unseen env f u items) (collect-unseen env f u (c ∷ query) items _)
