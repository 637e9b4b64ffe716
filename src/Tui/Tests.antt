-- ===== src/Tui/Tests.antt =====
-- The TUI on a small list, with a text input that is its text, a search that finds the first name
-- that contains the query, and the lower case of some characters.
use kswitch.Prelude.{
  ℕ, suc, ◌+◌, ◌<◌, ◌&&◌, Text, text, ◌==◌, ◌≡◌, inl, inr, refl, true, false, if◌then◌else◌, leb,
  nat_eq, Option, none, some, Option-cases, List, [], ◌∷◌, ◌++◌, length, All, arith,
}
use kswitch.Prelude.Go.{ok}
use kswitch.Prelude.Strings.{has_prefix, strip_prefix}
use kswitch.Tui.Item.{Item, Match, Env, FindsIndexes, Model, Cmd, key}
use kswitch.Tui.Fuzzy.{index_from, improve_match_positions, filter_items, rune_count}
use kswitch.Tui.Cursor.{negsuc, move_cursor}
use kswitch.Tui.Cursor.Window.{IsVisible, move_cursor_lem}
use kswitch.Tui.Tree.{parent_of}
use kswitch.Tui.Update.{update}
use kswitch.Tui.Update.Safe.{IsReady}
use kswitch.Tui.Update.Safe.Whole.{Accepts, update_safe}

first_with : Text → List Text → Option ℕ
unfolding index_from
first_with query [] = none
first_with query (n ∷ names) =
    let later = first_with query names in
    elim (index_from 0 query n) [
      | none ↦ elim later [ none ↦ none | some i ↦ some (suc i) ]
      | some at ↦ some 0
    ]

first_with-lt :
    (query : Text) (names : List Text) (i : ℕ) → first_with query names ≡ some i → i < length names
unfolding first_with
first_with-lt query [] i h = absurd (cc)
first_with-lt query (n ∷ names) i h = elim (Option-cases (index_from 0 query n)) [
  | inl absent ↦ elim (Option-cases (first_with query names)) [
    | inl no_more ↦ ground arith
    | inr (j, found) ↦ let lt = first_with-lt query names j found in ground arith
  ]
  | inr (at, found) ↦ ground arith
]

abbrev matches_of : Option ℕ → List Match
matches_of none = []
matches_of (some i) = record { index = i; indexes = [] } ∷ []

matches_of-lt :
    (names : List Text) (o : Option ℕ)
    → ((i : ℕ) → o ≡ some i → i < length names)
    → All (λ m. m.index < length names) (matches_of o)
matches_of-lt names none lt = tt
matches_of-lt names (some i) lt = (lt i refl, tt)

abbrev lower : ℕ → ℕ
lower c = if leb 65 c && leb c 90 then c + 32 else if nat_eq c 570 then 11365 else c

abbrev env : Env
env = record {
  Input = Text;
  input_value = λ t. t;
  set_value = λ v t. v;
  press = λ k t. t ++ k;
  paste = λ s t. t ++ s;
  find = λ query names. matches_of (first_with query names);
  lower = lower;
}

env-FindsIndexes : FindsIndexes env
env-FindsIndexes query names =
    matches_of-lt names (first_with query names) (first_with-lt query names)

abbrev item : Text → Text → ℕ → Text → Item
item name path depth parent = record {
  display_name = name;
  dim_suffix = [];
  context_name = name;
  path = path;
  tags = [];
  store_id = text "fs";
  matched_indexes = [];
  depth = depth;
  parent_path = parent;
  is_loading = false;
  expanded = false;
  expanded_empty = false;
}

abbrev expanded : Item → Item
expanded it = record it { expanded = true }

abbrev model : List Item → ℕ → Model env
model items cursor = record {
  show_preview = true;
  input = [];
  query = [];
  all_items = items;
  filtered = items;
  cursor = cursor;
  view_offset = 0;
  preview_content = [];
  preview_for_path = [];
  loading = false;
  aborted = false;
  selected = none;
  width = 80;
  height = 4;
  dynamic_stores = [];
}

-- Five characters of two bytes whose lower case takes three.
abbrev strokes : Text
strokes = 570 ∷ 570 ∷ 570 ∷ 570 ∷ 570 ∷ []

highlighted :
    improve_match_positions env (text "Prod") (text "my-PROD") [] ≡ ok (3 ∷ 4 ∷ 5 ∷ 6 ∷ [])
unfolding improve_match_positions index_from has_prefix strip_prefix rune_count
highlighted = refl

abbrev parent : Item
parent = expanded (item (text "mgmt") (text "k0s/mgmt") 0 [])

abbrev child : Item
child = item (text "dev") (text "k0s/mgmt/dev") 1 (text "k0s/mgmt")

abbrev stray : Item
stray = item (text "old") (text "k0s/gone/old") 1 (text "k0s/gone")

abbrev top : Item
top = item (text "prod") (text "fs/prod") 0 []

move_cursor_lem_example :
    ((move_cursor (negsuc 6) (model (parent ∷ child ∷ top ∷ []) 2)).cursor ≡ 0)
    × IsVisible (move_cursor (negsuc 6) (model (parent ∷ child ∷ top ∷ []) 2))
    × ((move_cursor (negsuc 6) (model (parent ∷ child ∷ top ∷ []) 2)).filtered
        ≡ parent ∷ child ∷ top ∷ [])
move_cursor_lem_example =
    move_cursor_lem (negsuc 6) (model (parent ∷ child ∷ top ∷ []) 2) (omega arith)

items-IsReady : IsReady (model (parent ∷ child ∷ top ∷ []) 1)
unfolding filter_items parent_of ◌==◌
items-IsReady = record {
  on_item = inr (omega arith);
  sound = (
    (
      (refl, (refl, (refl, (refl, tt)))),
      ((refl, (refl, (refl, tt))), ((refl, (refl, (refl, (refl, tt)))), tt)),
    ),
    (
      (inl refl, (parent, refl, refl)),
      ((inr (parent, refl, omega arith), (child, refl, refl)), ((inl refl, (top, refl, refl)), tt)),
    ),
  );
  fresh = refl;
}

update_safe_example :
    (m : Model env) × (cmds : List Cmd) × (update 2
        (key (text "left"))
        (model (parent ∷ child ∷ top ∷ []) 1)
      ≡ ok (m, cmds))
    × IsReady m
unfolding Accepts ◌==◌ parent_of
update_safe_example =
    update_safe 2 (key (text "left")) (model (parent ∷ child ∷ top ∷ []) 1) env-FindsIndexes
      items-IsReady (inr (omega arith, (omega arith, (omega arith, tt))))
