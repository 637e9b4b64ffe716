-- ===== src/Filesystem/Walk/Links.antt =====
-- What the walk sends, where links to directories are concerned.
use kswitch.Prelude.{
  ℕ, suc, Text, ==_refl, ◌≡◌, refl, ap, ◌∙◌, Bool, true, false, inl, inr, Bool-cases, if◌then◌else◌,
  is_elem, All, Option, none, some, List, [], ◌∷◌, ◌++◌, map, append_assoc,
}
use mathlib.Core.List.{map-append}
use kswitch.Search.{SearchResult, path_found, search_error}
use kswitch.Filesystem.Walk.{
  Entry, link, regular, folder, Tree, Walk, ◌>>=◌, send, found, followed, visit, visit_all, entered,
  walk_inner, walk_follow_symlinks, sent_by, search_directory,
}

module _ (tree : Tree) where
  -- Of a link to a directory: filepath.EvalSymlinks resolves it, and filepath.WalkDir, which does not
  -- follow links, visits nothing but the link.
  abbrev IsUnfollowed : Text → Option Bool → Type 0
  IsUnfollowed path none = Unit
  IsUnfollowed path (some false) = Unit
  IsUnfollowed path (some true) =
      (real : Text) × (tree.eval_symlinks path ≡ some real)
      × (tree.walk_dir path ≡ (path, some link) ∷ [])

  abbrev pub LinkIsUnfollowed : Text × Option Entry → Type 0
  LinkIsUnfollowed (path, none) = Unit
  LinkIsUnfollowed (path, some regular) = Unit
  LinkIsUnfollowed (path, some folder) = Unit
  LinkIsUnfollowed (path, some link) = IsUnfollowed path (tree.stat_dir path)

  -- The paths that match, up to the first error: those of files and directories, and of links to
  -- files.
  if_matched : Text → Option Bool → List SearchResult → List SearchResult
  if_matched path none rest = search_error ∷ []
  if_matched path (some true) rest = path_found path [] ∷ rest
  if_matched path (some false) rest = rest

  link_to : Text → Option Bool → List SearchResult → List SearchResult
  unfolding if_matched
  link_to path none rest = rest
  link_to path (some true) rest = rest
  link_to path (some false) rest = if_matched path (tree.matched path) rest

  pub matching : List (Text × Option Entry) → List SearchResult
  unfolding if_matched link_to
  matching [] = []
  matching ((path, none) ∷ entries) = search_error ∷ []
  matching ((path, some link) ∷ entries) = link_to path (tree.stat_dir path) (matching entries)
  matching ((path, some regular) ∷ entries) = if_matched path (tree.matched path) (matching entries)
  matching ((path, some folder) ∷ entries) = if_matched path (tree.matched path) (matching entries)

  -- A walk that has not failed goes on with `rest`.
  abbrev GoesOn : Option Walk → Walk → List SearchResult → Type 0
  GoesOn result w rest =
      (w' : Walk) × (result ≡ some w')
      × (sent_by tree w' ≡ map (λ path. path_found path []) w.sent ++ rest)

  -- A link to a directory is entered twice, and nothing is sent.
  link_twice :
      (fuel : ℕ) (path : Text) (w : Walk)
      → w.failed ≡ false
      → IsUnfollowed path (some true)
      → tree.stat_dir path ≡ some true
      → (visited : List Text) × (walk_inner tree (suc (suc fuel)) path w
          ≡ some (record w { visited = visited }))
  unfolding walk_inner entered visit_all visit followed
  link_twice fuel path w going (real, resolves, alone) leads =
      elim (Bool-cases (is_elem real w.visited)) [
        | inl seen ↦ (w.visited, simp (resolves, seen) (refl))
        | inr new ↦
            (real ∷ w.visited, simp (resolves, new, alone, leads, ==_refl real, going) (refl))
      ]

  module _ (inner : Text → Walk → Option Walk) (entries : List (Text × Option Entry)) where
    abbrev continued : Walk → Option Walk
    continued w = if w.failed then some w else visit_all tree inner entries w

    goes_on : (w : Walk) → w.failed ≡ false → continued w ≡ visit_all tree inner entries w
    goes_on w going = ap (λ (b : Bool). if b then some w else visit_all tree inner entries w) going

    -- What the callback sends for a path, and the entries behind it.
    after_send :
        (path : Text) (m : Option Bool) (w : Walk)
        → ((w' : Walk)
            → w'.failed ≡ false
            → GoesOn (visit_all tree inner entries w') w' (matching entries))
        → w.failed ≡ false
        → GoesOn (continued (send tree path m w)) w (if_matched path m (matching entries))
    unfolding send if_matched sent_by
    after_send path none w ih going = (record w { failed = true }, refl, refl)
    after_send path (some false) w ih going = simp going (ih w going)
    after_send path (some true) w ih going =
        let w1 : Walk = record w { sent = w.sent ++ path ∷ [] } in
        let (w', ends, sends) = ih w1 going in
        (
          w',
          goes_on w1 going ∙ ends,
          sends
              ∙ ap (λ l. l ++ matching entries)
                  (map-append (λ p. path_found p []) w.sent (path ∷ []))
              ∙ append_assoc (map (λ p. path_found p []) w.sent) (path_found path [] ∷ [])
                  (matching entries),
        )

  module _ (fuel : ℕ) where
    abbrev deep : Text → Walk → Option Walk
    deep = walk_inner tree (suc (suc fuel))

    after_link :
        (path : Text) (entries : List (Text × Option Entry)) (leads : Option Bool) (w : Walk)
        → tree.stat_dir path ≡ leads
        → IsUnfollowed path leads
        → ((w' : Walk)
            → w'.failed ≡ false
            → GoesOn (visit_all tree deep entries w') w' (matching entries))
        → w.failed ≡ false
        → GoesOn
            (followed tree deep path leads w >>= continued deep entries)
            w
            (link_to path leads (matching entries))
    unfolding followed link_to found
    after_link path entries none w is_dir unfollowed ih going = simp going (ih w going)
    after_link path entries (some false) w is_dir unfollowed ih going =
        after_send deep entries path (tree.matched path) w ih going
    after_link path entries (some true) w is_dir unfollowed ih going =
        let (visited, back) = link_twice fuel path w going unfollowed is_dir in
        let w1 : Walk = record w { visited = visited } in
        let (w', ends, sends) = ih w1 going in
        (
          w',
          ap (λ r. r >>= continued deep entries) back ∙ goes_on deep entries w1 going ∙ ends,
          sends,
        )

    visit_all-GoesOn :
        (entries : List (Text × Option Entry)) (w : Walk)
        → All LinkIsUnfollowed entries
        → w.failed ≡ false
        → GoesOn (visit_all tree deep entries w) w (matching entries)
    unfolding visit_all visit matching sent_by found
    visit_all-GoesOn [] w h going = (w, refl, simp going (refl))
    visit_all-GoesOn ((path, none) ∷ entries) w h going = (record w { failed = true }, refl, refl)
    visit_all-GoesOn ((path, some link) ∷ entries) w (here, h) going =
        after_link path entries (tree.stat_dir path) w refl here
          (λ w' g. visit_all-GoesOn entries w' h g) going
    visit_all-GoesOn ((path, some regular) ∷ entries) w (here, h) going =
        after_send deep entries path (tree.matched path) w (λ w' g. visit_all-GoesOn entries w' h g)
          going
    visit_all-GoesOn ((path, some folder) ∷ entries) w (here, h) going =
        after_send deep entries path (tree.matched path) w (λ w' g. visit_all-GoesOn entries w' h g)
          going

from_root :
    (tree : Tree) (fuel : ℕ) (root : Text)
    → All (LinkIsUnfollowed tree) (tree.walk_dir root)
    → (real : Option Text)
    → GoesOn tree
        (entered tree
          (deep tree fuel)
          root
          real
          (record { visited = []; sent = []; failed = false }))
        (record { visited = []; sent = []; failed = false })
        (matching tree (tree.walk_dir root))
unfolding entered
from_root tree fuel root h none = visit_all-GoesOn tree fuel (tree.walk_dir root) _ h refl
from_root tree fuel root h (some real) = visit_all-GoesOn tree fuel (tree.walk_dir root) _ h refl

-- Where, of a link to a directory that WalkDir visits, EvalSymlinks resolves it and WalkDir does not
-- follow it: the walk of a directory ends, at most two calls deep in its own, and sends what WalkDir
-- visits there and what matches, up to the first error; nothing behind a link to a directory is sent.
pub search_directory-matching :
    (tree : Tree) (fuel : ℕ) (root : Text)
    → All (LinkIsUnfollowed tree) (tree.walk_dir root)
    → search_directory tree (suc (suc (suc fuel))) root ≡ some (matching tree (tree.walk_dir root))
unfolding search_directory walk_follow_symlinks walk_inner entered
search_directory-matching tree fuel root h =
    let (w', ends, sends) = from_root tree fuel root h (tree.eval_symlinks root) in
    ap (λ r. elim r [ none ↦ none | some w ↦ some (sent_by tree w) ]) ends ∙ ap some sends
