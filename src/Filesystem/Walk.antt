-- ===== src/Filesystem/Walk.antt =====
-- pkg/store/kubeconfig_store_file.go: the walk through the directories of a filesystem store. What the
-- operating system and path/filepath give is the record Tree. The walk takes fuel, one unit for each
-- call of walkFollowSymlinksInner that is open.
pub mod Links
use kswitch.Prelude.{
  ℕ, zero, suc, Text, text, ◌==◌, Bool, true, false, ◌||◌, if◌then◌else◌, is_elem, Option, none,
  some, List, [], ◌∷◌, ◌++◌, map,
}
use kswitch.Search.{SearchResult, path_found, search_error}
use kswitch.Filesystem.{FilesystemStore, search_files}

pub data Entry : Type 0 where
  link regular folder : Entry

-- `eval_symlinks` and `walk_dir` are those of path/filepath; `walk_dir` gives the paths with which the
-- callback is called, in order, and an error for a path that cannot be read. `stat_dir` says whether
-- what a path leads to is a directory, with `none` if there is nothing. `matched` is filepath.Match of
-- the kubeconfig name and the base name of a path.
pub record Tree : Type 0 where
  pub eval_symlinks : Text → Option Text
  pub walk_dir : Text → List (Text × Option Entry)
  pub stat_dir : Text → Option Bool
  pub matched : Text → Option Bool

-- The directories that were entered, what was sent, and whether the callback gave an error.
pub record Walk : Type 0 where
  pub visited : List Text
  pub sent : List Text
  pub failed : Bool

infixl 5 ◌>>=◌
abbrev ◌>>=◌ : Option Walk → (Walk → Option Walk) → Option Walk
none >>= f = none
some w >>= f = f w

module _ (tree : Tree) where
  send : Text → Option Bool → Walk → Walk
  send path none w = record w { failed = true }
  send path (some false) w = w
  send path (some true) w = record w { sent = w.sent ++ path ∷ [] }

  -- The callback of searchDirectory.
  unfoldable pub found : Text → Walk → Walk
  unfolding send
  found path w = send path (tree.matched path) w

  module _ (inner : Text → Walk → Option Walk) where
    followed : Text → Option Bool → Walk → Option Walk
    followed path none w = some w
    followed path (some true) w = inner path w
    followed path (some false) w = some (found path w)

    -- The callback of WalkDir.
    visit : Text → Option Entry → Walk → Option Walk
    unfolding followed
    visit path none w = some (record w { failed = true })
    visit path (some link) w = followed path (tree.stat_dir path) w
    visit path (some regular) w = some (found path w)
    visit path (some folder) w = some (found path w)

    visit_all : List (Text × Option Entry) → Walk → Option Walk
    unfolding visit
    visit_all [] w = some w
    visit_all ((path, entry) ∷ entries) w = visit path entry w >>= λ w'.
        let rest = visit_all entries w' in if w'.failed then some w' else rest

    entered : Text → Option Text → Walk → Option Walk
    unfolding visit_all
    entered root none w = visit_all (tree.walk_dir root) w
    entered root (some real) w =
        if is_elem real w.visited
        then some w
        else visit_all (tree.walk_dir root) (record w { visited = real ∷ w.visited })

  -- walkFollowSymlinksInner
  unfoldable pub walk_inner : ℕ → Text → Walk → Option Walk
  unfolding entered
  walk_inner zero root w = none
  walk_inner (suc fuel) root w = entered (walk_inner fuel) root (tree.eval_symlinks root) w

  -- walkFollowSymlinks
  unfoldable pub walk_follow_symlinks : ℕ → Text → Option Walk
  walk_follow_symlinks fuel root =
      walk_inner fuel root (record { visited = []; sent = []; failed = false })

  sent_by : Walk → List SearchResult
  sent_by w =
      map (λ path. path_found path []) w.sent ++ (if w.failed then search_error ∷ [] else [])

  unfoldable pub search_directory : ℕ → Text → Option (List SearchResult)
  unfolding sent_by
  search_directory fuel root = elim (walk_follow_symlinks fuel root) [
    | none ↦ none
    | some w ↦ some (sent_by w)
  ]
