-- ===== src/Filesystem.antt =====
-- pkg/store/kubeconfig_store_file.go: the paths that a filesystem store searches, and its prefix. The
-- home directory, os.Stat, filepath.Join and the parent directory's name are parameters.
pub mod Verified
pub mod Walk
pub mod Tests
use kswitch.Prelude.{
  Text, text, ◌==◌, Bool, true, false, not, ◌&&◌, if◌then◌else◌, is_empty, is_elem, Option, none,
  some, List, [], ◌∷◌, ◌++◌, map,
}
use kswitch.Prelude.Dict.{Dict}
use kswitch.Prelude.Strings.{has_prefix, trim_prefix}
use kswitch.Prelude.Go.{Go, ok, err, ◌>>=◌}
use kswitch.Search.{SearchResult, path_found}

-- What os.Stat says of a path.
pub data Stat : Type 0 where
  not_there unreadable directory file : Stat

-- What the operating system gives.
pub record System : Type 0 where
  pub home : Text
  pub join : Text → Text → Text
  pub stat : Text → Stat
  -- filepath.Base of filepath.Dir
  pub parent : Text → Text

pub data Error : Type 0 where
  not_read : Text → Error
  none_there : Error

-- What VerifyKubeconfigPaths leaves in the store.
pub record FilesystemStore : Type 0 where
  pub kubeconfig_directories : List Text
  pub kubeconfig_filepaths : List Text

module _ (system : System) where
  unfoldable pub expand : Text → Text
  expand path =
      if path == text "~"
      then system.home
      else if has_prefix path (text "~/")
      then system.join system.home (trim_prefix path (text "~/"))
      else path

  with_path : Text → Stat → FilesystemStore → Go Error FilesystemStore
  with_path path not_there s = ok s
  with_path path unreadable s = err (not_read path)
  with_path path directory s =
      ok (record s { kubeconfig_directories = s.kubeconfig_directories ++ expand path ∷ [] })
  with_path path file s =
      ok (record s { kubeconfig_filepaths = s.kubeconfig_filepaths ++ expand path ∷ [] })

  -- The loop, with the paths that it has met.
  unfoldable pub verify_paths : List Text → List Text → FilesystemStore → Go Error FilesystemStore
  unfolding with_path
  verify_paths seen [] s = ok s
  verify_paths seen (path ∷ paths) s =
      (if is_elem path seen then ok s else with_path path (system.stat (expand path)) s) >>= λ s'.
      verify_paths (path ∷ seen) paths s'

  checked : FilesystemStore → Go Error FilesystemStore
  checked s =
      if is_empty s.kubeconfig_directories && is_empty s.kubeconfig_filepaths
      then err none_there
      else ok s

  unfoldable pub verify_kubeconfig_paths : List Text → Go Error FilesystemStore
  unfolding checked
  verify_kubeconfig_paths paths =
      verify_paths [] paths (record { kubeconfig_directories = []; kubeconfig_filepaths = [] })
      >>= checked

  is_false : Option Bool → Bool
  is_false none = false
  is_false (some b) = not b

  -- `show_prefix` is of the store's configuration.
  unfoldable pub get_context_prefix : Option Bool → Text → Text
  unfolding is_false
  get_context_prefix show_prefix path = if is_false show_prefix then [] else system.parent path

-- StartSearch, for the paths that are files.
unfoldable pub search_files : FilesystemStore → List SearchResult
search_files s = map (λ path. path_found path []) s.kubeconfig_filepaths
