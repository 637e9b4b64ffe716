-- ===== src/KindClusters.antt =====
-- pkg/store/kubeconfig_store_kind.go: the clusters that the tool kind lists, and the kubeconfig of one.
-- A run of the tool is a parameter.
pub mod Listed
pub mod Tests
use kswitch.Prelude.{
  ℕ, Text, text, ◌==◌, Bool, true, false, not, if◌then◌else◌, nat_eq, is_empty, Option, none, some,
  List, [], ◌∷◌, map, keep_if,
}
use kswitch.Prelude.Dict.{Dict, read}
use kswitch.Prelude.Split.{before_first}
use kswitch.Prelude.Strings.{contains}
use kswitch.Alias.{trim_space}
use kswitch.History.{newline}
use kswitch.Search.{SearchResult, path_found, search_error}

-- What a run of the tool gives: its output, or what it printed before it failed.
pub data Run : Type 0 where
  succeeded failed : Text → Run

-- strings.SplitSeq(s, "\n")
unfoldable pub split_newlines : Text → List Text
split_newlines [] = [] ∷ []
split_newlines (c ∷ s) =
    let rest = split_newlines s in if nat_eq c newline then [] ∷ rest else before_first c rest

unfoldable pub split_lines : Text → List Text
split_lines s = keep_if (λ t. not (is_empty t)) (map trim_space (split_newlines s))

module _ (run_kind : List Text → Run) where
  unfoldable pub cluster_found : Text → SearchResult
  cluster_found name = path_found name ((text "name", name) ∷ [])

  listed : Run → List SearchResult
  listed (succeeded out) = map cluster_found (split_lines (trim_space out))
  listed (failed out) =
      if contains (trim_space out) (text "No kind clusters found") then [] else search_error ∷ []

  unfoldable pub start_search : List SearchResult
  unfolding listed
  start_search = listed (run_kind (text "get" ∷ text "clusters" ∷ []))

  named_by : Text → Option Text → Text
  named_by path none = path
  named_by path (some name) = if is_empty name then path else name

  -- The cluster that GetKubeconfigForPath asks for.
  unfoldable pub cluster_of_path : Text → Dict Text → Text
  unfolding named_by
  cluster_of_path path tags = named_by path (read tags (text "name"))

  pub printed : Run → Option Text
  printed (succeeded out) = some (trim_space out)
  printed (failed out) = none

  unfoldable pub get_kubeconfig_for_path : Text → Dict Text → Option Text
  unfolding printed
  get_kubeconfig_for_path path tags =
      printed
        (run_kind (text "get" ∷ text "kubeconfig" ∷ text "--name" ∷ cluster_of_path path tags ∷ []))
