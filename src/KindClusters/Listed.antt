-- ===== src/KindClusters/Listed.antt =====
-- Each result of the search is a cluster whose kubeconfig can be asked for.
use kswitch.Prelude.{
  Text, text, ◌==◌, ◌≡◌, refl, false, not, Bool-cases, inl, inr, is_empty, List, [], ◌∷◌, map,
  keep_if, All,
}
use kswitch.Prelude.Dict.{read}
use kswitch.Prelude.Strings.{contains}
use kswitch.Alias.{trim_space}
use kswitch.Search.{SearchResult, path_found, search_error}
use kswitch.KindClusters.{
  Run, succeeded, failed, split_newlines, split_lines, cluster_found, listed, start_search,
  cluster_of_path, printed, get_kubeconfig_for_path,
}

module _ (run_kind : List Text → Run) where
  -- A cluster with a name that is not empty, and by which the tool is asked for its kubeconfig.
  abbrev pub IsCluster : SearchResult → Type 0
  IsCluster (path_found path tags) =
      (is_empty path ≡ false)
      × (get_kubeconfig_for_path run_kind path tags
          ≡ printed run_kind
              (run_kind (text "get" ∷ text "kubeconfig" ∷ text "--name" ∷ path ∷ [])))
  IsCluster search_error = Unit

  found-IsCluster :
      (names : List Text)
      → All IsCluster (map (cluster_found run_kind) (keep_if (λ t. not (is_empty t)) names))
  unfolding cluster_found get_kubeconfig_for_path cluster_of_path read ◌==◌
  found-IsCluster [] = tt
  found-IsCluster ([] ∷ names) = found-IsCluster names
  found-IsCluster ((c ∷ s) ∷ names) = ((refl, refl), found-IsCluster names)

  listed-IsCluster : (r : Run) → All IsCluster (listed run_kind r)
  unfolding listed split_lines
  listed-IsCluster (succeeded out) =
      found-IsCluster (map trim_space (split_newlines (trim_space out)))
  listed-IsCluster (failed out) =
      elim (Bool-cases (contains (trim_space out) (text "No kind clusters found"))) [
        | inl empty_ ↦ rw empty_ tt
        | inr broken ↦ rw broken (tt, tt)
      ]

-- Whatever the tool prints: each result of the search for its clusters is an error or a cluster with a
-- name, for which the store asks the tool by that name when its kubeconfig is wanted with the tags of
-- the result.
pub start_search-IsCluster :
    (run_kind : List Text → Run) → All (IsCluster run_kind) (start_search run_kind)
unfolding start_search
start_search-IsCluster run_kind =
    listed-IsCluster run_kind (run_kind (text "get" ∷ text "clusters" ∷ []))
