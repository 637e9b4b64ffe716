-- ===== src/Kubernetes/Peers/Resolved.antt =====
-- What a reference to the cluster of another store is resolved to.
use kswitch.Prelude.{Text, ◌≡◌, true, false, none, some, List, [], ◌∷◌, ◌++◌}
use kswitch.Prelude.Dict.{Dict}
use kswitch.Prelude.Go.{Go, ok}
use kswitch.Search.{SearchResult, path_found, search_error, Store}
use kswitch.Kubernetes.Peers.{Paths, PeerError, expand_homedir, is_wanted, fetched, nothing_found}

module _ (paths : Paths) where
  -- No path of the results is that, or has its base name.
  abbrev pub NoneWanted : Text → List SearchResult → Type 0
  NoneWanted expanded [] = Unit
  NoneWanted expanded (search_error ∷ results) = NoneWanted expanded results
  NoneWanted expanded (path_found p tags ∷ results) =
      (is_wanted paths expanded p ≡ false) × NoneWanted expanded results

  abbrev pub paths_of : List SearchResult → List Text
  paths_of [] = []
  paths_of (search_error ∷ results) = paths_of results
  paths_of (path_found p tags ∷ results) = p ∷ paths_of results

  module _ (peer : Store) (path : Text) where
    -- What the peer is asked for gives the first of these that applies: the kubeconfig of the path
    -- itself, that of the first result of its search that has the path or its base name, or an error.
    abbrev pub IsResolved : Go PeerError (Text × Text) → Type 0
    IsResolved found =
        let expanded = expand_homedir paths path in
        ((bytes : Text)
          → peer.get_kubeconfig_for_path expanded [] ≡ some bytes
          → found ≡ ok (bytes, expanded))
        × ((p : Text) (tags : Dict Text) (before after : List SearchResult)
            → peer.get_kubeconfig_for_path expanded [] ≡ none
            → peer.search ≡ before ++ path_found p tags ∷ after
            → NoneWanted expanded before
            → is_wanted paths expanded p ≡ true
            → found ≡ fetched paths p (peer.get_kubeconfig_for_path p tags))
        × (peer.get_kubeconfig_for_path expanded [] ≡ none
            → NoneWanted expanded peer.search
            → found ≡ nothing_found paths (paths_of peer.search))
