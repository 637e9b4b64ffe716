-- ===== src/Kubernetes/Peers.antt =====
-- pkg/store/kubeconfig_store_kubernetes.go: how a Kubernetes store finds the cluster of its secrets in
-- another store. The stores are the records of Search, whose search is what StartSearch sends after
-- VerifyKubeconfigPaths was called, with or without an error; the home directory, filepath.Join and
-- filepath.Base are parameters.
pub mod References
pub mod Resolved
pub mod Setup
use kswitch.Prelude.{
  Text, text, ◌==◌, Bool, ◌||◌, if◌then◌else◌, is_empty, Option, none, some, List, [], ◌∷◌, ◌++◌,
}
use kswitch.Prelude.Dict.{Dict, read, assign}
use kswitch.Prelude.Cut.{cut}
use kswitch.Prelude.Strings.{strip_prefix, has_prefix, trim_prefix}
use kswitch.Prelude.Go.{Go, ok, err, ◌>>=◌}
use kswitch.Search.{SearchResult, path_found, search_error, Store}
use kswitch.Kubernetes.{KubernetesStore}

pub data ReferenceError : Type 0 where
  no_scheme no_store_id no_path : ReferenceError

abbrev pub store_ref_prefix : Text
store_ref_prefix = text "store://"

reference_of : Option (Text × Text) → Go ReferenceError (Text × Text)
reference_of none = err no_store_id
reference_of (some (id, path)) =
    if is_empty id then err no_store_id else if is_empty path then err no_path else ok (id, path)

behind_scheme : Option Text → Go ReferenceError (Text × Text)
unfolding reference_of
behind_scheme none = err no_scheme
behind_scheme (some rest) = reference_of (cut b'/' rest)

-- parseStoreRef
unfoldable pub parse_store_ref : Text → Go ReferenceError (Text × Text)
unfolding behind_scheme
parse_store_ref ref = behind_scheme (strip_prefix store_ref_prefix ref)

-- `home` is `none` where user.Current fails.
pub record Paths : Type 0 where
  pub home : Option Text
  pub join : Text → Text → Text
  pub base : Text → Text

pub data PeerError : Type 0 where
  bad_reference : ReferenceError → PeerError
  peer_missing not_retrieved found_not_retrieved : PeerError
  nothing_matches : List Text → PeerError

module _ (paths : Paths) where
  in_home : Text → Option Text → (Text → Text) → Text
  in_home path none f = path
  in_home path (some home) f = f home

  -- expandHomedir
  unfoldable pub expand_homedir : Text → Text
  unfolding in_home
  expand_homedir path =
      if path == text "~"
      then in_home path paths.home (λ home. home)
      else if has_prefix path (text "~/")
      then in_home path paths.home (λ home. paths.join home (trim_prefix path (text "~/")))
      else path

  unfoldable pub is_wanted : Text → Text → Bool
  is_wanted expanded p = p == expanded || paths.base p == paths.base expanded

  pub fetched : Text → Option Text → Go PeerError (Text × Text)
  fetched p none = err found_not_retrieved
  fetched p (some bytes) = ok (bytes, p)

  pub nothing_found : List Text → Go PeerError (Text × Text)
  nothing_found [] = err not_retrieved
  nothing_found (p ∷ available) = err (nothing_matches (p ∷ available))

  -- The loop over what the peer's search sends, with the paths that it has met.
  unfoldable pub look_up : Store → Text → List SearchResult → List Text → Go PeerError (Text × Text)
  unfolding fetched nothing_found
  look_up peer expanded [] available = nothing_found available
  look_up peer expanded (search_error ∷ results) available = look_up peer expanded results available
  look_up peer expanded (path_found p tags ∷ results) available =
      let rest = look_up peer expanded results (available ++ p ∷ []) in
      if is_wanted expanded p then fetched p (peer.get_kubeconfig_for_path p tags) else rest

  directly : Store → Text → Option Text → Go PeerError (Text × Text)
  directly peer expanded none = look_up peer expanded peer.search []
  directly peer expanded (some bytes) = ok (bytes, expanded)

  unfoldable pub resolve_context_path : Store → Text → Go PeerError (Text × Text)
  unfolding directly
  resolve_context_path peer context_path =
      let expanded = expand_homedir context_path in
      directly peer expanded (peer.get_kubeconfig_for_path expanded [])

  referenced : Go ReferenceError (Text × Text) → Go PeerError (Text × Text)
  referenced (ok r) = ok r
  referenced (err e) = err (bad_reference e)
  referenced Go.panic = Go.panic
  referenced Go.hang = Go.hang

  peer_of : Option Store → Go PeerError Store
  peer_of none = err peer_missing
  peer_of (some peer) = ok peer

  -- The kubeconfig that ResolvePeerStores leaves in the store.
  unfoldable pub peer_kubeconfig_for : Dict Store → KubernetesStore → Go PeerError Text
  unfolding referenced peer_of
  peer_kubeconfig_for all_stores s =
      if is_empty s.config.store_id
      then ok s.peer_kubeconfig
      else referenced (parse_store_ref s.config.store_id) >>= λ r.
          peer_of (read all_stores r.0) >>= λ peer.
          resolve_context_path peer r.1 >>= λ found. ok found.0

  -- The method ResolvePeerStores.
  unfoldable pub resolve_peer_stores : Dict Store → KubernetesStore → Go PeerError KubernetesStore
  unfolding peer_kubeconfig_for
  resolve_peer_stores all_stores s =
      peer_kubeconfig_for all_stores s >>= λ bytes. ok (record s { peer_kubeconfig = bytes })
