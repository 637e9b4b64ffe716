-- ===== src/Kubernetes/Peers/Setup.antt =====
-- pkg/store/kubeconfig_store_kubernetes.go: ResolvePeerStoresForAll, on all stores of the
-- configuration. A Kubernetes store is reached as it is or through a cache, which keeps its identity;
-- its answers are those of its present state.
pub mod Others
pub mod Order
use kswitch.Prelude.{Text, text, Bool, true, Option, none, some, List, [], ◌∷◌, ◌++◌, if◌then◌else◌}
use kswitch.Prelude.Dict.{Dict, read, assign}
use kswitch.Prelude.Go.{Go, ok, err, panic, hang, ◌>>=◌}
use kswitch.Search.{Store}
use kswitch.Kubernetes.{Client, KubernetesStore, Error, get_context_prefix}
use kswitch.Kubernetes.Api.{get_kubeconfig_for_path, start_search}
use kswitch.Kubernetes.Peers.{Paths, PeerError, peer_kubeconfig_for}

pub data AnyStore : Type 0 where
  kubernetes : KubernetesStore → AnyStore
  cached : (Store → Store) → KubernetesStore → AnyStore
  other : Store → AnyStore

unfoldable pub store_id : AnyStore → Text
store_id (kubernetes k) = k.id
store_id (cached cache k) = k.id
store_id (other s) = s.id

answered : Go Error Text → Option Text
answered (ok bytes) = some bytes
answered (err e) = none
answered panic = none
answered hang = none

module _ (client_for : Text → Option Client) (ambient : Option Client)
    (sorted : List Text → List Text) (paths : Paths) where
  -- A Kubernetes store by the methods of storetypes.KubeconfigStore.
  unfoldable pub store_of : KubernetesStore → Store
  unfolding answered
  store_of k = record {
    id = k.id;
    kind = text "kubernetes";
    verifies = true;
    required = k.required;
    refresh_index_after = k.refresh_index_after;
    get_context_prefix = λ path. get_context_prefix k.show_prefix;
    get_kubeconfig_for_path =
        λ path tags. answered (get_kubeconfig_for_path client_for ambient sorted k path tags);
    search = start_search client_for ambient sorted k;
  }

  unfoldable pub as_store : AnyStore → Store
  unfolding store_of
  as_store (kubernetes k) = store_of k
  as_store (cached cache k) = cache (store_of k)
  as_store (other s) = s

  -- The map from the identities to the stores: the last store of an identity stays.
  unfoldable pub by_id : Dict Store → List AnyStore → Dict Store
  unfolding as_store store_id
  by_id m [] = m
  by_id m (s ∷ stores) = by_id (assign m (store_id s) (as_store s)) stores

  with_kubeconfig : AnyStore → Text → AnyStore
  with_kubeconfig (kubernetes k) bytes = kubernetes (record k { peer_kubeconfig = bytes })
  with_kubeconfig (cached cache k) bytes = cached cache (record k { peer_kubeconfig = bytes })
  with_kubeconfig (other s) bytes = other s

  resolved : Dict Store → AnyStore → Go PeerError AnyStore
  unfolding with_kubeconfig
  resolved m (kubernetes k) =
      peer_kubeconfig_for paths m k >>= λ b. ok (with_kubeconfig (kubernetes k) b)
  resolved m (cached cache k) =
      peer_kubeconfig_for paths m k >>= λ b. ok (with_kubeconfig (cached cache k) b)
  resolved m (other s) = ok (other s)

  -- The loop: a reference is resolved with the stores before it as they were left.
  unfoldable pub resolve_from : List AnyStore → List AnyStore → Go PeerError (List AnyStore)
  unfolding resolved
  resolve_from done [] = ok done
  resolve_from done (s ∷ todo) =
      resolved (by_id [] (done ++ s ∷ todo)) s >>= λ s'. resolve_from (done ++ s' ∷ []) todo

  unfoldable pub resolve_peer_stores_for_all : List AnyStore → Go PeerError (List AnyStore)
  resolve_peer_stores_for_all stores = resolve_from [] stores
