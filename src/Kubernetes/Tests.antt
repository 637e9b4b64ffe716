-- ===== src/Kubernetes/Tests.antt =====
-- A secret with a token and one without the key, in the cluster of a file that another store finds.
use kswitch.Prelude.{
  Text, text, ◌==◌, ◌≡◌, refl, true, if◌then◌else◌, keep_if, map, All, Option, none, some, List, [],
  ◌∷◌, ◌++◌, arith,
}
use mathlib.Core.Logic.{◌↔◌}
use kswitch.Prelude.Dict.{read, assign, delete}
use kswitch.Prelude.Cut.{cut, Lacks, Lacks-of_test}
use kswitch.Prelude.Strings.{strip_prefix, has_prefix, trim_prefix}
use kswitch.Prelude.Go.{Go, ok}
use kswitch.Search.{path_found, Store}
use kswitch.Kubernetes.{
  Secret, Client, KubernetesStore, has_key, results_of, tags_of, aliases_of, label_aliases,
  value_of, secret_found, secret_path,
}
use kswitch.Kubernetes.Api.{start_search, build_client, list_secrets}
use kswitch.Kubernetes.Api.Retrieved.{IsRetrieved, result_for, start_search-IsRetrieved}
use kswitch.Kubernetes.Peers.{
  Paths, parse_store_ref, expand_homedir, resolve_context_path, look_up, is_wanted,
  resolve_peer_stores, peer_kubeconfig_for,
}
use kswitch.Kubernetes.Peers.References.{IsReference, parse_store_ref-IsReference}
use kswitch.Kubernetes.Peers.Setup.{AnyStore, kubernetes, other, by_id, resolve_peer_stores_for_all}
use kswitch.Kubernetes.Peers.Setup.Order.{
  RefersOutside, resolve_each, resolve_peer_stores_for_all-each,
}

abbrev token : Secret
token = record {
  namespace = text "infra";
  name = text "dev";
  values = (text "kubeconfig", text "abc") ∷ [];
  labels = (text "alias", text "d") ∷ [];
}

abbrev certificate : Secret
certificate = record { namespace = text "infra"; name = text "tls"; values = []; labels = [] }

abbrev client : Client
client = record {
  get = λ namespace name. if name == text "dev" then some token else some certificate;
  list = λ namespace selector. some (token ∷ certificate ∷ []);
}

abbrev store : KubernetesStore
store = record {
  id = text "kubernetes.default";
  config = record {
    store_id = text "store://filesystem.default/prod";
    namespace = text "infra";
    secret_name = [];
    secret_label_selector = text "kind=cluster";
    path = text "kubeconfig";
    alias_list = [];
    from_labels = text "alias" ∷ [];
  };
  peer_kubeconfig = [];
  client_override = none;
  show_prefix = none;
  required = none;
  refresh_index_after = none;
}

abbrev client_for : Text → Option Client
client_for bytes = some client

abbrev sorted : List Text → List Text
sorted names = names

abbrev files : Store
files = record {
  id = text "filesystem.default";
  kind = text "filesystem";
  verifies = true;
  required = none;
  refresh_index_after = none;
  get_context_prefix = λ path. [];
  get_kubeconfig_for_path =
      λ path tags. if path == text "/home/me/prod" then some (text "bytes") else none;
  search = path_found (text "/home/me/prod") [] ∷ [];
}

abbrev paths : Paths
paths = record {
  home = some (text "/home/me");
  join = λ a b. a ++ text "/" ++ b;
  base = λ path. if path == text "/home/me/prod" then text "prod" else path;
}

one_result :
    start_search client_for (some client) sorted store
    ≡ path_found (text "infra/dev") (
        (text "aliases", text "d")
        ∷ (text "namespace", text "infra")
        ∷ (text "secretName", text "dev")
        ∷ [])
      ∷ []
unfolding start_search list_secrets build_client results_of has_key secret_found secret_path tags_of
    aliases_of label_aliases value_of read assign delete ◌==◌
one_result = refl

resolved_by_name :
    resolve_peer_stores paths ((text "filesystem.default", files) ∷ []) store
    ≡ ok (record store { peer_kubeconfig = text "bytes" })
unfolding resolve_peer_stores peer_kubeconfig_for parse_store_ref strip_prefix cut read ◌==◌
    resolve_context_path expand_homedir has_prefix look_up is_wanted trim_prefix
resolved_by_name = refl

infra : Lacks b'/' (text "infra")
infra = Lacks-of_test b'/' (text "infra") refl

start_search-IsRetrieved_example :
    (start_search client_for (some client) sorted store
      ≡ map (result_for store.config) (keep_if (has_key store.config) (token ∷ certificate ∷ [])))
    × All
        (IsRetrieved client_for (some client) sorted store)
        (keep_if (has_key store.config) (token ∷ certificate ∷ []))
unfolding build_client list_secrets ◌==◌
start_search-IsRetrieved_example =
    start_search-IsRetrieved client_for (some client) sorted store client (token ∷ certificate ∷ [])
      refl refl ((refl, refl, refl, infra), ((refl, refl, refl, infra), tt))

parse_store_ref-IsReference_example :
    (parse_store_ref (text "store://gke.eu/a--b") ≡ ok (text "gke.eu", text "a--b"))
    ↔ IsReference (text "store://gke.eu/a--b") (text "gke.eu") (text "a--b")
parse_store_ref-IsReference_example =
    parse_store_ref-IsReference (text "store://gke.eu/a--b") (text "gke.eu") (text "a--b")

abbrev stores : List AnyStore
stores = kubernetes store ∷ other files ∷ []

outside : RefersOutside stores (kubernetes store)
unfolding parse_store_ref strip_prefix cut ◌==◌
outside id path e = let same : text "filesystem.default" ≡ id = ground arith in rw (← same) (refl)

resolve_peer_stores_for_all-each_example :
    resolve_peer_stores_for_all client_for (some client) sorted paths stores
    ≡ resolve_each client_for
        (some client)
        sorted
        paths
        (by_id client_for (some client) sorted paths [] stores)
        stores
resolve_peer_stores_for_all-each_example =
    resolve_peer_stores_for_all-each client_for (some client) sorted paths stores
      (outside, (tt, tt))
