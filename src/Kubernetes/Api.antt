-- ===== src/Kubernetes/Api.antt =====
-- pkg/store/kubeconfig_store_kubernetes.go: the search for secrets and the retrieval of a kubeconfig,
-- through the API of the cluster. What makes a client of a kubeconfig (`client_for`), the client of the
-- current context and sort.Strings are parameters; where the list of all secrets fails, it is empty.
pub mod Retrieved
use kswitch.Prelude.{
  Text, text, ◌==◌, Bool, true, false, not, ◌&&◌, ◌||◌, if◌then◌else◌, is_empty, Option, none, some,
  List, [], ◌∷◌, ◌++◌, map,
}
use kswitch.Prelude.Dict.{Dict, read}
use kswitch.Prelude.Go.{Go, ok, err, panic, hang, ◌>>=◌}
use kswitch.Search.{SearchResult, path_found, search_error}
use kswitch.Kubernetes.{
  Config, Secret, Client, KubernetesStore, Error, no_client, not_listed, no_match, secret_missing,
  key_missing, kubeconfig_of, results_of, names_for,
}

keys : Dict Text → List Text
keys = map (λ entry. entry.0)

module _ (client_for : Text → Option Client) (ambient : Option Client)
    (sorted : List Text → List Text) where
  of_kubeconfig : Text → Option Client
  of_kubeconfig kubeconfig = if is_empty kubeconfig then ambient else client_for kubeconfig

  overridden : Option Client → Text → Option Client
  unfolding of_kubeconfig
  overridden none kubeconfig = of_kubeconfig kubeconfig
  overridden (some client) kubeconfig = some client

  unfoldable pub build_client : KubernetesStore → Option Client
  unfolding overridden
  build_client s = overridden s.client_override s.peer_kubeconfig

  names_of_all : Option (List Secret) → List Text
  names_of_all none = []
  names_of_all (some secrets) = sorted (map (λ (s : Secret). s.name) secrets)

  -- listSecretNames, and the names for the error of listSecrets.
  unfoldable pub list_secret_names : Client → Text → List Text
  unfolding names_of_all
  list_secret_names client namespace = names_of_all (client.list namespace [])

  by_name : Option Secret → Go Error (List Secret)
  by_name none = err not_listed
  by_name (some secret) = ok (secret ∷ [])

  by_labels : Client → Text → Option (List Secret) → Go Error (List Secret)
  by_labels client namespace none = err not_listed
  by_labels client namespace (some []) = err (no_match (list_secret_names client namespace))
  by_labels client namespace (some (s ∷ secrets)) = ok (s ∷ secrets)

  listed_by : Config → Option Client → Go Error (List Secret)
  unfolding by_name by_labels
  listed_by cfg none = err no_client
  listed_by cfg (some client) =
      if not (is_empty cfg.secret_name)
      then by_name (client.get cfg.namespace cfg.secret_name)
      else by_labels client cfg.namespace (client.list cfg.namespace cfg.secret_label_selector)

  unfoldable pub list_secrets : KubernetesStore → Go Error (List Secret)
  unfolding listed_by
  list_secrets s = listed_by s.config (build_client s)

  searched : Config → Go Error (List Secret) → List SearchResult
  searched cfg (ok secrets) = results_of cfg secrets
  searched cfg (err e) = search_error ∷ []
  searched cfg panic = []
  searched cfg hang = []

  unfoldable pub start_search : KubernetesStore → List SearchResult
  unfolding searched
  start_search s = searched s.config (list_secrets s)

  kubeconfig_in : Text → Secret → Option Text → Go Error Text
  unfolding keys
  kubeconfig_in name secret none = err (key_missing (sorted (keys secret.values)))
  kubeconfig_in name secret (some raw) = ok (kubeconfig_of raw name)

  of_secret : Config → Client → Text → Text → Option Secret → Go Error Text
  unfolding kubeconfig_in
  of_secret cfg client namespace name none =
      err (secret_missing (list_secret_names client namespace))
  of_secret cfg client namespace name (some secret) =
      kubeconfig_in name secret (read secret.values cfg.path)

  retrieved : Config → Option Client → Text × Text → Go Error Text
  unfolding of_secret
  retrieved cfg none names = err no_client
  retrieved cfg (some client) (namespace, name) =
      of_secret cfg client namespace name (client.get namespace name)

  unfoldable pub get_kubeconfig_for_path : KubernetesStore → Text → Dict Text → Go Error Text
  unfolding retrieved
  get_kubeconfig_for_path s path tags = names_for path tags >>= retrieved s.config (build_client s)
