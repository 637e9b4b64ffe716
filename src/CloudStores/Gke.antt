-- ===== src/CloudStores/Gke.antt =====
-- pkg/store/kubeconfig_store_gke.go. Google's client library is a parameter.
-- Go ranges over the projects in no fixed order: here it is that of the list.
pub mod Projects
pub mod Cached
pub mod Retrieved
use kswitch.Prelude.{
  Text, text, ◌==◌, Bool, true, false, not, if◌then◌else◌, is_empty, is_elem, Option, none, some,
  List, [], ◌∷◌, ◌++◌,
}
use kswitch.Prelude.Dict.{Dict, read, assign}
use kswitch.Prelude.Go.{Go, ok, err, panic, ◌>>=◌, ◌>>◌}
use kswitch.Prelude.Strings.{trim_prefix}
use kswitch.Sanitize.{ExecProvider}
use kswitch.Search.{SearchResult, path_found, search_error}
use kswitch.CloudStores.{KubeconfigFile, single_context, three_pieces}

-- The fields of types.StoreConfigGKE that the store reads.
pub record Config : Type 0 where
  -- GKEAuthentication, and in it AuthenticationType.
  pub authentication_type : Option (Option Text)
  pub gcp_account : Option Text
  pub project_ids : List Text
  pub preferred_endpoint : Option Text

-- ControlPlaneEndpointsConfig: the DNS endpoint, and the private and the public one.
pub record Endpoints : Type 0 where
  pub dns : Option Text
  pub ip : Option (Text × Text)

pub record GkeCluster : Type 0 where
  pub name : Text
  pub location : Text
  pub endpoint : Text
  -- MasterAuth, and in it the certificate.
  pub master_auth : Option Text
  pub control_plane : Option Endpoints

pub data Error : Type 0 where
  no_client no_login no_accounts account_missing account_inactive no_manager not_listed : Error
  no_projects bad_path not_got no_auth no_certificate no_endpoint : Error

-- The API: the clusters of a project, and a cluster by its name in the form
-- projects/*/locations/*/clusters/*.
pub record Client : Type 0 where
  pub list : Text → Option (List GkeCluster)
  pub get : Text → Option GkeCluster

unfoldable pub path_of : Text → GkeCluster → Text
path_of project cluster =
    (text "gke_" ++ project) ++ b'-' ∷ b'-' ∷ (cluster.location ++ b'-' ∷ b'-' ∷ cluster.name)

-- The inner loop of StartSearch: the results, and the cache.
unfoldable pub clusters_found :
    Text → List GkeCluster → Dict GkeCluster → List SearchResult × Dict GkeCluster
clusters_found project [] cache = ([], cache)
clusters_found project (c ∷ clusters) cache =
    let (results, cache') = clusters_found project clusters (assign cache (path_of project c) c) in
    (path_found (path_of project c) [] ∷ results, cache')

of_project : Text → Option (List GkeCluster) → Dict GkeCluster → List SearchResult × Dict GkeCluster
of_project project none cache = (search_error ∷ [], cache)
of_project project (some clusters) cache = clusters_found project clusters cache

module _ (client : Client) where
  unfoldable pub search_projects : Dict Text → Dict GkeCluster → List SearchResult × Dict GkeCluster
  unfolding of_project
  search_projects [] cache = ([], cache)
  search_projects ((name, id) ∷ projects) cache =
      let (results, cache') = of_project name (client.list id) cache in
      let (others, cache'') = search_projects projects cache' in (results ++ others, cache'')

abbrev pub service_account : Text
service_account = text "service-account"

-- The arguments of the plugin for credentials, by the kind of the authentication.
args_for : Option (Option Text) → Go Error (List Text)
args_for none = ok []
args_for (some none) = panic
args_for (some (some kind)) = ok (
    if kind == text "gcloud"
    then []
    else if kind == service_account
    then text "--use_application_default_credentials" ∷ []
    else [])

of_dns : Option Endpoints → Go Error (Text × Text)
of_dns none = err no_endpoint
of_dns (some e) = elim e.dns [ none ↦ err no_endpoint | some endpoint ↦ ok (endpoint, []) ]

of_ip : (Text × Text → Text) → Text → Option Endpoints → Go Error (Text × Text)
of_ip side certificate none = err no_endpoint
of_ip side certificate (some e) = elim e.ip [
  | none ↦ err no_endpoint
  | some ip ↦ ok (side ip, certificate)
]

-- The endpoint and the certificate of the kubeconfig.
endpoint_for : Option Text → GkeCluster → Text → Go Error (Text × Text)
unfolding of_dns of_ip
endpoint_for none c certificate = ok (c.endpoint, certificate)
endpoint_for (some preferred) c certificate =
    if preferred == text "dns"
    then of_dns c.control_plane
    else if preferred == text "private"
    then of_ip (λ ip. ip.0) certificate c.control_plane
    else if preferred == text "public"
    then of_ip (λ ip. ip.1) certificate c.control_plane
    else ok (c.endpoint, certificate)

abbrev pub plugin : List Text → ExecProvider
plugin args = record {
  api_version = text "client.authentication.k8s.io/v1beta1";
  args = args;
  command = text "gke-gcloud-auth-plugin";
  env = [];
  install_hint =
      text
        "Install gke-gcloud-auth-plugin for use with kubectl by following\nhttps://cloud.google.com/blog/products/containers-kubernetes/kubectl-auth-changes-in-gke";
  provide_cluster_info = true;
}

-- The certificate of MasterAuth.
certificate_of : Option Text → Go Error Text
certificate_of none = err no_auth
certificate_of (some certificate) =
    if is_empty certificate then err no_certificate else ok certificate

unfoldable pub kubeconfig_of : Config → GkeCluster → Go Error KubeconfigFile
unfolding certificate_of args_for endpoint_for
kubeconfig_of cfg c = do
  certificate ← certificate_of c.master_auth
  args ← args_for cfg.authentication_type
  e ← endpoint_for cfg.preferred_endpoint c certificate
  ok (single_context (text "gke_" ++ c.name) (text "https://" ++ e.0) e.1 (plugin args))

parsed : Option (Text × Text × Text) → Go Error (Text × Text × Text)
parsed none = err bad_path
parsed (some pieces) = ok pieces

or_empty : Option Text → Text
or_empty none = []
or_empty (some id) = id

got : Option GkeCluster → Go Error GkeCluster
got none = err not_got
got (some c) = ok c

-- The name by which the API is asked for a cluster.
unfoldable pub resource_name : Text → Text → Text → Text
resource_name id location name =
    text "projects/" ++ id ++ text "/locations/" ++ location ++ text "/clusters/" ++ name

module _ (client : Client) where
  asked_for : Option GkeCluster → Text → Go Error GkeCluster
  unfolding got
  asked_for none name = got (client.get name)
  asked_for (some c) name = ok c

  -- GetKubeconfigForPath of the initialised store, up to the YAML package.
  unfoldable pub get_kubeconfig_for_path :
      Config → Dict Text → Dict GkeCluster → Text → Go Error KubeconfigFile
  unfolding parsed or_empty asked_for
  get_kubeconfig_for_path cfg projects cache path = parsed (three_pieces path) >>= λ pieces.
      asked_for (read cache path) (
        resource_name (or_empty (read projects (trim_prefix pieces.0 (text "gke_")))) pieces.1
          pieces.2)
      >>= kubeconfig_of cfg
