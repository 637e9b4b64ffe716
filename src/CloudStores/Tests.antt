-- ===== src/CloudStores/Tests.antt =====
-- A cluster of each provider.
use kswitch.Prelude.{Text, text, ◌==◌, ◌≡◌, refl, false, All, none, some, [], ◌∷◌}
use kswitch.Prelude.Cut.{split_at}
use kswitch.Prelude.Dict.{Dict, read}
use kswitch.Prelude.Split.{split_double}
use kswitch.Prelude.Strings.{trim_prefix, strip_prefix}
use kswitch.Prelude.Go.{ok}
use kswitch.Search.{path_found}
use kswitch.CloudStores.{single_context, single_dashes, three_pieces}
use kswitch.CloudStores.Gke
use kswitch.CloudStores.Gke.Retrieved as GkeRetrieved
use kswitch.CloudStores.Eks
use kswitch.CloudStores.Eks.Retrieved as EksRetrieved
use kswitch.CloudStores.Azure
use kswitch.CloudStores.Azure.Retrieved as AzureRetrieved

prefix : single_dashes false (text "gke_shop--eu--dev") ≡ text "gke_shop-eu-dev"
unfolding single_dashes
prefix = refl

abbrev gke_cluster : Gke.GkeCluster
gke_cluster = record {
  name = text "dev";
  location = text "eu-west1";
  endpoint = text "10.0.0.1";
  master_auth = some (text "cert");
  control_plane = none;
}

abbrev gke_config : Gke.Config
gke_config = record {
  authentication_type = none;
  gcp_account = none;
  project_ids = [];
  preferred_endpoint = none;
}

abbrev gke_client : Gke.Client
gke_client = record { list = λ id. some (gke_cluster ∷ []); get = λ name. some gke_cluster }

abbrev projects : Dict Text
projects = (text "shop", text "shop-1") ∷ []

gke_kubeconfig :
    Gke.get_kubeconfig_for_path gke_client gke_config projects [] (text "gke_shop--eu-west1--dev")
    ≡ ok (single_context (text "gke_dev") (text "https://10.0.0.1") (text "cert") (Gke.plugin []))
unfolding Gke.get_kubeconfig_for_path three_pieces split_double read trim_prefix strip_prefix
    Gke.kubeconfig_of ◌==◌
gke_kubeconfig = refl

abbrev settings : Eks.Settings
settings = record { region = text "eu-1"; profile = text "work" }

abbrev eks_cluster : Eks.EksCluster
eks_cluster = record {
  name = text "dev";
  certificate = some (text "cert");
  endpoint = some (text "https://eks");
}

abbrev eks_client : Eks.Client
eks_client = record {
  pages = (text "dev" ∷ []) ∷ [];
  pages_failed = false;
  describe = λ name. some eks_cluster;
}

eks_path :
    Eks.parse_eks_identifier (text "eks_work--eu-1--dev")
    ≡ ok (text "work", text "eu-1", text "dev")
unfolding Eks.parse_eks_identifier three_pieces split_double trim_prefix strip_prefix
eks_path = refl

abbrev azure_cluster : Azure.AzureCluster
azure_cluster = record {
  name = some (text "dev");
  id = some (text "/subscriptions/1/resourcegroups/shop/providers/M/managedClusters/dev");
  properties = some false;
}

abbrev azure_pages : Azure.Pages
azure_pages = record { pages = (azure_cluster ∷ []) ∷ []; failed = false }

abbrev azure_client : Azure.Client
azure_client = record {
  of_group = λ group. azure_pages;
  of_all = azure_pages;
  get = λ group name. some azure_cluster;
  user_credentials = λ group name. none;
  admin_credentials = λ group name. some (none ∷ some [] ∷ some (text "bytes") ∷ []);
}

azure_found : (Azure.start_search azure_client [] []).0 ≡ path_found (text "az_shop--dev") [] ∷ []
unfolding Azure.start_search Azure.search_pages Azure.clusters_found Azure.group_of Azure.path_of
    split_at
azure_found = refl

start_search-IsAnswered_example :
    All
      (AzureRetrieved.IsAnswered azure_client
        (AzureRetrieved.IsListed azure_client (text "shop" ∷ [])))
      (Azure.start_search azure_client (text "shop" ∷ []) []).0
start_search-IsAnswered_example =
    AzureRetrieved.start_search-IsAnswered azure_client (text "shop" ∷ []) []
