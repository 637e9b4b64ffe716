-- ===== src/CloudStores/Azure.antt =====
-- pkg/store/kubeconfig_store_azure.go. The client library of Azure is the record Client; pages of
-- clusters are given with whether the last request failed. The preview is not part of it.
pub mod Retrieved
use kswitch.Prelude.{
  Text, text, Bool, true, false, if◌then◌else◌, is_empty, Option, none, some, List, [], ◌∷◌, ◌++◌,
  get_elem?,
}
use kswitch.Prelude.Dict.{Dict, assign}
use kswitch.Prelude.Cut.{split_at}
use kswitch.Prelude.Go.{Go, ok, err, panic, ◌>>=◌}
use kswitch.Prelude.Strings.{trim_prefix}
use kswitch.Search.{SearchResult, path_found, search_error}
use kswitch.CloudStores.{two_pieces}

-- Of armcontainerservice.ManagedCluster: the name, the ID, and of Properties, if it is there, whether it
-- has an AADProfile.
pub record AzureCluster : Type 0 where
  pub name : Option Text
  pub id : Option Text
  pub properties : Option Bool

pub record Pages : Type 0 where
  pub pages : List (List AzureCluster)
  pub failed : Bool

-- The clusters of a resource group and of the subscription; a cluster by its resource group and its
-- name; and the values of its user's and its administrator's kubeconfigs.
pub record Client : Type 0 where
  pub of_group : Text → Pages
  pub of_all : Pages
  pub get : Text → Text → Option AzureCluster
  pub user_credentials : Text → Text → Option (List (Option Text))
  pub admin_credentials : Text → Text → Option (List (Option Text))

pub data Error : Type 0 where
  bad_path not_got no_credentials no_kubeconfig : Error

-- getAzureKubeconfigPath
unfoldable pub path_of : Text → Text → Text
path_of group name = (text "az_" ++ group) ++ b'-' ∷ b'-' ∷ name

-- The resource group in the ID of a cluster.
unfoldable pub group_of : Text → Option Text
group_of id = get_elem? (split_at b'/' id) 4

abbrev pub Found : Type 0
Found = List SearchResult × Dict AzureCluster

with_group : AzureCluster → Text → Option Text → Dict AzureCluster → Found
with_group c name none cache = ([], cache)
with_group c name (some group) cache =
    (path_found (path_of group name) [] ∷ [], assign cache (path_of group name) c)

with_id : AzureCluster → Text → Option Text → Dict AzureCluster → Found
unfolding with_group
with_id c name none cache = ([], cache)
with_id c name (some id) cache = with_group c name (group_of id) cache

with_name : AzureCluster → Option Text → Dict AzureCluster → Found
unfolding with_id
with_name c none cache = ([], cache)
with_name c (some name) cache = with_id c name c.id cache

-- returnSearchResultsForClusters
unfoldable pub clusters_found : List AzureCluster → Dict AzureCluster → Found
unfolding with_name
clusters_found [] cache = ([], cache)
clusters_found (c ∷ clusters) cache =
    let (results, cache') = with_name c c.name cache in
    let (others, cache'') = clusters_found clusters cache' in (results ++ others, cache'')

-- The loop over the pages, with whether it ended with an error.
unfoldable pub search_pages : List (List AzureCluster) → Bool → Dict AzureCluster → Found × Bool
search_pages [] failed cache = ((if failed then search_error ∷ [] else [], cache), failed)
search_pages (page ∷ pages) failed cache =
    let (results, cache') = clusters_found page cache in
    let ((others, cache''), stopped) = search_pages pages failed cache' in
    ((results ++ others, cache''), stopped)

module _ (client : Client) where
  -- The loop over the resource groups; an error ends it.
  unfoldable pub search_groups : List Text → Dict AzureCluster → Found
  search_groups [] cache = ([], cache)
  search_groups (group ∷ groups) cache =
      let ((results, cache'), stopped) =
        search_pages (client.of_group group).pages (client.of_group group).failed cache in
      let (others, cache'') = search_groups groups cache' in
      if stopped then (results, cache') else (results ++ others, cache'')

  -- StartSearch of the initialised store.
  unfoldable pub start_search : List Text → Dict AzureCluster → Found
  start_search [] cache = (search_pages client.of_all.pages client.of_all.failed cache).0
  start_search (group ∷ groups) cache = search_groups (group ∷ groups) cache

  trimmed : Option (Text × Text) → Go Error (Text × Text)
  trimmed none = err bad_path
  trimmed (some (a, b)) = ok (trim_prefix a (text "az_"), b)

  -- parseAzureIdentifier
  unfoldable pub parse_azure_identifier : Text → Go Error (Text × Text)
  unfolding trimmed
  parse_azure_identifier path = trimmed (two_pieces path)

  -- The first kubeconfig that is there and not empty.
  unfoldable pub first_kubeconfig : List (Option Text) → Go Error Text
  first_kubeconfig [] = err no_kubeconfig
  first_kubeconfig (none ∷ others) = first_kubeconfig others
  first_kubeconfig (some value ∷ others) =
      let rest = first_kubeconfig others in if is_empty value then rest else ok value

  credentials : Option (List (Option Text)) → Go Error Text
  credentials none = err no_credentials
  credentials (some kubeconfigs) = first_kubeconfig kubeconfigs

  -- The test of `resp.Properties.AADProfile`, a nil dereference where Properties is not there.
  of_properties : Text → Text → Option Bool → Go Error Text
  unfolding credentials
  of_properties group name none = panic
  of_properties group name (some has_aad_profile) =
      if has_aad_profile
      then credentials (client.user_credentials group name)
      else credentials (client.admin_credentials group name)

  of_cluster : Text → Text → Option AzureCluster → Go Error Text
  unfolding of_properties
  of_cluster group name none = err not_got
  of_cluster group name (some c) = of_properties group name c.properties

  -- GetKubeconfigForPath of the initialised store.
  unfoldable pub get_kubeconfig_for_path : Text → Go Error Text
  unfolding of_cluster
  get_kubeconfig_for_path path = parse_azure_identifier path >>= λ pieces.
      of_cluster pieces.0 pieces.1 (client.get pieces.0 pieces.1)
