-- ===== src/Search.antt =====
-- pkg/search.go and the filters of its result: the contexts that a search discovers. A context that
-- reaches the filters has a store and no error (pkg/main.go drops the others before).
pub mod Filters
pub mod Index
pub mod Worker
pub mod Channel
pub mod Tests
use kswitch.Prelude.{ℕ, Text, Bool, Option, List}
use kswitch.Prelude.Dict.{Dict}

-- What StartSearch sends: a path with its tags, or an error.
pub data SearchResult : Type 0 where
  path_found : Text → Dict Text → SearchResult
  search_error : SearchResult

-- A kubeconfig store as its functions (storetypes.KubeconfigStore): `verifies` is VerifyKubeconfigPaths
-- without an error, `required` and `refresh_index_after` are of GetStoreConfig, `search` is what
-- StartSearch sends, in order, and GetKubeconfigForPath is `none` for an error.
pub record Store : Type 0 where
  pub id : Text
  pub kind : Text
  pub verifies : Bool
  pub required : Option Bool
  pub refresh_index_after : Option ℕ
  pub get_context_prefix : Text → Text
  pub get_kubeconfig_for_path : Text → Dict Text → Option Text
  pub search : List SearchResult

pub record DiscoveredContext : Type 0 where
  pub path : Text
  pub name : Text
  pub alias : Text
  pub tags : Dict Text
  pub store : Store

-- What is parsed of a kubeconfig here (types.KubeConfig).
pub record Context : Type 0 where
  pub name : Text
  pub cluster : Text

pub record Cluster : Type 0 where
  pub name : Text
  pub server : Text
  pub certificate_authority_data : Text

pub record KubeConfig : Type 0 where
  pub current_context : Text
  pub contexts : List Context
  pub clusters : List Cluster
