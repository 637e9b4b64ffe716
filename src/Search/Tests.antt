-- ===== src/Search/Tests.antt =====
-- The filters on four contexts. A kubeconfig here is the server of its only cluster.
use kswitch.Prelude.{
  ◌++◌, Text, text, ◌==◌, ◌≡◌, refl, true, not, ◌&&◌, Option, none, some, List, [], ◌∷◌, keep_if,
  any_of, if◌then◌else◌,
}
use kswitch.Prelude.Strings.{has_suffix, has_prefix, strip_prefix}
use kswitch.Search.{Store, DiscoveredContext, KubeConfig}
use kswitch.Search.Filters.{
  is_filesystem, is_external, cluster_identity_for_context, context_name, cluster_of, identity_of,
  kind_identities, is_shadowed, filter_kind_duplicates, order, kept_of, keep_paths,
  filter_prefer_external, apply_context_filters,
}
use kswitch.Search.Filters.Kinds.{hides, filter_kind_duplicates_lem}
use kswitch.Search.Filters.External.{at_path, filter_prefer_external_lem}

abbrev parse : Text → Option KubeConfig
parse server = some (record {
  current_context = [];
  contexts = record { name = text "c"; cluster = text "d" } ∷ [];
  clusters = record { name = text "d"; server = server; certificate_authority_data = [] } ∷ [];
})

abbrev store : Text → Store
store kind = record {
  id = kind ++ text ".default";
  kind = kind;
  verifies = true;
  required = none;
  refresh_index_after = none;
  get_context_prefix = λ path. [];
  get_kubeconfig_for_path = λ path tags. some path;
  search = [];
}

abbrev found : Text → Text → Text → DiscoveredContext
found kind path name = record {
  path = path;
  name = name;
  alias = [];
  tags = [];
  store = store kind;
}

abbrev contexts : List DiscoveredContext
contexts =
    found (text "filesystem") (text "a") (text "x")
    ∷ found (text "kind") (text "a") (text "y")
    ∷ found (text "filesystem") (text "b") (text "z")
    ∷ found (text "filesystem") (text "b") (text "z-external")
    ∷ []

filtered :
    apply_context_filters parse contexts
    ≡ found (text "kind") (text "a") (text "y")
      ∷ found (text "filesystem") (text "b") (text "z-external")
      ∷ []
unfolding apply_context_filters filter_kind_duplicates filter_prefer_external kind_identities
    is_shadowed cluster_identity_for_context context_name cluster_of identity_of order kept_of
    keep_paths has_suffix has_prefix strip_prefix ◌==◌
filtered = refl

filter_kind_duplicates_lem_example :
    filter_kind_duplicates parse contexts
    ≡ keep_if (λ dc. not (is_filesystem dc && any_of (λ k. hides parse k dc) contexts)) contexts
filter_kind_duplicates_lem_example = filter_kind_duplicates_lem parse contexts

filter_prefer_external_lem_example : at_path (text "b") (filter_prefer_external contexts) ≡ (
    if any_of is_external (at_path (text "b") contexts)
    then keep_if is_external (at_path (text "b") contexts)
    else at_path (text "b") contexts)
filter_prefer_external_lem_example = filter_prefer_external_lem (text "b") contexts
