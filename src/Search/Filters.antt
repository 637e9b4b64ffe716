-- ===== src/Search/Filters.antt =====
-- pkg/context_filters.go. The parser of kubeconfigs is a parameter: yaml.Unmarshal into the struct,
-- with `none` for an error; the redaction that follows it touches the users only.
pub mod Kinds
pub mod External
use kswitch.Prelude.{
  is_empty, Text, text, ◌==◌, Bool, true, false, not, ◌&&◌, if◌then◌else◌, Option, none, some, List,
  [], ◌∷◌, ◌++◌, keep_if, any_of, is_elem,
}
use kswitch.Prelude.Strings.{has_suffix}
use kswitch.Search.{DiscoveredContext, Context, Cluster, KubeConfig}

pub record ClusterIdentity : Type 0 where
  pub server : Text
  pub ca : Text

abbrev pub same_identity : ClusterIdentity → ClusterIdentity → Bool
same_identity a b = a.server == b.server && a.ca == b.ca

abbrev pub is_kind : DiscoveredContext → Bool
is_kind dc = dc.store.kind == text "kind"

abbrev pub is_filesystem : DiscoveredContext → Bool
is_filesystem dc = dc.store.kind == text "filesystem"

first_name : List Context → Text
first_name [] = []
first_name (ctx ∷ contexts) = ctx.name

-- The name of the current context, else that of the first.
unfoldable pub context_name : KubeConfig → Text
unfolding first_name
context_name kubeconf =
    if is_empty kubeconf.current_context
    then first_name kubeconf.contexts
    else kubeconf.current_context

unfoldable pub cluster_of : Text → List Context → Text
cluster_of name [] = []
cluster_of name (ctx ∷ contexts) =
    let later = cluster_of name contexts in if ctx.name == name then ctx.cluster else later

unfoldable pub identity_of : Text → List Cluster → Option ClusterIdentity
identity_of name [] = none
identity_of name (cl ∷ clusters) =
    let later = identity_of name clusters in
    if cl.name == name
    then some (record { server = cl.server; ca = cl.certificate_authority_data })
    else later

module _ (parse : Text → Option KubeConfig) where
  identity_in : Option KubeConfig → Option ClusterIdentity
  identity_in none = none
  identity_in (some kubeconf) =
      identity_of (cluster_of (context_name kubeconf) kubeconf.contexts) kubeconf.clusters

  parsed : Option Text → Option KubeConfig
  parsed none = none
  parsed (some bytes) = parse bytes

  unfoldable pub cluster_identity_for_context : DiscoveredContext → Option ClusterIdentity
  unfolding identity_in parsed
  cluster_identity_for_context dc =
      identity_in (parsed (dc.store.get_kubeconfig_for_path dc.path dc.tags))

  with_server : Option ClusterIdentity → List ClusterIdentity → List ClusterIdentity
  with_server none ids = ids
  with_server (some id) ids = if is_empty id.server then ids else id ∷ ids

  -- The keys of `kindIdentities`.
  unfoldable pub kind_identities : List DiscoveredContext → List ClusterIdentity
  unfolding with_server
  kind_identities [] = []
  kind_identities (dc ∷ contexts) =
      let later = kind_identities contexts in
      if is_kind dc then with_server (cluster_identity_for_context dc) later else later

  found_in : List ClusterIdentity → Option ClusterIdentity → Bool
  found_in ids none = false
  found_in ids (some id) = any_of (λ k. same_identity k id) ids

  unfoldable pub is_shadowed : List ClusterIdentity → DiscoveredContext → Bool
  unfolding found_in
  is_shadowed ids dc = is_filesystem dc && found_in ids (cluster_identity_for_context dc)

  unfoldable pub filter_kind_duplicates : List DiscoveredContext → List DiscoveredContext
  filter_kind_duplicates contexts =
      let ids = kind_identities contexts in
      if not (any_of is_kind contexts)
      then contexts
      else if is_empty ids
      then contexts
      else keep_if (λ dc. not (is_shadowed ids dc)) contexts

-- The paths, in the order in which they are first met.
unfoldable pub order : List Text → List DiscoveredContext → List Text
order seen [] = []
order seen (dc ∷ contexts) =
    let old = is_elem dc.path seen in
    let later = order (if old then seen else dc.path ∷ seen) contexts in
    if old then later else dc.path ∷ later

abbrev pub is_external : DiscoveredContext → Bool
is_external dc = has_suffix dc.name (text "-external")

-- What is kept of the contexts of one path.
unfoldable pub kept_of : List DiscoveredContext → List DiscoveredContext
kept_of entries =
    let externals = keep_if is_external entries in if is_empty externals then entries else externals

unfoldable pub keep_paths : List DiscoveredContext → List Text → List DiscoveredContext
keep_paths contexts [] = []
keep_paths contexts (path ∷ paths) =
    kept_of (keep_if (λ dc. dc.path == path) contexts) ++ keep_paths contexts paths

unfoldable pub filter_prefer_external : List DiscoveredContext → List DiscoveredContext
filter_prefer_external contexts = keep_paths contexts (order [] contexts)

unfoldable pub apply_context_filters :
    (Text → Option KubeConfig) → List DiscoveredContext → List DiscoveredContext
apply_context_filters parse contexts =
    filter_prefer_external (filter_kind_duplicates parse contexts)
