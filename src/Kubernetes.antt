-- ===== src/Kubernetes.antt =====
-- pkg/store/kubeconfig_store_kubernetes.go: the store that reads kubeconfigs from the secrets of a
-- cluster. The Kubernetes API is the record Client, with `none` for an error; what makes a client of
-- a kubeconfig, and sort.Strings, are parameters. The values of a secret are texts.
pub mod Peers
pub mod Api
pub mod Tests
use kswitch.Prelude.{
  ℕ, Text, text, ◌==◌, Bool, true, false, not, ◌&&◌, ◌||◌, if◌then◌else◌, is_empty, keep_if, Option,
  none, some, List, [], ◌∷◌, ◌++◌, map,
}
use kswitch.Prelude.Dict.{Dict, read, assign}
use kswitch.Prelude.Cut.{cut}
use kswitch.Prelude.Strings.{contains}
use kswitch.Prelude.Go.{Go, ok, err, panic, hang, ◌>>=◌}
use kswitch.Search.{SearchResult, path_found, search_error}

-- types.StoreConfigKubernetes, with the fields of Alias.
pub record Config : Type 0 where
  pub store_id : Text
  pub namespace : Text
  pub secret_name : Text
  pub secret_label_selector : Text
  pub path : Text
  pub alias_list : List Text
  pub from_labels : List Text

pub record Secret : Type 0 where
  pub namespace : Text
  pub name : Text
  pub values : Dict Text
  pub labels : Dict Text

-- Secrets(namespace).Get(name) and Secrets(namespace).List(selector), where the empty selector is that
-- of every secret.
pub record Client : Type 0 where
  pub get : Text → Text → Option Secret
  pub list : Text → Text → Option (List Secret)

pub record KubernetesStore : Type 0 where
  pub id : Text
  pub config : Config
  -- Empty until ResolvePeerStores has set it.
  pub peer_kubeconfig : Text
  pub client_override : Option Client
  -- Of the configuration in BaseStore.
  pub show_prefix : Option Bool
  pub required : Option Bool
  pub refresh_index_after : Option ℕ

-- The errors, with the names that their messages offer.
pub data Error : Type 0 where
  no_selection two_selections no_client not_listed invalid_path : Error
  no_match secret_missing key_missing : List Text → Error

abbrev default_to : Text → Text → Text
default_to value s = if is_empty s then value else s

-- NewKubernetesStore, after the configuration was parsed.
unfoldable pub new_config : Config → Go Error Config
new_config cfg =
    if is_empty cfg.secret_name && is_empty cfg.secret_label_selector
    then err no_selection
    else if not (is_empty cfg.secret_name) && not (is_empty cfg.secret_label_selector)
    then err two_selections
    else ok (record cfg {
      namespace = default_to (text "default") cfg.namespace;
      path = default_to (text "kubeconfig") cfg.path;
    })

unfoldable pub get_context_prefix : Option Bool → Text
get_context_prefix (some false) = []
get_context_prefix (some true) = text "kubernetes"
get_context_prefix none = text "kubernetes"

-- secretPath
unfoldable pub secret_path : Text → Text → Text
secret_path namespace name = namespace ++ (text "/" ++ name)

both_filled : Option (Text × Text) → Option (Text × Text)
both_filled none = none
both_filled (some (namespace, name)) =
    if is_empty namespace || is_empty name then none else some (namespace, name)

-- parseSecretPath
unfoldable pub parse_secret_path : Text → Option (Text × Text)
unfolding both_filled
parse_secret_path path = both_filled (cut b'/' path)

-- looksLikeKubeconfig
unfoldable pub looks_like_kubeconfig : Text → Bool
looks_like_kubeconfig raw = contains raw (text "apiVersion:")

-- tokenToKubeconfig
unfoldable pub token_to_kubeconfig : Text → Text → Text
token_to_kubeconfig token name =
    text "apiVersion: v1\nkind: Config\nclusters:\n- cluster:\n    server: \"\"\n  name: "
    ++ name
    ++ text "\nusers:\n- name: "
    ++ name
    ++ text "\n  user:\n    token: "
    ++ token
    ++ text "\ncontexts:\n- context:\n    cluster: "
    ++ name
    ++ text "\n    user: "
    ++ name
    ++ text "\n  name: "
    ++ name
    ++ text "\ncurrent-context: "
    ++ name
    ++ text "\n"

-- The end of GetKubeconfigForPath: a kubeconfig as it is, or one made of a token.
unfoldable pub kubeconfig_of : Text → Text → Text
kubeconfig_of raw name = if looks_like_kubeconfig raw then raw else token_to_kubeconfig raw name

or_empty : Option Text → Text
or_empty none = []
or_empty (some v) = v

is_there : Option Text → Bool
is_there none = false
is_there (some v) = true

-- Indexing a map of texts, which gives the empty text for a key that is not there.
unfoldable pub value_of : Dict Text → Text → Text
unfolding or_empty
value_of m key = or_empty (read m key)

-- strings.Join(names, ",")
join : List Text → Text
join [] = []
join (n ∷ []) = n
join (n ∷ m ∷ names) = n ++ text "," ++ join (m ∷ names)

unfoldable pub label_aliases : Secret → List Text → List Text
label_aliases secret [] = []
label_aliases secret (label ∷ from_labels) =
    let others = label_aliases secret from_labels in
    if is_empty (value_of secret.labels label)
    then others
    else value_of secret.labels label ∷ others

unfoldable pub aliases_of : Config → Secret → List Text
aliases_of cfg secret = cfg.alias_list ++ label_aliases secret cfg.from_labels

unfoldable pub tags_of : Config → Secret → Dict Text
unfolding join
tags_of cfg secret =
    let tags : Dict Text =
      (text "namespace", secret.namespace) ∷ (text "secretName", secret.name) ∷ [] in
    if is_empty (aliases_of cfg secret)
    then tags
    else assign tags (text "aliases") (join (aliases_of cfg secret))

unfoldable pub has_key : Config → Secret → Bool
unfolding is_there
has_key cfg secret = is_there (read secret.values cfg.path)

unfoldable pub secret_found : Config → Secret → SearchResult
secret_found cfg secret = path_found (secret_path secret.namespace secret.name) (tags_of cfg secret)

unfoldable pub results_of : Config → List Secret → List SearchResult
results_of cfg [] = []
results_of cfg (secret ∷ secrets) =
    let others = results_of cfg secrets in
    if has_key cfg secret then secret_found cfg secret ∷ others else others

parsed : Option (Text × Text) → Go Error (Text × Text)
parsed none = err invalid_path
parsed (some names) = ok names

-- The namespace and the name, of the tags or of the path.
unfoldable pub names_for : Text → Dict Text → Go Error (Text × Text)
unfolding parsed
names_for path tags =
    if is_empty (value_of tags (text "namespace")) || is_empty (value_of tags (text "secretName"))
    then parsed (parse_secret_path path)
    else ok (value_of tags (text "namespace"), value_of tags (text "secretName"))
