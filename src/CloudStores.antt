-- ===== src/CloudStores.antt =====
-- The stores of the cloud providers: what they share. pkg/store/cluster_cache.go, the identifiers with
-- two dashes between their pieces, and types.KubeConfig of types/type.go as the stores write it. The
-- providers' client libraries are parameters of each store.
pub mod Gke
pub mod Eks
pub mod Azure
pub mod Vault
pub mod Tests
use kswitch.Prelude.{
  Text, text, ℕ, nat_eq, Bool, true, false, not, if◌then◌else◌, Option, none, some, List, [], ◌∷◌,
}
use kswitch.Prelude.Dict.{Dict, read, assign}
use kswitch.Prelude.Split.{split_double}
use kswitch.Search.{Cluster}
use kswitch.Sanitize.{User, ExecProvider}

pub record ContextEntry : Type 0 where
  pub name : Text
  pub cluster : Text
  pub user : Text

pub record KubeconfigFile : Type 0 where
  pub clusters : List Cluster
  pub current_context : Text
  pub contexts : List ContextEntry
  pub users : List User

-- A kubeconfig with one context, and a cluster and a user of its name.
unfoldable pub single_context : Text → Text → Text → ExecProvider → KubeconfigFile
single_context name server certificate exec = record {
  clusters = record { name = name; server = server; certificate_authority_data = certificate } ∷ [];
  current_context = name;
  contexts = record { name = name; cluster = name; user = name } ∷ [];
  users = record { name = name; auth_provider = none; exec_provider = some exec } ∷ [];
}

three : List Text → Option (Text × Text × Text)
three [] = none
three (a ∷ []) = none
three (a ∷ b ∷ []) = none
three (a ∷ b ∷ c ∷ []) = some (a, b, c)
three (a ∷ b ∷ c ∷ d ∷ rest) = none

two : List Text → Option (Text × Text)
two [] = none
two (a ∷ []) = none
two (a ∷ b ∷ []) = some (a, b)
two (a ∷ b ∷ c ∷ rest) = none

-- strings.Split(path, "--") into three pieces.
unfoldable pub three_pieces : Text → Option (Text × Text × Text)
unfolding three
three_pieces path = three (split_double b'-' false path)

unfoldable pub two_pieces : Text → Option (Text × Text)
unfolding two
two_pieces path = two (split_double b'-' false path)

-- strings.ReplaceAll(path, "--", "-")
unfoldable pub single_dashes : Bool → Text → Text
single_dashes held [] = []
single_dashes held (c ∷ s) =
    let dash = nat_eq c b'-' in
    let rest = single_dashes (if held then false else dash) s in
    if dash then if held then rest else c ∷ rest else c ∷ rest

hidden : Option Bool → Bool
hidden none = false
hidden (some b) = not b

-- GetContextPrefix of these stores.
unfoldable pub get_context_prefix : Option Bool → Text → Text
unfolding hidden
get_context_prefix show_prefix path = if hidden show_prefix then [] else single_dashes false path

-- clusterCache: Get, Set, Values, Keys and Reset. The lock makes each of them one step.
abbrev pub ClusterCache : Type 0 → Type 0
ClusterCache V = Dict V
