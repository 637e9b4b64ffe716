-- ===== src/Config/Validation.antt =====
-- pkg/config/validation/validation.go, with ValidateGardenerStoreConfiguration and
-- ValidateGKEStoreConfiguration (pkg/store/gardener/validation.go, pkg/store/gke/validation.go). An
-- error is its field and its type; the messages are left out.
pub mod Sound
use kswitch.Prelude.{
  ℕ, suc, Text, text, ◌==◌, Bool, true, false, not, ◌&&◌, ◌||◌, if◌then◌else◌, nat_eq, ltb,
  is_empty, is_elem, any_of, length, Option, none, some, List, [], ◌∷◌, ◌++◌,
}
use kswitch.Prelude.Strings.{has_prefix}
use kswitch.Config.{
  Hook, KubeconfigStore, Config, Readings, GardenerConfig, GkeAuthentication, GkeConfig,
}

pub data Segment : Type 0 where
  child : Text → Segment
  index : ℕ → Segment

pub data ErrorType : Type 0 where
  invalid forbidden required : ErrorType

pub record FieldError : Type 0 where
  pub path : List Segment
  pub type_ : ErrorType

abbrev pub error_at : ErrorType → List Segment → FieldError
error_at t path = record { path = path; type_ = t }

-- The list that holds the error, where the test fails it.
abbrev pub error_if : Bool → FieldError → List FieldError
error_if b e = if b then e ∷ [] else []

abbrev pub valid_store_kinds : List Text
valid_store_kinds =
    text "vault"
    ∷ text "filesystem"
    ∷ text "gardener"
    ∷ text "gke"
    ∷ text "azure"
    ∷ text "eks"
    ∷ text "exoscale"
    ∷ text "rancher"
    ∷ text "ovh"
    ∷ text "scaleway"
    ∷ text "digitalocean"
    ∷ text "akamai"
    ∷ text "capi"
    ∷ text "plugin"
    ∷ text "kind"
    ∷ text "kubernetes"
    ∷ []

abbrev pub valid_hook_types : List Text
valid_hook_types = text "InlineCommand" ∷ text "Executable" ∷ []

abbrev pub is_some {ℓ} : {A : Type ℓ} → Option A → Bool
is_some none = false
is_some (some a) = true

unfoldable pub hook_errors : List Segment → Hook → List FieldError
hook_errors path hook =
    error_if (not (is_elem hook.kind valid_hook_types))
      (error_at invalid (path ++ child (text "type") ∷ []))
    ++ error_if (hook.kind == text "Executable" && not (is_some hook.path))
        (error_at required (path ++ child (text "path") ∷ []))
    ++ error_if (hook.kind == text "InlineCommand" && is_empty hook.arguments)
        (error_at required (path ++ child (text "arguments") ∷ []))

unfoldable pub validate_hooks : List Segment → ℕ → List Hook → List FieldError
validate_hooks path i [] = []
validate_hooks path i (hook ∷ hooks) =
    hook_errors (path ++ index i ∷ []) hook ++ validate_hooks path (suc i) hooks

unfoldable pub gardener_path_errors : List Segment → ℕ → List Text → ℕ → List FieldError
gardener_path_errors path count [] i = []
gardener_path_errors path count (p ∷ paths) i =
    error_if (not (p == text "/" || p == text "garden") && not (has_prefix p (text "garden-")))
      (error_at forbidden (path ++ child (text "paths") ∷ index i ∷ []))
    ++ error_if (p == text "/" && ltb 1 count)
        (error_at forbidden (path ++ child (text "paths") ∷ index i ∷ []))
    ++ gardener_path_errors path count paths (suc i)

unfoldable pub or_empty_text : Option Text → Text
or_empty_text none = []
or_empty_text (some t) = t

abbrev is_type : Text → Option Text → Bool
is_type t none = false
is_type t (some u) = u == t

abbrev is_other_type : Text → Option Text → Bool
is_other_type t none = false
is_other_type t (some u) = not (u == t)

abbrev missing : Option Text → Bool
missing none = true
missing (some t) = is_empty t

module _ (r : Readings) where
  gardener_config_errors : List Segment → Option GardenerConfig → Option Text × List FieldError
  gardener_config_errors path none = (none, error_at invalid path ∷ [])
  gardener_config_errors path (some config) = (
    config.landscape_name,
    error_if (is_empty config.gardener_api_kubeconfig_path)
          (error_at invalid (path ++ child (text "gardenerAPIKubeconfigPath") ∷ []))
        ++ error_if (is_some config.landscape_name && missing config.landscape_name)
            (error_at invalid (path ++ child (text "landscapeName") ∷ [])),
  )

  gardener_config : List Segment → Option r.Raw → Option Text × List FieldError
  gardener_config path none = (none, error_at required path ∷ [])
  gardener_config path (some raw) = gardener_config_errors path (r.read_gardener raw)

  unfoldable pub validate_gardener_store_configuration :
      List Segment → KubeconfigStore r.Raw → Option Text × List FieldError
  unfolding gardener_config gardener_config_errors
  validate_gardener_store_configuration path store =
      let (landscape, errors) = gardener_config (path ++ child (text "config") ∷ []) store.config in
      (landscape, gardener_path_errors path (length store.paths) store.paths 0 ++ errors)

  authentication_errors : List Segment → GkeConfig → Option GkeAuthentication → List FieldError
  authentication_errors path config none = []
  authentication_errors path config (some auth) =
      error_if
        (is_some config.gcp_account && is_other_type (text "gcloud") auth.authentication_type)
        (error_at invalid (path ++ child (text "gcpAccount") ∷ []))
      ++ error_if
          (is_type (text "api-key") auth.authentication_type && missing auth.api_key_file_path)
          (error_at invalid
            (path ++ child (text "gkeAuthentication") ∷ child (text "apiKeyFilePath") ∷ []))
      ++ error_if
          (is_type (text "service-account") auth.authentication_type
            && missing auth.service_account_file_path)
          (error_at invalid
            (path ++ child (text "gkeAuthentication") ∷ child (text "serviceAccountFilePath") ∷ []))

  gke_config_errors : List Segment → Option GkeConfig → List FieldError
  gke_config_errors path none = error_at invalid path ∷ []
  gke_config_errors path (some config) = authentication_errors path config config.gke_authentication

  gke_config : List Segment → Option r.Raw → List FieldError
  gke_config path none = []
  gke_config path (some raw) = gke_config_errors path (r.read_gke raw)

  unfoldable pub validate_gke_store_configuration :
      List Segment → KubeconfigStore r.Raw → List FieldError
  unfolding gke_config gke_config_errors authentication_errors
  validate_gke_store_configuration path store =
      error_if (not (is_empty store.paths)) (error_at forbidden (path ++ child (text "paths") ∷ []))
      ++ gke_config (path ++ child (text "config") ∷ []) store.config

  -- The landscape name of a Gardener store, where it is the default ID.
  landscape_id : Option Text → Option Text → Text
  landscape_id (some id) landscape = id
  landscape_id none landscape = or_empty_text landscape

  -- The key by which two stores count as the same.
  unfoldable pub store_key : List Segment → KubeconfigStore r.Raw → Text
  unfolding landscape_id or_empty_text
  store_key path store =
      store.kind
      ++ text ":"
      ++ (if store.kind == text "gardener"
          then landscape_id store.id (validate_gardener_store_configuration path store).0
          else or_empty_text store.id)

  unfoldable pub store_errors :
      Bool → List Text → List Segment → KubeconfigStore r.Raw → List FieldError
  unfolding or_empty_text
  store_errors uses_index store_kinds path store =
      error_if (not (is_elem store.kind valid_store_kinds))
        (error_at invalid (path ++ child (text "kind") ∷ []))
      ++ error_if (any_of (λ c. nat_eq c b'.') (or_empty_text store.id))
          (error_at invalid (path ++ child (text "id") ∷ []))
      ++ error_if
          (is_empty store.paths && (store.kind == text "filesystem" || store.kind == text "vault"))
          (error_at invalid (path ++ child (text "paths") ∷ []))
      ++ (if store.kind == text "gardener"
          then (validate_gardener_store_configuration path store).1
          else [])
      ++ (if store.kind == text "gke" then validate_gke_store_configuration path store else [])
      ++ error_if
          ((uses_index || is_some store.refresh_index_after)
            && is_elem (store_key path store) store_kinds)
          (error_at invalid (path ++ child (text "id") ∷ []))

  abbrev pub stores_path : ℕ → List Segment
  stores_path i = child (text "kubeconfigStores") ∷ index i ∷ []

  unfoldable pub validate_stores :
      Bool → List Text → ℕ → List (KubeconfigStore r.Raw) → List FieldError
  validate_stores uses_index store_kinds i [] = []
  validate_stores uses_index store_kinds i (store ∷ stores) =
      store_errors uses_index store_kinds (stores_path i) store
      ++ validate_stores uses_index (store_key (stores_path i) store ∷ store_kinds) (suc i) stores

  unfoldable pub validate_config : Config r.Raw → List FieldError
  validate_config config =
      error_if (not (config.version == text "v1alpha1"))
        (error_at invalid (child (text "version") ∷ []))
      ++ validate_stores (is_some config.refresh_index_after) [] 0 config.kubeconfig_stores
      ++ validate_hooks (child (text "hooks") ∷ []) 0 config.hooks
