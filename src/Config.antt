-- ===== src/Config.antt =====
-- types/config.go, types/config-old.go and types/hooks.go: the configuration. A duration is a number
-- of nanoseconds, signed for a hook's interval, and not negative for the refreshing of an index.
pub mod Migration
pub mod Validation
pub mod Tests
use kswitch.Prelude.{ℕ, Text, text, Bool, Option, none, some, List, ◌++◌}
use kswitch.Prelude.Int.{ℤ}

pub record Hook : Type 0 where
  pub name : Text
  pub kind : Text
  pub path : Option Text
  pub arguments : List Text
  -- `some none` is an execution without an interval.
  pub execution : Option (Option ℤ)

-- `Config` is an untyped value in the source: the type is a parameter, and so are its readings.
pub record KubeconfigStore (Raw : Type 0) : Type 0 where
  pub id : Option Text
  pub kind : Text
  pub kubeconfig_name : Option Text
  pub paths : List Text
  pub refresh_index_after : Option ℕ
  pub required : Option Bool
  pub show_prefix : Option Bool
  pub config : Option Raw

pub record Config (Raw : Type 0) : Type 0 where
  pub kind : Text
  pub version : Text
  pub kubeconfig_name : Option Text
  pub refresh_index_after : Option ℕ
  pub hooks : List Hook
  pub kubeconfig_stores : List (KubeconfigStore Raw)

pub record GardenerConfig : Type 0 where
  pub gardener_api_kubeconfig_path : Text
  pub landscape_name : Option Text

pub record GkeAuthentication : Type 0 where
  pub authentication_type : Option Text
  pub api_key_file_path : Option Text
  pub service_account_file_path : Option Text

pub record GkeConfig : Type 0 where
  pub gke_authentication : Option GkeAuthentication
  pub gcp_account : Option Text

-- The YAML package on the value `Config`: reading it as a Gardener or a GKE configuration, with `none`
-- for an error, and the value for a Vault address.
pub record Readings : Type 1 where
  pub Raw : Type 0
  pub read_gardener : Raw → Option GardenerConfig
  pub read_gke : Raw → Option GkeConfig
  pub vault : Text → Raw

pub record KubeconfigPath : Type 0 where
  pub path : Text
  pub store : Text

pub record ConfigOld : Type 0 where
  pub kind : Text
  pub kubeconfig_name : Text
  pub kubeconfig_rediscovery_interval : Option ℕ
  pub vault_api_address : Text
  pub hooks : List Hook
  pub kubeconfig_paths : List KubeconfigPath

-- BaseStore.GetID of pkg/store/base.go.
abbrev pub id_or_default : Option Text → Text
id_or_default none = text "default"
id_or_default (some id) = id

abbrev pub get_id : {Raw : Type 0} → KubeconfigStore Raw → Text
get_id store = store.kind ++ text "." ++ id_or_default store.id
