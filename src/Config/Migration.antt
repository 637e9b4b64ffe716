-- ===== src/Config/Migration.antt =====
-- pkg/config/migration/migrate.go
pub mod Valid
use kswitch.Prelude.{
  Text, text, ◌==◌, Bool, if◌then◌else◌, is_empty, Option, none, some, List, [], ◌∷◌, ◌++◌,
}
use kswitch.Config.{Readings, KubeconfigStore, Config, KubeconfigPath, ConfigOld}

abbrev pub filesystem : Text
filesystem = text "filesystem"

abbrev pub vault_kind : Text
vault_kind = text "vault"

-- The paths that the loop appends to the store of the kind.
unfoldable pub paths_of : Text → List KubeconfigPath → List Text
paths_of kind [] = []
paths_of kind (p ∷ paths) =
    let later = paths_of kind paths in if p.store == kind then p.path ∷ later else later

unless_empty : Text → Option Text
unless_empty [] = none
unless_empty (c ∷ s) = some (c ∷ s)

unfoldable pub with_paths : {Raw : Type 0} → KubeconfigStore Raw → List (KubeconfigStore Raw)
with_paths store = if is_empty store.paths then [] else store ∷ []

module _ (r : Readings) where
  vault_config : Text → Option r.Raw
  vault_config [] = none
  vault_config (c ∷ s) = some (r.vault (c ∷ s))

  abbrev pub default_store : Text → List Text → Option r.Raw → KubeconfigStore r.Raw
  default_store kind paths config = record {
    id = some (text "default");
    kind = kind;
    kubeconfig_name = none;
    paths = paths;
    refresh_index_after = none;
    required = none;
    show_prefix = none;
    config = config;
  }

  unfoldable pub convert_configuration : ConfigOld → Config r.Raw
  unfolding unless_empty vault_config
  convert_configuration old = record {
    kind = text "SwitchConfig";
    version = text "v1alpha1";
    kubeconfig_name = unless_empty old.kubeconfig_name;
    refresh_index_after = old.kubeconfig_rediscovery_interval;
    hooks = old.hooks;
    kubeconfig_stores =
        with_paths (default_store filesystem (paths_of filesystem old.kubeconfig_paths) none)
        ++ with_paths (
            default_store vault_kind (paths_of vault_kind old.kubeconfig_paths)
              (vault_config old.vault_api_address));
  }
