-- ===== src/Config/Tests.antt =====
-- Small configurations. The untyped value is a text: the Vault address, or the landscape name.
use kswitch.Prelude.{Text, text, ◌==◌, ◌≡◌, refl, Option, none, some, List, [], ◌∷◌}
use kswitch.Config.{KubeconfigStore, Config, ConfigOld, Readings, get_id}
use kswitch.Config.Migration.{convert_configuration}
use kswitch.Config.Migration.Valid.{validate_config-convert_configuration}
use kswitch.Config.Validation.{
  child, validate_config, validate_stores, store_errors, store_key, or_empty_text, validate_hooks,
}
use kswitch.Config.Validation.Sound.{IsSound, validate_config-IsSound}

abbrev readings : Readings
readings = record {
  Raw = Text;
  read_gardener =
      λ t. some (record { gardener_api_kubeconfig_path = text "g"; landscape_name = some t });
  read_gke = λ t. none;
  vault = λ t. t;
}

abbrev old : ConfigOld
old = record {
  kind = [];
  kubeconfig_name = text "config";
  kubeconfig_rediscovery_interval = some 60;
  vault_api_address = text "https://v";
  hooks = [];
  kubeconfig_paths =
      record { path = text "a"; store = text "vault" }
      ∷ record { path = text "b"; store = text "filesystem" }
      ∷ record { path = text "c"; store = text "vault" }
      ∷ [];
}

validate_config-convert_configuration_example :
    validate_config readings (convert_configuration readings old)
    ≡ validate_hooks (child (text "hooks") ∷ []) 0 []
validate_config-convert_configuration_example = validate_config-convert_configuration readings old

abbrev store : Text → Option Text → KubeconfigStore Text
store kind id = record {
  id = id;
  kind = kind;
  kubeconfig_name = none;
  paths = text "p" ∷ [];
  refresh_index_after = some 60;
  required = none;
  show_prefix = none;
  config = none;
}

abbrev config : List (KubeconfigStore Text) → Config Text
config stores = record {
  kind = [];
  version = text "v1alpha1";
  kubeconfig_name = none;
  refresh_index_after = none;
  hooks = [];
  kubeconfig_stores = stores;
}

abbrev two : Config Text
two = config (store (text "vault") (some (text "x")) ∷ store (text "vault") (some (text "y")) ∷ [])

no_errors : validate_config readings two ≡ []
unfolding validate_config validate_stores store_errors store_key or_empty_text validate_hooks ◌==◌
no_errors = refl

validate_config-IsSound_example : IsSound readings two
validate_config-IsSound_example = validate_config-IsSound readings two no_errors

-- A store without an ID and one with the ID "default" pass, and have the same store ID.
abbrev first : KubeconfigStore Text
first = store (text "vault") none

abbrev second : KubeconfigStore Text
second = store (text "vault") (some (text "default"))

same_id_passes : validate_config readings (config (first ∷ second ∷ [])) ≡ []
unfolding validate_config validate_stores store_errors store_key or_empty_text validate_hooks ◌==◌
same_id_passes = refl

same_id : get_id first ≡ get_id second
same_id = refl
