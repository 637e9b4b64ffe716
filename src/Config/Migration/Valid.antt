-- ===== src/Config/Migration/Valid.antt =====
-- A configuration that was migrated is valid.
use kswitch.Prelude.{
  Text, text, ◌==◌, ◌≡◌, refl, Bool, false, ◌||◌, and_false, Option, none, List, [], ◌∷◌, ◌++◌,
}
use kswitch.Config.{Readings, ConfigOld}
use kswitch.Config.Migration.{
  filesystem, vault_kind, paths_of, with_paths, default_store, convert_configuration, vault_config,
}
use kswitch.Config.Validation.{
  child, is_some, validate_config, validate_hooks, validate_stores, store_errors, store_key,
}

module _ (r : Readings) where
  stores_valid :
      (uses : Bool) (files secrets : List Text) (config : Option r.Raw)
      → validate_stores r uses [] 0 (
          with_paths (default_store r filesystem files none)
          ++ with_paths (default_store r vault_kind secrets config))
        ≡ []
  unfolding validate_stores store_errors store_key with_paths ◌==◌
  stores_valid uses [] [] config = refl
  stores_valid uses [] (p ∷ secrets) config = rw (and_false (uses || false))
  stores_valid uses (p ∷ files) [] config = rw (and_false (uses || false))
  stores_valid uses (p ∷ files) (q ∷ secrets) config = rw (and_false (uses || false))

  -- The only errors that `ValidateConfig` finds in a configuration that `ConvertConfiguration` made
  -- are those of the hooks, which were in the old configuration already.
  pub validate_config-convert_configuration :
      (old : ConfigOld)
      → validate_config r (convert_configuration r old)
        ≡ validate_hooks (child (text "hooks") ∷ []) 0 old.hooks
  unfolding validate_config convert_configuration ◌==◌
  validate_config-convert_configuration old = rw (
      stores_valid (is_some old.kubeconfig_rediscovery_interval)
        (paths_of filesystem old.kubeconfig_paths) (paths_of vault_kind old.kubeconfig_paths)
        (vault_config r old.vault_api_address))
