-- ===== src/Registry/Tests.antt =====
-- Two kinds of stores.
use kswitch.Prelude.{
  Text, text, ◌==◌, ◌≡◌, refl, true, false, All, Option, none, some, List, [], ◌∷◌,
}
use kswitch.Prelude.Dict.{Dict, read}
use kswitch.Prelude.Go.{Go, ok, err, panic}
use kswitch.Registry.{
  RegistryError, unknown_store, register, register_all, create, registered_kinds,
}
use kswitch.Registry.Distinct.{repeated, kinds_of, register_all-create}

abbrev Factory : Type 0
Factory = Text → Go RegistryError (Option Text)

abbrev entries : List (Text × Factory)
entries = (text "gke", λ config. ok (some config)) ∷ (text "digitalocean", λ config. ok none) ∷ []

listed : registered_kinds (λ names. names) entries ≡ text "gke" ∷ text "digitalocean" ∷ []
unfolding registered_kinds
listed = refl

not_registered : create entries (text "vault") (text "c") ≡ err unknown_store
unfolding create read ◌==◌
not_registered = refl

twice : register_all entries entries ≡ panic
unfolding register_all register read ◌==◌
twice = refl

register_all-create_example :
    (repeated (kinds_of entries) ≡ true → register_all [] entries ≡ panic)
    × (repeated (kinds_of entries) ≡ false
        → (registry : Dict Factory) × (register_all [] entries ≡ ok registry)
          × All
              (λ (e : Text × Factory). (config : Text) → create registry e.0 config ≡ e.1 config)
              entries)
register_all-create_example = register_all-create entries
