-- ===== src/Registry.antt =====
-- pkg/store/registry.go: the factories of the stores by their kind. The package's init functions
-- register one after the other; a factory is called with the configuration of a store.
pub mod Distinct
pub mod Tests
use kswitch.Prelude.{Text, Option, none, some, List, [], ◌∷◌, map}
use kswitch.Prelude.Dict.{Dict, read, assign}
use kswitch.Prelude.Go.{Go, ok, err, panic, ◌>>=◌}

pub data RegistryError : Type 0 where
  unknown_store of_factory : RegistryError

module _ {F : Type 0} where
  added : Dict F → Text → F → Option F → Go RegistryError (Dict F)
  added registry kind factory none = ok (assign registry kind factory)
  added registry kind factory (some old) = panic

  -- Register
  unfoldable pub register : Dict F → Text → F → Go RegistryError (Dict F)
  unfolding added
  register registry kind factory = added registry kind factory (read registry kind)

  unfoldable pub register_all : Dict F → List (Text × F) → Go RegistryError (Dict F)
  register_all registry [] = ok registry
  register_all registry ((kind, factory) ∷ entries) =
      register registry kind factory >>= λ registry'. register_all registry' entries

  -- RegisteredKinds, with sort.Strings as a parameter.
  unfoldable pub registered_kinds : (List Text → List Text) → Dict F → List Text
  registered_kinds sorted registry = sorted (map (λ entry. entry.0) registry)

-- A factory gives a store, no store where it does not apply, or an error.
module _ {Config Store : Type 0} where
  called :
      Config → Option (Config → Go RegistryError (Option Store)) → Go RegistryError (Option Store)
  called config none = err unknown_store
  called config (some factory) = factory config

  -- Create
  unfoldable pub create :
      Dict (Config → Go RegistryError (Option Store))
      → Text
      → Config
      → Go RegistryError (Option Store)
  unfolding called
  create registry kind config = called config (read registry kind)
