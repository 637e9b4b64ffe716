-- ===== src/Prelude/Dict.antt =====
-- Go's `map[string]V`, as an association list. Reading a key that is absent gives `none`. The order
-- in which Go ranges over a map is not fixed, so nothing may depend on the order of this list.
use mathlib.Core.Path.{◌≡◌}
use mathlib.Core.Bool.{true, false}
use mathlib.Core.List.{List, [], ◌∷◌}
use mathlib.Core.Option.{Option, none, some}
use native.Mathlib.Omega.{arith}
use kswitch.Prelude.Tests.{if◌then◌else◌, Text, ◌==◌, ==_iff}

abbrev pub Dict {ℓ} : Type ℓ → Type ℓ
Dict V = List (Text × V)

module _ {ℓ} {V : Type ℓ} where
  -- delete(m, key)
  unfoldable pub delete : Dict V → Text → Dict V
  delete [] key = []
  delete ((name, old) ∷ others) key =
      let kept = delete others key in if name == key then kept else (name, old) ∷ kept

  -- m[key] = new
  unfoldable pub assign : Dict V → Text → V → Dict V
  assign m key new = (key, new) ∷ delete m key

  -- m[key]
  unfoldable pub read : Dict V → Text → Option V
  read [] key = none
  read ((name, found) ∷ others) key = elim (name == key) [
    | true ↦ some found
    | false ↦ read others key
  ]

  pub read-delete :
      (m : Dict V) (key asked : Text)
      → read (delete m key) asked ≡ (if key == asked then none else read m asked)
  unfolding read delete
  read-delete [] key asked = ground arith
  read-delete ((name, old) ∷ others) key asked =
      ground
        (arith, ==_iff key asked, ==_iff name key, ==_iff name asked, read-delete others key asked)

  pub read-assign :
      (m : Dict V) (key asked : Text) (new : V)
      → read (assign m key new) asked ≡ (if key == asked then some new else read m asked)
  unfolding read assign
  read-assign m key asked new = ground (arith, read-delete m key asked)
