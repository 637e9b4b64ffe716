-- ===== src/CloudStores/Vault/Paths.antt =====
-- The paths at which a Vault store of the second engine version lists and reads.
use kswitch.Prelude.{
  Text, text, ◌==◌, ==_refl, ◌≡◌, refl, ap, ◌∙◌, true, false, [], ◌∷◌, ◌++◌, arith,
}
use kswitch.Prelude.Cut.{Lacks, cut-append}
use kswitch.Prelude.Strings.{has_prefix, has_prefix-append, trim_prefix-append, strip_prefix}
use kswitch.CloudStores.Vault.{
  Library, VaultStore, first_piece, mount_of, shim_kv_v2_path, shim_kv_v2_list_path, list_path,
  read_path,
}

-- A path below a mount.
abbrev pub under : Text → Text → Text
under mount rest = mount ++ b'/' ∷ rest

mount_of-under : (mount rest : Text) → Lacks b'/' mount → mount_of (under mount rest) ≡ mount
unfolding mount_of first_piece
mount_of-under mount rest h = ap (first_piece (under mount rest)) (cut-append b'/' mount rest h)

longer : (mount rest : Text) → (under mount rest == mount) ≡ false
unfolding ◌==◌
longer [] rest = refl
longer (c ∷ mount) rest = ground (arith, longer mount rest)

module _ (library : Library) (s : VaultStore) (mount rest : Text) (plain : Lacks b'/' mount) where
  reads :
      shim_kv_v2_path library (under mount rest) mount
      ≡ library.join (mount ∷ text "data" ∷ (b'/' ∷ rest) ∷ [])
  unfolding shim_kv_v2_path has_prefix strip_prefix
  reads = simp (longer mount rest, trim_prefix-append mount (b'/' ∷ rest)) (refl)

  of_version : s.engine_version ≡ text "v2" → (s.engine_version == text "v2") ≡ true
  of_version version = rw version (==_refl (text "v2"))

  read_at :
      s.engine_version ≡ text "v2"
      → read_path library s (under mount rest)
        ≡ library.join (mount ∷ text "data" ∷ (b'/' ∷ rest) ∷ [])
  unfolding read_path
  read_at version = simp (of_version version, mount_of-under mount rest plain) reads

  list_at :
      s.engine_version ≡ text "v2"
      → list_path library s (under mount rest)
        ≡ shim_kv_v2_list_path library (under mount rest) mount
  unfolding list_path
  list_at version = simp (of_version version, mount_of-under mount rest plain) (refl)

same_prefix : (p q s : Text) → strip_prefix (p ++ q) (p ++ s) ≡ strip_prefix q s
unfolding strip_prefix
same_prefix [] q s = refl
same_prefix (c ∷ p) q s = ground (arith, same_prefix p q s)

under_prefix : (mount q s : Text) → has_prefix (under mount s) (under mount q) ≡ has_prefix s q
unfolding has_prefix
under_prefix mount q s = rw (same_prefix mount (b'/' ∷ q) (b'/' ∷ s)) (unfold strip_prefix in refl)

-- For a mount without a slash in its name and a path below it that does not begin with metadata, where
-- path.Join joins these with slashes: a store of the second engine version lists the path below
-- metadata, and lists what it so lists at the same place, since the paths are changed when they are
-- verified and again when they are searched; and it reads the path below data, also where it begins
-- with data/ already.
pub list_path-read_path :
    (library : Library) (s : VaultStore) (mount rest : Text)
    → Lacks b'/' mount
    → s.engine_version ≡ text "v2"
    → has_prefix rest (text "metadata") ≡ false
    → library.join (mount ∷ text "metadata" ∷ []) ≡ under mount (text "metadata")
    → library.join (mount ∷ text "metadata" ∷ (b'/' ∷ rest) ∷ [])
      ≡ under mount (text "metadata/" ++ rest)
    → library.join (mount ∷ text "data" ∷ (b'/' ∷ rest) ∷ []) ≡ under mount (text "data/" ++ rest)
    → (list_path library s (under mount rest) ≡ under mount (text "metadata/" ++ rest))
      × (list_path library s (under mount (text "metadata/" ++ rest))
          ≡ under mount (text "metadata/" ++ rest))
      × (read_path library s (under mount rest) ≡ under mount (text "data/" ++ rest))
unfolding shim_kv_v2_list_path
list_path-read_path library s mount rest plain version other joined metadata_of data_of = (
  list_at library s mount rest plain version
      ∙ simp
          (
            joined,
            under_prefix mount (text "metadata") rest,
            other,
            longer mount rest,
            trim_prefix-append mount (b'/' ∷ rest),
          )
          metadata_of,
  list_at library s mount (text "metadata/" ++ rest) plain version
      ∙ simp
          (
            joined,
            under_prefix mount (text "metadata") (text "metadata/" ++ rest),
            has_prefix-append (text "metadata") (b'/' ∷ rest),
          )
          (refl),
  read_at library s mount rest plain version ∙ data_of,
)
