-- ===== src/CloudStores/Vault/Tests.antt =====
-- A directory with a secret, in a mount of the second engine version.
use kswitch.Prelude.{
  Text, text, ◌==◌, ◌≡◌, refl, true, ◌++◌, if◌then◌else◌, none, some, List, [], ◌∷◌,
}
use kswitch.Prelude.Cut.{cut}
use kswitch.Prelude.Dict.{read}
use kswitch.Prelude.Strings.{has_prefix, has_suffix, strip_prefix, trim_prefix}
use kswitch.Prelude.Go.{ok}
use kswitch.Search.{path_found}
use kswitch.CloudStores.Vault.{
  Client, Listing, failed, leaf, keys, Library, VaultStore, without_metadata, mount_of,
  shim_kv_v2_path, shim_kv_v2_list_path, list_path, read_path, visited, traverse, start_search,
  get_kubeconfig_for_path,
}
use kswitch.CloudStores.Vault.Paths.{under, list_path-read_path}

-- path.Join, where only a slash at the start of a piece or at the end is dropped.
abbrev no_slash : Text → Text
no_slash t = trim_prefix t (text "/")

abbrev join : List Text → Text
join [] = []
join (a ∷ []) = a
join (a ∷ b ∷ []) = a ++ text "/" ++ no_slash b
join (a ∷ b ∷ c ∷ rest) = a ++ text "/" ++ no_slash b ++ text "/" ++ no_slash c

abbrev library : Library
library = record {
  join = join;
  sorted = λ names. names;
  matched = λ name. some true;
  decode = λ t. none;
}

abbrev list : Text → Listing
list path =
    if path == text "kv/metadata"
    then keys (text "team" ∷ [])
    else if path == text "kv/metadata/team"
    then leaf
    else failed

abbrev client : Client
client = record {
  list = list;
  read_secret = λ path.
      if path == text "kv/data/team"
      then some (
          some (record {
            values = [];
            inner = some (some ((text "config", some (text "bytes")) ∷ []));
          }))
      else none;
}

abbrev store : VaultStore
store = record {
  engine_version = text "v2";
  vault_key_kubeconfig = text "config";
  paths = text "kv" ∷ [];
}

found_and_read :
    start_search library client 2 store (text "kv" ∷ [])
    ≡ some (path_found (text "kv/team") [] ∷ [])
unfolding start_search list_path mount_of cut shim_kv_v2_list_path traverse visited without_metadata
    has_prefix has_suffix strip_prefix trim_prefix ◌==◌
found_and_read = refl

read_back : get_kubeconfig_for_path library client store (text "kv/team") ≡ ok (text "bytes")
unfolding get_kubeconfig_for_path read_path mount_of cut shim_kv_v2_path has_prefix strip_prefix
    trim_prefix read ◌==◌
read_back = refl

list_path-read_path_example :
    (list_path library store (under (text "kv") (text "data/team"))
      ≡ under (text "kv") (text "metadata/data/team"))
    × (list_path library store (under (text "kv") (text "metadata/data/team"))
        ≡ under (text "kv") (text "metadata/data/team"))
    × (read_path library store (under (text "kv") (text "data/team"))
        ≡ under (text "kv") (text "data/data/team"))
unfolding has_prefix trim_prefix strip_prefix
list_path-read_path_example =
    list_path-read_path library store (text "kv") (text "data/team") (refl, (refl, tt)) refl refl
      refl refl refl
