-- ===== src/CloudStores/Vault.antt =====
-- pkg/store/kubeconfig_store_vault.go. The API of Vault, path.Join, filepath.Match, the sorting of keys
-- and the decoding of base64 are parameters. The goroutines of the traversal are run one after the
-- other; it takes fuel, one unit for each directory below another.
pub mod Paths
pub mod Tests
use kswitch.Prelude.{
  ℕ, zero, suc, Text, text, ◌==◌, Bool, true, false, ◌&&◌, ◌||◌, not, if◌then◌else◌, is_empty,
  is_elem, Option, none, some, List, [], ◌∷◌, ◌++◌, map,
}
use kswitch.Prelude.Dict.{Dict, read}
use kswitch.Prelude.Cut.{cut}
use kswitch.Prelude.Go.{Go, ok, err, ◌>>=◌}
use kswitch.Prelude.Strings.{has_prefix, trim_prefix, has_suffix, strip_prefix}
use kswitch.Search.{SearchResult, path_found}

-- Of a secret: its values, each `none` if it is not a text, and, for the second version of the engine,
-- what is at the key data: nothing, something that is no map, or a map.
pub record Secret : Type 0 where
  pub values : List (Text × Option Text)
  pub inner : Option (Option (Dict (Option Text)))

-- What a list request gives: an error (or keys that are no texts), nothing, or keys.
pub data Listing : Type 0 where
  failed leaf : Listing
  keys : List Text → Listing

pub record Client : Type 0 where
  pub list : Text → Listing
  -- An error is `none`, and no secret `some none`.
  pub read_secret : Text → Option (Option Secret)

pub record Library : Type 0 where
  pub join : List Text → Text
  pub sorted : List Text → List Text
  -- Of the kubeconfig name; `none` for a bad pattern.
  pub matched : Text → Option Bool
  pub decode : Text → Option Text

pub record VaultStore : Type 0 where
  pub engine_version : Text
  pub vault_key_kubeconfig : Text
  pub paths : List Text

pub data Error : Type 0 where
  no_address no_token not_read missing not_one bad_pattern other_name not_text empty_value : Error
  no_inner inner_not_map no_key : Error

first_filled : List Text → Text
first_filled [] = []
first_filled (t ∷ texts) = if is_empty t then first_filled texts else t

-- The settings of NewVaultStore: the address is of the environment, of the flag or of the
-- configuration, the token of the environment or of the file.
unfoldable pub address_of : Text → Text → Text → Go Error Text
unfolding first_filled
address_of config flag environment =
    let address = first_filled (environment ∷ flag ∷ config ∷ []) in
    if is_empty address then err no_address else ok address

unfoldable pub token_of : Text → Text → Go Error Text
unfolding first_filled
token_of file environment =
    let token = first_filled (environment ∷ file ∷ []) in
    if is_empty token then err no_token else ok token

first_piece : Text → Option (Text × Text) → Text
first_piece whole none = whole
first_piece whole (some (before, after)) = before

-- strings.Cut(path, "/"), before the slash.
unfoldable pub mount_of : Text → Text
unfolding first_piece
mount_of path = first_piece path (cut b'/' path)

abbrev metadata : Text
metadata = text "metadata/"

-- strings.ReplaceAll(path, "metadata/", ""): a match that began is skipped for `left` more characters.
unfoldable pub without_metadata : ℕ → Text → Text
without_metadata left [] = []
without_metadata (suc left) (c ∷ s) = without_metadata left s
without_metadata zero (c ∷ s) =
    let matched = without_metadata 8 s in
    let kept = without_metadata zero s in if has_prefix (c ∷ s) metadata then matched else c ∷ kept

module _ (library : Library) where
  -- shimKVv2Path, whose mount path has no slash at its end.
  unfoldable pub shim_kv_v2_path : Text → Text → Text
  shim_kv_v2_path raw mount =
      if raw == mount
      then library.join (mount ∷ text "data" ∷ [])
      else let p = trim_prefix raw mount in
        if has_prefix p (text "data/") || has_prefix p metadata
        then raw
        else library.join (mount ∷ text "data" ∷ p ∷ [])

  -- shimKvV2ListPath
  unfoldable pub shim_kv_v2_list_path : Text → Text → Text
  shim_kv_v2_list_path raw mount =
      if has_prefix raw (library.join (mount ∷ text "metadata" ∷ []))
      then raw
      else if raw == mount
      then library.join (mount ∷ text "metadata" ∷ [])
      else library.join (mount ∷ text "metadata" ∷ trim_prefix raw mount ∷ [])

  unfoldable pub list_path : VaultStore → Text → Text
  list_path s path =
      if s.engine_version == text "v2" then shim_kv_v2_list_path path (mount_of path) else path

  unfoldable pub read_path : VaultStore → Text → Text
  read_path s path =
      if s.engine_version == text "v2" then shim_kv_v2_path path (mount_of path) else path

  -- The callback of StartSearch.
  unfoldable pub visited : Text → SearchResult
  visited path = path_found (without_metadata zero path) []

  pair_up : Option (List SearchResult) → Option (List SearchResult) → Option (List SearchResult)
  pair_up none others = none
  pair_up (some deeper) none = none
  pair_up (some deeper) (some others) = some (deeper ++ others)

  module _ (rec : Text → Option (List SearchResult)) where
    -- The loop over the keys below a path: a directory is visited like a secret, and entered.
    visit_keys : Text → List Text → Option (List SearchResult)
    unfolding pair_up
    visit_keys path [] = some []
    visit_keys path (key ∷ others) =
        let child = library.join (path ∷ key ∷ []) in
        let deeper = if has_suffix key (text "/") then rec child else some [] in
        let rest = visit_keys path others in
        pair_up (some (visited child ∷ [])) (pair_up deeper rest)

    below : Text → Listing → Option (List SearchResult)
    unfolding visit_keys
    below path failed = some []
    below path leaf = some (visited (without_metadata zero path) ∷ [])
    below path (keys names) = visit_keys path (library.sorted names)

  module _ (client : Client) where
    -- recursivePathTraversal
    unfoldable pub traverse : ℕ → Text → Option (List SearchResult)
    unfolding below
    traverse zero path = none
    traverse (suc fuel) path = below (traverse fuel) path (client.list path)

    -- StartSearch, for the paths that VerifyKubeconfigPaths has left.
    unfoldable pub start_search : ℕ → VaultStore → List Text → Option (List SearchResult)
    unfolding pair_up
    start_search fuel s [] = some []
    start_search fuel s (path ∷ vault_paths) =
        pair_up (traverse fuel (list_path s path)) (start_search fuel s vault_paths)

    verified : Text → Option (Option Secret) → Go Error Text
    verified path none = err not_read
    verified path (some secret) = ok path

    -- VerifyKubeconfigPaths: what it appends to the paths of the store, with the paths it has met.
    unfoldable pub verify_kubeconfig_paths :
        VaultStore → List Text → List Text → Go Error (List Text)
    unfolding verified
    verify_kubeconfig_paths s seen [] = ok []
    verify_kubeconfig_paths s seen (path ∷ paths) =
        let rest = verify_kubeconfig_paths s (path ∷ seen) paths in
        let first = verified (list_path s path) (client.read_secret (list_path s path)) in
        if is_elem path seen then rest else first >>= λ p. rest >>= λ ps. ok (p ∷ ps)

    decoded : Text → Option Text → Text
    decoded t none = t
    decoded t (some bytes) = bytes

    -- getBytesFromSecretValue
    bytes_of : Option Text → Go Error Text
    unfolding decoded
    bytes_of none = err not_text
    bytes_of (some t) = ok (decoded t (library.decode t))

    not_empty : Text → Go Error Text
    not_empty bytes = if is_empty bytes then err empty_value else ok bytes

    of_value : Option Text → Option Bool → Go Error Text
    unfolding bytes_of not_empty
    of_value value none = err bad_pattern
    of_value value (some false) = err other_name
    of_value value (some true) = bytes_of value >>= not_empty

    -- The first version of the engine: a secret with one value.
    of_values : List (Text × Option Text) → Go Error Text
    unfolding of_value
    of_values [] = err not_one
    of_values ((key, value) ∷ []) = of_value value (library.matched key)
    of_values (a ∷ b ∷ rest) = err not_one

    of_key : Option (Option Text) → Go Error Text
    unfolding bytes_of
    of_key none = err no_key
    of_key (some value) = bytes_of value

    of_inner : Text → Option (Option (Dict (Option Text))) → Go Error Text
    unfolding of_key
    of_inner key none = err no_inner
    of_inner key (some none) = err inner_not_map
    of_inner key (some (some values)) = of_key (read values key)

    of_secret : VaultStore → Option (Option Secret) → Go Error Text
    unfolding of_values of_inner
    of_secret s none = err not_read
    of_secret s (some none) = err missing
    of_secret s (some (some secret)) =
        if s.engine_version == text "v1"
        then of_values secret.values
        else of_inner s.vault_key_kubeconfig secret.inner

    unfoldable pub get_kubeconfig_for_path : VaultStore → Text → Go Error Text
    unfolding of_secret
    get_kubeconfig_for_path s path = of_secret s (client.read_secret (read_path s path))
