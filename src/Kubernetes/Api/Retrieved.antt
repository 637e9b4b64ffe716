-- ===== src/Kubernetes/Api/Retrieved.antt =====
-- What the search of a Kubernetes store sends can be retrieved from it.
use kswitch.Prelude.{
  Text, text, ◌==◌, ◌≡◌, refl, ap, arith, true, false, ◌||◌, inl, inr, Bool-cases, Option-cases,
  if◌then◌else◌, is_empty, map, keep_if, All, Option, some, List, [], ◌∷◌, ◌++◌,
}
use kswitch.Prelude.Dict.{Dict, read, read-assign}
use kswitch.Prelude.Cut.{cut, Lacks, cut-append}
use kswitch.Prelude.Go.{ok}
use kswitch.Search.{SearchResult, path_found}
use kswitch.Kubernetes.{
  Config, Secret, Client, KubernetesStore, secret_path, both_filled, parse_secret_path,
  kubeconfig_of, value_of, or_empty, is_there, join, tags_of, aliases_of, has_key, secret_found,
  results_of, names_for, parsed,
}
use kswitch.Kubernetes.Api.{
  searched, start_search, list_secrets, build_client, kubeconfig_in, of_secret, retrieved,
  get_kubeconfig_for_path,
}

-- The API gives the secret by its namespace and its name, which are not empty, and the namespace has
-- no slash.
abbrev pub IsStored : Client → Secret → Type 0
IsStored client secret =
    (client.get secret.namespace secret.name ≡ some secret)
    × (is_empty secret.namespace ≡ false)
    × (is_empty secret.name ≡ false)
    × Lacks b'/' secret.namespace

value_of_tags :
    (cfg : Config) (secret : Secret) (asked : Text)
    → (text "aliases" == asked) ≡ false
    → value_of (tags_of cfg secret) asked
      ≡ value_of
          ((text "namespace", secret.namespace) ∷ (text "secretName", secret.name) ∷ [])
          asked
unfolding tags_of value_of or_empty
value_of_tags cfg secret asked other = elim (Bool-cases (is_empty (aliases_of cfg secret))) [
  | inl e ↦ rw e
  | inr e ↦ rw e (
      rw (
        read-assign ((text "namespace", secret.namespace) ∷ (text "secretName", secret.name) ∷ [])
            (text "aliases") asked (join (aliases_of cfg secret)),
        other,
      ))
]

filled_pair :
    (r : Option (Text × Text)) (namespace name : Text)
    → r ≡ some (namespace, name)
    → is_empty namespace ≡ false
    → is_empty name ≡ false
    → both_filled r ≡ some (namespace, name)
unfolding both_filled
filled_pair r namespace name e filled named = rw (e, both_filled, filled, named)

parse_path :
    (namespace name : Text)
    → is_empty namespace ≡ false
    → is_empty name ≡ false
    → Lacks b'/' namespace
    → parse_secret_path (secret_path namespace name) ≡ some (namespace, name)
unfolding parse_secret_path secret_path
parse_path namespace name filled named lacks =
    filled_pair (cut b'/' (namespace ++ b'/' ∷ name)) namespace name
      (cut-append b'/' namespace name lacks) filled named

given_names :
    (namespace name : Text)
    → is_empty namespace ≡ false
    → is_empty name ≡ false
    → (if is_empty namespace || is_empty name
        then parsed (parse_secret_path (secret_path namespace name))
        else ok (namespace, name))
      ≡ ok (namespace, name)
given_names namespace name filled named = rw (filled, named)

module _ (client : Client) (cfg : Config) (secret : Secret) (stored : IsStored client secret) where
  names_by_tags :
      names_for (secret_path secret.namespace secret.name) (tags_of cfg secret)
      ≡ ok (secret.namespace, secret.name)
  unfolding names_for ◌==◌ value_of read
  names_by_tags =
      simp
        (
          value_of_tags cfg secret (text "namespace") refl,
          value_of_tags cfg secret (text "secretName") refl,
        )
        (given_names secret.namespace secret.name stored.1 stored.2)

  names_by_path :
      names_for (secret_path secret.namespace secret.name) [] ≡ ok (secret.namespace, secret.name)
  unfolding names_for value_of read parsed
  names_by_path = ap parsed (parse_path secret.namespace secret.name stored.1 stored.2 stored.3)

key_read :
    (cfg : Config) (secret : Secret)
    → has_key cfg secret ≡ true
    → (raw : Text) × (read secret.values cfg.path ≡ some raw)
unfolding has_key is_there
key_read cfg secret h = elim (Option-cases (read secret.values cfg.path)) [
  | inl missing ↦ absurd (ground (arith, h, missing))
  | inr there ↦ there
]

module _ (client_for : Text → Option Client) (ambient : Option Client)
    (sorted : List Text → List Text) (s : KubernetesStore) where
  -- The secret has the key, and for its path, with its tags or with none, the store gives the
  -- kubeconfig of this secret.
  abbrev pub IsRetrieved : Secret → Type 0
  IsRetrieved secret =
      (raw : Text) × (read secret.values s.config.path ≡ some raw)
      × (get_kubeconfig_for_path client_for ambient sorted s
            (secret_path secret.namespace secret.name) (tags_of s.config secret)
          ≡ ok (kubeconfig_of raw secret.name))
      × (get_kubeconfig_for_path client_for ambient sorted s
            (secret_path secret.namespace secret.name) []
          ≡ ok (kubeconfig_of raw secret.name))

  module _ (client : Client) (built : build_client client_for ambient sorted s ≡ some client)
      (secret : Secret) (raw : Text)
      (stored : client.get secret.namespace secret.name ≡ some secret)
      (has : read secret.values s.config.path ≡ some raw) where
    get_named :
        (path : Text) (tags : Dict Text)
        → names_for path tags ≡ ok (secret.namespace, secret.name)
        → get_kubeconfig_for_path client_for ambient sorted s path tags
          ≡ ok (kubeconfig_of raw secret.name)
    unfolding get_kubeconfig_for_path retrieved of_secret kubeconfig_in
    get_named path tags named = simp (named, built, stored, has) (refl)

  module _ (client : Client) (built : build_client client_for ambient sorted s ≡ some client) where
    one-IsRetrieved :
        (secret : Secret) (raw : Text)
        → IsStored client secret
        → read secret.values s.config.path ≡ some raw
        → IsRetrieved secret
    one-IsRetrieved secret raw stored has = (
      raw,
      has,
      get_named client built secret raw stored.0 has _ _
          (names_by_tags client s.config secret stored),
      get_named client built secret raw stored.0 has _ _
          (names_by_path client s.config secret stored),
    )

    all-IsRetrieved :
        (secrets : List Secret)
        → All (IsStored client) secrets
        → All IsRetrieved (keep_if (has_key s.config) secrets)
    all-IsRetrieved [] stored = tt
    all-IsRetrieved (secret ∷ secrets) (here, stored) =
        let others = all-IsRetrieved secrets stored in
        elim (Bool-cases (has_key s.config secret)) [
          | inl has ↦
              let (raw, reads) = key_read s.config secret has in
              rw has (one-IsRetrieved secret raw here reads, others)
          | inr missing ↦ rw missing others
        ]

-- The result for a secret.
abbrev pub result_for : Config → Secret → SearchResult
result_for cfg secret = path_found (secret_path secret.namespace secret.name) (tags_of cfg secret)

results_of_lem :
    (cfg : Config) (secrets : List Secret)
    → results_of cfg secrets ≡ map (result_for cfg) (keep_if (has_key cfg) secrets)
unfolding results_of secret_found
results_of_lem cfg [] = refl
results_of_lem cfg (secret ∷ secrets) = elim (Bool-cases (has_key cfg secret)) [
  | inl has ↦ simp (has, results_of_lem cfg secrets) (refl)
  | inr missing ↦ simp (missing, results_of_lem cfg secrets) (refl)
]

-- Where the store has a client and lists secrets, each of which the API gives by its namespace and its
-- name, both not empty and the namespace without a slash: the search sends exactly one result for each
-- secret that has the configured key, in their order, with its path and tags, and no error; and for
-- each of these secrets the store gives, for that path, with those tags or with none, the kubeconfig of
-- the secret, as it is or made of its token.
pub start_search-IsRetrieved :
    (client_for : Text → Option Client) (ambient : Option Client) (sorted : List Text → List Text)
    (s : KubernetesStore) (client : Client) (secrets : List Secret)
    → build_client client_for ambient sorted s ≡ some client
    → list_secrets client_for ambient sorted s ≡ ok secrets
    → All (IsStored client) secrets
    → (start_search client_for ambient sorted s
        ≡ map (result_for s.config) (keep_if (has_key s.config) secrets))
      × All (IsRetrieved client_for ambient sorted s) (keep_if (has_key s.config) secrets)
unfolding start_search searched
start_search-IsRetrieved client_for ambient sorted s client secrets built lists stored = (
  simp lists (results_of_lem s.config secrets),
  all-IsRetrieved client_for ambient sorted s client built secrets stored,
)
