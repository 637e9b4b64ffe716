-- ===== src/CloudStores/Gke/Retrieved.antt =====
-- What the search of a GKE store sends is retrieved, after the search and from an index.
use kswitch.Prelude.{Text, text, ◌≡◌, refl, ap, ◌∙◌, Option, some, [], ◌∷◌, ◌++◌}
use kswitch.Prelude.Dict.{Dict, read}
use kswitch.Prelude.Go.{ok}
use kswitch.Prelude.Split.{IsUnambiguous, split_double-piece, split_double-last}
use kswitch.Prelude.Strings.{trim_prefix-append}
use kswitch.Search.{SearchResult, path_found, search_error}
use kswitch.CloudStores.{three_pieces, three}
use kswitch.CloudStores.Gke.{
  Config, GkeCluster, Client, path_of, parsed, or_empty, asked_for, resource_name, kubeconfig_of,
  get_kubeconfig_for_path,
}
use kswitch.CloudStores.Gke.Cached.{IsListed}

-- The project, the location and the name have no two dashes in a row and no dash at their end.
abbrev pub IsPlain : Text → GkeCluster → Type 0
IsPlain project c =
    IsUnambiguous b'-' (text "gke_" ++ project)
    × IsUnambiguous b'-' c.location
    × IsUnambiguous b'-' c.name

pieces_of :
    (project : Text) (c : GkeCluster)
    → IsPlain project c
    → three_pieces (path_of project c) ≡ some (text "gke_" ++ project, c.location, c.name)
unfolding three_pieces path_of
pieces_of project c (p, l, n) = ap three (
    split_double-piece b'-' (text "gke_" ++ project) (c.location ++ b'-' ∷ b'-' ∷ c.name) p
    ∙ ap (λ t. (text "gke_" ++ project) ∷ t)
        (split_double-piece b'-' c.location c.name l
          ∙ ap (λ t. c.location ∷ t) (split_double-last b'-' c.name n)))

module _ (client : Client) (cfg : Config) (projects : Dict Text) where
  -- The kubeconfig for the path of a cluster, if the cache has the cluster, or has nothing for the
  -- path and the API gives the cluster.
  retrieved :
      (project id : Text) (c : GkeCluster) (cache : Dict GkeCluster) (known : Option GkeCluster)
      → IsPlain project c
      → read projects project ≡ some id
      → read cache (path_of project c) ≡ known
      → asked_for client known (resource_name id c.location c.name) ≡ ok c
      → get_kubeconfig_for_path client cfg projects cache (path_of project c) ≡ kubeconfig_of cfg c
  unfolding get_kubeconfig_for_path parsed or_empty
  retrieved project id c cache known plain has held asked =
      simp (pieces_of project c plain, trim_prefix-append (text "gke_") project, has, held, asked)
        (refl)

  -- A result is an error or the path of a cluster that the API lists for a project, whose kubeconfig is
  -- given for that path: with the cache that the search left; and with an empty one, if the API gives
  -- the cluster by its name.
  abbrev pub IsRetrieved : Dict GkeCluster → SearchResult → Type 0
  IsRetrieved cache search_error = Unit
  IsRetrieved cache (path_found path tags) =
      (project : Text) × (id : Text) × (c : GkeCluster) × IsListed client projects project id c
      × (path ≡ path_of project c)
      × (IsPlain project c
          → get_kubeconfig_for_path client cfg projects cache path ≡ kubeconfig_of cfg c)
      × (IsPlain project c
          → read projects project ≡ some id
          → client.get (resource_name id c.location c.name) ≡ some c
          → get_kubeconfig_for_path client cfg projects [] path ≡ kubeconfig_of cfg c)
