-- ===== src/CloudStores/Eks/Retrieved.antt =====
-- What the search of an EKS store sends is retrieved.
use kswitch.Prelude.{Text, text, ◌≡◌, ap, ◌∙◌, none, some, List, ◌∷◌, ◌++◌}
use mathlib.Core.List.{Memᴰ}
use kswitch.Prelude.Dict.{Dict, read, assign}
use kswitch.Prelude.Go.{ok}
use kswitch.Prelude.Split.{IsUnambiguous, split_double-piece, split_double-last}
use kswitch.Prelude.Strings.{trim_prefix-append}
use kswitch.Search.{SearchResult, path_found, search_error}
use kswitch.CloudStores.{three_pieces, three}
use kswitch.CloudStores.Eks.{
  Settings, EksCluster, Client, path_of, trimmed, parse_eks_identifier, kubeconfig_of,
  get_kubeconfig_for_path,
}

module _ (s : Settings) where
  -- The profile, the region and the name have no two dashes in a row and no dash at their end.
  abbrev pub IsPlain : Text → Type 0
  IsPlain name =
      IsUnambiguous b'-' (text "eks_" ++ s.profile)
      × IsUnambiguous b'-' s.region
      × IsUnambiguous b'-' name

  pub parse_eks_identifier-path_of :
      (name : Text)
      → IsPlain name
      → parse_eks_identifier (path_of s name) ≡ ok (s.profile, s.region, name)
  unfolding parse_eks_identifier three_pieces path_of trimmed
  parse_eks_identifier-path_of name (p, r, n) =
      ap (λ l. trimmed (three l))
        (split_double-piece b'-' (text "eks_" ++ s.profile) (s.region ++ b'-' ∷ b'-' ∷ name) p
          ∙ ap (λ t. (text "eks_" ++ s.profile) ∷ t)
              (split_double-piece b'-' s.region name r
                ∙ ap (λ t. s.region ∷ t) (split_double-last b'-' name n)))
      ∙ ap (λ t. ok (t, s.region, name)) (trim_prefix-append (text "eks_") s.profile)

  module _ (client : Client) where
    -- The path of a cluster of some page: if AWS describes the cluster, the store gives the kubeconfig
    -- made of that, and then gives it again from its cache, whatever the API is then.
    abbrev pub IsRetrieved : List (List Text) → SearchResult → Type 0
    IsRetrieved pages search_error = Unit
    IsRetrieved pages (path_found path tags) =
        (page : List Text) × (name : Text) × Memᴰ page pages
        × Memᴰ name page
        × ((c : EksCluster) (cache : Dict EksCluster)
            → IsPlain name
            → client.describe name ≡ some c
            → read cache path ≡ none
            → (get_kubeconfig_for_path client s cache path
                ≡ (kubeconfig_of s c, assign cache path c))
              × ((later : Client)
                  → get_kubeconfig_for_path later s (assign cache path c) path
                    ≡ (kubeconfig_of s c, assign cache path c)))
