-- ===== src/CloudStores/Eks.antt =====
-- pkg/store/kubeconfig_store_eks.go. The client library of AWS is the record Client; the pages of
-- clusters are given with whether the last request failed. The preview is not part of it.
pub mod Retrieved
use kswitch.Prelude.{
  Text, text, Bool, true, false, if◌then◌else◌, is_empty, Option, none, some, List, [], ◌∷◌, ◌++◌,
  map,
}
use kswitch.Prelude.Dict.{Dict, read, assign}
use kswitch.Prelude.Go.{Go, ok, err, panic, ◌>>=◌}
use kswitch.Prelude.Strings.{trim_prefix}
use kswitch.Sanitize.{ExecProvider}
use kswitch.Search.{SearchResult, path_found, search_error}
use kswitch.CloudStores.{KubeconfigFile, single_context, three_pieces}

-- types.StoreConfigEKS
pub record Config : Type 0 where
  pub region : Option Text
  pub profile : Text

-- The variables AWS_PROFILE, AWS_REGION and AWS_DEFAULT_REGION.
pub record Environment : Type 0 where
  pub aws_profile : Option Text
  pub aws_region : Option Text
  pub aws_default_region : Option Text

pub data Error : Type 0 where
  no_region no_profile bad_path not_got no_certificate : Error

-- The configuration of an initialised store: the region and the profile are there.
pub record Settings : Type 0 where
  pub region : Text
  pub profile : Text

required : Text → Option Text → Go Error Settings
required profile none = err no_region
required profile (some region) =
    if is_empty profile
    then err no_profile
    else if is_empty region
    then err no_region
    else ok (record { region = region; profile = profile })

or_else : Option Text → Option Text → Option Text
or_else none other = other
or_else (some a) other = some a

by_environment : Environment → Option Text → Go Error Settings
unfolding required or_else
by_environment env none = err no_profile
by_environment env (some profile) = required profile (or_else env.aws_default_region env.aws_region)

-- NewEKSStore, with the parsed configuration or without one.
unfoldable pub new_settings : Environment → Option Config → Go Error Settings
unfolding by_environment or_else required
new_settings env none = by_environment env env.aws_profile
new_settings env (some cfg) = required cfg.profile (or_else cfg.region env.aws_default_region)

-- The certificate of CertificateAuthority. AWS gives each cluster a name.
pub record EksCluster : Type 0 where
  pub name : Text
  pub certificate : Option Text
  pub endpoint : Option Text

-- The pages of ListClusters, and DescribeCluster.
pub record Client : Type 0 where
  pub pages : List (List Text)
  pub pages_failed : Bool
  pub describe : Text → Option EksCluster

unfoldable pub path_of : Settings → Text → Text
path_of s name = (text "eks_" ++ s.profile) ++ b'-' ∷ b'-' ∷ (s.region ++ b'-' ∷ b'-' ∷ name)

unfoldable pub page_found : Settings → List Text → List SearchResult
page_found s = map (λ name. path_found (path_of s name) [])

-- StartSearch of the initialised store.
unfoldable pub search_pages : Settings → List (List Text) → Bool → List SearchResult
search_pages s [] failed = if failed then search_error ∷ [] else []
search_pages s (page ∷ pages) failed = page_found s page ++ search_pages s pages failed

trimmed : Option (Text × Text × Text) → Go Error (Text × Text × Text)
trimmed none = err bad_path
trimmed (some (a, b, c)) = ok (trim_prefix a (text "eks_"), b, c)

-- parseEksIdentifier
unfoldable pub parse_eks_identifier : Text → Go Error (Text × Text × Text)
unfolding trimmed
parse_eks_identifier path = trimmed (three_pieces path)

abbrev pub aws_cli : Settings → Text → ExecProvider
aws_cli s name = record {
  api_version = text "client.authentication.k8s.io/v1beta1";
  args =
      text "--region"
      ∷ s.region
      ∷ text "eks"
      ∷ text "get-token"
      ∷ text "--cluster-name"
      ∷ name
      ∷ [];
  command = text "aws";
  env = record { name = text "AWS_PROFILE"; value = s.profile } ∷ [];
  install_hint = [];
  provide_cluster_info = false;
}

with_endpoint : Settings → Text → Text → Option Text → Go Error KubeconfigFile
with_endpoint s name certificate none = panic
with_endpoint s name certificate (some endpoint) =
    ok (single_context (text "eks_" ++ name) endpoint certificate (aws_cli s name))

with_certificate : Settings → EksCluster → Option Text → Go Error KubeconfigFile
unfolding with_endpoint
with_certificate s c none = err no_certificate
with_certificate s c (some certificate) = with_endpoint s c.name certificate c.endpoint

unfoldable pub kubeconfig_of : Settings → EksCluster → Go Error KubeconfigFile
unfolding with_certificate
kubeconfig_of s c = with_certificate s c c.certificate

module _ (client : Client) where
  described : Text → Dict EksCluster → Option EksCluster → Go Error (EksCluster × Dict EksCluster)
  described path cache none = err not_got
  described path cache (some c) = ok (c, assign cache path c)

  cluster_of :
      Text → Text → Dict EksCluster → Option EksCluster → Go Error (EksCluster × Dict EksCluster)
  unfolding described
  cluster_of path name cache (some c) = ok (c, cache)
  cluster_of path name cache none = described path cache (client.describe name)

  made : Settings → EksCluster × Dict EksCluster → Go Error KubeconfigFile × Dict EksCluster
  made s (c, cache) = (kubeconfig_of s c, cache)

  after :
      Settings
      → Dict EksCluster
      → Go Error (EksCluster × Dict EksCluster)
      → Go Error KubeconfigFile × Dict EksCluster
  unfolding made
  after s cache (ok found) = made s found
  after s cache (err e) = (err e, cache)
  after s cache panic = (panic, cache)
  after s cache Go.hang = (Go.hang, cache)

  -- GetKubeconfigForPath of the initialised store, up to the YAML package, and the cache.
  unfoldable pub get_kubeconfig_for_path :
      Settings → Dict EksCluster → Text → Go Error KubeconfigFile × Dict EksCluster
  unfolding cluster_of after
  get_kubeconfig_for_path s cache path =
      after s cache
        (parse_eks_identifier path >>= λ pieces. cluster_of path pieces.2 cache (read cache path))
