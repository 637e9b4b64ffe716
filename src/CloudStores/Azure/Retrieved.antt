-- ===== src/CloudStores/Azure/Retrieved.antt =====
-- What the search of an Azure store sends, and what is asked for when it is retrieved.
use kswitch.Prelude.{
  Text, text, ◌≡◌, ◌≢◌, ◌⊎◌, refl, sym, ap, ◌∙◌, Bool, true, false, inl, inr, Bool-cases, All,
  All-append, Option, none, some, List, [], ◌∷◌, ◌++◌,
}
use mathlib.Core.List.{Memᴰ}
use mathlib.Core.Path.{subst}
use kswitch.Prelude.Dict.{Dict}
use kswitch.Prelude.Go.{Go, ok, err}
use kswitch.Prelude.Split.{IsUnambiguous, split_double-piece, split_double-last}
use kswitch.Prelude.Strings.{trim_prefix-append}
use kswitch.Search.{SearchResult, path_found, search_error}
use kswitch.CloudStores.{two_pieces, two}
use kswitch.CloudStores.Azure.{
  AzureCluster, Pages, Client, path_of, group_of, with_group, with_id, with_name, clusters_found,
  search_pages, search_groups, start_search, trimmed, parse_azure_identifier, first_kubeconfig,
  Error, no_kubeconfig, credentials, of_properties, of_cluster, get_kubeconfig_for_path,
}

abbrev pub IsPlain : Text → Text → Type 0
IsPlain group name = IsUnambiguous b'-' (text "az_" ++ group) × IsUnambiguous b'-' name

module _ (client : Client) where
  -- The credentials of the user if the cluster has an AADProfile, else those of the administrator.
  abbrev pub credentials_for : Text → Text → Bool → Option (List (Option Text))
  credentials_for group name true = client.user_credentials group name
  credentials_for group name false = client.admin_credentials group name

  parse_azure_identifier-path_of :
      (group name : Text)
      → IsPlain group name
      → parse_azure_identifier client (path_of group name) ≡ ok (group, name)
  unfolding parse_azure_identifier two_pieces path_of trimmed
  parse_azure_identifier-path_of group name (g, n) =
      ap (λ l. trimmed client (two l))
        (split_double-piece b'-' (text "az_" ++ group) name g
          ∙ ap (λ t. (text "az_" ++ group) ∷ t) (split_double-last b'-' name n))
      ∙ ap (λ t. ok (t, name)) (trim_prefix-append (text "az_") group)

  chosen :
      (group name : Text) (aad : Bool) (kubeconfigs : List (Option Text))
      → credentials_for group name aad ≡ some kubeconfigs
      → of_properties client group name (some aad) ≡ first_kubeconfig client kubeconfigs
  unfolding of_properties credentials
  chosen group name true kubeconfigs h = ap (credentials client) h
  chosen group name false kubeconfigs h = ap (credentials client) h

  -- No kubeconfig, or an empty one.
  abbrev pub IsBlank : Option Text → Type 0
  IsBlank kubeconfig = (kubeconfig ≡ none) ⊎ (kubeconfig ≡ some [])

  -- The first of the kubeconfigs that is not blank, or an error where all are.
  abbrev pub IsFirst : List (Option Text) → Go Error Text → Type 0
  IsFirst kubeconfigs answer =
      (All IsBlank kubeconfigs × (answer ≡ err no_kubeconfig))
      ⊎ ((before : List (Option Text)) × (value : Text) × (after : List (Option Text))
          × (kubeconfigs ≡ before ++ (some value ∷ after))
          × All IsBlank before
          × (value ≢ [])
          × (answer ≡ ok value))

  behind :
      (k : Option Text) (kubeconfigs : List (Option Text)) (answer : Go Error Text)
      → IsBlank k
      → IsFirst kubeconfigs answer
      → IsFirst (k ∷ kubeconfigs) answer
  behind k kubeconfigs answer b (inl (blank, e)) = inl ((b, blank), e)
  behind k kubeconfigs answer b (inr (before, value, after, e, blank, filled, is)) =
      inr (k ∷ before, value, after, ap (λ t. k ∷ t) e, (b, blank), filled, is)

  first_kubeconfig-IsFirst :
      (kubeconfigs : List (Option Text)) → IsFirst kubeconfigs (first_kubeconfig client kubeconfigs)
  unfolding first_kubeconfig
  first_kubeconfig-IsFirst [] = inl (tt, refl)
  first_kubeconfig-IsFirst (none ∷ others) =
      behind none others _ (inl refl) (first_kubeconfig-IsFirst others)
  first_kubeconfig-IsFirst (some [] ∷ others) =
      behind (some []) others _ (inr refl) (first_kubeconfig-IsFirst others)
  first_kubeconfig-IsFirst (some (c ∷ value) ∷ others) =
      inr ([], c ∷ value, others, refl, tt, λ e. absurd (cc), refl)

  asked :
      (group name : Text) (c : AzureCluster) (aad : Bool) (kubeconfigs : List (Option Text))
      → IsPlain group name
      → client.get group name ≡ some c
      → c.properties ≡ some aad
      → credentials_for group name aad ≡ some kubeconfigs
      → IsFirst kubeconfigs (get_kubeconfig_for_path client (path_of group name))
  unfolding get_kubeconfig_for_path of_cluster
  asked group name c aad kubeconfigs plain given reads has =
      let e : get_kubeconfig_for_path client (path_of group name)
          ≡ first_kubeconfig client kubeconfigs =
        simp (parse_azure_identifier-path_of group name plain, given, reads)
          (chosen group name aad kubeconfigs has) in
      subst (IsFirst kubeconfigs) (sym e) (first_kubeconfig-IsFirst kubeconfigs)

  abbrev pub InPages : Pages → AzureCluster → Type 0
  InPages p c = (page : List AzureCluster) × Memᴰ page p.pages × Memᴰ c page

  -- The clusters of the subscription, or of the resource groups if some are configured.
  abbrev pub IsListed : List Text → AzureCluster → Type 0
  IsListed [] c = InPages client.of_all c
  IsListed (g ∷ groups) c =
      (group : Text) × Memᴰ group (g ∷ groups) × InPages (client.of_group group) c

  -- An error, or the path of a listed cluster, from its name and the resource group in its ID, for
  -- which the store gives the first kubeconfig with bytes that Azure has for that name in that group.
  abbrev pub IsAnswered : (AzureCluster → Type 0) → SearchResult → Type 0
  IsAnswered Listed search_error = Unit
  IsAnswered Listed (path_found path tags) =
      (c : AzureCluster) × (id : Text) × (name : Text) × (group : Text) × Listed c
      × (c.name ≡ some name)
      × (c.id ≡ some id)
      × (group_of id ≡ some group)
      × (path ≡ path_of group name)
      × ((now : AzureCluster) (aad : Bool) (kubeconfigs : List (Option Text))
          → IsPlain group name
          → client.get group name ≡ some now
          → now.properties ≡ some aad
          → credentials_for group name aad ≡ some kubeconfigs
          → IsFirst kubeconfigs (get_kubeconfig_for_path client path))

  module _ (Listed : AzureCluster → Type 0) where
    Retrieves : List SearchResult → Type 0
    Retrieves = All (IsAnswered Listed)

    in_group :
        (c : AzureCluster) (name id : Text) (group : Option Text) (cache : Dict AzureCluster)
        → Listed c
        → c.name ≡ some name
        → c.id ≡ some id
        → group_of id ≡ group
        → Retrieves (with_group c name group cache).0
    unfolding with_group Retrieves
    in_group c name id none cache listed named e g = tt
    in_group c name id (some group) cache listed named e g = (
      (
        c,
        id,
        name,
        group,
        listed,
        named,
        e,
        g,
        refl,
        λ now aad kubeconfigs plain given reads has.
            asked group name now aad kubeconfigs plain given reads has,
      ),
      tt,
    )

    by_id :
        (c : AzureCluster) (name : Text) (id : Option Text) (cache : Dict AzureCluster)
        → Listed c
        → c.name ≡ some name
        → c.id ≡ id
        → Retrieves (with_id c name id cache).0
    unfolding with_id Retrieves
    by_id c name none cache listed named e = tt
    by_id c name (some id) cache listed named e =
        in_group c name id (group_of id) cache listed named e refl

    by_name :
        (c : AzureCluster) (name : Option Text) (cache : Dict AzureCluster)
        → Listed c
        → c.name ≡ name
        → Retrieves (with_name c name cache).0
    unfolding with_name Retrieves
    by_name c none cache listed named = tt
    by_name c (some name) cache listed named = by_id c name c.id cache listed named refl

    clusters_found-Retrieves :
        (clusters : List AzureCluster) (cache : Dict AzureCluster)
        → ((c : AzureCluster) → Memᴰ c clusters → Listed c)
        → Retrieves (clusters_found clusters cache).0
    unfolding clusters_found Retrieves
    clusters_found-Retrieves [] cache listed = tt
    clusters_found-Retrieves (c ∷ clusters) cache listed =
        let one = with_name c c.name cache in
        All-append (IsAnswered Listed) one.0 (clusters_found clusters one.1).0
          (by_name c c.name cache (listed c (Memᴰ.head refl)) refl)
          (clusters_found-Retrieves clusters one.1 (λ x m. listed x (Memᴰ.tail m)))

    search_pages-Retrieves :
        (pages : List (List AzureCluster)) (failed : Bool) (cache : Dict AzureCluster)
        → ((page : List AzureCluster) (c : AzureCluster) → Memᴰ page pages → Memᴰ c page → Listed c)
        → Retrieves (search_pages pages failed cache).0.0
    unfolding search_pages Retrieves
    search_pages-Retrieves [] true cache listed = (tt, tt)
    search_pages-Retrieves [] false cache listed = tt
    search_pages-Retrieves (page ∷ pages) failed cache listed =
        let one = clusters_found page cache in
        All-append (IsAnswered Listed) one.0 (search_pages pages failed one.1).0.0
          (clusters_found-Retrieves page cache (λ c m. listed page c (Memᴰ.head refl) m))
          (search_pages-Retrieves pages failed one.1 (λ p c m n. listed p c (Memᴰ.tail m) n))

    search_groups-Retrieves :
        (groups : List Text) (cache : Dict AzureCluster)
        → ((group : Text) (c : AzureCluster)
            → Memᴰ group groups
            → InPages (client.of_group group) c
            → Listed c)
        → Retrieves (search_groups client groups cache).0
    unfolding search_groups Retrieves
    search_groups-Retrieves [] cache listed = tt
    search_groups-Retrieves (group ∷ groups) cache listed =
        let p = client.of_group group in
        let one = search_pages p.pages p.failed cache in
        let here =
          search_pages-Retrieves p.pages p.failed cache
            (λ page c m n. listed group c (Memᴰ.head refl) (page, m, n)) in
        let there =
          search_groups-Retrieves groups one.0.1 (λ g c m n. listed g c (Memᴰ.tail m) n) in
        elim (Bool-cases one.1) [
          | inl stopped ↦ simp stopped here
          | inr more ↦ simp more (
              All-append (IsAnswered Listed) one.0.0 (search_groups client groups one.0.1).0 here
                there)
        ]

-- Each result of the search is an error, or the path of a cluster that Azure lists, for the
-- subscription or for one of the configured resource groups: it is made of the cluster's name and the
-- resource group in its ID. If these have no two dashes in a row and none at their end, and Azure has
-- a cluster of that name in that group, with its properties, and lists the kubeconfigs of the user if
-- the cluster has an AADProfile, else of the administrator: the store gives for the path the first of
-- them that is there and not empty, and an error if there is none.
pub start_search-IsAnswered :
    (client : Client) (groups : List Text) (cache : Dict AzureCluster)
    → All (IsAnswered client (IsListed client groups)) (start_search client groups cache).0
unfolding start_search
start_search-IsAnswered client [] cache =
    unfold Retrieves in
    search_pages-Retrieves client (IsListed client []) client.of_all.pages client.of_all.failed
      cache (λ page c m n. (page, m, n))
start_search-IsAnswered client (group ∷ groups) cache =
    unfold Retrieves in
    search_groups-Retrieves client (IsListed client (group ∷ groups)) (group ∷ groups) cache
      (λ g c m n. (g, m, n))
