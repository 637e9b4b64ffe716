-- ===== src/CloudStores/Gke/Cached.antt =====
-- The cache of a GKE store after a search holds the clusters that were sent.
use kswitch.Prelude.{
  Text, ◌==◌, ==_refl, ==_iff, ◌≡◌, refl, sym, ◌∙◌, inl, inr, Bool-cases, All, All-append, Option,
  none, some, List, [], ◌∷◌,
}
use mathlib.Core.List.{Memᴰ}
use kswitch.Prelude.Dict.{Dict, read, read-assign, assign}
use kswitch.Search.{SearchResult, path_found, search_error}
use kswitch.CloudStores.Gke.{
  GkeCluster, Client, path_of, clusters_found, of_project, search_projects,
}

module _ (client : Client) (projects : Dict Text) where
  -- A cluster of a project that the API lists.
  abbrev pub IsListed : Text → Text → GkeCluster → Type 0
  IsListed project id c =
      (clusters : List GkeCluster) × Memᴰ (project, id) projects
      × (client.list id ≡ some clusters)
      × Memᴰ c clusters

  -- The cache has such a cluster for its path.
  abbrev pub Held : Dict GkeCluster → Text → Type 0
  Held cache path =
      (project : Text) × (id : Text) × (c : GkeCluster) × IsListed project id c
      × (path ≡ path_of project c)
      × (read cache path ≡ some c)

  abbrev pub HeldResult : Dict GkeCluster → SearchResult → Type 0
  HeldResult cache (path_found path tags) = Held cache path
  HeldResult cache search_error = Unit

  abbrev pub Keeps : Dict GkeCluster → Dict GkeCluster → Type 0
  Keeps cache cache' = (path : Text) → Held cache path → Held cache' path

  kept-results :
      (cache cache' : Dict GkeCluster) (results : List SearchResult)
      → Keeps cache cache'
      → All (HeldResult cache) results
      → All (HeldResult cache') results
  kept-results cache cache' [] keeps h = tt
  kept-results cache cache' (path_found path tags ∷ results) keeps (here, h) =
      (keeps path here, kept-results cache cache' results keeps h)
  kept-results cache cache' (search_error ∷ results) keeps (here, h) =
      (tt, kept-results cache cache' results keeps h)

  assign-Keeps :
      (project id : Text) (c : GkeCluster) (cache : Dict GkeCluster)
      → IsListed project id c
      → Keeps cache (assign cache (path_of project c) c)
        × Held (assign cache (path_of project c) c) (path_of project c)
  assign-Keeps project id c cache listed = (
    λ path held. elim (Bool-cases (path_of project c == path)) [
      | inl same ↦ (
        project,
        id,
        c,
        listed,
        sym ((==_iff (path_of project c) path).0 same),
        read-assign cache (path_of project c) path c ∙ rw same,
      )
      | inr differs ↦ (
        held.0,
        held.1,
        held.2,
        held.3,
        held.4,
        read-assign cache (path_of project c) path c ∙ rw differs held.5,
      )
    ],
    (
      project,
      id,
      c,
      listed,
      refl,
      read-assign cache (path_of project c) (path_of project c) c
          ∙ rw (==_refl (path_of project c)),
    ),
  )

  clusters_found-Keeps :
      (project id : Text) (clusters : List GkeCluster) (cache : Dict GkeCluster)
      → ((c : GkeCluster) → Memᴰ c clusters → IsListed project id c)
      → Keeps cache (clusters_found project clusters cache).1
        × All
            (HeldResult (clusters_found project clusters cache).1)
            (clusters_found project clusters cache).0
  unfolding clusters_found
  clusters_found-Keeps project id [] cache listed = (λ path h. h, tt)
  clusters_found-Keeps project id (c ∷ clusters) cache listed =
      let (keeps, held) = assign-Keeps project id c cache (listed c (Memᴰ.head refl)) in
      let (keeps', others) =
        clusters_found-Keeps project id clusters (assign cache (path_of project c) c)
          (λ x m. listed x (Memᴰ.tail m)) in
      (λ path h. keeps' path (keeps path h), (keeps' (path_of project c) held, others))

  of_project-Keeps :
      (project id : Text) (answer : Option (List GkeCluster)) (cache : Dict GkeCluster)
      → Memᴰ (project, id) projects
      → client.list id ≡ answer
      → Keeps cache (of_project project answer cache).1
        × All (HeldResult (of_project project answer cache).1) (of_project project answer cache).0
  unfolding of_project
  of_project-Keeps project id none cache member answers = (λ path h. h, (tt, tt))
  of_project-Keeps project id (some clusters) cache member answers =
      clusters_found-Keeps project id clusters cache (λ c m. (clusters, member, answers, m))

  pub search_projects-Keeps :
      (todo : Dict Text) (cache : Dict GkeCluster)
      → ((entry : Text × Text) → Memᴰ entry todo → Memᴰ entry projects)
      → Keeps cache (search_projects client todo cache).1
        × All
            (HeldResult (search_projects client todo cache).1)
            (search_projects client todo cache).0
  unfolding search_projects
  search_projects-Keeps [] cache among = (λ path h. h, tt)
  search_projects-Keeps ((project, id) ∷ todo) cache among =
      let one = of_project project (client.list id) cache in
      let (keeps, here) =
        of_project-Keeps project id (client.list id) cache (among (project, id) (Memᴰ.head refl))
          refl in
      let (keeps', others) = search_projects-Keeps todo one.1 (λ x m. among x (Memᴰ.tail m)) in
      (
        λ path h. keeps' path (keeps path h),
        All-append (HeldResult (search_projects client todo one.1).1) one.0
            (search_projects client todo one.1).0
            (kept-results one.1 (search_projects client todo one.1).1 one.0 keeps' here) others,
      )
