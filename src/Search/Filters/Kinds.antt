-- ===== src/Search/Filters/Kinds.antt =====
-- `filterKindDuplicates`.
use kswitch.Prelude.{
  is_empty, and_false, Text, ◌≡◌, refl, sym, ap, ◌∙◌, Bool, true, false, not, ◌&&◌, ◌||◌,
  Bool-cases, Option-cases, inl, inr, Option, none, some, List, [], ◌∷◌, keep_if, any_of, arith,
}
use kswitch.Search.{DiscoveredContext, KubeConfig}
use kswitch.Search.Filters.{
  ClusterIdentity, same_identity, is_kind, is_filesystem, cluster_identity_for_context,
  kind_identities, is_shadowed, filter_kind_duplicates,
}

-- Two identities that are known and equal, with a server.
abbrev pub is_same : Option ClusterIdentity → Option ClusterIdentity → Bool
is_same none b = false
is_same (some a) none = false
is_same (some a) (some b) = not (is_empty a.server) && same_identity a b

-- The first context is of the kind store, and points to the cluster of the second.
abbrev pub hides : (Text → Option KubeConfig) → DiscoveredContext → DiscoveredContext → Bool
hides parse k dc =
    is_kind k
    && is_same (cluster_identity_for_context parse k) (cluster_identity_for_context parse dc)

is_same-none : (a : Option ClusterIdentity) → is_same a none ≡ false
is_same-none none = refl
is_same-none (some a) = refl

keep_if-cong :
    (p q : DiscoveredContext → Bool) (xs : List DiscoveredContext)
    → ((x : DiscoveredContext) → p x ≡ q x)
    → keep_if p xs ≡ keep_if q xs
keep_if-cong p q [] h = refl
keep_if-cong p q (x ∷ xs) h = rw (h x, keep_if-cong p q xs h)

keep_if-all :
    (p : DiscoveredContext → Bool) (xs : List DiscoveredContext)
    → ((x : DiscoveredContext) → p x ≡ true)
    → keep_if p xs ≡ xs
keep_if-all p [] h = refl
keep_if-all p (x ∷ xs) h = rw (h x, keep_if-all p xs h)

empty {ℓ} : {A : Type ℓ} (xs : List A) → is_empty xs ≡ true → xs ≡ []
empty [] h = refl
empty (x ∷ xs) h = absurd (cc)

module _ (parse : Text → Option KubeConfig) where
  no_kind :
      (contexts : List DiscoveredContext)
      → any_of is_kind contexts ≡ false
      → kind_identities parse contexts ≡ []
  unfolding kind_identities
  no_kind [] h = refl
  no_kind (dc ∷ contexts) h = elim (Bool-cases (is_kind dc)) [
    | inl kind ↦ absurd (ground arith)
    | inr other ↦ rw other (no_kind contexts (ground arith))
  ]

  found :
      (id : ClusterIdentity) (contexts : List DiscoveredContext)
      → any_of (λ k. same_identity k id) (kind_identities parse contexts)
        ≡ any_of
            (λ k. is_kind k && is_same (cluster_identity_for_context parse k) (some id))
            contexts
  unfolding kind_identities
  found id [] = refl
  found id (dc ∷ contexts) =
      let later = found id contexts in
      elim (Bool-cases (is_kind dc)) [
        | inr other ↦ rw other later
        | inl kind ↦ elim (Option-cases (cluster_identity_for_context parse dc)) [
          | inl unknown ↦ rw (kind, unknown) later
          | inr (k, known) ↦ elim (Bool-cases (is_empty k.server)) [
            | inl bare ↦ rw (kind, known, bare) later
            | inr full ↦ rw (kind, known, full) (ap (λ b. same_identity k id || b) later)
          ]
        ]
      ]

  never :
      (dc : DiscoveredContext) (contexts : List DiscoveredContext)
      → cluster_identity_for_context parse dc ≡ none
      → any_of (λ k. hides parse k dc) contexts ≡ false
  never dc [] h = refl
  never dc (k ∷ contexts) h =
      let later = never dc contexts h in
      rw (h, is_same-none (cluster_identity_for_context parse k), and_false (is_kind k)) later

  is_shadowed_lem :
      (dc : DiscoveredContext) (contexts : List DiscoveredContext)
      → is_shadowed parse (kind_identities parse contexts) dc
        ≡ (is_filesystem dc && any_of (λ k. hides parse k dc) contexts)
  unfolding is_shadowed
  is_shadowed_lem dc contexts = elim (Option-cases (cluster_identity_for_context parse dc)) [
    | inl unknown ↦ rw (never dc contexts unknown, unknown)
    | inr (id, known) ↦ rw (known, found id contexts)
  ]

  nothing_shadowed :
      (contexts : List DiscoveredContext)
      → kind_identities parse contexts ≡ []
      → keep_if (λ dc. not (is_shadowed parse (kind_identities parse contexts) dc)) contexts
        ≡ contexts
  unfolding is_shadowed
  nothing_shadowed contexts h = keep_if-all _ contexts (λ dc.
      elim (Option-cases (cluster_identity_for_context parse dc)) [
        | inl unknown ↦ rw (unknown, and_false (is_filesystem dc))
        | inr (id, known) ↦ rw (known, h, and_false (is_filesystem dc))
      ])

  one_pass :
      (contexts : List DiscoveredContext)
      → filter_kind_duplicates parse contexts
        ≡ keep_if (λ dc. not (is_shadowed parse (kind_identities parse contexts) dc)) contexts
  unfolding filter_kind_duplicates
  one_pass contexts = elim (Bool-cases (any_of is_kind contexts)) [
    | inl some_kind ↦ elim (Bool-cases (is_empty (kind_identities parse contexts))) [
      | inl no_ids ↦ rw (some_kind, no_ids) (sym (nothing_shadowed contexts (empty _ no_ids)))
      | inr ids ↦ rw (some_kind, ids)
    ]
    | inr none_kind ↦ rw none_kind (sym (nothing_shadowed contexts (no_kind contexts none_kind)))
  ]

-- `filterKindDuplicates` drops just the contexts of the filesystem store for which the list has a
-- context of the kind store with the same cluster identity, its server not empty; all the others
-- stay, in their order.
pub filter_kind_duplicates_lem :
    (parse : Text → Option KubeConfig) (contexts : List DiscoveredContext)
    → filter_kind_duplicates parse contexts
      ≡ keep_if (λ dc. not (is_filesystem dc && any_of (λ k. hides parse k dc) contexts)) contexts
filter_kind_duplicates_lem parse contexts =
    one_pass parse contexts
    ∙ keep_if-cong _ _ contexts (λ dc. ap not (is_shadowed_lem parse dc contexts))
