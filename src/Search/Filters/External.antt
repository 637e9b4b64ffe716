-- ===== src/Search/Filters/External.antt =====
-- `filterPreferExternal`.
use kswitch.Prelude.{
  keep_if-append, is_empty, Text, ◌==◌, ==_iff, ==_refl, ◌≡◌, refl, sym, ap, ◌∙◌, Bool, true, false,
  not, Bool-cases, inl, inr, if◌then◌else◌, List, [], ◌∷◌, ◌++◌, keep_if, any_of, is_elem, All,
  append-nil, arith,
}
use kswitch.Search.{DiscoveredContext}
use kswitch.Search.Filters.{order, is_external, kept_of, keep_paths, filter_prefer_external}

-- The contexts of a path.
abbrev pub at_path : Text → List DiscoveredContext → List DiscoveredContext
at_path path = keep_if (λ dc. dc.path == path)

none_kept :
    (p : DiscoveredContext → Bool) (contexts : List DiscoveredContext)
    → is_empty (keep_if p contexts) ≡ not (any_of p contexts)
none_kept p [] = refl
none_kept p (dc ∷ contexts) = elim (Bool-cases (p dc)) [
  | inl kept ↦ rw kept
  | inr dropped ↦ rw dropped (none_kept p contexts)
]

-- A path is in the order once, if a context has it and it was not seen before.
once :
    (path : Text) (seen : List Text) (contexts : List DiscoveredContext)
    → keep_if (λ p. p == path) (order seen contexts) ≡ (
        if is_elem path seen
        then []
        else if any_of (λ dc. dc.path == path) contexts
        then path ∷ []
        else [])
unfolding order
once path seen [] = elim (Bool-cases (is_elem path seen)) [ inl old ↦ rw old | inr new ↦ rw new ]
once path seen (dc ∷ contexts) =
    let ih = once path seen contexts in
    let ih' = once path (dc.path ∷ seen) contexts in
    elim (Bool-cases (dc.path == path)) [
      | inl same ↦
          (let e = (==_iff dc.path path).0 same in
            elim (Bool-cases (is_elem path seen)) [
              | inl old ↦ rw (e, old) (ih ∙ rw old)
              | inr new ↦
                  rw (e, new, ==_refl path) (ap (λ t. path ∷ t) (rw (e, ==_refl path) at ih'))
            ])
      | inr other ↦ elim (Bool-cases (is_elem dc.path seen)) [
        | inl old ↦ rw (old, other) ih
        | inr new ↦ rw (new, other) (rw other at ih')
      ]
    ]

IsAt : Text → List DiscoveredContext → Type 0
IsAt path = All (λ dc. dc.path ≡ path)

at_path-IsAt : (path : Text) (contexts : List DiscoveredContext) → IsAt path (at_path path contexts)
unfolding IsAt
at_path-IsAt path [] = tt
at_path-IsAt path (dc ∷ contexts) = elim (Bool-cases (dc.path == path)) [
  | inl same ↦ rw same ((==_iff dc.path path).0 same, at_path-IsAt path contexts)
  | inr other ↦ rw other (at_path-IsAt path contexts)
]

keep_if-IsAt :
    (p : DiscoveredContext → Bool) (path : Text) (contexts : List DiscoveredContext)
    → IsAt path contexts
    → IsAt path (keep_if p contexts)
unfolding IsAt
keep_if-IsAt p path [] h = tt
keep_if-IsAt p path (dc ∷ contexts) (here, h) = elim (Bool-cases (p dc)) [
  | inl kept ↦ rw kept (here, keep_if-IsAt p path contexts h)
  | inr dropped ↦ rw dropped (keep_if-IsAt p path contexts h)
]

kept_of-IsAt :
    (path : Text) (contexts : List DiscoveredContext)
    → IsAt path contexts
    → IsAt path (kept_of contexts)
unfolding kept_of
kept_of-IsAt path contexts h = elim (Bool-cases (is_empty (keep_if is_external contexts))) [
  | inl none_ ↦ rw none_ h
  | inr some_ ↦ rw some_ (keep_if-IsAt is_external path contexts h)
]

at_path-same :
    (path : Text) (contexts : List DiscoveredContext)
    → IsAt path contexts
    → at_path path contexts ≡ contexts
unfolding IsAt
at_path-same path [] h = refl
at_path-same path (dc ∷ contexts) (here, h) =
    rw (ap (λ p. p == path) here ∙ ==_refl path, at_path-same path contexts h)

at_path-other :
    (path asked : Text) (contexts : List DiscoveredContext)
    → (path == asked) ≡ false
    → IsAt path contexts
    → at_path asked contexts ≡ []
unfolding IsAt
at_path-other path asked [] ne h = refl
at_path-other path asked (dc ∷ contexts) ne (here, h) =
    rw (ap (λ p. p == asked) here ∙ ne, at_path-other path asked contexts ne h)

at_path-keep_paths :
    (asked : Text) (contexts : List DiscoveredContext) (paths : List Text)
    → at_path asked (keep_paths contexts paths)
      ≡ keep_paths contexts (keep_if (λ p. p == asked) paths)
unfolding keep_paths
at_path-keep_paths asked contexts [] = refl
at_path-keep_paths asked contexts (path ∷ paths) =
    let group = kept_of (at_path path contexts) in
    let is_at = kept_of-IsAt path (at_path path contexts) (at_path-IsAt path contexts) in
    let later = at_path-keep_paths asked contexts paths in
    keep_if-append _ group (keep_paths contexts paths) ∙ elim (Bool-cases (path == asked)) [
      | inl same ↦
          let e = (==_iff path asked).0 same in
          rw same (
            ap (λ t. t ++ at_path asked (keep_paths contexts paths))
              (ap (λ p. at_path p group) (sym e) ∙ at_path-same path group is_at)
            ∙ ap (λ t. group ++ t) later)
      | inr other ↦ rw (other, at_path-other path asked group other is_at) later
    ]

kept_of_lem :
    (contexts : List DiscoveredContext)
    → kept_of contexts
      ≡ (if any_of is_external contexts then keep_if is_external contexts else contexts)
unfolding kept_of
kept_of_lem contexts =
    ap (λ b. if b then contexts else keep_if is_external contexts) (none_kept is_external contexts)
    ∙ flip (any_of is_external contexts)
  where
    flip :
        (b : Bool)
        → (if not b then contexts else keep_if is_external contexts)
          ≡ (if b then keep_if is_external contexts else contexts)
    flip true = refl
    flip false = refl

nobody_at :
    (path : Text) (contexts : List DiscoveredContext)
    → any_of (λ dc. dc.path == path) contexts ≡ false
    → at_path path contexts ≡ []
nobody_at path [] h = refl
nobody_at path (dc ∷ contexts) h = elim (Bool-cases (dc.path == path)) [
  | inl same ↦ absurd (ground arith)
  | inr other ↦ rw other (nobody_at path contexts (ground arith))
]

-- Of the contexts of each path, `filterPreferExternal` keeps just those whose name ends in
-- "-external", where there are any, and all of them where there is none; in their order.
pub filter_prefer_external_lem :
    (path : Text) (contexts : List DiscoveredContext)
    → at_path path (filter_prefer_external contexts) ≡ (
        if any_of is_external (at_path path contexts)
        then keep_if is_external (at_path path contexts)
        else at_path path contexts)
unfolding filter_prefer_external
filter_prefer_external_lem path contexts =
    at_path-keep_paths path contexts (order [] contexts)
    ∙ ap (keep_paths contexts) (once path [] contexts)
    ∙ elim (Bool-cases (any_of (λ dc. dc.path == path) contexts)) [
      | inl somebody ↦ rw somebody (
          unfold keep_paths in
          (append-nil (kept_of (at_path path contexts)) ∙ kept_of_lem (at_path path contexts)))
      | inr nobody ↦ rw (nobody, nobody_at path contexts nobody) (unfold keep_paths in refl)
    ]
