-- ===== src/ListContexts/Found.antt =====
-- Every name that is listed is one that a context can be switched to by.
use mathlib.Core.Bool.{Bool-set}
use mathlib.Core.Logic.Or
use mathlib.Core.List.{Perm, Mem, mem-cons, not-mem-nil}
use mathlib.Core.List.Perm
use kswitch.Prelude.{
  Text, ◌==◌, ==_refl, ◌≡◌, refl, ap, ◌∙◌, Bool, true, false, Bool-cases, inl, inr, is_empty,
  any_of, Option, List, [], ◌∷◌, map, keep_if, All, All-append, arith,
}
use kswitch.Prelude.Go.{Go, ok, err, panic, hang}
use kswitch.Search.{DiscoveredContext, KubeConfig, Store}
use kswitch.Search.Filters.{
  is_kind, is_external, kept_of, keep_paths, kind_identities, filter_kind_duplicates,
  filter_prefer_external, apply_context_filters,
}
use kswitch.Search.Worker.{Message, found, failed}
use kswitch.SetContext.{is_meant, find_context}
use kswitch.ListContexts.{
  ListEntry, listed_name, name_candidates, matches_any, contexts_of, matches, list_entry,
  list_contexts_verbose, list_contexts_filtered,
}

module _ {ℓ} {A : Type 0} (P : A → Type ℓ) where
  All-keep_if : (p : A → Bool) (xs : List A) → All P xs → All P (keep_if p xs)
  All-keep_if p [] h = h
  All-keep_if p (x ∷ xs) (here, later) = elim (Bool-cases (p x)) [
    | inl kept ↦ rw kept (here, All-keep_if p xs later)
    | inr dropped ↦ rw dropped (All-keep_if p xs later)
  ]

module _ (P : DiscoveredContext → Type 0) where
  All-kept_of : (xs : List DiscoveredContext) → All P xs → All P (kept_of xs)
  unfolding kept_of
  All-kept_of xs h = elim (Bool-cases (is_empty (keep_if is_external xs))) [
    | inl none_ ↦ rw none_ h
    | inr some_ ↦ rw some_ (All-keep_if P is_external xs h)
  ]

  All-keep_paths :
      (xs : List DiscoveredContext) (paths : List Text) → All P xs → All P (keep_paths xs paths)
  unfolding keep_paths
  All-keep_paths xs [] h = tt
  All-keep_paths xs (path ∷ paths) h =
      All-append P _ _ (All-kept_of _ (All-keep_if P (λ dc. dc.path == path) xs h))
        (All-keep_paths xs paths h)

  -- The filters only drop.
  All-apply_context_filters :
      (parse : Text → Option KubeConfig) (xs : List DiscoveredContext)
      → All P xs
      → All P (apply_context_filters parse xs)
  unfolding apply_context_filters filter_prefer_external filter_kind_duplicates
  All-apply_context_filters parse xs h = All-keep_paths _ _ (elim (Bool-cases (any_of is_kind xs)) [
    | inl kinds ↦ elim (Bool-cases (is_empty (kind_identities parse xs))) [
      | inl nothing ↦ rw (kinds, nothing) h
      | inr some_ ↦ rw (kinds, some_) (All-keep_if P _ xs h)
    ]
    | inr no_kinds ↦ rw no_kinds h
  ])

-- A property of the whole list holds of each of its elements, where each has it by itself.
All-any_of :
    {A : Type 0} (p : A → A → Bool) (all xs : List A)
    → ((x : A) → p x x ≡ true)
    → ((q : A → Bool) → any_of q xs ≡ true → any_of q all ≡ true)
    → All (λ x. any_of (p x) all ≡ true) xs
All-any_of p all [] r f = tt
All-any_of p all (x ∷ xs) r f = (
  f (p x) (rw (r x)),
  All-any_of p all xs r (λ q h. f q (elim (Bool-cases (q x)) [ inl e ↦ rw e | inr e ↦ rw e h ])),
)

-- Each context is meant by its listed name.
is_meant-listed_name : (dc : DiscoveredContext) → is_meant (listed_name dc) dc ≡ true
unfolding is_meant listed_name
is_meant-listed_name dc = elim (Bool-cases (is_empty dc.alias)) [
  | inl plain ↦ simp (plain, ==_refl dc.name) (refl)
  | inr alias ↦ simp (alias, ==_refl dc.alias) (ground arith)
]

abbrev pub is_ok {ℓ κ} : {E : Type ℓ} {A : Type κ} → Go E A → Bool
is_ok (ok a) = true
is_ok (err e) = false
is_ok panic = false
is_ok hang = false

find_context-finds :
    (desired : Text) (errors : Bool) (messages : List Message)
    → any_of (is_meant desired) (contexts_of messages) ≡ true
    → is_ok (find_context desired errors messages) ≡ true
unfolding find_context contexts_of
find_context-finds desired errors [] h = absurd (cc)
find_context-finds desired errors (failed ∷ messages) h = find_context-finds desired true messages h
find_context-finds desired errors (found dc ∷ messages) h =
    elim (Bool-cases (is_meant desired dc)) [
      | inl meant ↦ rw meant
      | inr other ↦ rw other (find_context-finds desired errors messages (rw other at h))
    ]

All-map {κ} :
    {A B : Type 0} (f : A → B) (P : A → Type κ) (Q : B → Type κ) (xs : List A)
    → ((x : A) → P x → Q (f x))
    → All P xs
    → All Q (map f xs)
All-map f P Q [] g h = tt
All-map f P Q (x ∷ xs) g (here, h) = (g x here, All-map f P Q xs g h)

All-Mem :
    {A : Type 0} (q : A → Bool) (a : A) (xs : List A)
    → All (λ x. q x ≡ true) xs
    → Mem a xs
    → q a ≡ true
All-Mem q a [] h m = absurd (not-mem-nil m)
All-Mem q a (x ∷ xs) (here, h) m =
    Or.elim (Bool-set (q a) true) (mem-cons.0 m) (λ e. ap q e ∙ here) (All-Mem q a xs h)

-- Let the sorting keep the elements of a list. For every pattern, wildcard or regular expression, and
-- every result of a search: each name that is listed is the name of a context which the command that
-- sets a context finds among the same results, whatever errors the search had.
pub find_context-list_contexts_filtered :
    (parse : Text → Option KubeConfig) (path_match : Text → Text → Option Bool)
    (compile : Text → Option (Text → Bool)) (sort : List ListEntry → List ListEntry)
    (label_keys : Store → List Text)
    → ((entries : List ListEntry) → Perm (sort entries) entries)
    → (pattern : Text) (is_regexp : Bool) (messages : List Message) (name : Text)
    → Mem name
        (list_contexts_filtered parse path_match compile sort label_keys pattern is_regexp messages)
    → is_ok (find_context name false messages) ≡ true
unfolding list_contexts_filtered list_contexts_verbose list_entry
find_context-list_contexts_filtered parse path_match compile sort label_keys sorts pattern is_regexp
      messages name m =
    let entry = list_entry parse path_match compile sort label_keys in
    let all = contexts_of messages in
    let kept =
      keep_if
        (λ dc.
          matches_any (matches parse path_match compile sort label_keys is_regexp pattern)
            (name_candidates dc))
        (apply_context_filters parse all) in
    let q = λ (n : Text). any_of (is_meant n) all in
    let meant : All (λ dc. q (listed_name dc) ≡ true) all =
      All-any_of (λ dc. is_meant (listed_name dc)) all all is_meant-listed_name (λ p h. h) in
    let kept_meant : All (λ dc. q (listed_name dc) ≡ true) kept =
      All-keep_if (λ dc. q (listed_name dc) ≡ true) _ _
        (All-apply_context_filters (λ dc. q (listed_name dc) ≡ true) parse all meant) in
    find_context-finds name false messages (
      All-Mem q name _
        (All-map (λ (e : ListEntry). e.name) (λ e. q e.name ≡ true) (λ n. q n ≡ true) _ (λ e h. h)
          (All-map entry (λ dc. q (listed_name dc) ≡ true) (λ e. q e.name ≡ true) kept (λ dc h. h)
            kept_meant))
        ((Perm.mem_iff (Perm.map (λ (e : ListEntry). e.name) (sorts (map entry kept)))).0 m))
