-- ===== src/ListContexts.antt =====
-- pkg/subcommands/list-contexts/list-contexts.go: the contexts of a search that match a pattern.
-- path.Match (`none` is an invalid pattern), regexp.Compile, sort.Slice and a store's label keys are
-- parameters.
pub mod Found
pub mod Tests
use kswitch.Prelude.{
  Text, text, ◌==◌, Bool, true, false, not, ◌&&◌, ◌||◌, if◌then◌else◌, nat_eq, is_empty, any_of,
  Option, none, some, List, [], ◌∷◌, map, keep_if,
}
use kswitch.Prelude.Split.{before_first}
use kswitch.Gardener.{format_display_name}
use kswitch.Search.{DiscoveredContext, KubeConfig, Store}
use kswitch.Search.Filters.{apply_context_filters}
use kswitch.Search.Worker.{Message, found, failed}

pub record ListEntry : Type 0 where
  pub name : Text
  pub display : Text
  pub suffix : Text

-- strings.SplitSeq(s, "/")
unfoldable pub segments : Text → List Text
segments [] = [] ∷ []
segments (c ∷ s) = let rest = segments s in if nat_eq c b'/' then [] ∷ rest else before_first c rest

is_yes : Option Bool → Bool
is_yes none = false
is_yes (some b) = b

or_segments : (Text → Option Bool) → Text → Option Bool → Option Bool
unfolding is_yes
or_segments match name none = none
or_segments match name (some matched) =
    some (matched || any_of (λ s. is_yes (match s)) (segments name))

unfoldable pub matches_pattern : (Text → Text → Option Bool) → Text → Text → Option Bool
unfolding or_segments
matches_pattern path_match pattern name =
    if pattern == text "*"
    then some true
    else or_segments (path_match pattern) name (path_match pattern name)

matches_compiled : Text → Option (Text → Bool) → Option Bool
matches_compiled name none = none
matches_compiled name (some re) = some (re name || any_of re (segments name))

unfoldable pub matches_regexp : (Text → Option (Text → Bool)) → Text → Text → Option Bool
unfolding matches_compiled
matches_regexp compile pattern name = matches_compiled name (compile pattern)

-- The name by which a context is listed.
unfoldable pub listed_name : DiscoveredContext → Text
listed_name dc = if is_empty dc.alias then dc.name else dc.alias

unfoldable pub name_candidates : DiscoveredContext → List Text
unfolding listed_name
name_candidates dc =
    listed_name dc
    ∷ (if not (is_empty dc.alias) && not (dc.alias == dc.name) then dc.name ∷ [] else [])

-- The loop over the candidates, which an error ends.
unfoldable pub matches_any : (Text → Option Bool) → List Text → Bool
matches_any matches [] = false
matches_any matches (candidate ∷ candidates) = elim (matches candidate) [
  | none ↦ false
  | some true ↦ true
  | some false ↦ matches_any matches candidates
]

-- The search's results without an error.
unfoldable pub contexts_of : List Message → List DiscoveredContext
contexts_of [] = []
contexts_of (failed ∷ messages) = contexts_of messages
contexts_of (found dc ∷ messages) = dc ∷ contexts_of messages

module _ (parse : Text → Option KubeConfig) (path_match : Text → Text → Option Bool)
    (compile : Text → Option (Text → Bool)) (sort : List ListEntry → List ListEntry)
    (label_keys : Store → List Text) where
  matches : Bool → Text → Text → Option Bool
  matches is_regexp pattern name =
      if is_regexp
      then matches_regexp compile pattern name
      else matches_pattern path_match pattern name

  list_entry : DiscoveredContext → ListEntry
  list_entry dc =
      let (display, suffix) =
        format_display_name dc.store.kind dc.path dc.name dc.alias dc.tags (label_keys dc.store) in
      record { name = listed_name dc; display = display; suffix = suffix }

  unfoldable pub list_contexts_verbose : Text → Bool → List Message → List ListEntry
  unfolding matches list_entry
  list_contexts_verbose pattern is_regexp messages = sort (
      map list_entry (
        keep_if (λ dc. matches_any (matches is_regexp pattern) (name_candidates dc))
          (apply_context_filters parse (contexts_of messages))))

  unfoldable pub list_contexts_filtered : Text → Bool → List Message → List Text
  list_contexts_filtered pattern is_regexp messages =
      map (λ entry. entry.name) (list_contexts_verbose pattern is_regexp messages)
