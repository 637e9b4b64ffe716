-- ===== src/Search/Worker.antt =====
-- pkg/search.go: what is sent for one store, from its index or from a live search, and the index that
-- the live search writes. Go ranges over the maps of the index in any order; the lists give one.
pub mod Found
pub mod Kept
pub mod Recall
pub mod Tests
use mathlib.Core.List.{reverse}
use kswitch.Prelude.{
  ℕ, Text, text, ◌==◌, Bool, true, false, not, ◌&&◌, ◌||◌, if◌then◌else◌, nat_eq, is_empty, Option,
  none, some, List, [], ◌∷◌, ◌++◌, map, keep_if,
}
use kswitch.Prelude.Dict.{Dict, read, assign}
use kswitch.Prelude.Split.{before_first}
use kswitch.Prelude.Go.{Go, ok, err, panic, hang, ◌>>=◌}
use kswitch.Search.{DiscoveredContext, KubeConfig, Store, SearchResult, path_found, search_error}
use kswitch.Alias.{Disk, write_alias, load}
use kswitch.Search.Index.{Index, get_content}

-- A DiscoveredContext with an error holds nothing else.
pub data Message : Type 0 where
  found : DiscoveredContext → Message
  failed : Message

-- strings.Split(s, ",")
unfoldable pub split_comma : Text → List Text
split_comma [] = [] ∷ []
split_comma (c ∷ s) =
    let rest = split_comma s in if nat_eq c b',' then [] ∷ rest else before_first c rest

value_or_empty : Option Text → Text
value_or_empty none = []
value_or_empty (some t) = t

-- storeAliasesFromTags, for the tag "aliases".
unfoldable pub store_aliases : Text → List Text
store_aliases [] = []
store_aliases (c ∷ raw) = keep_if (λ p. not (is_empty p)) (split_comma (c ∷ raw))

abbrev pub store_aliases_from_tags : Dict Text → List Text
store_aliases_from_tags tags =
    store_aliases (elim (read tags (text "aliases")) [ none ↦ [] | some raw ↦ raw ])

-- GetContextForAlias of pkg/subcommands/alias/util
unfoldable pub get_context_for_alias : Text → Dict Text → Text
unfolding value_or_empty
get_context_for_alias context mapping = value_or_empty (read mapping context)

or_none : List Text → List Text
or_none [] = [] ∷ []
or_none (a ∷ aliases) = a ∷ aliases

unfoldable pub display_aliases : Text → Dict Text → Dict Text → List Text
unfolding or_none
display_aliases name tags mapping =
    let persistent = get_context_for_alias name mapping in
    if is_empty persistent then or_none (store_aliases_from_tags tags) else persistent ∷ []

-- One context, once for each of its aliases.
unfoldable pub emit : Store → Dict Text → Text → Text → Dict Text → List Message
emit store mapping path name tags =
    map
      (λ alias.
        found (record { path = path; name = name; alias = alias; tags = tags; store = store }))
      (display_aliases name tags mapping)

unfoldable pub tags_or_empty : Option (Dict Text) → Dict Text
tags_or_empty none = []
tags_or_empty (some tags) = tags

unfoldable pub emit_all : Store → Dict Text → Dict (Dict Text) → Dict Text → List Message
unfolding tags_or_empty
emit_all store mapping tags [] = []
emit_all store mapping tags ((name, path) ∷ content) =
    emit store mapping path name (tags_or_empty (read tags name))
    ++ emit_all store mapping tags content

-- The goroutine that reads the index.
unfoldable pub search_index : Store → Dict Text → Option Index → List Message
search_index store mapping index =
    let (content, tags) = get_content index in emit_all store mapping tags content

-- getContextNames of pkg/util/util.go, for one name and for all.
unfoldable pub with_prefix : Text → Text → Text
with_prefix prefix name = (if is_empty prefix then [] else prefix ++ text "/") ++ name

unfoldable pub prefixed_names : Text → KubeConfig → List Text
unfolding with_prefix
prefixed_names prefix config = map (λ c. with_prefix prefix c.name) config.contexts

-- What a live search changes: the two maps that it remembers for the index, and the alias files.
-- Other goroutines write aliases too; here the disk is this goroutine's alone.
pub record Remembered : Type 0 where
  pub paths : Dict Text
  pub tags : Dict (Dict Text)
  pub aliases : Disk

unfoldable pub remember : Text → Dict Text → Remembered → Text → Remembered
remember path tags seen name = record seen {
  paths = assign seen.paths name path;
  tags = if is_empty tags then seen.tags else assign seen.tags name tags;
}

unfoldable pub remember_all : Text → Dict Text → Remembered → List Text → Remembered
remember_all path tags seen [] = seen
remember_all path tags seen (name ∷ names) =
    remember_all path tags (remember path tags seen name) names

-- An alias for each context; one that cannot be written is passed over.
unfoldable pub write_auto_aliases : Text → List Text → Option (Dict Text) → Disk → Disk
write_auto_aliases alias [] loaded disk = disk
write_auto_aliases alias (name ∷ names) loaded disk = elim (write_alias alias name loaded disk) [
  | ok (replaced, mapping, disk') ↦ write_auto_aliases alias names (some mapping) disk'
  | err e ↦ write_auto_aliases alias names loaded disk
  | panic ↦ disk
  | hang ↦ disk
]

abbrev pub label_key_cluster_name : Text
label_key_cluster_name = text "gardener.clusters.openmcp.cloud/cluster-name"

unfoldable pub emit_names : Store → Dict Text → Text → Dict Text → List Text → List Message
emit_names store mapping path tags [] = []
emit_names store mapping path tags (name ∷ names) =
    emit store mapping path name tags ++ emit_names store mapping path tags names

-- What one result of the store comes to.
pub data Outcome : Type 0 where
  names : Text → Dict Text → List Text → Outcome
  reported skipped : Outcome

unfoldable pub is_optional : Option Bool → Bool
is_optional none = false
is_optional (some required) = not required

-- `parse` and `unmarshal` are the YAML package on a kubeconfig and on the legacy alias file.
module _ (parse : Text → Option KubeConfig) (unmarshal : Text → Option (Option (Dict Text))) where
  parsed : Store → Text → Dict Text → Option KubeConfig → Outcome
  parsed store path tags none = reported
  parsed store path tags (some config) =
      names path tags (prefixed_names (store.get_context_prefix path) config)

  fetched : Store → Text → Dict Text → Option Text → Outcome
  fetched store path tags none = skipped
  fetched store path tags (some bytes) = parsed store path tags (parse bytes)

  unfoldable pub outcome : Store → SearchResult → Outcome
  unfolding fetched parsed is_optional
  outcome store search_error = if is_optional store.required then skipped else reported
  outcome store (path_found path tags) =
      fetched store path tags (store.get_kubeconfig_for_path path tags)

  send : Store → Dict Text → Outcome → List Message
  send store mapping (names path tags ns) = emit_names store mapping path tags ns
  send store mapping reported = failed ∷ []
  send store mapping skipped = []

  auto_alias : Text → List Text → Disk → Disk
  auto_alias [] found_names disk = disk
  auto_alias (c ∷ alias) found_names disk = elim (load unmarshal disk) [
    | ok (mapping, loaded) ↦ write_auto_aliases (c ∷ alias) found_names mapping loaded
    | err e ↦ disk
    | panic ↦ disk
    | hang ↦ disk
  ]

  keep : Remembered → Outcome → Remembered
  keep seen (names path tags ns) =
      remember_all path tags
        (record seen {
          aliases = auto_alias (value_or_empty (read tags label_key_cluster_name)) ns seen.aliases;
        })
        ns
  keep seen reported = seen
  keep seen skipped = seen

  -- The goroutine of a live search: its messages, and what it remembers.
  unfoldable pub search_live :
      Store → Dict Text → Remembered → List SearchResult → List Message × Remembered
  unfolding send keep auto_alias value_or_empty
  search_live store mapping seen [] = ([], seen)
  search_live store mapping seen (result ∷ results) =
      let (later, all) = search_live store mapping (keep seen (outcome store result)) results in
      (send store mapping (outcome store result) ++ later, all)

unfoldable pub nothing_remembered : Disk → Remembered
nothing_remembered disk = record { paths = []; tags = []; aliases = disk }

-- The index that is written at the end, if a context was found.
unfoldable pub index_of : Store → Remembered → Index
index_of store seen = record {
  kind = store.kind;
  context_to_path_mapping = seen.paths;
  context_to_tags = seen.tags;
}
