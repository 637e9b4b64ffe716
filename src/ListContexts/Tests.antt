-- ===== src/ListContexts/Tests.antt =====
-- A search that found a context under an alias and one without.
use mathlib.Core.List.{Mem, mem-cons_self, reverse, reverse_perm}
use mathlib.Core.Path.{subst}
use kswitch.Prelude.{
  Text, text, ◌==◌, ◌≡◌, refl, sym, Bool, true, false, Option, none, some, List, [], ◌∷◌,
}
use kswitch.Prelude.Strings.{has_suffix}
use kswitch.Search.{DiscoveredContext, KubeConfig, Store}
use kswitch.Search.Filters.{
  apply_context_filters, filter_kind_duplicates, filter_prefer_external, order, kept_of, keep_paths,
}
use kswitch.Search.Worker.{Message, found, failed}
use kswitch.SetContext.{find_context}
use kswitch.ListContexts.{
  segments, matches_pattern, listed_name, name_candidates, matches_any, contexts_of,
  list_contexts_verbose, list_contexts_filtered,
}
use kswitch.ListContexts.Found.{is_ok, find_context-list_contexts_filtered}

abbrev parse : Text → Option KubeConfig
parse t = none

abbrev store : Store
store = record {
  id = text "vault.default";
  kind = text "vault";
  verifies = true;
  required = none;
  refresh_index_after = none;
  get_context_prefix = λ path. [];
  get_kubeconfig_for_path = λ path tags. none;
  search = [];
}

abbrev context : Text → Text → DiscoveredContext
context name alias = record { path = name; name = name; alias = alias; tags = []; store = store }

abbrev messages : List Message
messages =
    found (context (text "a/prod") [])
    ∷ failed
    ∷ found (context (text "b/prod") (text "live"))
    ∷ found (context (text "c") [])
    ∷ []

-- Patterns without wildcards.
abbrev equal : Text → Text → Option Bool
equal pattern name = some (pattern == name)

abbrev compile : Text → Option (Text → Bool)
compile pattern = some (λ name. pattern == name)

abbrev label_keys : Store → List Text
label_keys s = []

listed :
    list_contexts_filtered parse equal compile reverse label_keys (text "prod") false messages
    ≡ text "live" ∷ text "a/prod" ∷ []
unfolding list_contexts_filtered list_contexts_verbose matches_any name_candidates listed_name
    matches_pattern segments contexts_of apply_context_filters filter_kind_duplicates
    filter_prefer_external order kept_of keep_paths has_suffix ◌==◌
listed = refl

find_context-list_contexts_filtered_example :
    is_ok (find_context (text "live") false messages) ≡ true
find_context-list_contexts_filtered_example =
    find_context-list_contexts_filtered parse equal compile reverse label_keys reverse_perm
      (text "prod") false messages (text "live")
      (subst (Mem (text "live")) (sym listed) mem-cons_self)
