-- ===== src/SetContext/Tests.antt =====
-- A context that a store found under the prefix `v`, after an error and another context.
use kswitch.Prelude.{Text, text, ◌==◌, ◌≡◌, refl, true, false, Option, none, some, List, [], ◌∷◌}
use kswitch.Prelude.Strings.{has_prefix, strip_prefix, trim_prefix}
use kswitch.Prelude.Go.{ok}
use kswitch.Kubeconfig.Node.{
  Node, node, Nodes, nil, cons, document, mapping, sequence, str_node, value_of, find_pair,
}
use kswitch.Kubeconfig.Open.{new_kubeconfig}
use kswitch.Kubeconfig.Contexts.{
  without_prefix, namespace_of_context, context_node, contexts_node, find_named, is_named,
  name_node, entry_namespace,
}
use kswitch.History.{append_to_history}
use kswitch.Search.{DiscoveredContext, Store}
use kswitch.Search.Worker.{Message, found, failed, with_prefix}
use kswitch.SetContext.{Switched, is_meant, context_without_prefix, find_context, set_context}
use kswitch.SetContext.Prefix.{IsSwitched, set_context-IsSwitched}

abbrev pub pair : Text → Node → Nodes → Nodes
pair key v rest = cons (str_node key) (cons v rest)

abbrev pub map_of : Nodes → Node
map_of pairs = node mapping (text "!!map") [] pairs

abbrev pub entry : Node
entry = map_of (
    pair (text "name") (str_node (text "c"))
      (pair (text "context") (map_of (pair (text "namespace") (str_node (text "web")) nil)) nil))

abbrev pub root : Node
root = map_of (pair (text "contexts") (node sequence (text "!!seq") [] (cons entry nil)) nil)

abbrev pub unmarshal : Text → Option Node
unmarshal t = some (node document [] [] (cons root nil))

abbrev pub store : Store
store = record {
  id = text "vault.default";
  kind = text "vault";
  verifies = true;
  required = none;
  refresh_index_after = none;
  get_context_prefix = λ path. text "v";
  get_kubeconfig_for_path = λ path tags. some (text "bytes");
  search = [];
}

abbrev pub context : Text → DiscoveredContext
context name = record { path = text "p"; name = name; alias = []; tags = []; store = store }

abbrev messages : List Message
messages = failed ∷ found (context (text "v/b")) ∷ found (context (text "v/c")) ∷ []

is_first : find_context (text "v/c") false messages ≡ ok (context (text "v/c"))
unfolding find_context is_meant context_without_prefix without_prefix has_prefix strip_prefix
    trim_prefix ◌==◌
is_first = refl

prefixed : text "v/c" ≡ with_prefix (text "v") (text "c")
unfolding with_prefix
prefixed = refl

pub opens : new_kubeconfig unmarshal (text "bytes") ≡ ok root
unfolding new_kubeconfig
opens = refl

in_web : namespace_of_context (text "c") root ≡ ok (text "web")
unfolding namespace_of_context context_node contexts_node find_named is_named name_node
    entry_namespace value_of find_pair ◌==◌
in_web = refl

set_context-IsSwitched_example :
    (s : Switched) × (set_context unmarshal (text "v/c") true [] messages ≡ ok s)
    × IsSwitched (text "v/c") (text "c") root s.kubeconfig
    × (s.history ≡ append_to_history (text "v/c") (text "web") [])
set_context-IsSwitched_example =
    set_context-IsSwitched unmarshal (text "v/c") true [] messages (context (text "v/c")) (text "c")
      (text "bytes") (text "web") root is_first prefixed refl refl opens tt in_web
