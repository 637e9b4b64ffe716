-- ===== src/Namespaces/Tests.antt =====
-- A context with a remembered namespace that is gone and one that is left.
use mathlib.Core.List.{reverse}
use kswitch.Prelude.{Text, text, ◌==◌, ◌≡◌, refl, false, if◌then◌else◌, Option, some, List, [], ◌∷◌}
use kswitch.Prelude.Dict.{read}
use kswitch.Prelude.Go.{ok}
use kswitch.Kubeconfig.Node.{
  Node, node, Nodes, nil, cons, mapping, sequence, str_node, value_of, find_pair,
}
use kswitch.Kubeconfig.Fields.{get_field, get_current_context}
use kswitch.Kubeconfig.Contexts.{
  context_node, contexts_node, find_named, is_named, name_node, namespace_of_context, or_default,
}
use kswitch.Kubeconfig.Contexts.Namespace.{IsEntry}
use kswitch.History.{append_to_history, read_history, lines_of, drop_cr}
use kswitch.Namespaces.{
  write_lines, State, file_name, load_from_file, cached_namespaces, reconcile,
  refresh_namespaces_from_cluster, switch_namespace,
}
use kswitch.Namespaces.Listing.{load_from_file-write_lines}
use kswitch.Namespaces.Switching.{switch_namespace_lem}

abbrev pair : Text → Node → Nodes → Nodes
pair key v rest = cons (str_node key) (cons v rest)

abbrev map_of : Nodes → Node
map_of pairs = node mapping (text "!!map") [] pairs

abbrev body : Node
body = map_of (pair (text "cluster") (str_node (text "d")) nil)

abbrev entry : Node
entry = map_of (pair (text "name") (str_node (text "c")) (pair (text "context") body nil))

abbrev root : Node
root = map_of (
    pair (text "current-context") (str_node (text "c"))
      (pair (text "contexts") (node sequence (text "!!seq") [] (cons entry nil)) nil))

abbrev state : State
state = record { kubeconfig = root; history = []; files = (text "vc", text "web\ngone\n") ∷ [] }

abbrev cluster : Option (List Text)
cluster = some (text "db" ∷ text "web" ∷ [])

-- A set's list that is sorted already.
abbrev set_list : List Text → List Text
set_list xs = xs

offered :
    refresh_namespaces_from_cluster set_list cluster
      (cached_namespaces (text "v/c") false state.files)
    ≡ text "web" ∷ text "db" ∷ []
unfolding refresh_namespaces_from_cluster reconcile cached_namespaces load_from_file read_history
    lines_of drop_cr read file_name ◌==◌
offered = refl

entry-IsEntry : IsEntry entry
unfolding value_of find_pair ◌==◌
entry-IsEntry = record { is_mapping = tt; field = some body; reads = refl; is_body = tt }

switch_namespace_lem_example :
    (s' : State) × (switch_namespace set_list (text "v/c") false cluster 1 state ≡ ok s')
    × ((d : Text)
        → namespace_of_context d s'.kubeconfig
          ≡ (if text "c" == d then ok (or_default (text "db")) else namespace_of_context d root))
    × (s'.history ≡ append_to_history (text "v/c") (text "db") [])
    × (cached_namespaces (text "v/c") false s'.files
        ≡ reverse (
            refresh_namespaces_from_cluster set_list cluster
              (cached_namespaces (text "v/c") false state.files)))
unfolding refresh_namespaces_from_cluster reconcile cached_namespaces load_from_file read_history
    lines_of drop_cr read file_name ◌==◌ get_current_context get_field context_node contexts_node
    find_named is_named name_node value_of find_pair
switch_namespace_lem_example =
    switch_namespace_lem set_list b'v' (text "/c") cluster 1 state (text "db") b'c' [] entry refl
      ((refl, (refl, (refl, tt))), ((refl, (refl, tt)), tt)) tt refl refl entry-IsEntry

load_from_file-write_lines_example :
    load_from_file (some (write_lines (text "a" ∷ text "b" ∷ []))) ≡ text "b" ∷ text "a" ∷ []
load_from_file-write_lines_example =
    load_from_file-write_lines (text "a" ∷ text "b" ∷ []) ((refl, tt), ((refl, tt), tt))
