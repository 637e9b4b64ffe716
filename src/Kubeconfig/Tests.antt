-- ===== src/Kubeconfig/Tests.antt =====
-- Runs of the kubeconfig operations on a small document, and the theorems at it.
use kswitch.Prelude.{
  Text, text, ◌==◌, ◌≡◌, ◌≢◌, ◌⊎◌, true, refl, if◌then◌else◌, some, [], ◌∷◌, arith,
}
use kswitch.Prelude.Go.{ok, ◌>>=◌}
use kswitch.Prelude.Strings.{has_prefix, trim_prefix}
use kswitch.Kubeconfig.Node.{
  Node, node, Nodes, nil, cons, mapping, sequence, str_node, value_of, find_pair, set_pair,
  update_field, append_pair,
}
use kswitch.Kubeconfig.Node.Laws.{IsMapping}
use kswitch.Kubeconfig.Fields.{
  set_gardener_store_meta_information, get_current_context, get_kswitch_context,
}
use kswitch.Kubeconfig.Fields.Laws.{
  GardenerMeta, is_gardener_field, set_gardener_store_meta_information_reads,
}
use kswitch.Kubeconfig.Contexts.{
  contexts_node, name_node, is_named, find_named, context_node, names_of, update_named,
  update_context, without_prefix, set_context, with_namespace, set_namespace, entry_namespace,
  namespace_of_context,
}
use kswitch.Kubeconfig.Contexts.Namespace.{IsEntry, namespace_of_context-set_namespace}
use kswitch.Kubeconfig.Contexts.Rename.{set_context_alias}
use kswitch.Kubeconfig.Remove.{
  keep_contexts, field_of_entries, referenced_context_field, keep_referenced, remove_orphaned,
  remove_context,
}
use kswitch.Kubeconfig.Remove.Laws.{section_names}

abbrev pair : Text → Node → Nodes → Nodes
pair k v rest = cons (str_node k) (cons v rest)

abbrev map_node : Nodes → Node
map_node = node mapping (text "!!map") []

abbrev seq_node : Nodes → Node
seq_node = node sequence (text "!!seq") []

abbrev body : Text → Text → Node
body cluster user =
    map_node (pair (text "cluster") (str_node cluster) (pair (text "user") (str_node user) nil))

abbrev entry : Text → Text → Text → Node
entry name cluster user =
    map_node (pair (text "name") (str_node name) (pair (text "context") (body cluster user) nil))

abbrev named : Text → Node
named name = map_node (pair (text "name") (str_node name) nil)

abbrev dev : Node
dev = entry (text "dev") (text "c1") (text "u1")

abbrev prod : Node
prod = entry (text "prod") (text "c2") (text "u1")

abbrev contexts : Node
contexts = seq_node (cons dev (cons prod nil))

abbrev sample : Node
sample = map_node (
    pair (text "clusters") (seq_node (cons (named (text "c1")) (cons (named (text "c2")) nil))) (
      pair (text "contexts") contexts (
        pair (text "users") (seq_node (cons (named (text "u1")) nil))
          (pair (text "current-context") (str_node (text "dev")) nil))))

set_namespace_run :
    (set_namespace (text "prod") (text "kube-system") sample >>= namespace_of_context (text "prod"))
    ≡ ok (text "kube-system")
unfolding set_namespace namespace_of_context update_context update_named contexts_node context_node
    find_named is_named name_node with_namespace entry_namespace value_of find_pair update_field
    set_pair append_pair ◌==◌
set_namespace_run = refl

dev-IsEntry : IsEntry dev
unfolding value_of find_pair ◌==◌
dev-IsEntry = record {
  is_mapping = tt;
  field = some (body (text "c1") (text "u1"));
  reads = refl;
  is_body = tt;
}

namespace_of_context-set_namespace_example :
    (root' : Node) × (set_namespace (text "dev") (text "team") sample ≡ ok root')
    × IsMapping root'
    × ((d : Text)
        → namespace_of_context d root'
          ≡ (if text "dev" == d then ok (text "team") else namespace_of_context d sample))
unfolding context_node contexts_node find_named is_named name_node value_of find_pair ◌==◌
namespace_of_context-set_namespace_example =
    namespace_of_context-set_namespace (text "dev") (text "team") sample dev tt refl dev-IsEntry

set_gardener_store_meta_information_reads_example :
    (root' : Node) × (set_gardener_store_meta_information
        (text "live")
        (text "Shoot")
        (text "garden")
        (text "c")
        sample
      ≡ ok root')
    × IsMapping root'
    × GardenerMeta (text "live") (text "Shoot") (text "garden") (text "c") root'
    × ((key : Text) → (is_gardener_field key ≡ true) ⊎ (value_of root' key ≡ value_of sample key))
    × (get_current_context root' ≡ get_current_context sample)
    × (get_kswitch_context root' ≡ get_kswitch_context sample)
set_gardener_store_meta_information_reads_example =
    set_gardener_store_meta_information_reads (text "live") (text "Shoot") (text "garden")
      (text "c") sample tt

set_context_alias_example :
    (root' : Node) × (set_context (text "p") (text "files/prod") (text "files") sample ≡ ok root')
    × (get_current_context root' ≡ ok (text "p"))
    × ((e' : Node) × (context_node (text "p") root' ≡ ok e'))
    × ((d : Text)
        → without_prefix (text "files") (text "files/prod") ≢ d
        → text "p" ≢ d
        → context_node d root' ≡ context_node d sample)
unfolding without_prefix has_prefix trim_prefix context_node contexts_node find_named is_named
    name_node value_of find_pair ◌==◌
set_context_alias_example =
    set_context_alias (text "p") (text "files/prod") (text "files") sample prod tt
      (λ e. ground arith) refl

-- Only the cluster of the removed context goes.
remove_context_run :
    (remove_context (text "prod") sample >>= section_names (text "clusters")) ≡ ok (text "c1" ∷ [])
unfolding remove_context section_names remove_orphaned keep_contexts keep_referenced
    referenced_context_field field_of_entries contexts_node names_of name_node value_of find_pair
    update_field set_pair ◌==◌
remove_context_run = refl
