-- ===== src/Merge/Tests.antt =====
-- A run of the merge on two small documents, and the theorem at them.
use kswitch.Prelude.{Text, text, ◌==◌, ◌≡◌, refl, none, some, []}
use kswitch.Prelude.Go.{ok, ◌>>=◌}
use kswitch.Kubeconfig.Node.{
  Node, node, Nodes, nil, cons, mapping, sequence, str_node, value_of, find_pair, set_pair,
  update_field,
}
use kswitch.Merge.{
  merge_roots, merge_section, merge_entries, upsert_entry, set_scalar, scalar_value,
}
use kswitch.Merge.Laws.{find_entry}
use kswitch.Merge.Sections.{entry_in}
use kswitch.Merge.Whole.{IsKubeconfig, IsMerge, merge_roots-IsMerge}

abbrev pair : Text → Node → Nodes → Nodes
pair k v rest = cons (str_node k) (cons v rest)

abbrev named : Text → Text → Node
named name server =
    node mapping [] []
      (pair (text "name") (str_node name) (pair (text "server") (str_node server) nil))

abbrev clusters : Nodes → Node
clusters c = node sequence (text "!!seq") [] c

abbrev config : Nodes → Text → Node
config c current =
    node mapping [] []
      (pair (text "clusters") (clusters c) (pair (text "current-context") (str_node current) nil))

abbrev dst : Node
dst =
    config (cons (named (text "a") (text "old")) (cons (named (text "b") (text "keep")) nil))
      (text "a")

abbrev src : Node
src =
    config (cons (named (text "a") (text "new")) (cons (named (text "c") (text "add")) nil))
      (text "c")

dst-IsKubeconfig : IsKubeconfig dst
unfolding value_of find_pair ◌==◌
dst-IsKubeconfig = record {
  is_mapping = tt;
  clusters = record {
    field = some (
        clusters
          (cons (named (text "a") (text "old")) (cons (named (text "b") (text "keep")) nil)));
    reads = refl;
    is_section =
        (refl, ((some (str_node (text "a")), refl), ((some (str_node (text "b")), refl), tt)));
  };
  contexts = record { field = none; reads = refl; is_section = tt };
  users = record { field = none; reads = refl; is_section = tt };
}

src-IsKubeconfig : IsKubeconfig src
unfolding value_of find_pair ◌==◌
src-IsKubeconfig = record {
  is_mapping = tt;
  clusters = record {
    field = some (
        clusters (cons (named (text "a") (text "new")) (cons (named (text "c") (text "add")) nil)));
    reads = refl;
    is_section =
        (refl, ((some (str_node (text "a")), refl), ((some (str_node (text "c")), refl), tt)));
  };
  contexts = record { field = none; reads = refl; is_section = tt };
  users = record { field = none; reads = refl; is_section = tt };
}

merge_roots-IsMerge_example :
    (merged : Node) × (merge_roots dst src ≡ ok merged) × IsMerge dst src src-IsKubeconfig merged
merge_roots-IsMerge_example = merge_roots-IsMerge dst src dst-IsKubeconfig src-IsKubeconfig

replaced_entry :
    (merge_roots dst src >>= entry_in (text "clusters") (text "a"))
    ≡ ok (some (named (text "a") (text "new")))
unfolding merge_roots merge_section merge_entries upsert_entry set_scalar scalar_value value_of
    find_pair set_pair update_field entry_in find_entry ◌==◌
replaced_entry = refl
