-- ===== src/Kubeconfig/Remove.antt =====
-- `RemoveContext` (contextmodify.go), which also drops the clusters and users that no remaining
-- context refers to.
pub mod Laws
pub mod Whole
use kswitch.Prelude.{
  Text, text, ◌==◌, Bool, true, false, if◌then◌else◌, Option, none, some, List, [], ◌∷◌, is_elem,
}
use kswitch.Prelude.Go.{Go, ok, err, panic, hang, ◌>>=◌}
use kswitch.Kubeconfig.Node.{
  Node, Nodes, nil, cons, kind, value, content, with_content, is_sequence, Error, value_of,
  update_field,
}
use kswitch.Kubeconfig.Contexts.{contexts_node, name_node}

-- The entries that the loop of `RemoveContext` keeps.
unfoldable pub keep_contexts : Text → Nodes → Go Error Nodes
keep_contexts name nil = ok nil
keep_contexts name (cons entry rest) = do
  n ← name_node entry
  kept ← keep_contexts name rest
  ok (if value n == name then kept else cons entry kept)

field_values : Option Node → List Text → List Text
field_values none later = later
field_values (some v) later = value v ∷ later

body_values : Text → Option Node → List Text → Go Error (List Text)
body_values field none later = ok later
body_values field (some body) later = value_of body field >>= λ found. ok (field_values found later)

unfoldable pub field_of_entries : Text → Nodes → Go Error (List Text)
unfolding body_values field_values
field_of_entries field nil = ok []
field_of_entries field (cons entry rest) = do
  body ← value_of entry (text "context")
  later ← field_of_entries field rest
  body_values field body later

-- A section of the document that is a sequence; any other value of the field has no entries.
abbrev pub entries : Option Node → Nodes
entries none = nil
entries (some n) = if is_sequence (kind n) then content n else nil

unfoldable pub referenced_context_field : Text → Node → Go Error (List Text)
referenced_context_field field root =
    value_of root (text "contexts") >>= λ contexts. field_of_entries field (entries contexts)

keep_named : List Text → Option Node → Node → Nodes → Nodes
keep_named referenced none entry kept = kept
keep_named referenced (some n) entry kept =
    if is_elem (value n) referenced then cons entry kept else kept

unfoldable pub keep_referenced : List Text → Nodes → Go Error Nodes
unfolding keep_named
keep_referenced referenced nil = ok nil
keep_referenced referenced (cons entry rest) = do
  name ← value_of entry (text "name")
  kept ← keep_referenced referenced rest
  ok (keep_named referenced name entry kept)

prune : Text → Text → Node → Option Node → Go Error Node
prune section field root none = ok root
prune section field root (some n) =
    if is_sequence (kind n)
    then (do
      referenced ← referenced_context_field field root
      kept ← keep_referenced referenced (content n)
      ok (update_field (with_content kept) section root))
    else ok root

-- The shape that `removeOrphanedClusters` and `removeOrphanedUsers` share.
unfoldable pub remove_orphaned : Text → Text → Node → Go Error Node
unfolding prune
remove_orphaned section field root = value_of root section >>= prune section field root

unfoldable pub remove_orphaned_clusters : Node → Go Error Node
remove_orphaned_clusters = remove_orphaned (text "clusters") (text "cluster")

unfoldable pub remove_orphaned_users : Node → Go Error Node
remove_orphaned_users = remove_orphaned (text "users") (text "user")

unfoldable pub remove_context : Text → Node → Go Error Node
unfolding remove_orphaned_clusters remove_orphaned_users
remove_context name root = do
  contexts ← contexts_node root
  kept ← keep_contexts name (content contexts)
  pruned ← remove_orphaned_clusters (update_field (with_content kept) (text "contexts") root)
  remove_orphaned_users pruned
