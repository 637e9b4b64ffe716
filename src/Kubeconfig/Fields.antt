-- ===== src/Kubeconfig/Fields.antt =====
-- The top-level fields of a kubeconfig: the `Modify…` methods of contextmodify.go with their callers
-- in kubeconfig.go, and the getters of contexts.go.
pub mod Laws
use kswitch.Prelude.{Text, text, Bool, true, false, Option, none, some, [], ◌==◌, if◌then◌else◌}
use kswitch.Prelude.Go.{Go, ok, err, panic, hang, ◌>>=◌, ◌>>◌}
use kswitch.Kubeconfig.Node.{
  Node, value, with_value, str_node, Error, value_of, update_field, append_pair,
}

-- The shape that the six `Modify…` methods share: the value of an existing field is overwritten in
-- place, else the field is appended.
write_found : Text → Text → Node → Option Node → Go Error Node
write_found key v root (some n) = ok (update_field (with_value v) key root)
write_found key v root none = ok (append_pair key (str_node v) root)

unfoldable pub modify_field : Text → Text → Node → Go Error Node
unfolding write_found
modify_field key v root = value_of root key >>= write_found key v root

unfoldable pub modify_kswitch_context : Text → Node → Go Error Node
modify_kswitch_context = modify_field (text "kswitch-context")

unfoldable pub modify_gardener_landscape_identity : Text → Node → Go Error Node
modify_gardener_landscape_identity = modify_field (text "gardener-landscape-identity")

unfoldable pub modify_gardener_project : Text → Node → Go Error Node
modify_gardener_project = modify_field (text "gardener-project")

unfoldable pub modify_gardener_cluster_name : Text → Node → Go Error Node
modify_gardener_cluster_name = modify_field (text "gardener-cluster-name")

unfoldable pub modify_gardener_cluster_type : Text → Node → Go Error Node
modify_gardener_cluster_type = modify_field (text "gardener-cluster-type")

unfoldable pub modify_current_context : Text → Node → Go Error Node
modify_current_context = modify_field (text "current-context")

unfoldable pub set_kswitch_context : Text → Node → Go Error Node
set_kswitch_context = modify_kswitch_context

unfoldable pub set_gardener_store_meta_information :
    Text → Text → Text → Text → Node → Go Error Node
unfolding modify_gardener_landscape_identity modify_gardener_cluster_type modify_gardener_project
    modify_gardener_cluster_name
set_gardener_store_meta_information landscape_identity cluster_type project name root = do
  root1 ← modify_gardener_landscape_identity landscape_identity root
  root2 ← modify_gardener_cluster_type cluster_type root1
  root3 ← modify_gardener_project project root2
  modify_gardener_cluster_name name root3

value_or_empty : Option Node → Text
value_or_empty none = []
value_or_empty (some n) = value n

-- The shape that the getters share.
unfoldable pub get_field : Text → Node → Go Error Text
unfolding value_or_empty
get_field key root = value_of root key >>= λ o. ok (value_or_empty o)

unfoldable pub get_current_context : Node → Go Error Text
get_current_context = get_field (text "current-context")

unfoldable pub get_kswitch_context : Node → Go Error Text
get_kswitch_context = get_field (text "kswitch-context")

is_found : Option Node → Bool
is_found none = false
is_found (some n) = true

unfoldable pub has_field : Text → Node → Go Error Bool
unfolding is_found
has_field key root = value_of root key >>= λ o. ok (is_found o)

unfoldable pub is_gardener_kubeconfig : Node → Go Error Bool
is_gardener_kubeconfig = has_field (text "gardener-landscape-identity")

unfoldable pub get_gardener_landscape_identity : Node → Go Error Text
get_gardener_landscape_identity = get_field (text "gardener-landscape-identity")

unfoldable pub get_gardener_project : Node → Go Error Text
get_gardener_project = get_field (text "gardener-project")

unfoldable pub get_gardener_cluster_name : Node → Go Error Text
get_gardener_cluster_name = get_field (text "gardener-cluster-name")

unfoldable pub get_gardener_cluster_type : Node → Go Error Text
get_gardener_cluster_type = get_field (text "gardener-cluster-type")
