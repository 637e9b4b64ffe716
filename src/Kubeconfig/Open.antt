-- ===== src/Kubeconfig/Open.antt =====
-- `New` of pkg/util/kubectx_copied/kubeconfig.go: the root of a kubeconfig. `unmarshal` is
-- yaml.Unmarshal into a node.
use kswitch.Prelude.{Text, if◌then◌else◌, Option, none, some}
use kswitch.Prelude.Go.{Go, ok, err}
use kswitch.Kubeconfig.Node.{
  Node, node, nil, cons, kind, is_mapping, Error, empty_document, unexpected_format, not_yaml,
}

root_of : Option Node → Go Error Node
root_of none = err not_yaml
root_of (some (node k t v nil)) = err empty_document
root_of (some (node k t v (cons root rest))) =
    if is_mapping (kind root) then ok root else err unexpected_format

unfoldable pub new_kubeconfig : (Text → Option Node) → Text → Go Error Node
unfolding root_of
new_kubeconfig unmarshal bytes = root_of (unmarshal bytes)
