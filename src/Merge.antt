-- ===== src/Merge.antt =====
-- pkg/subcommands/merge-to-default/merge.go: one kubeconfig is merged into another, section by
-- section. YAML text is read and written by gopkg.in/yaml.v3, which is a parameter here.
pub mod Laws
pub mod Sections
pub mod Whole
mod Tests
use kswitch.Prelude.{
  Text, text, ◌==◌, Bool, true, false, if◌then◌else◌, Option, none, some, List, [], ◌∷◌,
}
use kswitch.Prelude.Go.{Go, ok, err, panic, hang, ◌>>=◌}
use kswitch.Kubeconfig.Node.{
  Node, node, Nodes, nil, cons, sequence, kind, value, content, with_value, with_content, str_node,
  is_sequence, Error, invalid_dst, invalid_src, not_yaml, find_pair, value_of, update_field,
  append_pair,
}

unfoldable pub node_value : Node → Text → Go Error (Option Node)
node_value = value_of

-- Is this the value of the field "name" of an entry that the loop looks for?
abbrev pub holds : Text → Option Node → Bool
holds name none = false
holds name (some n) = value n == name

-- The inner loop of `mergeSection`: the first entry of that name is replaced, else the entry is
-- appended.
unfoldable pub upsert_entry : Text → Node → Nodes → Go Error Nodes
unfolding node_value
upsert_entry name entry nil = ok (cons entry nil)
upsert_entry name entry (cons d rest) =
    let later = upsert_entry name entry rest >>= λ rest'. ok (cons d rest') in
    node_value d (text "name") >>= λ found. if holds name found then ok (cons entry rest) else later

merge_entry : Node → Nodes → Option Node → Go Error Nodes
merge_entry entry dst none = ok dst
merge_entry entry dst (some n) = upsert_entry (value n) entry dst

unfoldable pub merge_entries : Nodes → Nodes → Go Error Nodes
unfolding merge_entry node_value
merge_entries nil dst = ok dst
merge_entries (cons entry rest) dst = do
  name ← node_value entry (text "name")
  dst' ← merge_entry entry dst name
  merge_entries rest dst'

into_section : Text → Nodes → Node → Option Node → Go Error Node
into_section section src dst_root none = merge_entries src nil >>= λ merged.
    ok (append_pair section (node sequence (text "!!seq") [] merged) dst_root)
into_section section src dst_root (some dst) = merge_entries src (content dst) >>= λ merged.
    ok (update_field (with_content merged) section dst_root)

from_section : Text → Node → Option Node → Go Error Node
from_section section dst_root none = ok dst_root
from_section section dst_root (some src) =
    if is_sequence (kind src)
    then node_value dst_root section >>= into_section section (content src) dst_root
    else ok dst_root

unfoldable pub merge_section : Text → Node → Node → Go Error Node
unfolding into_section from_section node_value
merge_section section src_root dst_root =
    node_value src_root section >>= from_section section dst_root

set_found : Text → Text → Node → Option Node → Go Error Node
set_found key v root none = ok (append_pair key (str_node v) root)
set_found key v root (some n) = ok (update_field (with_value v) key root)

-- Unlike `valueOf`, `setScalar` does not look at the kind of the node.
unfoldable pub set_scalar : Text → Text → Node → Go Error Node
unfolding set_found
set_scalar key v root = find_pair key (content root) >>= set_found key v root

or_empty : Option Node → Text
or_empty none = []
or_empty (some n) = value n

unfoldable pub scalar_value : Node → Text → Go Error Text
unfolding or_empty node_value
scalar_value root key = node_value root key >>= λ o. ok (or_empty o)

pub set_unless_empty : Text → Node → Text → Go Error Node
set_unless_empty key root [] = ok root
set_unless_empty key root (c ∷ v) = set_scalar key (c ∷ v) root

-- `mergeKubeconfigs` between reading and writing.
unfoldable pub merge_roots : Node → Node → Go Error Node
unfolding set_unless_empty
merge_roots dst src = do
  dst1 ← merge_section (text "clusters") src dst
  dst2 ← merge_section (text "contexts") src dst1
  dst3 ← merge_section (text "users") src dst2
  current ← scalar_value src (text "current-context")
  set_unless_empty (text "current-context") dst3 current

-- yaml.Unmarshal into a node (`none` is an error), and yaml.Marshal.
pub record Yaml : Type 0 where
  pub unmarshal : Text → Option Node
  pub marshal : Node → Option Text

root_of : Error → Option Node → Go Error Node
root_of e none = err e
root_of e (some (node k t v nil)) = err e
root_of e (some (node k t v (cons root rest))) = ok root

with_root : Node → Option Node → Node
with_root root none = root
with_root root (some (node k t v nil)) = node k t v nil
with_root root (some (node k t v (cons old rest))) = node k t v (cons root rest)

marshalled : Option Text → Go Error Text
marshalled none = err not_yaml
marshalled (some bytes) = ok bytes

unfoldable pub merge_kubeconfigs : Yaml → Text → Text → Go Error Text
unfolding root_of with_root marshalled
merge_kubeconfigs yaml dst_bytes src_bytes = do
  dst ← root_of invalid_dst (yaml.unmarshal dst_bytes)
  src ← root_of invalid_src (yaml.unmarshal src_bytes)
  merged ← merge_roots dst src
  marshalled (yaml.marshal (with_root merged (yaml.unmarshal dst_bytes)))
