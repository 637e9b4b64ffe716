-- ===== src/Kubeconfig/Node.antt =====
-- The part of a parsed YAML document that pkg/util/kubectx_copied and
-- pkg/subcommands/merge-to-default read and write: yaml.Node with its fields Kind, Tag, Value and
-- Content, and the lookup `valueOf` (contexts.go), which merge.go repeats as `nodeValue`.
-- A node that Go reaches through a pointer and assigns to is a node that is replaced in its tree.
pub mod Laws
use kswitch.Prelude.{Text, text, ◌==◌, Bool, true, false, ◌&&◌, if◌then◌else◌, Option, none, some}
use kswitch.Prelude.Go.{Go, ok, err, panic, hang, ◌>>=◌}

pub data Kind : Type 0 where
  document sequence mapping scalar alias : Kind

mutual
  pub data Node : Type 0 where
    node : Kind → Text → Text → Nodes → Node

  pub data Nodes : Type 0 where
    nil : Nodes
    cons : Node → Nodes → Nodes

abbrev pub kind : Node → Kind
kind (node k tag v c) = k

abbrev pub value : Node → Text
value (node k tag v c) = v

abbrev pub content : Node → Nodes
content (node k tag v c) = c

abbrev pub with_value : Text → Node → Node
with_value v (node k tag _ c) = node k tag v c

abbrev pub with_content : Nodes → Node → Node
with_content c (node k tag v _) = node k tag v c

abbrev pub is_scalar : Kind → Bool
is_scalar scalar = true
is_scalar _ = false

abbrev pub is_mapping : Kind → Bool
is_mapping mapping = true
is_mapping _ = false

abbrev pub is_sequence : Kind → Bool
is_sequence sequence = true
is_sequence _ = false

-- What the Kubeconfig methods report.
pub data Error : Type 0 where
  contexts_nil contexts_not_sequence current_context_not_set : Error
  empty_document unexpected_format not_yaml : Error
  invalid_dst invalid_src : Error
  context_not_found : Text → Error

-- &yaml.Node{Kind: yaml.ScalarNode, Value: v, Tag: "!!str"}
abbrev pub str_node : Text → Node
str_node v = node scalar (text "!!str") v nil

abbrev pub append : Nodes → Nodes → Nodes
append nil d = d
append (cons n c) d = cons n (append c d)

abbrev pub is_key : Text → Node → Bool
is_key key n = is_scalar (kind n) && (value n == key)

-- The loop of `valueOf`: the keys stand at the even positions, and `mapNode.Content[i+1]` is out of
-- range behind a key that ends the content.
unfoldable pub find_pair : Text → Nodes → Go Error (Option Node)
find_pair key nil = ok none
find_pair key (cons k nil) = if is_key key k then panic else ok none
find_pair key (cons k (cons v rest)) = if is_key key k then ok (some v) else find_pair key rest

unfoldable pub value_of : Node → Text → Go Error (Option Node)
value_of n key = if is_mapping (kind n) then find_pair key (content n) else ok none

-- An assignment through the pointer that `valueOf` returned.
unfoldable pub set_pair : (Node → Node) → Text → Nodes → Nodes
set_pair f key nil = nil
set_pair f key (cons k nil) = cons k nil
set_pair f key (cons k (cons v rest)) =
    if is_key key k then cons k (cons (f v) rest) else cons k (cons v (set_pair f key rest))

unfoldable pub update_field : (Node → Node) → Text → Node → Node
update_field f key n = with_content (set_pair f key (content n)) n

-- n.Content = append(n.Content, keyNode, v)
unfoldable pub append_pair : Text → Node → Node → Node
append_pair key v n = with_content (append (content n) (cons (str_node key) (cons v nil))) n
