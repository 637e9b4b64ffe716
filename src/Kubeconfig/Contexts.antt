-- ===== src/Kubeconfig/Contexts.antt =====
-- The entries of the section "contexts": contexts.go, namespace.go, `ModifyContextName` of
-- contextmodify.go and `SetContext`, `SetNamespaceForCurrentContext` of kubeconfig.go.
pub mod Laws
pub mod Namespace
pub mod Rename
use mathlib.Core.Option as Option
use kswitch.Prelude.{
  Text, text, ◌==◌, Bool, true, false, ◌&&◌, if◌then◌else◌, Option, none, some, List, [], ◌∷◌, ◌++◌,
}
use kswitch.Prelude.Go.{Go, ok, err, panic, hang, ◌>>=◌}
use kswitch.Prelude.Strings.{has_prefix, trim_prefix}
use kswitch.Kubeconfig.Node.{
  Node, node, Nodes, nil, cons, mapping, kind, value, content, with_value, with_content, is_scalar,
  is_sequence, str_node, Error, contexts_nil, contexts_not_sequence, context_not_found,
  current_context_not_set, value_of, update_field, append_pair,
}
use kswitch.Kubeconfig.Fields.{modify_current_context, get_current_context}

check_sequence : Option Node → Go Error Node
check_sequence none = err contexts_nil
check_sequence (some n) = if is_sequence (kind n) then ok n else err contexts_not_sequence

unfoldable pub contexts_node : Node → Go Error Node
unfolding check_sequence
contexts_node root = value_of root (text "contexts") >>= check_sequence

-- A field of a nil pointer is read.
deref : Option Node → Go Error Node
deref none = panic
deref (some n) = ok n

unfoldable pub name_node : Node → Go Error Node
unfolding deref
name_node entry = value_of entry (text "name") >>= deref

abbrev pub holds_name : Text → Node → Bool
holds_name name n = is_scalar (kind n) && (value n == name)

unfoldable pub is_named : Text → Node → Go Error Bool
is_named name entry = name_node entry >>= λ n. ok (holds_name name n)

-- The loop of `contextNode`, which returns the first entry of that name.
unfoldable pub find_named : Text → Nodes → Go Error (Option Node)
find_named name nil = ok none
find_named name (cons entry rest) =
    let later = find_named name rest in
    is_named name entry >>= λ hit. if hit then ok (some entry) else later

or_not_found {ℓ} : {A : Type ℓ} → Text → Option A → Go Error A
or_not_found name none = err (context_not_found name)
or_not_found name (some a) = ok a

unfoldable pub context_node : Text → Node → Go Error Node
unfolding or_not_found
context_node name root = do
  contexts ← contexts_node root
  found ← find_named name (content contexts)
  or_not_found name found

-- An entry with no name is skipped.
unfoldable pub names_of : Nodes → Go Error (List Text)
names_of nil = ok []
names_of (cons entry rest) = do
  found ← value_of entry (text "name")
  later ← names_of rest
  ok (elim found [ none ↦ later | some n ↦ value n ∷ later ])

unfoldable pub get_context_names : Node → Go Error (List Text)
unfolding names_of
get_context_names root = contexts_node root >>= λ contexts. names_of (content contexts)

-- What a loop up to the first entry of that name does, with an assignment through its pointer.
unfoldable pub update_named : Text → (Node → Go Error Node) → Nodes → Go Error (Option Nodes)
update_named name f nil = ok none
update_named name f (cons entry rest) =
    let later = update_named name f rest >>= λ o. ok (Option.map (cons entry) o) in
    is_named name entry >>= λ hit.
    if hit then (f entry >>= λ changed. ok (some (cons changed rest))) else later

unfoldable pub update_context : Text → (Node → Go Error Node) → Node → Go Error Node
unfolding or_not_found
update_context name f root = do
  contexts ← contexts_node root
  updated ← update_named name f (content contexts)
  entries ← or_not_found name updated
  ok (update_field (with_content entries) (text "contexts") root)

unfoldable pub modify_context_name : Text → Text → Node → Go Error Node
modify_context_name old new =
    update_context old (λ entry. ok (update_field (with_value new) (text "name") entry))

-- The prefix of the store is cut off the name that the alias stands for.
unfoldable pub without_prefix : Text → Text → Text
without_prefix [] original = original
without_prefix (p ∷ ps) original =
    if has_prefix original (p ∷ ps) then trim_prefix original ((p ∷ ps) ++ text "/") else original

unfoldable pub set_context : Text → Text → Text → Node → Go Error Node
set_context current [] prefix root = modify_current_context current root
set_context current (c ∷ original) prefix root =
    modify_context_name (without_prefix prefix (c ∷ original)) current root
    >>= modify_current_context current

abbrev pub default_namespace : Text
default_namespace = text "default"

-- The last part of `SetNamespace`, on the value of the entry's field "context".
write_namespace : Text → Node → Option Node → Go Error Node
write_namespace ns entry none =
    let body = append_pair (text "namespace") (str_node ns) (node mapping [] [] nil) in
    ok (append_pair (text "context") body entry)
write_namespace ns entry (some body) = value_of body (text "namespace") >>= λ found. ok (
    update_field
      (elim found [
        | none ↦ append_pair (text "namespace") (str_node ns)
        | some n ↦ update_field (with_value ns) (text "namespace")
      ])
      (text "context") entry)

unfoldable pub with_namespace : Text → Node → Go Error Node
unfolding write_namespace
with_namespace ns entry = value_of entry (text "context") >>= write_namespace ns entry

unfoldable pub set_namespace : Text → Text → Node → Go Error Node
set_namespace name ns = update_context name (with_namespace ns)

abbrev pub or_default : Text → Text
or_default [] = default_namespace
or_default (c ∷ s) = c ∷ s

namespace_value : Option Node → Text
namespace_value none = default_namespace
namespace_value (some n) = or_default (value n)

body_namespace : Option Node → Go Error Text
body_namespace none = ok default_namespace
body_namespace (some body) = value_of body (text "namespace") >>= λ o. ok (namespace_value o)

unfoldable pub entry_namespace : Node → Go Error Text
unfolding namespace_value body_namespace
entry_namespace entry = value_of entry (text "context") >>= body_namespace

unfoldable pub namespace_of_context : Text → Node → Go Error Text
namespace_of_context name root = context_node name root >>= entry_namespace

set_if_named : Text → Node → Text → Go Error Node
set_if_named ns root [] = err current_context_not_set
set_if_named ns root (c ∷ name) = set_namespace (c ∷ name) ns root

unfoldable pub set_namespace_for_current_context : Text → Node → Go Error Node
unfolding set_if_named
set_namespace_for_current_context ns root = get_current_context root >>= set_if_named ns root
