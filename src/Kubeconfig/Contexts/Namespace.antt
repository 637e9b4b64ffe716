-- ===== src/Kubeconfig/Contexts/Namespace.antt =====
-- The namespace of a context (namespace.go), after it is written.
use kswitch.Prelude.{Text, text, ◌==◌, ◌≡◌, refl, if◌then◌else◌, Option, none, some, arith, []}
use kswitch.Prelude.Go.{ok}
use kswitch.Kubeconfig.Node.{
  Node, node, nil, mapping, value, with_value, str_node, value_of, find_pair, update_field,
  append_pair,
}
use kswitch.Kubeconfig.Node.Laws.{
  IsMapping, value_of-update_field, value_of-append_pair, value_of_total,
}
use kswitch.Kubeconfig.Contexts.{
  name_node, context_node, with_namespace, entry_namespace, set_namespace, namespace_of_context,
  or_default,
}
use kswitch.Kubeconfig.Contexts.Laws.{update_context-Updated}

abbrev pub IsBody : Option Node → Type 0
IsBody none = Unit
IsBody (some b) = IsMapping b

-- A context entry: a mapping whose field "context", if there is one, is a mapping.
pub record IsEntry (e : Node) : Type 0 where
  pub is_mapping : IsMapping e
  pub field : Option Node
  pub reads : value_of e (text "context") ≡ ok field
  pub is_body : IsBody field

-- What the write to an entry leaves.
record Named (ns : Text) (e e' : Node) : Type 0 where
  runs : with_namespace ns e ≡ ok e'
  name : name_node e' ≡ name_node e
  namespace : entry_namespace e' ≡ ok (or_default ns)

value-with_value : (v : Text) (n : Node) → value (with_value v n) ≡ v
value-with_value v (node k t w c) = refl

abbrev new_body : Text → Node
new_body ns = append_pair (text "namespace") (str_node ns) (node mapping [] [] nil)

new_body-namespace :
    (ns : Text) → value_of (new_body ns) (text "namespace") ≡ ok (some (str_node ns))
unfolding value_of find_pair append_pair ◌==◌
new_body-namespace ns = refl

no_body :
    (ns : Text) (e : Node)
    → IsMapping e
    → value_of e (text "context") ≡ ok none
    → Named ns e (append_pair (text "context") (new_body ns) e)
unfolding with_namespace entry_namespace name_node ◌==◌
no_body ns e m h = record {
  runs = rw h;
  name =
      rw (value_of-append_pair _ (text "name") (new_body ns) e m)
        (let (o, q) = value_of_total e (text "name") m in rw q (ground arith));
  namespace =
      rw (value_of-append_pair _ (text "context") (new_body ns) e m, h, new_body-namespace ns);
}

old_namespace :
    (ns : Text) (e b n : Node)
    → value_of e (text "context") ≡ ok (some b)
    → value_of b (text "namespace") ≡ ok (some n)
    → Named ns e (update_field (update_field (with_value ns) (text "namespace")) (text "context") e)
unfolding with_namespace entry_namespace name_node ◌==◌
old_namespace ns e b n h hn = record {
  runs = rw (h, hn);
  name = rw (value_of-update_field _ _ (text "name") e) (ground arith);
  namespace = rw (value_of-update_field, h) (rw (value_of-update_field, hn) (rw value-with_value));
}

new_namespace :
    (ns : Text) (e b : Node)
    → IsMapping b
    → value_of e (text "context") ≡ ok (some b)
    → value_of b (text "namespace") ≡ ok none
    → Named ns e (update_field (append_pair (text "namespace") (str_node ns)) (text "context") e)
unfolding with_namespace entry_namespace name_node ◌==◌
new_namespace ns e b m h hn = record {
  runs = rw (h, hn);
  name = rw (value_of-update_field _ _ (text "name") e) (ground arith);
  namespace =
      rw (value_of-update_field, h)
        (rw (value_of-append_pair (text "namespace") (text "namespace") (str_node ns) b m, hn));
}

with_namespace-Named : (ns : Text) (e : Node) → IsEntry e → (e' : Node) × Named ns e e'
with_namespace-Named ns e w = go w.field w.reads w.is_body
  where
    inner :
        (b : Node) (o : Option Node)
        → value_of e (text "context") ≡ ok (some b)
        → IsMapping b
        → value_of b (text "namespace") ≡ ok o
        → (e' : Node) × Named ns e e'
    inner b none h m hn = (_, new_namespace ns e b m h hn)
    inner b (some n) h m hn = (_, old_namespace ns e b n h hn)

    go :
        (o : Option Node)
        → value_of e (text "context") ≡ ok o
        → IsBody o
        → (e' : Node) × Named ns e e'
    go none h m = (_, no_body ns e w.is_mapping h)
    go (some b) h m = let (o, hn) = value_of_total b (text "namespace") m in inner b o h m hn

-- Setting the namespace of a context that the kubeconfig holds succeeds, if the entry of the context is
-- a mapping whose "context", if it has one, is a mapping. From then on `NamespaceOfContext` returns it for that name ("default" if it is empty), and returns for every
-- other name what it returned before, be it an error.
pub namespace_of_context-set_namespace :
    (c ns : Text) (root e : Node)
    → IsMapping root
    → context_node c root ≡ ok e
    → IsEntry e
    → (root' : Node) × (set_namespace c ns root ≡ ok root')
      × IsMapping root'
      × ((d : Text)
          → namespace_of_context d root'
            ≡ (if c == d then ok (or_default ns) else namespace_of_context d root))
unfolding set_namespace namespace_of_context
namespace_of_context-set_namespace c ns root e m h w =
    let (e', n) = with_namespace-Named ns e w in
    let (root', runs, u) =
      update_context-Updated c (with_namespace ns) root e e' m h n.runs n.name in
    (root', runs, u.is_mapping, λ d. rw (u.finds d) (ground (arith, n.namespace)))
