-- ===== src/Kubeconfig/Contexts/Laws.antt =====
-- Looking a context up after a write to one of the entries.
use kswitch.Prelude.{
  Text, text, ◌==◌, ==_iff, ==_refl, ==_false, ◌≢◌, ◌≡◌, refl, sym, ap, ◌∙◌, true, false,
  Bool-cases, inl, inr, if◌then◌else◌, some, arith,
}
use kswitch.Prelude.Go.{Go, ok}
use kswitch.Kubeconfig.Node.{
  Node, node, Nodes, nil, cons, kind, value, content, with_content, is_sequence, Error, value_of,
  update_field,
}
use kswitch.Kubeconfig.Node.Laws.{IsMapping, value_of-update_field, update_field-IsMapping}
use kswitch.Kubeconfig.Contexts.{
  contexts_node, name_node, is_named, find_named, context_node, update_named, update_context,
  holds_name,
}

-- One write to the first entry of a name, seen by the lookups.
pub record Replaced (c : Text) (f : Node → Go Error Node) (e' : Node) (nodes nodes' : Nodes)
    : Type 0 where
  pub runs : update_named c f nodes ≡ ok (some nodes')
  pub finds :
      (d : Text) → find_named d nodes' ≡ (if c == d then ok (some e') else find_named d nodes)

pub name_of_found :
    (c : Text) (x e : Node) (rest : Nodes)
    → find_named c (cons x rest) ≡ ok (some e)
    → (n : Node) × (name_node x ≡ ok n)
unfolding find_named is_named
name_of_found c x e rest h = ground arith

hit_finds :
    (c d : Text) (x e' n : Node) (rest : Nodes)
    → name_node x ≡ ok n
    → name_node e' ≡ ok n
    → holds_name c n ≡ true
    → find_named d (cons e' rest) ≡ (if c == d then ok (some e') else find_named d (cons x rest))
unfolding find_named is_named
hit_finds c d x e' n rest p q hit =
    ground (arith, ==_iff c d, ==_iff (value n) c, ==_iff (value n) d)

miss_finds :
    (c d : Text) (x e' n : Node) (rest rest' : Nodes)
    → name_node x ≡ ok n
    → holds_name c n ≡ false
    → find_named d rest' ≡ (if c == d then ok (some e') else find_named d rest)
    → find_named d (cons x rest') ≡ (if c == d then ok (some e') else find_named d (cons x rest))
unfolding find_named is_named
miss_finds c d x e' n rest rest' p miss later =
    ground (arith, ==_iff c d, ==_iff (value n) c, ==_iff (value n) d)

pub found_hit :
    (c : Text) (x e n : Node) (rest : Nodes)
    → find_named c (cons x rest) ≡ ok (some e)
    → name_node x ≡ ok n
    → holds_name c n ≡ true
    → x ≡ e
unfolding find_named is_named
found_hit c x e n rest h p hit = ground arith

pub found_later :
    (c : Text) (x e n : Node) (rest : Nodes)
    → find_named c (cons x rest) ≡ ok (some e)
    → name_node x ≡ ok n
    → holds_name c n ≡ false
    → find_named c rest ≡ ok (some e)
unfolding find_named is_named
found_later c x e n rest h p miss = ground arith

pub update_named-Replaced :
    (c : Text) (f : Node → Go Error Node) (nodes : Nodes) (e e' : Node)
    → find_named c nodes ≡ ok (some e)
    → f e ≡ ok e'
    → name_node e' ≡ name_node e
    → (nodes' : Nodes) × Replaced c f e' nodes nodes'
unfolding update_named is_named
update_named-Replaced c f nil e e' h fe same = unfold find_named in absurd (ground arith)
update_named-Replaced c f (cons x rest) e e' h fe same =
    let (n, p) = name_of_found c x e rest h in
    elim (Bool-cases (holds_name c n)) [
      | inl hit ↦
          let x_e = found_hit c x e n rest h p hit in
          (
            cons e' rest,
            record {
              runs = ground arith;
              finds = λ d. hit_finds c d x e' n rest p (same ∙ ap name_node (sym x_e) ∙ p) hit;
            },
          )
      | inr miss ↦
          let later = found_later c x e n rest h p miss in
          let (rest', r) = update_named-Replaced c f rest e e' later fe same in
          (
            cons x rest',
            record {
              runs = ground (arith, r.runs);
              finds = λ d. miss_finds c d x e' n rest rest' p miss (r.finds d);
            },
          )
    ]

pub contexts_of_node :
    (c : Text) (root e : Node)
    → context_node c root ≡ ok e
    → (cn : Node) × (contexts_node root ≡ ok cn) × (find_named c (content cn) ≡ ok (some e))
unfolding context_node
contexts_of_node c root e h = ground arith

pub sequence_of_contexts :
    (root cn : Node)
    → contexts_node root ≡ ok cn
    → (value_of root (text "contexts") ≡ ok (some cn)) × (is_sequence (kind cn) ≡ true)
unfolding contexts_node
sequence_of_contexts root cn h = ground arith

-- The section "contexts" with new entries, in a document where everything else is as it was.
pub record Rewritten (nodes : Nodes) (root root' : Node) : Type 0 where
  pub is_mapping : IsMapping root'
  pub section : (cn : Node) × (contexts_node root' ≡ ok cn) × (content cn ≡ nodes)
  pub others : (j : Text) → text "contexts" ≢ j → value_of root' j ≡ value_of root j

pub rewrite_contexts :
    (nodes : Nodes) (root cn : Node)
    → IsMapping root
    → contexts_node root ≡ ok cn
    → Rewritten nodes root (update_field (with_content nodes) (text "contexts") root)
unfolding contexts_node
rewrite_contexts nodes root (node k tag v c) m h =
    let (e, q) = sequence_of_contexts root (node k tag v c) h in
    record {
      is_mapping = update_field-IsMapping (with_content nodes) (text "contexts") root m;
      section = (node k tag v nodes, rw (value_of-update_field, ==_refl, e, q), refl);
      others = λ j ne. rw (value_of-update_field, ==_false ne) (ground arith);
    }

-- What `updateContext`-like methods leave behind: one entry is changed, the lookups of the other
-- names and the other sections are not.
pub record Updated (c : Text) (e' root root' : Node) : Type 0 where
  pub is_mapping : IsMapping root'
  pub finds : (d : Text) → context_node d root' ≡ (if c == d then ok e' else context_node d root)
  pub others : (j : Text) → text "contexts" ≢ j → value_of root' j ≡ value_of root j

pub update_context-Updated :
    (c : Text) (f : Node → Go Error Node) (root e e' : Node)
    → IsMapping root
    → context_node c root ≡ ok e
    → f e ≡ ok e'
    → name_node e' ≡ name_node e
    → (root' : Node) × (update_context c f root ≡ ok root') × Updated c e' root root'
unfolding update_context context_node
update_context-Updated c f root e e' m h fe same =
    let (cn, hc, hf) = contexts_of_node c root e h in
    let (nodes', r) = update_named-Replaced c f (content cn) e e' hf fe same in
    let w = rewrite_contexts nodes' root cn m hc in
    let (cn', hc', hn) = w.section in
    (
      update_field (with_content nodes') (text "contexts") root,
      rw (hc, r.runs),
      record {
        is_mapping = w.is_mapping;
        finds = λ d. rw (hc', hc, hn, r.finds d) (ground (arith, ==_iff c d));
        others = w.others;
      },
    )
