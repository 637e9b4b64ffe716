-- ===== src/Kubeconfig/Contexts/Rename.antt =====
-- `SetContext` (kubeconfig.go): the current context that it sets names an entry.
use kswitch.Prelude.{
  Text, text, ◌==◌, ==_iff, ==_refl, ◌≡◌, ◌∙◌, refl, some, arith, true, false, Bool-cases, inl, inr,
  ◌≢◌, [], ◌∷◌,
}
use kswitch.Prelude.Go.{ok}
use kswitch.Kubeconfig.Node.{
  Node, node, Nodes, nil, cons, value_of, update_field, with_value, with_content, content,
}
use kswitch.Kubeconfig.Node.Laws.{IsMapping, value_of-update_field}
use kswitch.Kubeconfig.Contexts.Laws.{
  name_of_found, found_later, contexts_of_node, rewrite_contexts,
}
use kswitch.Kubeconfig.Fields.{modify_current_context, get_current_context}
use kswitch.Kubeconfig.Fields.Laws.{modify_field-Written}
use kswitch.Kubeconfig.Contexts.{
  name_node, is_named, holds_name, contexts_node, update_named, find_named, context_node,
  update_context, set_context, without_prefix, modify_context_name,
}

pub contexts_kept :
    (d : Text) (root root' : Node)
    → value_of root' (text "contexts") ≡ value_of root (text "contexts")
    → context_node d root' ≡ context_node d root
unfolding context_node contexts_node
contexts_kept d root root' e = rw e

current_ne_contexts : text "current-context" ≢ text "contexts"
current_ne_contexts = λ e. ground arith

-- With no alias, `SetContext` on a mapping succeeds, sets the current context and leaves the
-- lookup of every context as it was.
pub set_context_no_alias :
    (current prefix : Text) (root : Node)
    → IsMapping root
    → (root' : Node) × (set_context current [] prefix root ≡ ok root')
      × (get_current_context root' ≡ ok current)
      × ((d : Text) → context_node d root' ≡ context_node d root)
unfolding set_context modify_current_context get_current_context ◌==◌
set_context_no_alias current prefix root m =
    let (root', runs, w) = modify_field-Written (text "current-context") current root m in
    (root', runs, w.reads _, λ d. contexts_kept d root root' (w.others _ current_ne_contexts))

abbrev renamed : Text → Node → Node
renamed new = update_field (with_value new) (text "name")

rename_name :
    (new : Text) (e n : Node)
    → name_node e ≡ ok n
    → name_node (renamed new e) ≡ ok (with_value new n)
unfolding name_node
rename_name new e n p =
    rw (value_of-update_field _ _ (text "name") e, ==_refl (text "name")) (ground arith)

-- A rename of the first entry that has a name, seen by the lookups.
record Renamed (old new : Text) (nodes nodes' : Nodes) : Type 0 where
  runs : update_named old (λ e. ok (renamed new e)) nodes ≡ ok (some nodes')
  found : (e : Node) × (find_named new nodes' ≡ ok (some e))
  others : (d : Text) → old ≢ d → new ≢ d → find_named d nodes' ≡ find_named d nodes

rename_hit :
    (old new : Text) (x : Node) (n : Node) (rest : Nodes)
    → name_node x ≡ ok n
    → holds_name old n ≡ true
    → Renamed old new (cons x rest) (cons (renamed new x) rest)
unfolding find_named update_named is_named
rename_hit old new x (node k t v c) rest p hit =
    let q = rename_name new x (node k t v c) p in
    record {
      runs = ground arith;
      found = (renamed new x, ground (arith, ==_refl new));
      others = λ d ne ne'. ground (arith, ==_iff new d, ==_iff v d, ==_iff v old);
    }

found_below :
    (new : Text) (x n e : Node) (rest : Nodes)
    → name_node x ≡ ok n
    → find_named new rest ≡ ok (some e)
    → (e' : Node) × (find_named new (cons x rest) ≡ ok (some e'))
unfolding find_named is_named
found_below new x n e rest p h = elim (Bool-cases (holds_name new n)) [
  | inl hit ↦ (x, ground arith)
  | inr miss ↦ (e, ground arith)
]

rename_miss :
    (old new : Text) (x n : Node) (rest rest' : Nodes)
    → name_node x ≡ ok n
    → holds_name old n ≡ false
    → Renamed old new rest rest'
    → Renamed old new (cons x rest) (cons x rest')
unfolding update_named is_named
rename_miss old new x n rest rest' p miss r = record {
  runs = ground (arith, r.runs);
  found = let (e, h) = r.found in found_below new x n e rest' p h;
  others = λ d ne ne'. unfold find_named in rw (r.others d ne ne');
}

update_named-Renamed :
    (old new : Text) (nodes : Nodes) (e : Node)
    → find_named old nodes ≡ ok (some e)
    → (nodes' : Nodes) × Renamed old new nodes nodes'
update_named-Renamed old new nil e h = unfold find_named in absurd (ground arith)
update_named-Renamed old new (cons x rest) e h =
    let (n, p) = name_of_found old x e rest h in
    elim (Bool-cases (holds_name old n)) [
      | inl hit ↦ (cons (renamed new x) rest, rename_hit old new x n rest p hit)
      | inr miss ↦
          let (rest', r) =
            update_named-Renamed old new rest e (found_later old x e n rest h p miss) in
          (cons x rest', rename_miss old new x n rest rest' p miss r)
    ]

-- A document after `ModifyContextName`.
record ContextRenamed (old new : Text) (root root' : Node) : Type 0 where
  is_mapping : IsMapping root'
  found : (e : Node) × (context_node new root' ≡ ok e)
  others : (d : Text) → old ≢ d → new ≢ d → context_node d root' ≡ context_node d root

modify_context_name-Renamed :
    (old new : Text) (root e : Node)
    → IsMapping root
    → context_node old root ≡ ok e
    → (root' : Node) × (modify_context_name old new root ≡ ok root')
      × ContextRenamed old new root root'
unfolding modify_context_name update_context context_node
modify_context_name-Renamed old new root e m h =
    let (cn, hc, hf) = contexts_of_node old root e h in
    let (nodes', r) = update_named-Renamed old new (content cn) e hf in
    let w = rewrite_contexts nodes' root cn m hc in
    let (cn', hc', hn) = w.section in
    let (e', found) = r.found in
    (
      update_field (with_content nodes') (text "contexts") root,
      rw (hc, r.runs),
      record {
        is_mapping = w.is_mapping;
        found = (e', rw (hc', hn, found));
        others = λ d ne ne'. rw (hc', hc, hn, r.others d ne ne');
      },
    )

-- What `SetContext` leaves where there is an alias.
pub renamed_current :
    (current original prefix : Text) (root e : Node)
    → IsMapping root
    → original ≢ []
    → context_node (without_prefix prefix original) root ≡ ok e
    → (root' : Node) × (set_context current original prefix root ≡ ok root')
      × IsMapping root'
      × (get_current_context root' ≡ ok current)
      × ((e' : Node) × (context_node current root' ≡ ok e'))
      × ((d : Text)
          → without_prefix prefix original ≢ d
          → current ≢ d
          → context_node d root' ≡ context_node d root)
unfolding set_context modify_current_context get_current_context ◌==◌
renamed_current current [] prefix root e m ne h = absurd (ne refl)
renamed_current current (c ∷ original) prefix root e m ne h =
    let old = without_prefix prefix (c ∷ original) in
    let (mid, renames, r) = modify_context_name-Renamed old current root e m h in
    let (root', runs, w) = modify_field-Written (text "current-context") current mid r.is_mapping in
    let kept = w.others _ current_ne_contexts in
    let (e', found) = r.found in
    (
      root',
      rw renames runs,
      w.is_mapping,
      w.reads _,
      (e', contexts_kept current mid root' kept ∙ found),
      λ d n n'. contexts_kept d mid root' kept ∙ r.others d n n',
    )

-- With an alias, whose context the kubeconfig holds, `SetContext` succeeds. The current context is
-- then the alias and an entry of the kubeconfig has that name, so that it never dangles; the
-- contexts of other names are looked up as before.
pub set_context_alias :
    (current original prefix : Text) (root e : Node)
    → IsMapping root
    → original ≢ []
    → context_node (without_prefix prefix original) root ≡ ok e
    → (root' : Node) × (set_context current original prefix root ≡ ok root')
      × (get_current_context root' ≡ ok current)
      × ((e' : Node) × (context_node current root' ≡ ok e'))
      × ((d : Text)
          → without_prefix prefix original ≢ d
          → current ≢ d
          → context_node d root' ≡ context_node d root)
set_context_alias current original prefix root e m ne h =
    let (root', runs, _, reads, found, others) =
      renamed_current current original prefix root e m ne h in
    (root', runs, reads, found, others)
