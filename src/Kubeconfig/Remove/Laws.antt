-- ===== src/Kubeconfig/Remove/Laws.antt =====
-- What is left of the sections of a kubeconfig after `RemoveContext`.
use kswitch.Prelude.{
  Text, text, ◌==◌, ==_refl, ==_false, ◌≡◌, ◌≢◌, refl, false, not, Bool-cases, inl, inr, Option,
  none, some, List, [], ◌∷◌, is_elem, keep_if, arith,
}
use kswitch.Prelude.Go.{Go, ok, ◌>>=◌}
use kswitch.Kubeconfig.Node.{
  Node, node, Nodes, nil, cons, kind, value, with_content, is_sequence, Error, value_of,
  update_field,
}
use kswitch.Kubeconfig.Node.Laws.{
  IsMapping, value_of-update_field, value_of_total, update_field-IsMapping,
}
use kswitch.Kubeconfig.Contexts.{name_node, names_of}
use kswitch.Kubeconfig.Contexts.Namespace.{IsEntry, IsBody}
use kswitch.Kubeconfig.Remove.{
  keep_contexts, field_of_entries, referenced_context_field, keep_referenced, remove_orphaned,
  entries, field_values,
}

-- The names of the entries of a section, in their order.
unfoldable pub section_names : Text → Node → Go Error (List Text)
section_names section root = value_of root section >>= λ o. names_of (entries o)

abbrev pub AllEntries : (Node → Type 0) → Nodes → Type 0
AllEntries P nil = Unit
AllEntries P (cons n rest) = P n × AllEntries P rest

-- An entry of "contexts" that has a name.
pub record IsNamedEntry (e : Node) : Type 0 where
  pub is_entry : IsEntry e
  pub name : (n : Node) × (value_of e (text "name") ≡ ok (some n))

pub keep_contexts-names :
    (name : Text) (nodes : Nodes)
    → AllEntries IsNamedEntry nodes
    → (kept : Nodes) × (keep_contexts name nodes ≡ ok kept)
      × AllEntries IsNamedEntry kept
      × (ns : List Text) × (names_of nodes ≡ ok ns)
      × (names_of kept ≡ ok (keep_if (λ n. not (n == name)) ns))
unfolding keep_contexts names_of name_node
keep_contexts-names name nil a = (nil, refl, tt, [], refl, refl)
keep_contexts-names name (cons x rest) (w, a) =
    let (n, p) = w.name in
    let (kept, runs, all, ns, e, e') = keep_contexts-names name rest a in
    elim (Bool-cases (value n == name)) [
      | inl hit ↦ (kept, rw (p, runs, hit), all, value n ∷ ns, rw (p, e), rw hit e')
      | inr miss ↦
          (cons x kept, rw (p, runs, miss), (w, all), value n ∷ ns, rw (p, e), rw (p, e', miss))
    ]

pub field_of_entries_total :
    (field : Text) (nodes : Nodes)
    → AllEntries IsNamedEntry nodes
    → (vs : List Text) × (field_of_entries field nodes ≡ ok vs)
unfolding field_of_entries
field_of_entries_total field nil a = ([], refl)
field_of_entries_total field (cons x rest) (w, a) =
    let (later, e) = field_of_entries_total field rest a in
    go later e w.is_entry.field w.is_entry.reads w.is_entry.is_body
  where
    go :
        (later : List Text)
        → field_of_entries field rest ≡ ok later
        → (o : Option Node) → value_of x (text "context") ≡ ok o
        → IsBody o
        → (vs : List Text) × (field_of_entries field (cons x rest) ≡ ok vs)
    go later e none p b = (later, rw (p, e))
    go later e (some body) p b =
        let (v, q) = value_of_total body field b in (field_values v later, rw (p, e, q))

names_of-cons :
    (x : Node) (rest : Nodes) (ns : List Text)
    → names_of (cons x rest) ≡ ok ns
    → (o : Option Node) × (later : List Text) × (value_of x (text "name") ≡ ok o)
      × (names_of rest ≡ ok later)
      × (elim o [ none ↦ later | some n ↦ value n ∷ later ] ≡ ns)
unfolding names_of
names_of-cons x rest ns h = ground arith

keep_one :
    (refs later : List Text) (x : Node) (rest kept : Nodes) (o : Option Node)
    → value_of x (text "name") ≡ ok o
    → names_of rest ≡ ok later
    → keep_referenced refs rest ≡ ok kept
    → names_of kept ≡ ok (keep_if (λ n. is_elem n refs) later)
    → (kept' : Nodes) × (keep_referenced refs (cons x rest) ≡ ok kept')
      × (names_of kept'
          ≡ ok (keep_if (λ n. is_elem n refs) (elim o [ none ↦ later | some n ↦ value n ∷ later ])))
unfolding keep_referenced names_of
keep_one refs later x rest kept none p e runs names = (kept, rw (p, runs), names)
keep_one refs later x rest kept (some n) p e runs names =
    elim (Bool-cases (is_elem (value n) refs)) [
      | inl hit ↦ (cons x kept, rw (p, runs, hit), rw (p, names, hit))
      | inr miss ↦ (kept, rw (p, runs, miss), rw miss names)
    ]

keep_referenced-names :
    (refs : List Text) (nodes : Nodes) (ns : List Text)
    → names_of nodes ≡ ok ns
    → (kept : Nodes) × (keep_referenced refs nodes ≡ ok kept)
      × (names_of kept ≡ ok (keep_if (λ n. is_elem n refs) ns))
keep_referenced-names refs nil ns h = unfold keep_referenced names_of in (nil, refl, ground arith)
keep_referenced-names refs (cons x rest) ns h =
    let (o, later, p, e, whole) = names_of-cons x rest ns h in
    let (kept, runs, names) = keep_referenced-names refs rest later e in
    let (kept', runs', names') = keep_one refs later x rest kept o p e runs names in
    (kept', runs', rw (← whole) names')

-- A section after its orphans are removed.
pub record Pruned (section : Text) (refs names : List Text) (root root' : Node) : Type 0 where
  pub is_mapping : IsMapping root'
  pub left : section_names section root' ≡ ok (keep_if (λ n. is_elem n refs) names)
  pub others : (j : Text) → section ≢ j → value_of root' j ≡ value_of root j

no_entries :
    (n : Node) (ns : List Text)
    → is_sequence (kind n) ≡ false
    → names_of (entries (some n)) ≡ ok ns
    → ns ≡ []
unfolding names_of
no_entries n ns q h = ground arith

pub prune_section :
    (section field : Text) (root : Node) (refs names : List Text) (o : Option Node)
    → IsMapping root
    → value_of root section ≡ ok o
    → names_of (entries o) ≡ ok names
    → referenced_context_field field root ≡ ok refs
    → (root' : Node) × (remove_orphaned section field root ≡ ok root')
      × Pruned section refs names root root'
unfolding remove_orphaned section_names
prune_section section field root refs names none m p h r = (
  root,
  rw p,
  record { is_mapping = m; left = unfold names_of in rw p (ground arith); others = λ j ne. refl },
)
prune_section section field root refs names (some (node k tag v c)) m p h r =
    elim (Bool-cases (is_sequence k)) [
      | inl q ↦
          let (kept, runs, left) = keep_referenced-names refs c names (ground arith) in
          (
            update_field (with_content kept) section root,
            rw (p, q, r, runs),
            record {
              is_mapping = update_field-IsMapping (with_content kept) section root m;
              left = rw (value_of-update_field, ==_refl section, p, q) left;
              others = λ j ne. rw (value_of-update_field, ==_false ne) (ground arith);
            },
          )
      | inr q ↦ (
        root,
        rw (p, q),
        record {
          is_mapping = m;
          left = rw p (rw (no_entries (node k tag v c) names q h) (unfold names_of in rw q));
          others = λ j ne. refl;
        },
      )
    ]
