-- ===== src/Namespaces/Switching.antt =====
-- What the switch to a namespace leaves.
use mathlib.Core.List.{reverse}
use kswitch.Prelude.{
  ℕ, Text, ◌==◌, ==_refl, ◌≡◌, refl, false, if◌then◌else◌, get_elem?, Option, some, List, ◌∷◌, All,
}
use kswitch.Prelude.Dict.{Dict, read-assign}
use kswitch.Prelude.Go.{ok}
use kswitch.Kubeconfig.Node.{Node}
use kswitch.Kubeconfig.Node.Laws.{IsMapping}
use kswitch.Kubeconfig.Fields.{get_current_context}
use kswitch.Kubeconfig.Contexts.{
  context_node, namespace_of_context, or_default, set_namespace_for_current_context,
}
use kswitch.Kubeconfig.Contexts.Namespace.{IsEntry, namespace_of_context-set_namespace}
use kswitch.History.{append_to_history}
use kswitch.History.Lines.{IsLine}
use kswitch.Namespaces.{
  State, file_name, cached_namespaces, write_lines, write_namespaces,
  refresh_namespaces_from_cluster, switch_namespace, selected, written, recorded,
}
use kswitch.Namespaces.Listing.{load_from_file-write_lines}

remembered :
    (k : ℕ) (ks : Text) (namespaces : List Text) (files : Dict Text)
    → All IsLine namespaces
    → cached_namespaces (k ∷ ks) false (write_namespaces (k ∷ ks) false namespaces files)
      ≡ reverse namespaces
unfolding cached_namespaces write_namespaces
remembered k ks namespaces files h =
    rw
      (
        read-assign files (file_name (k ∷ ks)) (file_name (k ∷ ks)) (write_lines namespaces),
        ==_refl (file_name (k ∷ ks)),
      )
      (load_from_file-write_lines namespaces h)

-- Let a namespace be chosen among those that are offered, none of which holds an end of a line, and let
-- the kubeconfig be a mapping whose current context is one of its entries, which is a mapping and has as
-- its "context", if any, a mapping. With a kswitch-context and an index, the switch succeeds: the namespace of the current context is what was chosen ("default" if
-- that is empty), those of the others are as before, the choice goes to the history, and what was
-- offered is remembered for the context, in the reverse order.
pub switch_namespace_lem :
    (set_list : List Text → List Text) (k : ℕ) (ks : Text) (cluster : Option (List Text)) (idx : ℕ)
    (s : State) (namespace : Text) (c : ℕ) (cs : Text) (e : Node)
    → get_elem?
        (refresh_namespaces_from_cluster set_list cluster
          (cached_namespaces (k ∷ ks) false s.files))
        idx
      ≡ some namespace
    → All IsLine (
        refresh_namespaces_from_cluster set_list cluster (cached_namespaces (k ∷ ks) false s.files))
    → IsMapping s.kubeconfig
    → get_current_context s.kubeconfig ≡ ok (c ∷ cs)
    → context_node (c ∷ cs) s.kubeconfig ≡ ok e
    → IsEntry e
    → (s' : State) × (switch_namespace set_list (k ∷ ks) false cluster idx s ≡ ok s')
      × ((d : Text)
          → namespace_of_context d s'.kubeconfig ≡ (
              if (c ∷ cs) == d
              then ok (or_default namespace)
              else namespace_of_context d s.kubeconfig))
      × (s'.history ≡ append_to_history (k ∷ ks) namespace s.history)
      × (cached_namespaces (k ∷ ks) false s'.files
          ≡ reverse (
              refresh_namespaces_from_cluster set_list cluster
                (cached_namespaces (k ∷ ks) false s.files)))
unfolding switch_namespace set_namespace_for_current_context selected written recorded
switch_namespace_lem set_list k ks cluster idx s namespace c cs e chosen lines m current finds
      entry =
    let namespaces =
      refresh_namespaces_from_cluster set_list cluster (cached_namespaces (k ∷ ks) false s.files) in
    let (root', runs, _, reads) =
      namespace_of_context-set_namespace (c ∷ cs) namespace s.kubeconfig e m finds entry in
    (
      recorded (k ∷ ks) false namespace namespaces s root',
      simp (chosen, current, runs) (refl),
      reads,
      refl,
      remembered k ks namespaces s.files lines,
    )
