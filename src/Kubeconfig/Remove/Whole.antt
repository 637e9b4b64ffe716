-- ===== src/Kubeconfig/Remove/Whole.antt =====
-- `RemoveContext` as a whole.
use kswitch.Prelude.{Text, text, ◌==◌, ◌≡◌, not, List, is_elem, keep_if}
use kswitch.Prelude.Go.{ok}
use kswitch.Kubeconfig.Node.{Node}
use kswitch.Kubeconfig.Contexts.{get_context_names}
use kswitch.Kubeconfig.Remove.{referenced_context_field}
use kswitch.Kubeconfig.Remove.Laws.{section_names}

-- A section holds just those of its former entries that a remaining context refers to, in order.
abbrev pub OnlyReferenced : Text → Text → List Text → Node → Type 0
OnlyReferenced section field names root =
    (refs : List Text) × (referenced_context_field field root ≡ ok refs)
    × (section_names section root ≡ ok (keep_if (λ n. is_elem n refs) names))

pub record ContextRemoved (name : Text) (names clusters users : List Text) (root : Node)
    : Type 0 where
  pub contexts : get_context_names root ≡ ok (keep_if (λ n. not (n == name)) names)
  pub clusters_left : OnlyReferenced (text "clusters") (text "cluster") clusters root
  pub users_left : OnlyReferenced (text "users") (text "user") users root
