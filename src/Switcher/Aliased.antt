-- ===== src/Switcher/Aliased.antt =====
-- An item that is shown by its alias.
use kswitch.Prelude.{Text, ◌≡◌, ◌≢◌}
use kswitch.Prelude.Go.{ok}
use kswitch.Kubeconfig.Node.{Node}
use kswitch.Kubeconfig.Fields.{get_current_context, get_kswitch_context}
use kswitch.Kubeconfig.Contexts.{context_node, set_context as set_document_context}

-- The edit of the document: the entry is renamed to the alias, which is then current.
abbrev pub IsAliased : Text → Text → Node → Node → Type 0
IsAliased alias name root root' =
    (get_current_context root' ≡ ok alias)
    × (get_kswitch_context root' ≡ ok alias)
    × ((e : Node) × (context_node alias root' ≡ ok e))
    × ((d : Text) → name ≢ d → alias ≢ d → context_node d root' ≡ context_node d root)
