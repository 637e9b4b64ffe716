-- ===== src/SetContext/Prefix.antt =====
-- The context that is set is the one of the kubeconfig which the search found.
use kswitch.Prelude.{
  Text, text, ◌==◌, ◌≡◌, refl, ap, ◌∙◌, Bool, false, Bool-cases, inl, inr, if◌then◌else◌, Option,
  some, List, [], ◌∷◌, ◌++◌, append_assoc, arith,
}
use kswitch.Prelude.Strings.{has_prefix-append, trim_prefix-append}
use kswitch.Prelude.Go.{ok, ◌>>=◌}
use kswitch.Kubeconfig.Node.{Node}
use kswitch.Kubeconfig.Node.Laws.{IsMapping}
use kswitch.Kubeconfig.Open.{new_kubeconfig}
use kswitch.Kubeconfig.Fields.{
  set_kswitch_context, modify_kswitch_context, modify_current_context, get_current_context,
  get_kswitch_context,
}
use kswitch.Kubeconfig.Fields.Laws.{modify_field-Written}
use kswitch.Kubeconfig.Contexts.{
  without_prefix, namespace_of_context, context_node, set_context as set_document_context,
}
use kswitch.Kubeconfig.Contexts.Rename.{contexts_kept}
use kswitch.History.{append_to_history}
use kswitch.Search.{DiscoveredContext}
use kswitch.Search.Worker.{Message, with_prefix}
use kswitch.SetContext.{
  Switched, context_without_prefix, find_context, switch_to, set_context, opened, edited, recorded,
  raised,
}

-- The prefix that the search puts before a name is cut off again.
pub without_prefix-with_prefix :
    (prefix name : Text) → without_prefix prefix (with_prefix prefix name) ≡ name
unfolding without_prefix with_prefix
without_prefix-with_prefix [] name = refl
without_prefix-with_prefix (p ∷ prefix) name =
    rw
      (append_assoc (p ∷ prefix) (text "/") name, has_prefix-append (p ∷ prefix) (text "/" ++ name))
      (rw⁻¹ (append_assoc (p ∷ prefix) (text "/") name)
        (trim_prefix-append ((p ∷ prefix) ++ text "/") name))

-- What the kubeconfig says after `SetContext`, of its two current contexts and of all its contexts.
abbrev pub IsSwitched : Text → Text → Node → Node → Type 0
IsSwitched desired name root root' =
    (get_current_context root' ≡ ok name)
    × (get_kswitch_context root' ≡ ok desired)
    × ((d : Text) → context_node d root' ≡ context_node d root)

-- The edit of a document, without an alias.
edited_lem :
    (desired name prefix : Text) (root : Node)
    → IsMapping root
    → (root' : Node) × ((set_document_context name [] prefix root >>= set_kswitch_context desired)
        ≡ ok root')
      × IsSwitched desired name root root'
unfolding set_kswitch_context modify_kswitch_context get_kswitch_context get_current_context ◌==◌
    set_document_context modify_current_context
edited_lem desired name prefix root m =
    let (r1, e1, w1) = modify_field-Written (text "current-context") name root m in
    let (r2, e2, w2) = modify_field-Written (text "kswitch-context") desired r1 w1.is_mapping in
    (
      r2,
      rw e1 e2,
      (
        w2.reads _ ∙ w1.reads _,
        w2.reads _,
        λ d.
            contexts_kept d r1 r2 (w2.others _ (λ e. ground arith))
            ∙ contexts_kept d root r1 (w1.others _ (λ e. ground arith)),
      ),
    )

namespace_kept :
    (name : Text) (root root' : Node)
    → ((d : Text) → context_node d root' ≡ context_node d root)
    → namespace_of_context name root' ≡ namespace_of_context name root
unfolding namespace_of_context
namespace_kept name root root' same = rw (same name)

ran :
    (unmarshal : Text → Option Node) (desired : Text) (append : Bool) (history : Text)
    (messages : List Message) (dc : DiscoveredContext) (name bytes namespace : Text)
    (root root' : Node)
    → find_context desired false messages ≡ ok dc
    → without_prefix (dc.store.get_context_prefix dc.path) dc.name ≡ name
    → dc.alias ≡ []
    → dc.store.get_kubeconfig_for_path dc.path dc.tags ≡ some bytes
    → new_kubeconfig unmarshal bytes ≡ ok root
    → (set_document_context name [] (dc.store.get_context_prefix dc.path) root
        >>= set_kswitch_context desired)
      ≡ ok root'
    → get_current_context root' ≡ ok name
    → namespace_of_context name root' ≡ ok namespace
    → set_context unmarshal desired append history messages
      ≡ ok (record {
        kubeconfig = root';
        history = if append then append_to_history desired namespace history else history;
      })
unfolding set_context switch_to context_without_prefix opened edited recorded raised
ran unmarshal desired append history messages dc name bytes namespace root root' first cut no_alias
      fetched parsed runs current ns =
    rw first (
      simp (fetched, parsed, no_alias, cut, runs)
        (elim (Bool-cases append) [
          | inl yes_ ↦ simp (yes_, current, ns) (refl)
          | inr no_ ↦ simp (no_) (refl)
        ]))

-- Let the search's first context that is meant be one which a store found under its prefix, without an
-- alias. If its kubeconfig can be retrieved and parsed to a mapping that gives the context a namespace,
-- then the command succeeds: the current context of what it writes is the name without the prefix, its
-- kswitch context is the name that was asked for, every context is looked up as before, and the history
-- gets an entry with that namespace if it is to get one, and is the same if not.
pub set_context-IsSwitched :
    (unmarshal : Text → Option Node) (desired : Text) (append : Bool) (history : Text)
    (messages : List Message) (dc : DiscoveredContext) (name bytes namespace : Text) (root : Node)
    → find_context desired false messages ≡ ok dc
    → dc.name ≡ with_prefix (dc.store.get_context_prefix dc.path) name
    → dc.alias ≡ []
    → dc.store.get_kubeconfig_for_path dc.path dc.tags ≡ some bytes
    → new_kubeconfig unmarshal bytes ≡ ok root
    → IsMapping root
    → namespace_of_context name root ≡ ok namespace
    → (s : Switched) × (set_context unmarshal desired append history messages ≡ ok s)
      × IsSwitched desired name root s.kubeconfig
      × (s.history ≡ (if append then append_to_history desired namespace history else history))
unfolding set_context switch_to context_without_prefix
set_context-IsSwitched unmarshal desired append history messages dc name bytes namespace root first
      prefixed no_alias fetched parsed m ns =
    let prefix = dc.store.get_context_prefix dc.path in
    let cut : without_prefix prefix dc.name ≡ name =
      ap (without_prefix prefix) prefixed ∙ without_prefix-with_prefix prefix name in
    let (root', runs, switched) = edited_lem desired name prefix root m in
    let later = namespace_kept name root root' switched.2 ∙ ns in
    (
      record {
        kubeconfig = root';
        history = if append then append_to_history desired namespace history else history;
      },
      ran unmarshal desired append history messages dc name bytes namespace root root' first cut
          no_alias fetched parsed runs switched.0 later,
      switched,
      refl,
    )
