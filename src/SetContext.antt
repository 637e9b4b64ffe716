-- ===== src/SetContext.antt =====
-- pkg/subcommands/set-context/set_context.go: the first context of the search that is meant, and its
-- kubeconfig with the context set. That the temporary file and the history file can be written is
-- assumed.
pub mod Prefix
pub mod Tests
use kswitch.Prelude.{
  Text, text, ◌==◌, Bool, true, false, ◌||◌, if◌then◌else◌, is_empty, Option, none, some, List, [],
  ◌∷◌,
}
use kswitch.Prelude.Go.{Go, ok, err, panic, hang, ◌>>=◌}
use kswitch.Kubeconfig.Node.{Node, Error as DocumentError}
use kswitch.Kubeconfig.Open.{new_kubeconfig}
use kswitch.Kubeconfig.Fields.{set_kswitch_context, get_current_context}
use kswitch.Kubeconfig.Contexts.{
  without_prefix, namespace_of_context, set_context as set_document_context,
}
use kswitch.History.{append_to_history}
use kswitch.Search.{DiscoveredContext}
use kswitch.Search.Worker.{Message, found, failed}

pub data Error : Type 0 where
  not_found not_found_with_errors not_retrieved : Error
  of_kubeconfig : DocumentError → Error

raised : {A : Type 0} → Go DocumentError A → Go Error A
raised (ok a) = ok a
raised (err e) = err (of_kubeconfig e)
raised panic = panic
raised hang = hang

-- The name in the kubeconfig.
unfoldable pub context_without_prefix : DiscoveredContext → Text
context_without_prefix dc = without_prefix (dc.store.get_context_prefix dc.path) dc.name

unfoldable pub is_meant : Text → DiscoveredContext → Bool
is_meant desired dc =
    desired == dc.name || desired == context_without_prefix dc || desired == dc.alias

not_found_error : Bool → Error
not_found_error errors = if errors then not_found_with_errors else not_found

-- The loop over the search's channel.
unfoldable pub find_context : Text → Bool → List Message → Go Error DiscoveredContext
unfolding not_found_error
find_context desired errors [] = err (not_found_error errors)
find_context desired errors (failed ∷ messages) = find_context desired true messages
find_context desired errors (found dc ∷ messages) =
    let later = find_context desired errors messages in if is_meant desired dc then ok dc else later

-- What the command leaves: the kubeconfig in the temporary file, and the history file.
pub record Switched : Type 0 where
  pub kubeconfig : Node
  pub history : Text

module _ (unmarshal : Text → Option Node) where
  opened : Option Text → Go Error Node
  opened none = err not_retrieved
  opened (some bytes) = raised (new_kubeconfig unmarshal bytes)

  edited : Text → DiscoveredContext → Node → Go DocumentError Node
  edited desired dc root =
      set_document_context (context_without_prefix dc)
        (if is_empty dc.alias then [] else context_without_prefix dc)
        (dc.store.get_context_prefix dc.path) root
      >>= set_kswitch_context desired

  recorded : Text → Bool → Text → Node → Go Error Switched
  recorded desired append history root =
      if append
      then (raised (get_current_context root >>= λ current. namespace_of_context current root)
          >>= λ namespace.
              ok (record {
                kubeconfig = root;
                history = append_to_history desired namespace history;
              }))
      else ok (record { kubeconfig = root; history = history })

  unfoldable pub switch_to : Text → Bool → Text → DiscoveredContext → Go Error Switched
  unfolding opened edited recorded raised
  switch_to desired append history dc =
      opened (dc.store.get_kubeconfig_for_path dc.path dc.tags) >>= λ root.
      raised (edited desired dc root) >>= recorded desired append history

  unfoldable pub set_context : Text → Bool → Text → List Message → Go Error Switched
  set_context desired append history messages =
      find_context desired false messages >>= switch_to desired append history
