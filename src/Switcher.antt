-- ===== src/Switcher.antt =====
-- pkg/main.go: from what a search found to the items of the list, and from the item that was chosen to
-- the kubeconfig. The list itself is Tui. That the temporary file and the history file can be written
-- is assumed.
pub mod Aliased
pub mod Tests
use kswitch.Prelude.{Text, text, Bool, if◌then◌else◌, is_empty, Option, none, some, List, [], ◌∷◌}
use kswitch.Prelude.Dict.{Dict, read, assign}
use kswitch.Prelude.Go.{Go, ok, err, panic, hang, ◌>>=◌}
use kswitch.Kubeconfig.Node.{Node, Error as DocumentError}
use kswitch.Kubeconfig.Open.{new_kubeconfig}
use kswitch.Kubeconfig.Fields.{set_kswitch_context, get_current_context}
use kswitch.Kubeconfig.Contexts.{
  without_prefix, namespace_of_context, set_context as set_document_context,
}
use kswitch.History.{append_to_history}
use kswitch.Search.{DiscoveredContext, Store}
use kswitch.Search.Worker.{get_context_for_alias}

-- kindToStore: a later store takes the place of an earlier one with its ID.
unfoldable pub stores_by_id : Dict Store → List Store → Dict Store
stores_by_id known [] = known
stores_by_id known (store ∷ stores) = stores_by_id (assign known store.id store) stores

-- aliasToContext, over the contexts that passed the filters.
unfoldable pub alias_to_context : Dict Text → List DiscoveredContext → Dict Text
alias_to_context known [] = known
alias_to_context known (dc ∷ contexts) =
    alias_to_context (if is_empty dc.alias then known else assign known dc.alias dc.name) contexts

-- What the list returns.
pub record Chosen : Type 0 where
  pub kubeconfig_path : Text
  pub selected_context : Text
  pub store_id : Text
  pub tags : Dict Text
  pub dynamic_store : Option Store

-- What the list returns where the item of a context was chosen.
unfoldable pub chosen_item : DiscoveredContext → Chosen
chosen_item dc = record {
  kubeconfig_path = dc.path;
  selected_context = if is_empty dc.alias then dc.name else dc.alias;
  store_id = dc.store.id;
  tags = dc.tags;
  dynamic_store = none;
}

pub data Error : Type 0 where
  no_store not_retrieved : Error
  of_kubeconfig : DocumentError → Error

found_store : Option Store → Go Error Store
found_store none = err no_store
found_store (some store) = ok store

unfoldable pub resolve_store : Dict Store → Text → Option Store → Go Error Store
unfolding found_store
resolve_store stores store_id (some store) = ok store
resolve_store stores store_id none = found_store (read stores store_id)

-- The kubeconfig that is written, the context that is returned, and the history file. The kubeconfig is
-- written first, so a panic on the way to the history is the outcome of the history alone.
pub record Result : Type 0 where
  pub kubeconfig : Node
  pub context : Text
  pub history : Go Error Text

raised : {A : Type 0} → Go DocumentError A → Go Error A
raised (ok a) = ok a
raised (err e) = err (of_kubeconfig e)
raised panic = panic
raised hang = hang

module _ (unmarshal : Text → Option Node) (aliases : Dict Text) where
  opened : Option Text → Go Error Node
  opened none = err not_retrieved
  opened (some bytes) = raised (new_kubeconfig unmarshal bytes)

  -- An error of the namespace leaves the history as it is; a panic is kept.
  with_namespace_of : Text → Text → Go DocumentError Text → Go Error Text
  with_namespace_of context history (ok namespace) =
      ok (append_to_history context namespace history)
  with_namespace_of context history (err e) = ok history
  with_namespace_of context history panic = panic
  with_namespace_of context history hang = hang

  finished : Chosen → Text → Text → Go DocumentError Node → Go Error Result
  finished chosen selected history (ok root) = ok (record {
    kubeconfig = root;
    context = selected;
    history =
        with_namespace_of chosen.selected_context history
          (get_current_context root >>= λ current. namespace_of_context current root);
  })
  finished chosen selected history (err e) = err (of_kubeconfig e)
  finished chosen selected history panic = panic
  finished chosen selected history hang = hang

  set_chosen : Chosen → Text → Store → Node → Go Error Result
  set_chosen chosen history store root =
      let prefix = store.get_context_prefix chosen.kubeconfig_path in
      let selected = without_prefix prefix chosen.selected_context in
      finished chosen selected history (
        set_document_context selected (get_context_for_alias selected aliases) prefix root
        >>= set_kswitch_context chosen.selected_context)

  -- Switcher, after the list has returned.
  unfoldable pub switch_chosen : Dict Store → Text → Chosen → Go Error Result
  unfolding opened raised set_chosen finished with_namespace_of
  switch_chosen stores history chosen =
      resolve_store stores chosen.store_id chosen.dynamic_store >>= λ store.
      opened (store.get_kubeconfig_for_path chosen.kubeconfig_path chosen.tags)
      >>= set_chosen chosen history store
