-- ===== src/Namespaces.antt =====
-- pkg/subcommands/ns: the namespaces that are offered for the current context, the file that
-- remembers them (ns_index.go) and the switch to one (ns.go). The cluster's answer is an argument,
-- `none` for an error; sets.String.List of the Kubernetes libraries is a parameter. That files can be
-- written is assumed, and a kubeconfig is its root.
pub mod Listing
pub mod Switching
pub mod Tests
use kswitch.Prelude.{
  ℕ, Text, text, Bool, true, false, not, if◌then◌else◌, is_empty, is_elem, get_elem?, Option, none,
  some, List, [], ◌∷◌, ◌++◌, keep_if, nat_eq,
}
use kswitch.Prelude.Dict.{Dict, read, assign}
use kswitch.Prelude.Go.{Go, ok, err, ◌>>=◌, ◌>>◌}
use kswitch.Kubeconfig.Node.{Node, Error as DocumentError}
use kswitch.Kubeconfig.Fields.{get_kswitch_context}
use kswitch.Kubeconfig.Contexts.{set_namespace_for_current_context}
use kswitch.History.{newline, read_history, append_to_history}

-- The name of the file of a context, and its content; `none` is a file that does not exist.
unfoldable pub file_name : Text → Text
file_name context = keep_if (λ c. not (nat_eq c b'/')) context

unfoldable pub write_lines : List Text → Text
write_lines [] = []
write_lines (namespace ∷ namespaces) = namespace ++ newline ∷ write_lines namespaces

-- loadFromFile puts each line before those read so far, as the reader of the history does.
unfoldable pub load_from_file : Option Text → List Text
load_from_file none = []
load_from_file (some file) = read_history file

-- What the file of a context says; with no context, or without an index, there is no file.
unfoldable pub cached_namespaces : Text → Bool → Dict Text → List Text
cached_namespaces context no_index files =
    if is_empty context
    then []
    else if no_index
    then []
    else load_from_file (read files (file_name context))

unfoldable pub write_namespaces : Text → Bool → List Text → Dict Text → Dict Text
write_namespaces context no_index namespaces files =
    if is_empty context
    then files
    else if no_index
    then files
    else assign files (file_name context) (write_lines namespaces)

module _ (set_list : List Text → List Text) where
  -- Those that are left, and then those that are new.
  unfoldable pub reconcile : List Text → List Text → List Text
  reconcile cached real =
      keep_if (λ n. is_elem n real) cached ++ keep_if (λ n. not (is_elem n cached)) (set_list real)

  unfoldable pub refresh_namespaces_from_cluster : Option (List Text) → List Text → List Text
  refresh_namespaces_from_cluster none cached = cached
  refresh_namespaces_from_cluster (some real) cached = reconcile cached real

  -- ListNamespaces: an error of the cluster is one, and nothing is listed with no context.
  listed : Text → Bool → Dict Text → Option (List Text) → Option (List Text × Dict Text)
  listed context no_index files none = none
  listed context no_index files (some real) =
      let namespaces = reconcile (cached_namespaces context no_index files) real in
      some (namespaces, write_namespaces context no_index namespaces files)

  unfoldable pub list_namespaces :
      Text → Bool → Dict Text → Option (List Text) → Option (List Text × Dict Text)
  unfolding listed
  list_namespaces context no_index files cluster =
      if is_empty context then some ([], files) else listed context no_index files cluster

-- What a switch changes.
pub record State : Type 0 where
  pub kubeconfig : Node
  pub history : Text
  pub files : Dict Text

pub data Error : Type 0 where
  invalid_selection : Error
  no_namespace_set : DocumentError → Error

recorded : Text → Bool → Text → List Text → State → Node → State
recorded context no_index namespace namespaces s root =
    if is_empty context then record s { kubeconfig = root } else record {
      kubeconfig = root;
      history = append_to_history context namespace s.history;
      files = write_namespaces context no_index namespaces s.files;
    }

written : Text → Bool → Text → List Text → State → Go DocumentError Node → Go Error State
unfolding recorded
written context no_index namespace namespaces s (ok root) =
    ok (recorded context no_index namespace namespaces s root)
written context no_index namespace namespaces s (err e) = err (no_namespace_set e)
written context no_index namespace namespaces s Go.panic = Go.panic
written context no_index namespace namespaces s Go.hang = Go.hang

selected : Text → Bool → List Text → State → Option Text → Go Error State
unfolding written
selected context no_index namespaces s none = err invalid_selection
selected context no_index namespaces s (some namespace) =
    written context no_index namespace namespaces s
      (set_namespace_for_current_context namespace s.kubeconfig)

-- SwitchNamespace, after the list has given the index of what was chosen: the context is the
-- kswitch-context of the kubeconfig.
unfoldable pub switch_namespace :
    (List Text → List Text) → Text → Bool → Option (List Text) → ℕ → State → Go Error State
unfolding selected
switch_namespace set_list context no_index cluster idx s =
    let namespaces =
      refresh_namespaces_from_cluster set_list cluster
        (cached_namespaces context no_index s.files) in
    selected context no_index namespaces s (get_elem? namespaces idx)
