-- ===== src/Lib.antt =====
-- kswitch switches between the contexts of many kubeconfig files: it searches stores for
-- kubeconfigs, lets the user pick a context in a terminal list, writes a copy of the kubeconfig with
-- that context current, and edits kubeconfigs in place. This library models those parts of it that
-- decide something, as functions on the data the program works on.
--
-- The parts, and where they are:
-- - Prelude: texts as lists of characters, and how a Go call ends (`Go`: it returns, it returns an
--   error, it panics, or it runs for ever), association lists for maps, signed integers, prefixes
--   of texts.
-- - Kubeconfig: pkg/util/kubectx_copied. Node.antt is the node of gopkg.in/yaml.v3 with `valueOf`;
--   Fields.antt the scalar fields of a document (contextmodify.go, contexts.go, kubeconfig.go);
--   Contexts.antt its contexts, their names and namespaces (contexts.go, contextmodify.go,
--   namespace.go); Remove.antt `RemoveContext` with the removal of orphaned clusters and users. A
--   document is a tree, and an edit through a pointer into it is a function that gives the tree with
--   the node replaced.
-- - Merge: pkg/subcommands/merge-to-default/merge.go, the merge of two documents.
-- - Tui: pkg/tui. Item.antt is the data and the state `Model`; Fuzzy.antt `filterItems` and
--   `improveMatchPositions` (fuzzy.go); Cursor.antt, Tree.antt and Update.antt the methods of the
--   state and `Update`, one message at a time (model.go), and `selectionFor` (run.go).
-- - History: pkg/subcommands/history, the file of the recorded entries (util/util.go) and which entry
--   the commands that go back switch to (history.go).
-- - Search: the contexts that a search discovers (pkg/search.go) and the filters that prune them
--   before they are shown (pkg/context_filters.go). Index.antt is the index of a store
--   (pkg/index/index.go); Worker.antt what the goroutine of a store sends, from its index or from a
--   live search; Channel.antt `doSearch`, with its goroutines as a step relation in which a
--   send to the closed channel and a Done too many panic.
-- - Config: types/config.go, types/config-old.go and types/hooks.go, with the migration of an old
--   configuration (pkg/config/migration/migrate.go) and the validation
--   (pkg/config/validation/validation.go, pkg/store/gardener/validation.go, pkg/store/gke/validation.go).
-- - Hooks: pkg/subcommands/hooks/hooks.go, which hooks are run, how, and the states that a run writes
--   (pkg/state/state.go).
-- - Alias: pkg/subcommands/alias, the directory with one file for each alias (state/alias.go) and
--   `RemoveAlias` (alias.go).
-- - Gardener: the identifiers of Gardener clusters (pkg/store/gardener/util.go) and the names shown
--   for a cluster (pkg/tui/display.go).
-- - SetContext, ListContexts and Exec: pkg/subcommands/set-context/set_context.go,
--   pkg/subcommands/list-contexts/list-contexts.go and the command line of
--   pkg/subcommands/exec/exec.go.
-- - Switcher: pkg/main.go, from the results of a search to the items, and from the chosen item to the
--   kubeconfig.
-- - Namespaces: pkg/subcommands/ns, the namespaces that are offered and remembered, and the switch to
--   one.
-- - Sanitize: the redaction of a kubeconfig that is shown (pkg/util/util.go, types/type.go).
-- - Filesystem and KindClusters: the paths of pkg/store/kubeconfig_store_file.go and the walk through a
--   directory; and the clusters of
--   pkg/store/kubeconfig_store_kind.go.
-- - Kubernetes: pkg/store/kubeconfig_store_kubernetes.go, the store that reads kubeconfigs from secrets.
--   Api.antt is its search and retrieval, Peers.antt the reference to the cluster of another store,
--   Peers/Setup.antt `ResolvePeerStoresForAll`.
-- - CloudStores: Gke.antt, Eks.antt and Azure.antt are pkg/store/kubeconfig_store_gke.go,
--   kubeconfig_store_eks.go and kubeconfig_store_azure.go, Vault.antt kubeconfig_store_vault.go (its
--   traversal takes fuel for the depth of the directories); CloudStores.antt is what the first share.
-- - FileCache and MemoryCache: pkg/cache/file/fileCache.go, and pkg/cache/memory/memoryCache.go with
--   its calls as a step relation.
-- - Registry: pkg/store/registry.go, the factories of the stores by their kind.
-- - LazyInit: pkg/store/lazy_init.go, the one-time initialisation of a store, as a step relation.
-- A search's contexts pass the filters and become the list's items; what is chosen there goes through
-- Switcher to `SetContext` of Kubeconfig, and its context and namespace to the history. ListContexts
-- and SetContext read the same results without the list.
--
-- Parameters: fuzzy.Find of github.com/sahilm/fuzzy, the text input of bubbles and the lower case of
-- a character are the fields of `Env`; the YAML package's functions are arguments or those of a record
-- `Yaml`; a store is the record `Store` of its functions, and the parser of kubeconfigs an argument;
-- the operating system is the records `System` and `Tree` in Filesystem; the untyped part of a store's
-- configuration and its readings are the record `Readings`. The clock, the test whether a file exists,
-- SHA-256, the client libraries of the cloud providers and of Kubernetes, the runs of the tool kind,
-- path.Join, path.Match, regexp.Compile, sort.Slice, sort.Strings, base64, the sorted list of a set and
-- the answer of a cluster are arguments.
--
-- Fuel: the walk up the parents in `collapseItem` has no bound in the source and takes fuel here;
-- more fuel than the items are deep is enough where the items hang together as a tree, and where
-- they do not, no fuel may be enough. The walk through a directory takes fuel for the calls that are
-- open at once: a link is entered twice before it is found to be visited, so three units are enough.
-- Vault's traversal takes as much as directories lie below one another. All other loops are structural.
--
-- Not modelled: the drawing of the list, the creation of files and most permissions, the Gardener
-- store and the other stores of cloud providers with the previews (calls of their client libraries),
-- time limits, the plugins' generated code, the copy of gardenctl, the flags of the command line.
pub mod Prelude
pub mod Kubeconfig
pub mod Merge
pub mod History
pub mod Search
pub mod Alias
pub mod Gardener
pub mod Config
pub mod Hooks
pub mod Tui
pub mod Exec
pub mod LazyInit
pub mod SetContext
pub mod ListContexts
pub mod Namespaces
pub mod Sanitize
pub mod FileCache
pub mod MemoryCache
pub mod Switcher
pub mod Filesystem
pub mod KindClusters
pub mod Kubernetes
pub mod CloudStores
pub mod Registry
