-- ===== src/Search/Worker/Tests.antt =====
-- Two searches of a store with two kubeconfigs and a path that cannot be read, and a search of two
-- stores of which one is optional and not there. A kubeconfig here is the name of its only context.
use kswitch.Prelude.{
  Text, text, ◌==◌, ◌≡◌, refl, true, false, not, ◌&&◌, ◌||◌, if◌then◌else◌, length, Option, none,
  some, [], ◌∷◌, keep_if,
}
use kswitch.Prelude.Dict.{Dict, read}
use kswitch.Prelude.Go.{ok}
use kswitch.Alias.{Disk, load}
use kswitch.Search.{Store, KubeConfig, path_found, search_error}
use kswitch.Search.Index.{
  Index, IndexFiles, new_index, get_content, read_from_index, write_index, should_read_from_index,
  has_kind, env_and_flag,
}
use kswitch.Search.Index.Fresh.{within, refresh_span, read_from_index-write_index}
use kswitch.Search.Worker.{
  search_index, search_live, nothing_remembered, index_of, outcome, emit, emit_names,
  display_aliases, store_aliases, split_comma, prefixed_names, get_context_for_alias, is_optional,
}
use kswitch.Search.Worker.Found.{at_name}
use kswitch.Search.Worker.Recall.{context_names, sent_again, search_index-search_live}
use kswitch.Search.Channel.{
  Running, Request, start_store, start_stores, do_search, Inevitably, pending,
}
use kswitch.Search.Channel.Closes.{IsFinished, do_search-IsFinished}

abbrev parse : Text → Option KubeConfig
parse name = some (record {
  current_context = [];
  contexts = record { name = name; cluster = text "d" } ∷ [];
  clusters = [];
})

abbrev unmarshal : Text → Option (Option (Dict Text))
unmarshal t = none

abbrev kubeconfig_for : Text → Option Text
kubeconfig_for path = if path == text "locked" then none else some path

abbrev store : Store
store = record {
  id = text "vault.default";
  kind = text "vault";
  verifies = true;
  required = none;
  refresh_index_after = some 100;
  get_context_prefix = λ path. text "v";
  get_kubeconfig_for_path = λ path tags. kubeconfig_for path;
  search =
      path_found (text "a") []
      ∷ path_found (text "locked") []
      ∷ path_found (text "b") ((text "aliases", text "x,y") ∷ [])
      ∷ search_error
      ∷ [];
}

abbrev absent : Store
absent = record store { verifies = false; required = some false }

abbrev disk : Disk
disk = record { aliases = none; legacy = none }

abbrev no_files : IndexFiles
no_files = record { index = none; state = none }

abbrev request : Request
request = record {
  now = 50;
  no_index = false;
  force_index = false;
  refresh_index_after = none;
  index_files = λ id. no_files;
  disk = disk;
}

named_once :
    keep_if (λ n. n == text "v/b") (context_names parse unmarshal store store.search)
    ≡ text "v/b" ∷ []
unfolding context_names outcome prefixed_names ◌==◌ is_optional
named_once = refl

-- The later search has an alias of its own for the context.
abbrev renamed : Dict Text
renamed = (text "v/b", text "z") ∷ []

search_index-search_live_example :
    (at_name (text "v/b") (
        search_index store renamed (
          some (
            index_of store
              (search_live parse unmarshal store [] (nothing_remembered disk) store.search).1)))
      ≡ sent_again renamed (
          at_name
            (text "v/b")
            (search_live parse unmarshal store [] (nothing_remembered disk) store.search).0))
    × (at_name (text "v/b") (
          search_index store [] (
            some (
              index_of store
                (search_live parse unmarshal store [] (nothing_remembered disk) store.search).1)))
        ≡ at_name
            (text "v/b")
            (search_live parse unmarshal store [] (nothing_remembered disk) store.search).0)
search_index-search_live_example =
    search_index-search_live parse unmarshal store [] renamed disk store.search (text "v/b")
      named_once

-- Both aliases are sent.
two_aliases :
    length (
      at_name
        (text "v/b")
        (search_live parse unmarshal store [] (nothing_remembered disk) store.search).0)
    ≡ 2
unfolding search_live outcome prefixed_names ◌==◌ emit_names emit display_aliases store_aliases
    split_comma get_context_for_alias read
two_aliases = refl

read_from_index-write_index_example :
    (index : Index) × (new_index (write_index 10 store ((text "c", text "a") ∷ []) [] no_files)
      ≡ ok (some index))
    × (get_content (some index) ≡ (((text "c", text "a") ∷ []), []))
    × (read_from_index 50 false false
          (some index)
          store
          none
          (write_index 10 store ((text "c", text "a") ∷ []) [] no_files)
        ≡ ok (
            not false
            && (false
                || (not (store.id == env_and_flag) && within 50 10 (refresh_span store none)))))
read_from_index-write_index_example =
    read_from_index-write_index 10 50 store ((text "c", text "a") ∷ []) [] no_files false false none

abbrev run : Running
run = record {
  counter = 1;
  workers = (search_live parse unmarshal store [] (nothing_remembered disk) store.search).0 ∷ [];
  received = [];
  closed = false;
  panicked = false;
}

runs : do_search parse unmarshal request (store ∷ absent ∷ []) ≡ ok run
unfolding do_search start_stores start_store load new_index read_from_index should_read_from_index
    has_kind is_optional ◌==◌
runs = refl

do_search-IsFinished_example : Inevitably (IsFinished (pending run.workers)) run
do_search-IsFinished_example =
    do_search-IsFinished parse unmarshal request (store ∷ absent ∷ []) run runs
