-- ===== src/Search/Index.antt =====
-- pkg/index/index.go and types/index.go: the index of a store, in two files of the state directory.
-- A file that was written is read back as the value that was written, which is the YAML package's
-- part. Times are nanoseconds.
pub mod Fresh
use kswitch.Prelude.{
  ℕ, ◌+◌, Text, text, ◌==◌, Bool, true, false, not, ◌&&◌, ◌||◌, if◌then◌else◌, ltb, Option, none,
  some, List, [], ◌∷◌,
}
use kswitch.Prelude.Dict.{Dict}
use kswitch.Prelude.Go.{Go, ok, err, panic, hang, ◌>>=◌}
use kswitch.Search.{Store}

pub record Index : Type 0 where
  pub kind : Text
  pub context_to_path_mapping : Dict Text
  pub context_to_tags : Dict (Dict Text)

pub record IndexState : Type 0 where
  pub kind : Text
  pub last_update_time : ℕ

pub data File (A : Type 0) : Type 0 where
  content : A → File A
  empty unreadable : File A

-- The two files of a store; `none` is a file that does not exist.
pub record IndexFiles : Type 0 where
  pub index : Option (File Index)
  pub state : Option (File IndexState)

pub data Error : Type 0 where
  unreadable_index unreadable_state required_store bad_aliases missing_index : Error

load_file : {A : Type 0} → A → Error → Option (File A) → Go Error (Option A)
load_file zero_ e none = ok none
load_file zero_ e (some (content a)) = ok (some a)
load_file zero_ e (some empty) = ok (some zero_)
load_file zero_ e (some unreadable) = err e

-- New, as far as the content: an index that does not exist is none.
unfoldable pub new_index : IndexFiles → Go Error (Option Index)
unfolding load_file
new_index files =
    load_file (record { kind = []; context_to_path_mapping = []; context_to_tags = [] })
      unreadable_index files.index

unfoldable pub get_index_state : IndexFiles → Go Error (Option IndexState)
unfolding load_file
get_index_state files =
    load_file (record { kind = []; last_update_time = 0 }) unreadable_state files.state

-- HasContent and HasKind
unfoldable pub has_kind : Option Index → Text → Bool
has_kind none kind = false
has_kind (some index) kind = index.kind == kind

unfoldable pub get_content : Option Index → Dict Text × Dict (Dict Text)
get_content none = ([], [])
get_content (some index) = (index.context_to_path_mapping, index.context_to_tags)

or_global : Option ℕ → Option ℕ → Option ℕ
or_global none global = global
or_global (some local) global = some local

is_before : ℕ → IndexState → Option ℕ → Bool
is_before now state none = false
is_before now state (some refresh_after) = ltb now (state.last_update_time + refresh_after)

state_allows : ℕ → Text → Option ℕ → Option IndexState → Bool
state_allows now kind refresh_after none = false
state_allows now kind refresh_after (some state) =
    if not (state.kind == kind) then false else is_before now state refresh_after

-- `global` is the configuration's RefreshIndexAfter, none too if there is no configuration.
unfoldable pub should_be_used : ℕ → Text → Option ℕ → Option ℕ → IndexFiles → Go Error Bool
unfolding state_allows is_before or_global
should_be_used now kind global local files =
    get_index_state files >>= λ state. ok (state_allows now kind (or_global local global) state)

abbrev pub env_and_flag : Text
env_and_flag = text "filesystem.env-and-flag"

-- shouldReadFromIndex of pkg/search.go
unfoldable pub should_read_from_index :
    ℕ → Option Index → Store → Option ℕ → IndexFiles → Go Error Bool
should_read_from_index now index store global files =
    if store.id == env_and_flag
    then ok false
    else if has_kind index store.kind
    then should_be_used now store.kind global store.refresh_index_after files
    else ok false

-- The decision in doSearch.
unfoldable pub read_from_index :
    ℕ → Bool → Bool → Option Index → Store → Option ℕ → IndexFiles → Go Error Bool
read_from_index now no_index force_index index store global files =
    if no_index
    then ok false
    else if force_index && has_kind index store.kind
    then ok true
    else should_read_from_index now index store global files

-- writeIndex of pkg/main.go, with Write and WriteState, where the files can be written.
unfoldable pub write_index : ℕ → Store → Dict Text → Dict (Dict Text) → IndexFiles → IndexFiles
write_index now store paths tags files = record {
  index = some (
      content
        (record { kind = store.kind; context_to_path_mapping = paths; context_to_tags = tags }));
  state = some (content (record { kind = store.kind; last_update_time = now }));
}

removed : Option (File Index) → Go Error IndexFiles
removed none = err missing_index
removed (some index) = ok (record { index = none; state = none })

-- Delete: nothing where there is no state file, and an error where there is no index.
unfoldable pub delete_index : IndexFiles → Go Error IndexFiles
unfolding removed
delete_index files = elim files.state [ none ↦ ok files | some state ↦ removed files.index ]
