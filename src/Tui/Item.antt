-- ===== src/Tui/Item.antt =====
-- The data of pkg/tui: the list items, what the TUI takes from other packages, and its state
-- (model.go, with the key names of `Update`).
use kswitch.Prelude.{ℕ, Text, Bool, Option, List, ◌<◌, length, All}
use kswitch.Prelude.Dict.{Dict}

pub record Item : Type 0 where
  pub display_name : Text
  pub dim_suffix : Text
  pub context_name : Text
  pub path : Text
  pub tags : Dict Text
  pub store_id : Text
  pub matched_indexes : List ℕ
  pub depth : ℕ
  pub parent_path : Text
  pub is_loading : Bool
  pub expanded : Bool
  pub expanded_empty : Bool

-- A result of fuzzy.Find.
pub record Match : Type 0 where
  pub index : ℕ
  pub indexes : List ℕ

-- What pkg/tui takes from elsewhere: the text input of bubbles (its value, and what a key press and
-- a paste make of it), github.com/sahilm/fuzzy, and unicode.ToLower on a character.
pub record Env : Type 1 where
  pub Input : Type 0
  pub input_value : Input → Text
  pub set_value : Text → Input → Input
  pub press : Text → Input → Input
  pub paste : Text → Input → Input
  pub find : Text → List Text → List Match
  pub lower : ℕ → ℕ

-- fuzzy.Find documents that a match holds the index of the matched string in the given list.
abbrev pub FindsIndexes : Env → Type 0
FindsIndexes env =
    (query : Text) (names : List Text) → All (λ m. m.index < length names) (env.find query names)

-- The in-memory store of sub-clusters, a k0smotronStore.
pub record SubStore : Type 0 where
  pub id : Text
  pub kubeconfigs : Dict Text

pub record ExpandResult : Type 0 where
  pub parent_path : Text
  pub children : List Item
  pub store : Option SubStore
  pub failed : Bool

pub record Model (env : Env) : Type 0 where
  pub show_preview : Bool
  pub input : env.Input
  pub query : Text
  pub all_items : List Item
  pub filtered : List Item
  pub cursor : ℕ
  pub view_offset : ℕ
  pub preview_content : Text
  pub preview_for_path : Text
  pub loading : Bool
  pub aborted : Bool
  pub selected : Option Item
  pub width : ℕ
  pub height : ℕ
  pub dynamic_stores : Dict SubStore

pub data Msg : Type 0 where
  window_size : ℕ → ℕ → Msg
  items_found : List Item → Msg
  discovery_done : Msg
  preview : Text → Text → Msg
  expand_result : ExpandResult → Msg
  pasted : Text → Msg
  key : Text → Msg
  other : Msg

-- What `Update` asks the runtime to do.
pub data Cmd : Type 0 where
  quit typing : Cmd
  fetch_preview expand : Item → Cmd
