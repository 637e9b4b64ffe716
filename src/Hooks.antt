-- ===== src/Hooks.antt =====
-- pkg/subcommands/hooks/hooks.go and pkg/state/state.go. A time is a number of nanoseconds since the
-- zero time of Go. The clock is read once in a run. The state directory maps a hook's name to its
-- state file; what a command prints, and whether it fails, is left out.
pub mod Due
pub mod Commands
pub mod Tests
use kswitch.Prelude.{
  ℕ, suc, ◌+◌, Text, text, ◌==◌, Bool, true, false, not, ◌&&◌, ◌||◌, if◌then◌else◌, ltb, is_empty,
  Option, none, some, List, [], ◌∷◌, ◌++◌, keep_if,
}
use kswitch.Prelude.Dict.{Dict, read, assign}
use kswitch.Prelude.Go.{Go, ok, err, panic, hang, ◌>>=◌}
use kswitch.Prelude.Int.{ℤ, pos, negsuc}
use kswitch.Config.{Hook, Config}

pub data Error : Type 0 where
  no_such_hook inline_without_arguments no_executable_path no_such_executable : Error

-- A state file: the time of the last execution, which is the zero time in an empty file, or a file
-- that cannot be read.
pub data StateFile : Type 0 where
  last_execution : ℕ → StateFile
  unreadable : StateFile

abbrev pub States : Type 0
States = Dict StateFile

abbrev pub has_known_type : Hook → Bool
has_known_type hook = hook.kind == text "Executable" || hook.kind == text "InlineCommand"

-- time.Now().After(t.Add(interval))
abbrev pub is_after : ℕ → ℕ → ℤ → Bool
is_after now t (pos interval) = ltb (t + interval) now
is_after now t (negsuc interval) = ltb t (now + suc interval)

state_is_due : ℕ → ℤ → Option StateFile → Bool
state_is_due now interval none = true
state_is_due now interval (some unreadable) = false
state_is_due now interval (some (last_execution t)) = is_after now t interval

interval_is_due : ℕ → Option StateFile → Option (Option ℤ) → Bool
interval_is_due now state none = false
interval_is_due now state (some none) = false
interval_is_due now state (some (some interval)) = state_is_due now interval state

unfoldable pub is_due : ℕ → States → Hook → Bool
unfolding interval_is_due state_is_due
is_due now states hook =
    has_known_type hook && interval_is_due now (read states hook.name) hook.execution

unfoldable pub get_hooks_to_be_executed : ℕ → States → List Hook → List Hook
get_hooks_to_be_executed now states = keep_if (is_due now states)

unfoldable pub get_hook_for_name : Text → List Hook → Option Hook
get_hook_for_name name [] = none
get_hook_for_name name (hook ∷ hooks) =
    let later = get_hook_for_name name hooks in if hook.name == name then some hook else later

-- The program and its arguments.
pub record Command : Type 0 where
  pub program : Text
  pub arguments : List Text

-- os.Stat finds a file at the path.
executable : (Text → Bool) → Option Text → List Text → Go Error Command
executable exists none arguments = err no_executable_path
executable exists (some path) arguments =
    if is_empty path
    then err no_executable_path
    else if not (exists path)
    then err no_such_executable
    else ok (record { program = path; arguments = arguments })

unfoldable pub execute_hook : (Text → Bool) → Hook → Go Error Command
unfolding executable
execute_hook exists hook =
    if hook.kind == text "InlineCommand"
    then (if is_empty hook.arguments
        then err inline_without_arguments
        else ok (record { program = text "bash"; arguments = text "-c" ∷ hook.arguments }))
    else executable exists hook.path hook.arguments

-- UpdateHookState
abbrev pub update_hook_state : ℕ → States → Hook → States
update_hook_state now states hook = assign states hook.name (last_execution now)

-- The loop over the hooks to be executed: the states, and each hook with its command or error.
unfoldable pub execute_all :
    (Text → Bool) → ℕ → States → List Hook → States × List (Hook × Go Error Command)
execute_all exists now states [] = (states, [])
execute_all exists now states (hook ∷ hooks) =
    let (states', ran) = execute_all exists now (update_hook_state now states hook) hooks in
    (states', (hook, execute_hook exists hook) ∷ ran)

named : Option Hook → Go Error (List Hook)
named none = err no_such_hook
named (some hook) = ok (hook ∷ [])

unfoldable pub chosen : ℕ → States → List Hook → Text → Bool → Go Error (List Hook)
unfolding named
chosen now states hooks flag_hook_name run_immediately =
    if not (is_empty flag_hook_name)
    then named (get_hook_for_name flag_hook_name hooks)
    else ok (if run_immediately then hooks else get_hooks_to_be_executed now states hooks)

unfoldable pub configured : {Raw : Type 0} → Option (Config Raw) → List Hook
configured none = []
configured (some config) = config.hooks

unfoldable pub run_hooks :
    {Raw : Type 0}
    → (Text → Bool)
    → ℕ
    → States
    → Option (Config Raw)
    → Text
    → Bool
    → Go Error (States × List (Hook × Go Error Command))
unfolding configured
run_hooks exists now states config flag_hook_name run_immediately =
    if is_empty (configured config)
    then ok (states, [])
    else (chosen now states (configured config) flag_hook_name run_immediately >>= λ hooks.
        ok (execute_all exists now states hooks))
