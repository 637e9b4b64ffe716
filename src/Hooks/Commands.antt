-- ===== src/Hooks/Commands.antt =====
-- The commands of hooks that were validated.
use kswitch.Prelude.{
  ℕ, zero, suc, Text, text, ◌==◌, ==_iff, ◌≡◌, ◌⊎◌, refl, sym, Bool, true, false, not, ◌&&◌,
  Bool-cases, inl, inr, if◌then◌else◌, is_empty, is_elem, get_elem?, Option, none, some, List, [],
  ◌∷◌, arith,
}
use mathlib.Core.Path.{subst}
use kswitch.Prelude.Go.{ok, err}
use kswitch.Config.{Hook}
use kswitch.Config.Validation.{Segment, is_some, valid_hook_types, hook_errors, validate_hooks}
use kswitch.Config.Validation.Sound.{nothing, no_error, true_of_not}
use kswitch.Hooks.{no_executable_path, no_such_executable, execute_hook}

-- The hook's command; or its path is empty, or leads to no file.
abbrev pub IsExecutable : (Text → Bool) → Hook → Type 0
IsExecutable exists hook =
    ((hook.kind ≡ text "InlineCommand")
      × (execute_hook exists hook
          ≡ ok (record { program = text "bash"; arguments = text "-c" ∷ hook.arguments })))
    ⊎ ((path : Text) × (hook.kind ≡ text "Executable")
        × (hook.path ≡ some path)
        × (execute_hook exists hook ≡ (
            if is_empty path
            then err no_executable_path
            else if not (exists path)
            then err no_such_executable
            else ok (record { program = path; arguments = hook.arguments }))))

known :
    (kind : Text)
    → is_elem kind valid_hook_types ≡ true
    → (kind ≡ text "InlineCommand") ⊎ (kind ≡ text "Executable")
known kind h = elim (Bool-cases (text "InlineCommand" == kind)) [
  | inl inline ↦ inl (sym ((==_iff (text "InlineCommand") kind).0 inline))
  | inr other ↦ elim (Bool-cases (text "Executable" == kind)) [
    | inl executable ↦ inr (sym ((==_iff (text "Executable") kind).0 executable))
    | inr unknown ↦ absurd (ground (arith, h, other, unknown))
  ]
]

has_path : (path : Option Text) → not (is_some path) ≡ false → (p : Text) × (path ≡ some p)
has_path none h = absurd (cc)
has_path (some p) h = (p, refl)

inline_command :
    (exists : Text → Bool) (hook : Hook)
    → hook.kind ≡ text "InlineCommand"
    → (hook.kind == text "InlineCommand" && is_empty hook.arguments) ≡ false
    → execute_hook exists hook
      ≡ ok (record { program = text "bash"; arguments = text "-c" ∷ hook.arguments })
unfolding execute_hook
inline_command exists hook e h =
    let same = (==_iff hook.kind (text "InlineCommand")).1 e in
    let filled : is_empty hook.arguments ≡ false = rw same at h in rw (same, filled)

executable_command :
    (exists : Text → Bool) (hook : Hook) (path : Text)
    → hook.kind ≡ text "Executable"
    → hook.path ≡ some path
    → execute_hook exists hook ≡ (
        if is_empty path
        then err no_executable_path
        else if not (exists path)
        then err no_such_executable
        else ok (record { program = path; arguments = hook.arguments }))
unfolding execute_hook ◌==◌
executable_command exists hook path e at_path = rw (e, at_path)

hook_errors-IsExecutable :
    (exists : Text → Bool) (path : List Segment) (hook : Hook)
    → hook_errors path hook ≡ []
    → IsExecutable exists hook
unfolding hook_errors
hook_errors-IsExecutable exists path hook h =
    let (front, e3) = nothing _ _ h in
    let (e1, e2) = nothing _ _ front in
    elim (known hook.kind (true_of_not _ (no_error _ _ e1))) [
      | inl inline ↦ inl (inline, inline_command exists hook inline (no_error _ _ e3))
      | inr executable ↦
          let same = (==_iff hook.kind (text "Executable")).1 executable in
          let needs = no_error _ _ e2 in
          let (p, at_p) = has_path hook.path (rw same at needs) in
          inr (p, executable, at_p, executable_command exists hook p executable at_p)
    ]

-- A hook of a configuration whose hooks `ValidateConfig` finds no error in starts its command: an
-- inline command is handed to bash with all its arguments, and an executable is started with its
-- arguments, unless its path is empty or leads to no file.
pub validate_hooks-IsExecutable :
    (exists : Text → Bool) (path : List Segment) (at i : ℕ) (hooks : List Hook) (hook : Hook)
    → validate_hooks path at hooks ≡ []
    → get_elem? hooks i ≡ some hook
    → IsExecutable exists hook
unfolding validate_hooks
validate_hooks-IsExecutable exists path at i [] hook h at_i = absurd (cc)
validate_hooks-IsExecutable exists path at zero (k ∷ hooks) hook h at_i =
    let e : k ≡ hook = cc in
    subst (IsExecutable exists) e (hook_errors-IsExecutable exists _ k (nothing _ _ h).0)
validate_hooks-IsExecutable exists path at (suc i) (k ∷ hooks) hook h at_i =
    validate_hooks-IsExecutable exists path (suc at) i hooks hook (nothing _ _ h).1 at_i
