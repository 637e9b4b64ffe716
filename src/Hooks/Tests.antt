-- ===== src/Hooks/Tests.antt =====
-- A hook that is due, one that is not, and one on demand.
use kswitch.Prelude.{
  Text, text, ◌==◌, ◌≡◌, refl, true, false, Option, none, some, List, [], ◌∷◌, keep_if,
}
use kswitch.Prelude.Dict.{read, assign, delete}
use kswitch.Prelude.Go.{Go, ok}
use kswitch.Prelude.Int.{ℤ, pos}
use kswitch.Config.{Hook, Config}
use kswitch.Config.Validation.{validate_hooks, hook_errors}
use kswitch.Hooks.{
  last_execution, States, Error, Command, is_due, get_hooks_to_be_executed, execute_hook,
  execute_all, chosen, configured, run_hooks,
}
use kswitch.Hooks.Due.{is_due_again, run_hooks-twice}

abbrev hook : Text → Option (Option ℤ) → Hook
hook name execution = record {
  name = name;
  kind = text "InlineCommand";
  path = none;
  arguments = text "echo" ∷ [];
  execution = execution;
}

abbrev hooks : List Hook
hooks =
    hook (text "a") (some (some (pos 10)))
    ∷ hook (text "b") (some (some (pos 90)))
    ∷ hook (text "c") none
    ∷ []

abbrev first_two : List Hook
first_two = hook (text "a") (some (some (pos 10))) ∷ hook (text "b") (some (some (pos 90))) ∷ []

abbrev config : Config Text
config = record {
  kind = [];
  version = [];
  kubeconfig_name = none;
  refresh_index_after = none;
  hooks = hooks;
  kubeconfig_stores = [];
}

abbrev states : States
states = (text "a", last_execution 80) ∷ (text "b", last_execution 80) ∷ []

abbrev after : States
after = (text "a", last_execution 100) ∷ (text "b", last_execution 80) ∷ []

abbrev ran : List (Hook × Go Error Command)
ran =
    (
      hook (text "a") (some (some (pos 10))),
      ok (record { program = text "bash"; arguments = text "-c" ∷ text "echo" ∷ [] }),
    )
    ∷ []

first_run : run_hooks (λ p. true) 100 states (some config) [] false ≡ ok (after, ran)
unfolding run_hooks chosen execute_all execute_hook get_hooks_to_be_executed is_due read assign
    delete ◌==◌
first_run = refl

run_hooks-twice_example :
    run_hooks (λ p. true) 171 after (some config) [] false
    ≡ ok (
        execute_all
          (λ p. true)
          171
          after
          (keep_if (is_due_again 100 171 states ran) (configured (some config))))
run_hooks-twice_example =
    run_hooks-twice (λ p. true) 100 171 states after (some config) ran first_run

both_again : keep_if (is_due_again 100 171 states ran) hooks ≡ first_two
unfolding is_due_again is_due ◌==◌ read
both_again = refl

-- At the end of its interval a hook is not yet due.
none_again : keep_if (is_due_again 100 110 states ran) hooks ≡ []
unfolding is_due_again is_due ◌==◌ read
none_again = refl

no_errors : validate_hooks [] 0 hooks ≡ []
unfolding validate_hooks hook_errors ◌==◌
no_errors = refl
