-- ===== src/Hooks/Due.antt =====
-- When a hook is run again.
use kswitch.Prelude.{
  ℕ, suc, ◌&&◌, ◌+◌, Text, ◌==◌, ◌≡◌, refl, sym, ap, ◌∙◌, Bool, true, false, Bool-cases,
  Option-cases, inl, inr, if◌then◌else◌, ltb, is_empty, any_of, Option, none, some, List, [], ◌∷◌,
  keep_if, arith,
}
use kswitch.Prelude.Dict.{read, read-assign}
use kswitch.Prelude.Go.{Go, ok, ok_injective}
use kswitch.Prelude.Int.{ℤ, pos, negsuc}
use kswitch.Config.{Hook, Config}
use kswitch.Hooks.{
  last_execution, States, Error, Command, has_known_type, is_due, get_hooks_to_be_executed,
  update_hook_state, execute_all, chosen, configured, run_hooks,
}

-- The states after the loop: the name of an executed hook has the time of the run.
execute_all-states :
    (exists : Text → Bool) (now : ℕ) (states : States) (hooks : List Hook) (name : Text)
    → read (execute_all exists now states hooks).0 name
      ≡ (if any_of (λ h. h.name == name) hooks then some (last_execution now) else read states name)
unfolding execute_all
execute_all-states exists now states [] name = refl
execute_all-states exists now states (hook ∷ hooks) name =
    execute_all-states exists now (update_hook_state now states hook) hooks name
    ∙ rw (read-assign states hook.name name (last_execution now)) (ground arith)

abbrev pub Ran : Type 0
Ran = List (Hook × Go Error Command)

abbrev pub ran_named : Text → Ran → Bool
ran_named name = any_of (λ r. r.0.name == name)

execute_all-ran_named :
    (exists : Text → Bool) (now : ℕ) (states : States) (hooks : List Hook) (name : Text)
    → ran_named name (execute_all exists now states hooks).1 ≡ any_of (λ h. h.name == name) hooks
unfolding execute_all
execute_all-ran_named exists now states [] name = refl
execute_all-ran_named exists now states (hook ∷ hooks) name =
    rw (execute_all-ran_named exists now (update_hook_state now states hook) hooks name) refl

-- An interval that was started at a time has passed: it is there, and the time, with the interval
-- added to it, or with its opposite taken from it, is before the later one.
unfoldable pub has_passed : ℕ → ℕ → Option (Option ℤ) → Bool
has_passed now later none = false
has_passed now later (some none) = false
has_passed now later (some (some (pos interval))) = ltb (now + interval) later
has_passed now later (some (some (negsuc interval))) = ltb now (later + suc interval)

-- A hook whose name was run is due when its interval has passed since, and another as before.
unfoldable pub is_due_again : ℕ → ℕ → States → Ran → Hook → Bool
unfolding has_passed
is_due_again now later states ran hook =
    if ran_named hook.name ran
    then has_known_type hook && has_passed now later hook.execution
    else is_due later states hook

-- A hook whose state has the time of the run.
is_due-has_passed :
    (now later : ℕ) (states : States) (hook : Hook)
    → read states hook.name ≡ some (last_execution now)
    → is_due later states hook ≡ (has_known_type hook && has_passed now later hook.execution)
unfolding is_due has_passed
is_due-has_passed now later states hook h = elim (Option-cases hook.execution) [
  | inl on_demand ↦ rw on_demand refl
  | inr (e, timed) ↦ elim (Option-cases e) [
    | inl on_demand ↦ rw (timed, on_demand) refl
    | inr (pos interval, every) ↦ rw (timed, every, h) refl
    | inr (negsuc interval, every) ↦ rw (timed, every, h) refl
  ]
]

same_state :
    (now : ℕ) (states after : States) (h : Hook)
    → read after h.name ≡ read states h.name
    → is_due now after h ≡ is_due now states h
unfolding is_due
same_state now states after h e = rw e

keep_if_cong :
    (p q : Hook → Bool) (hooks : List Hook)
    → ((h : Hook) → p h ≡ q h)
    → keep_if p hooks ≡ keep_if q hooks
keep_if_cong p q [] same = refl
keep_if_cong p q (h ∷ hooks) same = rw (same h, keep_if_cong p q hooks same) refl

module _ (exists : Text → Bool) (now later : ℕ) (states : States) (picked : List Hook) where
  -- After the hooks were executed.
  is_due-execute_all :
      (h : Hook)
      → is_due later (execute_all exists now states picked).0 h
        ≡ is_due_again now later states (execute_all exists now states picked).1 h
  unfolding is_due_again
  is_due-execute_all h =
      let reads = execute_all-states exists now states picked h.name in
      let same = execute_all-ran_named exists now states picked h.name in
      elim (Bool-cases (any_of (λ k. k.name == h.name) picked)) [
        | inl run ↦
            is_due-has_passed now later (execute_all exists now states picked).0 h
              (reads ∙ rw run refl)
            ∙ rw (same, run) refl
        | inr idle ↦
            same_state later states (execute_all exists now states picked).0 h
              (reads ∙ rw idle refl)
            ∙ rw (same, idle) refl
      ]

no_elements {ℓ} : {A : Type ℓ} (xs : List A) → is_empty xs ≡ true → xs ≡ []
no_elements [] h = refl
no_elements (x ∷ xs) h = absurd (cc)

-- A run without a hook name, and not forced, followed by another such run at any time: the second
-- executes, of the configured hooks in their order, exactly those that the first ran (or that share
-- the name of one) whose interval, which may be negative, has passed since the first run, and of the
-- others those that are due by the states before the first run.
pub run_hooks-twice :
    {Raw : Type 0} (exists : Text → Bool) (now later : ℕ) (states after : States)
    (config : Option (Config Raw)) (ran : Ran)
    → run_hooks exists now states config [] false ≡ ok (after, ran)
    → run_hooks exists later after config [] false
      ≡ ok (
          execute_all exists later after
            (keep_if (is_due_again now later states ran) (configured config)))
unfolding run_hooks chosen execute_all get_hooks_to_be_executed configured
run_hooks-twice exists now later states after none ran h = refl
run_hooks-twice exists now later states after (some config) ran h =
    elim (Bool-cases (is_empty config.hooks)) [
      | inl idle ↦ simp (no_elements config.hooks idle) (refl)
      | inr hooks ↦
          let picked = keep_if (is_due now states) config.hooks in
          let e : execute_all exists now states picked ≡ (after, ran) =
            ok_injective _ _ (simp hooks at h) in
          let same : (k : Hook) → is_due later after k ≡ is_due_again now later states ran k = λ k.
            ap (λ (r : States × Ran). is_due later r.0 k) (sym e)
            ∙ is_due-execute_all exists now later states picked k
            ∙ ap (λ (r : States × Ran). is_due_again now later states r.1 k) e in
          rw (hooks, keep_if_cong _ _ config.hooks same) refl
    ]
