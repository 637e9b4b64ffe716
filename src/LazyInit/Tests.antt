-- ===== src/LazyInit/Tests.antt =====
-- Two callers, of which the first has run `init` and still holds the lock.
use kswitch.Prelude.{◌+◌, ◌≤◌, ◌≡◌, refl, true, if◌then◌else◌, [], ◌∷◌}
use kswitch.LazyInit.{
  LazyInit, calling, waiting, initialising, initialised, tested, tested_again, test, lock,
  test_again, succeed, Reach, here, next, calls, initial,
}
use kswitch.LazyInit.Counts.{count, has_passed}
use kswitch.LazyInit.Once.{initialising_callers, ensure_once}

abbrev first_done : LazyInit
first_done = record { ready = true; locked = true; runs = 1; callers = initialised ∷ waiting ∷ [] }

first_runs : Reach (initial 2) first_done
unfolding initial calls tested tested_again
first_runs =
    next
      (next
        (next (next (next here (test [] (calling ∷ []) refl)) (lock [] (calling ∷ []) refl refl))
          (test_again [] (calling ∷ []) refl))
        (test (initialising ∷ []) [] refl))
      (succeed [] (waiting ∷ []) refl)

ensure_once_example :
    (first_done.runs ≡ (if first_done.ready then 1 else 0))
    × ((if first_done.ready then 1 else 0) + initialising_callers first_done.callers ≤ 1)
    × (first_done.runs ≡ 0 → count has_passed first_done.callers ≡ 0)
ensure_once_example = ensure_once 2 first_done first_runs
