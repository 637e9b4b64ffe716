-- ===== src/LazyInit.antt =====
-- pkg/store/lazy_init.go: `ensure`, called by several goroutines at once, as a step relation. A step
-- is what happens between two accesses to the flag or the lock. Whether `init` fails is open in each
-- run of it.
pub mod Counts
pub mod Once
pub mod Tests
use kswitch.Prelude.{
  ℕ, zero, suc, ◌+◌, ◌≡◌, Bool, true, false, if◌then◌else◌, List, [], ◌∷◌, ◌++◌, map, length,
}

-- Where a caller stands: before the first test of the flag, before the lock, before the second test,
-- in `init`, with `init` done, or returned, without an error or with one.
pub data Phase : Type 0 where
  calling waiting holding initialising initialised : Phase
  returned : Bool → Phase

-- `runs` counts the runs of `init` that did not fail.
pub record LazyInit : Type 0 where
  pub ready : Bool
  pub locked : Bool
  pub runs : ℕ
  pub callers : List Phase

-- The first test of the flag.
unfoldable pub tested : Bool → Phase
tested ready = if ready then returned true else waiting

-- The test under the lock, and whether the lock is still held after it.
unfoldable pub tested_again : Bool → Phase
tested_again ready = if ready then returned true else initialising

pub data Step (s : LazyInit) : LazyInit → Type 0 where
  test :
      (before after : List Phase)
      → s.callers ≡ before ++ calling ∷ after
      → Step s (record s { callers = before ++ tested s.ready ∷ after })
  lock :
      (before after : List Phase)
      → s.callers ≡ before ++ waiting ∷ after
      → s.locked ≡ false
      → Step s (record s { callers = before ++ holding ∷ after; locked = true })
  test_again :
      (before after : List Phase)
      → s.callers ≡ before ++ holding ∷ after
      → Step s (record s {
        callers = before ++ tested_again s.ready ∷ after;
        locked = if s.ready then false else true;
      })
  fail :
      (before after : List Phase)
      → s.callers ≡ before ++ initialising ∷ after
      → Step s (record s { callers = before ++ returned false ∷ after; locked = false })
  succeed :
      (before after : List Phase)
      → s.callers ≡ before ++ initialising ∷ after
      → Step s
          (record s { callers = before ++ initialised ∷ after; ready = true; runs = suc s.runs })
  unlock :
      (before after : List Phase)
      → s.callers ≡ before ++ initialised ∷ after
      → Step s (record s { callers = before ++ returned true ∷ after; locked = false })

pub data Reach (s : LazyInit) : LazyInit → Type 0 where
  here : Reach s s
  next : {t u : LazyInit} → Reach s t → Step t u → Reach s u

calls : ℕ → List Phase
calls zero = []
calls (suc n) = calling ∷ calls n

-- The zero value, with callers that have just called.
unfoldable pub initial : ℕ → LazyInit
unfolding calls
initial callers = record { ready = false; locked = false; runs = 0; callers = calls callers }
