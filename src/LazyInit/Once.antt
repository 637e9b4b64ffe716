-- ===== src/LazyInit/Once.antt =====
-- The initialisation succeeds once.
use kswitch.Prelude.{
  ℕ, zero, suc, ◌+◌, ◌≤◌, ◌≡◌, refl, ap, ◌∙◌, true, false, if◌then◌else◌, List, ◌∷◌, ◌++◌, arith,
}
use kswitch.LazyInit.{
  Phase, calling, waiting, holding, initialising, initialised, returned, LazyInit, tested,
  tested_again, Step, test, lock, test_again, fail, succeed, unlock, Reach, here, next, calls,
  initial,
}
use kswitch.LazyInit.Counts.{
  holds_lock, in_init, has_passed, count, count-append, one_if, moved, in_init_le, one_if_le,
}

record IsSound (s : LazyInit) : Type 0 where
  lock_held : count holds_lock s.callers ≡ one_if s.locked
  once : s.runs ≡ one_if s.ready
  init_alone : one_if s.ready + count in_init s.callers ≤ 1
  published : s.ready ≡ false → count has_passed s.callers ≡ 0

-- A caller that holds the lock before `init` is alone.
alone :
    (s : LazyInit) (before after : List Phase)
    → s.callers ≡ before ++ holding ∷ after
    → IsSound s
    → (count in_init (before ++ initialising ∷ after) ≡ 1)
      × (count holds_lock (before ++ initialising ∷ after) ≡ 1)
alone s before after e h =
    let n = ap (count holds_lock) e ∙ count-append holds_lock before (holding ∷ after) in
    (
      omega (
        arith,
        n,
        h.lock_held,
        one_if_le s.locked,
        count-append in_init before (initialising ∷ after),
        in_init_le before,
        in_init_le after,
      ),
      omega (
        arith,
        n,
        h.lock_held,
        one_if_le s.locked,
        count-append holds_lock before (initialising ∷ after),
      ),
    )

Step-IsSound : {s t : LazyInit} → Step s t → IsSound s → IsSound t
unfolding tested tested_again
Step-IsSound {s} (test before after e) h =
    let q = tested s.ready in
    record {
      lock_held = ground (arith, h.lock_held, moved holds_lock s.callers before after calling q e);
      once = h.once;
      init_alone = ground (arith, h.init_alone, moved in_init s.callers before after calling q e);
      published = λ r.
          ground (arith, r, h.published r, moved has_passed s.callers before after calling q e);
    }
Step-IsSound {s} (lock before after e free) h = record {
  lock_held =
      ground (arith, free, h.lock_held, moved holds_lock s.callers before after waiting holding e);
  once = h.once;
  init_alone = omega (arith, h.init_alone, moved in_init s.callers before after waiting holding e);
  published =
      λ r. omega (arith, h.published r, moved has_passed s.callers before after waiting holding e);
}
Step-IsSound {s} (test_again before after e) h =
    let q = tested_again s.ready in
    let (i, l) = alone s before after e h in
    record {
      lock_held = ground (
        arith,
        l,
        h.lock_held,
        one_if_le s.locked,
        moved holds_lock s.callers before after holding q e,
      );
      once = h.once;
      init_alone =
          ground (arith, i, h.init_alone, moved in_init s.callers before after holding q e);
      published = λ r.
          ground (arith, r, h.published r, moved has_passed s.callers before after holding q e);
    }
Step-IsSound {s} (fail before after e) h = record {
  lock_held = omega (
    arith,
    h.lock_held,
    one_if_le s.locked,
    moved holds_lock s.callers before after initialising (returned false) e,
  );
  once = h.once;
  init_alone =
      omega
        (arith, h.init_alone, moved in_init s.callers before after initialising (returned false) e);
  published = λ r. omega (
    arith,
    h.published r,
    moved has_passed s.callers before after initialising (returned false) e,
  );
}
Step-IsSound {s} (succeed before after e) h =
    let n = ap (count in_init) e ∙ count-append in_init before (initialising ∷ after) in
    record {
      lock_held =
          omega (
            arith,
            h.lock_held,
            moved holds_lock s.callers before after initialising initialised e,
          );
      once = omega (arith, h.once, h.init_alone, n);
      init_alone =
          omega (
            arith,
            h.init_alone,
            n,
            moved in_init s.callers before after initialising initialised e,
          );
      published = λ r. absurd (cc);
    }
Step-IsSound {s} (unlock before after e) h = record {
  lock_held = omega (
    arith,
    h.lock_held,
    one_if_le s.locked,
    moved holds_lock s.callers before after initialised (returned true) e,
  );
  once = h.once;
  init_alone =
      omega
        (arith, h.init_alone, moved in_init s.callers before after initialised (returned true) e);
  published = λ r.
      omega (
        arith,
        h.published r,
        moved has_passed s.callers before after initialised (returned true) e,
      );
}

none_yet : (w : Phase → ℕ) (n : ℕ) → w calling ≡ 0 → count w (calls n) ≡ 0
unfolding calls
none_yet w zero e = refl
none_yet w (suc n) e = omega (arith, e, none_yet w n e)

initial-IsSound : (n : ℕ) → IsSound (initial n)
unfolding initial
initial-IsSound n = record {
  lock_held = none_yet holds_lock n refl;
  once = refl;
  init_alone = omega (arith, none_yet in_init n refl);
  published = λ r. none_yet has_passed n refl;
}

Reach-IsSound : {s t : LazyInit} → Reach s t → IsSound s → IsSound t
Reach-IsSound here h = h
Reach-IsSound (next r st) h = Step-IsSound st (Reach-IsSound r h)

-- The callers in `init`, and those to which `ensure` returned without an error.
abbrev pub initialising_callers : List Phase → ℕ
initialising_callers = count in_init

-- For any number of concurrent callers of `ensure` and any order of their steps: `init` has succeeded at
-- most once, at most one caller is in it, none is in it once it has succeeded, and the flag is set
-- exactly when it has; and as long as it has not succeeded, no caller has returned without an error.
pub ensure_once :
    (callers : ℕ) (s : LazyInit)
    → Reach (initial callers) s
    → (s.runs ≡ (if s.ready then 1 else 0))
      × ((if s.ready then 1 else 0) + initialising_callers s.callers ≤ 1)
      × (s.runs ≡ 0 → count has_passed s.callers ≡ 0)
ensure_once callers s r =
    let h = Reach-IsSound r (initial-IsSound callers) in
    (h.once, h.init_alone, λ z. h.published (ground (arith, z, h.once)))
