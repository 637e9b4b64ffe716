-- ===== src/LazyInit/Counts.antt =====
-- How many callers stand where, and how a step changes it.
use kswitch.Prelude.{
  ℕ, ◌+◌, ◌≤◌, ◌≡◌, ap, Bool, true, false, if◌then◌else◌, List, [], ◌∷◌, ◌++◌, arith,
}
use kswitch.LazyInit.{Phase, calling, waiting, holding, initialising, initialised, returned}

abbrev pub holds_lock : Phase → ℕ
holds_lock calling = 0
holds_lock waiting = 0
holds_lock holding = 1
holds_lock initialising = 1
holds_lock initialised = 1
holds_lock (returned ok) = 0

abbrev pub in_init : Phase → ℕ
in_init calling = 0
in_init waiting = 0
in_init holding = 0
in_init initialising = 1
in_init initialised = 0
in_init (returned ok) = 0

abbrev pub has_passed : Phase → ℕ
has_passed calling = 0
has_passed waiting = 0
has_passed holding = 0
has_passed initialising = 0
has_passed initialised = 1
has_passed (returned ok) = if ok then 1 else 0

-- The number of callers, by a weight.
abbrev pub count : (Phase → ℕ) → List Phase → ℕ
count w [] = 0
count w (p ∷ ps) = w p + count w ps

pub count-append :
    (w : Phase → ℕ) (xs ys : List Phase) → count w (xs ++ ys) ≡ count w xs + count w ys
count-append w [] ys = omega arith
count-append w (x ∷ xs) ys = omega (arith, count-append w xs ys)

abbrev pub one_if : Bool → ℕ
one_if b = if b then 1 else 0

-- What a step does to a count: one caller's weight is replaced.
pub moved :
    (w : Phase → ℕ) (callers before after : List Phase) (p q : Phase)
    → callers ≡ before ++ p ∷ after
    → count w (before ++ q ∷ after) + w p ≡ count w callers + w q
moved w callers before after p q e =
    omega
      (arith, ap (count w) e, count-append w before (p ∷ after), count-append w before (q ∷ after))

pub in_init_le : (ps : List Phase) → count in_init ps ≤ count holds_lock ps
in_init_le [] = omega arith
in_init_le (calling ∷ ps) = omega (arith, in_init_le ps)
in_init_le (waiting ∷ ps) = omega (arith, in_init_le ps)
in_init_le (holding ∷ ps) = omega (arith, in_init_le ps)
in_init_le (initialising ∷ ps) = omega (arith, in_init_le ps)
in_init_le (initialised ∷ ps) = omega (arith, in_init_le ps)
in_init_le (returned ok ∷ ps) = omega (arith, in_init_le ps)

pub one_if_le : (b : Bool) → one_if b ≤ 1
one_if_le true = omega arith
one_if_le false = omega arith
