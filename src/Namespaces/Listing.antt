-- ===== src/Namespaces/Listing.antt =====
-- What is offered, and what the file remembers.
use mathlib.Core.List.{reverse}
use kswitch.Prelude.{
  Text, ◌==◌, ==_iff, ◌≡◌, refl, sym, ap, ◌∙◌, Bool, false, not, ◌||◌, Bool-cases, inl, inr,
  if◌then◌else◌, is_elem, List, [], ◌∷◌, ◌++◌, keep_if, All, arith,
}
use kswitch.History.{lines_of, read_history}
use kswitch.History.Lines.{IsLine, lines_of-line, map-drop_cr}
use kswitch.Namespaces.{write_lines, load_from_file, reconcile}
use kswitch.Prelude.{some}

lines_of-write_lines :
    (namespaces : List Text)
    → All IsLine namespaces
    → lines_of (write_lines namespaces) ≡ namespaces
unfolding write_lines lines_of
lines_of-write_lines [] h = refl
lines_of-write_lines (n ∷ namespaces) (here, h) =
    lines_of-line n (write_lines namespaces) here
    ∙ ap (λ t. n ∷ t) (lines_of-write_lines namespaces h)

-- For names that hold no end of a line: what is read from the file of a context is what was written to
-- it last, in the reverse order.
pub load_from_file-write_lines :
    (namespaces : List Text)
    → All IsLine namespaces
    → load_from_file (some (write_lines namespaces)) ≡ reverse namespaces
unfolding load_from_file read_history
load_from_file-write_lines namespaces h =
    rw (lines_of-write_lines namespaces h, map-drop_cr namespaces h)

is_elem-append :
    (n : Text) (xs ys : List Text) → is_elem n (xs ++ ys) ≡ (is_elem n xs || is_elem n ys)
is_elem-append n [] ys = refl
is_elem-append n (x ∷ xs) ys = elim (Bool-cases (x == n)) [
  | inl e ↦ rw e
  | inr e ↦ rw e (is_elem-append n xs ys)
]

is_elem-keep_if :
    (n : Text) (p : Text → Bool) (xs : List Text)
    → is_elem n (keep_if p xs) ≡ (if p n then is_elem n xs else false)
is_elem-keep_if n p [] = ground arith
is_elem-keep_if n p (x ∷ xs) =
    let later = is_elem-keep_if n p xs in
    elim (Bool-cases (x == n)) [
      | inl same ↦
          let e = (==_iff x n).0 same in
          elim (Bool-cases (p x)) [
            | inl kept ↦ rw (kept, same) (rw (ap p (sym e) ∙ kept))
            | inr dropped ↦
                rw (dropped, ap p (sym e) ∙ dropped) (rw (ap p (sym e) ∙ dropped) at later)
          ]
      | inr other ↦ elim (Bool-cases (p x)) [
        | inl kept ↦ rw (kept, other) later
        | inr dropped ↦ rw (dropped, other) later
      ]
    ]

-- Let the sorted list of a set hold what the set holds. Then, whatever was remembered, a namespace is
-- offered exactly if the cluster has it.
pub is_elem-reconcile :
    (set_list : List Text → List Text)
    → ((n : Text) (xs : List Text) → is_elem n (set_list xs) ≡ is_elem n xs)
    → (n : Text) (cached real : List Text)
    → is_elem n (reconcile set_list cached real) ≡ is_elem n real
unfolding reconcile
is_elem-reconcile set_list same n cached real =
    is_elem-append n (keep_if (λ m. is_elem m real) cached)
      (keep_if (λ m. not (is_elem m cached)) (set_list real))
    ∙ rw
        (
          is_elem-keep_if n (λ m. is_elem m real) cached,
          is_elem-keep_if n (λ m. not (is_elem m cached)) (set_list real),
          same n real,
        )
        (elim (Bool-cases (is_elem n real)) [
          | inl there ↦ elim (Bool-cases (is_elem n cached)) [
            | inl known ↦ rw (there, known)
            | inr new ↦ rw (there, new)
          ]
          | inr gone ↦ elim (Bool-cases (is_elem n cached)) [
            | inl known ↦ rw (gone, known)
            | inr new ↦ rw (gone, new)
          ]
        ])
