-- ===== src/Gardener/Names.antt =====
-- The other names that are shown, and searched, for a cluster.
use kswitch.Prelude.{
  is_empty, and_false, or_false, Text, ◌==◌, ==_iff, ==_refl, ◌≡◌, ap, ◌∙◌, Bool, not, ◌&&◌,
  Bool-cases, inl, inr, if◌then◌else◌, List, [], ◌∷◌, keep_if, is_elem,
}
use kswitch.Prelude.Dict.{Dict}
use kswitch.Gardener.{unseen_names, candidates, collect_other_names}

abbrev is_new : Text → List Text → Bool
is_new n seen = not (is_empty n) && not (is_elem n seen)

unseen_names_lem :
    (n : Text) (seen names : List Text)
    → keep_if (λ o. o == n) (unseen_names seen names)
      ≡ (if is_new n seen && is_elem n names then n ∷ [] else [])
unfolding unseen_names
unseen_names_lem n seen [] = rw (and_false (is_new n seen))
unseen_names_lem n seen (m ∷ names) =
    let ih = unseen_names_lem n seen names in
    let ih' = unseen_names_lem n (m ∷ seen) names in
    elim (Bool-cases (m == n)) [
      | inl same ↦
          (let e = (==_iff m n).0 same in
            elim (Bool-cases (is_new n seen)) [
              | inl new ↦
                  rw (e, new, ==_refl n)
                    (ap (λ t. n ∷ t) (rw (e, ==_refl n, and_false (not (is_empty n))) at ih'))
              | inr old ↦ rw (e, old) (ih ∙ rw old)
            ])
      | inr other ↦ elim (Bool-cases (is_new m seen)) [
        | inl new ↦ rw (new, other) (rw other at ih')
        | inr old ↦ rw (old, other) ih
      ]
    ]

-- `collectOtherNames` gives a name once if it is not empty, is not the primary name, and is one of
-- the values of the label keys, the alias or the context name; and else not at all.
pub collect_other_names_lem :
    (n primary_name context_name alias : Text) (tags : Dict Text) (label_keys : List Text)
    → keep_if (λ o. o == n) (collect_other_names primary_name context_name alias tags label_keys)
      ≡ (if (not (is_empty n) && not (primary_name == n))
            && is_elem n (candidates context_name alias tags label_keys)
          then n ∷ []
          else [])
unfolding collect_other_names
collect_other_names_lem n primary_name context_name alias tags label_keys =
    unseen_names_lem n (primary_name ∷ []) (candidates context_name alias tags label_keys)
    ∙ rw (or_false (primary_name == n))
