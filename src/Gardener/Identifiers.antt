-- ===== src/Gardener/Identifiers.antt =====
-- The identifiers are parsed as they were made.
use kswitch.Prelude.{
  Text, text, ◌==◌, ==_iff, ◌≡◌, refl, sym, ap, ◌∙◌, true, false, Bool-cases, inl, inr,
  if◌then◌else◌, some, [], ◌∷◌, ◌++◌, append_assoc,
}
use kswitch.Prelude.Split.{IsUnambiguous, split_double, split_double-piece, split_double-last}
use kswitch.Prelude.Strings.{contains, contains-append}
use kswitch.Gardener.{
  shoot, seed, garden, get_seed_identifier, get_shoot_identifier, namespace_of, parse_identifier,
}

seed_shape :
    (l s : Text) → get_seed_identifier l s ≡ l ++ b'-' ∷ b'-' ∷ (text "seed" ++ b'-' ∷ b'-' ∷ s)
seed_shape l s = append_assoc l (text "--seed--") s

shoot_shape :
    (l p s : Text)
    → get_shoot_identifier l p s
      ≡ l ++ b'-' ∷ b'-' ∷ (text "shoot" ++ b'-' ∷ b'-' ∷ (p ++ b'-' ∷ b'-' ∷ s))
shoot_shape l p s =
    append_assoc (l ++ text "--shoot--" ++ p) (text "--") s
    ∙ append_assoc (l ++ text "--shoot--") p (text "--" ++ s)
    ∙ append_assoc l (text "--shoot--") (p ++ (text "--" ++ s))

seed_pieces :
    (l s : Text)
    → IsUnambiguous b'-' l
    → IsUnambiguous b'-' s
    → split_double b'-' false (get_seed_identifier l s) ≡ l ∷ text "seed" ∷ s ∷ []
seed_pieces l s hl hs =
    ap (split_double b'-' false) (seed_shape l s)
    ∙ split_double-piece b'-' l (text "seed" ++ b'-' ∷ b'-' ∷ s) hl
    ∙ ap (λ t. l ∷ t) (split_double-piece b'-' (text "seed") s (refl, (refl, (refl, refl))))
    ∙ ap (λ t. l ∷ text "seed" ∷ t) (split_double-last b'-' s hs)

shoot_pieces :
    (l p s : Text)
    → IsUnambiguous b'-' l
    → IsUnambiguous b'-' p
    → IsUnambiguous b'-' s
    → split_double b'-' false (get_shoot_identifier l p s) ≡ l ∷ text "shoot" ∷ p ∷ s ∷ []
shoot_pieces l p s hl hp hs =
    ap (split_double b'-' false) (shoot_shape l p s)
    ∙ split_double-piece b'-' l (text "shoot" ++ b'-' ∷ b'-' ∷ (p ++ b'-' ∷ b'-' ∷ s)) hl
    ∙ ap (λ t. l ∷ t)
        (split_double-piece b'-' (text "shoot") (p ++ b'-' ∷ b'-' ∷ s)
          (refl, (refl, (refl, (refl, refl)))))
    ∙ ap (λ t. l ∷ text "shoot" ∷ t) (split_double-piece b'-' p s hp)
    ∙ ap (λ t. l ∷ text "shoot" ∷ p ∷ t) (split_double-last b'-' s hs)

same_project : (p : Text) → (if p == garden then garden else p) ≡ p
same_project p = elim (Bool-cases (p == garden)) [
  | inl e ↦ rw e (sym ((==_iff p garden).0 e))
  | inr ne ↦ rw ne
]

contains_seed : (l s : Text) → contains (get_seed_identifier l s) (text "seed") ≡ true
contains_seed l s =
    ap (λ t. contains t (text "seed"))
      (seed_shape l s ∙ sym (append_assoc l (text "--") (text "seed" ++ b'-' ∷ b'-' ∷ s)))
    ∙ contains-append (l ++ text "--") (text "seed") (b'-' ∷ b'-' ∷ s)

contains_shoot : (l p s : Text) → contains (get_shoot_identifier l p s) (text "shoot") ≡ true
contains_shoot l p s =
    ap (λ t. contains t (text "shoot"))
      (shoot_shape l p s
        ∙ sym (append_assoc l (text "--") (text "shoot" ++ b'-' ∷ b'-' ∷ (p ++ b'-' ∷ b'-' ∷ s))))
    ∙ contains-append (l ++ text "--") (text "shoot") (b'-' ∷ b'-' ∷ (p ++ b'-' ∷ b'-' ∷ s))

-- `ParseIdentifier` of what `GetShootIdentifier` makes gives the landscape, the project and the shoot
-- back, with the project's namespace, and of what `GetSeedIdentifier` makes the landscape and the
-- seed, in the namespace and project garden; for names without two dashes in a row and without one
-- at their end.
pub parse_identifier_lem :
    (landscape project name : Text)
    → IsUnambiguous b'-' landscape
    → IsUnambiguous b'-' project
    → IsUnambiguous b'-' name
    → (parse_identifier (get_shoot_identifier landscape project name)
        ≡ some (record {
          landscape = landscape;
          resource = shoot;
          name = name;
          namespace = namespace_of project;
          project = project;
        }))
      × (parse_identifier (get_seed_identifier landscape name)
          ≡ some (record {
            landscape = landscape;
            resource = seed;
            name = name;
            namespace = garden;
            project = garden;
          }))
unfolding parse_identifier
parse_identifier_lem l p s hl hp hs = (
  rw (shoot_pieces l p s hl hp hs, contains_shoot l p s, same_project p),
  rw (seed_pieces l s hl hs, contains_seed l s),
)
