-- ===== src/Gardener/Tests.antt =====
-- A shoot of the project dev.
use kswitch.Prelude.{Text, text, ◌==◌, ◌≡◌, refl, some, List, [], ◌∷◌}
use kswitch.Prelude.Dict.{Dict, read}
use kswitch.Prelude.Split.{split_double}
use kswitch.Prelude.Strings.{contains, has_prefix, strip_prefix, trim_prefix}
use kswitch.Gardener.{
  shoot, seed, garden, namespace_of, parse_identifier, candidates, collect_other_names,
  unseen_names, after_slash, short_gardener_context_name, join, format_gardener,
  format_display_name,
}
use kswitch.Gardener.Identifiers.{parse_identifier_lem}

parse_identifier_lem_example :
    (parse_identifier (text "eu--shoot--dev--my-app")
      ≡ some (record {
        landscape = text "eu";
        resource = shoot;
        name = text "my-app";
        namespace = namespace_of (text "dev");
        project = text "dev";
      }))
    × (parse_identifier (text "eu--seed--my-app")
        ≡ some (record {
          landscape = text "eu";
          resource = seed;
          name = text "my-app";
          namespace = garden;
          project = garden;
        }))
parse_identifier_lem_example =
    parse_identifier_lem (text "eu") (text "dev") (text "my-app") (refl, refl) (refl, (refl, refl))
      (refl, (refl, (refl, (refl, (refl, refl)))))

abbrev tags : Dict Text
tags = (text "team", text "red") ∷ (text "tier", text "app") ∷ []

abbrev keys : List Text
keys = text "tier" ∷ text "team" ∷ text "none" ∷ []

shown :
    format_display_name
      (text "gardener")
      (text "eu--shoot--dev--app")
      (text "eu/garden-dev--app-internal")
      (text "short")
      tags
      keys
    ≡ (text "gardener/eu/garden-dev/app", text "(red, short, internal)")
unfolding format_display_name format_gardener parse_identifier split_double contains
    collect_other_names unseen_names candidates short_gardener_context_name after_slash join read
    has_prefix strip_prefix trim_prefix ◌==◌
shown = refl
