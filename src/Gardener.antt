-- ===== src/Gardener.antt =====
-- pkg/store/gardener/util.go, the identifiers of Gardener clusters, and pkg/tui/display.go, the names
-- that the list shows for them.
pub mod Identifiers
pub mod Names
pub mod Tests
use kswitch.Prelude.{
  is_empty, ℕ, Text, text, ◌==◌, Bool, true, false, not, ◌&&◌, ◌||◌, if◌then◌else◌, nat_eq, Option,
  none, some, List, [], ◌∷◌, ◌++◌, map, is_elem,
}
use kswitch.Prelude.Dict.{Dict, read}
use kswitch.Prelude.Split.{split_double}
use kswitch.Prelude.Strings.{contains, trim_prefix}

pub data GardenerResource : Type 0 where
  shoot seed : GardenerResource

pub record Identifier : Type 0 where
  pub landscape : Text
  pub resource : GardenerResource
  pub name : Text
  pub namespace : Text
  pub project : Text

abbrev pub garden : Text
garden = text "garden"

abbrev pub get_seed_identifier : Text → Text → Text
get_seed_identifier landscape seed_name = landscape ++ text "--seed--" ++ seed_name

abbrev pub get_shoot_identifier : Text → Text → Text → Text
get_shoot_identifier landscape project shoot_name =
    landscape ++ text "--shoot--" ++ project ++ text "--" ++ shoot_name

abbrev pub namespace_of : Text → Text
namespace_of project = if project == garden then garden else text "garden-" ++ project

identifier_of : Text → List Text → Option Identifier
identifier_of path (landscape ∷ kind ∷ project ∷ name ∷ []) =
    if not (contains path (text "shoot"))
    then none
    else some (record {
      landscape = landscape;
      resource = shoot;
      name = name;
      namespace = namespace_of project;
      project = if project == garden then garden else project;
    })
identifier_of path (landscape ∷ kind ∷ name ∷ []) =
    if not (contains path (text "seed"))
    then none
    else some (record {
      landscape = landscape;
      resource = seed;
      name = name;
      namespace = garden;
      project = garden;
    })
identifier_of path [] = none
identifier_of path (a ∷ []) = none
identifier_of path (a ∷ b ∷ []) = none
identifier_of path (a ∷ b ∷ c ∷ d ∷ e ∷ more) = none

-- `none` is the error.
unfoldable pub parse_identifier : Text → Option Identifier
unfolding identifier_of
parse_identifier path = identifier_of path (split_double b'-' false path)

-- tags[k], empty where the key is absent.
tag : Dict Text → Text → Text
tag tags k = elim (read tags k) [ none ↦ [] | some v ↦ v ]

unfoldable pub candidates : Text → Text → Dict Text → List Text → List Text
unfolding tag
candidates context_name alias tags label_keys =
    map (tag tags) label_keys ++ alias ∷ context_name ∷ []

-- The last loop of `collectOtherNames`; `seen` holds the keys of the map.
unfoldable pub unseen_names : List Text → List Text → List Text
unseen_names seen [] = []
unseen_names seen (n ∷ names) =
    let taken = not (is_empty n) && not (is_elem n seen) in
    let later = unseen_names (if taken then n ∷ seen else seen) names in
    if taken then n ∷ later else later

unfoldable pub collect_other_names : Text → Text → Text → Dict Text → List Text → List Text
unfolding candidates
collect_other_names primary_name context_name alias tags label_keys =
    unseen_names (primary_name ∷ []) (candidates context_name alias tags label_keys)

-- strings.Cut(s, "/"), the part after the slash.
unfoldable pub after_slash : Text → Option Text
after_slash [] = none
after_slash (c ∷ s) = let later = after_slash s in if nat_eq c b'/' then some s else later

unfoldable pub short_gardener_context_name : Text → Text → Text → Text
short_gardener_context_name context_name namespace shoot_name =
    trim_prefix (elim (after_slash context_name) [ none ↦ context_name | some after ↦ after ])
      (namespace ++ text "--" ++ shoot_name ++ text "-")

-- strings.Join(names, ", ")
unfoldable pub join : List Text → Text
join [] = []
join (n ∷ []) = n
join (n ∷ m ∷ names) = n ++ text ", " ++ join (m ∷ names)

abbrev primary_of : Identifier → Text
primary_of id = elim id.resource [
  | shoot ↦ text "gardener/" ++ id.landscape ++ text "/" ++ id.namespace ++ text "/" ++ id.name
  | seed ↦ text "gardener/" ++ id.landscape ++ text "/garden/" ++ id.name
]

suffix_of : List Text → Text
suffix_of [] = []
suffix_of (n ∷ names) = text "(" ++ join (n ∷ names) ++ text ")"

names_of : Text → Text → Dict Text → List Text → Option Identifier → Option (Text × Text)
names_of context_name alias tags label_keys none = none
names_of context_name alias tags label_keys (some id) =
    let short = short_gardener_context_name context_name id.namespace id.name in
    some (primary_of id, suffix_of (collect_other_names id.name short alias tags label_keys))

unfoldable pub format_gardener : Text → Text → Text → Dict Text → List Text → Option (Text × Text)
unfolding names_of suffix_of
format_gardener path context_name alias tags label_keys =
    names_of context_name alias tags label_keys (parse_identifier path)

generic : Text → Text → Text × Text
generic context_name alias =
    if not (is_empty alias) && not (alias == context_name)
    then (alias, text "(" ++ context_name ++ text ")")
    else (context_name, [])

or_generic : Text × Text → Option (Text × Text) → Text × Text
or_generic fallback none = fallback
or_generic fallback (some names) = names

unfoldable pub format_display_name : Text → Text → Text → Text → Dict Text → List Text → Text × Text
unfolding generic or_generic
format_display_name store_kind path context_name alias tags label_keys =
    if store_kind == text "gardener"
    then or_generic (generic context_name alias)
        (format_gardener path context_name alias tags label_keys)
    else generic context_name alias
