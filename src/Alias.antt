-- ===== src/Alias.antt =====
-- pkg/subcommands/alias/state/alias.go, and `RemoveAlias` of pkg/subcommands/alias/alias.go. A
-- directory is its entries in the order of os.ReadDir, which sorts them by name. Errors of the
-- operating system are left out, but for a file that should take the place of a directory.
pub mod Loading
pub mod Writing
pub mod Tests
use mathlib.Core.List.{reverse}
use kswitch.Prelude.{
  ℕ, Text, text, ◌==◌, Bool, true, false, not, ◌&&◌, ◌||◌, if◌then◌else◌, ltb, leb, nat_eq, Option,
  none, some, List, [], ◌∷◌, ◌++◌, map, keep_if, any_of, is_elem,
}
use kswitch.Prelude.Dict.{Dict, read, assign, delete}
use kswitch.Prelude.Go.{Go, ok, err, panic, hang, ◌>>=◌, ◌>>◌}
use kswitch.Prelude.Strings.{has_prefix}

pub data Error : Type 0 where
  empty_name reserved_name leading_dot path_separator is_directory bad_legacy_file : Error
  no_such_alias : Error

pub data Entry : Type 0 where
  file : Text → Entry
  folder : Entry

abbrev pub Dir : Type 0
Dir = Dict Entry

-- The state directory: the alias directory, and the legacy file switch.alias.
pub record Disk : Type 0 where
  pub aliases : Option Dir
  pub legacy : Option Text

-- unicode.IsSpace
abbrev pub is_space : ℕ → Bool
is_space c =
    (leb 9 c && leb c 13)
    || nat_eq c 32
    || nat_eq c 133
    || nat_eq c 160
    || nat_eq c 5760
    || (leb 8192 c && leb c 8202)
    || nat_eq c 8232
    || nat_eq c 8233
    || nat_eq c 8239
    || nat_eq c 8287
    || nat_eq c 12288

unfoldable pub trim_left : Text → Text
trim_left [] = []
trim_left (c ∷ s) = let rest = trim_left s in if is_space c then rest else c ∷ s

-- strings.TrimSpace
unfoldable pub trim_space : Text → Text
unfolding trim_left
trim_space s = reverse (trim_left (reverse (trim_left s)))

unfoldable pub validate_alias_name : Text → Go Error (Unit {0})
validate_alias_name [] = err empty_name
validate_alias_name (c ∷ name) =
    if (c ∷ name) == text "." || (c ∷ name) == text ".."
    then err reserved_name
    else if has_prefix (c ∷ name) (text ".")
    then err leading_dot
    else if any_of (λ d. nat_eq d b'/' || nat_eq d 92) (c ∷ name)
    then err path_separator
    else ok tt

-- What the loop of `loadFromDir` makes of a file that is no dotfile.
keep_alias : Dict Text → Text → Text → Dict Text
keep_alias mapping name [] = mapping
keep_alias mapping name (c ∷ ctx) = assign mapping (c ∷ ctx) name

read_entry : Dict Text → Text → Entry → Dict Text
read_entry mapping name folder = mapping
read_entry mapping name (file content) =
    if has_prefix name (text ".") then mapping else keep_alias mapping name (trim_space content)

unfoldable pub load_entries : Dict Text → Dir → Dict Text
unfolding keep_alias read_entry
load_entries mapping [] = mapping
load_entries mapping ((name, entry) ∷ entries) =
    load_entries (read_entry mapping name entry) entries

unfoldable pub load_from_dir : Dir → Dict Text
load_from_dir entries = load_entries [] entries

-- The order of file names: Go compares strings byte by byte, which is the order of the characters.
unfoldable pub precedes : Text → Text → Bool
precedes s [] = false
precedes [] (d ∷ t) = true
precedes (c ∷ s) (d ∷ t) = let rest = precedes s t in ltb c d || (nat_eq c d && rest)

unfoldable pub insert_file : Text → Text → Dir → Dir
insert_file name content [] = (name, file content) ∷ []
insert_file name content ((other, entry) ∷ entries) =
    let later = insert_file name content entries in
    if precedes name other
    then (name, file content) ∷ (other, entry) ∷ entries
    else (other, entry) ∷ later

unfoldable pub replace_file : Text → Text → Dir → Dir
replace_file name content [] = []
replace_file name content ((other, entry) ∷ entries) =
    (other, if other == name then file content else entry) ∷ replace_file name content entries

over : Text → Text → Dir → Option Entry → Go Error Dir
over name content entries none = ok (insert_file name content entries)
over name content entries (some folder) = err is_directory
over name content entries (some (file old)) = ok (replace_file name content entries)

-- The temporary file is renamed to the alias file, or removed.
unfoldable pub write_alias_file : Dir → Text → Text → Go Error Dir
unfolding over
write_alias_file entries name ctx =
    validate_alias_name name >> over name ctx entries (read entries name)

-- An alias stands for at most one context in what is loaded, so that the order of the map does not
-- matter here.
unfoldable pub contains_alias : Dict Text → Text → Option Text
contains_alias [] alias = none
contains_alias ((ctx, a) ∷ mapping) alias =
    let later = contains_alias mapping alias in if alias == a then some ctx else later

abbrev without : Dict Text → Option Text → Dict Text
without mapping none = mapping
without mapping (some ctx) = delete mapping ctx

abbrev pub or_empty {ℓ} : {V : Type ℓ} → Option (Dict V) → Dict V
or_empty none = []
or_empty (some entries) = entries

-- From the loaded mapping (`none` is the nil map) and the disk to those after the call, with the
-- context that had the alias before. An error leaves out what was written before it.
unfoldable pub write_alias :
    Text → Text → Option (Dict Text) → Disk → Go Error (Option Text × Dict Text × Disk)
write_alias name ctx loaded disk = do
  _ ← validate_alias_name name
  let mapping = or_empty loaded
  entries ← write_alias_file (or_empty disk.aliases) name ctx
  ok (
    contains_alias mapping name,
    assign (without mapping (contains_alias mapping name)) ctx name,
    record disk { aliases = some entries },
  )

abbrev valid : Go Error (Unit {0}) → Bool
valid (ok u) = true
valid (err e) = false
valid panic = false
valid hang = false

abbrev pub is_valid : Text → Bool
is_valid name = valid (validate_alias_name name)

-- The first loop of `WriteAllAliases`, in one of the orders in which Go may range over the map.
unfoldable pub write_files : Dict Text → Dir → Go Error Dir
write_files [] entries = ok entries
write_files ((ctx, name) ∷ mapping) entries =
    (if is_valid name then write_alias_file entries name ctx else ok entries)
    >>= write_files mapping

abbrev is_alias_file : Text → Entry → Bool
is_alias_file name folder = false
is_alias_file name (file content) = not (has_prefix name (text "."))

unfoldable pub write_all_aliases : Dict Text → Dir → Go Error Dir
write_all_aliases mapping entries = write_files mapping entries >>= λ written. ok (
    keep_if
      (λ e. not (is_alias_file e.0 e.1) || is_elem e.0 (keep_if is_valid (map (λ p. p.1) mapping)))
      written)

-- The YAML parser of the legacy file is a parameter; `none` is its error, and `some none` a file
-- without a mapping.
module _ (unmarshal : Text → Option (Option (Dict Text))) where
  legacy_mapping : Text → Go Error (Option (Dict Text))
  legacy_mapping [] = ok none
  legacy_mapping (c ∷ s) = elim (unmarshal (c ∷ s)) [ none ↦ err bad_legacy_file | some m ↦ ok m ]

  migrate : Option Text → Disk → Go Error (Option (Dict Text) × Disk)
  migrate none disk = ok (none, disk)
  migrate (some bytes) disk = do
    mapping ← legacy_mapping bytes
    entries ← write_all_aliases (or_empty mapping) []
    ok (mapping, record { aliases = some entries; legacy = none })

  load_dir : Option Dir → Disk → Go Error (Option (Dict Text) × Disk)
  load_dir none disk = migrate disk.legacy disk
  load_dir (some entries) disk = ok (some (load_from_dir entries), disk)

  unfoldable pub load : Disk → Go Error (Option (Dict Text) × Disk)
  unfolding load_dir migrate legacy_mapping
  load disk = load_dir disk.aliases disk

  remove_from : Text → Option (Dict Text) × Disk → Go Error Disk
  remove_from name (none, disk) = ok disk
  remove_from name (some mapping, disk) =
      if any_of (λ p. p.1 == name) mapping
      then (write_all_aliases (keep_if (λ p. not (p.1 == name)) mapping) (or_empty disk.aliases)
          >>= λ entries. ok (record disk { aliases = some entries }))
      else err no_such_alias

  unfoldable pub remove_alias : Text → Disk → Go Error Disk
  unfolding remove_from
  remove_alias name disk = load disk >>= remove_from name
