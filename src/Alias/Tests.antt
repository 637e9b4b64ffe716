-- ===== src/Alias/Tests.antt =====
-- Aliases in a small directory.
use kswitch.Prelude.{Text, text, ◌==◌, ◌≡◌, refl, Option, none, some, [], ◌∷◌, if◌then◌else◌, arith}
use kswitch.Prelude.Dict.{Dict, read, assign, delete}
use kswitch.Prelude.Go.{ok, err, ◌>>=◌}
use kswitch.Prelude.Strings.{has_prefix, strip_prefix}
use kswitch.Alias.{
  file, folder, Dir, Disk, path_separator, trim_space, trim_left, validate_alias_name, write_alias,
  write_alias_file, write_files, write_all_aliases, insert_file, replace_file, precedes,
  contains_alias, load, load_entries, load_from_dir, or_empty, remove_alias,
}
use kswitch.Alias.Writing.{write_alias_lem}

abbrev entries : Dir
entries =
    (text ".git", folder) ∷ (text "b", file (text "dev\n")) ∷ (text "d", file (text "prod")) ∷ []

abbrev disk : Disk
disk = record { aliases = some entries; legacy = none }

abbrev no_legacy : Text → Option (Option (Dict Text))
no_legacy bytes = none

is_valid_b : validate_alias_name (text "b") ≡ ok tt
unfolding validate_alias_name has_prefix strip_prefix ◌==◌
is_valid_b = refl

write_alias_lem_example :
    (replaced : Option Text) × (mapping : Dict Text) × (after : Dir) × (write_alias
        (text "b")
        (text "test")
        (some [])
        disk
      ≡ ok (replaced, mapping, record { aliases = some after; legacy = none }))
    × (read (load_from_dir after) (text "prod") ≡ (
        if text "test" == text "prod"
        then some (text "b")
        else read (load_from_dir (delete entries (text "b"))) (text "prod")))
unfolding read delete assign load_from_dir load_entries trim_space trim_left has_prefix strip_prefix
    ◌==◌
write_alias_lem_example =
    write_alias_lem (text "b") b't' (text "est") (some []) disk b'p' (text "rod") is_valid_b refl
      (λ e. ground arith) refl

-- The former alias of a context stays on the disk, and may win when it is loaded.
former_alias_wins :
    (write_alias (text "a") (text "dev") (some []) disk >>= λ (replaced, mapping, after).
    ok (read (load_from_dir (or_empty after.aliases)) (text "dev")))
    ≡ ok (some (text "b"))
unfolding write_alias write_alias_file validate_alias_name insert_file replace_file precedes
    contains_alias load_from_dir load_entries read assign delete trim_space trim_left has_prefix
    strip_prefix ◌==◌
former_alias_wins = refl

removed :
    remove_alias no_legacy (text "b") disk
    ≡ ok (record {
      aliases = some ((text ".git", folder) ∷ (text "d", file (text "prod")) ∷ []);
      legacy = none;
    })
unfolding remove_alias load load_from_dir load_entries write_all_aliases write_files
    write_alias_file validate_alias_name insert_file replace_file read assign delete trim_space
    trim_left has_prefix strip_prefix ◌==◌
removed = refl

outside : validate_alias_name (text "x/y") ≡ err path_separator
unfolding validate_alias_name has_prefix strip_prefix ◌==◌
outside = refl
