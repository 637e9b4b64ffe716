-- ===== src/Alias/Loading.antt =====
-- What is loaded from the alias directory.
use kswitch.Prelude.{
  ℕ, ap, sym, ◌∙◌, Text, text, ◌==◌, ◌≡◌, refl, Bool, false, Bool-cases, inl, inr, if◌then◌else◌,
  Option, none, some, [], ◌∷◌,
}
use kswitch.Prelude.Dict.{Dict, read, read-assign}
use kswitch.Prelude.Strings.{has_prefix}
use kswitch.Alias.{
  Entry, file, folder, Dir, trim_space, keep_alias, read_entry, load_entries, load_from_dir,
}

-- The entry is an alias file for the context.
abbrev pub holds : Text → Text → Entry → Bool
holds [] name entry = false
holds (c ∷ ctx) name folder = false
holds (c ∷ ctx) name (file content) =
    if has_prefix name (text ".") then false else trim_space content == (c ∷ ctx)

abbrev pub or_else : Option Text → Option Text → Option Text
or_else (some a) b = some a
or_else none b = b

-- The last alias file for the context.
abbrev pub holder : Text → Dir → Option Text
holder ctx [] = none
holder ctx ((name, entry) ∷ entries) =
    or_else (holder ctx entries) (if holds ctx name entry then some name else none)

read_content :
    (mapping : Dict Text) (name content : Text) (c : ℕ) (ctx : Text)
    → read (keep_alias mapping name content) (c ∷ ctx)
      ≡ (if content == (c ∷ ctx) then some name else read mapping (c ∷ ctx))
unfolding keep_alias ◌==◌
read_content mapping name [] c ctx = refl
read_content mapping name (d ∷ s) c ctx = read-assign mapping (d ∷ s) (c ∷ ctx) name

read_entry_lem :
    (mapping : Dict Text) (name : Text) (entry : Entry) (c : ℕ) (ctx : Text)
    → read (read_entry mapping name entry) (c ∷ ctx)
      ≡ or_else (if holds (c ∷ ctx) name entry then some name else none) (read mapping (c ∷ ctx))
unfolding read_entry
read_entry_lem mapping name folder c ctx = refl
read_entry_lem mapping name (file content) c ctx = elim (Bool-cases (has_prefix name (text "."))) [
  | inl dot ↦ rw dot
  | inr plain ↦ elim (Bool-cases (trim_space content == (c ∷ ctx))) [
    | inl same ↦ rw plain (read_content mapping name (trim_space content) c ctx ∙ rw same)
    | inr other ↦ rw plain (read_content mapping name (trim_space content) c ctx ∙ rw other)
  ]
]

or_else_assoc : (a b c : Option Text) → or_else (or_else a b) c ≡ or_else a (or_else b c)
or_else_assoc none b c = refl
or_else_assoc (some a) b c = refl

load_entries_lem :
    (mapping : Dict Text) (entries : Dir) (c : ℕ) (ctx : Text)
    → read (load_entries mapping entries) (c ∷ ctx)
      ≡ or_else (holder (c ∷ ctx) entries) (read mapping (c ∷ ctx))
unfolding load_entries
load_entries_lem mapping [] c ctx = refl
load_entries_lem mapping ((name, entry) ∷ entries) c ctx =
    load_entries_lem (read_entry mapping name entry) entries c ctx
    ∙ ap (or_else (holder (c ∷ ctx) entries)) (read_entry_lem mapping name entry c ctx)
    ∙ sym (
        or_else_assoc (holder (c ∷ ctx) entries)
          (if holds (c ∷ ctx) name entry then some name else none) (read mapping (c ∷ ctx)))

pub or_else-none : (a : Option Text) → or_else a none ≡ a
or_else-none none = refl
or_else-none (some a) = refl

pub load_from_dir_lem :
    (entries : Dir) (c : ℕ) (ctx : Text)
    → read (load_from_dir entries) (c ∷ ctx) ≡ holder (c ∷ ctx) entries
unfolding load_from_dir read
load_from_dir_lem entries c ctx =
    load_entries_lem [] entries c ctx ∙ or_else-none (holder (c ∷ ctx) entries)
