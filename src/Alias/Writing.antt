-- ===== src/Alias/Writing.antt =====
-- What is loaded after `WriteAlias`.
use mathlib.Core.Path.{subst}
use kswitch.Prelude.{
  ℕ, ap, sym, ◌∙◌, Text, text, ◌==◌, ==_iff, ◌≡◌, ◌≢◌, refl, Bool, true, false, ◌||◌, Bool-cases,
  inl, inr, if◌then◌else◌, Option, none, some, [], ◌∷◌, any_of, arith,
}
use kswitch.Prelude.Dict.{Dict, read, assign, delete}
use kswitch.Prelude.Go.{ok}
use kswitch.Prelude.Strings.{has_prefix}
use kswitch.Alias.{
  Entry, file, folder, Dir, Disk, trim_space, validate_alias_name, insert_file, replace_file,
  precedes, over, write_alias_file, write_alias, contains_alias, without, or_empty, load_from_dir,
}
use kswitch.Alias.Loading.{holds, or_else, or_else-none, holder, load_from_dir_lem}

no_dot : (name : Text) → validate_alias_name name ≡ ok tt → has_prefix name (text ".") ≡ false
unfolding validate_alias_name
no_dot [] h = absurd (cc)
no_dot (c ∷ name) h = elim (Bool-cases (has_prefix (c ∷ name) (text "."))) [
  | inr plain ↦ plain
  | inl dot ↦ elim (Bool-cases ((c ∷ name) == text "." || (c ∷ name) == text "..")) [
    | inl reserved ↦ absurd (ground (arith, reserved, h))
    | inr other ↦ absurd (ground (arith, other, dot, h))
  ]
]

nothing : (a b : Option Text) → or_else a b ≡ none → (a ≡ none) × (b ≡ none)
nothing none b h = (refl, h)
nothing (some a) b h = absurd (cc)

pick : (b : Bool) (name : Text) → b ≡ false → (if b then some name else none) ≡ none
pick b name h = rw h

module _ (name content : Text) where
  has_file : Dir → Bool
  has_file = any_of (λ e. e.0 == name)

  replaced_other :
      (asked : Text) (entries : Dir)
      → holds asked name (file content) ≡ false
      → holder asked (replace_file name content entries) ≡ holder asked (delete entries name)
  unfolding replace_file delete
  replaced_other asked [] h = refl
  replaced_other asked ((other, entry) ∷ entries) h =
      let later = replaced_other asked entries h in
      elim (Bool-cases (other == name)) [
        | inl same ↦
            let e : other ≡ name = (==_iff other name).0 same in
            let gone : holds asked other (file content) ≡ false =
              subst (λ n. holds asked n (file content) ≡ false) (sym e) h in
            rw (same, gone) (or_else-none _ ∙ later)
        | inr different ↦ rw (different, later)
      ]

  replaced_same :
      (asked : Text) (entries : Dir)
      → holds asked name (file content) ≡ true
      → holder asked (delete entries name) ≡ none
      → holder asked (replace_file name content entries)
        ≡ (if has_file entries then some name else none)
  unfolding replace_file delete has_file
  replaced_same asked [] h alone = refl
  replaced_same asked ((other, entry) ∷ entries) h alone = elim (Bool-cases (other == name)) [
    | inl same ↦
        let e : other ≡ name = (==_iff other name).0 same in
        let later = replaced_same asked entries h (rw same at alone) in
        let held : holds asked other (file content) ≡ true =
          subst (λ n. holds asked n (file content) ≡ true) (sym e) h in
        elim (Bool-cases (has_file entries)) [
          | inl more ↦ rw (same, later, more)
          | inr last ↦ rw (same, later, last, held) (ap some e)
        ]
    | inr different ↦
        let (rest, here) =
          nothing (holder asked (delete entries name))
            (if holds asked other entry then some other else none) (rw different at alone) in
        rw (different, replaced_same asked entries h rest, here) (or_else-none _)
  ]

  inserted_other :
      (asked : Text) (entries : Dir)
      → holds asked name (file content) ≡ false
      → holder asked (insert_file name content entries) ≡ holder asked entries
  unfolding insert_file
  inserted_other asked [] h = rw h
  inserted_other asked ((other, entry) ∷ entries) h = elim (Bool-cases (precedes name other)) [
    | inl first ↦ rw (first, h) (or_else-none _)
    | inr later ↦ rw (later, inserted_other asked entries h)
  ]

  inserted_same :
      (asked : Text) (entries : Dir)
      → holds asked name (file content) ≡ true
      → holder asked entries ≡ none
      → holder asked (insert_file name content entries) ≡ some name
  unfolding insert_file
  inserted_same asked [] h alone = rw h
  inserted_same asked ((other, entry) ∷ entries) h alone =
      let (rest, here) =
        nothing (holder asked entries) (if holds asked other entry then some other else none)
          alone in
      elim (Bool-cases (precedes name other)) [
        | inl first ↦ rw (first, rest, here, h)
        | inr later ↦ rw (later, inserted_same asked entries h rest)
      ]

  no_file : (entries : Dir) → read entries name ≡ none → delete entries name ≡ entries
  unfolding read delete
  no_file [] h = refl
  no_file ((other, entry) ∷ entries) h = elim (Bool-cases (other == name)) [
    | inl same ↦ absurd (ground (arith, same, h))
    | inr different ↦ rw (different, no_file entries (rw (read, different) at h))
  ]

  a_file : (entries : Dir) (e : Entry) → read entries name ≡ some e → has_file entries ≡ true
  unfolding read has_file
  a_file [] e h = absurd (cc)
  a_file ((other, entry) ∷ entries) e h = elim (Bool-cases (other == name)) [
    | inl same ↦ rw same
    | inr different ↦ rw different (a_file entries e (rw (read, different) at h))
  ]

  -- The directory after `writeAliasFile`.
  pub record IsWritten (asked : Text) (before after : Dir) : Type 0 where
    pub same :
        holds asked name (file content) ≡ true
        → holder asked (delete before name) ≡ none
        → holder asked after ≡ some name
    pub other :
        holds asked name (file content) ≡ false
        → holder asked after ≡ holder asked (delete before name)

  written :
      (asked : Text) (entries : Dir)
      → read entries name ≢ some folder
      → (after : Dir) × (over name content entries (read entries name) ≡ ok after)
        × IsWritten asked entries after
  unfolding over
  written asked entries not_folder = go (read entries name) refl
    where
      go :
          (o : Option Entry)
          → read entries name ≡ o
          → (after : Dir) × (over name content entries o ≡ ok after) × IsWritten asked entries after
      go none absent = (
        insert_file name content entries,
        refl,
        record {
          same = λ h alone. inserted_same asked entries h (rw (no_file entries absent) at alone);
          other = λ h.
              inserted_other asked entries h ∙ ap (holder asked) (sym (no_file entries absent));
        },
      )
      go (some folder) found = absurd (not_folder found)
      go (some (file old)) found = (
        replace_file name content entries,
        refl,
        record {
          same =
              λ h alone. replaced_same asked entries h alone ∙ rw (a_file entries (file old) found);
          other = replaced_other asked entries;
        },
      )

holds_lem :
    (name : Text) (c : ℕ) (ctx : Text) (a : ℕ) (asked : Text)
    → validate_alias_name name ≡ ok tt
    → trim_space (c ∷ ctx) ≡ c ∷ ctx
    → holds (a ∷ asked) name (file (c ∷ ctx)) ≡ ((c ∷ ctx) == (a ∷ asked))
holds_lem name c ctx a asked valid trimmed = rw (no_dot name valid, trimmed)

-- `WriteAlias` with a valid alias name, that is not the name of a directory there, and a context
-- without white space at its ends succeeds. When no other alias file holds the context, loading the
-- directory again gives the context that alias, and every other context what it has without the
-- file of that alias.
pub write_alias_lem :
    (name : Text) (c : ℕ) (ctx : Text) (loaded : Option (Dict Text)) (disk : Disk) (a : ℕ)
    (asked : Text)
    → validate_alias_name name ≡ ok tt
    → trim_space (c ∷ ctx) ≡ c ∷ ctx
    → read (or_empty disk.aliases) name ≢ some folder
    → read (load_from_dir (delete (or_empty disk.aliases) name)) (c ∷ ctx) ≡ none
    → (replaced : Option Text) × (mapping : Dict Text) × (entries : Dir) × (write_alias name
          (c ∷ ctx)
          loaded
          disk
        ≡ ok (replaced, mapping, record disk { aliases = some entries }))
      × (read (load_from_dir entries) (a ∷ asked) ≡ (
          if (c ∷ ctx) == (a ∷ asked)
          then some name
          else read (load_from_dir (delete (or_empty disk.aliases) name)) (a ∷ asked)))
unfolding write_alias write_alias_file
write_alias_lem name c ctx loaded disk a asked valid trimmed not_folder alone =
    let before = or_empty disk.aliases in
    let (after, runs, w) = written name (c ∷ ctx) (a ∷ asked) before not_folder in
    let hold = holds_lem name c ctx a asked valid trimmed in
    let alone' = sym (load_from_dir_lem (delete before name) c ctx) ∙ alone in
    (
      contains_alias (or_empty loaded) name,
      assign (without (or_empty loaded) (contains_alias (or_empty loaded) name)) (c ∷ ctx) name,
      after,
      rw (valid, runs),
      load_from_dir_lem after a asked ∙ elim (Bool-cases ((c ∷ ctx) == (a ∷ asked))) [
        | inl same ↦
            let e = (==_iff (c ∷ ctx) (a ∷ asked)).0 same in
            rw same
              (w.same (hold ∙ same) (subst (λ t. holder t (delete before name) ≡ none) e alone'))
        | inr other ↦
            rw other (w.other (hold ∙ other) ∙ sym (load_from_dir_lem (delete before name) a asked))
      ],
    )
