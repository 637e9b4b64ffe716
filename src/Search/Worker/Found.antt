-- ===== src/Search/Worker/Found.antt =====
-- The messages about one context name.
use kswitch.Prelude.{
  keep_if-append, Text, ◌==◌, ==_iff, ◌≡◌, refl, sym, ap, ◌∙◌, Bool, false, Bool-cases, inl, inr,
  if◌then◌else◌, Option, none, some, List, [], ◌∷◌, ◌++◌, map, keep_if, append-nil, arith,
}
use kswitch.Prelude.Dict.{Dict, read, assign, delete, read-assign}
use kswitch.Search.{Store}
use kswitch.Search.Worker.{
  Message, found, failed, display_aliases, emit, emit_all, emit_names, tags_or_empty,
}

abbrev pub is_named : Text → Message → Bool
is_named name failed = false
is_named name (found dc) = dc.name == name

-- What is sent about a context.
abbrev pub at_name : Text → List Message → List Message
at_name name = keep_if (is_named name)

at_name-aliases :
    (asked path name : Text) (tags : Dict Text) (store : Store) (aliases : List Text)
    → at_name asked (
        map
          (λ alias.
            found (record { path = path; name = name; alias = alias; tags = tags; store = store }))
          aliases)
      ≡ (if name == asked
          then map
              (λ alias.
                found
                  (record { path = path; name = name; alias = alias; tags = tags; store = store }))
              aliases
          else [])
at_name-aliases asked path name tags store [] = elim (Bool-cases (name == asked)) [
  | inl e ↦ rw e
  | inr e ↦ rw e
]
at_name-aliases asked path name tags store (a ∷ aliases) =
    let later = at_name-aliases asked path name tags store aliases in
    elim (Bool-cases (name == asked)) [
      | inl same ↦ rw same (
          ap
            (λ t.
              found (record { path = path; name = name; alias = a; tags = tags; store = store })
              ∷ t)
            (rw same at later))
      | inr other ↦ rw other (rw other at later)
    ]

module _ (store : Store) (mapping : Dict Text) where
  pub at_name-emit :
      (asked path name : Text) (tags : Dict Text)
      → at_name asked (emit store mapping path name tags)
        ≡ (if name == asked then emit store mapping path name tags else [])
  unfolding emit
  at_name-emit asked path name tags =
      at_name-aliases asked path name tags store (display_aliases name tags mapping)

  pub at_name-emit_names :
      (asked path : Text) (tags : Dict Text) (names : List Text)
      → at_name asked (emit_names store mapping path tags names)
        ≡ emit_names store mapping path tags (keep_if (λ n. n == asked) names)
  unfolding emit_names
  at_name-emit_names asked path tags [] = refl
  at_name-emit_names asked path tags (name ∷ names) =
      let later = at_name-emit_names asked path tags names in
      keep_if-append (is_named asked) (emit store mapping path name tags)
        (emit_names store mapping path tags names)
      ∙ rw (at_name-emit asked path name tags) (elim (Bool-cases (name == asked)) [
        | inl same ↦ rw same (ap (λ t. emit store mapping path name tags ++ t) later)
        | inr other ↦ rw other later
      ])

  -- What an index with this path for the context sends about it.
  unfoldable pub by_path : Text → Dict (Dict Text) → Option Text → List Message
  by_path asked tags none = []
  by_path asked tags (some path) = emit store mapping path asked (tags_or_empty (read tags asked))

  -- The map holds each context once.
  unfoldable pub IsMap : Dict Text → Type 0
  IsMap content =
      (tags : Dict (Dict Text)) (asked : Text)
      → at_name asked (emit_all store mapping tags content)
        ≡ by_path asked tags (read content asked)

  emit_all-delete :
      (tags : Dict (Dict Text)) (content : Dict Text) (key asked : Text)
      → at_name asked (emit_all store mapping tags (delete content key))
        ≡ (if key == asked then [] else at_name asked (emit_all store mapping tags content))
  unfolding emit_all delete
  emit_all-delete tags [] key asked = ground arith
  emit_all-delete tags ((name, path) ∷ content) key asked =
      let later = emit_all-delete tags content key asked in
      let here = at_name-emit asked path name (tags_or_empty (read tags name)) in
      let both = λ (rest : Dict Text).
        keep_if-append (is_named asked)
          (emit store mapping path name (tags_or_empty (read tags name)))
          (emit_all store mapping tags rest) in
      elim (Bool-cases (name == key)) [
        | inl gone ↦
            let e = (==_iff name key).0 gone in
            rw gone (
              later ∙ elim (Bool-cases (key == asked)) [
                | inl same ↦ rw same
                | inr other ↦ rw other (sym (both content ∙ rw (here, e, other)))
              ])
        | inr stays ↦ rw stays (
            both (delete content key) ∙ elim (Bool-cases (key == asked)) [
              | inl same ↦
                  let e = (==_iff key asked).0 same in
                  let apart : (name == asked) ≡ false = ap (λ k. name == k) (sym e) ∙ stays in
                  rw (here, apart, later, same)
              | inr other ↦ rw (later, other) (sym (both content))
            ])
      ]

  pub IsMap-empty : IsMap []
  unfolding IsMap emit_all read by_path
  IsMap-empty tags asked = refl

  pub IsMap-assign :
      (content : Dict Text) (key path : Text) → IsMap content → IsMap (assign content key path)
  unfolding IsMap emit_all assign by_path
  IsMap-assign content key path m tags asked =
      keep_if-append (is_named asked) (emit store mapping path key (tags_or_empty (read tags key)))
        (emit_all store mapping tags (delete content key))
      ∙ rw
          (
            at_name-emit asked path key (tags_or_empty (read tags key)),
            emit_all-delete tags content key asked,
            read-assign content key asked path,
          )
          (elim (Bool-cases (key == asked)) [
            | inl same ↦ rw same (
                append-nil (emit store mapping path key (tags_or_empty (read tags key)))
                ∙ ap (λ k. emit store mapping path k (tags_or_empty (read tags k)))
                    ((==_iff key asked).0 same))
            | inr other ↦ rw other (m tags asked)
          ])
