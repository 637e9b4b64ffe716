-- ===== src/Search/Worker/Recall.antt =====
-- A search from the index gives again what the live search that wrote it gave.
use kswitch.Prelude.{
  keep_if-append, append-first-nil, append-second-nil, append-one, Text, ◌==◌, ◌≡◌, refl, sym, ap,
  ◌∙◌, map, Bool-cases, inl, inr, if◌then◌else◌, is_empty, Option, none, some, List, [], ◌∷◌, ◌++◌,
  keep_if, append-nil,
}
use kswitch.Prelude.Dict.{Dict, read}
use kswitch.Alias.{Disk}
use kswitch.Search.{Store, KubeConfig, SearchResult}
use kswitch.Search.Index.{get_content}
use kswitch.Search.Worker.{
  Message, found, failed, display_aliases, or_none, store_aliases_from_tags, get_context_for_alias,
  value_or_empty, label_key_cluster_name, emit, emit_names, tags_or_empty, Remembered, remember_all,
  Outcome, names, reported, skipped, outcome, send, keep, search_live, search_index,
  nothing_remembered, index_of, auto_alias,
}
use kswitch.Search.Worker.Found.{at_name, is_named, at_name-emit_names, IsMap, IsMap-empty, by_path}
use kswitch.Search.Worker.Kept.{remember_all-IsMap, remember_all-lacks, remember_all-once}

-- The names in an outcome.
abbrev pub named_in : Outcome → List Text
named_in (names path tags ns) = ns
named_in reported = []
named_in skipped = []

module _ (parse : Text → Option KubeConfig) (unmarshal : Text → Option (Option (Dict Text))) where
  -- The names of all the results, in the order of the search.
  unfoldable pub context_names : Store → List SearchResult → List Text
  context_names store [] = []
  context_names store (r ∷ rs) =
      named_in (outcome parse unmarshal store r) ++ context_names store rs

  keep-IsMap :
      (store : Store) (mapping : Dict Text) (seen : Remembered) (o : Outcome)
      → IsMap store mapping seen.paths
      → IsMap store mapping (keep parse unmarshal seen o).paths
  unfolding keep
  keep-IsMap store mapping seen (names path tags ns) m =
      remember_all-IsMap store mapping path tags _ ns m
  keep-IsMap store mapping seen reported m = m
  keep-IsMap store mapping seen skipped m = m

  -- What is remembered does not depend on the mapping of the search.
  search_live-IsMap :
      (store : Store) (mapping later : Dict Text) (seen : Remembered) (rs : List SearchResult)
      → IsMap store later seen.paths
      → IsMap store later (search_live parse unmarshal store mapping seen rs).1.paths
  unfolding search_live
  search_live-IsMap store mapping later seen [] m = m
  search_live-IsMap store mapping later seen (r ∷ rs) m =
      search_live-IsMap store mapping later
        (keep parse unmarshal seen (outcome parse unmarshal store r)) rs
        (keep-IsMap store later seen (outcome parse unmarshal store r) m)

  module _ (store : Store) (mapping : Dict Text) where
    at_name-send :
        (asked : Text) (o : Outcome)
        → keep_if (λ n. n == asked) (named_in o) ≡ []
        → at_name asked (send parse unmarshal store mapping o) ≡ []
    unfolding send emit_names
    at_name-send asked (names path tags ns) h =
        at_name-emit_names store mapping asked path tags ns ∙ rw h
    at_name-send asked reported h = refl
    at_name-send asked skipped h = refl

    keep-lacks :
        (asked : Text) (seen : Remembered) (o : Outcome)
        → keep_if (λ n. n == asked) (named_in o) ≡ []
        → (read (keep parse unmarshal seen o).paths asked ≡ read seen.paths asked)
          × (read (keep parse unmarshal seen o).tags asked ≡ read seen.tags asked)
    unfolding keep
    keep-lacks asked seen (names path tags ns) h = remember_all-lacks asked path tags _ ns h
    keep-lacks asked seen reported h = (refl, refl)
    keep-lacks asked seen skipped h = (refl, refl)

    -- Results that do not name the context send nothing about it, and keep what is remembered of it.
    search_live-lacks :
        (asked : Text) (seen : Remembered) (rs : List SearchResult)
        → keep_if (λ n. n == asked) (context_names store rs) ≡ []
        → (at_name asked (search_live parse unmarshal store mapping seen rs).0 ≡ [])
          × (read (search_live parse unmarshal store mapping seen rs).1.paths asked
              ≡ read seen.paths asked)
          × (read (search_live parse unmarshal store mapping seen rs).1.tags asked
              ≡ read seen.tags asked)
    unfolding search_live context_names
    search_live-lacks asked seen [] h = (refl, refl, refl)
    search_live-lacks asked seen (r ∷ rs) h =
        let o = outcome parse unmarshal store r in
        let e = sym (keep_if-append (λ n. n == asked) (named_in o) (context_names store rs)) ∙ h in
        let here = append-first-nil _ _ e in
        let (m, p, t) =
          search_live-lacks asked (keep parse unmarshal seen o) rs (append-second-nil _ _ e) in
        let (p', t') = keep-lacks asked seen o here in
        (
          keep_if-append (is_named asked) (send parse unmarshal store mapping o) _
              ∙ rw (at_name-send asked o here, m),
          p ∙ p',
          t ∙ t',
        )

    sent_once :
        (asked path : Text) (tags : Dict Text)
        → (emit store mapping path asked tags ++ []) ++ []
          ≡ emit store mapping path asked
              (tags_or_empty (if is_empty tags then none else some tags))
    unfolding tags_or_empty
    sent_once asked path [] = append-nil _ ∙ append-nil _
    sent_once asked path (t ∷ tags) = append-nil _ ∙ append-nil _

    here_once :
        (asked : Text) (seen : Remembered) (o : Outcome) (rs : List SearchResult)
        → keep_if (λ n. n == asked) (named_in o) ≡ asked ∷ []
        → keep_if (λ n. n == asked) (context_names store rs) ≡ []
        → read seen.tags asked ≡ none
        → at_name asked (
            send parse unmarshal store mapping o
            ++ (search_live parse unmarshal store mapping (keep parse unmarshal seen o) rs).0)
          ≡ by_path store mapping asked
              (search_live parse unmarshal store mapping (keep parse unmarshal seen o) rs).1.tags
              (read
                (search_live parse unmarshal store mapping (keep parse unmarshal seen o) rs).1.paths
                asked)
    unfolding send keep emit_names by_path tags_or_empty
    here_once asked seen reported rs h later new = absurd (cc)
    here_once asked seen skipped rs h later new = absurd (cc)
    here_once asked seen (names path tags ns) rs h later new =
        let seen' : Remembered = record seen {
          aliases =
              auto_alias parse unmarshal (value_or_empty (read tags label_key_cluster_name)) ns
                seen.aliases;
        } in
        let (m, p, t) = search_live-lacks asked (remember_all path tags seen' ns) rs later in
        let (p', t') = remember_all-once asked path tags seen' ns h in
        keep_if-append (is_named asked) (emit_names store mapping path tags ns) _
        ∙ rw (m, at_name-emit_names store mapping asked path tags ns, h, p, p', t, t', new)
            (sent_once asked path tags)

    recalled :
        (asked : Text) (seen : Remembered) (rs : List SearchResult)
        → keep_if (λ n. n == asked) (context_names store rs) ≡ asked ∷ []
        → read seen.tags asked ≡ none
        → at_name asked (search_live parse unmarshal store mapping seen rs).0
          ≡ by_path store mapping asked
              (search_live parse unmarshal store mapping seen rs).1.tags
              (read (search_live parse unmarshal store mapping seen rs).1.paths asked)
    unfolding search_live context_names
    recalled asked seen [] h new = absurd (cc)
    recalled asked seen (r ∷ rs) h new =
        let o = outcome parse unmarshal store r in
        let rest = (search_live parse unmarshal store mapping (keep parse unmarshal seen o) rs).0 in
        let e = sym (keep_if-append (λ n. n == asked) (named_in o) (context_names store rs)) ∙ h in
        elim (append-one asked (keep_if (λ n. n == asked) (named_in o))
          (keep_if (λ n. n == asked) (context_names store rs)) e) [
            | inl (nothing, later) ↦
                keep_if-append (is_named asked) (send parse unmarshal store mapping o) rest
                ∙ rw (at_name-send asked o nothing) (
                    recalled asked (keep parse unmarshal seen o) rs later
                      ((keep-lacks asked seen o nothing).1 ∙ new))
            | inr (once, later) ↦ here_once asked seen o rs once later new
          ]

-- The message about a context, sent again under the aliases that a mapping gives.
abbrev pub sent_again : Dict Text → List Message → List Message
sent_again mapping [] = []
sent_again mapping (failed ∷ messages) = []
sent_again mapping (found dc ∷ messages) =
    map (λ alias. found (record dc { alias = alias })) (display_aliases dc.name dc.tags mapping)

or_none-filled :
    (aliases : List Text) → (a : Text) × (others : List Text) × (or_none aliases ≡ a ∷ others)
unfolding or_none
or_none-filled [] = ([], [], refl)
or_none-filled (a ∷ others) = (a, others, refl)

display_aliases-filled :
    (name : Text) (tags mapping : Dict Text)
    → (a : Text) × (others : List Text) × (display_aliases name tags mapping ≡ a ∷ others)
unfolding display_aliases
display_aliases-filled name tags mapping =
    elim (Bool-cases (is_empty (get_context_for_alias name mapping))) [
      | inl e ↦ rw e (or_none-filled (store_aliases_from_tags tags))
      | inr e ↦ rw e (get_context_for_alias name mapping, [], refl)
    ]

sent_again-by_path :
    (store : Store) (mapping later : Dict Text) (asked : Text) (tags : Dict (Dict Text))
    (path : Option Text)
    → by_path store later asked tags path ≡ sent_again later (by_path store mapping asked tags path)
unfolding by_path emit
sent_again-by_path store mapping later asked tags none = refl
sent_again-by_path store mapping later asked tags (some path) =
    let (a, others, e) = display_aliases-filled asked (tags_or_empty (read tags asked)) mapping in
    rw e

-- For every store, alias files and results of a live search, and every two alias mappings, that of the
-- live search and that which a later search loads: where the results name a context once, the later
-- search, which reads the index that the live search wrote, sends about the context the path, the tags
-- and the store which the live search sent about it, under the alias of the later mapping if it has one
-- for the context, else under those in the tags. With the same mapping it sends the same messages.
pub search_index-search_live :
    (parse : Text → Option KubeConfig) (unmarshal : Text → Option (Option (Dict Text)))
    (store : Store) (mapping later : Dict Text) (disk : Disk) (results : List SearchResult)
    (asked : Text)
    → keep_if (λ n. n == asked) (context_names parse unmarshal store results) ≡ asked ∷ []
    → (at_name asked (
          search_index store later (
            some (
              index_of store
                (search_live parse unmarshal store mapping (nothing_remembered disk) results).1)))
        ≡ sent_again later (
            at_name asked
              (search_live parse unmarshal store mapping (nothing_remembered disk) results).0))
      × (at_name asked (
            search_index store mapping (
              some (
                index_of store
                  (search_live parse unmarshal store mapping (nothing_remembered disk) results).1)))
          ≡ at_name asked
              (search_live parse unmarshal store mapping (nothing_remembered disk) results).0)
unfolding search_index index_of nothing_remembered get_content IsMap read
search_index-search_live parse unmarshal store mapping later disk results asked once =
    let seen = (search_live parse unmarshal store mapping (nothing_remembered disk) results).1 in
    let live =
      recalled parse unmarshal store mapping asked (nothing_remembered disk) results once refl in
    (
      search_live-IsMap parse unmarshal store mapping later (nothing_remembered disk) results
            (IsMap-empty store later) seen.tags asked
          ∙ sent_again-by_path store mapping later asked seen.tags (read seen.paths asked)
          ∙ ap (sent_again later) (sym live),
      search_live-IsMap parse unmarshal store mapping mapping (nothing_remembered disk) results
            (IsMap-empty store mapping) seen.tags asked
          ∙ sym live,
    )
