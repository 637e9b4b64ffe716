-- ===== src/Search/Index/Fresh.antt =====
-- When an index that was written is used.
use kswitch.Prelude.{
  ℕ, ◌+◌, Text, ◌==◌, ==_refl, ◌≡◌, refl, ap, Bool, false, not, ◌&&◌, ◌||◌, Bool-cases,
  Option-cases, inl, inr, ltb, Option, none, some,
}
use kswitch.Prelude.Dict.{Dict}
use kswitch.Prelude.Go.{ok}
use kswitch.Search.{Store}
use kswitch.Search.Index.{
  Index, IndexFiles, new_index, has_kind, get_content, env_and_flag, should_be_used,
  get_index_state, should_read_from_index, read_from_index, write_index, or_global, is_before,
}

-- The time span after which the store's index is refreshed: its own, or that of the configuration.
abbrev pub refresh_span : Store → Option ℕ → Option ℕ
refresh_span store global = elim store.refresh_index_after [
  | none ↦ global
  | some local ↦ some local
]

abbrev pub within : ℕ → ℕ → Option ℕ → Bool
within now written none = false
within now written (some span) = ltb now (written + span)

span_lem :
    (now written : ℕ) (store : Store) (global : Option ℕ)
    → is_before now
        (record { kind = store.kind; last_update_time = written })
        (or_global store.refresh_index_after global)
      ≡ within now written (refresh_span store global)
unfolding is_before or_global
span_lem now written store global = elim (Option-cases store.refresh_index_after) [
  | inl absent ↦ elim (Option-cases global) [
    | inl never ↦ rw (absent, never)
    | inr (span, e) ↦ rw (absent, e)
  ]
  | inr (span, local) ↦ rw local
]

-- After a search wrote the index of a store, that content is loaded for its kind; and a later search
-- reads from it just if the index is not turned off, and either is forced, or the store is not the
-- one of the environment and the flag, and the time since is less than the refresh span of the store
-- or, where it has none, of the configuration. Without a span it is not read.
pub read_from_index-write_index :
    (written now : ℕ) (store : Store) (paths : Dict Text) (tags : Dict (Dict Text))
    (files : IndexFiles) (no_index force_index : Bool) (global : Option ℕ)
    → (index : Index) × (new_index (write_index written store paths tags files) ≡ ok (some index))
      × (get_content (some index) ≡ (paths, tags))
      × (read_from_index now no_index force_index
            (some index)
            store
            global
            (write_index written store paths tags files)
          ≡ ok (
              not no_index
              && (force_index
                  || (not (store.id == env_and_flag)
                      && within now written (refresh_span store global)))))
unfolding new_index write_index get_content read_from_index should_read_from_index should_be_used
    get_index_state has_kind
read_from_index-write_index written now store paths tags files no_index force_index global = (
  record { kind = store.kind; context_to_path_mapping = paths; context_to_tags = tags },
  refl,
  refl,
  elim (Bool-cases no_index) [
    | inl off ↦ rw off
    | inr on ↦ elim (Bool-cases force_index) [
      | inl forced ↦ rw (on, forced, ==_refl store.kind)
      | inr free ↦ elim (Bool-cases (store.id == env_and_flag)) [
        | inl env ↦ rw (on, free, env)
        | inr other ↦
            rw (on, free, other, ==_refl store.kind) (ap ok (span_lem now written store global))
      ]
    ]
  ],
)
