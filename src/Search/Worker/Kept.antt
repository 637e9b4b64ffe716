-- ===== src/Search/Worker/Kept.antt =====
-- What the two maps of a live search hold of a context.
use kswitch.Prelude.{
  Text, ◌==◌, ◌≡◌, refl, ◌∙◌, Bool-cases, inl, inr, if◌then◌else◌, is_empty, some, List, [], ◌∷◌,
  keep_if, arith,
}
use kswitch.Prelude.Dict.{Dict, read, read-assign}
use kswitch.Search.{Store}
use kswitch.Search.Worker.{Remembered, remember, remember_all}
use kswitch.Search.Worker.Found.{IsMap, IsMap-assign}

module _ (store : Store) (mapping : Dict Text) where
  pub remember_all-IsMap :
      (path : Text) (tags : Dict Text) (seen : Remembered) (ns : List Text)
      → IsMap store mapping seen.paths
      → IsMap store mapping (remember_all path tags seen ns).paths
  unfolding remember_all remember
  remember_all-IsMap path tags seen [] m = m
  remember_all-IsMap path tags seen (n ∷ ns) m =
      remember_all-IsMap path tags (remember path tags seen n) ns
        (IsMap-assign store mapping seen.paths n path m)

-- The name is kept as it was, by names that do not hold it.
pub remember_all-lacks :
    (asked path : Text) (tags : Dict Text) (seen : Remembered) (ns : List Text)
    → keep_if (λ n. n == asked) ns ≡ []
    → (read (remember_all path tags seen ns).paths asked ≡ read seen.paths asked)
      × (read (remember_all path tags seen ns).tags asked ≡ read seen.tags asked)
unfolding remember_all remember
remember_all-lacks asked path tags seen [] h = (refl, refl)
remember_all-lacks asked path tags seen (n ∷ ns) h = elim (Bool-cases (n == asked)) [
  | inl same ↦ absurd (ground (arith, same, h))
  | inr other ↦
      let (p, t) =
        remember_all-lacks asked path tags (remember path tags seen n) ns (rw other at h) in
      (
        p ∙ read-assign seen.paths n asked path ∙ rw other,
        t ∙ elim (Bool-cases (is_empty tags)) [
          | inl bare ↦ rw bare
          | inr full ↦ rw full (read-assign seen.tags n asked tags ∙ rw other)
        ],
      )
]

-- A name that stands once is kept with the path and the tags.
pub remember_all-once :
    (asked path : Text) (tags : Dict Text) (seen : Remembered) (ns : List Text)
    → keep_if (λ n. n == asked) ns ≡ asked ∷ []
    → (read (remember_all path tags seen ns).paths asked ≡ some path)
      × (read (remember_all path tags seen ns).tags asked
          ≡ (if is_empty tags then read seen.tags asked else some tags))
unfolding remember_all remember
remember_all-once asked path tags seen [] h = absurd (cc)
remember_all-once asked path tags seen (n ∷ ns) h = elim (Bool-cases (n == asked)) [
  | inl same ↦
      let (p, t) =
        remember_all-lacks asked path tags (remember path tags seen n) ns
          (ground (arith, same, h)) in
      (
        p ∙ read-assign seen.paths n asked path ∙ rw same,
        t ∙ elim (Bool-cases (is_empty tags)) [
          | inl bare ↦ rw bare
          | inr full ↦ rw full (read-assign seen.tags n asked tags ∙ rw same)
        ],
      )
  | inr other ↦
      let (p, t) =
        remember_all-once asked path tags (remember path tags seen n) ns (rw other at h) in
      (p, t ∙ elim (Bool-cases (is_empty tags)) [ inl bare ↦ rw bare | inr full ↦ rw full ])
]
