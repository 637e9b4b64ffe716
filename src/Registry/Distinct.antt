-- ===== src/Registry/Distinct.antt =====
-- The registration succeeds exactly for distinct kinds, and each kind has its own factory.
use kswitch.Prelude.{
  Text, ◌==◌, ==_iff, ==_refl, ◌≡◌, refl, sym, ap, ◌∙◌, Bool, true, false, ◌||◌, inl, inr,
  Bool-cases, Option-cases, is_elem, any_of, ==_false, All, Option, none, some, List, [], ◌∷◌,
  arith,
}
use kswitch.Prelude.Dict.{Dict, read, assign, read-assign}
use kswitch.Prelude.Go.{Go, ok, panic}
use kswitch.Registry.{RegistryError, added, register, register_all, called, create}

differ : (kind k : Text) → (kind == k) ≡ false → k ≡ kind → ⊥
differ kind k other e = let same : (kind == k) ≡ true = (==_iff kind k).1 (sym e) in cc

-- A kind that stands in the list twice.
pub repeated : List Text → Bool
repeated [] = false
repeated (kind ∷ kinds) = is_elem kind kinds || repeated kinds

shuffle : (a b c d : Bool) → (a || ((b || c) || d)) ≡ ((a || c) || (b || d))
shuffle a b c d = ground arith

shuffle_elem : (e a b c : Bool) → ((e || a) || (b || c)) ≡ ((e || b) || (a || c))
shuffle_elem e a b c = ground arith

module _ {F : Type 0} where
  abbrev pub kinds_of : List (Text × F) → List Text
  kinds_of [] = []
  kinds_of ((kind, factory) ∷ entries) = kind ∷ kinds_of entries

  abbrev has : Option F → Bool
  has none = false
  has (some f) = true

  -- Some kind is registered already, or twice.
  pub repeats : Dict F → List (Text × F) → Bool
  repeats registry [] = false
  repeats registry ((kind, factory) ∷ entries) =
      let later = repeats (assign registry kind factory) entries in
      has (read registry kind) || later

  register_all_panics :
      (registry : Dict F) (entries : List (Text × F))
      → repeats registry entries ≡ true
      → register_all registry entries ≡ panic
  unfolding register_all register added repeats
  register_all_panics registry [] h = absurd (cc)
  register_all_panics registry ((kind, factory) ∷ entries) h =
      elim (Option-cases (read registry kind)) [
        | inl new ↦
            let h' : repeats (assign registry kind factory) entries ≡ true = rw new at h in
            rw new (register_all_panics (assign registry kind factory) entries h')
        | inr (old, e) ↦ rw e
      ]

  kept :
      (registry : Dict F) (kind k : Text) (factory f : F)
      → read registry kind ≡ none
      → read registry k ≡ some f
      → read (assign registry kind factory) k ≡ some f
  kept registry kind k factory f new e = elim (Bool-cases (kind == k)) [
    | inl same ↦
        let none_there : read registry k ≡ none =
          ap (read registry) (sym ((==_iff kind k).0 same)) ∙ new in
        absurd (cc)
    | inr other ↦ read-assign registry kind k factory ∙ rw other e
  ]

  -- What was registered stays.
  register_all-read :
      (registry : Dict F) (entries : List (Text × F))
      → repeats registry entries ≡ false
      → (registry' : Dict F) × (register_all registry entries ≡ ok registry')
        × ((kind : Text) (f : F) → read registry kind ≡ some f → read registry' kind ≡ some f)
        × All (λ (e : Text × F). read registry' e.0 ≡ some e.1) entries
  unfolding register_all register added repeats
  register_all-read registry [] h = (registry, refl, λ kind f e. e, tt)
  register_all-read registry ((kind, factory) ∷ entries) h =
      elim (Option-cases (read registry kind)) [
        | inl new ↦
            let h' : repeats (assign registry kind factory) entries ≡ false = rw new at h in
            let (last, runs, stays, own) =
              register_all-read (assign registry kind factory) entries h' in
            let here : read (assign registry kind factory) kind ≡ some factory =
              read-assign registry kind kind factory ∙ rw (==_refl kind) in
            (
              last,
              rw new runs,
              λ k f e. stays k f (kept registry kind k factory f new e),
              (stays kind factory here, own),
            )
        | inr (old, e) ↦ let h' : true ≡ false = rw e at h in absurd (cc)
      ]

  has_assigned :
      (registry : Dict F) (kind k : Text) (factory : F)
      → has (read (assign registry kind factory) k) ≡ (k == kind || has (read registry k))
  has_assigned registry kind k factory = elim (Bool-cases (kind == k)) [
    | inl same ↦
        let back : (k == kind) ≡ true = (==_iff k kind).1 (sym ((==_iff kind k).0 same)) in
        let got : read (assign registry kind factory) k ≡ some factory =
          read-assign registry kind k factory ∙ rw same in
        ap has got ∙ rw back
    | inr other ↦
        let back : (k == kind) ≡ false = ==_false (λ e. absurd (differ kind k other e)) in
        let got : read (assign registry kind factory) k ≡ read registry k =
          read-assign registry kind k factory ∙ rw other in
        ap has got ∙ rw back
  ]

  any_assigned :
      (registry : Dict F) (kind : Text) (factory : F) (kinds : List Text)
      → any_of (λ k. has (read (assign registry kind factory) k)) kinds
        ≡ (is_elem kind kinds || any_of (λ k. has (read registry k)) kinds)
  any_assigned registry kind factory [] = refl
  any_assigned registry kind factory (k ∷ kinds) =
      simp (has_assigned registry kind k factory, any_assigned registry kind factory kinds)
        (shuffle_elem (k == kind) (has (read registry k)) (is_elem kind kinds)
          (any_of (λ j. has (read registry j)) kinds))

  repeats-repeated :
      (registry : Dict F) (entries : List (Text × F))
      → repeats registry entries
        ≡ (any_of (λ k. has (read registry k)) (kinds_of entries) || repeated (kinds_of entries))
  unfolding repeats repeated
  repeats-repeated registry [] = refl
  repeats-repeated registry ((kind, factory) ∷ entries) =
      simp
        (
          repeats-repeated (assign registry kind factory) entries,
          any_assigned registry kind factory (kinds_of entries),
        )
        (shuffle (has (read registry kind)) (is_elem kind (kinds_of entries))
          (any_of (λ k. has (read registry k)) (kinds_of entries)) (repeated (kinds_of entries)))

  nothing_there :
      (entries : List (Text × F)) → any_of (λ k. has (read {V = F} [] k)) (kinds_of entries) ≡ false
  unfolding read
  nothing_there [] = refl
  nothing_there ((kind, factory) ∷ entries) = nothing_there entries

  only_repeated : (entries : List (Text × F)) → repeats [] entries ≡ repeated (kinds_of entries)
  only_repeated entries = repeats-repeated [] entries ∙ rw (nothing_there entries)

created :
    {Config Store : Type 0} (registry : Dict (Config → Go RegistryError (Option Store)))
    (entries : List (Text × (Config → Go RegistryError (Option Store))))
    → All
        (λ (e : Text × (Config → Go RegistryError (Option Store))). read registry e.0 ≡ some e.1)
        entries
    → All
        (λ (e : Text × (Config → Go RegistryError (Option Store))).
          (config : Config) → create registry e.0 config ≡ e.1 config)
        entries
unfolding create called
created registry [] h = tt
created registry (e ∷ entries) (here, h) =
    (λ config. ap (called config) here, created registry entries h)

-- The stores register one after the other: where a kind is registered twice, this panics; and if no
-- kind is, it succeeds, and then a store of each kind is created by the factory of that kind.
pub register_all-create :
    {Config Store : Type 0} (entries : List (Text × (Config → Go RegistryError (Option Store))))
    → (repeated (kinds_of entries) ≡ true → register_all [] entries ≡ panic)
      × (repeated (kinds_of entries) ≡ false
          → (registry : Dict (Config → Go RegistryError (Option Store))) × (register_all [] entries
              ≡ ok registry)
            × All
                (λ (e : Text × (Config → Go RegistryError (Option Store))).
                  (config : Config) → create registry e.0 config ≡ e.1 config)
                entries)
register_all-create entries = (
  λ h. register_all_panics [] entries (only_repeated entries ∙ h),
  λ h.
      let (registry, runs, stays, own) = register_all-read [] entries (only_repeated entries ∙ h) in
      (registry, runs, created registry entries own),
)
