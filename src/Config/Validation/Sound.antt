-- ===== src/Config/Validation/Sound.antt =====
-- What a configuration without errors has.
use kswitch.Prelude.{
  ℕ, zero, suc, ◌<◌, Text, text, ◌==◌, ==_iff, ◌≡◌, ◌≢◌, refl, ap, ◌∙◌, Bool, true, false, not,
  ◌&&◌, ◌||◌, Option-cases, inl, inr, nat_eq, is_empty, is_elem, any_of, get_elem?, some, List, [],
  ◌∷◌, ◌++◌, arith,
}
use mathlib.Core.Path.{subst}
use kswitch.Config.{Readings, Config, KubeconfigStore}
use kswitch.Config.Validation.{
  Segment, FieldError, error_if, is_some, or_empty_text, valid_store_kinds,
  validate_gardener_store_configuration, store_key, store_errors, stores_path, validate_stores,
  validate_config,
}

pub nothing {ℓ} : {A : Type ℓ} (xs ys : List A) → xs ++ ys ≡ [] → (xs ≡ []) × (ys ≡ [])
nothing [] ys h = (refl, h)
nothing (x ∷ xs) ys h = absurd (cc)

pub no_error : (b : Bool) (e : FieldError) → error_if b e ≡ [] → b ≡ false
no_error true e h = absurd (cc)
no_error false e h = refl

pub true_of_not : (b : Bool) → not b ≡ false → b ≡ true
true_of_not true h = refl
true_of_not false h = absurd (cc)

module _ (r : Readings) where
  abbrev pub key_of : KubeconfigStore r.Raw → Text
  key_of = store_key r []

  -- The key does not depend on where the store stands.
  same_key :
      (path : List Segment) (store : KubeconfigStore r.Raw) → store_key r path store ≡ key_of store
  unfolding store_key validate_gardener_store_configuration
  same_key path store = elim (Option-cases store.config) [
    | inl absent ↦ rw absent
    | inr (raw, present) ↦ elim (Option-cases (r.read_gardener raw)) [
      | inl unread ↦ rw (present, unread)
      | inr (config, read_) ↦ rw (present, read_)
    ]
  ]

  -- What a store without errors has, where `seen` holds the keys of the stores before it.
  record IsSoundStore (uses_index : Bool) (seen : List Text) (store : KubeconfigStore r.Raw)
      : Type 0 where
    kind : is_elem store.kind valid_store_kinds ≡ true
    no_dot : any_of (λ c. nat_eq c b'.') (or_empty_text store.id) ≡ false
    paths :
        (is_empty store.paths && (store.kind == text "filesystem" || store.kind == text "vault"))
        ≡ false
    unseen :
        ((uses_index || is_some store.refresh_index_after) && is_elem (key_of store) seen) ≡ false

  store_errors-IsSoundStore :
      (uses_index : Bool) (seen : List Text) (path : List Segment) (store : KubeconfigStore r.Raw)
      → store_errors r uses_index seen path store ≡ []
      → IsSoundStore uses_index seen store
  unfolding store_errors
  store_errors-IsSoundStore uses_index seen path store h =
      let (h5, e6) = nothing _ _ h in
      let (h4, e5) = nothing _ _ h5 in
      let (h3, e4) = nothing _ _ h4 in
      let (h2, e3) = nothing _ _ h3 in
      let (e1, e2) = nothing _ _ h2 in
      let taken = no_error _ _ e6 in
      record {
        kind = true_of_not _ (no_error _ _ e1);
        no_dot = no_error _ _ e2;
        paths = no_error _ _ e3;
        unseen = rw (same_key path store) at taken;
      }

  sound_store :
      (uses_index : Bool) (seen : List Text) (i : ℕ) (stores : List (KubeconfigStore r.Raw)) (j : ℕ)
      (store : KubeconfigStore r.Raw)
      → validate_stores r uses_index seen i stores ≡ []
      → get_elem? stores j ≡ some store
      → IsSoundStore uses_index seen store
  unfolding validate_stores
  sound_store uses_index seen i [] j store h at_j = absurd (cc)
  sound_store uses_index seen i (s ∷ stores) zero store h at_j =
      let e : s ≡ store = cc in
      subst (IsSoundStore uses_index seen) e
        (store_errors-IsSoundStore uses_index seen (stores_path r i) s (nothing _ _ h).0)
  sound_store uses_index seen i (s ∷ stores) (suc j) store h at_j =
      let later =
        sound_store uses_index (store_key r (stores_path r i) s ∷ seen) (suc i) stores j store
          (nothing _ _ h).1 at_j in
      record {
        kind = later.kind;
        no_dot = later.no_dot;
        paths = later.paths;
        unseen =
            weaker (uses_index || is_some store.refresh_index_after)
              (store_key r (stores_path r i) s == key_of store) (is_elem (key_of store) seen)
              later.unseen;
      }
    where
      weaker : (a b c : Bool) → (a && (b || c)) ≡ false → (a && c) ≡ false
      weaker false b c h = refl
      weaker true false c h = h
      weaker true true c h = absurd (cc)

  distinct :
      (uses_index : Bool) (seen : List Text) (i : ℕ) (stores : List (KubeconfigStore r.Raw))
      (j k : ℕ) (first second : KubeconfigStore r.Raw)
      → validate_stores r uses_index seen i stores ≡ []
      → j < k
      → get_elem? stores j ≡ some first
      → get_elem? stores k ≡ some second
      → (uses_index || is_some second.refresh_index_after) ≡ true
      → key_of first ≢ key_of second
  unfolding validate_stores
  distinct uses_index seen i [] j k first second h lt at_j at_k u = absurd (cc)
  distinct uses_index seen i (s ∷ stores) zero zero first second h lt at_j at_k u = elim lt [ ]
  distinct uses_index seen i (s ∷ stores) (suc j) zero first second h lt at_j at_k u = elim lt [ ]
  distinct uses_index seen i (s ∷ stores) zero (suc k) first second h lt at_j at_k u = λ same.
      let e : s ≡ first = cc in
      let later =
        sound_store uses_index (store_key r (stores_path r i) s ∷ seen) (suc i) stores k second
          (nothing _ _ h).1 at_k in
      let hit : (store_key r (stores_path r i) s == key_of second) ≡ true =
        (==_iff _ _).1 (same_key (stores_path r i) s ∙ ap key_of e ∙ same) in
      absurd (ground (arith, later.unseen, hit, u))
  distinct uses_index seen i (s ∷ stores) (suc j) (suc k) first second h lt at_j at_k u =
      distinct uses_index (store_key r (stores_path r i) s ∷ seen) (suc i) stores j k first second
        (nothing _ _ h).1 (omega arith) at_j at_k u

  -- Version and stores of a valid configuration. Two stores are told apart by their key, the kind
  -- with the ID, for which the landscape name of a Gardener store stands in.
  pub record IsSound (config : Config r.Raw) : Type 0 where
    pub version : config.version ≡ text "v1alpha1"
    pub kinds :
        (i : ℕ) (s : KubeconfigStore r.Raw)
        → get_elem? config.kubeconfig_stores i ≡ some s
        → is_elem s.kind valid_store_kinds ≡ true
    pub no_dot :
        (i : ℕ) (s : KubeconfigStore r.Raw)
        → get_elem? config.kubeconfig_stores i ≡ some s
        → any_of (λ c. nat_eq c b'.') (or_empty_text s.id) ≡ false
    pub paths :
        (i : ℕ) (s : KubeconfigStore r.Raw)
        → get_elem? config.kubeconfig_stores i ≡ some s
        → (is_empty s.paths && (s.kind == text "filesystem" || s.kind == text "vault")) ≡ false
    pub distinct_keys :
        (i j : ℕ) (a b : KubeconfigStore r.Raw)
        → i < j
        → get_elem? config.kubeconfig_stores i ≡ some a
        → get_elem? config.kubeconfig_stores j ≡ some b
        → (is_some config.refresh_index_after || is_some b.refresh_index_after) ≡ true
        → key_of a ≢ key_of b

-- A configuration in which `ValidateConfig` finds no error has the known version; every store has a
-- known kind, no dot in its ID, and a path if its kind is filesystem or vault; and a store that uses
-- an index has another key than each store before it. The key is the kind and the ID, and of a
-- Gardener store without an ID the kind and the landscape name.
pub validate_config-IsSound :
    (r : Readings) (config : Config r.Raw) → validate_config r config ≡ [] → IsSound r config
unfolding validate_config
validate_config-IsSound r config h =
    let (front, hooks) = nothing _ _ h in
    let (version, stores) = nothing _ _ front in
    record {
      version = (==_iff config.version (text "v1alpha1")).0 (true_of_not _ (no_error _ _ version));
      kinds = λ i s at_i. (sound_store r _ [] 0 config.kubeconfig_stores i s stores at_i).kind;
      no_dot = λ i s at_i. (sound_store r _ [] 0 config.kubeconfig_stores i s stores at_i).no_dot;
      paths = λ i s at_i. (sound_store r _ [] 0 config.kubeconfig_stores i s stores at_i).paths;
      distinct_keys = λ i j a b lt at_i at_j u.
          distinct r _ [] 0 config.kubeconfig_stores i j a b stores lt at_i at_j u;
    }
