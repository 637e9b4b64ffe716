-- ===== src/Kubernetes/Peers/Setup/Others.antt =====
-- What the map of the stores has for a reference to a store of another kind.
use kswitch.Prelude.{
  Text, ◌==◌, ◌≡◌, refl, sym, ap, ◌∙◌, Bool, false, ◌||◌, inl, inr, Bool-cases, is_empty, is_elem,
  Option, List, [], ◌∷◌, ◌++◌, arith,
}
use kswitch.Prelude.Dict.{Dict, read, assign, read-assign}
use kswitch.Prelude.Go.{Go, ok, err, panic, hang, ◌>>=◌}
use kswitch.Search.{Store}
use kswitch.Kubernetes.{Client, KubernetesStore}
use kswitch.Kubernetes.Peers.{
  Paths, parse_store_ref, referenced, peer_of, resolve_context_path, peer_kubeconfig_for,
}
use kswitch.Kubernetes.Peers.Setup.{AnyStore, kubernetes, cached, other, store_id, as_store, by_id}

abbrev pub gather {ℓ} : {B : Type ℓ} → (AnyStore → List B) → List AnyStore → List B
gather f [] = []
gather f (s ∷ stores) = f s ++ gather f stores

abbrev pub kubernetes_id : AnyStore → List Text
kubernetes_id (kubernetes k) = k.id ∷ []
kubernetes_id (cached cache k) = k.id ∷ []
kubernetes_id (other s) = []

abbrev pub other_store : AnyStore → List Store
other_store (kubernetes k) = []
other_store (cached cache k) = []
other_store (other s) = s ∷ []

-- The identities of the Kubernetes stores.
abbrev pub kubernetes_ids : List AnyStore → List Text
kubernetes_ids = gather kubernetes_id

abbrev pub others : List AnyStore → List Store
others = gather other_store

-- A store replaced by one that gives the same.
pub gather-replaced {ℓ} :
    {B : Type ℓ} (f : AnyStore → List B) (done todo : List AnyStore) (s s' : AnyStore)
    → f s' ≡ f s
    → gather f ((done ++ s' ∷ []) ++ todo) ≡ gather f (done ++ s ∷ todo)
gather-replaced f [] todo s s' e = ap (λ t. t ++ gather f todo) e
gather-replaced f (x ∷ done) todo s s' e = ap (λ t. f x ++ t) (gather-replaced f done todo s s' e)

pub put_others : Dict Store → List Store → Dict Store
put_others m [] = m
put_others m (s ∷ stores) = put_others (assign m s.id s) stores

module _ (id : Text) where
  -- Two maps that agree on an identity agree on it after the same assignments.
  put_same :
      (stores : List Store) (m n : Dict Store)
      → read m id ≡ read n id
      → read (put_others m stores) id ≡ read (put_others n stores) id
  unfolding put_others
  put_same [] m n h = h
  put_same (s ∷ stores) m n h =
      put_same stores (assign m s.id s) (assign n s.id s)
        (read-assign m s.id id s ∙ rw h (sym (read-assign n s.id id s)))

or_split : (a b : Bool) → (a || b) ≡ false → (a ≡ false) × (b ≡ false)
or_split a b h = ground arith

module _ (client_for : Text → Option Client) (ambient : Option Client)
    (sorted : List Text → List Text) (paths : Paths) where
  skip :
      (id key : Text) (s : Store) (m : Dict Store)
      → (key == id) ≡ false
      → read (assign m key s) id ≡ read m id
  skip id key s m e = read-assign m key id s ∙ rw e

  -- What the map has at the identity of no Kubernetes store is of the other stores alone.
  pub by_id-others :
      (id : Text) (stores : List AnyStore) (m : Dict Store)
      → is_elem id (kubernetes_ids stores) ≡ false
      → read (by_id client_for ambient sorted paths m stores) id
        ≡ read (put_others m (others stores)) id
  unfolding by_id put_others as_store store_id
  by_id-others id [] m h = refl
  by_id-others id (kubernetes k ∷ stores) m h =
      let (differs, h') = or_split (k.id == id) (is_elem id (kubernetes_ids stores)) h in
      by_id-others id stores
        (assign m k.id (as_store client_for ambient sorted paths (kubernetes k))) h'
      ∙ put_same id (others stores) _ m (skip id k.id _ m differs)
  by_id-others id (cached cache k ∷ stores) m h =
      let (differs, h') = or_split (k.id == id) (is_elem id (kubernetes_ids stores)) h in
      by_id-others id stores
        (assign m k.id (as_store client_for ambient sorted paths (cached cache k))) h'
      ∙ put_same id (others stores) _ m (skip id k.id _ m differs)
  by_id-others id (other s ∷ stores) m h = by_id-others id stores (assign m s.id s) h

  same_reference :
      (k : KubernetesStore) (m n : Dict Store) (r : Go _ (Text × Text))
      → ((id path : Text) → r ≡ ok (id, path) → read m id ≡ read n id)
      → (referenced paths r >>= λ x. peer_of paths (read m x.0) >>= λ peer.
          resolve_context_path paths peer x.1 >>= λ found. ok found.0)
        ≡ (referenced paths r >>= λ x. peer_of paths (read n x.0) >>= λ peer.
            resolve_context_path paths peer x.1 >>= λ found. ok found.0)
  unfolding referenced
  same_reference k m n (ok (id, path)) h =
      ap
        (λ o.
          peer_of paths o >>= λ peer. resolve_context_path paths peer path >>= λ found. ok found.0)
        (h id path refl)
  same_reference k m n (err e) h = refl
  same_reference k m n panic h = refl
  same_reference k m n hang h = refl

  pub same_kubeconfig :
      (k : KubernetesStore) (m n : Dict Store)
      → ((id path : Text)
          → parse_store_ref k.config.store_id ≡ ok (id, path)
          → read m id ≡ read n id)
      → peer_kubeconfig_for paths m k ≡ peer_kubeconfig_for paths n k
  unfolding peer_kubeconfig_for
  same_kubeconfig k m n h = elim (Bool-cases (is_empty k.config.store_id)) [
    | inl e ↦ rw e
    | inr e ↦ simp e (same_reference k m n (parse_store_ref k.config.store_id) h)
  ]
