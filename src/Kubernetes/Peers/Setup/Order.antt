-- ===== src/Kubernetes/Peers/Setup/Order.antt =====
-- References to stores of other kinds are resolved in any order.
use kswitch.Prelude.{
  Text, ◌≡◌, refl, sym, ap, ◌∙◌, false, is_elem, All, Option, List, [], ◌∷◌, ◌++◌, append_assoc,
  append-nil,
}
use kswitch.Prelude.Dict.{Dict, read}
use kswitch.Prelude.Go.{Go, ok, err, panic, hang, ◌>>=◌}
use kswitch.Search.{Store}
use kswitch.Kubernetes.{Client}
use kswitch.Kubernetes.Peers.{Paths, PeerError, parse_store_ref, peer_kubeconfig_for}
use kswitch.Kubernetes.Peers.Setup.{
  AnyStore, kubernetes, cached, other, by_id, with_kubeconfig, resolved, resolve_from,
  resolve_peer_stores_for_all,
}
use kswitch.Kubernetes.Peers.Setup.Others.{
  kubernetes_id, other_store, kubernetes_ids, others, gather-replaced, put_others, by_id-others,
  same_kubeconfig,
}

-- A reference to a store of the list is to one of another kind.
abbrev pub RefersOutside : List AnyStore → AnyStore → Type 0
RefersOutside stores (kubernetes k) =
    (id path : Text)
    → parse_store_ref k.config.store_id ≡ ok (id, path)
    → is_elem id (kubernetes_ids stores) ≡ false
RefersOutside stores (cached cache k) =
    (id path : Text)
    → parse_store_ref k.config.store_id ≡ ok (id, path)
    → is_elem id (kubernetes_ids stores) ≡ false
RefersOutside stores (other s) = Unit

module _ (client_for : Text → Option Client) (ambient : Option Client)
    (sorted : List Text → List Text) (paths : Paths) where
  -- The references resolved one by one, with the stores as they were at first.
  pub resolve_each : Dict Store → List AnyStore → Go PeerError (List AnyStore)
  resolve_each m [] = ok []
  resolve_each m (s ∷ stores) = resolved client_for ambient sorted paths m s >>= λ s'.
      resolve_each m stores >>= λ rest. ok (s' ∷ rest)

  appended :
      (r : Go PeerError (List AnyStore)) (done : List AnyStore) (s : AnyStore)
      → (r >>= λ l. ok ((done ++ s ∷ []) ++ l))
        ≡ ((r >>= λ l. ok (s ∷ l)) >>= λ l'. ok (done ++ l'))
  appended (ok l) done s = ap ok (append_assoc done (s ∷ []) l)
  appended (err e) done s = refl
  appended panic done s = refl
  appended hang done s = refl

  module _ (all : List AnyStore) where
    abbrev map_of : List AnyStore → Dict Store
    map_of = by_id client_for ambient sorted paths []

    -- The list has the stores of `all`, but for the kubeconfigs of the Kubernetes stores.
    abbrev IsLeft : List AnyStore → Type 0
    IsLeft stores = (others stores ≡ others all) × (kubernetes_ids stores ≡ kubernetes_ids all)

    same_store :
        (id : Text) (stores : List AnyStore)
        → IsLeft stores
        → is_elem id (kubernetes_ids all) ≡ false
        → read (map_of stores) id ≡ read (map_of all) id
    same_store id stores (kept, ids) h =
        by_id-others client_for ambient sorted paths id stores [] (ap (is_elem id) ids ∙ h)
        ∙ ap (λ l. read (put_others [] l) id) kept
        ∙ sym (by_id-others client_for ambient sorted paths id all [] h)

    same_step :
        (s : AnyStore) (stores : List AnyStore)
        → IsLeft stores
        → RefersOutside all s
        → resolved client_for ambient sorted paths (map_of stores) s
          ≡ resolved client_for ambient sorted paths (map_of all) s
    unfolding resolved
    same_step (kubernetes k) stores left outside =
        ap (λ r. r >>= λ b. ok (with_kubeconfig client_for ambient sorted paths (kubernetes k) b))
          (same_kubeconfig client_for ambient sorted paths k (map_of stores) (map_of all)
            (λ id path e. same_store id stores left (outside id path e)))
    same_step (cached cache k) stores left outside =
        ap (λ r. r >>= λ b. ok (with_kubeconfig client_for ambient sorted paths (cached cache k) b))
          (same_kubeconfig client_for ambient sorted paths k (map_of stores) (map_of all)
            (λ id path e. same_store id stores left (outside id path e)))
    same_step (other s) stores left outside = refl

    -- A step that leaves a store which differs in its kubeconfig alone, and the rest.
    then_same :
        (done todo : List AnyStore) (f : Text → AnyStore) (rest : Go PeerError (List AnyStore))
        (r : Go PeerError Text)
        → ((b : Text)
            → resolve_from client_for ambient sorted paths (done ++ f b ∷ []) todo
              ≡ (rest >>= λ l. ok ((done ++ f b ∷ []) ++ l)))
        → ((r >>= λ b. ok (f b)) >>= λ s'.
            resolve_from client_for ambient sorted paths (done ++ s' ∷ []) todo)
          ≡ (((r >>= λ b. ok (f b)) >>= λ s'. rest >>= λ l. ok (s' ∷ l)) >>= λ l'. ok (done ++ l'))
    then_same done todo f rest (ok b) ih = ih b ∙ appended rest done (f b)
    then_same done todo f rest (err e) ih = refl
    then_same done todo f rest panic ih = refl
    then_same done todo f rest hang ih = refl

    still-IsLeft :
        (done todo : List AnyStore) (s s' : AnyStore)
        → IsLeft (done ++ s ∷ todo)
        → other_store s' ≡ other_store s
        → kubernetes_id s' ≡ kubernetes_id s
        → IsLeft ((done ++ s' ∷ []) ++ todo)
    still-IsLeft done todo s s' (kept, ids) e d = (
      gather-replaced other_store done todo s s' e ∙ kept,
      gather-replaced kubernetes_id done todo s s' d ∙ ids,
    )

    resolve_from_lem :
        (done todo : List AnyStore)
        → IsLeft (done ++ todo)
        → All (RefersOutside all) todo
        → resolve_from client_for ambient sorted paths done todo
          ≡ (resolve_each (map_of all) todo >>= λ l. ok (done ++ l))
    unfolding resolve_from resolve_each resolved with_kubeconfig
    resolve_from_lem done [] left h = ap ok (sym (append-nil done))
    resolve_from_lem done (kubernetes k ∷ todo) left (here, h) =
        ap (λ r. r >>= λ s'. resolve_from client_for ambient sorted paths (done ++ s' ∷ []) todo)
          (same_step (kubernetes k) (done ++ kubernetes k ∷ todo) left here)
        ∙ then_same done todo (with_kubeconfig client_for ambient sorted paths (kubernetes k))
            (resolve_each (map_of all) todo) (peer_kubeconfig_for paths (map_of all) k)
            (λ b.
              let k' = kubernetes (record k { peer_kubeconfig = b }) in
              resolve_from_lem (done ++ k' ∷ []) todo
                (still-IsLeft done todo (kubernetes k) k' left refl refl) h)
    resolve_from_lem done (cached cache k ∷ todo) left (here, h) =
        ap (λ r. r >>= λ s'. resolve_from client_for ambient sorted paths (done ++ s' ∷ []) todo)
          (same_step (cached cache k) (done ++ cached cache k ∷ todo) left here)
        ∙ then_same done todo (with_kubeconfig client_for ambient sorted paths (cached cache k))
            (resolve_each (map_of all) todo) (peer_kubeconfig_for paths (map_of all) k)
            (λ b.
              let k' = cached cache (record k { peer_kubeconfig = b }) in
              resolve_from_lem (done ++ k' ∷ []) todo
                (still-IsLeft done todo (cached cache k) k' left refl refl) h)
    resolve_from_lem done (other s ∷ todo) left (here, h) =
        resolve_from_lem (done ++ other s ∷ []) todo
          (still-IsLeft done todo (other s) (other s) left refl refl) h
        ∙ appended (resolve_each (map_of all) todo) done (other s)

same_list : (r : Go PeerError (List AnyStore)) → (r >>= λ l. ok ([] ++ l)) ≡ r
same_list (ok l) = refl
same_list (err e) = refl
same_list panic = refl
same_list hang = refl

-- Where each Kubernetes store refers to the identity of no Kubernetes store, the references are
-- resolved as if each were resolved with the stores as they were before any was resolved: the first
-- error is the result, or each store is left as its own reference says.
pub resolve_peer_stores_for_all-each :
    (client_for : Text → Option Client) (ambient : Option Client) (sorted : List Text → List Text)
    (paths : Paths) (stores : List AnyStore)
    → All (RefersOutside stores) stores
    → resolve_peer_stores_for_all client_for ambient sorted paths stores
      ≡ resolve_each client_for ambient sorted paths
          (by_id client_for ambient sorted paths [] stores)
          stores
unfolding resolve_peer_stores_for_all
resolve_peer_stores_for_all-each client_for ambient sorted paths stores h =
    resolve_from_lem client_for ambient sorted paths stores [] stores (refl, refl) h ∙ same_list _
