-- ===== src/Kubeconfig/Fields/Laws.antt =====
-- What the getters return after the setters.
use kswitch.Prelude.{
  Text, text, ◌==◌, ==_iff, ==_false, ◌≢◌, ◌≡◌, ◌⊎◌, Bool, Bool-cases, inl, inr, true, ◌||◌, ◌∙◌,
  if◌then◌else◌, Option, none, some, arith,
}
use kswitch.Prelude.Go.{ok}
use kswitch.Kubeconfig.Node.{Node, node, value_of, with_value, str_node, update_field, append_pair}
use kswitch.Kubeconfig.Node.Laws.{
  IsMapping, value_of-update_field, value_of-append_pair, value_of-append_pair_ne, value_of_total,
  update_field-IsMapping, append_pair-IsMapping,
}
use kswitch.Kubeconfig.Fields.{
  modify_field, get_field, has_field, set_gardener_store_meta_information,
  get_gardener_landscape_identity, get_gardener_project, get_gardener_cluster_name,
  get_gardener_cluster_type, get_current_context, get_kswitch_context, is_gardener_kubeconfig,
}

pub record Written (key v : Text) (root root' : Node) : Type 0 where
  pub is_mapping : IsMapping root'
  pub reads : (j : Text) → get_field j root' ≡ (if key == j then ok v else get_field j root)
  pub holds : (j : Text) → has_field j root' ≡ (if key == j then ok true else has_field j root)
  pub others : (j : Text) → key ≢ j → value_of root' j ≡ value_of root j

update_reads :
    (key v j : Text) (root n : Node) (o : Option Node)
    → value_of root key ≡ ok (some n)
    → value_of root j ≡ ok o
    → get_field j (update_field (with_value v) key root)
      ≡ (if key == j then ok v else get_field j root)
unfolding get_field
update_reads key v j root (node kd tag w c) o e q =
    rw (value_of-update_field (with_value v) key j root)
      (elim (Bool-cases (key == j)) [ inl h ↦ rw (h, ← (==_iff key j).0 h, e) | inr h ↦ rw (h, q) ])

update_holds :
    (key v j : Text) (root n : Node) (o : Option Node)
    → value_of root key ≡ ok (some n)
    → value_of root j ≡ ok o
    → has_field j (update_field (with_value v) key root)
      ≡ (if key == j then ok true else has_field j root)
unfolding has_field
update_holds key v j root (node kd tag w c) o e q =
    rw (value_of-update_field (with_value v) key j root)
      (elim (Bool-cases (key == j)) [ inl h ↦ rw (h, ← (==_iff key j).0 h, e) | inr h ↦ rw (h, q) ])

append_reads :
    (key v j : Text) (root : Node) (o : Option Node)
    → IsMapping root
    → value_of root key ≡ ok none
    → value_of root j ≡ ok o
    → get_field j (append_pair key (str_node v) root)
      ≡ (if key == j then ok v else get_field j root)
unfolding get_field
append_reads key v j root o m e q =
    rw (value_of-append_pair key j (str_node v) root m) (elim (Bool-cases (key == j)) [
      | inl h ↦ rw (h, ← (==_iff key j).0 h, e)
      | inr h ↦ rw (h, q) (ground arith)
    ])

append_holds :
    (key v j : Text) (root : Node) (o : Option Node)
    → IsMapping root
    → value_of root key ≡ ok none
    → value_of root j ≡ ok o
    → has_field j (append_pair key (str_node v) root)
      ≡ (if key == j then ok true else has_field j root)
unfolding has_field
append_holds key v j root o m e q =
    rw (value_of-append_pair key j (str_node v) root m) (elim (Bool-cases (key == j)) [
      | inl h ↦ rw (h, ← (==_iff key j).0 h, e)
      | inr h ↦ rw (h, q) (ground arith)
    ])

written :
    (key v : Text) (root : Node) (o : Option Node)
    → IsMapping root
    → value_of root key ≡ ok o
    → (root' : Node) × (modify_field key v root ≡ ok root') × Written key v root root'
unfolding modify_field
written key v root (some n) m e = (
  update_field (with_value v) key root,
  rw e,
  record {
    is_mapping = update_field-IsMapping (with_value v) key root m;
    reads = λ j. let (o, q) = value_of_total root j m in update_reads key v j root n o e q;
    holds = λ j. let (o, q) = value_of_total root j m in update_holds key v j root n o e q;
    others = λ j ne. rw (value_of-update_field, ==_false ne) (ground arith);
  },
)
written key v root none m e = (
  append_pair key (str_node v) root,
  rw e,
  record {
    is_mapping = append_pair-IsMapping key (str_node v) root m;
    reads = λ j. let (o, q) = value_of_total root j m in append_reads key v j root o m e q;
    holds = λ j. let (o, q) = value_of_total root j m in append_holds key v j root o m e q;
    others = λ j ne. value_of-append_pair_ne key j (str_node v) root m ne;
  },
)

-- Writing a field of a mapping succeeds, and changes what is read of that field alone.
pub modify_field-Written :
    (key v : Text) (root : Node)
    → IsMapping root
    → (root' : Node) × (modify_field key v root ≡ ok root') × Written key v root root'
modify_field-Written key v root m =
    let (o, e) = value_of_total root key m in written key v root o m e

-- What the four getters of the Gardener fields return.
pub record GardenerMeta (landscape cluster_type project name : Text) (root : Node) : Type 0 where
  pub landscape_read : get_gardener_landscape_identity root ≡ ok landscape
  pub type_read : get_gardener_cluster_type root ≡ ok cluster_type
  pub project_read : get_gardener_project root ≡ ok project
  pub name_read : get_gardener_cluster_name root ≡ ok name
  pub gardener : is_gardener_kubeconfig root ≡ ok true

abbrev pub is_gardener_field : Text → Bool
is_gardener_field key =
    text "gardener-landscape-identity" == key
    || text "gardener-cluster-type" == key
    || text "gardener-project" == key
    || text "gardener-cluster-name" == key

-- On a mapping, `SetGardenerStoreMetaInformation` succeeds: the four getters return its arguments,
-- the kubeconfig counts as a Gardener one, and every key but the four is looked up as before, so the
-- current context and the kswitch-context read as before.
pub set_gardener_store_meta_information_reads :
    (landscape cluster_type project name : Text) (root : Node)
    → IsMapping root
    → (root' : Node) × (set_gardener_store_meta_information landscape cluster_type project name root
        ≡ ok root')
      × IsMapping root'
      × GardenerMeta landscape cluster_type project name root'
      × ((key : Text) → (is_gardener_field key ≡ true) ⊎ (value_of root' key ≡ value_of root key))
      × (get_current_context root' ≡ get_current_context root)
      × (get_kswitch_context root' ≡ get_kswitch_context root)
unfolding set_gardener_store_meta_information is_gardener_kubeconfig get_gardener_landscape_identity
    get_gardener_cluster_type get_gardener_project get_gardener_cluster_name get_current_context
    get_kswitch_context ◌==◌
set_gardener_store_meta_information_reads landscape cluster_type project name root m =
    let (r1, e1, w1) = modify_field-Written (text "gardener-landscape-identity") landscape root m in
    let (r2, e2, w2) =
      modify_field-Written (text "gardener-cluster-type") cluster_type r1 w1.is_mapping in
    let (r3, e3, w3) = modify_field-Written (text "gardener-project") project r2 w2.is_mapping in
    let (r4, e4, w4) = modify_field-Written (text "gardener-cluster-name") name r3 w3.is_mapping in
    (
      r4,
      rw (e1, e2, e3) e4,
      w4.is_mapping,
      record {
        landscape_read = w4.reads _ ∙ w3.reads _ ∙ w2.reads _ ∙ w1.reads _;
        type_read = w4.reads _ ∙ w3.reads _ ∙ w2.reads _;
        project_read = w4.reads _ ∙ w3.reads _;
        name_read = w4.reads _;
        gardener = w4.holds _ ∙ w3.holds _ ∙ w2.holds _ ∙ w1.holds _;
      },
      λ key. elim (Bool-cases (is_gardener_field key)) [
        | inl meta ↦ inl meta
        | inr other ↦ inr (
            w4.others key (λ e. ground (arith, e, other))
            ∙ w3.others key (λ e. ground (arith, e, other))
            ∙ w2.others key (λ e. ground (arith, e, other))
            ∙ w1.others key (λ e. ground (arith, e, other)))
      ],
      w4.reads _ ∙ w3.reads _ ∙ w2.reads _ ∙ w1.reads _,
      w4.reads _ ∙ w3.reads _ ∙ w2.reads _ ∙ w1.reads _,
    )
