-- ===== src/Merge/Whole.antt =====
-- `mergeKubeconfigs` on two documents.
use kswitch.Prelude.{Text, text, ◌==◌, ◌≡◌, ◌≢◌, ◌∙◌, refl, ap, Option, none, some, arith, [], ◌∷◌}
use kswitch.Prelude.Go.{Go, ok, ◌>>=◌}
use kswitch.Kubeconfig.Node.{Node, Nodes, Error, value, value_of}
use kswitch.Kubeconfig.Node.Laws.{IsMapping, value_of_total}
use kswitch.Kubeconfig.Fields.{get_field}
use kswitch.Kubeconfig.Fields.Laws.{modify_field-Written}
use kswitch.Merge.{merge_roots, scalar_value, set_unless_empty}
use kswitch.Merge.Laws.{find_last}
use kswitch.Merge.Sections.{
  Section, merge_one, source_entries, moved, entry_in, entry_in_kept, set_scalar_lem,
}

-- A kubeconfig whose three sections are absent or sequences of readable entries.
pub record IsKubeconfig (root : Node) : Type 0 where
  pub is_mapping : IsMapping root
  pub clusters : Section (text "clusters") root
  pub contexts : Section (text "contexts") root
  pub users : Section (text "users") root

-- Of each name the merged section has the source's last entry, if the source has one, else the
-- destination's first.
abbrev pub SourceFirst : Text → Nodes → Node → Node → Type 0
SourceFirst section src dst merged =
    (j : Text)
    → entry_in section j merged ≡ (entry_in section j dst >>= λ other. find_last j other src)

abbrev pub first_set : Text → Go Error Text → Go Error Text
first_set [] other = other
first_set (c ∷ v) other = ok (c ∷ v)

pub record IsMerge (dst src : Node) (s : IsKubeconfig src) (merged : Node) : Type 0 where
  pub clusters : SourceFirst (text "clusters") (source_entries s.clusters) dst merged
  pub contexts : SourceFirst (text "contexts") (source_entries s.contexts) dst merged
  pub users : SourceFirst (text "users") (source_entries s.users) dst merged
  pub current : get_field (text "current-context") merged ≡ (
      get_field (text "current-context") src >>= λ c.
      first_set c (get_field (text "current-context") dst))
  pub others :
      (j : Text)
      → text "clusters" ≢ j
      → text "contexts" ≢ j
      → text "users" ≢ j
      → text "current-context" ≢ j
      → value_of merged j ≡ value_of dst j

scalar_value_lem :
    (root : Node) (key : Text)
    → IsMapping root
    → (c : Text) × (scalar_value root key ≡ ok c) × (get_field key root ≡ ok c)
unfolding scalar_value get_field
scalar_value_lem root key m = let (o, h) = value_of_total root key m in go o h
  where
    go :
        (o : Option Node)
        → value_of root key ≡ ok o
        → (c : Text) × (scalar_value root key ≡ ok c) × (get_field key root ≡ ok c)
    go none h = ([], rw h, rw h)
    go (some n) h = (value n, rw h, rw h)

get_field_kept :
    (key : Text) (dst dst' : Node)
    → value_of dst' key ≡ value_of dst key
    → get_field key dst' ≡ get_field key dst
unfolding get_field
get_field_kept key dst dst' e = rw e

-- The last step of the merge.
record CurrentSet (c : Text) (dst dst' : Node) : Type 0 where
  runs : set_unless_empty (text "current-context") dst c ≡ ok dst'
  reads :
      get_field (text "current-context") dst' ≡ first_set c (get_field (text "current-context") dst)
  others : (j : Text) → text "current-context" ≢ j → value_of dst' j ≡ value_of dst j

current_set : (c : Text) (dst : Node) → IsMapping dst → (dst' : Node) × CurrentSet c dst dst'
unfolding set_unless_empty ◌==◌
current_set [] dst m = (dst, record { runs = refl; reads = refl; others = λ j ne. refl })
current_set (c ∷ v) dst m =
    let (dst', runs, w) = modify_field-Written (text "current-context") (c ∷ v) dst m in
    (
      dst',
      record {
        runs = set_scalar_lem (text "current-context") (c ∷ v) dst m ∙ runs;
        reads = w.reads _;
        others = w.others;
      },
    )

abbrev then_last :
    {section : Text} {src : Node}
    → Text
    → Section section src
    → Go Error (Option Node)
    → Go Error (Option Node)
then_last j s found = found >>= λ other. find_last j other (source_entries s)

-- Merging a kubeconfig into another succeeds. Each of the three sections then has the source's
-- last entry of every name that the source has and the destination's entry of every other name;
-- the current context is the source's unless that is empty; every other field is the destination's.
pub merge_roots-IsMerge :
    (dst src : Node) (d : IsKubeconfig dst) (s : IsKubeconfig src)
    → (merged : Node) × (merge_roots dst src ≡ ok merged) × IsMerge dst src s merged
unfolding merge_roots ◌==◌
merge_roots-IsMerge dst src d s =
    let (dst1, runs1, m1) =
      merge_one (text "clusters") dst src s.clusters.field d.is_mapping d.clusters s.clusters.reads
        s.clusters.is_section in
    let k1 = m1.others (text "contexts") λ x. ground arith in
    let (dst2, runs2, m2) =
      merge_one (text "contexts") dst1 src s.contexts.field m1.is_mapping
        (moved _ dst dst1 d.contexts k1) s.contexts.reads s.contexts.is_section in
    let k2 =
      m2.others (text "users") (λ x. ground arith) ∙ m1.others (text "users") λ x. ground arith in
    let (dst3, runs3, m3) =
      merge_one (text "users") dst2 src s.users.field m2.is_mapping (moved _ dst dst2 d.users k2)
        s.users.reads s.users.is_section in
    let (c, reads, same) = scalar_value_lem src (text "current-context") s.is_mapping in
    let (merged, t) = current_set c dst3 m3.is_mapping in
    let k3 =
      m3.others (text "current-context") (λ x. ground arith)
      ∙ m2.others (text "current-context") (λ x. ground arith)
      ∙ m1.others (text "current-context") λ x. ground arith in
    let after2 : (j : Text)
        → text "current-context" ≢ j
        → text "users" ≢ j
        → value_of merged j ≡ value_of dst2 j =
      λ j n4 n3. t.others j n4 ∙ m3.others j n3 in
    let after3 : (j : Text)
        → text "current-context" ≢ j
        → text "users" ≢ j
        → text "contexts" ≢ j
        → value_of merged j ≡ value_of dst1 j =
      λ j n4 n3 n2. after2 j n4 n3 ∙ m2.others j n2 in
    (
      merged,
      rw (runs1, runs2, runs3, reads) t.runs,
      record {
        clusters = λ j.
            entry_in_kept _ j dst1 merged
              (after3 _ (λ x. ground arith) (λ x. ground arith) (λ x. ground arith))
            ∙ m1.finds j;
        contexts = λ j.
            entry_in_kept _ j dst2 merged (after2 _ (λ x. ground arith) (λ x. ground arith))
            ∙ m2.finds j
            ∙ ap (then_last j s.contexts) (entry_in_kept _ j dst dst1 k1);
        users = λ j.
            entry_in_kept _ j dst3 merged (t.others _ λ x. ground arith)
            ∙ m3.finds j
            ∙ ap (then_last j s.users) (entry_in_kept _ j dst dst2 k2);
        current = t.reads ∙ ap (first_set c) (get_field_kept _ dst dst3 k3) ∙ rw same;
        others = λ j n1 n2 n3 n4. t.others j n4 ∙ m3.others j n3 ∙ m2.others j n2 ∙ m1.others j n1;
      },
    )
