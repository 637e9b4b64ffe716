-- ===== src/Merge/Sections.antt =====
-- What `mergeKubeconfigs` leaves of the two documents.
use kswitch.Prelude.{
  Text, text, ==_refl, ==_false, ◌≡◌, ◌≢◌, ◌∙◌, refl, true, Option, none, some, arith, [],
}
use kswitch.Prelude.Go.{Go, ok, ◌>>=◌}
use kswitch.Kubeconfig.Node.{
  Node, node, Nodes, nil, mapping, sequence, kind, content, with_content, is_sequence, Error,
  value_of, update_field, append_pair,
}
use kswitch.Kubeconfig.Node.Laws.{
  IsMapping, value_of-update_field, value_of-append_pair, value_of-append_pair_ne, value_of_total,
  update_field-IsMapping, append_pair-IsMapping,
}
use kswitch.Kubeconfig.Fields.{modify_field}
use kswitch.Kubeconfig.Remove.{entries}
use kswitch.Kubeconfig.Remove.Laws.{AllEntries}
use kswitch.Merge.{merge_section, set_scalar}
use kswitch.Merge.Laws.{IsReadable, find_entry, find_last, find_entry_total, merge_entries-Merged}

-- The value of a section: absent, or a sequence of readable entries.
abbrev pub IsSection : Option Node → Type 0
IsSection none = Unit
IsSection (some n) = (is_sequence (kind n) ≡ true) × AllEntries IsReadable (content n)

pub record Section (section : Text) (root : Node) : Type 0 where
  pub field : Option Node
  pub reads : value_of root section ≡ ok field
  pub is_section : IsSection field

-- The entry of a name in a section.
unfoldable pub entry_in : Text → Text → Node → Go Error (Option Node)
entry_in section name root = value_of root section >>= λ o. find_entry name (entries o)

entries-IsReadable : (o : Option Node) → IsSection o → AllEntries IsReadable (entries o)
entries-IsReadable none s = tt
entries-IsReadable (some (node sequence t v c)) s = s.1
entries-IsReadable (some (node _ t v c)) s = absurd (ground arith)

-- A section after it is merged: of each name it has the source's last entry, else its own first.
pub record SectionMerged (section : Text) (src : Nodes) (dst dst' : Node) : Type 0 where
  pub is_mapping : IsMapping dst'
  pub finds :
      (j : Text)
      → entry_in section j dst' ≡ (entry_in section j dst >>= λ other. find_last j other src)
  pub others : (j : Text) → section ≢ j → value_of dst' j ≡ value_of dst j

unmerged :
    (section : Text) (dst : Node)
    → IsMapping dst
    → Section section dst
    → SectionMerged section nil dst dst
unfolding entry_in find_last
unmerged section dst m s = record {
  is_mapping = m;
  finds = λ j.
      let (o, h) = find_entry_total j (entries s.field) (entries-IsReadable s.field s.is_section) in
      rw (s.reads, h);
  others = λ j ne. refl;
}

merge_found :
    (section : Text) (dst src c : Node) (o : Option Node)
    → IsMapping dst
    → value_of dst section ≡ ok o
    → IsSection o
    → value_of src section ≡ ok (some c)
    → IsSection (some c)
    → (dst' : Node) × (merge_section section src dst ≡ ok dst')
      × SectionMerged section (content c) dst dst'
unfolding merge_section entry_in
merge_found section dst src c none m p s q (sq, all) =
    let (merged, r) = merge_entries-Merged (content c) nil all tt in
    let new = node sequence (text "!!seq") [] merged in
    (
      append_pair section new dst,
      rw (q, sq, p, r.runs),
      record {
        is_mapping = append_pair-IsMapping section new dst m;
        finds =
            λ j. rw (value_of-append_pair section section new dst m, ==_refl section, p, r.finds j);
        others = λ j ne. value_of-append_pair_ne section j new dst m ne;
      },
    )
merge_found section dst src c (some (node k t v d)) m p (sd, alld) q (sq, all) =
    let (merged, r) = merge_entries-Merged (content c) d all alld in
    (
      update_field (with_content merged) section dst,
      rw (q, sq, p, r.runs),
      record {
        is_mapping = update_field-IsMapping (with_content merged) section dst m;
        finds = λ j. rw (value_of-update_field, ==_refl section, p, sd, r.finds j);
        others = λ j ne. rw (value_of-update_field, ==_false ne) (ground arith);
      },
    )

skip_section :
    (section : Text) (dst src : Node)
    → value_of src section ≡ ok none
    → merge_section section src dst ≡ ok dst
unfolding merge_section
skip_section section dst src q = rw q

pub merge_one :
    (section : Text) (dst src : Node) (o : Option Node)
    → IsMapping dst
    → Section section dst
    → value_of src section ≡ ok o
    → IsSection o
    → (dst' : Node) × (merge_section section src dst ≡ ok dst')
      × SectionMerged section (entries o) dst dst'
merge_one section dst src none m s q s' =
    (dst, skip_section section dst src q, unmerged section dst m s)
merge_one section dst src (some (node sequence t v c)) m s q s' =
    merge_found section dst src (node sequence t v c) s.field m s.reads s.is_section q s'
merge_one section dst src (some (node _ t v c)) m s q s' = absurd (ground arith)

-- Where a source section's value is, by its name.
abbrev pub source_entries : {section : Text} {src : Node} → Section section src → Nodes
source_entries s = entries s.field

pub moved :
    (section : Text) (dst dst' : Node)
    → Section section dst
    → value_of dst' section ≡ value_of dst section
    → Section section dst'
moved section dst dst' s e = record {
  field = s.field;
  reads = e ∙ s.reads;
  is_section = s.is_section;
}

pub entry_in_kept :
    (section j : Text) (dst dst' : Node)
    → value_of dst' section ≡ value_of dst section
    → entry_in section j dst' ≡ entry_in section j dst
unfolding entry_in
entry_in_kept section j dst dst' e = rw e

pub set_scalar_lem :
    (key v : Text) (root : Node) → IsMapping root → set_scalar key v root ≡ modify_field key v root
unfolding set_scalar modify_field value_of
set_scalar_lem key v (node mapping t w c) m =
    let (o, h) = value_of_total (node mapping t w c) key m in go o h
  where
    go :
        (o : Option Node)
        → value_of (node mapping t w c) key ≡ ok o
        → set_scalar key v (node mapping t w c) ≡ modify_field key v (node mapping t w c)
    go none h = rw h
    go (some n) h = rw h
set_scalar_lem key v (node _ t w c) m = absurd m
