-- ===== src/Merge/Laws.antt =====
-- What the inner loops of `mergeSection` leave: each name is looked up in the source first.
use kswitch.Prelude.{
  Text, text, ◌==◌, ==_iff, ◌≡◌, refl, true, false, Bool-cases, inl, inr, if◌then◌else◌, Option,
  none, some, arith,
}
use kswitch.Prelude.Go.{Go, ok, ◌>>=◌}
use kswitch.Kubeconfig.Node.{Node, Nodes, nil, cons, value, Error, value_of}
use kswitch.Kubeconfig.Remove.Laws.{AllEntries}
use kswitch.Merge.{holds, upsert_entry, merge_entries}

-- An entry whose field "name" can be looked up, be it there or not.
abbrev pub IsReadable : Node → Type 0
IsReadable e = (o : Option Node) × (value_of e (text "name") ≡ ok o)

-- The first entry of a name.
unfoldable pub find_entry : Text → Nodes → Go Error (Option Node)
find_entry name nil = ok none
find_entry name (cons e rest) =
    let later = find_entry name rest in
    value_of e (text "name") >>= λ found. if holds name found then ok (some e) else later

-- The last entry of a name, if there is one, else another value.
unfoldable pub find_last : Text → Option Node → Nodes → Go Error (Option Node)
find_last name other nil = ok other
find_last name other (cons e rest) = value_of e (text "name") >>= λ found.
    find_last name (if holds name found then some e else other) rest

-- Writing one entry of a name, seen by the lookups.
record Upserted (name : Text) (e : Node) (dst dst' : Nodes) : Type 0 where
  runs : upsert_entry name e dst ≡ ok dst'
  readable : AllEntries IsReadable dst'
  finds : (j : Text) → find_entry j dst' ≡ (if name == j then ok (some e) else find_entry j dst)

hit_finds :
    (j : Text) (e n d : Node) (rest : Nodes) (o : Option Node)
    → value_of e (text "name") ≡ ok (some n)
    → value_of d (text "name") ≡ ok o
    → holds (value n) o ≡ true
    → find_entry j (cons e rest)
      ≡ (if value n == j then ok (some e) else find_entry j (cons d rest))
unfolding find_entry
hit_finds j e n d rest none p q hit = absurd (ground arith)
hit_finds j e n d rest (some m) p q hit =
    ground (arith, ==_iff (value n) j, ==_iff (value m) j, ==_iff (value m) (value n))

miss_finds :
    (j : Text) (e n d : Node) (rest rest' : Nodes) (o : Option Node)
    → value_of e (text "name") ≡ ok (some n)
    → value_of d (text "name") ≡ ok o
    → holds (value n) o ≡ false
    → find_entry j rest' ≡ (if value n == j then ok (some e) else find_entry j rest)
    → find_entry j (cons d rest')
      ≡ (if value n == j then ok (some e) else find_entry j (cons d rest))
unfolding find_entry
miss_finds j e n d rest rest' none p q miss later = ground arith
miss_finds j e n d rest rest' (some m) p q miss later =
    ground (arith, ==_iff (value n) j, ==_iff (value m) j, ==_iff (value m) (value n))

upsert_entry-Upserted :
    (e n : Node) (dst : Nodes)
    → value_of e (text "name") ≡ ok (some n)
    → AllEntries IsReadable dst
    → (dst' : Nodes) × Upserted (value n) e dst dst'
unfolding upsert_entry find_entry
upsert_entry-Upserted e n nil p all =
    (cons e nil, record { runs = refl; readable = ((some n, p), tt); finds = λ j. ground arith })
upsert_entry-Upserted e n (cons d rest) p ((o, q), all) = elim (Bool-cases (holds (value n) o)) [
  | inl hit ↦ (
    cons e rest,
    record {
      runs = ground arith;
      readable = ((some n, p), all);
      finds = λ j. hit_finds j e n d rest o p q hit;
    },
  )
  | inr miss ↦
      let (rest', u) = upsert_entry-Upserted e n rest p all in
      (
        cons d rest',
        record {
          runs = ground (arith, u.runs);
          readable = ((o, q), u.readable);
          finds = λ j. miss_finds j e n d rest rest' o p q miss (u.finds j);
        },
      )
]

-- What a merge of entries leaves.
pub record Merged (src dst dst' : Nodes) : Type 0 where
  pub runs : merge_entries src dst ≡ ok dst'
  pub readable : AllEntries IsReadable dst'
  pub finds : (j : Text) → find_entry j dst' ≡ (find_entry j dst >>= λ other. find_last j other src)

pub find_entry_total :
    (j : Text) (nodes : Nodes)
    → AllEntries IsReadable nodes
    → (o : Option Node) × (find_entry j nodes ≡ ok o)
unfolding find_entry
find_entry_total j nil all = (none, refl)
find_entry_total j (cons e rest) ((o, p), all) = elim (Bool-cases (holds j o)) [
  | inl hit ↦ (some e, ground arith)
  | inr miss ↦ let (o', q) = find_entry_total j rest all in (o', ground arith)
]

merged_one :
    (j : Text) (e n : Node) (src dst dst1 dst' : Nodes) (other : Option Node)
    → value_of e (text "name") ≡ ok (some n)
    → find_entry j dst ≡ ok other
    → find_entry j dst1 ≡ (if value n == j then ok (some e) else find_entry j dst)
    → find_entry j dst' ≡ (find_entry j dst1 >>= λ o. find_last j o src)
    → find_entry j dst' ≡ (find_entry j dst >>= λ o. find_last j o (cons e src))
unfolding find_last
merged_one j e n src dst dst1 dst' other p h h1 h' = elim (Bool-cases (value n == j)) [
  | inl hit ↦ rw (h', h1, h, p, hit)
  | inr miss ↦ rw (h', h1, h, p, miss)
]

pub merge_entries-Merged :
    (src dst : Nodes)
    → AllEntries IsReadable src
    → AllEntries IsReadable dst
    → (dst' : Nodes) × Merged src dst dst'
unfolding merge_entries find_last
merge_entries-Merged nil dst all all' = (
  dst,
  record {
    runs = refl;
    readable = all';
    finds = λ j. let (o, h) = find_entry_total j dst all' in rw h;
  },
)
merge_entries-Merged (cons e src) dst ((none, p), all) all' =
    let (dst', m) = merge_entries-Merged src dst all all' in
    (dst', record { runs = rw p m.runs; readable = m.readable; finds = λ j. rw p (m.finds j) })
merge_entries-Merged (cons e src) dst ((some n, p), all) all' =
    let (dst1, u) = upsert_entry-Upserted e n dst p all' in
    let (dst', m) = merge_entries-Merged src dst1 all u.readable in
    (
      dst',
      record {
        runs = rw (p, u.runs) m.runs;
        readable = m.readable;
        finds = λ j.
            let (o, h) = find_entry_total j dst all' in
            merged_one j e n src dst dst1 dst' o p h (u.finds j) (m.finds j);
      },
    )
