-- ===== src/Kubeconfig/Node/Laws.antt =====
-- Reading a mapping node after a write to it.
use kswitch.Prelude.{
  Text, ◌==◌, ==_iff, ==_false, ◌≢◌, ◌≡◌, refl, Bool, true, Bool-cases, inl, inr, if◌then◌else◌,
  Option, none, some, arith,
}
use kswitch.Prelude.Go.{Go, ok}
use kswitch.Kubeconfig.Node.{
  mapping, Node, node, Nodes, nil, cons, value, is_key, str_node, append, Error, find_pair,
  value_of, set_pair, update_field, append_pair,
}

-- What is kept by every parsed mapping: each key has its value.
abbrev pub Paired : Nodes → Type 0
Paired nil = Unit {0}
Paired (cons k nil) = ⊥
Paired (cons k (cons v rest)) = Paired rest

abbrev pub IsMapping : Node → Type 0
IsMapping (node mapping tag v c) = Paired c
IsMapping _ = ⊥

abbrev pub map_found : (Node → Node) → Bool → Go Error (Option Node) → Go Error (Option Node)
map_found f true (ok (some n)) = ok (some (f n))
map_found f _ r = r

abbrev pub or_found : Go Error (Option Node) → Option Node → Go Error (Option Node)
or_found (ok none) d = ok d
or_found r d = r

pub find_pair-set_pair :
    (f : Node → Node) (k j : Text) (c : Nodes)
    → find_pair j (set_pair f k c) ≡ map_found f (k == j) (find_pair j c)
unfolding find_pair set_pair
find_pair-set_pair f k j nil = ground arith
find_pair-set_pair f k j (cons n nil) = ground arith
find_pair-set_pair f k j (cons n (cons v rest)) =
    ground
      (arith, ==_iff k j, ==_iff (value n) k, ==_iff (value n) j, find_pair-set_pair f k j rest)

find_pair-append :
    (k j : Text) (v : Node) (c : Nodes)
    → Paired c
    → find_pair j (append c (cons (str_node k) (cons v nil)))
      ≡ or_found (find_pair j c) (if k == j then some v else none)
unfolding find_pair
find_pair-append k j v nil p = ground arith
find_pair-append k j v (cons n nil) p = absurd p
find_pair-append k j v (cons n (cons w rest)) p = ground (arith, find_pair-append k j v rest p)

find_pair_total : (j : Text) (c : Nodes) → Paired c → (o : Option Node) × (find_pair j c ≡ ok o)
unfolding find_pair
find_pair_total j nil p = (none, refl)
find_pair_total j (cons n nil) p = absurd p
find_pair_total j (cons n (cons w rest)) p = elim (Bool-cases (is_key j n)) [
  | inl e ↦ (some w, rw e)
  | inr e ↦ let (o, q) = find_pair_total j rest p in (o, rw e q)
]

set_pair-Paired : (f : Node → Node) (k : Text) (c : Nodes) → Paired c → Paired (set_pair f k c)
unfolding set_pair
set_pair-Paired f k nil p = tt
set_pair-Paired f k (cons n nil) p = absurd p
set_pair-Paired f k (cons n (cons w rest)) p = elim (Bool-cases (is_key k n)) [
  | inl e ↦ rw e p
  | inr e ↦ rw e (set_pair-Paired f k rest p)
]

append-Paired : (k v : Node) (c : Nodes) → Paired c → Paired (append c (cons k (cons v nil)))
append-Paired k v nil p = tt
append-Paired k v (cons n nil) p = absurd p
append-Paired k v (cons n (cons w rest)) p = append-Paired k v rest p

pub value_of-update_field :
    (f : Node → Node) (k j : Text) (n : Node)
    → value_of (update_field f k n) j ≡ map_found f (k == j) (value_of n j)
unfolding value_of update_field
value_of-update_field f k j (node mapping tag v c) = find_pair-set_pair f k j c
value_of-update_field f k j (node _ tag v c) = ground arith

pub value_of-append_pair :
    (k j : Text) (v n : Node)
    → IsMapping n
    → value_of (append_pair k v n) j ≡ or_found (value_of n j) (if k == j then some v else none)
unfolding value_of append_pair
value_of-append_pair k j v (node mapping tag w c) p = find_pair-append k j v c p
value_of-append_pair k j v (node _ tag w c) p = absurd p

pub value_of_total : (n : Node) (j : Text) → IsMapping n → (o : Option Node) × (value_of n j ≡ ok o)
unfolding value_of
value_of_total (node mapping tag w c) j p = find_pair_total j c p
value_of_total (node _ tag w c) j p = absurd p

pub update_field-IsMapping :
    (f : Node → Node) (k : Text) (n : Node) → IsMapping n → IsMapping (update_field f k n)
unfolding update_field
update_field-IsMapping f k (node mapping tag w c) p = set_pair-Paired f k c p
update_field-IsMapping f k (node _ tag w c) p = absurd p

pub append_pair-IsMapping : (k : Text) (v n : Node) → IsMapping n → IsMapping (append_pair k v n)
unfolding append_pair
append_pair-IsMapping k v (node mapping tag w c) p = append-Paired (str_node k) v c p
append_pair-IsMapping k v (node _ tag w c) p = absurd p

pub value_of-append_pair_ne :
    (k j : Text) (v n : Node) → IsMapping n → k ≢ j → value_of (append_pair k v n) j ≡ value_of n j
value_of-append_pair_ne k j v n m ne =
    let (o, h) = value_of_total n j m in
    rw (value_of-append_pair k j v n m, ==_false ne, h) (ground arith)
