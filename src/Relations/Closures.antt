-- ===== src/Relations/Closures.antt =====
-- What a search of `_components` (src/qste/relations/service.py) has visited when it ends.
use Prim.Native.Nat.{Ordering, suc, zero}
use qste.Base.{
  ℕ, List, ◌≡◌, ◌||◌, true, select, arith, ◌∷◌, not, [], Bool-cases, inl, inr, String, ◌++◌, subst,
  any-append_right, any-append, ap, eq_iff, refl, some, some_inj,
}
use qste.Relations.Components.{
  Node, left, right, node_eq, seen, sorted_nodes, insert_node, node_order, unvisited, adjacent,
  place, search_nodes,
}
use qste.Relations.Searches.{seen-equal, node_eq_lem}

node_order-eq : (n m : Node) → node_order n m ≡ Ordering.eq → n ≡ m
unfolding node_order
node_order-eq (left s) (left t) h = ap left ((eq_iff s t).0 (rw h refl))
node_order-eq (left s) (right t) h = cc
node_order-eq (right s) (left t) h = cc
node_order-eq (right s) (right t) h = ap right ((eq_iff s t).0 (rw h refl))

seen-place :
    (o : Ordering) (k n m : Node) (ns rest : List Node)
    → (o ≡ Ordering.eq → n ≡ m)
    → (node_eq k n || seen k (m ∷ ns)) ≡ true
    → ((node_eq k n || seen k ns) ≡ true → seen k rest ≡ true)
    → seen k (place o n m ns rest) ≡ true
seen-place Ordering.lt k n m ns rest p h ih = h
seen-place Ordering.eq k n m ns rest p h ih =
    let q : node_eq k n ≡ node_eq k m = ap (node_eq k) (p refl) in ground arith
seen-place Ordering.gt k n m ns rest p h ih = ground arith

seen-insert_node :
    (k n : Node) (ns : List Node)
    → (node_eq k n || seen k ns) ≡ true
    → seen k (insert_node n ns) ≡ true
unfolding insert_node
seen-insert_node k n [] h = h
seen-insert_node k n (m ∷ ns) h =
    seen-place (node_order n m) k n m ns (insert_node n ns) (node_order-eq n m) h
      (seen-insert_node k n ns)

pub seen-sorted_nodes :
    (k : Node) (ns : List Node) → seen k ns ≡ true → seen k (sorted_nodes ns) ≡ true
unfolding sorted_nodes
seen-sorted_nodes k [] h = h
seen-sorted_nodes k (n ∷ ns) h =
    let ih = seen-sorted_nodes k ns in seen-insert_node k n (sorted_nodes ns) (ground arith)

pub seen-select :
    (k : Node) (visited ns : List Node)
    → seen k ns ≡ true
    → (seen k visited || seen k (select (λ n. not (seen n visited)) ns)) ≡ true
seen-select k visited [] h = cc
seen-select k visited (n ∷ ns) h = elim (Bool-cases (node_eq k n)) [
  | inl e ↦
      let d : seen n visited ≡ true → seen k visited ≡ true = λ x. seen-equal k n visited e x in
      ground arith
  | inr e ↦ let ih = seen-select k visited ns in ground arith
]

-- Every neighbor of a visited node is visited or waits.
unfoldable pub IsClosed : List (String × String) → List Node → List Node → Type 0
IsClosed es visited queue =
    (n k : Node)
    → seen n visited ≡ true
    → seen k (adjacent es n) ≡ true
    → (seen k visited || seen k queue) ≡ true

expand-IsClosed :
    (es : List (String × String)) (m : Node) (queue visited : List Node)
    → IsClosed es visited (m ∷ queue)
    → IsClosed es (m ∷ visited) (queue ++ unvisited es m (m ∷ visited))
unfolding IsClosed unvisited
expand-IsClosed es m queue visited h n k s a = elim (Bool-cases (node_eq n m)) [
  | inl e ↦
      let b : seen k (adjacent es m) ≡ true =
        subst (λ x. seen k (adjacent es x) ≡ true) (node_eq_lem n m e) a in
      let new = select (λ x. not (seen x (m ∷ visited))) (adjacent es m) in
      let c = seen-select k (m ∷ visited) (adjacent es m) b in
      let d = seen-sorted_nodes k new in
      let g = any-append_right (node_eq k) queue (sorted_nodes new) in ground arith
  | inr e ↦
      let b = h n k (ground arith) a in
      let g = any-append (node_eq k) queue (unvisited es m (m ∷ visited)) in ground arith
]

skip-IsClosed :
    (es : List (String × String)) (m : Node) (queue visited : List Node)
    → seen m visited ≡ true
    → IsClosed es visited (m ∷ queue)
    → IsClosed es visited queue
unfolding IsClosed
skip-IsClosed es m queue visited e h n k s a =
    let b = h n k s a in
    let d : node_eq k m ≡ true → seen k visited ≡ true = λ x. seen-equal k m visited x e in
    ground arith

pub search_nodes-IsClosed :
    (es : List (String × String)) (fuel : ℕ) (queue visited found : List Node)
    → IsClosed es visited queue
    → search_nodes es fuel queue visited ≡ some found
    → IsClosed es found []
unfolding search_nodes
search_nodes-IsClosed es zero queue visited found c h = cc
search_nodes-IsClosed es (suc fuel) [] visited found c h =
    subst (λ v. IsClosed es v []) (some_inj h) c
search_nodes-IsClosed es (suc fuel) (m ∷ queue) visited found c h =
    elim (Bool-cases (seen m visited)) [
      | inl e ↦
          search_nodes-IsClosed es fuel queue visited found (skip-IsClosed es m queue visited e c)
            (ground arith)
      | inr e ↦
          search_nodes-IsClosed es fuel (queue ++ unvisited es m (m ∷ visited)) (m ∷ visited) found
            (expand-IsClosed es m queue visited c) (ground arith)
    ]
