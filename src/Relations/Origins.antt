-- ===== src/Relations/Origins.antt =====
-- Where the members of the components of `_components` (src/qste/relations/service.py) come from.
use Prim.Native.Nat.{Ordering}
use qste.Relations.Components.{
  components, component_loop, lefts, adjacent, rights, search_nodes, Node, insert_node,
  sorted_nodes, nodes_of, unvisited, left, right, component_of, node_order, search_fuel, place,
  and_then, add_component, seen, node_eq,
}
use qste.Base.{
  suc, zero, String, Option, List, All, some, ℕ, none, ◌∷◌, All-append, select, length, [],
  if◌then◌else◌, not, if_elim, ◌++◌, All-selected,
}
use qste.Relations.Arms.{component_list}
use qste.Policy.Members.{All-sorted_set}

module _ (A B : String → Type 0) where
  abbrev pub IsFrom : Node → Type 0
  IsFrom (left s) = A s
  IsFrom (right t) = B t

  -- The ends of an edge.
  abbrev pub HasEnds : String × String → Type 0
  HasEnds e = A e.0 × B e.1

  abbrev pub IsPart : List String × List String → Type 0
  IsPart k = All A k.0 × All B k.1

  All-place :
      (o : Ordering) (n m : Node) (ns rest : List Node)
      → IsFrom n
      → All IsFrom (m ∷ ns)
      → All IsFrom rest
      → All IsFrom (place o n m ns rest)
  All-place Ordering.lt n m ns rest h k r = (h, k)
  All-place Ordering.eq n m ns rest h k r = k
  All-place Ordering.gt n m ns rest h k r = (k.0, r)

  All-insert_node :
      (n : Node) (ns : List Node) → IsFrom n → All IsFrom ns → All IsFrom (insert_node n ns)
  unfolding insert_node
  All-insert_node n [] h k = (h, tt)
  All-insert_node n (m ∷ ns) h k =
      All-place (node_order n m) n m ns (insert_node n ns) h k (All-insert_node n ns h k.1)

  All-sorted_nodes : (ns : List Node) → All IsFrom ns → All IsFrom (sorted_nodes ns)
  unfolding sorted_nodes
  All-sorted_nodes [] h = tt
  All-sorted_nodes (n ∷ ns) h = All-insert_node n (sorted_nodes ns) h.0 (All-sorted_nodes ns h.1)

  All-adjacent :
      (es : List (String × String)) (n : Node) → All HasEnds es → All IsFrom (adjacent es n)
  unfolding adjacent
  All-adjacent [] n h = tt
  All-adjacent ((s, t) ∷ es) n h =
      All-append IsFrom
        ((if node_eq n (left s) then right t ∷ [] else [])
          ++ (if node_eq n (right t) then left s ∷ [] else []))
        (adjacent es n)
        (All-append IsFrom (if node_eq n (left s) then right t ∷ [] else [])
          (if node_eq n (right t) then left s ∷ [] else [])
          (if_elim (All IsFrom) (node_eq n (left s)) (h.0.1, tt) tt)
          (if_elim (All IsFrom) (node_eq n (right t)) (h.0.0, tt) tt))
        (All-adjacent es n h.1)

  All-nodes_of : (es : List (String × String)) → All HasEnds es → All IsFrom (nodes_of es)
  unfolding nodes_of
  All-nodes_of [] h = tt
  All-nodes_of ((s, t) ∷ es) h = (h.0.0, (h.0.1, All-nodes_of es h.1))

  abbrev Found : Option (List Node) → Type 0
  Found none = Unit
  Found (some ns) = All IsFrom ns

  All-search_nodes :
      (es : List (String × String)) (fuel : ℕ) (queue visited : List Node)
      → All HasEnds es
      → All IsFrom queue
      → All IsFrom visited
      → Found (search_nodes es fuel queue visited)
  unfolding search_nodes unvisited
  All-search_nodes es zero queue visited h q v = tt
  All-search_nodes es (suc fuel) [] visited h q v = v
  All-search_nodes es (suc fuel) (n ∷ queue) visited h q v =
      let new = unvisited es n (n ∷ visited) in
      let fresh : All IsFrom new =
        All-sorted_nodes (select (λ k. not (seen k (n ∷ visited))) (adjacent es n)) (
          All-selected IsFrom (λ k. not (seen k (n ∷ visited))) (adjacent es n)
            (All-adjacent es n h)) in
      if_elim Found (seen n visited) (All-search_nodes es fuel queue visited h q.1 v) (
        All-search_nodes es fuel (queue ++ new) (n ∷ visited) h
          (All-append IsFrom queue new q.1 fresh) (q.0, v))

  All-lefts : (ns : List Node) → All IsFrom ns → All A (lefts ns)
  unfolding lefts
  All-lefts [] h = tt
  All-lefts (left s ∷ ns) h = (h.0, All-lefts ns h.1)
  All-lefts (right t ∷ ns) h = All-lefts ns h.1

  All-rights : (ns : List Node) → All IsFrom ns → All B (rights ns)
  unfolding rights
  All-rights [] h = tt
  All-rights (left s ∷ ns) h = All-rights ns h.1
  All-rights (right t ∷ ns) h = (h.0, All-rights ns h.1)

  component_of-IsPart : (ns : List Node) → All IsFrom ns → IsPart (component_of ns)
  component_of-IsPart ns h =
      (All-sorted_set A (lefts ns) (All-lefts ns h), All-sorted_set B (rights ns) (All-rights ns h))

  added :
      (ns : List Node) (later : Option (List (List String × List String)))
      → All IsFrom ns
      → All IsPart (component_list later)
      → All IsPart (component_list (add_component ns later))
  added ns none h k = tt
  added ns (some ks) h k = (component_of-IsPart ns h, k)

  add_component-IsPart :
      (found : Option (List Node)) (later : List Node → Option (List (List String × List String)))
      → Found found
      → ((ns : List Node) → All IsPart (component_list (later ns)))
      → All IsPart
          (component_list (and_then found (λ visited. add_component visited (later visited))))
  add_component-IsPart none later h k = tt
  add_component-IsPart (some ns) later h k = added ns (later ns) h (k ns)

  component_loop-IsPart :
      (es : List (String × String)) (fuel : ℕ) (remaining : List Node)
      → All HasEnds es
      → All IsFrom remaining
      → All IsPart (component_list (component_loop es fuel remaining))
  unfolding component_loop
  component_loop-IsPart es zero remaining h k = tt
  component_loop-IsPart es (suc fuel) [] h k = tt
  component_loop-IsPart es (suc fuel) (root ∷ remaining) h k =
      add_component-IsPart (search_nodes es (search_fuel es) (root ∷ []) [])
        (λ visited. component_loop es fuel (select (λ n. not (seen n visited)) (root ∷ remaining)))
        (All-search_nodes es (search_fuel es) (root ∷ []) [] h (k.0, tt) tt)
        (λ ns.
          component_loop-IsPart es fuel (select (λ n. not (seen n ns)) (root ∷ remaining)) h
            (All-selected IsFrom (λ n. not (seen n ns)) (root ∷ remaining) k))

  -- The components of edges hold ends of these edges only.
  pub components-IsPart :
      (es : List (String × String)) → All HasEnds es → All IsPart (component_list (components es))
  unfolding components
  components-IsPart es h =
      component_loop-IsPart es (suc (length (nodes_of es))) (sorted_nodes (nodes_of es)) h
        (All-sorted_nodes (nodes_of es) (All-nodes_of es h))
