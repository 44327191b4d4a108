-- ===== src/Relations/Searches.antt =====
-- The searches of `_components` (src/qste/relations/service.py): what an edge still costs a search,
-- and the fuel that is enough.
use Prim.Native.Nat.{Ordering}
use qste.Base.{
  ℕ, ◌+◌, ◌≤◌, List, String, length, ◌≡◌, if◌then◌else◌, ◌*◌, arith, true, ◌∷◌, false, ap,
  Bool-cases, [], inl, eq_iff, inr, eq_refl, subst, length-append, Bool, ◌<◌, select, ◌++◌, some,
  not, suc, ◌||◌, zero, refl, some_inj, sym, any-append, ◌⊎◌,
}
use qste.Relations.Components.{
  Node, adjacent, sorted_nodes, insert_node, node_eq, seen, left, right, unvisited, search_nodes,
  node_order, place,
}

-- The ends of edges that a search has not expanded.
abbrev pub end_cost : List Node → Node → ℕ
end_cost visited n = if seen n visited then 0 else 1

abbrev pub cost : List (String × String) → List Node → ℕ
cost [] visited = 0
cost ((s, t) ∷ es) visited =
    end_cost visited (left s) + end_cost visited (right t) + cost es visited

pub cost-all : (es : List (String × String)) (visited : List Node) → cost es visited ≤ 2 * length es
cost-all [] visited = omega arith
cost-all ((s, t) ∷ es) visited = let h = cost-all es visited in ground arith

length-place :
    (o : Ordering) (n m : Node) (ns rest : List Node)
    → (length (place o n m ns rest) ≤ 2 + length ns)
      ⊎ (length (place o n m ns rest) ≡ 1 + length rest)
length-place Ordering.lt n m ns rest = ground arith
length-place Ordering.eq n m ns rest = ground arith
length-place Ordering.gt n m ns rest = ground arith

length-insert_node : (n : Node) (ns : List Node) → length (insert_node n ns) ≤ 1 + length ns
unfolding insert_node
length-insert_node n [] = ground arith
length-insert_node n (m ∷ ns) =
    let h = length-insert_node n ns in
    let k = length-place (node_order n m) n m ns (insert_node n ns) in ground arith

pub length-sorted_nodes : (ns : List Node) → length (sorted_nodes ns) ≤ length ns
unfolding sorted_nodes
length-sorted_nodes [] = ground arith
length-sorted_nodes (n ∷ ns) =
    let h = length-sorted_nodes ns in
    let k = length-insert_node n (sorted_nodes ns) in omega (arith, h, k)

pub node_eq_lem : (a b : Node) → node_eq a b ≡ true → a ≡ b
node_eq_lem (left s) (left t) h = ap left ((eq_iff s t).0 h)
node_eq_lem (right s) (right t) h = ap right ((eq_iff s t).0 h)
node_eq_lem (left s) (right t) h = cc
node_eq_lem (right s) (left t) h = cc

pub node_eq_refl : (n : Node) → node_eq n n ≡ true
node_eq_refl (left s) = eq_refl s
node_eq_refl (right s) = eq_refl s

-- A node pays for one end of an edge, when it is that end and not visited yet.
abbrev paid : Node → List Node → Node → ℕ
paid n visited k = if node_eq n k then 1 else 0

end_cost_lem :
    (n k : Node) (visited : List Node)
    → seen n visited ≡ false
    → paid n visited k + end_cost (n ∷ visited) k ≤ end_cost visited k
end_cost_lem n k visited h = elim (Bool-cases (node_eq n k)) [
  | inl e ↦
      subst (λ j. paid n visited j + end_cost (n ∷ visited) j ≤ end_cost visited j)
        (node_eq_lem n k e) (let r = node_eq_refl n in ground arith)
  | inr e ↦ ground arith
]

-- A node that is expanded pays for the neighbors that it adds.
adjacent-cost :
    (es : List (String × String)) (n : Node) (visited : List Node)
    → seen n visited ≡ false
    → length (adjacent es n) + cost es (n ∷ visited) ≤ cost es visited
unfolding adjacent
adjacent-cost [] n visited h = ground arith
adjacent-cost ((s, t) ∷ es) n visited h =
    let ih = adjacent-cost es n visited h in
    let a = end_cost_lem n (left s) visited h in
    let b = end_cost_lem n (right t) visited h in
    let x : List Node = if node_eq n (left s) then right t ∷ [] else [] in
    let y : List Node = if node_eq n (right t) then left s ∷ [] else [] in
    let l = length-append (x ++ y) (adjacent es n) in let m = length-append x y in ground arith

pub length-select : (p : Node → Bool) (ns : List Node) → length (select p ns) ≤ length ns
length-select p [] = omega arith
length-select p (n ∷ ns) = let h = length-select p ns in ground arith

unvisited-cost :
    (es : List (String × String)) (n : Node) (visited : List Node)
    → seen n visited ≡ false
    → length (unvisited es n (n ∷ visited)) + cost es (n ∷ visited) ≤ cost es visited
unfolding unvisited
unvisited-cost es n visited h =
    let new = select (λ k. not (seen k (n ∷ visited))) (adjacent es n) in
    let a = length-sorted_nodes new in
    let b = length-select (λ k. not (seen k (n ∷ visited))) (adjacent es n) in
    let c = adjacent-cost es n visited h in omega (arith, a, b, c)

-- A search with fuel for its queue and the ends that it has not expanded comes to an end.
pub search_nodes-ends :
    (es : List (String × String)) (fuel : ℕ) (queue visited : List Node)
    → length queue + cost es visited < fuel
    → (found : List Node) × (search_nodes es fuel queue visited ≡ some found)
unfolding search_nodes
search_nodes-ends es zero queue visited h = ground arith
search_nodes-ends es (suc fuel) [] visited h = (visited, refl)
search_nodes-ends es (suc fuel) (n ∷ queue) visited h = elim (Bool-cases (seen n visited)) [
  | inl e ↦ rw e (search_nodes-ends es fuel queue visited (omega (arith, h)))
  | inr e ↦
      let new = unvisited es n (n ∷ visited) in
      let a = unvisited-cost es n visited e in
      let b = length-append queue new in
      rw e (search_nodes-ends es fuel (queue ++ new) (n ∷ visited) (omega (arith, h, a, b)))
]

pub seen-equal :
    (n m : Node) (visited : List Node)
    → node_eq n m ≡ true
    → seen m visited ≡ true
    → seen n visited ≡ true
seen-equal n m visited e h = subst (λ k. seen k visited ≡ true) (sym (node_eq_lem n m e)) h

-- A search keeps what it has visited and finds its queue.
pub search_nodes-finds :
    (es : List (String × String)) (fuel : ℕ) (queue visited found : List Node) (n : Node)
    → search_nodes es fuel queue visited ≡ some found
    → (seen n visited || seen n queue) ≡ true
    → seen n found ≡ true
unfolding search_nodes
search_nodes-finds es zero queue visited found n h k = cc
search_nodes-finds es (suc fuel) [] visited found n h k =
    subst (λ v. seen n v ≡ true) (some_inj h) (ground arith)
search_nodes-finds es (suc fuel) (m ∷ queue) visited found n h k =
    let new = unvisited es m (m ∷ visited) in
    elim (Bool-cases (seen m visited)) [
      | inl e ↦
          let d : node_eq n m ≡ true → seen n visited ≡ true = λ x. seen-equal n m visited x e in
          search_nodes-finds es fuel queue visited found n (ground arith) (ground arith)
      | inr e ↦
          let d = any-append (node_eq n) queue new in
          search_nodes-finds es fuel (queue ++ new) (m ∷ visited) found n (ground arith)
            (ground arith)
    ]
