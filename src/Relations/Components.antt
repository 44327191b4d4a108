-- ===== src/Relations/Components.antt =====
-- `_components` of src/qste/relations/service.py: the connected components of a set of edges. A node
-- `L:s` or `R:t` of the adjacency is `left s` or `right t`; its search takes fuel, and so does the
-- loop over the remaining nodes.
use Prim.Native.Nat.{Ordering}
use Prim.Native.String.{compare}
use qste.Base.{
  ℕ, zero, suc, String, List, Bool, select, ◌+◌, Option, str_eq, ◌∷◌, any, none, ◌*◌, not, false,
  length, if◌then◌else◌, some, [], ◌++◌,
}
use qste.Policy.State.{sorted_set}

pub data Node : Type 0 where
  left : String → Node
  right : String → Node

abbrev pub node_eq : Node → Node → Bool
node_eq (left s) (left t) = str_eq s t
node_eq (right s) (right t) = str_eq s t
node_eq _ _ = false

abbrev pub seen : Node → List Node → Bool
seen n ns = any (node_eq n) ns

-- The order of the node names, where `L:` comes before `R:`.
unfoldable pub node_order : Node → Node → Ordering
node_order (left s) (left t) = compare s t
node_order (left s) (right t) = Ordering.lt
node_order (right s) (left t) = Ordering.gt
node_order (right s) (right t) = compare s t

-- A node among the sorted ones, by its order to the first: before it, equal to it, or in the rest.
abbrev pub place : Ordering → Node → Node → List Node → List Node → List Node
place Ordering.lt n m ns rest = n ∷ m ∷ ns
place Ordering.eq n m ns rest = m ∷ ns
place Ordering.gt n m ns rest = m ∷ rest

unfoldable pub insert_node : Node → List Node → List Node
insert_node n [] = n ∷ []
insert_node n (m ∷ ns) = place (node_order n m) n m ns (insert_node n ns)

unfoldable pub sorted_nodes : List Node → List Node
sorted_nodes [] = []
sorted_nodes (n ∷ ns) = insert_node n (sorted_nodes ns)

-- `adjacency[node]`, a neighbor for each edge at the node.
unfoldable pub adjacent : List (String × String) → Node → List Node
adjacent [] n = []
adjacent ((s, t) ∷ es) n =
    (if node_eq n (left s) then right t ∷ [] else [])
    ++ (if node_eq n (right t) then left s ∷ [] else [])
    ++ adjacent es n

-- `set(adjacency)`
unfoldable pub nodes_of : List (String × String) → List Node
nodes_of [] = []
nodes_of ((s, t) ∷ es) = left s ∷ right t ∷ nodes_of es

-- `sorted(adjacency[node] - visited)`
unfoldable pub unvisited : List (String × String) → Node → List Node → List Node
unvisited es n visited = sorted_nodes (select (λ k. not (seen k visited)) (adjacent es n))

-- The breadth-first search; it returns the visited nodes.
unfoldable pub search_nodes :
    List (String × String) → ℕ → List Node → List Node → Option (List Node)
search_nodes es zero queue visited = none
search_nodes es (suc fuel) [] visited = some visited
search_nodes es (suc fuel) (n ∷ queue) visited =
    let skipped = search_nodes es fuel queue visited in
    let expanded = search_nodes es fuel (queue ++ unvisited es n (n ∷ visited)) (n ∷ visited) in
    if seen n visited then skipped else expanded

unfoldable pub lefts : List Node → List String
lefts [] = []
lefts (left s ∷ ns) = s ∷ lefts ns
lefts (right t ∷ ns) = lefts ns

unfoldable pub rights : List Node → List String
rights [] = []
rights (left s ∷ ns) = rights ns
rights (right t ∷ ns) = t ∷ rights ns

-- One search visits every node and reads every edge from both ends.
abbrev pub search_fuel : List (String × String) → ℕ
search_fuel es = 2 + 2 * length es

abbrev pub component_of : List Node → List String × List String
component_of visited = (sorted_set (lefts visited), sorted_set (rights visited))

abbrev pub and_then {ℓ κ} : {A : Type ℓ} {B : Type κ} → Option A → (A → Option B) → Option B
and_then none next = none
and_then (some a) next = next a

abbrev pub add_component :
    List Node
    → Option (List (List String × List String))
    → Option (List (List String × List String))
add_component visited none = none
add_component visited (some ks) = some (component_of visited ∷ ks)

-- The loop over the remaining nodes, the first of which is the least.
unfoldable pub component_loop :
    List (String × String) → ℕ → List Node → Option (List (List String × List String))
component_loop es zero remaining = none
component_loop es (suc fuel) [] = some []
component_loop es (suc fuel) (root ∷ remaining) =
    and_then (search_nodes es (search_fuel es) (root ∷ []) []) (λ visited.
      add_component visited
        (component_loop es fuel (select (λ n. not (seen n visited)) (root ∷ remaining))))

unfoldable pub components : List (String × String) → Option (List (List String × List String))
components es = component_loop es (suc (length (nodes_of es))) (sorted_nodes (nodes_of es))
