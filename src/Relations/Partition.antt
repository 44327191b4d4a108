-- ===== src/Relations/Partition.antt =====
-- The components that `_components` of src/qste/relations/service.py returns, against the edges.
use Prim.Native.Nat.{Ordering, suc, zero}
use Prim.Native.String.{compare}
use qste.Base.{
  ℕ, List, ◌≡◌, ◌||◌, true, select, arith, ◌∷◌, not, [], Bool-cases, inl, inr, String, ap, eq_iff,
  refl, str_eq, contains, some, Option, Bool, length, false, any, ◌&&◌, ◌<◌, all, eq_refl,
}
use qste.Relations.Components.{
  Node, left, right, seen, sorted_nodes, adjacent, rights, lefts, component_of, component_loop,
  search_fuel, components, add_component, nodes_of,
}
use qste.Relations.Searches.{
  search_nodes-ends, length-select, cost-all, search_nodes-finds, node_eq_refl, length-sorted_nodes,
}
use qste.Policy.State.{insert_sorted, sorted_set}
use qste.Relations.Decomposition.{edge_eq}
use qste.Relations.Closures.{search_nodes-IsClosed, IsClosed, seen-sorted_nodes, seen-select}

contains-placed :
    (o : Ordering) (k s t : String) (ts rest : List String)
    → (o ≡ Ordering.eq → s ≡ t)
    → (str_eq k s || contains k (t ∷ ts)) ≡ true
    → ((str_eq k s || contains k ts) ≡ true → contains k rest ≡ true)
    → contains k
        (elim o [ Ordering.lt ↦ s ∷ t ∷ ts | Ordering.eq ↦ t ∷ ts | Ordering.gt ↦ t ∷ rest ])
      ≡ true
contains-placed Ordering.lt k s t ts rest p h ih = h
contains-placed Ordering.eq k s t ts rest p h ih =
    let q : str_eq k s ≡ str_eq k t = ap (str_eq k) (p refl) in ground arith
contains-placed Ordering.gt k s t ts rest p h ih = ground arith

contains-insert_sorted :
    (k s : String) (ss : List String)
    → (str_eq k s || contains k ss) ≡ true
    → contains k (insert_sorted s ss) ≡ true
unfolding insert_sorted
contains-insert_sorted k s [] h = h
contains-insert_sorted k s (t ∷ ts) h =
    contains-placed (compare s t) k s t ts (insert_sorted s ts) (λ e. (eq_iff s t).0 (rw e refl)) h
      (contains-insert_sorted k s ts)

pub contains-sorted_set :
    (k : String) (ss : List String) → contains k ss ≡ true → contains k (sorted_set ss) ≡ true
unfolding sorted_set
contains-sorted_set k [] h = h
contains-sorted_set k (s ∷ ss) h =
    let ih = contains-sorted_set k ss in contains-insert_sorted k s (sorted_set ss) (ground arith)

contains-lefts :
    (s : String) (ns : List Node) → seen (left s) ns ≡ true → contains s (lefts ns) ≡ true
unfolding lefts
contains-lefts s [] h = h
contains-lefts s (left t ∷ ns) h = let ih = contains-lefts s ns in ground arith
contains-lefts s (right t ∷ ns) h = contains-lefts s ns h

contains-rights :
    (t : String) (ns : List Node) → seen (right t) ns ≡ true → contains t (rights ns) ≡ true
unfolding rights
contains-rights t [] h = h
contains-rights t (left s ∷ ns) h = contains-rights t ns h
contains-rights t (right s ∷ ns) h = let ih = contains-rights t ns in ground arith

length-select_lt :
    (p : Node → Bool) (n : Node) (ns : List Node)
    → p n ≡ false
    → length (select p (n ∷ ns)) < length (n ∷ ns)
length-select_lt p n ns h = let k = length-select p ns in ground arith

-- A component has both ends of an edge.
abbrev pub has_ends : String → String → List String × List String → Bool
has_ends s t k = contains s k.0 && contains t k.1

component_of-has_ends :
    (es : List (String × String)) (found : List Node) (s t : String)
    → IsClosed es found []
    → seen (left s) found ≡ true
    → seen (right t) (adjacent es (left s)) ≡ true
    → has_ends s t (component_of found) ≡ true
unfolding IsClosed
component_of-has_ends es found s t c h a =
    let k = c (left s) (right t) h a in
    let l = contains-sorted_set s (lefts found) (contains-lefts s found h) in
    let r = contains-sorted_set t (rights found) (contains-rights t found (ground arith)) in
    ground arith

-- What the loop over the remaining nodes returns, and of which edges.
Covers : List (String × String) → List Node → Option (List (List String × List String)) → Type 0
Covers es remaining result =
    (ks : List (List String × List String)) × (result ≡ some ks)
    × ((s t : String)
        → seen (left s) remaining ≡ true
        → seen (right t) (adjacent es (left s)) ≡ true
        → any (has_ends s t) ks ≡ true)

empty-Covers : (es : List (String × String)) → Covers es [] (some [])
unfolding Covers
empty-Covers es = ([], refl, λ s t k a. cc)

empty-IsClosed : (es : List (String × String)) (root : Node) → IsClosed es [] (root ∷ [])
unfolding IsClosed
empty-IsClosed es root n k s a = cc

-- A component is put before those of the nodes that it leaves.
add_component-Covers :
    (es : List (String × String)) (visited remaining : List Node)
    (later : Option (List (List String × List String)))
    → IsClosed es visited []
    → Covers es (select (λ n. not (seen n visited)) remaining) later
    → Covers es remaining (add_component visited later)
unfolding Covers
add_component-Covers es visited remaining later closed rest = rw (rest.1) (
  component_of visited ∷ rest.0,
  refl,
  λ s t k a.
      let split = seen-select (left s) visited remaining k in
      let inside = component_of-has_ends es visited s t closed in
      let after = rest.2 s t in ground arith,
)

component_loop-Covers :
    (es : List (String × String)) (fuel : ℕ) (remaining : List Node)
    → length remaining < fuel
    → Covers es remaining (component_loop es fuel remaining)
unfolding component_loop
component_loop-Covers es zero remaining h = absurd (omega (arith, h))
component_loop-Covers es (suc fuel) [] h = empty-Covers es
component_loop-Covers es (suc fuel) (root ∷ ns) h =
    let bound = cost-all es [] in
    let found = search_nodes-ends es (search_fuel es) (root ∷ []) [] (omega (arith, bound)) in
    let self = node_eq_refl root in
    let is_found =
      search_nodes-finds es (search_fuel es) (root ∷ []) [] found.0 root found.1 (ground arith) in
    let closed =
      search_nodes-IsClosed es (search_fuel es) (root ∷ []) [] found.0 (empty-IsClosed es root)
        found.1 in
    let shorter = length-select_lt (λ n. not (seen n found.0)) root ns (rw is_found refl) in
    let rest =
      component_loop-Covers es fuel (select (λ n. not (seen n found.0)) (root ∷ ns))
        (omega (arith, h, shorter)) in
    rw (found.1) (add_component-Covers es found.0 (root ∷ ns) _ closed rest)

nodes-edge :
    (es : List (String × String)) (s t : String)
    → any (edge_eq (s, t)) es ≡ true
    → seen (left s) (nodes_of es) ≡ true
unfolding nodes_of
nodes-edge [] s t h = h
nodes-edge ((a, b) ∷ es) s t h = let ih = nodes-edge es s t in ground arith

adjacent-edge :
    (es : List (String × String)) (s t : String)
    → any (edge_eq (s, t)) es ≡ true
    → seen (right t) (adjacent es (left s)) ≡ true
unfolding adjacent
adjacent-edge [] s t h = h
adjacent-edge ((a, b) ∷ es) s t h =
    let ih = adjacent-edge es s t in
    elim (Bool-cases (str_eq s a)) [ inl e ↦ rw e (ground arith) | inr e ↦ rw e (ground arith) ]

all-edges :
    (f : String × String → Bool) (es : List (String × String))
    → ((s t : String) → any (edge_eq (s, t)) es ≡ true → f (s, t) ≡ true)
    → all f es ≡ true
all-edges f [] h = refl
all-edges f ((s, t) ∷ es) h =
    let ih = all-edges f es (λ a b k. h a b (ground arith)) in
    let a = eq_refl s in let b = eq_refl t in let here = h s t (ground arith) in ground arith

-- `_components` comes to an end, and each edge has both its ends in one of the components.
pub components_lem :
    (es : List (String × String))
    → (ks : List (List String × List String)) × (components es ≡ some ks)
      × (all (λ e. any (has_ends e.0 e.1) ks) es ≡ true)
unfolding components Covers
components_lem es =
    let bound = length-sorted_nodes (nodes_of es) in
    let c : Covers es (sorted_nodes (nodes_of es)) (components es) =
      component_loop-Covers es (suc (length (nodes_of es))) (sorted_nodes (nodes_of es))
        (omega (arith, bound)) in
    (
      c.0,
      c.1,
      all-edges _ es (λ s t h.
          c.2 s t (seen-sorted_nodes (left s) (nodes_of es) (nodes-edge es s t h))
            (adjacent-edge es s t h)),
    )
