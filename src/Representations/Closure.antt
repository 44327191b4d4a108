-- ===== src/Representations/Closure.antt =====
-- What `refine` of src/qste/representations/stft.py returns.
use qste.Base.{
  suc, String, List, [], ◌∷◌, ◌≤◌, ◌≡◌, refl, ok, length, map, All, All-map, arith, true, false,
  ◌&&◌, Bool, leb, ltb, all, ◌++◌, select, All-append,
}
use qste.Representations.Cells.{
  Shape, validate_cells, sorted_cells, is_inside, insert_cell, Cell, is_empty,
}
use qste.Representations.Controls.{All-sorted_cells}
use qste.Representations.Refinement.{
  Mask, NodeIds, RefinementGraph, cell_key, add_nodes, proper_masks, check_nodes,
}
use qste.Representations.Masks.{
  Sub, Sub-All, Sub-refl, Sub-trans, Listed, IsProper, Listed-proper_masks, proper_masks-IsProper,
  skip, Sub-length, done, All-map_to, keep, IsAscending, sorted_cells-IsAscending, Sub-IsAscending,
}
use qste.Representations.Edges.{
  IsNode, IsChild, HasEdge, IsNode-add_nodes, IsNode-Listed, IsNode-first,
}
use qste.Relations.Selections.{All-select}

all-of_All : {A : Type 0} (p : A → Bool) (xs : List A) → All (λ x. p x ≡ true) xs → all p xs ≡ true
all-of_All p [] h = refl
all-of_All p (x ∷ xs) h = let ih = all-of_All p xs h.1 in ground arith

insert_cell-not_empty : (c : Cell) (cs : Mask) → is_empty (insert_cell c cs) ≡ false
unfolding insert_cell
insert_cell-not_empty c [] = refl
insert_cell-not_empty c (d ∷ ds) = ground arith

pub sorted_cells-valid :
    (shape : Shape) (m : Mask)
    → 1 ≤ length m
    → All (λ c. is_inside shape c ≡ true) m
    → validate_cells (sorted_cells m) shape ≡ ok tt
unfolding validate_cells sorted_cells
sorted_cells-valid shape [] n h = absurd (omega arith)
sorted_cells-valid shape (c ∷ cs) n h =
    let inside =
      all-of_All (is_inside shape) (sorted_cells (c ∷ cs))
        (All-sorted_cells (λ d. is_inside shape d ≡ true) (c ∷ cs) h) in
    rw (insert_cell-not_empty c (sorted_cells cs), inside) refl

pub check_nodes-returns :
    (shape : Shape) (cells : Mask) (ms : List Mask)
    → All (λ c. is_inside shape c ≡ true) cells
    → All (IsProper cells) ms
    → check_nodes shape ms ≡ ok tt
unfolding check_nodes
check_nodes-returns shape cells [] i h = refl
check_nodes-returns shape cells (m ∷ ms) i h =
    rw (sorted_cells-valid shape m h.0.1 (Sub-All (λ c. is_inside shape c ≡ true) h.0.0 i))
      (check_nodes-returns shape cells ms i h.1)

-- The node IDs of a refinement.
abbrev pub ids_of : String → (Mask → String) → Mask → NodeIds
ids_of candidate name cells = add_nodes name (proper_masks cells) ((cell_key cells, candidate) ∷ [])

-- All parts of a mask.
unfoldable pub parts : Mask → List Mask
parts [] = [] ∷ []
parts (c ∷ cs) = map (λ m. c ∷ m) (parts cs) ++ parts cs

abbrev pub is_proper : Mask → Mask → Bool
is_proper cells m = leb 1 (length m) && ltb (length m) (length cells)

-- A mask less one of its cells, in all ways.
unfoldable pub removals : Mask → List Mask
removals [] = []
removals (c ∷ cs) = cs ∷ map (λ m. c ∷ m) (removals cs)

-- The children of a node: a node of one cell has none.
abbrev pub children : Mask → List Mask
children [] = []
children (c ∷ []) = []
children (c ∷ d ∷ ds) = removals (c ∷ d ∷ ds)

parts-Sub : (cells : Mask) → All (λ m. Sub m cells) (parts cells)
unfolding parts
parts-Sub [] = (done, tt)
parts-Sub (c ∷ cs) =
    All-append (λ m. Sub m (c ∷ cs)) (map (λ m. c ∷ m) (parts cs)) (parts cs)
      (All-map_to (λ m. Sub m cs) (λ m. Sub m (c ∷ cs)) (λ m. c ∷ m) (parts cs) (λ m h. keep c h)
        (parts-Sub cs))
      (All-map (λ m. Sub m cs) (λ m. Sub m (c ∷ cs)) (parts cs) (λ m h. skip c h) (parts-Sub cs))

abbrev IsShorter : Mask → Mask → Type 0
IsShorter p c = Sub c p × (suc (length c) ≡ length p)

removals-IsShorter : (p : Mask) → All (IsShorter p) (removals p)
unfolding removals
removals-IsShorter [] = tt
removals-IsShorter (c ∷ cs) = (
  (skip c (Sub-refl cs), refl),
  All-map_to (IsShorter cs) (IsShorter (c ∷ cs)) (λ m. c ∷ m) (removals cs)
      (λ m h. (keep c h.0, omega arith)) (removals-IsShorter cs),
)

pub children-IsChild : (p : Mask) → All (IsChild p) (children p)
children-IsChild [] = tt
children-IsChild (c ∷ []) = tt
children-IsChild (c ∷ d ∷ ds) =
    All-map (IsShorter (c ∷ d ∷ ds)) (IsChild (c ∷ d ∷ ds)) (removals (c ∷ d ∷ ds))
      (λ m h. (h.0, omega arith, h.1)) (removals-IsShorter (c ∷ d ∷ ds))

-- The closure is complete: its nodes are those of the proper parts of the cells, as many as the
-- certificate expects, and each node has an edge to each of its children.
unfoldable pub IsComplete : String → (Mask → String) → Mask → RefinementGraph → Type 0
IsComplete candidate name cells g =
    (g.root_candidate ≡ candidate)
    × (g.required_closure ≡ map name (proper_masks cells))
    × (g.proper_node_count ≡ g.expected_boolean_subset_count)
    × All (λ m. Listed m (proper_masks cells)) (select (is_proper cells) (parts cells))
    × All (λ m. Sub m cells × (is_proper cells m ≡ true)) (proper_masks cells)
    × All (λ p. All (λ c. HasEdge (ids_of candidate name cells) p c g.edges) (children p))
        (cells ∷ proper_masks cells)

pub parts-Listed :
    (cells : Mask)
    → All (λ m. Listed m (proper_masks cells)) (select (is_proper cells) (parts cells))
parts-Listed cells =
    All-map (λ m. Sub m cells × (is_proper cells m ≡ true)) (λ m. Listed m (proper_masks cells))
      (select (is_proper cells) (parts cells))
      (λ m h. Listed-proper_masks m cells (h.0, ground arith, ground arith))
      (All-select (λ m. Sub m cells) (is_proper cells) (parts cells) (parts-Sub cells))

IsNode-of_part :
    (candidate : String) (name : Mask → String) (cells m : Mask)
    → IsAscending cells
    → IsProper cells m
    → IsNode (ids_of candidate name cells) m
IsNode-of_part candidate name cells m a h =
    IsNode-Listed name (proper_masks cells) ((cell_key cells, candidate) ∷ []) m
      (sorted_cells-IsAscending m (Sub-IsAscending h.0 a)) (Listed-proper_masks m cells h)

IsNode-of_child :
    (candidate : String) (name : Mask → String) (cells p c : Mask)
    → IsAscending cells
    → Sub p cells
    → IsChild p c
    → IsNode (ids_of candidate name cells) c
IsNode-of_child candidate name cells p c a s i =
    let fits = Sub-length s in
    IsNode-of_part candidate name cells c a (Sub-trans i.0 s, i.1, omega arith)

pub ready_nodes :
    (candidate : String) (name : Mask → String) (cells : Mask)
    → IsAscending cells
    → All
        (λ p.
          IsNode (ids_of candidate name cells) p
          × ((c : Mask) → IsChild p c → IsNode (ids_of candidate name cells) c))
        (cells ∷ proper_masks cells)
ready_nodes candidate name cells a = (
  (
    IsNode-add_nodes name (proper_masks cells) ((cell_key cells, candidate) ∷ []) cells
        (IsNode-first [] cells candidate),
    λ c i. IsNode-of_child candidate name cells cells c a (Sub-refl cells) i,
  ),
  All-map (IsProper cells) _ (proper_masks cells)
      (λ p h. (
        IsNode-of_part candidate name cells p a h,
        λ c i. IsNode-of_child candidate name cells p c a h.0 i,
      ))
      (proper_masks-IsProper cells),
)
