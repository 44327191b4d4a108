-- ===== src/Representations/Refinement.antt =====
-- The closure that `refine` of src/qste/representations/stft.py builds: the candidates of all nonempty
-- proper subsets of the cells, and an edge from each to those with one cell less.
use Prim.Native.Nat.{◌^◌, Ordering}
use qste.Base.{
  ℕ, suc, zero, Bool, String, List, [], ◌∷◌, ◌++◌, ◌-◌, ltb, if◌then◌else◌, Result, ok, err,
  raise_if, ◌>>◌, ◌>>=◌, ◌==◌, map, length, internal_error, invalid_input, capability_unavailable,
  ◌&&◌, false, true,
}
use qste.Representations.Cells.{Shape, sorted_cells, validate_cells, Cell, cell_eq, cell_order}

abbrev pub Mask : Type 0
Mask = List Cell

-- `itertools.combinations(cells, size)`
unfoldable pub combinations : ℕ → Mask → List Mask
combinations zero cells = [] ∷ []
combinations (suc k) [] = []
combinations (suc k) (c ∷ cs) = map (λ m. c ∷ m) (combinations k cs) ++ combinations (suc k) cs

-- The combinations of `count` sizes from `size` on.
unfoldable pub combinations_from : ℕ → ℕ → Mask → List Mask
combinations_from size zero cells = []
combinations_from size (suc count) cells =
    combinations size cells ++ combinations_from (suc size) count cells

-- `masks`, of the sizes in `range(1, len(cells))`.
unfoldable pub proper_masks : Mask → List Mask
proper_masks cells = combinations_from 1 (length cells - 1) cells

-- `sorted(cells)`
unfoldable pub insert_key : Cell → Mask → Mask
insert_key c [] = c ∷ []
insert_key c (d ∷ ds) =
    let rest = insert_key c ds in elim (cell_order c d) [ Ordering.gt ↦ d ∷ rest | _ ↦ c ∷ d ∷ ds ]

-- `_cell_key`
unfoldable pub cell_key : Mask → Mask
cell_key [] = []
cell_key (c ∷ cs) = insert_key c (cell_key cs)

unfoldable pub mask_eq : Mask → Mask → Bool
mask_eq [] [] = true
mask_eq (c ∷ cs) (d ∷ ds) = cell_eq c d && mask_eq cs ds
mask_eq _ _ = false

-- `node_ids`, the entry that was added last first.
abbrev pub NodeIds : Type 0
NodeIds = List (Mask × String)

-- `node_ids[key]`, which raises a `KeyError` for a key that is not there.
unfoldable pub node_id : Mask → NodeIds → Result String
node_id key [] = err internal_error
node_id key ((k, id) ∷ rest) = if mask_eq key k then ok id else node_id key rest

-- Each mask, as `_candidate_record` stores it, with the record ID of its node; `name` stands for the IDs that are drawn.
unfoldable pub add_nodes : (Mask → String) → List Mask → NodeIds → NodeIds
add_nodes name [] ids = ids
add_nodes name (m ∷ ms) ids = add_nodes name ms ((cell_key (sorted_cells m), name m) ∷ ids)

pub record Edge : Type 0 where
  pub parent_candidate_id : String
  pub child_candidate_id : String

unfoldable pub edges_to : NodeIds → Mask → List Mask → Result (List Edge)
edges_to ids parent [] = ok []
edges_to ids parent (child ∷ rest) = do
  p ← node_id (cell_key parent) ids
  c ← node_id (cell_key child) ids
  edges ← edges_to ids parent rest
  ok (record { parent_candidate_id = p; child_candidate_id = c } ∷ edges)

-- The edges of one parent; a parent of one cell has none.
unfoldable pub edges_of : NodeIds → Mask → Result (List Edge)
edges_of ids [] = ok []
edges_of ids (c ∷ []) = ok []
edges_of ids (c ∷ d ∷ ds) = edges_to ids (c ∷ d ∷ ds) (combinations (suc (length ds)) (c ∷ d ∷ ds))

unfoldable pub all_edges : NodeIds → List Mask → Result (List Edge)
all_edges ids [] = ok []
all_edges ids (m ∷ ms) = do edges ← edges_of ids m; rest ← all_edges ids ms; ok (edges ++ rest)

pub record RefinementGraph : Type 0 where
  pub root_candidate : String
  pub required_closure : List String
  pub edges : List Edge
  pub proper_node_count : ℕ
  pub expected_boolean_subset_count : ℕ

-- The check that `_candidate_record` makes of each node's cells.
unfoldable pub check_nodes : Shape → List Mask → Result (Unit {0})
check_nodes shape [] = ok tt
check_nodes shape (m ∷ ms) = validate_cells (sorted_cells m) shape >> check_nodes shape ms

-- `refine`, from the cells of the candidate, with the budget of the procedure and the configured one.
unfoldable pub refine : Shape → String → (Mask → String) → Mask → ℕ → ℕ → Result RefinementGraph
refine shape candidate name cells budget configured = do
  raise_if (length cells == 1) capability_unavailable
  raise_if (ltb budget 1) invalid_input
  raise_if (ltb (if ltb configured budget then configured else budget) (2 ^ length cells - 2))
      capability_unavailable
  let masks = proper_masks cells
  check_nodes shape masks
  edges ← all_edges (add_nodes name masks ((cell_key cells, candidate) ∷ [])) (cells ∷ masks)
  ok (record {
    root_candidate = candidate;
    required_closure = map name masks;
    edges = edges;
    proper_node_count = length masks;
    expected_boolean_subset_count = 2 ^ length cells - 2;
  })
