-- ===== src/Representations/Completeness.antt =====
-- When `refine` of src/qste/representations/stft.py returns, and that its graph is complete.
use Prim.Native.Nat.{◌^◌}
use qste.Base.{
  ℕ, String, Bool, ◌&&◌, not, ltb, leb, ◌==◌, if◌then◌else◌, length, ok, Answers-guard,
  Answers-last, capability_unavailable, invalid_input, true, all, Answers, ◌≡◌, map, ◌-◌, ◌≤◌, List,
  ◌∷◌, All, arith, ◌>>◌, [], ◌>>=◌, All-map, refl,
}
use qste.Representations.Cells.{Shape, validate_cells, is_inside}
use qste.Representations.Edges.{HasEdge, all_edges-returns, IsChild}
use qste.Representations.Subsets.{length-proper_masks}
use qste.Representations.Controls.{All-of_all}
use qste.Representations.Refinement.{
  Mask, refine, proper_masks, all_edges, check_nodes, Edge, RefinementGraph,
}
use qste.Representations.Closure.{
  IsComplete, ids_of, children, ready_nodes, check_nodes-returns, parts-Listed, children-IsChild,
  is_proper,
}
use qste.Representations.Masks.{
  proper_masks-IsProper, Listed, IsProper, Sub, All-Listed, IsAscending,
}

-- The smaller of the two budgets.
abbrev pub allowed : ℕ → ℕ → ℕ
allowed budget configured = if ltb configured budget then configured else budget

abbrev pub may_refine : Mask → ℕ → ℕ → Bool
may_refine cells budget configured =
    not (length cells == 1)
    && (leb 1 budget && leb (2 ^ length cells - 2) (allowed budget configured))

validate_cells-not_empty :
    (shape : Shape) (cells : Mask) → validate_cells cells shape ≡ ok tt → 1 ≤ length cells
unfolding validate_cells
validate_cells-not_empty shape [] v = cc
validate_cells-not_empty shape (c ∷ cs) v = omega arith

validate_cells-inside :
    (shape : Shape) (cells : Mask)
    → validate_cells cells shape ≡ ok tt
    → all (is_inside shape) cells ≡ true
unfolding validate_cells
validate_cells-inside shape cells v = ground arith

module _ (shape : Shape) (candidate : String) (name : Mask → String) (cells : Mask)
    (budget configured : ℕ) where
  edges_complete :
      IsAscending cells
      → 1 ≤ length cells
      → (es : List Edge) × (all_edges (ids_of candidate name cells) (cells ∷ proper_masks cells)
          ≡ ok es)
        × All
            (λ p. All (λ c. HasEdge (ids_of candidate name cells) p c es) (children p))
            (cells ∷ proper_masks cells)
  edges_complete a n =
      let ps = cells ∷ proper_masks cells in
      let (es, eq, has) =
        all_edges-returns (ids_of candidate name cells) ps (ready_nodes candidate name cells a) in
      (
        es,
        eq,
        All-map (λ p. Listed p ps) _ ps
            (λ p l. All-map (IsChild p) _ (children p) (λ c i. has p c l i) (children-IsChild p))
            (All-Listed ps),
      )

  built :
      IsAscending cells
      → validate_cells cells shape ≡ ok tt
      → (g : RefinementGraph) × IsComplete candidate name cells g
        × ((check_nodes shape (proper_masks cells)
              >> (all_edges (ids_of candidate name cells) (cells ∷ proper_masks cells) >>= λ edges.
                  ok (record {
                    root_candidate = candidate;
                    required_closure = map name (proper_masks cells);
                    edges = edges;
                    proper_node_count = length (proper_masks cells);
                    expected_boolean_subset_count = 2 ^ length cells - 2;
                  })))
            ≡ ok g)
  unfolding IsComplete
  built a v =
      let n = validate_cells-not_empty shape cells v in
      let inside = All-of_all (is_inside shape) cells (validate_cells-inside shape cells v) in
      let checked =
        check_nodes-returns shape cells (proper_masks cells) inside (proper_masks-IsProper cells) in
      let (es, eq, has) = edges_complete a n in
      (
        record {
          root_candidate = candidate;
          required_closure = map name (proper_masks cells);
          edges = es;
          proper_node_count = length (proper_masks cells);
          expected_boolean_subset_count = 2 ^ length cells - 2;
        },
        (
          refl,
          refl,
          length-proper_masks cells n,
          parts-Listed cells,
          All-map (IsProper cells) (λ m. Sub m cells × (is_proper cells m ≡ true))
              (proper_masks cells) (λ m h. (h.0, ground arith)) (proper_masks-IsProper cells),
          has,
        ),
        rw (checked, eq) refl,
      )

  -- On cells that ascend and pass `_validate_cells`, `refine` returns exactly when they are more than one, the
  -- budget is positive, and the number of their nonempty proper parts, 2 to their number less two, is
  -- within both budgets. Its closure then has a node for each of these parts and no other, as many
  -- as its certificate expects, and an edge from each node to the node of each part with one cell
  -- less; no look-up of a node fails.
  pub refine_lem :
      IsAscending cells
      → validate_cells cells shape ≡ ok tt
      → Answers
          (IsComplete candidate name cells)
          (may_refine cells budget configured)
          (refine shape candidate name cells budget configured)
  unfolding refine
  refine_lem a v =
      let (g, complete, eq) = built a v in
      Answers-guard (IsComplete candidate name cells) (not (length cells == 1))
        (leb 1 budget && leb (2 ^ length cells - 2) (allowed budget configured)) (length cells == 1)
        capability_unavailable _ (ground arith)
        (Answers-guard (IsComplete candidate name cells) (leb 1 budget)
          (leb (2 ^ length cells - 2) (allowed budget configured)) (ltb budget 1) invalid_input _
          (ground arith)
          (Answers-last (IsComplete candidate name cells)
            (leb (2 ^ length cells - 2) (allowed budget configured))
            (ltb (allowed budget configured) (2 ^ length cells - 2)) capability_unavailable _ g
            (ground arith) eq complete))
