-- ===== src/Representations/Edges.antt =====
-- The edges that `refine` of src/qste/representations/stft.py makes between the nodes of its closure.
use qste.Base.{
  suc, String, List, [], ◌∷◌, ◌++◌, ◌≤◌, ◌≡◌, refl, ok, length, All, arith, inl, inr, true,
  Bool-cases, subst, All-map, sym, ◌∙◌, ap,
}
use qste.Representations.Refinement.{
  Mask, NodeIds, Edge, cell_key, mask_eq, node_id, add_nodes, edges_to, edges_of, all_edges,
  combinations,
}
use qste.Representations.Masks.{
  Sub, Listed, Listed-combinations, Listed-append_left, Listed-append_right, IsPart,
  combinations-IsPart,
}
use qste.Representations.Cells.{sorted_cells}

mask_eq_refl : (m : Mask) → mask_eq m m ≡ true
unfolding mask_eq
mask_eq_refl [] = refl
mask_eq_refl (c ∷ cs) = let ih = mask_eq_refl cs in ground arith

-- The key of a mask is that of a node.
abbrev pub IsNode : NodeIds → Mask → Type 0
IsNode ids m = (id : String) × (node_id (cell_key m) ids ≡ ok id)

IsNode-more :
    (ids : NodeIds) (m key : Mask) (id : String) → IsNode ids m → IsNode ((key, id) ∷ ids) m
unfolding node_id
IsNode-more ids m key id h = elim (Bool-cases (mask_eq (cell_key m) key)) [
  | inl e ↦ rw e (id, refl)
  | inr e ↦ rw e h
]

pub IsNode-first : (ids : NodeIds) (m : Mask) (id : String) → IsNode ((cell_key m, id) ∷ ids) m
unfolding node_id
IsNode-first ids m id = rw (mask_eq_refl (cell_key m)) (id, refl)

pub IsNode-add_nodes :
    (name : Mask → String) (ms : List Mask) (ids : NodeIds) (m : Mask)
    → IsNode ids m
    → IsNode (add_nodes name ms ids) m
unfolding add_nodes
IsNode-add_nodes name [] ids m h = h
IsNode-add_nodes name (n ∷ ns) ids m h =
    IsNode-add_nodes name ns ((cell_key (sorted_cells n), name n) ∷ ids) m
      (IsNode-more ids m (cell_key (sorted_cells n)) (name n) h)

pub IsNode-Listed :
    (name : Mask → String) (ms : List Mask) (ids : NodeIds) (m : Mask)
    → sorted_cells m ≡ m
    → Listed m ms
    → IsNode (add_nodes name ms ids) m
unfolding add_nodes
IsNode-Listed name [] ids m o h = absurd h
IsNode-Listed name (n ∷ ns) ids m o (inl e) =
    IsNode-add_nodes name ns ((cell_key (sorted_cells n), name n) ∷ ids) m (
      subst (λ k. IsNode ((cell_key k, name n) ∷ ids) m) (sym o ∙ ap sorted_cells e)
        (IsNode-first ids m (name n)))
IsNode-Listed name (n ∷ ns) ids m o (inr h) =
    IsNode-Listed name ns ((cell_key (sorted_cells n), name n) ∷ ids) m o h

-- An edge from the node of one mask to that of another.
abbrev pub HasEdge : NodeIds → Mask → Mask → List Edge → Type 0
HasEdge ids p c es =
    (e : Edge) × Listed e es
    × (node_id (cell_key p) ids ≡ ok e.parent_candidate_id)
    × (node_id (cell_key c) ids ≡ ok e.child_candidate_id)

HasEdge-append_left :
    (ids : NodeIds) (p c : Mask) (es fs : List Edge)
    → HasEdge ids p c es
    → HasEdge ids p c (es ++ fs)
HasEdge-append_left ids p c es fs h = (h.0, Listed-append_left h.0 es fs h.1, h.2, h.3)

HasEdge-append_right :
    (ids : NodeIds) (p c : Mask) (es fs : List Edge)
    → HasEdge ids p c fs
    → HasEdge ids p c (es ++ fs)
HasEdge-append_right ids p c es fs h = (h.0, Listed-append_right h.0 es fs h.1, h.2, h.3)

edges_to-returns :
    (ids : NodeIds) (p : Mask) (cs : List Mask)
    → IsNode ids p
    → All (IsNode ids) cs
    → (es : List Edge) × (edges_to ids p cs ≡ ok es)
      × ((c : Mask) → Listed c cs → HasEdge ids p c es)
unfolding edges_to
edges_to-returns ids p [] h k = ([], refl, λ c l. absurd l)
edges_to-returns ids p (d ∷ ds) h k =
    let (es, eq, has) = edges_to-returns ids p ds h k.1 in
    let first : Edge = record { parent_candidate_id = h.0; child_candidate_id = k.0.0 } in
    (
      first ∷ es,
      rw (h.1, k.0.1, eq) refl,
      λ c l. elim l [
        | inl e ↦ (first, inl refl, h.1, rw e k.0.1)
        | inr l' ↦ HasEdge-append_right ids p c (first ∷ []) es (has c l')
      ],
    )

-- A mask with one cell less, which is not empty.
abbrev pub IsChild : Mask → Mask → Type 0
IsChild p c = Sub c p × (1 ≤ length c) × (suc (length c) ≡ length p)

edges_of-returns :
    (ids : NodeIds) (p : Mask)
    → IsNode ids p
    → ((c : Mask) → IsChild p c → IsNode ids c)
    → (es : List Edge) × (edges_of ids p ≡ ok es) × ((c : Mask) → IsChild p c → HasEdge ids p c es)
unfolding edges_of
edges_of-returns ids [] h k = ([], refl, λ c i. absurd (omega arith))
edges_of-returns ids (x ∷ []) h k = ([], refl, λ c i. absurd (omega arith))
edges_of-returns ids (x ∷ y ∷ ys) h k =
    let p = x ∷ y ∷ ys in
    let n = suc (length ys) in
    let (es, eq, has) = edges_to-returns ids p (combinations n p) h (
      All-map (IsPart n p) (IsNode ids) (combinations n p)
        (λ c i. k c (i.0, omega arith, omega arith)) (combinations-IsPart n p)) in
    (
      es,
      eq,
      λ c i.
          let size : length c ≡ n = omega arith in
          has c (subst (λ j. Listed c (combinations j p)) size (Listed-combinations i.0)),
    )

pub all_edges-returns :
    (ids : NodeIds) (ps : List Mask)
    → All (λ p. IsNode ids p × ((c : Mask) → IsChild p c → IsNode ids c)) ps
    → (es : List Edge) × (all_edges ids ps ≡ ok es)
      × ((p c : Mask) → Listed p ps → IsChild p c → HasEdge ids p c es)
unfolding all_edges
all_edges-returns ids [] h = ([], refl, λ p c l. absurd l)
all_edges-returns ids (q ∷ qs) h =
    let (es, eq, has) = edges_of-returns ids q h.0.0 h.0.1 in
    let (fs, eq', has') = all_edges-returns ids qs h.1 in
    (
      es ++ fs,
      rw (eq, eq') refl,
      λ p c l i. elim l [
        | inl e ↦ rw e (HasEdge-append_left ids q c es fs (has c (subst (λ r. IsChild r c) e i)))
        | inr l' ↦ HasEdge-append_right ids p c es fs (has' p c l' i)
      ],
    )
