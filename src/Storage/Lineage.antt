-- ===== src/Storage/Lineage.antt =====
-- `trace_lineage` of `RecordStore` in src/qste/storage/database.py: the breadth-first walk over the
-- edges. An edge goes with its place in the table, from 1, in place of its `edge_sequence`: SQLite's
-- numbers may have gaps, but they are unique and in the order of the rows, and the walk only orders
-- and compares them.
pub mod Walks
pub mod Traces
use qste.Base.{
  ℕ, zero, suc, ◌+◌, ◌-◌, ◌*◌, ◌≤◌, ◌<◌, String, Bool, true, false, not, ◌&&◌, ◌||◌, Option, none,
  some, List, [], ◌∷◌, ◌++◌, ◌==◌, ltb, leb, length, any, contains, str_eq, if◌then◌else◌, Result,
  ok, err, invalid_input, ◌>>=◌, ◌>>◌, raise_if,
}
use qste.Storage.Tables.{EdgeRow, Tables}
use qste.Storage.Verification.{Reader}
use qste.Storage.Reads.{read_record}

pub data Direction : Type 0 where
  ancestors : Direction
  descendants : Direction

pub record LineageEdge : Type 0 where
  pub place : ℕ
  pub row : EdgeRow

-- The end of an edge that the walk comes from, and the one that it goes to.
abbrev pub near_end : Direction → EdgeRow → String
near_end ancestors e = e.source_record_id
near_end descendants e = e.target_record_id

abbrev pub far_end : Direction → EdgeRow → String
far_end ancestors e = e.target_record_id
far_end descendants e = e.source_record_id

-- `SELECT * FROM edges WHERE source_record_id = ? ORDER BY edge_sequence`, or by the target.
unfoldable pub edges_at : Direction → String → ℕ → List EdgeRow → List LineageEdge
edges_at d node n [] = []
edges_at d node n (e ∷ es) =
    let rest = edges_at d node (n + 1) es in
    if str_eq (near_end d e) node then record { place = n; row = e } ∷ rest else rest

-- `LIMIT ?`
unfoldable pub limit : Option ℕ → List LineageEdge → List LineageEdge
limit none es = es
limit (some zero) es = []
limit (some (suc n)) [] = []
limit (some (suc n)) (e ∷ es) = e ∷ limit (some n) es

-- The variables of the loop. `selected_ids` are the places of `selected`.
pub record Walk : Type 0 where
  pub queue : List (String × ℕ)
  pub visited : List String
  pub selected : List LineageEdge

abbrev pub is_selected : ℕ → List LineageEdge → Bool
is_selected n es = any (λ e. e.place == n) es

-- `if edge.edge_sequence not in selected_ids: selected.append(edge)`
unfoldable pub add_selected : LineageEdge → List LineageEdge → List LineageEdge
add_selected e es = if is_selected e.place es then es else es ++ e ∷ []

-- The body of the inner loop, for a row that is reached at `depth`.
unfoldable pub visit : Direction → ℕ → LineageEdge → Walk → Walk
visit d depth e w =
    let next_node = far_end d e.row in
    let selected = add_selected e w.selected in
    if contains next_node w.visited then record w { selected = selected } else record w {
      selected = selected;
      visited = next_node ∷ w.visited;
      queue = w.queue ++ (next_node, depth + 1) ∷ [];
    }

unfoldable pub visit_all : Direction → ℕ → List LineageEdge → Walk → Walk
visit_all d depth [] w = w
visit_all d depth (e ∷ es) w = visit_all d depth es (visit d depth e w)

abbrev pub remaining : Option ℕ → List LineageEdge → Option ℕ
remaining none es = none
remaining (some m) es = some (m - length es)

-- `remaining == 0`
abbrev pub exhausted : Option ℕ → Bool
exhausted (some zero) = true
exhausted _ = false

-- `while queue:` on fuel, over the queue, the visited nodes and the selected edges; `none` means
-- that the fuel ran out.
unfoldable pub walk_loop :
    ℕ
    → Direction
    → ℕ
    → Option ℕ
    → List EdgeRow
    → List (String × ℕ)
    → List String
    → List LineageEdge
    → Option (List LineageEdge)
walk_loop zero d max_depth max_edges edges queue visited selected = none
walk_loop (suc fuel) d max_depth max_edges edges [] visited selected = some selected
walk_loop (suc fuel) d max_depth max_edges edges ((node, depth) ∷ queue) visited selected =
    let left = remaining max_edges selected in
    let rows = limit left (edges_at d node 1 edges) in
    let popped : Walk = record { queue = queue; visited = visited; selected = selected } in
    let w = visit_all d depth rows popped in
    elim (leb max_depth depth) [
      | true ↦ walk_loop fuel d max_depth max_edges edges queue visited selected
      | false ↦ elim (exhausted left) [
        | true ↦ some selected
        | false ↦ walk_loop fuel d max_depth max_edges edges w.queue w.visited w.selected
      ]
    ]

-- A bound given as an argument lies between 1 and `top`.
abbrev pub in_bounds : ℕ → Option ℕ → Bool
in_bounds top none = true
in_bounds top (some m) = leb 1 m && leb m top

module _ {F : Type 0} (reader : Reader F) where
  unfoldable pub trace_lineage :
      String → Direction → ℕ → Option ℕ → Tables → Result (Option (List LineageEdge))
  trace_lineage id d maximum_depth maximum_edges db = do
    _ ← read_record reader id db
    raise_if (not (in_bounds 1024 (some maximum_depth))) invalid_input
    raise_if (not (in_bounds 100000 maximum_edges)) invalid_input
    ok (
        walk_loop (length db.edges + 2) d maximum_depth maximum_edges db.edges ((id, 0) ∷ [])
          (id ∷ []) [])
