-- ===== src/Storage/Lineage/Walks.antt =====
-- One step of the walk of `trace_lineage` in src/qste/storage/database.py: its measure, and the
-- chains of edges from the record asked for.
use qste.Base.{
  ℕ, zero, suc, ◌+◌, ◌≤◌, ◌<◌, ◌≡◌, ◌⊎◌, inl, inr, refl, String, false, Option, none, some, List,
  [], ◌∷◌, length, length-append, contains, str_eq, if◌then◌else◌, arith, All, All-append,
  Bool-cases, eq_refl, eq_iff,
}
use qste.Storage.Tables.{EdgeRow}
use qste.Storage.Lineage.{
  Direction, near_end, far_end, LineageEdge, Walk, edges_at, limit, visit, visit_all, is_selected,
  add_selected,
}

-- The edges whose far end has not been visited.
pub unvisited : Direction → List String → List EdgeRow → ℕ
unvisited d seen [] = 0
unvisited d seen (e ∷ es) =
    let rest = unvisited d seen es in if contains (far_end d e) seen then rest else suc rest

pub unvisited-le :
    (d : Direction) (seen : List String) (es : List EdgeRow) → unvisited d seen es ≤ length es
unfolding unvisited
unvisited-le d seen [] = omega arith
unvisited-le d seen (e ∷ es) = ground (arith, unvisited-le d seen es)

unvisited-cons_le :
    (d : Direction) (node : String) (seen : List String) (es : List EdgeRow)
    → unvisited d (node ∷ seen) es ≤ unvisited d seen es
unfolding unvisited
unvisited-cons_le d node seen [] = omega arith
unvisited-cons_le d node seen (e ∷ es) = ground (arith, unvisited-cons_le d node seen es)

-- An edge of the table.
abbrev pub Listed : EdgeRow → List EdgeRow → Type 0
Listed e [] = ⊥
Listed e (x ∷ xs) = (e ≡ x) ⊎ Listed e xs

-- A visit of a new far end leaves fewer unvisited edges.
unvisited-cons_lt :
    (d : Direction) (seen : List String) (e : EdgeRow) (es : List EdgeRow)
    → Listed e es
    → contains (far_end d e) seen ≡ false
    → unvisited d (far_end d e ∷ seen) es < unvisited d seen es
unfolding unvisited
unvisited-cons_lt d seen e [] l h = absurd l
unvisited-cons_lt d seen e (x ∷ es) (inl same) h =
    rw (← same) (ground (arith, eq_refl (far_end d e), unvisited-cons_le d (far_end d e) seen es))
unvisited-cons_lt d seen e (x ∷ es) (inr later) h =
    ground (arith, unvisited-cons_lt d seen e es later h)

pub Listed-edges_at :
    (d : Direction) (node : String) (n : ℕ) (all es : List EdgeRow)
    → ((e : EdgeRow) → Listed e es → Listed e all)
    → All (λ e. Listed e.row all × (near_end d e.row ≡ node)) (edges_at d node n es)
unfolding edges_at
Listed-edges_at d node n all [] sub = tt
Listed-edges_at d node n all (e ∷ es) sub =
    let rest = Listed-edges_at d node (n + 1) all es (λ x l. sub x (inr l)) in
    elim (Bool-cases (str_eq (near_end d e) node)) [
      | inl here ↦ rw here ((sub e (inl refl), (eq_iff (near_end d e) node).0 here), rest)
      | inr elsewhere ↦ rw elsewhere rest
    ]

pub All-limit {κ} :
    (P : LineageEdge → Type κ) (n : Option ℕ) (es : List LineageEdge)
    → All P es
    → All P (limit n es)
unfolding limit
All-limit P none es h = h
All-limit P (some zero) es h = tt
All-limit P (some (suc n)) [] h = tt
All-limit P (some (suc n)) (e ∷ es) h = (h.0, All-limit P (some n) es h.1)

pub length-limit : (n : ℕ) (es : List LineageEdge) → length (limit (some n) es) ≤ n
unfolding limit
length-limit zero es = omega arith
length-limit (suc n) [] = omega arith
length-limit (suc n) (e ∷ es) = omega (arith, length-limit n es)

All-add_selected {κ} :
    (P : LineageEdge → Type κ) (e : LineageEdge) (es : List LineageEdge)
    → P e
    → All P es
    → All P (add_selected e es)
unfolding add_selected
All-add_selected P e es p h = elim (Bool-cases (is_selected e.place es)) [
  | inl old ↦ rw old h
  | inr new ↦ rw new (All-append P es (e ∷ []) h (p, tt))
]

length-add_selected :
    (e : LineageEdge) (es : List LineageEdge) → length (add_selected e es) ≤ length es + 1
unfolding add_selected
length-add_selected e es = ground (arith, length-append es (e ∷ []))

-- A chain of `n` edges of the table from `start` to a node, in the direction of the walk.
pub data Chain (d : Direction) (edges : List EdgeRow) (start : String) : String → ℕ → Type 0 where
  here : Chain d edges start start 0
  along :
      {n m : ℕ} {node : String} (e : EdgeRow)
      → Listed e edges
      → Chain d edges start (near_end d e) n
      → node ≡ far_end d e
      → m ≡ n + 1
      → Chain d edges start node m

module _ (d : Direction) (edges : List EdgeRow) (start : String) (max_depth : ℕ) where
  -- An edge of the table whose near end is fewer than `max_depth` edges from the start.
  abbrev pub Found : LineageEdge → Type 0
  Found e =
      Listed e.row edges × ((n : ℕ) × (n < max_depth) × Chain d edges start (near_end d e.row) n)

  pub record IsSound (w : Walk) : Type 0 where
    pub queued : All (λ q. Chain d edges start q.0 q.1) w.queue
    pub found : All Found w.selected

  abbrev pub measure : Walk → ℕ
  measure w = length w.queue + unvisited d w.visited edges

  visit-IsSound :
      (depth : ℕ) (e : LineageEdge) (w : Walk)
      → depth < max_depth
      → Listed e.row edges
      → Chain d edges start (near_end d e.row) depth
      → IsSound w
      → IsSound (visit d depth e w)
  unfolding visit
  visit-IsSound depth e w lt l c s =
      let P = λ (q : String × ℕ). Chain d edges start q.0 q.1 in
      let node = far_end d e.row in
      let more = All-add_selected Found e w.selected (l, (depth, lt, c)) s.found in
      elim (Bool-cases (contains node w.visited)) [
        | inl seen ↦ rw seen (record { queued = s.queued; found = more })
        | inr new ↦ rw new (record {
          queued =
              All-append P w.queue ((node, depth + 1) ∷ []) s.queued
                (along e.row l c refl refl, tt);
          found = more;
        })
      ]

  measure-visit :
      (depth : ℕ) (e : LineageEdge) (w : Walk)
      → Listed e.row edges
      → measure (visit d depth e w) ≤ measure w
  unfolding visit
  measure-visit depth e w l =
      let node = far_end d e.row in
      elim (Bool-cases (contains node w.visited)) [
        | inl seen ↦ rw seen (omega arith)
        | inr new ↦ rw new (
            omega (
              arith,
              length-append {0} w.queue ((node, depth + 1) ∷ []),
              unvisited-cons_lt d w.visited e.row edges l new,
            ))
      ]

  pub visit_all-IsSound :
      (depth : ℕ) (es : List LineageEdge) (w : Walk)
      → depth < max_depth
      → All (λ e. Listed e.row edges × Chain d edges start (near_end d e.row) depth) es
      → IsSound w
      → IsSound (visit_all d depth es w) × (measure (visit_all d depth es w) ≤ measure w)
  unfolding visit_all
  visit_all-IsSound depth [] w lt a s = (s, omega arith)
  visit_all-IsSound depth (e ∷ es) w lt a s =
      let next = visit d depth e w in
      let sound = visit-IsSound depth e w lt a.0.0 a.0.1 s in
      let rest = visit_all-IsSound depth es next lt a.1 sound in
      (rest.0, omega (arith, rest.1, measure-visit depth e w a.0.0))

length-visit :
    (d : Direction) (depth : ℕ) (e : LineageEdge) (w : Walk)
    → length (visit d depth e w).selected ≤ length w.selected + 1
unfolding visit
length-visit d depth e w = ground (arith, length-add_selected e w.selected)

pub length-visit_all :
    (d : Direction) (depth : ℕ) (es : List LineageEdge) (w : Walk)
    → length (visit_all d depth es w).selected ≤ length w.selected + length es
unfolding visit_all
length-visit_all d depth [] w = omega arith
length-visit_all d depth (e ∷ es) w =
    omega (arith, length-visit d depth e w, length-visit_all d depth es (visit d depth e w))
