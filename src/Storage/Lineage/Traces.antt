-- ===== src/Storage/Lineage/Traces.antt =====
-- What `trace_lineage` of src/qste/storage/database.py returns.
use qste.Base.{
  ℕ, zero, suc, ◌+◌, ◌-◌, ◌≤◌, ◌<◌, ◌≡◌, inl, inr, refl, sym, subst, String, true, Option, none,
  some, List, [], ◌∷◌, leb, length, some_inj, ap, ok, err, is_ok, Result, Result-cases, ReasonCode,
  arith, All, All-map, Bool-cases,
}
use qste.Storage.Tables.{EdgeRow, Tables}
use qste.Storage.Verification.{Reader}
use qste.Storage.Reads.{read_record}
use qste.Storage.Lineage.{
  Direction, LineageEdge, Walk, edges_at, limit, visit_all, remaining, exhausted, in_bounds,
  walk_loop, trace_lineage,
}
use qste.Storage.Lineage.Walks.{
  Chain, here, Found, unvisited, unvisited-le, length-visit_all, length-limit, IsSound,
  Listed-edges_at, All-limit, measure, visit_all-IsSound,
}

module _ (d : Direction) (edges : List EdgeRow) (start : String) (max_depth : ℕ) where
  abbrev Sound : Walk → Type 0
  Sound = IsSound d edges start max_depth

  expand-IsSound :
      (node : String) (depth : ℕ) (left : Option ℕ) (w : Walk)
      → depth < max_depth
      → Chain d edges start node depth
      → Sound w
      → let w' = visit_all d depth (limit left (edges_at d node 1 edges)) w in
        Sound w' × (measure d edges start max_depth w' ≤ measure d edges start max_depth w)
  expand-IsSound node depth left w lt c s =
      visit_all-IsSound d edges start max_depth depth _ w lt
        (All-limit _ left _ (
          All-map _ _ (edges_at d node 1 edges)
            (λ e h. (h.0, subst (λ k. Chain d edges start k depth) (sym h.1) c))
            (Listed-edges_at d node 1 edges edges (λ e l. l))))
        s

  -- With more fuel than the measure the loop ends, and what it has selected is sound.
  walk_loop-ends :
      (fuel : ℕ) (max_edges : Option ℕ) (queue : List (String × ℕ)) (visited : List String)
      (selected : List LineageEdge)
      → length queue + unvisited d visited edges < fuel
      → All (λ q. Chain d edges start q.0 q.1) queue
      → All (Found d edges start max_depth) selected
      → (es : List LineageEdge) × (walk_loop fuel d max_depth max_edges edges queue visited selected
          ≡ some es)
        × All (Found d edges start max_depth) es
  unfolding walk_loop
  walk_loop-ends zero max_edges queue visited selected m q f = absurd (omega arith)
  walk_loop-ends (suc fuel) max_edges [] visited selected m q f = (selected, refl, f)
  walk_loop-ends (suc fuel) max_edges ((node, depth) ∷ queue) visited selected m q f =
      let left = remaining max_edges selected in
      let popped : Walk = record { queue = queue; visited = visited; selected = selected } in
      let w = visit_all d depth (limit left (edges_at d node 1 edges)) popped in
      elim (Bool-cases (leb max_depth depth)) [
        | inl deep ↦
            rw (deep, walk_loop)
              (walk_loop-ends fuel max_edges queue visited selected (omega arith) q.1 f)
        | inr shallow ↦ elim (Bool-cases (exhausted left)) [
          | inl full ↦ rw (shallow, walk_loop, full) (selected, refl, f)
          | inr room ↦
              let next =
                expand-IsSound node depth left popped (ground arith) q.0
                  (record { queued = q.1; found = f }) in
              rw (shallow, walk_loop, room)
                (walk_loop-ends fuel max_edges w.queue w.visited w.selected (omega (arith, next.1))
                  next.0.queued next.0.found)
        ]
      ]

  -- An edge limit that is met at the start is met by the result.
  length-walk_loop :
      (fuel limit_ : ℕ) (queue : List (String × ℕ)) (visited : List String)
      (selected : List LineageEdge) {es : List LineageEdge}
      → length selected ≤ limit_
      → walk_loop fuel d max_depth (some limit_) edges queue visited selected ≡ some es
      → length es ≤ limit_
  unfolding walk_loop
  length-walk_loop zero n queue visited selected m h = cc
  length-walk_loop (suc fuel) n [] visited selected {es} m h =
      let same : selected ≡ es = cc in subst (λ l. length l ≤ n) same m
  length-walk_loop (suc fuel) n ((node, depth) ∷ queue) visited selected {es} m h =
      let left = remaining (some n) selected in
      let rows = limit left (edges_at d node 1 edges) in
      let popped : Walk = record { queue = queue; visited = visited; selected = selected } in
      let w = visit_all d depth rows popped in
      elim (Bool-cases (leb max_depth depth)) [
        | inl deep ↦ length-walk_loop fuel n queue visited selected m (rw (deep, walk_loop) at h)
        | inr shallow ↦ elim (Bool-cases (exhausted left)) [
          | inl full ↦
              let same : selected ≡ es = some_inj (rw (shallow, walk_loop, full) at h) in
              subst (λ l. length l ≤ n) same m
          | inr room ↦
              length-walk_loop fuel n w.queue w.visited w.selected
                (omega (
                  arith,
                  length-visit_all d depth rows popped,
                  length-limit (n - length selected) (edges_at d node 1 edges),
                ))
                (rw (shallow, walk_loop, room) at h)
        ]
      ]

-- A list is within a limit, if there is one.
abbrev pub AtMost : Option ℕ → List LineageEdge → Type 0
AtMost none es = Unit
AtMost (some n) es = length es ≤ n

AtMost-walk_loop :
    (d : Direction) (edges : List EdgeRow) (max_depth fuel : ℕ) (max_edges : Option ℕ) (id : String)
    {es : List LineageEdge}
    → walk_loop fuel d max_depth max_edges edges ((id, 0) ∷ []) (id ∷ []) [] ≡ some es
    → AtMost max_edges es
AtMost-walk_loop d edges max_depth fuel none id h = tt
AtMost-walk_loop d edges max_depth fuel (some n) id h =
    length-walk_loop d edges id max_depth fuel n ((id, 0) ∷ []) (id ∷ []) [] (omega arith) h

failed_is_not_ok {ℓ} : {A : Type ℓ} (m : Result A) (e : ReasonCode) → m ≡ err e → is_ok m ≡ true → ⊥
failed_is_not_ok m e h k = let l = ap is_ok h in cc

-- Asked for the lineage of a record that `get_record` returns, decoded, within a depth from 1 to 1024
-- and, if there is one, an edge limit from 1 to 100,000, `trace_lineage` ends, and it returns edges
-- of the table that start fewer than `maximum_depth` edges from the record, as many as the limit at
-- most.
pub trace_lineage_sound :
    {F : Type 0} (reader : Reader F) (id : String) (d : Direction) (maximum_depth : ℕ)
    (maximum_edges : Option ℕ) (db : Tables)
    → is_ok (read_record reader id db) ≡ true
    → in_bounds 1024 (some maximum_depth) ≡ true
    → in_bounds 100000 maximum_edges ≡ true
    → (es : List LineageEdge) × (trace_lineage reader id d maximum_depth maximum_edges db
        ≡ ok (some es))
      × All (Found d db.edges id maximum_depth) es
      × AtMost maximum_edges es
unfolding trace_lineage
trace_lineage_sound reader id d max_depth max_edges db present depth_ok edges_ok =
    let (es, ended, found) =
      walk_loop-ends d db.edges id max_depth (length db.edges + 2) max_edges ((id, 0) ∷ [])
        (id ∷ []) [] (omega (arith, unvisited-le d (id ∷ []) db.edges)) (here, tt) tt in
    elim (Result-cases (read_record reader id db)) [
      | inl (fs, stored) ↦ (
        es,
        rw (stored, depth_ok, edges_ok) (ap ok ended),
        found,
        AtMost-walk_loop d db.edges max_depth (length db.edges + 2) max_edges id ended,
      )
      | inr (e, failed) ↦ absurd (failed_is_not_ok (read_record reader id db) e failed present)
    ]
