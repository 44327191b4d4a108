-- ===== src/Relations/Complete.antt =====
-- The comparison of two arms (src/qste/relations/service.py) leaves out no candidate.
use qste.Base.{
  any, String, List, contains, map, ◌≡◌, true, false, ◌∷◌, Bool-cases, select, arith, not, str_eq,
  [], inl, eq_iff, eq_refl, subst, inr, Ensures, ◌++◌, Ensures-weaken, Option-cases, some,
  any-append, Ensures-then, Ensures-always, Ensures-if, any-append_right, ltb, length, Ensures-bind,
  ok, Ensures-and, refl,
}
use qste.Relations.Assertions.{
  left_over, unmatched_source, unmatched_target, Comparison, all_components, undecided,
  matched_assertions, resolve_relations, Matching, complete, budget_exhausted,
}
use qste.Relations.Resolution.{Assertion, global_terminal}
use qste.Relations.Coverage.{is_about_source, joins, is_about_target, all_components-joins}
use qste.Relations.Decomposition.{in_edges}
use qste.Relations.Partition.{contains-sorted_set}
use qste.Relations.Containment.{inside}
use qste.Relations.Pairs.{PairState}

-- Some assertion is about the source, and some about the target.
abbrev pub Speaks : String → String → List Assertion → Type 0
Speaks s t found = (any (is_about_source s) found ≡ true) × (any (is_about_target t) found ≡ true)

joins-source :
    (e : String × String) (found : List Assertion)
    → any (joins e) found ≡ true
    → any (is_about_source e.0) found ≡ true
joins-source e [] h = cc
joins-source e (a ∷ found) h = let ih = joins-source e found in ground arith

joins-target :
    (e : String × String) (found : List Assertion)
    → any (joins e) found ≡ true
    → any (is_about_target e.1) found ≡ true
joins-target e [] h = cc
joins-target e (a ∷ found) h = let ih = joins-target e found in ground arith

-- A matched end has an edge.
edge_at_source :
    (s : String) (es : List (String × String))
    → contains s (map (λ e. e.0) es) ≡ true
    → (t : String) × (in_edges (s, t) es ≡ true)
edge_at_source s [] h = cc
edge_at_source s (e ∷ es) h = elim (Bool-cases (str_eq s e.0)) [
  | inl q ↦ (e.1, let k = eq_refl e.1 in ground arith)
  | inr q ↦ let (t, k) = edge_at_source s es (ground arith) in (t, ground arith)
]

edge_at_target :
    (t : String) (es : List (String × String))
    → contains t (map (λ e. e.1) es) ≡ true
    → (s : String) × (in_edges (s, t) es ≡ true)
edge_at_target t [] h = cc
edge_at_target t (e ∷ es) h = elim (Bool-cases (str_eq t e.1)) [
  | inl q ↦ (e.0, let k = eq_refl e.0 in ground arith)
  | inr q ↦ let (s, k) = edge_at_target t es (ground arith) in (s, ground arith)
]

contains-left_over :
    (id : String) (ids matched : List String)
    → contains id ids ≡ true
    → contains id matched ≡ false
    → contains id (left_over ids matched) ≡ true
unfolding left_over
contains-left_over id ids matched h k =
    contains-sorted_set id (select (λ x. not (contains x matched)) ids) (go ids h)
  where
    go :
        (xs : List String)
        → contains id xs ≡ true
        → contains id (select (λ x. not (contains x matched)) xs) ≡ true
    go [] e = cc
    go (x ∷ xs) e = elim (Bool-cases (str_eq id x)) [
      | inl q ↦
          let same = (eq_iff id x).0 q in
          let free = subst (λ z. contains z matched ≡ false) same k in ground arith
      | inr q ↦ let ih = go xs (ground arith) in ground arith
    ]

unmatched-source :
    (c : Comparison) (s : String) (ids : List String)
    → contains s ids ≡ true
    → any (is_about_source s) (map (unmatched_source c) ids) ≡ true
unfolding unmatched_source
unmatched-source c s [] h = cc
unmatched-source c s (id ∷ ids) h = let ih = unmatched-source c s ids in ground arith

unmatched-target :
    (c : Comparison) (t : String) (ids : List String)
    → contains t ids ≡ true
    → any (is_about_target t) (map (unmatched_target c) ids) ≡ true
unfolding unmatched_target
unmatched-target c t [] h = cc
unmatched-target c t (id ∷ ids) h = let ih = unmatched-target c t ids in ground arith

pub terminal_sides :
    (projections : List String) (states : List PairState) (sources targets : List String)
    (a : Assertion)
    → global_terminal projections states sources targets ≡ some a
    → (a.sources ≡ sources) × (a.targets ≡ targets)
unfolding global_terminal
terminal_sides projections states sources targets a e = (ground arith, ground arith)

module _ (c : Comparison) (s t : String) (h : contains s c.source_ids ≡ true)
    (k : contains t c.target_ids ≡ true) where
  -- The components hold every edge of the solution.
  abbrev Holds : List (String × String) → Type 0
  Holds es =
      (e : String × String)
      → in_edges e es ≡ true
      → any (λ q. inside q.0 q.1 e) (c.components es) ≡ true

  -- The assertions of one surviving solution.
  abbrev all_found : List (String × String) → List Assertion → List Assertion
  all_found es found =
      found
      ++ map (unmatched_source c) (left_over c.source_ids (map (λ e. e.0) es))
      ++ map (unmatched_target c) (left_over c.target_ids (map (λ e. e.1) es))

  all_found-source :
      (es : List (String × String))
      → Holds es
      → Ensures
          (λ found. any (is_about_source s) (all_found es found) ≡ true)
          (all_components c es (c.components es))
  all_found-source es held =
      let left = map (unmatched_source c) (left_over c.source_ids (map (λ e. e.0) es)) in
      let right = map (unmatched_target c) (left_over c.target_ids (map (λ e. e.1) es)) in
      let m = all_components c es (c.components es) in
      elim (Bool-cases (contains s (map (λ e. e.0) es))) [
        | inl e ↦
            let (u, q) = edge_at_source s es e in
            Ensures-weaken (λ found. any (joins (s, u)) found ≡ true) _ m
              (all_components-joins (s, u) c es (c.components es) q (held (s, u) q))
              (λ found j.
                any-append (is_about_source s) (found ++ left) right
                  (any-append (is_about_source s) found left (joins-source (s, u) found j)))
        | inr e ↦
            Ensures-weaken (λ _. Unit {0}) _ m (Ensures-always (Unit {0}) m tt)
              (λ found _. any-append (is_about_source s) (found ++ left) right (
                any-append_right (is_about_source s) found left (
                  unmatched-source c s (left_over c.source_ids (map (λ e. e.0) es))
                    (contains-left_over s c.source_ids (map (λ e. e.0) es) h e))))
      ]

  all_found-target :
      (es : List (String × String))
      → Holds es
      → Ensures
          (λ found. any (is_about_target t) (all_found es found) ≡ true)
          (all_components c es (c.components es))
  all_found-target es held =
      let left = map (unmatched_source c) (left_over c.source_ids (map (λ e. e.0) es)) in
      let right = map (unmatched_target c) (left_over c.target_ids (map (λ e. e.1) es)) in
      let m = all_components c es (c.components es) in
      elim (Bool-cases (contains t (map (λ e. e.1) es))) [
        | inl e ↦
            let (u, q) = edge_at_target t es e in
            Ensures-weaken (λ found. any (joins (u, t)) found ≡ true) _ m
              (all_components-joins (u, t) c es (c.components es) q (held (u, t) q))
              (λ found j.
                any-append (is_about_target t) (found ++ left) right
                  (any-append (is_about_target t) found left (joins-target (u, t) found j)))
        | inr e ↦
            Ensures-weaken (λ _. Unit {0}) _ m (Ensures-always (Unit {0}) m tt)
              (λ found _. any-append_right (is_about_target t) (found ++ left) right (
                unmatched-target c t (left_over c.target_ids (map (λ e. e.1) es))
                  (contains-left_over t c.target_ids (map (λ e. e.1) es) k e)))
      ]

  undecided-Speaks : (why : String) → Speaks s t (undecided c why)
  unfolding undecided
  undecided-Speaks why = (ground arith, ground arith)

  matched_assertions-Speaks :
      (m : Matching)
      → ((es : List (String × String)) → Holds es)
      → Ensures (Speaks s t) (matched_assertions c m)
  unfolding matched_assertions
  matched_assertions-Speaks budget_exhausted held = undecided-Speaks "matching_budget_exhausted"
  matched_assertions-Speaks (complete survivors es) held =
      Ensures-if (Speaks s t) (ltb 1 (length survivors)) _ _
        (λ _. undecided-Speaks "structural_matching_ambiguity")
        (λ _.
          Ensures-bind
            (λ found.
              (any (is_about_source s) (all_found es found) ≡ true)
              × (any (is_about_target t) (all_found es found) ≡ true))
            (Speaks s t) (all_components c es (c.components es)) (λ found. ok (all_found es found))
            (Ensures-and _ _ (all_components c es (c.components es)) (all_found-source es (held es))
              (all_found-target es (held es)))
            (λ found q. q))

  global_terminal-Speaks :
      (a : Assertion)
      → global_terminal c.projections c.states c.source_ids c.target_ids ≡ some a
      → Speaks s t (a ∷ [])
  global_terminal-Speaks a e =
      let (p, q) = terminal_sides c.projections c.states c.source_ids c.target_ids a e in
      rw (p, q, h, k) (refl, refl)

  pub resolve_relations-Speaks :
      ((es : List (String × String)) → Holds es) → Ensures (Speaks s t) (resolve_relations c)
  unfolding resolve_relations
  resolve_relations-Speaks held =
      elim (Option-cases (global_terminal c.projections c.states c.source_ids c.target_ids)) [
        | inl e ↦
            rw (e, resolve_relations)
              (Ensures-then (Speaks s t) c.matching (matched_assertions c)
                (λ m. matched_assertions-Speaks m held))
        | inr (a, e) ↦ rw (e, resolve_relations) (global_terminal-Speaks a e)
      ]
