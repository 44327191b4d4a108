-- ===== src/Relations/Sound.antt =====
-- The assertions of `_resolve_relations` (src/qste/relations/service.py) against the RelationAssertion
-- checks of src/qste/core/contracts.py.
use qste.Base.{
  String, ◌≡◌, inl, inr, refl, not, ◌&&◌, ◌||◌, none, some, List, [], ◌∷◌, ◌++◌, map, any, all, All,
  All-append, length, ltb, ok, raise_if, Ensures, Ensures-bind, Ensures-then, Bool-cases,
  Option-cases, invalid_comparison_spec,
}
use qste.Relations.Resolution.{
  resolved, indeterminate, Assertion, assertion, global_terminal, relation_reason,
}
use qste.Relations.Decomposition.{
  Part, is_match, is_subset, part_edges, no_edges, in_edges, decompose, no_parts,
  decomposed_assertions,
}
use qste.Relations.Assertions.{
  Matching, budget_exhausted, complete, Comparison, decomposed, relation_of, component_assertions,
  all_components, unmatched_source, unmatched_target, left_over, undecided, matched_assertions,
  resolve_relations, check_relation, validate_assertion,
}
use qste.Relations.Rules.{Passes, relation_Passes, terminal-Passes, unmatched-Passes}

decompose-Passes :
    (expected : List (String × String)) (ss ts : List String) (ps : List Part)
    (used : List (String × String))
    → Ensures (λ r. All Passes r.0) (decompose expected ss ts ps used)
unfolding decompose
decompose-Passes expected ss ts [] used = tt
decompose-Passes expected ss ts (p ∷ ps) used =
    let edges = part_edges p expected in
    let found : List Assertion × List (String × String) → List Assertion × List (String × String) =
      λ r. (
        assertion (some p.relation) resolved (relation_reason p.relation) p.source_ids p.target_ids
            ∷ r.0,
        r.1,
      ) in
    let AllPass = λ (r : List Assertion × List (String × String)). All Passes r.0 in
    Ensures-then AllPass
      (raise_if
        (not (is_match p.relation)
          || not (is_subset p.source_ids ss)
          || not (is_subset p.target_ids ts))
        invalid_comparison_spec)
      _
      (λ _.
        Ensures-then AllPass
          (raise_if (no_edges edges || any (λ e. in_edges e used) edges) invalid_comparison_spec) _
          (λ _.
            Ensures-bind AllPass AllPass (decompose expected ss ts ps (used ++ edges))
              (λ r. ok (found r)) (decompose-Passes expected ss ts ps (used ++ edges))
              (λ r h. (relation_Passes p.relation p.source_ids p.target_ids, h))))

decomposed_assertions-Passes :
    (expected : List (String × String)) (ss ts : List String) (ps : List Part)
    → Ensures (All Passes) (decomposed_assertions expected ss ts ps)
unfolding decomposed_assertions
decomposed_assertions-Passes expected ss ts ps =
    Ensures-then (All Passes) (raise_if (no_parts ps) invalid_comparison_spec) _ (λ _.
      Ensures-bind (λ r. All Passes r.0) (All Passes) (decompose expected ss ts ps []) _
        (decompose-Passes expected ss ts ps [])
        (λ r h.
          Ensures-then (All Passes)
            (raise_if (not (all (λ e. in_edges e r.1) expected)) invalid_comparison_spec)
            (λ _. ok r.0) (λ _. h)))

decomposed-Passes :
    (ds : List (List Part)) (representative : List (String × String)) (ss ts : List String)
    → Ensures (All Passes) (decomposed ds representative ss ts)
unfolding decomposed Passes validate_assertion check_relation
decomposed-Passes [] representative ss ts = (refl, tt)
decomposed-Passes (d ∷ []) representative ss ts =
    decomposed_assertions-Passes representative ss ts d
decomposed-Passes (d ∷ e ∷ es) representative ss ts = (refl, tt)

component-Passes :
    (c : Comparison) (representative : List (String × String)) (k : List String × List String)
    → Ensures (All Passes) (component_assertions c representative k)
unfolding component_assertions
component-Passes c representative (ss, ts) =
    elim (Bool-cases (ltb 1 (length ss) && ltb 1 (length ts))) [
      | inl e ↦
          rw (e, component_assertions) (decomposed-Passes c.decompositions representative ss ts)
      | inr e ↦ rw (e, component_assertions) (relation_Passes (relation_of ss ts) ss ts, tt)
    ]

all_components-Passes :
    (c : Comparison) (representative : List (String × String))
    (ks : List (List String × List String))
    → Ensures (All Passes) (all_components c representative ks)
unfolding all_components
all_components-Passes c representative [] = tt
all_components-Passes c representative (k ∷ ks) =
    Ensures-bind (All Passes) (All Passes) (component_assertions c representative k) _
      (component-Passes c representative k)
      (λ as1 h.
        Ensures-bind (All Passes) (All Passes) (all_components c representative ks)
          (λ as2. ok (as1 ++ as2)) (all_components-Passes c representative ks)
          (λ as2 i. All-append Passes as1 as2 h i))

sources-Passes : (c : Comparison) (ids : List String) → All Passes (map (unmatched_source c) ids)
unfolding unmatched_source
sources-Passes c [] = tt
sources-Passes c (id ∷ ids) =
    (unmatched-Passes (map (c.state_of id) c.target_ids) _ _, sources-Passes c ids)

targets-Passes : (c : Comparison) (ids : List String) → All Passes (map (unmatched_target c) ids)
unfolding unmatched_target
targets-Passes c [] = tt
targets-Passes c (id ∷ ids) =
    (unmatched-Passes (map (λ s. c.state_of s id) c.source_ids) _ _, targets-Passes c ids)

undecided-Passes :
    (c : Comparison) (why : String)
    → check_relation none indeterminate why ≡ ok tt
    → All Passes (undecided c why)
unfolding undecided Passes validate_assertion
undecided-Passes c why h = (h, tt)

matched-Passes : (c : Comparison) (m : Matching) → Ensures (All Passes) (matched_assertions c m)
unfolding matched_assertions check_relation
matched-Passes c budget_exhausted = undecided-Passes c "matching_budget_exhausted" refl
matched-Passes c (complete survivors representative) =
    let left = map (unmatched_source c) (left_over c.source_ids (map (λ e. e.0) representative)) in
    let right = map (unmatched_target c) (left_over c.target_ids (map (λ e. e.1) representative)) in
    elim (Bool-cases (ltb 1 (length survivors))) [
      | inl e ↦ rw (e, matched_assertions) (undecided-Passes c "structural_matching_ambiguity" refl)
      | inr e ↦
          rw (e, matched_assertions)
            (Ensures-bind (All Passes) (All Passes)
              (all_components c representative (c.components representative))
              (λ found. ok (found ++ left ++ right))
              (all_components-Passes c representative (c.components representative))
              (λ found h.
                All-append Passes (found ++ left) right
                  (All-append Passes found left h
                    (sources-Passes c (left_over c.source_ids (map (λ e. e.0) representative))))
                  (targets-Passes c (left_over c.target_ids (map (λ e. e.1) representative)))))
    ]

-- Every assertion that `_resolve_relations` returns passes the RelationAssertion checks of the record
-- contracts, whatever the matcher and the components were.
pub resolve_relations-Passes :
    (c : Comparison) → Ensures (All (λ a. validate_assertion a ≡ ok tt)) (resolve_relations c)
unfolding resolve_relations Passes
resolve_relations-Passes c =
    elim (Option-cases (global_terminal c.projections c.states c.source_ids c.target_ids)) [
      | inl e ↦
          rw (e, resolve_relations)
            (Ensures-then (All Passes) c.matching (matched_assertions c) (matched-Passes c))
      | inr (a, e) ↦
          rw (e, resolve_relations)
            (terminal-Passes c.projections c.states c.source_ids c.target_ids a e, tt)
    ]
