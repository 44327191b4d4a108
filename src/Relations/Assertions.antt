-- ===== src/Relations/Assertions.antt =====
-- `_resolve_relations` of src/qste/relations/service.py, and the RelationAssertion checks of
-- src/qste/core/contracts.py that its assertions must pass.
use qste.Base.{
  String, not, ◌&&◌, Option, none, some, List, [], ◌∷◌, ◌++◌, map, str_eq, if◌then◌else◌, contains,
  select, length, ltb, ◌==◌, Result, ok, err, ◌>>=◌, raise_if, conformance_failed,
}
use qste.Policy.State.{sorted_set}
use qste.Relations.Pairs.{PairState}
use qste.Relations.Resolution.{
  Relation, overlap, split, merge, ComparisonStatus, resolved, indeterminate, Assertion, assertion,
  global_terminal, unmatched_reason, relation_reason, omission_of, loss_of, incomparable,
}
use qste.Relations.Decomposition.{Part, decomposed_assertions}

-- What `_exact_match` returned: the surviving solutions and the first of them.
pub data Matching : Type 0 where
  budget_exhausted : Matching
  complete : List (List (String × String)) → List (String × String) → Matching

-- What the resolution reads: the projections of the units, the states of the pairs, the ids of the
-- two sides, the decompositions of the comparison, the matcher's result, and `_components`.
pub record Comparison : Type 0 where
  pub projections : List String
  pub states : List PairState
  pub source_ids : List String
  pub target_ids : List String
  pub state_of : String → String → PairState
  pub decompositions : List (List Part)
  pub matching : Result Matching
  pub components : List (String × String) → List (List String × List String)

-- A many-to-many component, split as declared when exactly one decomposition is.
unfoldable pub decomposed :
    List (List Part) → List (String × String) → List String → List String → Result (List Assertion)
decomposed [] representative ss ts =
    ok (assertion none indeterminate "decomposition_ambiguity" ss ts ∷ [])
decomposed (d ∷ []) representative ss ts = decomposed_assertions representative ss ts d
decomposed (_ ∷ _ ∷ _) representative ss ts =
    ok (assertion none indeterminate "decomposition_ambiguity" ss ts ∷ [])

unfoldable pub relation_of : List String → List String → Relation
relation_of ss ts =
    if length ss == 1 && length ts == 1 then overlap else if length ss == 1 then split else merge

-- One component of the representative solution.
unfoldable pub component_assertions :
    Comparison → List (String × String) → List String × List String → Result (List Assertion)
component_assertions c representative (ss, ts) =
    if ltb 1 (length ss) && ltb 1 (length ts)
    then decomposed c.decompositions representative ss ts
    else ok (
        assertion (some (relation_of ss ts)) resolved (relation_reason (relation_of ss ts)) ss ts
        ∷ [])

unfoldable pub all_components :
    Comparison → List (String × String) → List (List String × List String) → Result (List Assertion)
all_components c representative [] = ok []
all_components c representative (k ∷ ks) = do
  as1 ← component_assertions c representative k
  as2 ← all_components c representative ks
  ok (as1 ++ as2)

unfoldable pub unmatched_source : Comparison → String → Assertion
unmatched_source c id =
    let r = unmatched_reason (map (c.state_of id) c.target_ids) in
    record {
      relation = none;
      status = r.1;
      reason = r.0;
      sources = id ∷ [];
      targets = c.target_ids;
    }

unfoldable pub unmatched_target : Comparison → String → Assertion
unmatched_target c id =
    let r = unmatched_reason (map (λ s. c.state_of s id) c.source_ids) in
    record {
      relation = none;
      status = r.1;
      reason = r.0;
      sources = c.source_ids;
      targets = id ∷ [];
    }

-- `sorted(set(ids) - matched)`
unfoldable pub left_over : List String → List String → List String
left_over ids matched = sorted_set (select (λ id. not (contains id matched)) ids)

unfoldable pub undecided : Comparison → String → List Assertion
undecided c why =
    record {
      relation = none;
      status = indeterminate;
      reason = why;
      sources = c.source_ids;
      targets = c.target_ids;
    }
    ∷ []

-- The assertions of a matcher's result.
unfoldable pub matched_assertions : Comparison → Matching → Result (List Assertion)
matched_assertions c budget_exhausted = ok (undecided c "matching_budget_exhausted")
matched_assertions c (complete survivors representative) =
    if ltb 1 (length survivors)
    then ok (undecided c "structural_matching_ambiguity")
    else (all_components c representative (c.components representative) >>= λ found. ok (
        found
        ++ map (unmatched_source c) (left_over c.source_ids (map (λ e. e.0) representative))
        ++ map (unmatched_target c) (left_over c.target_ids (map (λ e. e.1) representative))))

-- `_resolve_relations`
unfoldable pub resolve_relations : Comparison → Result (List Assertion)
resolve_relations c = elim (global_terminal c.projections c.states c.source_ids c.target_ids) [
  | some a ↦ ok (a ∷ [])
  | none ↦ c.matching >>= matched_assertions c
]

abbrev pub null_resolved : List String
null_resolved = "coverage_failed" ∷ "effect_incompatible" ∷ "unmatched_by_spec" ∷ []

abbrev pub indeterminate_reasons : List String
indeterminate_reasons =
    "projection_invalid" ∷ "target_address_absent" ∷ "fidelity_failed" ∷ "zero_footprint_undefined"
    ∷ "coverage_boundary_crossing" ∷ "effect_boundary_crossing" ∷ "structural_matching_ambiguity"
    ∷ "decomposition_ambiguity" ∷ "eligible_evidence_incomplete" ∷ "matching_budget_exhausted"
    ∷ "comparison_capability_unavailable" ∷ []

-- `relation_reasons`, the table of the contract.
unfoldable pub contract_reason : Relation → String
contract_reason overlap = "matched_overlap"
contract_reason split = "matched_split"
contract_reason merge = "matched_merge"
contract_reason omission_of = "target_address_absent"
contract_reason loss_of = "fidelity_failed"
contract_reason incomparable = "projection_invalid"

-- The RelationAssertion branch of `_validate_semantics`.
unfoldable pub check_relation : Option Relation → ComparisonStatus → String → Result (Unit {0})
check_relation none indeterminate why =
    raise_if (not (contains why indeterminate_reasons)) conformance_failed
check_relation (some r) indeterminate why = err conformance_failed
check_relation none resolved why = raise_if (not (contains why null_resolved)) conformance_failed
check_relation (some r) resolved why =
    raise_if (not (str_eq (contract_reason r) why)) conformance_failed

unfoldable pub validate_assertion : Assertion → Result (Unit {0})
validate_assertion a = check_relation a.relation a.status a.reason
