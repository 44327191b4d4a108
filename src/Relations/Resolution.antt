-- ===== src/Relations/Resolution.antt =====
-- From the states of the pairs to relation assertions: `_global_terminal`, `_unmatched_reason` and
-- `_resolve_relations` of src/qste/relations/service.py, as functions of what `_exact_match` and
-- `_components` returned.
use qste.Base.{
  String, Bool, true, false, ◌&&◌, ◌||◌, Option, none, some, List, [], ◌∷◌, if◌then◌else◌, contains,
  any, all,
}
use qste.Relations.Pairs.{
  PairState, incomplete, zero_footprint, effect_failed, effect_boundary, coverage_failed,
  coverage_boundary,
}

pub data Relation : Type 0 where
  overlap : Relation
  split : Relation
  merge : Relation
  omission_of : Relation
  loss_of : Relation
  incomparable : Relation

pub data ComparisonStatus : Type 0 where
  resolved : ComparisonStatus
  indeterminate : ComparisonStatus

-- The relation, status and reason of an assertion, with the candidates it is about.
pub record Assertion : Type 0 where
  pub relation : Option Relation
  pub status : ComparisonStatus
  pub reason : String
  pub sources : List String
  pub targets : List String

-- `_assertion`, up to the identity, the evidence and the receipts of the record.
abbrev pub assertion :
    Option Relation → ComparisonStatus → String → List String → List String → Assertion
assertion r s why sources targets = record {
  relation = r;
  status = s;
  reason = why;
  sources = sources;
  targets = targets;
}

unfoldable pub is_omission : PairState → Bool
is_omission PairState.omission = true
is_omission _ = false

unfoldable pub is_loss : PairState → Bool
is_loss PairState.loss = true
is_loss _ = false

unfoldable pub is_zero : PairState → Bool
is_zero zero_footprint = true
is_zero _ = false

unfoldable pub is_incomplete : PairState → Bool
is_incomplete incomplete = true
is_incomplete _ = false

unfoldable pub is_coverage_boundary : PairState → Bool
is_coverage_boundary coverage_boundary = true
is_coverage_boundary _ = false

unfoldable pub is_effect_boundary : PairState → Bool
is_effect_boundary effect_boundary = true
is_effect_boundary _ = false

unfoldable pub is_coverage_failed : PairState → Bool
is_coverage_failed coverage_failed = true
is_coverage_failed _ = false

unfoldable pub is_effect_failed : PairState → Bool
is_effect_failed effect_failed = true
is_effect_failed _ = false

-- `states == {s}`: a set with one element.
abbrev pub only : (PairState → Bool) → List PairState → Bool
only p [] = false
only p (s ∷ ss) = p s && all p ss

-- `_global_terminal`, from the projection states of the units and the states of the pairs.
unfoldable pub global_terminal :
    List String → List PairState → List String → List String → Option Assertion
global_terminal projections states sources targets =
    if contains "invalid" projections
    then some (assertion (some incomparable) resolved "projection_invalid" sources targets)
    else if contains "capability_unavailable" projections
    then some (assertion none indeterminate "comparison_capability_unavailable" sources targets)
    else if contains "incomplete" projections
    then some (assertion none indeterminate "eligible_evidence_incomplete" sources targets)
    else if only is_omission states
    then some (assertion (some omission_of) resolved "target_address_absent" sources targets)
    else if any is_loss states && all (λ s. is_loss s || is_omission s) states
    then some (assertion (some loss_of) resolved "fidelity_failed" sources targets)
    else if only is_zero states
    then some (assertion none indeterminate "zero_footprint_undefined" sources targets)
    else if only is_incomplete states
    then some (assertion none indeterminate "eligible_evidence_incomplete" sources targets)
    else none

-- `_unmatched_reason`, from the states of the unit's pairs.
unfoldable pub unmatched_reason : List PairState → String × ComparisonStatus
unmatched_reason states =
    if any is_coverage_boundary states
    then ("coverage_boundary_crossing", indeterminate)
    else if any is_effect_boundary states
    then ("effect_boundary_crossing", indeterminate)
    else if any is_zero states
    then ("zero_footprint_undefined", indeterminate)
    else if any is_incomplete states
    then ("eligible_evidence_incomplete", indeterminate)
    else if any is_coverage_failed states
    then ("coverage_failed", resolved)
    else if any is_effect_failed states
    then ("effect_incompatible", resolved)
    else ("unmatched_by_spec", resolved)

-- `RELATION_REASON`
unfoldable pub relation_reason : Relation → String
relation_reason overlap = "matched_overlap"
relation_reason split = "matched_split"
relation_reason merge = "matched_merge"
relation_reason omission_of = "target_address_absent"
relation_reason loss_of = "fidelity_failed"
relation_reason incomparable = "projection_invalid"
