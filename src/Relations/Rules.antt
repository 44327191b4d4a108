-- ===== src/Relations/Rules.antt =====
-- The cases of `_resolve_relations` (src/qste/relations/service.py) against the RelationAssertion checks
-- of src/qste/core/contracts.py.
use qste.Base.{
  String, ◌≡◌, refl, subst, Bool, true, false, ◌&&◌, ◌||◌, Option, none, some, List, if◌then◌else◌,
  contains, any, all, ok,
}
use qste.Relations.Pairs.{PairState}
use qste.Relations.Resolution.{
  Relation, overlap, split, merge, incomparable, omission_of, loss_of, ComparisonStatus, resolved,
  indeterminate, is_omission, is_loss, is_zero, is_incomplete, is_coverage_boundary,
  is_effect_boundary, is_coverage_failed, is_effect_failed, only, Assertion, assertion,
  global_terminal, unmatched_reason, relation_reason,
}
use qste.Relations.Assertions.{check_relation, validate_assertion, contract_reason}

unfoldable pub Passes : Assertion → Type 0
Passes a = validate_assertion a ≡ ok tt

pub relation_Passes :
    (r : Relation) (ss ts : List String)
    → Passes (assertion (some r) resolved (relation_reason r) ss ts)
unfolding Passes validate_assertion check_relation relation_reason contract_reason
relation_Passes overlap ss ts = refl
relation_Passes split ss ts = refl
relation_Passes merge ss ts = refl
relation_Passes omission_of ss ts = refl
relation_Passes loss_of ss ts = refl
relation_Passes incomparable ss ts = refl

abbrev pub TerminalPasses : Option Assertion → Type 0
TerminalPasses none = Unit
TerminalPasses (some a) = Passes a

-- The rules of `_global_terminal` on the results of their tests.
terminal_rules :
    (ss ts : List String) (a b c d e f g : Bool)
    → TerminalPasses (
        if a
        then some (assertion (some incomparable) resolved "projection_invalid" ss ts)
        else if b
        then some (assertion none indeterminate "comparison_capability_unavailable" ss ts)
        else if c
        then some (assertion none indeterminate "eligible_evidence_incomplete" ss ts)
        else if d
        then some (assertion (some omission_of) resolved "target_address_absent" ss ts)
        else if e
        then some (assertion (some loss_of) resolved "fidelity_failed" ss ts)
        else if f
        then some (assertion none indeterminate "zero_footprint_undefined" ss ts)
        else if g
        then some (assertion none indeterminate "eligible_evidence_incomplete" ss ts)
        else none)
unfolding Passes validate_assertion check_relation contract_reason
terminal_rules ss ts true b c d e f g = refl
terminal_rules ss ts false true c d e f g = refl
terminal_rules ss ts false false true d e f g = refl
terminal_rules ss ts false false false true e f g = refl
terminal_rules ss ts false false false false true f g = refl
terminal_rules ss ts false false false false false true g = refl
terminal_rules ss ts false false false false false false true = refl
terminal_rules ss ts false false false false false false false = tt

pub terminal-Passes :
    (projections : List String) (states : List PairState) (ss ts : List String) (a : Assertion)
    → global_terminal projections states ss ts ≡ some a
    → Passes a
unfolding global_terminal
terminal-Passes projections states ss ts a h = subst TerminalPasses h (
    terminal_rules ss ts (contains "invalid" projections)
      (contains "capability_unavailable" projections) (contains "incomplete" projections)
      (only is_omission states) (any is_loss states && all (λ s. is_loss s || is_omission s) states)
      (only is_zero states) (only is_incomplete states))

abbrev UnmatchedPasses : String × ComparisonStatus → Type 0
UnmatchedPasses r = check_relation none r.1 r.0 ≡ ok tt

-- The rules of `_unmatched_reason` on the results of their tests.
unmatched_rules :
    (a b c d e f : Bool)
    → UnmatchedPasses (
        if a
        then ("coverage_boundary_crossing", indeterminate)
        else if b
        then ("effect_boundary_crossing", indeterminate)
        else if c
        then ("zero_footprint_undefined", indeterminate)
        else if d
        then ("eligible_evidence_incomplete", indeterminate)
        else if e
        then ("coverage_failed", resolved)
        else if f
        then ("effect_incompatible", resolved)
        else ("unmatched_by_spec", resolved))
unfolding check_relation
unmatched_rules true b c d e f = refl
unmatched_rules false true c d e f = refl
unmatched_rules false false true d e f = refl
unmatched_rules false false false true e f = refl
unmatched_rules false false false false true f = refl
unmatched_rules false false false false false true = refl
unmatched_rules false false false false false false = refl

pub unmatched-Passes :
    (states : List PairState) (ss ts : List String)
    → Passes (assertion none (unmatched_reason states).1 (unmatched_reason states).0 ss ts)
unfolding Passes validate_assertion unmatched_reason
unmatched-Passes states ss ts =
    unmatched_rules (any is_coverage_boundary states) (any is_effect_boundary states)
      (any is_zero states) (any is_incomplete states) (any is_coverage_failed states)
      (any is_effect_failed states)
