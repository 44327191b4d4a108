-- ===== src/Quanta/Contract.antt =====
-- What the contracts demand of a DSQAssessment: `_validate_assessment` of
-- src/qste/core/p6_contracts.py and the DSQAssessment branch of the semantic checks of
-- src/qste/core/contracts.py.
use qste.Base.{
  Bool, true, false, not, ◌&&◌, ◌||◌, some, List, [], ◌∷◌, str_eq, any, all, Result, ok, ◌>>◌,
  raise_if, conformance_failed,
}
use qste.Quanta.Intervals.{Floats, Interval, finite_interval, bound_lt, contained, disjoint}
use qste.Quanta.Assess.{
  Status, qualified, rejected, indeterminate, Reason, meaningful_closed_equivalent,
  candidate_nonmeaningful, proper_node_nonequivalent, is_nonempty,
}
use qste.Quanta.Verdict.{Assessment, is_qualified}

abbrev pub is_qualifying : Reason → Bool
is_qualifying meaningful_closed_equivalent = true
is_qualifying _ = false

abbrev pub is_candidate_rejection : Reason → Bool
is_candidate_rejection candidate_nonmeaningful = true
is_candidate_rejection _ = false

abbrev pub is_proper_rejection : Reason → Bool
is_proper_rejection proper_node_nonequivalent = true
is_proper_rejection _ = false

abbrev pub is_decisive : Reason → Bool
is_decisive r = is_qualifying r || is_candidate_rejection r || is_proper_rejection r

abbrev pub is_nonempty_list {ℓ} : {A : Type ℓ} → List A → Bool
is_nonempty_list [] = false
is_nonempty_list (_ ∷ _) = true

abbrev pub same_bool : Bool → Bool → Bool
same_bool true b = b
same_bool false b = not b

module _ (N : Floats) where
  -- A proper interval inside the closed region, and one that misses it.
  abbrev pub proper_inside : N.Float → N.Float → Interval N → Bool
  proper_inside lo hi i = finite_interval N (some i) && contained N i lo hi

  abbrev pub proper_outside : N.Float → N.Float → Interval N → Bool
  proper_outside lo hi i = finite_interval N (some i) && disjoint N i lo hi

  abbrev pub check_status : Assessment N → Status → Result (Unit {0})
  check_status a qualified = do
    raise_if (not (is_qualifying a.reason) || not (finite_interval N (some a.candidate_interval)))
        conformance_failed
    raise_if (bound_lt N a.candidate_interval.lower a.meaningful_bound) conformance_failed
    raise_if
        (not (is_nonempty_list a.proper_node_intervals)
          || not
              (all (proper_inside (N.neg a.epsilon_minus) a.epsilon_plus) a.proper_node_intervals))
        conformance_failed
  check_status a rejected = do
    raise_if (not a.negative_evidence_valid) conformance_failed
    raise_if
        (not (
            is_candidate_rejection a.reason
            && (finite_interval N (some a.candidate_interval)
                && bound_lt N a.candidate_interval.upper a.meaningful_bound))
          && not (
              is_proper_rejection a.reason
              && any (proper_outside (N.neg a.epsilon_minus) a.epsilon_plus)
                  a.proper_node_intervals))
        conformance_failed
  check_status a indeterminate = raise_if (is_decisive a.reason) conformance_failed

  -- `_validate_assessment`
  unfoldable pub validate_assessment : Assessment N → Result (Unit {0})
  validate_assessment a = do
    raise_if (not (same_bool a.label_eligible (is_qualified a.status))) conformance_failed
    raise_if (not (N.is_finite a.meaningful_bound)) conformance_failed
    check_status a a.status

  abbrev pub check_semantics : Assessment N → Status → Result (Unit {0})
  check_semantics a qualified = do
    raise_if
        (not (a.qualification_ready && a.certificate_complete && a.certificate_nonempty)
          || not (is_nonempty a.tested_proper_nodes))
        conformance_failed
    raise_if (not (is_qualifying a.reason)) conformance_failed
    raise_if
        (not (str_eq a.dependency_validity "valid")
          || not (str_eq a.authorization_status "permitted"))
        conformance_failed
  check_semantics a rejected = raise_if (not a.negative_evidence_valid) conformance_failed
  check_semantics a indeterminate = ok tt

  -- The DSQAssessment branch of `_validate_semantics`.
  unfoldable pub validate_semantics : Assessment N → Result (Unit {0})
  validate_semantics a = check_semantics a a.status
