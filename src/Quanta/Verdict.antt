-- ===== src/Quanta/Verdict.antt =====
-- The verdict of `QuantaService.assess` of src/qste/quanta/service.py on the evidence of
-- `Quanta.Assess`: its ordered rules, `_indeterminate_reason`, and the fields of the DSQAssessment
-- that its contracts read.
use qste.Base.{
  String, Bool, true, false, not, ◌&&◌, ◌||◌, Option, none, some, List, [], ◌∷◌, map, str_eq,
  if◌then◌else◌, any, all, select, contains, Result, ok, ◌>>=◌, ◌>>◌, raise_if, policy_refused,
  invalid_assessment_spec,
}
use qste.Quanta.Intervals.{Floats, Interval, bound_ge, bound_lt}
use qste.Quanta.Assess.{
  Status, qualified, rejected, indeterminate, Reason, meaningful_closed_equivalent,
  candidate_nonmeaningful, proper_node_nonequivalent, empty_proper_set,
  uncertainty_contract_missing, calibration_unavailable, artifact_control_failed,
  required_evidence_unavailable, closure_unavailable, candidate_boundary_crossing,
  proper_node_boundary_crossing, Candidate, Task, Run, Graph, proper_ids_of, ids_eq,
  availability_graph, interval_of, validate_assessment_links, negative_valid, tests, has_interval,
  is_equivalent, is_nonequivalent, is_nonmeaningful, is_meaningful, is_nonempty, is_ready,
}

module _ (N : Floats) where
  -- `lower < theta <= upper`
  abbrev pub crosses : N.Float → Interval N → Bool
  crosses theta i = bound_lt N i.lower theta && bound_ge N i.upper theta

  -- A proper node with valid evidence that is neither inside nor outside the region.
  unfoldable pub is_crossing : Task N → Run N → String → Bool
  is_crossing t r id =
      negative_valid N r id && not (is_equivalent N t r id) && not (is_nonequivalent N t r id)

  -- `_indeterminate_reason`
  unfoldable pub indeterminate_reason : Candidate → Task N → Run N → Graph → List String → Reason
  indeterminate_reason c t r g ids =
      if c.is_terminal && not (is_nonempty ids)
      then empty_proper_set
      else if not r.family_adjusted
      then uncertainty_contract_missing
      else if str_eq r.termination "budget_exhausted"
      then Reason.budget_exhausted
      else if not r.calibration_available
      then calibration_unavailable
      else if not r.controls_passed
      then artifact_control_failed
      else if not (str_eq r.dependency_validity "valid")
      then required_evidence_unavailable
      else if not g.is_closed || not g.is_complete
      then closure_unavailable
      else if not (has_interval N r c.record_id)
      then required_evidence_unavailable
      else if negative_valid N r c.record_id
          && tests N (crosses t.meaningful_bound) (interval_of N r.adjusted_intervals c.record_id)
      then candidate_boundary_crossing
      else if not (all (has_interval N r) ids)
      then required_evidence_unavailable
      else if any (is_crossing t r) ids
      then proper_node_boundary_crossing
      else required_evidence_unavailable

  -- The ordered rules: rejection, qualification, indeterminate.
  unfoldable pub verdict : Candidate → Task N → Run N → Graph → List String → Status × Reason
  verdict c t r g ids =
      if is_nonmeaningful N t r c.record_id
      then (rejected, candidate_nonmeaningful)
      else if any (is_nonequivalent N t r) ids
      then (rejected, proper_node_nonequivalent)
      else if is_ready N c t r g ids
          && is_meaningful N t r c.record_id
          && (is_nonempty ids && all (is_equivalent N t r) ids)
      then (qualified, meaningful_closed_equivalent)
      else (indeterminate, indeterminate_reason c t r g ids)

  abbrev pub unavailable_interval : Interval N
  unavailable_interval = record { availability = "unavailable"; lower = none; upper = none }

  -- `intervals.get(node_id, {"availability": "unavailable"})`
  unfoldable pub interval_or_unavailable : Run N → String → Interval N
  interval_or_unavailable r id = elim (interval_of N r.adjusted_intervals id) [
    | some i ↦ i
    | none ↦ unavailable_interval
  ]

abbrev pub is_qualified : Status → Bool
is_qualified qualified = true
is_qualified _ = false

-- The fields of a DSQAssessment that depend on the evidence.
pub record Assessment (N : Floats) : Type 0 where
  pub candidate_interval : Interval N
  pub proper_node_intervals : List (Interval N)
  pub meaningful_bound : N.Float
  pub epsilon_minus : N.Float
  pub epsilon_plus : N.Float
  pub tested_proper_nodes : List String
  pub certificate_complete : Bool
  pub certificate_nonempty : Bool
  pub negative_evidence_valid : Bool
  pub qualification_ready : Bool
  pub status : Status
  pub reason : Reason
  pub dependency_validity : String
  pub authorization_status : String
  pub label_eligible : Bool
  pub conclusive_proper_nodes : List String

module _ (N : Floats) where
  -- The markers that stand for an empty list of tested nodes.
  abbrev pub tested_nodes : Run N → List String → List String
  tested_nodes r ids =
      let tested = select (has_interval N r) ids in
      if is_nonempty tested then tested else "not_applicable or unavailable" ∷ []

  unfoldable pub assessment_of : String → Candidate → Task N → Run N → Graph → Assessment N
  assessment_of authorization c t r g =
      let ids = proper_ids_of g.required_closure in
      let v = verdict N c t r g ids in
      record {
        candidate_interval = interval_or_unavailable N r c.record_id;
        proper_node_intervals = map (interval_or_unavailable N r) ids;
        meaningful_bound = t.meaningful_bound;
        epsilon_minus = t.epsilon_minus;
        epsilon_plus = t.epsilon_plus;
        tested_proper_nodes = tested_nodes r ids;
        certificate_complete = g.is_complete;
        certificate_nonempty = is_nonempty ids;
        negative_evidence_valid = negative_valid N r c.record_id || any (negative_valid N r) ids;
        qualification_ready = is_ready N c t r g ids;
        status = v.0;
        reason = v.1;
        dependency_validity = r.dependency_validity;
        authorization_status = authorization;
        label_eligible = is_qualified v.0;
        conclusive_proper_nodes = select (is_nonequivalent N t r) ids;
      }

  -- The graph that an assessment uses: the given one, whose closure the task must name, or the
  -- availability record.
  unfoldable pub graph_for : Candidate → Task N → Option Graph → Result Graph
  graph_for c t none = ok (availability_graph c)
  graph_for c t (some g) = do
    raise_if (not (str_eq g.root_id c.record_id)) invalid_assessment_spec
    raise_if (not (ids_eq t.eligible_family (c.record_id ∷ proper_ids_of g.required_closure)))
        invalid_assessment_spec
    ok g

  -- `assess`, up to the record that it stores.
  unfoldable pub assess : String → Candidate → Task N → Run N → Option Graph → Result (Assessment N)
  assess authorization c t r graph = do
    raise_if (not (str_eq authorization "permitted")) policy_refused
    validate_assessment_links N c t r
    g ← graph_for c t graph
    raise_if (not (contains c.record_id r.raw_units)) invalid_assessment_spec
    ok (assessment_of authorization c t r g)
