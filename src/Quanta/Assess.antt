-- ===== src/Quanta/Assess.antt =====
-- The decision of `QuantaService.assess` of src/qste/quanta/service.py: from the candidate, its task,
-- a paired-score run and a refinement graph to a verdict, with `_validate_assessment_links`,
-- `_proper_ids` and `_indeterminate_reason`.
use qste.Base.{
  String, Bool, true, false, not, ◌&&◌, Option, none, some, List, [], ◌∷◌, str_eq, if◌then◌else◌,
  all, Result, ◌>>◌, raise_if, invalid_assessment_spec,
}
use qste.Quanta.Intervals.{
  Floats, Interval, finite_interval, bound_ge, bound_lt, contained, disjoint,
}

pub data Status : Type 0 where
  qualified : Status
  rejected : Status
  indeterminate : Status

pub data Reason : Type 0 where
  meaningful_closed_equivalent : Reason
  candidate_nonmeaningful : Reason
  proper_node_nonequivalent : Reason
  empty_proper_set : Reason
  uncertainty_contract_missing : Reason
  budget_exhausted : Reason
  calibration_unavailable : Reason
  artifact_control_failed : Reason
  required_evidence_unavailable : Reason
  closure_unavailable : Reason
  candidate_boundary_crossing : Reason
  proper_node_boundary_crossing : Reason

pub record Candidate : Type 0 where
  pub record_id : String
  pub is_terminal : Bool

pub record Task (N : Floats) : Type 0 where
  pub record_id : String
  pub profile : String
  pub candidate_id : String
  pub eligible_family : List String
  pub meaningful_bound : N.Float
  pub epsilon_minus : N.Float
  pub epsilon_plus : N.Float
  pub selection_disjoint : Bool

-- `adjusted_intervals` in the order of the run, each with its unit; `raw_units` the keys of the raw
-- paired evidence.
pub record Run (N : Floats) : Type 0 where
  pub profile : String
  pub task_id : String
  pub adjusted_intervals : List (String × Interval N)
  pub raw_units : List String
  pub family_complete : Bool
  pub family_adjusted : Bool
  pub controls_passed : Bool
  pub calibration_available : Bool
  pub dependency_validity : String
  pub termination : String

-- An entry of `required_closure` is `none` where it is a marker and no record id.
pub record Graph : Type 0 where
  pub root_id : String
  pub required_closure : List (Option String)
  pub is_closed : Bool
  pub is_complete : Bool

-- `_proper_ids`
abbrev pub proper_ids_of : List (Option String) → List String
proper_ids_of [] = []
proper_ids_of (none ∷ xs) = proper_ids_of xs
proper_ids_of (some id ∷ xs) = id ∷ proper_ids_of xs

-- `[candidate_record_id, *proper_ids] == family`
abbrev pub ids_eq : List String → List String → Bool
ids_eq [] [] = true
ids_eq (x ∷ xs) (y ∷ ys) = str_eq x y && ids_eq xs ys
ids_eq _ _ = false

-- `_availability_graph`, as far as the decision reads it: its closure is one marker.
abbrev pub availability_graph : Candidate → Graph
availability_graph c = record {
  root_id = c.record_id;
  required_closure = none ∷ [];
  is_closed = false;
  is_complete = false;
}

abbrev pub is_nonempty : List String → Bool
is_nonempty [] = false
is_nonempty (_ ∷ _) = true

module _ (N : Floats) where
  -- The dictionary of the adjusted intervals: a later entry replaces an earlier one.
  unfoldable pub interval_of : List (String × Interval N) → String → Option (Interval N)
  interval_of [] id = none
  interval_of (e ∷ es) id = elim (interval_of es id) [
    | some i ↦ some i
    | none ↦ if str_eq e.0 id then some e.1 else none
  ]

  -- `_validate_assessment_links`
  unfoldable pub validate_assessment_links : Candidate → Task N → Run N → Result (Unit {0})
  validate_assessment_links c t r = do
    raise_if (not (str_eq t.profile "qste-paired-score-task/v0.1")) invalid_assessment_spec
    raise_if (not (str_eq t.candidate_id c.record_id)) invalid_assessment_spec
    raise_if (not (str_eq r.profile "qste-paired-score-run/v0.1")) invalid_assessment_spec
    raise_if (not (str_eq r.task_id t.record_id)) invalid_assessment_spec

  unfoldable pub global_negative_valid : Run N → Bool
  global_negative_valid r =
      (r.family_complete && r.family_adjusted)
      && r.controls_passed
      && r.calibration_available
      && str_eq r.dependency_validity "valid"

  -- `candidate_negative_valid`, and `proper_valid[node_id]`.
  unfoldable pub negative_valid : Run N → String → Bool
  negative_valid r id =
      global_negative_valid r && finite_interval N (interval_of r.adjusted_intervals id)

  -- A test of a unit's interval.
  abbrev pub tests : (Interval N → Bool) → Option (Interval N) → Bool
  tests p none = false
  tests p (some i) = p i

  abbrev pub has_interval : Run N → String → Bool
  has_interval r id = tests (λ _. true) (interval_of r.adjusted_intervals id)

  abbrev pub lower_zero : Task N → N.Float
  lower_zero t = N.neg t.epsilon_minus

  unfoldable pub is_equivalent : Task N → Run N → String → Bool
  is_equivalent t r id =
      negative_valid r id
      && tests (λ i. contained N i (lower_zero t) t.epsilon_plus)
          (interval_of r.adjusted_intervals id)

  unfoldable pub is_nonequivalent : Task N → Run N → String → Bool
  is_nonequivalent t r id =
      negative_valid r id
      && tests (λ i. disjoint N i (lower_zero t) t.epsilon_plus)
          (interval_of r.adjusted_intervals id)

  unfoldable pub is_nonmeaningful : Task N → Run N → String → Bool
  is_nonmeaningful t r id =
      negative_valid r id
      && tests (λ i. bound_lt N i.upper t.meaningful_bound) (interval_of r.adjusted_intervals id)

  unfoldable pub is_meaningful : Task N → Run N → String → Bool
  is_meaningful t r id =
      negative_valid r id
      && tests (λ i. bound_ge N i.lower t.meaningful_bound) (interval_of r.adjusted_intervals id)

  -- `qualification_ready`
  unfoldable pub is_ready : Candidate → Task N → Run N → Graph → List String → Bool
  is_ready c t r g ids =
      (g.is_closed && g.is_complete)
      && is_nonempty ids
      && (has_interval r c.record_id && all (has_interval r) ids)
      && all (negative_valid r) ids
      && negative_valid r c.record_id
      && t.selection_disjoint
