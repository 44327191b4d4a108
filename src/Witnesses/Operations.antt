-- ===== src/Witnesses/Operations.antt =====
-- Runs of the reports and results of src/qste/operations.py on one error, repair, assessment and
-- comparison, with a schema set that has one schema of values.
use qste.Base.{
  ℕ, String, Ensures, Answers, standing_denied, none, true, policy_refused, ◌≡◌, some, false, ◌∷◌,
  [], refl,
}
use qste.Core.Json.{Fields, Items, item, field, obj, text, nil, end, null, arr, get_field}
use qste.Operations.Results.{OperationResult, ContractError, refused, completed, has_indeterminate}
use qste.Policy.Appeals.{
  RepairSpec, tombstone, partially_applied, unresolved_targets, repair_status_after,
}
use qste.Operations.Validation.{
  Schemas, ExitSound, validate_operation_result, validate_operation_result-ExitSound, payload_ok,
  check_payload, validate_payload, validate,
}
use qste.Operations.Reasons.{shared_reason}
use qste.Operations.Statuses.{Names, relation_result_lem, quanta_result_lem, accepts}
use qste.Operations.Failures.{
  failure_record, failure_result, failure_result_lem, reported_exit, disposition_of,
}
use qste.Operations.Exits.{Reports, repair_outcome, policy_result_lem, repaired}
use qste.Operations.Domains.{
  relation_result, quanta_result, policy_result, policy_record, with_domain, comparison_status,
  reasons_of, sole_reason,
}
use qste.Policy.State.{revoke, sorted_set, insert_sorted}
use qste.Operations.Outcomes.{Outcome, outcome_record, member, completed_record, items_of}

abbrev schemas : Schemas ℕ
schemas = record { result_conforms = λ _. true; find_schema = λ _. some (λ _. true) }

abbrev denied : ContractError ℕ
denied = record {
  reason_code = standing_denied;
  message = "standing was denied";
  path = nil;
  receipt_id = none;
  authorization_status = none;
  capability_status = none;
  diagnostics_extra = end;
}

failure_result_lem_example :
    Answers
      (λ r. (none ≡ some r.cli_exit_class) × (r.reason_code ≡ "standing_denied") × (r.value ≡ null))
      false
      (failure_result schemas "r1" "open_appeal" denied)
unfolding reported_exit
failure_result_lem_example = failure_result_lem schemas "r1" "open_appeal" denied

abbrev refused_result : OperationResult ℕ
refused_result = failure_record "r1" "export" (record denied { reason_code = policy_refused })

validate_operation_result-ExitSound_example :
    Ensures (λ _. ExitSound refused false 3) (validate_operation_result schemas refused_result)
unfolding failure_record has_indeterminate disposition_of
validate_operation_result-ExitSound_example =
    validate_operation_result-ExitSound schemas refused_result

abbrev spec : RepairSpec
spec = record {
  feasible_change_or_stop = true;
  retention = tombstone;
  external_copies = "mirror" ∷ [];
  propagation_failures = [];
  is_well_formed = true;
}

policy_result_lem_example :
    Answers
      (Reports partially_applied (unresolved_targets revoke spec))
      true
      (policy_result schemas "apply_repair" (repair_outcome revoke spec null "r1" 4))
unfolding payload_ok repair_status_after check_payload unresolved_targets policy_record
    repair_outcome repaired outcome_record
policy_result_lem_example = policy_result_lem schemas revoke spec null "r1" 4

abbrev outcome : Fields ℕ → String → Outcome ℕ
outcome value value_type = record {
  value = obj value;
  value_type = value_type;
  receipt_id = "r1";
  receipt_authorization = "permitted";
  event_sequence = 4;
  operation_status = completed;
  reason_code = "completed";
}

abbrev assessment : Fields ℕ
assessment = field "record_type" (text "DSQAssessment") (
    field "assessment_status" (text "indeterminate")
      (field "reason_code" (text "closure_unavailable") end))

quanta_result_lem_example :
    Answers
      (Names "closure_unavailable" "assessment_status" "indeterminate")
      true
      (quanta_result schemas "r2" "quanta_assess" (outcome assessment "assessment"))
unfolding member get_field accepts payload_ok check_payload completed_record validate_payload
    validate with_domain
quanta_result_lem_example =
    quanta_result_lem schemas "r2" "quanta_assess" (outcome assessment "assessment") "indeterminate"
      "closure_unavailable" refl refl refl

abbrev relations : Items ℕ
relations = item (obj (field "reason_code" (text "matched_split") end)) nil

abbrev comparison : Fields ℕ
comparison = field "payload_type" (text "RelationSet") (
    field "data" (obj (field "comparison_status" (text "completed") end))
      (field "items" (arr relations) end))

relation_result_lem_example :
    Answers
      (Names "matched_split" "comparison_status" "completed")
      true
      (relation_result schemas "r2" "relation_compare" (outcome comparison "relations"))
unfolding member get_field comparison_status items_of reasons_of accepts sole_reason shared_reason
    payload_ok sorted_set check_payload insert_sorted completed_record validate_payload validate
    with_domain
relation_result_lem_example =
    relation_result_lem schemas "r2" "relation_compare" (outcome comparison "relations") "completed"
      relations ("matched_split" ∷ []) refl refl refl refl
