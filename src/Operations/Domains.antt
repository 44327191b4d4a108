-- ===== src/Operations/Domains.antt =====
-- The results of src/qste/operations.py that carry a domain status: `_quanta_result`,
-- `_relation_result` and `_p8_result`, and the outcome of `apply_repair` of
-- src/qste/policy/service.py that the last one reports.
use qste.Operations.Results.{OperationStatus, partial, OperationResult}
use qste.Core.Json.{Json, Items, Fields, obj, end, field, item, get_field, int, nil, arr}
use qste.Base.{
  String, Bool, Option, List, ℕ, true, some, Result, ◌∷◌, ◌>>=◌, [], ok, err, false, if◌then◌else◌,
  internal_error, str_eq, none,
}
use qste.Operations.Validation.{Schemas}
use qste.Operations.Outcomes.{
  outcome_record, validated, Outcome, versioned, completed_result, member, has_member, items_of,
  text_items,
}
use qste.Policy.State.{sorted_set}

-- `PolicyOutcome` and `TransductionOutcome`.
pub record PolicyOutcome (F : Type 0) : Type 0 where
  pub base : Outcome F
  pub authorization_status : String
  pub repair_status : Option String
  pub unresolved_targets : List String
  pub safety_record_ids : List String

abbrev pub exit_of : String → ℕ
exit_of status = if str_eq status "indeterminate" then 5 else 0

-- `reasons[0] if len(reasons) == 1 else "completed"`
unfoldable pub sole_reason : List String → String
sole_reason (r ∷ []) = r
sole_reason _ = "completed"

-- `result["unresolved_targets"]` of a partial result.
unfoldable pub listed_targets : List String → List String
listed_targets [] = "repair_not_feasible" ∷ []
listed_targets (t ∷ ts) = t ∷ ts

abbrev pub is_partial : OperationStatus → Bool
is_partial partial = true
is_partial _ = false

abbrev pub required : Option String → Result String
required none = err internal_error
required (some s) = ok s

abbrev pub repair_domain : Option String → Option (List (String × String))
repair_domain none = none
repair_domain (some status) = some (("repair_status", status) ∷ [])

module _ {F : Type 0} where
  unfoldable pub with_domain : OperationResult F → String → String → String → OperationResult F
  with_domain r reason key status = record r {
    reason_code = reason;
    domain_status = some ((key, status) ∷ []);
    cli_exit_class = exit_of status;
  }

  abbrev pub event_diagnostics : Outcome F → Fields F
  event_diagnostics outcome = field "event_sequence" (int outcome.event_sequence) end

  unfoldable pub completed_outcome :
      Schemas F → String → String → Outcome F → Result (OperationResult F)
  completed_outcome schemas fresh operation outcome =
      completed_result schemas fresh (versioned operation) outcome.value_type outcome.value
        (event_diagnostics outcome) (some outcome.receipt_id)

  -- The assessment's status and reason replace those of the completed result.
  unfoldable pub assessed : Schemas F → Json F → OperationResult F → Result (OperationResult F)
  assessed schemas value r = do
    status ← required (member "assessment_status" value)
    reason ← required (member "reason_code" value)
    validated schemas (with_domain r reason "assessment_status" status)

  -- `_quanta_result`
  unfoldable pub quanta_result :
      Schemas F → String → String → Outcome F → Result (OperationResult F)
  quanta_result schemas fresh operation outcome = do
    result ← completed_outcome schemas fresh operation outcome
    if has_member "record_type" "DSQAssessment" outcome.value
        then assessed schemas outcome.value result
        else ok result

  -- `value["data"]["comparison_status"]`
  unfoldable pub comparison_status : Json F → Result String
  comparison_status (obj fs) = elim (get_field "data" fs) [
    | none ↦ err internal_error
    | some fields ↦ required (member "comparison_status" fields)
  ]
  comparison_status _ = err internal_error

  unfoldable pub reasons_of : Items F → Result (List String)
  reasons_of nil = ok []
  reasons_of (item x xs) = do
    reason ← required (member "reason_code" x)
    reasons ← reasons_of xs
    ok (reason ∷ reasons)

  unfoldable pub compared : Schemas F → Json F → OperationResult F → Result (OperationResult F)
  compared schemas value r = do
    status ← comparison_status value
    items ← items_of value
    reasons ← reasons_of items
    validated schemas (with_domain r (sole_reason (sorted_set reasons)) "comparison_status" status)

  -- `_relation_result`
  unfoldable pub relation_result :
      Schemas F → String → String → Outcome F → Result (OperationResult F)
  relation_result schemas fresh operation outcome = do
    result ← completed_outcome schemas fresh operation outcome
    if has_member "payload_type" "RelationSet" outcome.value
        then compared schemas outcome.value result
        else ok result

  abbrev pub policy_diagnostics : List String → Fields F
  policy_diagnostics [] = end
  policy_diagnostics (id ∷ ids) =
      field "safety_descendant_record_ids" (arr (text_items (id ∷ ids))) end

  -- The result that `_p8_result` builds.
  unfoldable pub policy_record : String → PolicyOutcome F → OperationResult F
  policy_record operation outcome =
      let r =
        outcome_record (versioned operation) outcome.base outcome.authorization_status "available"
          (policy_diagnostics outcome.safety_record_ids) in
      let reported : OperationResult F = record r {
        domain_status = repair_domain outcome.repair_status;
      } in
      if is_partial outcome.base.operation_status
      then record reported {
        unresolved_targets = some (listed_targets outcome.unresolved_targets);
        partial_contract_id = some "qste-repair-chain/v0.1";
        reason_code = "partial_completion";
        cli_exit_class = 6;
      }
      else reported

  -- `_p8_result`
  unfoldable pub policy_result : Schemas F → String → PolicyOutcome F → Result (OperationResult F)
  policy_result schemas operation outcome = validated schemas (policy_record operation outcome)
