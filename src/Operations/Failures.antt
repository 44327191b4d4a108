-- ===== src/Operations/Failures.antt =====
-- `failure_result` of src/qste/operations.py, by which the command line reports an error. The record
-- identifier that it draws for an error without a receipt is the argument `fresh`.
use qste.Base.{
  ℕ, String, ◌≡◌, refl, false, ◌&&◌, Option, none, some, [], ◌∷◌, contains, if◌then◌else◌, Result,
  ok, ◌>>◌, ReasonCode, invalid_input, invalid_assessment_spec, invalid_comparison_spec,
  conformance_failed, capability_unavailable, policy_refused, partial_completion, execution_failed,
  internal_error, authority_unresolved, standing_unverified, standing_denied, resource_limit, arith,
  Answers, Answers-return,
}
use qste.Core.Json.{null, text, arr, Fields, end, field, set_field}
use qste.Operations.Results.{
  OperationStatus, refused, unavailable, failed, OperationResult, ContractError, is_present,
  validate_operation_semantics, expected_exit, expected_by_reason, is_completed,
}
use qste.Operations.Validation.{Schemas, validate_operation_result, uncompleted_lem}

-- The text of a reason code.
abbrev pub code_name : ReasonCode → String
code_name invalid_input = "invalid_input"
code_name invalid_assessment_spec = "invalid_assessment_spec"
code_name invalid_comparison_spec = "invalid_comparison_spec"
code_name conformance_failed = "conformance_failed"
code_name capability_unavailable = "capability_unavailable"
code_name policy_refused = "policy_refused"
code_name partial_completion = "partial_completion"
code_name execution_failed = "execution_failed"
code_name internal_error = "internal_error"
code_name authority_unresolved = "authority_unresolved"
code_name standing_unverified = "standing_unverified"
code_name standing_denied = "standing_denied"
code_name resource_limit = "resource_limit"

-- `getattr(error, name, default)`
abbrev pub get_or : String → Option String → String
get_or default none = default
get_or default (some s) = s

pub record Disposition : Type 0 where
  pub status : OperationStatus
  pub capability : String
  pub exit_class : ℕ

abbrev disposition : OperationStatus → String → ℕ → Disposition
disposition s c n = record { status = s; capability = c; exit_class = n }

-- The status, capability and exit class of an error, from its code and attached capability.
unfoldable pub disposition_of : ReasonCode → Option String → Disposition
disposition_of capability_unavailable c = disposition unavailable (get_or "unavailable" c) 4
disposition_of conformance_failed c = disposition failed "degraded" 8
disposition_of policy_refused c = disposition refused (get_or "prohibited" c) 3
disposition_of execution_failed c = disposition failed "degraded" 7
disposition_of internal_error c = disposition failed "degraded" 9
disposition_of _ c = disposition failed "available" 2

-- The errors that have a disposition of their own or that are invalid input, and the exit class
-- with which they are to be reported.
unfoldable pub reported_exit : ReasonCode → Option String → Option ℕ
reported_exit invalid_input c = some 2
reported_exit invalid_assessment_spec c = some 2
reported_exit invalid_comparison_spec c = some 2
reported_exit policy_refused c = some 3
reported_exit capability_unavailable c =
    if contains (get_or "unavailable" c) ("unavailable" ∷ "untested" ∷ []) then some 4 else none
reported_exit execution_failed c = some 7
reported_exit conformance_failed c = some 8
reported_exit internal_error c = some 9
reported_exit _ c = none

disposition-not_completed :
    (c : ReasonCode) (capability : Option String)
    → is_completed (disposition_of c capability).status ≡ false
unfolding disposition_of
disposition-not_completed c capability = ground arith

module _ {F : Type 0} where
  -- `{**fields, **extra}`
  unfoldable pub merge_fields : Fields F → Fields F → Fields F
  merge_fields fields end = fields
  merge_fields fields (field k v extra) = merge_fields (set_field k v fields) extra

  unfoldable pub failure_record : String → String → ContractError F → OperationResult F
  failure_record fresh operation e = record {
    operation = operation;
    value_type = "qste-payload/0.3.0/CapabilityAccount";
    operation_status = (disposition_of e.reason_code e.capability_status).status;
    value = null;
    reason_code = code_name e.reason_code;
    authorization_status = get_or "not_applicable" e.authorization_status;
    capability_status = (disposition_of e.reason_code e.capability_status).capability;
    receipt_id = get_or fresh e.receipt_id;
    diagnostics =
        merge_fields (field "message" (text e.message) (field "path" (arr e.path) end))
          e.diagnostics_extra;
    domain_status = none;
    unresolved_targets = none;
    partial_contract_id = none;
    cli_exit_class = (disposition_of e.reason_code e.capability_status).exit_class;
  }

  unfoldable pub failure_result :
      Schemas F → String → String → ContractError F → Result (OperationResult F)
  failure_result schemas fresh operation e =
      let result = failure_record fresh operation e in
      validate_operation_result schemas result >> ok result

  reported_semantics :
      (fresh operation : String) (e : ContractError F) (c : ReasonCode)
      → Answers
          (λ _.
            reported_exit c e.capability_status
            ≡ some (disposition_of c e.capability_status).exit_class)
          (is_present (reported_exit c e.capability_status))
          (validate_operation_semantics
            (failure_record fresh operation (record e { reason_code = c })))
  unfolding validate_operation_semantics expected_exit expected_by_reason failure_record
      disposition_of reported_exit
  reported_semantics fresh operation e capability_unavailable = ground arith
  reported_semantics fresh operation e c = ground arith

  -- The report of an error: `failure_result` returns exactly when the error's code and attached
  -- capability have an exit class and the schema accepts the result, which then has this exit
  -- class, the error's code and no value. Otherwise it raises an error itself: so it does for the
  -- codes of a refused appeal (`authority_unresolved`, `standing_unverified`, `standing_denied`)
  -- and for `resource_limit`.
  pub failure_result_lem :
      (schemas : Schemas F) (fresh operation : String) (e : ContractError F)
      → Answers
          (λ r.
            (reported_exit e.reason_code e.capability_status ≡ some r.cli_exit_class)
            × (r.reason_code ≡ code_name e.reason_code)
            × (r.value ≡ null))
          (schemas.result_conforms (failure_record fresh operation e)
            && is_present (reported_exit e.reason_code e.capability_status))
          (failure_result schemas fresh operation e)
  unfolding failure_result failure_record
  failure_result_lem schemas fresh operation e =
      let r = failure_record fresh operation e in
      let h = reported_semantics fresh operation e e.reason_code in
      let n = disposition-not_completed e.reason_code e.capability_status in
      Answers-return _ _ _ (validate_operation_result schemas r) r
        (uncompleted_lem schemas r _ _ n h) (λ _ x. (x, refl, refl))
