-- ===== src/Operations/Results.antt =====
-- `OperationResult` of src/qste/operations.py, the errors that it is made from, and its structural
-- check `_validate_operation_semantics` of src/qste/core/contracts.py.
use qste.Base.{
  ℕ, String, Bool, true, false, not, ◌&&◌, ◌==◌, Option, none, some, List, [], ◌∷◌, str_eq,
  contains, any, if◌then◌else◌, Result, ok, ◌>>=◌, ◌>>◌, raise_if, conformance_failed, ReasonCode,
}
use qste.Core.Json.{Json, Items, Fields}

pub data OperationStatus : Type 0 where
  completed : OperationStatus
  refused : OperationStatus
  unavailable : OperationStatus
  partial : OperationStatus
  failed : OperationStatus

-- The members of a result; `domain_status` lists the members of its object.
pub record OperationResult (F : Type 0) : Type 0 where
  pub operation : String
  pub value_type : String
  pub operation_status : OperationStatus
  pub value : Json F
  pub reason_code : String
  pub authorization_status : String
  pub capability_status : String
  pub receipt_id : String
  pub diagnostics : Fields F
  pub domain_status : Option (List (String × String))
  pub unresolved_targets : Option (List String)
  pub partial_contract_id : Option String
  pub cli_exit_class : ℕ

abbrev pub is_completed : OperationStatus → Bool
is_completed completed = true
is_completed _ = false

-- `"indeterminate" in domain.values()`
abbrev pub is_indeterminate : String × String → Bool
is_indeterminate member = str_eq member.1 "indeterminate"

unfoldable pub has_indeterminate : Option (List (String × String)) → Bool
has_indeterminate none = false
has_indeterminate (some members) = any is_indeterminate members

abbrev pub is_present {ℓ} : {A : Type ℓ} → Option A → Bool
is_present none = false
is_present (some _) = true

-- `expected_by_reason.get(reason, -1)`, where -1 is no exit class of a result.
unfoldable pub expected_by_reason : String → Option ℕ
expected_by_reason reason =
    if contains reason
      ("invalid_input" ∷ "invalid_assessment_spec" ∷ "invalid_comparison_spec" ∷ [])
    then some 2
    else if str_eq reason "execution_failed"
    then some 7
    else if str_eq reason "conformance_failed"
    then some 8
    else if str_eq reason "internal_error"
    then some 9
    else none

abbrev pub exit_eq : Option ℕ → ℕ → Bool
exit_eq none n = false
exit_eq (some m) n = m == n

module _ {F : Type 0} where
  -- The exit class that the branch of the result's status expects.
  unfoldable pub expected_exit : OperationResult F → OperationStatus → Result (Option ℕ)
  expected_exit r completed = do
    raise_if (not (contains r.authorization_status ("permitted" ∷ "not_applicable" ∷ [])))
        conformance_failed
    raise_if (not (contains r.capability_status ("available" ∷ "degraded" ∷ []))) conformance_failed
    ok (some (if has_indeterminate r.domain_status then 5 else 0))
  expected_exit r refused = do
    raise_if (not (str_eq r.reason_code "policy_refused")) conformance_failed
    ok (some 3)
  expected_exit r unavailable = do
    raise_if (not (str_eq r.reason_code "capability_unavailable")) conformance_failed
    raise_if (not (contains r.capability_status ("unavailable" ∷ "untested" ∷ [])))
        conformance_failed
    ok (some 4)
  expected_exit r partial = do
    raise_if (not (str_eq r.reason_code "partial_completion")) conformance_failed
    ok (some 6)
  expected_exit r failed = do
    raise_if
        (contains r.reason_code ("invalid_assessment_spec" ∷ "invalid_comparison_spec" ∷ [])
          && is_present r.domain_status)
        conformance_failed
    ok (expected_by_reason r.reason_code)

  -- `_validate_operation_semantics`
  unfoldable pub validate_operation_semantics : OperationResult F → Result (Unit {0})
  validate_operation_semantics r = do
    expected ← expected_exit r r.operation_status
    raise_if (not (exit_eq expected r.cli_exit_class)) conformance_failed

-- `ContractError` with the fields that a service may attach to it.
pub record ContractError (F : Type 0) : Type 0 where
  pub reason_code : ReasonCode
  pub message : String
  pub path : Items F
  pub receipt_id : Option String
  pub authorization_status : Option String
  pub capability_status : Option String
  pub diagnostics_extra : Fields F
