-- ===== src/Operations/Exits.antt =====
-- The exit classes of the results of src/qste/operations.py that carry a domain status, and the
-- outcome of `apply_repair` of src/qste/policy/service.py that `_p8_result` reports.
use qste.Operations.Outcomes.{validated, outcome_record, completed_record}
use qste.Operations.Domains.{
  PolicyOutcome, policy_record, policy_result, listed_targets, with_domain,
}
use qste.Policy.State.{RepairAction}
use qste.Base.{
  Bool, List, String, ◌++◌, ℕ, ◌∷◌, [], true, false, some, ◌≡◌, ok, Answers, ◌&&◌, Answers-return,
  none, refl, Option, Bool-cases, str_eq, inl, inr,
}
use qste.Policy.Appeals.{
  RepairStatus, RepairSpec, applied, impossible, partially_applied, superseded, unresolved_targets,
  repair_status_after,
}
use qste.Operations.Results.{
  OperationStatus, completed, validate_operation_semantics, expected_exit, OperationResult,
  has_indeterminate,
}
use qste.Core.Json.{Json, Fields}
use qste.Operations.Validation.{
  Schemas, payload_ok, validate_operation_result, validate_operation_result_lem,
}

abbrev pub status_name : RepairStatus → String
status_name RepairStatus.not_requested = "not_requested"
status_name RepairStatus.pending = "pending"
status_name applied = "applied"
status_name partially_applied = "partially_applied"
status_name impossible = "impossible"
status_name superseded = "superseded"

abbrev pub reason_of : RepairStatus → String
reason_of impossible = "repair_not_feasible"
reason_of partially_applied = "repair_partially_completed"
reason_of _ = "repair_completed"

abbrev pub operation_status_of : RepairStatus → OperationStatus
operation_status_of applied = completed
operation_status_of _ = OperationStatus.partial

-- `unresolved`, to which an infeasible repair is added.
abbrev pub remaining : Bool → List String → List String
remaining true unresolved = unresolved
remaining false unresolved = unresolved ++ "repair_not_feasible" ∷ []

module _ {F : Type 0} where
  -- The outcome of a repair with this status, with the repair receipt as its value.
  unfoldable pub repaired : RepairStatus → List String → Json F → String → ℕ → PolicyOutcome F
  repaired status targets value receipt sequence = record {
    base = record {
      value = value;
      value_type = "https://schemas.qste.invalid/0.3.0/records/repair-receipt.schema.json";
      receipt_id = receipt;
      receipt_authorization = "permitted";
      event_sequence = sequence;
      operation_status = operation_status_of status;
      reason_code = reason_of status;
    };
    authorization_status = "permitted";
    repair_status = some (status_name status);
    unresolved_targets = targets;
    safety_record_ids = [];
  }

  -- The outcome that `apply_repair` returns for this action and specification.
  unfoldable pub repair_outcome : RepairAction → RepairSpec → Json F → String → ℕ → PolicyOutcome F
  repair_outcome action spec value receipt sequence =
      let unresolved = unresolved_targets action spec in
      repaired (repair_status_after spec.feasible_change_or_stop unresolved)
        (remaining spec.feasible_change_or_stop unresolved) value receipt sequence

  pub accepted_lem :
      (schemas : Schemas F) (r : OperationResult F) (Q : OperationResult F → Type 0)
      → validate_operation_semantics r ≡ ok tt
      → Q r
      → Answers Q (schemas.result_conforms r && payload_ok schemas r) (validated schemas r)
  unfolding validated
  accepted_lem schemas r Q h q =
      let v : Answers (λ _. Unit {0}) true (validate_operation_semantics r) = rw h (refl, tt) in
      Answers-return (λ _. Unit {0}) Q _ (validate_operation_result schemas r) r
        (validate_operation_result_lem schemas r (Unit {0}) true v) (λ _ _. q)

  -- The result of a repair with this status.
  unfoldable pub Reports : RepairStatus → List String → OperationResult F → Type 0
  Reports applied targets r =
      (r.cli_exit_class ≡ 0) × (r.operation_status ≡ completed) × (r.unresolved_targets ≡ none)
  Reports _ targets r =
      (r.cli_exit_class ≡ 6)
      × (r.operation_status ≡ OperationStatus.partial)
      × (r.unresolved_targets ≡ some (listed_targets targets))

  repaired-Reports :
      (status : RepairStatus) (targets : List String) (value : Json F) (receipt : String)
      (sequence : ℕ)
      → (validate_operation_semantics
            (policy_record "apply_repair" (repaired status targets value receipt sequence))
          ≡ ok tt)
        × Reports status targets
            (policy_record "apply_repair" (repaired status targets value receipt sequence))
  unfolding validate_operation_semantics expected_exit policy_record repaired outcome_record
      has_indeterminate Reports
  repaired-Reports applied targets value receipt sequence = (refl, (refl, refl, refl))
  repaired-Reports status targets value receipt sequence = (refl, (refl, refl, refl))

  -- The result of a repair that was granted: `_p8_result` returns it exactly when the schemas accept
  -- it. A repair that is `applied` is a completed result with exit class 0 and no unresolved targets;
  -- any other is a partial result with exit class 6 that names an unresolved target at least.
  pub policy_result_lem :
      (schemas : Schemas F) (action : RepairAction) (spec : RepairSpec) (value : Json F)
      (receipt : String) (sequence : ℕ)
      → Answers
          (Reports
            (repair_status_after spec.feasible_change_or_stop (unresolved_targets action spec))
            (remaining spec.feasible_change_or_stop (unresolved_targets action spec)))
          (schemas.result_conforms
              (policy_record "apply_repair" (repair_outcome action spec value receipt sequence))
            && payload_ok schemas
                (policy_record "apply_repair" (repair_outcome action spec value receipt sequence)))
          (policy_result schemas "apply_repair" (repair_outcome action spec value receipt sequence))
  unfolding policy_result repair_outcome
  policy_result_lem schemas action spec value receipt sequence =
      let unresolved = unresolved_targets action spec in
      let status = repair_status_after spec.feasible_change_or_stop unresolved in
      let h =
        repaired-Reports status (remaining spec.feasible_change_or_stop unresolved) value receipt
          sequence in
      accepted_lem schemas _ (Reports status (remaining spec.feasible_change_or_stop unresolved))
        h.0 h.1

  pub completed_semantics :
      (fresh operation value_type : String) (value : Json F) (diagnostics : Fields F)
      (receipt : Option String)
      → validate_operation_semantics
          (completed_record fresh operation value_type value diagnostics receipt)
        ≡ ok tt
  unfolding validate_operation_semantics expected_exit completed_record has_indeterminate
  completed_semantics fresh operation value_type value diagnostics receipt = refl

  pub domain_semantics :
      (fresh operation value_type : String) (value : Json F) (diagnostics : Fields F)
      (receipt : Option String) (reason key status : String)
      → validate_operation_semantics (
          with_domain
            (completed_record fresh operation value_type value diagnostics receipt)
            reason
            key
            status)
        ≡ ok tt
  unfolding validate_operation_semantics expected_exit completed_record has_indeterminate
      with_domain
  domain_semantics fresh operation value_type value diagnostics receipt reason key status =
      elim (Bool-cases (str_eq status "indeterminate")) [ inl e ↦ rw e refl | inr e ↦ rw e refl ]
